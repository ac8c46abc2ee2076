-- ===== src/User/Grants/Status.antt =====
-- `grantStatusUpdate` against what it promises: the status lists every grant that the server shows,
-- and the flag says whether it changed.
use mysql_dba_operator.Base.{
  ℕ, suc, Bytes, Bool, true, false, ◌≡◌, ◌↔◌, inl, inr, refl, ap, List, [], ◌∷◌, ◌++◌, arith,
  ==_refl, All, Any, ==_iff, Bool-cases, codes,
}
use mysql_dba_operator.World.{Value, null, text, opaque, Row}
use mysql_dba_operator.User.Grants.{sprint, contains, add_grant, add_row, add_rows}

-- The text of a value, which is `<nil>` for NULL.
pub text_of : Value → Bytes
text_of null = codes "<nil>"
text_of (text t) = t
text_of (opaque t) = t

sprint-text_of : (value : Value) → sprint value ≡ text_of value
unfolding sprint text_of
sprint-text_of null = refl
sprint-text_of (text t) = refl
sprint-text_of (opaque t) = refl

-- The texts that the server shows, but for the first row.
row_texts : Row → List Bytes
row_texts [] = []
row_texts ((key, value) ∷ row) = text_of value ∷ row_texts row

all_texts : List Row → List Bytes
all_texts [] = []
all_texts (row ∷ rows) = row_texts row ++ all_texts rows

pub shown_grants : List Row → List Bytes
shown_grants [] = []
shown_grants (first ∷ rows) = all_texts rows

-- The loops as one pass over the texts.
add_all : List Bytes → Bool × List Bytes → Bool × List Bytes
add_all [] state = state
add_all (t ∷ texts) state = add_all texts (add_grant t state)

add_all-append :
    (s t : List Bytes) (state : Bool × List Bytes)
    → add_all (s ++ t) state ≡ add_all t (add_all s state)
unfolding add_all
add_all-append [] t state = refl
add_all-append (a ∷ s) t state = add_all-append s t (add_grant a state)

add_row-add_all :
    (row : Row) (state : Bool × List Bytes) → add_row row state ≡ add_all (row_texts row) state
unfolding add_row add_all row_texts
add_row-add_all [] state = refl
add_row-add_all ((key, value) ∷ row) state =
    rw (sprint-text_of value) (add_row-add_all row (add_grant (text_of value) state))

add_rows-add_all :
    (i : ℕ) (rows : List Row) (state : Bool × List Bytes)
    → add_rows (suc i) rows state ≡ add_all (all_texts rows) state
unfolding add_rows all_texts
add_rows-add_all i [] state = unfold add_all in refl
add_rows-add_all i (row ∷ rows) state =
    rw (add_all-append (row_texts row) (all_texts rows) state, ← add_row-add_all row state)
      (ground (arith, add_rows-add_all (suc i) rows (add_row row state)))

add_rows-shown_grants :
    (rows : List Row) (state : Bool × List Bytes)
    → add_rows 0 rows state ≡ add_all (shown_grants rows) state
unfolding add_rows shown_grants
add_rows-shown_grants [] state = unfold add_all in refl
add_rows-shown_grants (first ∷ rows) state = add_rows-add_all 0 rows state

contains-append_left :
    (a b : List Bytes) (x : Bytes) → contains a x ≡ true → contains (a ++ b) x ≡ true
unfolding contains
contains-append_left [] b x h = cc
contains-append_left (n ∷ a) b x h = ground (arith, contains-append_left a b x)

contains_last : (a : List Bytes) (x : Bytes) → contains (a ++ x ∷ []) x ≡ true
unfolding contains
contains_last [] x = ground (arith, ==_refl x)
contains_last (n ∷ a) x = ground (arith, contains_last a x)

-- Every text is listed.
abbrev pub Lists : List Bytes → List Bytes → Type 0
Lists grants texts = All (λ t. contains grants t ≡ true) texts

add_grant-keeps :
    (g x : Bytes) (state : Bool × List Bytes)
    → contains state.1 x ≡ true
    → contains (add_grant g state).1 x ≡ true
unfolding add_grant
add_grant-keeps g x (u, grants) h = ground (arith, contains-append_left grants (g ∷ []) x h)

add_all-keeps :
    (texts : List Bytes) (x : Bytes) (state : Bool × List Bytes)
    → contains state.1 x ≡ true
    → contains (add_all texts state).1 x ≡ true
unfolding add_all
add_all-keeps [] x state h = h
add_all-keeps (t ∷ texts) x state h = add_all-keeps texts x _ (add_grant-keeps t x state h)

add_grant-adds : (g : Bytes) (state : Bool × List Bytes) → contains (add_grant g state).1 g ≡ true
unfolding add_grant
add_grant-adds g (u, grants) = ground (arith, contains_last grants g)

add_all-Lists :
    (texts : List Bytes) (state : Bool × List Bytes) → Lists (add_all texts state).1 texts
unfolding add_all
add_all-Lists [] state = tt
add_all-Lists (t ∷ texts) state =
    (add_all-keeps texts t _ (add_grant-adds t state), add_all-Lists texts (add_grant t state))

-- What is listed already changes nothing.
add_all_listed :
    (texts grants : List Bytes) (u : Bool)
    → Lists grants texts
    → add_all texts (u, grants) ≡ (u, grants)
unfolding add_all add_grant
add_all_listed [] grants u h = refl
add_all_listed (t ∷ texts) grants u (h, hs) = rw h (add_all_listed texts grants u hs)

-- The flag, once set, stays set.
add_all-true : (texts grants : List Bytes) → (add_all texts (true, grants)).0 ≡ true
unfolding add_all add_grant
add_all-true [] grants = refl
add_all-true (t ∷ texts) grants =
    ground (arith, add_all-true texts grants, add_all-true texts (grants ++ t ∷ []))

add_all_unlisted :
    (texts grants : List Bytes) → (add_all texts (false, grants)).0 ≡ false → Lists grants texts
unfolding add_all add_grant
add_all_unlisted [] grants h = tt
add_all_unlisted (t ∷ texts) grants h = elim (Bool-cases (contains grants t)) [
  | inl listed ↦ (listed, add_all_unlisted texts grants (rw (listed, add_all) at h))
  | inr fresh ↦ cc (add_all-true texts (grants ++ t ∷ []), rw (fresh, add_all) at h)
]

add_rows-Lists :
    (rows : List Row) (grants : List Bytes)
    → Lists (add_rows 0 rows (false, grants)).1 (shown_grants rows)
add_rows-Lists rows grants =
    rw add_rows-shown_grants (add_all-Lists (shown_grants rows) (false, grants))

contains_iff :
    (grants : List Bytes) (x : Bytes) → (contains grants x ≡ true) ↔ Any (λ n. n ≡ x) grants
unfolding contains
contains_iff [] x = ground arith
contains_iff (n ∷ a) x = ground (arith, contains_iff a x, ==_iff x n)

-- Every text is one of the grants.
abbrev pub Holds : List Bytes → List Bytes → Type 0
Holds grants texts = All (λ t. Any (λ n. n ≡ t) grants) texts

Lists-Holds : (grants texts : List Bytes) → Lists grants texts ↔ Holds grants texts
Lists-Holds grants [] = ground arith
Lists-Holds grants (t ∷ texts) = ground (arith, contains_iff grants t, Lists-Holds grants texts)

-- After an update the status holds every grant that the server shows behind the first row.
pub add_rows-Holds :
    (rows : List Row) (grants : List Bytes)
    → Holds (add_rows 0 rows (false, grants)).1 (shown_grants rows)
add_rows-Holds rows grants = (Lists-Holds _ _).0 (add_rows-Lists rows grants)

-- An update reports no change and leaves the status as it was exactly when the status listed every
-- shown grant before.
pub add_rows_unchanged_iff :
    (rows : List Row) (grants : List Bytes)
    → ((add_rows 0 rows (false, grants)) ≡ (false, grants)) ↔ Lists grants (shown_grants rows)
add_rows_unchanged_iff rows grants = rw add_rows-shown_grants (
  λ e. add_all_unlisted (shown_grants rows) grants (ap (λ (s : Bool × List Bytes). s.0) e),
  add_all_listed (shown_grants rows) grants false,
)

-- A second update from the same rows reports no change and keeps the list.
pub add_rows_idem :
    (rows : List Row) (grants : List Bytes)
    → add_rows 0 rows (false, (add_rows 0 rows (false, grants)).1)
      ≡ (false, (add_rows 0 rows (false, grants)).1)
add_rows_idem rows grants = (add_rows_unchanged_iff rows _).1 (add_rows-Lists rows grants)
