-- ===== src/DatabaseController/Sql.antt =====
-- What MySQL reads of the name that the statements of the reconciler put between backticks: the
-- server's rule for quoted identifiers, stated independently of the queries.
use mysql_dba_operator.Base.{
  ℕ, Bytes, Bool, true, false, ◌≡◌, ◌≢◌, refl, Option, none, some, [], ◌∷◌, ◌++◌, append_assoc,
  append-nil, All, arith, codes, ◌=?◌, if◌then◌else◌,
}
use mysql_dba_operator.DatabaseController.{quoted}

-- A backtick ends the identifier, two in a row stand for one; the flag is set behind a backtick. The
-- result is the identifier and the input behind it.
read_identifier : Bool → Bytes → Bytes → Option (Bytes × Bytes)
read_identifier false [] name = none
read_identifier true [] name = some (name, [])
read_identifier false (c ∷ s) name =
    let tick = read_identifier true s name in
    let more = read_identifier false s (name ++ c ∷ []) in if c =? 96 then tick else more
read_identifier true (c ∷ s) name =
    let again = read_identifier false s (name ++ 96 ∷ []) in
    if c =? 96 then again else some (name, c ∷ s)

-- Reads an identifier in backticks.
pub read_quoted : Bytes → Option (Bytes × Bytes)
read_quoted [] = none
read_quoted (c ∷ s) = if c =? 96 then read_identifier false s [] else none

abbrev pub Lacks : ℕ → Bytes → Type 0
Lacks b = All (λ c. c ≢ b)

abbrev pub StartsOther : ℕ → Bytes → Type 0
StartsOther b [] = Unit
StartsOther b (c ∷ s) = c ≢ b

read_plain :
    (part rest name : Bytes)
    → Lacks 96 part
    → read_identifier false (part ++ rest) name ≡ read_identifier false rest (name ++ part)
unfolding read_identifier
read_plain [] rest name h = rw append-nil
read_plain (c ∷ part) rest name (hc, h) =
    ground (arith, read_plain part rest (name ++ c ∷ []) h, append_assoc name (c ∷ []) part)

read_end :
    (rest name : Bytes)
    → StartsOther 96 rest
    → read_identifier false (96 ∷ rest) name ≡ some (name, rest)
unfolding read_identifier
read_end [] name h = refl
read_end (c ∷ rest) name h = ground arith

-- A name with no backtick is read back whole from between its quotes, and what follows it is left,
-- if that does not start with a backtick.
pub read_quoted-quoted :
    (name rest : Bytes)
    → Lacks 96 name
    → StartsOther 96 rest
    → read_quoted (quoted name ++ rest) ≡ some (name, rest)
unfolding read_quoted quoted codes
read_quoted-quoted name rest h e =
    rw (append_assoc name _ rest, read_plain name _ [] h) (read_end rest name e)

-- A name that holds a backtick is cut there: with `front` before its first backtick and `back`, which
-- does not start with another, behind it, the quoted text names the database `front`, and `back` is
-- read as part of the statement.
pub read_quoted-quoted_backtick :
    (front back : Bytes)
    → Lacks 96 front
    → StartsOther 96 back
    → (back ≢ [])
    → read_quoted (quoted (front ++ (96 ∷ back))) ≡ some (front, back ++ (96 ∷ []))
unfolding read_quoted quoted codes
read_quoted-quoted_backtick front [] h e ne = absurd (ne refl)
read_quoted-quoted_backtick front (c ∷ back) h e ne =
    rw (append_assoc front (96 ∷ c ∷ back) (96 ∷ []), read_plain front _ [] h)
      (read_end (c ∷ (back ++ (96 ∷ []))) front e)
