-- ===== src/Base/Lists.antt =====
-- Lists measured by native numbers, and predicates on their members.
use Prim.Native.Nat.{ℕ, zero, suc, ◌+◌, ◌<◌}
use mathlib.Core.Path.{◌≡◌, refl, ap}
use mathlib.Core.Bool.{Bool, true, false, ◌||◌, ◌&&◌}
use mathlib.Core.Logic.{◌⊎◌, ◌↔◌, inl, inr}
use mathlib.Core.Option.{Option, none, some}
use mathlib.Core.List.{List, [], ◌∷◌, ◌++◌}
use native.Mathlib.Omega.{arith}
use mysql_dba_operator.Base.Tests.{Bool-cases}

module _ {ℓ} {A : Type ℓ} where
  abbrev pub length : List A → ℕ
  length [] = 0
  length (x ∷ xs) = suc (length xs)

  pub length-append : (xs ys : List A) → length (xs ++ ys) ≡ length xs + length ys
  length-append [] ys = omega arith
  length-append (x ∷ xs) ys = omega (arith, length-append xs ys)

  -- The number of members that pass a test.
  abbrev pub count : (A → Bool) → List A → ℕ
  count p [] = 0
  count p (x ∷ xs) = let n = count p xs in elim (p x) [ true ↦ suc n | false ↦ n ]

  pub count-append : (p : A → Bool) (xs ys : List A) → count p (xs ++ ys) ≡ count p xs + count p ys
  count-append p [] ys = omega arith
  count-append p (x ∷ xs) ys = ground (arith, count-append p xs ys)

  -- Whether a member passes a test.
  abbrev pub any : (A → Bool) → List A → Bool
  any p [] = false
  any p (x ∷ xs) = p x || any p xs

  abbrev pub all : (A → Bool) → List A → Bool
  all p [] = true
  all p (x ∷ xs) = p x && all p xs

  pub any-append : (p : A → Bool) (xs ys : List A) → any p (xs ++ ys) ≡ (any p xs || any p ys)
  any-append p [] ys = refl
  any-append p (x ∷ xs) ys = ground (arith, any-append p xs ys)

module _ {ℓ κ} {A : Type ℓ} (P : A → Type κ) where
  abbrev pub All : List A → Type κ
  All [] = Unit
  All (x ∷ xs) = P x × All xs

  pub All-append : (xs ys : List A) → All xs → All ys → All (xs ++ ys)
  All-append [] ys _ hy = hy
  All-append (x ∷ xs) ys (px, hx) hy = (px, All-append xs ys hx hy)

module _ {ℓ} {A : Type ℓ} (P : A → Type 0) where
  -- Some member has the property: which one is kept.
  abbrev pub Any : List A → Type 0
  Any [] = ⊥
  Any (x ∷ xs) = P x ⊎ Any xs

any_sound {ℓ} :
    {A : Type ℓ} (p : A → Bool) (P : A → Type 0)
    → ((x : A) → p x ≡ true → P x)
    → (xs : List A) → any p xs ≡ true
    → Any P xs
any_sound p P h [] e = cc
any_sound p P h (x ∷ xs) e = elim (Bool-cases (p x)) [
  | inl yes_x ↦ inl (h x yes_x)
  | inr no_x ↦ inr (any_sound p P h xs (ground arith))
]

any_complete {ℓ} :
    {A : Type ℓ} (p : A → Bool) (P : A → Type 0)
    → ((x : A) → P x → p x ≡ true)
    → (xs : List A) → Any P xs
    → any p xs ≡ true
any_complete p P h [] m = absurd m
any_complete p P h (x ∷ xs) (inl m) = ground (arith, h x m)
any_complete p P h (x ∷ xs) (inr m) = ground (arith, any_complete p P h xs m)

-- A search by a test that decides a property decides whether some member has it.
pub any_iff {ℓ} :
    {A : Type ℓ} (p : A → Bool) (P : A → Type 0)
    → ((x : A) → (p x ≡ true) ↔ P x)
    → (xs : List A) → (any p xs ≡ true) ↔ Any P xs
any_iff p P h xs = (any_sound p P (λ x. (h x).0) xs, any_complete p P (λ x. (h x).1) xs)

module _ {ℓ} {A : Type ℓ} where
  abbrev pub get_elem? : List A → ℕ → Option A
  get_elem? [] i = none
  get_elem? (x ∷ xs) zero = some x
  get_elem? (x ∷ xs) (suc i) = get_elem? xs i

  -- A write out of bounds changes nothing.
  abbrev pub set : List A → ℕ → A → List A
  set [] i v = []
  set (x ∷ xs) zero v = v ∷ xs
  set (x ∷ xs) (suc i) v = x ∷ set xs i v

  pub length-set : (xs : List A) (i : ℕ) (v : A) → length (set xs i v) ≡ length xs
  length-set [] i v = refl
  length-set (x ∷ xs) zero v = refl
  length-set (x ∷ xs) (suc i) v = ap suc (length-set xs i v)

  pub get_elem?_total : (xs : List A) (i : ℕ) → i < length xs → (a : A) × (get_elem? xs i ≡ some a)
  get_elem?_total [] i h = elim h [ ]
  get_elem?_total (x ∷ xs) zero h = (x, refl)
  get_elem?_total (x ∷ xs) (suc i) h = get_elem?_total xs i (omega arith)

  -- A write replaces one member.
  pub count-set :
      (p : A → Bool) (xs : List A) (i : ℕ) (old v : A)
      → get_elem? xs i ≡ some old
      → count p (set xs i v) + count p (old ∷ []) ≡ count p xs + count p (v ∷ [])
  count-set p [] i old v h = cc
  count-set p (x ∷ xs) zero old v h = ground arith
  count-set p (x ∷ xs) (suc i) old v h = ground (arith, count-set p xs i old v h)

  pub get_elem?-set :
      (xs : List A) (i j : ℕ) (v b : A)
      → get_elem? xs j ≡ some b
      → (get_elem? (set xs i v) j ≡ some b) ⊎ ((i ≡ j) × (get_elem? (set xs i v) j ≡ some v))
  get_elem?-set [] i j v b h = cc
  get_elem?-set (x ∷ xs) zero zero v b h = inr (refl, refl)
  get_elem?-set (x ∷ xs) zero (suc j) v b h = inl h
  get_elem?-set (x ∷ xs) (suc i) zero v b h = inl h
  get_elem?-set (x ∷ xs) (suc i) (suc j) v b h = elim (get_elem?-set xs i j v b h) [
    | inl same ↦ inl same
    | inr (e, written) ↦ inr (ap suc e, written)
  ]
