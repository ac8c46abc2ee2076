-- ===== src/Webhook/Verdicts.antt =====
-- When `ValidateCharsetCollationCombo` accepts a charset and a collation.
use mysql_dba_operator.Base.{
  Bytes, ◌≡◌, ◌↔◌, Option, none, some, List, [], ◌∷◌, ◌==◌, ==_iff, Any, Bool-cases, inl, inr,
  arith, if◌then◌else◌,
}
use mysql_dba_operator.Api.{Collation, Charset}
use mysql_dba_operator.Webhook.{check_collations, check_charsets}

-- The collations of the first charset of that name.
unfoldable pub find_charset : Bytes → List Charset → Option (List Collation)
find_charset name [] = none
find_charset name (c ∷ rest) =
    let later = find_charset name rest in if c.name == name then some c.collations else later

abbrev pub or_empty {ℓ} : {A : Type ℓ} → Option (List A) → List A
or_empty none = []
or_empty (some xs) = xs

abbrev pub Has : Bytes → List Collation → Type 0
Has collation entries = Any (λ (e : Collation). e.name ≡ collation) entries

check_collations-Has :
    (collation : Bytes) (entries : List Collation)
    → ((check_collations collation entries).1 ≡ none) ↔ Has collation entries
unfolding check_collations
check_collations-Has collation [] = ground arith
check_collations-Has collation (e ∷ rest) =
    ground (arith, check_collations-Has collation rest, ==_iff e.name collation)

-- A charset and a collation are accepted, with or without a warning, exactly when the collation is
-- among those of the first charset of that name.
pub check_charsets-Has :
    (charset collation : Bytes) (charsets : List Charset)
    → ((check_charsets charset collation charsets).1 ≡ none)
      ↔ Has collation (or_empty (find_charset charset charsets))
unfolding check_charsets find_charset
check_charsets-Has charset collation [] = ground arith
check_charsets-Has charset collation (c ∷ rest) = elim (Bool-cases (c.name == charset)) [
  | inl same ↦ rw same (check_collations-Has collation c.collations)
  | inr other ↦ rw other (check_charsets-Has charset collation rest)
]
