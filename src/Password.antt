-- ===== src/Password.antt =====
-- `GeneratePassword` of api/v1alpha1/common.go. `rand.Int` is `draw`, by the number of the draw and
-- its bound; that the random source fails is not modelled. `none` is an index out of range, which
-- panics. The characters are ASCII, so a rune is a byte.
pub mod Laws
use mysql_dba_operator.Base.{
  ℕ, zero, suc, ◌+◌, ◌-◌, Bytes, Option, none, some, [], ◌∷◌, ◌++◌, codes, length, get_elem?, set,
}

abbrev pub lower_char_set : Bytes
lower_char_set = codes "abcdedfghijklmnopqrst"

abbrev pub upper_char_set : Bytes
upper_char_set = codes "ABCDEFGHIJKLMNOPQRSTUVWXYZ"

abbrev pub special_char_set : Bytes
special_char_set = codes "!@#$%&*"

abbrev pub number_set : Bytes
number_set = codes "0123456789"

abbrev pub all_char_set : Bytes
all_char_set = lower_char_set ++ (upper_char_set ++ (special_char_set ++ number_set))

infixl 5 ◌>>=◌
abbrev pub ◌>>=◌ {ℓ κ} : {A : Type ℓ} {B : Type κ} → Option A → (A → Option B) → Option B
none >>= f = none
some a >>= f = f a

-- `inRune[i], inRune[j] = inRune[j], inRune[i]`
pub swap : Bytes → ℕ → ℕ → Option Bytes
swap s i j = do a ← get_elem? s i; b ← get_elem? s j; some (set (set s i b) j a)

module _ (draw : ℕ → ℕ → ℕ) where
  -- A loop of `rounds` draws from a character set, the first of them the draw number `at`.
  pub fill : Bytes → ℕ → ℕ → Option Bytes
  fill charset zero at = some []
  fill charset (suc rounds) at = do
    c ← get_elem? charset (draw at (length charset))
    rest ← fill charset rounds (suc at)
    some (c ∷ rest)

  -- The loop that reorders the password, with `rounds` rounds left, at the index `i`.
  pub shuffle : ℕ → ℕ → ℕ → Bytes → Option Bytes
  shuffle zero i at s = some s
  shuffle (suc rounds) i at s = do
    swapped ← swap s i (draw at (length s))
    shuffle rounds (suc i) (suc at) swapped

  pub generate_password : ℕ → ℕ → ℕ → ℕ → Option Bytes
  generate_password password_length min_special_char min_num min_upper_case = do
    special ← fill special_char_set min_special_char 0
    numbers ← fill number_set min_num min_special_char
    upper ← fill upper_char_set min_upper_case (min_special_char + min_num)
    let remaining = password_length - min_special_char - min_num - min_upper_case
    let drawn = min_special_char + min_num + min_upper_case
    others ← fill all_char_set remaining drawn
    let password = special ++ (numbers ++ (upper ++ others))
    shuffle (length password) 0 (drawn + remaining) password
