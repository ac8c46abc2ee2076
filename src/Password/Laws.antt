-- ===== src/Password/Laws.antt =====
-- What a generated password holds, for any draws below their bounds.
use mysql_dba_operator.Base.{
  ℕ, zero, suc, ◌+◌, ◌-◌, ◌≤◌, ◌<◌, Bytes, Bool, true, ◌≡◌, inl, inr, refl, sym, ap, ◌∙◌, some, [],
  ◌∷◌, ◌++◌, codes, length, length-append, length-set, get_elem?, get_elem?_total, get_elem?-set,
  set, count, count-append, count-set, all, any, ◌=?◌, arith,
}
use mathlib.Core.Path.{subst₃}
use mysql_dba_operator.Password.{
  upper_char_set, special_char_set, number_set, all_char_set, fill, swap, shuffle,
  generate_password,
}

-- The same characters, as often, in any order.
abbrev SameCounts : Bytes → Bytes → Type 0
SameCounts s t = (p : ℕ → Bool) → count p s ≡ count p t

get_elem?-all :
    (p : ℕ → Bool) (xs : Bytes) (i : ℕ) (c : ℕ)
    → all p xs ≡ true
    → get_elem? xs i ≡ some c
    → p c ≡ true
get_elem?-all p [] i c h e = cc
get_elem?-all p (x ∷ xs) zero c h e = ground arith
get_elem?-all p (x ∷ xs) (suc i) c h e = get_elem?-all p xs i c (ground arith) e

-- A swap within bounds keeps the length and the characters.
swap_lem :
    (s : Bytes) (i j : ℕ)
    → i < length s
    → j < length s
    → (t : Bytes) × (swap s i j ≡ some t) × (length t ≡ length s) × SameCounts t s
unfolding swap
swap_lem s i j hi hj =
    let (a, ea) = get_elem?_total s i hi in
    let (b, eb) = get_elem?_total s j hj in
    (
      set (set s i b) j a,
      rw (ea, eb),
      length-set (set s i b) j a ∙ length-set s i b,
      λ p. elim (get_elem?-set s i j b b eb) [
        | inl same ↦ omega (arith, count-set p s i a b ea, count-set p (set s i b) j b a same)
        | inr (e, same) ↦ omega (arith, count-set p s i a b ea, count-set p (set s i b) j b a same)
      ],
    )

-- Whether a character is in a set.
abbrev pub in_set : Bytes → ℕ → Bool
in_set charset c = any (λ d. d =? c) charset

-- What is asked of a password: its length, and how many characters of each class it has at least.
pub record IsPassword (len specials numbers uppers : ℕ) (s : Bytes) : Type 0 where
  pub length_exact : length s ≡ len
  pub has_specials : specials ≤ count (in_set special_char_set) s
  pub has_numbers : numbers ≤ count (in_set number_set) s
  pub has_uppers : uppers ≤ count (in_set upper_char_set) s

count_joined :
    (p : ℕ → Bool) (a b c d : Bytes)
    → count p (a ++ (b ++ (c ++ d))) ≡ count p a + (count p b + (count p c + count p d))
count_joined p a b c d =
    omega (arith, count-append p a (b ++ (c ++ d)), count-append p b (c ++ d), count-append p c d)

length_joined :
    (a b c d : Bytes)
    → length (a ++ (b ++ (c ++ d))) ≡ length a + (length b + (length c + length d))
length_joined a b c d =
    omega (arith, length-append a (b ++ (c ++ d)), length-append b (c ++ d), length-append c d)

-- The four parts, in any order, make a password.
joined-IsPassword :
    (len : ℕ) (a b c d t : Bytes)
    → length a + length b + length c ≤ len
    → length d ≡ len - length a - length b - length c
    → count (in_set special_char_set) a ≡ length a
    → count (in_set number_set) b ≡ length b
    → count (in_set upper_char_set) c ≡ length c
    → length t ≡ length (a ++ (b ++ (c ++ d)))
    → SameCounts t (a ++ (b ++ (c ++ d)))
    → IsPassword len (length a) (length b) (length c) t
joined-IsPassword len a b c d t fits ld ca cb cc' lt ct = record {
  length_exact = omega (arith, length_joined a b c d);
  has_specials =
      omega (arith, ct (in_set special_char_set), count_joined (in_set special_char_set) a b c d);
  has_numbers = omega (arith, ct (in_set number_set), count_joined (in_set number_set) a b c d);
  has_uppers =
      omega (arith, ct (in_set upper_char_set), count_joined (in_set upper_char_set) a b c d);
}

module _ (draw : ℕ → ℕ → ℕ) (below : (at bound : ℕ) → 0 < bound → draw at bound < bound) where
  -- Each round adds a character of the set.
  fill_lem :
      (p : ℕ → Bool) (charset : Bytes)
      → 0 < length charset
      → all p charset ≡ true
      → (rounds at : ℕ)
      → (s : Bytes) × (fill draw charset rounds at ≡ some s)
        × (length s ≡ rounds)
        × (count p s ≡ rounds)
  unfolding fill
  fill_lem p charset full h zero at = ([], refl, refl, refl)
  fill_lem p charset full h (suc rounds) at =
      let (c, e) = get_elem?_total charset (draw at (length charset)) (below at _ full) in
      let (s, e', len, cnt) = fill_lem p charset full h rounds (suc at) in
      let good = get_elem?-all p charset _ c h e in (c ∷ s, rw (e, e'), ap suc len, ground arith)

  shuffle_lem :
      (rounds i at : ℕ) (s : Bytes)
      → i + rounds ≤ length s
      → (t : Bytes) × (shuffle draw rounds i at s ≡ some t) × (length t ≡ length s) × SameCounts t s
  unfolding shuffle
  shuffle_lem zero i at s h = (s, refl, refl, λ p. refl)
  shuffle_lem (suc rounds) i at s h =
      let (u, e, len, same) =
        swap_lem s i (draw at (length s)) (omega arith) (below at _ (omega arith)) in
      let (t, e', len', same') = shuffle_lem rounds (suc i) (suc at) u (omega arith) in
      (t, rw e e', len' ∙ len, λ p. same' p ∙ same p)

  -- If the minimum counts fit into the length, a password is produced: no index is out of range, it
  -- has the length that is asked for, and as many special characters, digits and upper-case letters
  -- as are asked for at least.
  pub generate_password-IsPassword :
      (len specials numbers uppers : ℕ)
      → specials + numbers + uppers ≤ len
      → (s : Bytes) × (generate_password draw len specials numbers uppers ≡ some s)
        × IsPassword len specials numbers uppers s
  unfolding generate_password codes
  generate_password-IsPassword len specials numbers uppers fits =
      let (a, ea, la, ca) =
        fill_lem (in_set special_char_set) special_char_set (omega arith) refl specials 0 in
      let (b, eb, lb, cb) =
        fill_lem (in_set number_set) number_set (omega arith) refl numbers specials in
      let (c, ec, lc, cc') =
        fill_lem (in_set upper_char_set) upper_char_set (omega arith) refl uppers
          (specials + numbers) in
      let drawn = specials + numbers + uppers in
      let rest = len - specials - numbers - uppers in
      let (d, ed, ld, cd) =
        fill_lem (in_set all_char_set) all_char_set (omega arith) refl rest drawn in
      let s = a ++ (b ++ (c ++ d)) in
      let (t, et, lt, ct) = shuffle_lem (length s) 0 (drawn + rest) s (omega arith) in
      (
        t,
        rw (ea, eb, ec, ed) et,
        subst₃ (λ x y z. IsPassword len x y z t) la lb lc
            (joined-IsPassword len a b c d t (omega arith) (omega arith) (ca ∙ sym la) (cb ∙ sym lb)
              (cc' ∙ sym lc) lt ct),
      )
