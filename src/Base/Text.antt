-- ===== src/Base/Text.antt =====
-- Go strings: sequences of bytes. A literal of the source is `codes "…"`, which stays folded in
-- proofs.
use Prim.Native.Nat.{ℕ}
use Prim.Native.Char.{code}
use Prim.Native.String.{String}
use mathlib.Core.Path.{◌≡◌, refl, ap}
use mathlib.Core.Logic.{◌↔◌, ◌≢◌}
use mathlib.Core.Bool.{Bool, true, false, ◌&&◌, ◌||◌}
use mathlib.Core.List.{List, [], ◌∷◌, ◌++◌}
use native.Mathlib.Omega.{arith}
use mysql_dba_operator.Base.Tests.{◌=?◌, if◌then◌else◌}
use mysql_dba_operator.Base.Lists.{length, length-append}

abbrev pub Bytes : Type 0
Bytes = List ℕ

-- The code points of a text: its bytes, as every literal of the source is ASCII.
unfoldable pub codes : String → Bytes
codes String.[] = []
codes (String.◌∷◌ c s) = code c ∷ codes s

infix 50 ◌==◌
-- Go's `==` on strings.
unfoldable pub ◌==◌ : Bytes → Bytes → Bool
◌==◌ [] [] = true
◌==◌ [] (b ∷ t) = false
◌==◌ (a ∷ s) [] = false
◌==◌ (a ∷ s) (b ∷ t) = (a =? b) && (s == t)

==_sound : (s t : Bytes) → (s == t) ≡ true → s ≡ t
unfolding ◌==◌
==_sound [] [] h = refl
==_sound [] (b ∷ t) h = ground arith
==_sound (a ∷ s) [] h = ground arith
==_sound (a ∷ s) (b ∷ t) h = ground (arith, ==_sound s t)

pub ==_refl : (s : Bytes) → (s == s) ≡ true
unfolding ◌==◌
==_refl [] = refl
==_refl (a ∷ s) = ground (arith, ==_refl s)

pub ==_iff : (s t : Bytes) → ((s == t) ≡ true) ↔ (s ≡ t)
==_iff s t = (==_sound s t, λ e. ground (arith, ==_refl s))

-- strings.HasPrefix
unfoldable pub has_prefix : Bytes → Bytes → Bool
has_prefix s [] = true
has_prefix [] (b ∷ p) = false
has_prefix (a ∷ s) (b ∷ p) = (a =? b) && has_prefix s p

-- strings.HasSuffix
unfoldable pub has_suffix : Bytes → Bytes → Bool
has_suffix [] p = [] == p
has_suffix (a ∷ s) p = (a ∷ s) == p || has_suffix s p

-- strings.TrimSuffix
unfoldable pub trim_suffix : Bytes → Bytes → Bytes
trim_suffix [] p = []
trim_suffix (a ∷ s) p = let rest = trim_suffix s p in if (a ∷ s) == p then [] else a ∷ rest

has_prefix_sound : (s p : Bytes) → has_prefix s p ≡ true → (q : Bytes) × (s ≡ p ++ q)
unfolding has_prefix
has_prefix_sound s [] h = (s, refl)
has_prefix_sound [] (b ∷ p) h = cc
has_prefix_sound (a ∷ s) (b ∷ p) h =
    let (q, e) = has_prefix_sound s p (ground arith) in (q, ground arith)

pub has_prefix-append : (p q : Bytes) → has_prefix (p ++ q) p ≡ true
unfolding has_prefix
has_prefix-append [] q = refl
has_prefix-append (b ∷ p) q = ground (arith, has_prefix-append p q)

pub has_prefix_iff : (s p : Bytes) → (has_prefix s p ≡ true) ↔ ((q : Bytes) × (s ≡ p ++ q))
has_prefix_iff s p = (has_prefix_sound s p, λ (q, e). rw e (has_prefix-append p q))

has_suffix_sound : (s p : Bytes) → has_suffix s p ≡ true → s ≡ trim_suffix s p ++ p
unfolding has_suffix trim_suffix
has_suffix_sound [] p h = (==_iff [] p).0 h
has_suffix_sound (a ∷ s) p h = ground (arith, ==_iff (a ∷ s) p, has_suffix_sound s p)

has_suffix_self : (p : Bytes) → has_suffix p p ≡ true
unfolding has_suffix
has_suffix_self [] = ==_refl []
has_suffix_self (b ∷ p) = ground (arith, ==_refl (b ∷ p))

has_suffix-append : (s p : Bytes) → has_suffix (s ++ p) p ≡ true
unfolding has_suffix
has_suffix-append [] p = has_suffix_self p
has_suffix-append (a ∷ s) p = ground (arith, has_suffix-append s p)

append-ne_self : (a : ℕ) (s p : Bytes) → a ∷ s ++ p ≢ p
append-ne_self a s p e = omega (arith, ap (length {0}) e, length-append s p)

trim_suffix_self : (p : Bytes) → trim_suffix p p ≡ []
unfolding trim_suffix
trim_suffix_self [] = refl
trim_suffix_self (b ∷ p) = ground (arith, ==_refl (b ∷ p))

pub trim_suffix-append : (s p : Bytes) → trim_suffix (s ++ p) p ≡ s
unfolding trim_suffix
trim_suffix-append [] p = trim_suffix_self p
trim_suffix-append (a ∷ s) p =
    ground (arith, trim_suffix-append s p, ==_iff (a ∷ s ++ p) p, append-ne_self a s p)

pub has_suffix_iff : (s p : Bytes) → (has_suffix s p ≡ true) ↔ ((q : Bytes) × (s ≡ q ++ p))
has_suffix_iff s p =
    (λ h. (trim_suffix s p, has_suffix_sound s p h), λ (q, e). rw e (has_suffix-append q p))

pub ==_differs : (s t : Bytes) → (s == t) ≡ false → s ≢ t
==_differs s t h = λ e. ground (arith, ==_iff s t)
