-- ===== src/DeepCopy/Deep.antt =====
-- When a copy is deep: it says the same, and each address in it is new.
pub mod Structs
pub mod Objects
use mysql_dba_operator.Base.{
  ℕ, suc, ◌≤◌, ◌<◌, ◌≡◌, refl, sym, subst, Option, none, some, List, [], ◌∷◌, ◌++◌, All, All-append,
  arith,
}
use mysql_dba_operator.DeepCopy.{
  Ref, Pointer, Slice, Copy, Value, Foreign, plain, deep_copy, pointer, copy_each, addresses_each,
  contents_each, slice, flat,
}

-- Addresses that were taken from one number up to another.
pub record Span (n m : ℕ) (addresses : List ℕ) : Type 0 where
  pub grows : n ≤ m
  pub fresh : All (λ p. (n ≤ p) × (p < m)) addresses

pub record Copied {A : Type 0} (v : Value A) (n : ℕ) (a : A) (r : A × ℕ) : Type 0 where
  pub same : v.contents r.0 ≡ v.contents a
  pub span : Span n r.1 (v.addresses r.0)

-- Every copy is deep.
pub record Deep {A : Type 0} (v : Value A) : Type 0 where
  pub at : (n : ℕ) (a : A) → Copied v n a (v.copy a n)

wider :
    {n m l k : ℕ} (addresses : List ℕ)
    → l ≤ n
    → m ≤ k
    → All (λ p. (n ≤ p) × (p < m)) addresses
    → All (λ p. (l ≤ p) × (p < k)) addresses
wider [] below above h = h
wider (p ∷ rest) below above ((low, high), h) =
    ((omega arith, omega arith), wider rest below above h)

pub Span-none : (n : ℕ) → Span n n []
Span-none n = record { grows = omega arith; fresh = tt }

-- One copy after another.
pub Span-append : {n m k : ℕ} {xs ys : List ℕ} → Span n m xs → Span m k ys → Span n k (xs ++ ys)
Span-append {n} {m} {k} {xs} {ys} s t =
    let below : n ≤ m = s.grows in
    let above : m ≤ k = t.grows in
    record {
      grows = omega arith;
      fresh =
          All-append (λ p. (n ≤ p) × (p < k)) xs ys (wider xs (omega arith) t.grows s.fresh)
            (wider ys s.grows (omega arith) t.fresh);
    }

-- A new address, and what is stored there.
pub Span-new : {n m : ℕ} {xs : List ℕ} → Span (suc n) m xs → Span n m (n ∷ xs)
Span-new {n} {m} {xs} s =
    let below : suc n ≤ m = s.grows in
    record {
      grows = omega arith;
      fresh = ((omega arith, omega arith), wider xs (omega arith) (omega arith) s.fresh);
    }

pub plain-Deep : {A : Type 0} → Deep (plain {A = A})
plain-Deep = record { at = λ n a. record { same = refl; span = Span-none n } }

module _ {A : Type 0} (v : Value A) (d : Deep v) where
  pub deep_copy-Copied : (n : ℕ) (p : Pointer A) → Copied (pointer v) n p (deep_copy v p n)
  deep_copy-Copied n none = record { same = refl; span = Span-none n }
  deep_copy-Copied n (some r) =
      let c = d.at (suc n) r.value in record { same = rw (c.same) refl; span = Span-new c.span }

  pub pointer-Deep : Deep (pointer v)
  pointer-Deep = record { at = deep_copy-Copied }

  each_same :
      (n : ℕ) (members : List A)
      → contents_each v (copy_each v members n).0 ≡ contents_each v members
  each_same n [] = refl
  each_same n (a ∷ rest) = rw ((d.at n a).same, each_same (v.copy a n).1 rest) refl

  each-Span :
      (n : ℕ) (members : List A)
      → Span n (copy_each v members n).1 (addresses_each v (copy_each v members n).0)
  each-Span n [] = Span-none n
  each-Span n (a ∷ rest) = Span-append (d.at n a).span (each-Span (v.copy a n).1 rest)

  slice-Copied : (n : ℕ) (s : Slice A) → Copied (slice v) n s ((slice v).copy s n)
  slice-Copied n none = record { same = refl; span = Span-none n }
  slice-Copied n (some r) = record {
    same = rw (each_same (suc n) r.value) refl;
    span = Span-new (each-Span (suc n) r.value);
  }

  pub slice-Deep : Deep (slice v)
  slice-Deep = record { at = slice-Copied }

-- Members without addresses may be copied as they are.
module _ {A : Type 0} (v : Value A) (bare : (a : A) → v.addresses a ≡ []) where
  each_bare : (members : List A) → addresses_each v members ≡ []
  each_bare [] = refl
  each_bare (a ∷ rest) = rw (bare a, each_bare rest) refl

  flat-Copied : (n : ℕ) (s : Slice A) → Copied (flat v) n s ((flat v).copy s n)
  flat-Copied n none = record { same = refl; span = Span-none n }
  flat-Copied n (some r) = record {
    same = refl;
    span =
        Span-new
          (subst (λ l. Span (suc n) (suc n) l) (sym (each_bare r.value)) (Span-none (suc n)));
  }

  pub flat-Deep : Deep (flat v)
  flat-Deep = record { at = flat-Copied }

-- The Kubernetes libraries make deep copies of their own types.
pub record Documented (f : Foreign) : Type 0 where
  pub object_meta : Deep f.object_meta
  pub list_meta : Deep f.list_meta
  pub secret_key_selector : Deep f.secret_key_selector
  pub time : Deep f.time
