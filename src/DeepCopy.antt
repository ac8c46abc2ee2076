-- ===== src/DeepCopy.antt =====
-- The copies of resources that the client's cache hands out: api/v1alpha1/zz_generated.deepcopy.go. A
-- pointer and a slice carry the address of what they point to, and a copy takes new addresses; what the
-- Kubernetes libraries copy is a parameter.
pub mod Common
pub mod AdminConnections
pub mod Databases
pub mod DatabaseUsers
pub mod Objects
pub mod Deep
pub mod Examples
use mysql_dba_operator.Base.{ℕ, suc, Option, none, some, List, [], ◌∷◌, ◌++◌}

-- What is stored at an address.
pub record Ref (A : Type 0) : Type 0 where
  pub at : ℕ
  pub value : A

-- `*A`
abbrev pub Pointer : Type 0 → Type 0
Pointer A = Option (Ref A)

-- `[]A`, `nil` or the whole of its array.
abbrev pub Slice : Type 0 → Type 0
Slice A = Option (Ref (List A))

-- Addresses below the number are in use.
abbrev pub Copy : Type 0 → Type 0
Copy A = ℕ → A × ℕ

abbrev pub pure : {A : Type 0} → A → Copy A
pure a n = (a, n)

infixl 5 ◌>>=◌
abbrev pub ◌>>=◌ : {A B : Type 0} → Copy A → (A → Copy B) → Copy B
m >>= f = λ n. f (m n).0 (m n).1

-- `new` and `make`
abbrev pub new : Copy ℕ
new n = (n, suc n)

-- A type of values: its `DeepCopyInto`, by what it leaves in `out`; the addresses that a value holds;
-- and the value with every address 0, which is what it says.
pub record Value (A : Type 0) : Type 0 where
  pub copy : A → Copy A
  pub addresses : A → List ℕ
  pub contents : A → A

-- No pointer or slice is in the values.
abbrev pub plain : {A : Type 0} → Value A
plain = record { copy = pure; addresses = λ a. []; contents = λ a. a }

module _ {A : Type 0} (v : Value A) where
  -- `nil`, or `DeepCopyInto` on what `new` makes.
  abbrev pub deep_copy : Pointer A → Copy (Pointer A)
  deep_copy none = pure none
  deep_copy (some r) = do
    out ← new
    value ← v.copy r.value
    pure (some (record { at = out; value = value }))

  abbrev pointer_addresses : Pointer A → List ℕ
  pointer_addresses none = []
  pointer_addresses (some r) = r.at ∷ v.addresses r.value

  abbrev pointer_contents : Pointer A → Pointer A
  pointer_contents none = none
  pointer_contents (some r) = some (record { at = 0; value = v.contents r.value })

  abbrev pub pointer : Value (Pointer A)
  pointer = record { copy = deep_copy; addresses = pointer_addresses; contents = pointer_contents }

  -- The loop over the members.
  abbrev pub copy_each : List A → Copy (List A)
  copy_each [] = pure []
  copy_each (a ∷ rest) = do first ← v.copy a; others ← copy_each rest; pure (first ∷ others)

  abbrev pub addresses_each : List A → List ℕ
  addresses_each [] = []
  addresses_each (a ∷ rest) = v.addresses a ++ addresses_each rest

  abbrev pub contents_each : List A → List A
  contents_each [] = []
  contents_each (a ∷ rest) = v.contents a ∷ contents_each rest

  abbrev copy_slice : Slice A → Copy (Slice A)
  copy_slice none = pure none
  copy_slice (some r) = do
    out ← new
    members ← copy_each r.value
    pure (some (record { at = out; value = members }))

  -- The built-in `copy`, which copies the members as they are.
  abbrev copy_flat : Slice A → Copy (Slice A)
  copy_flat none = pure none
  copy_flat (some r) = do out ← new; pure (some (record { at = out; value = r.value }))

  abbrev slice_addresses : Slice A → List ℕ
  slice_addresses none = []
  slice_addresses (some r) = r.at ∷ addresses_each r.value

  abbrev slice_contents : Slice A → Slice A
  slice_contents none = none
  slice_contents (some r) = some (record { at = 0; value = contents_each r.value })

  -- A slice copied member by member.
  abbrev pub slice : Value (Slice A)
  slice = record { copy = copy_slice; addresses = slice_addresses; contents = slice_contents }

  -- A slice copied by `copy`.
  abbrev pub flat : Value (Slice A)
  flat = record { copy = copy_flat; addresses = slice_addresses; contents = slice_contents }

-- The types of the Kubernetes libraries with pointers in them.
pub record Foreign : Type 1 where
  pub TypeMeta : Type 0
  pub ObjectMeta : Type 0
  pub ListMeta : Type 0
  pub SecretKeySelector : Type 0
  pub Time : Type 0
  pub object_meta : Value ObjectMeta
  pub list_meta : Value ListMeta
  pub secret_key_selector : Value SecretKeySelector
  pub time : Value Time
