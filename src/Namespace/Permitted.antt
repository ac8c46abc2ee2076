-- ===== src/Namespace/Permitted.antt =====
-- The documented meaning of `allowedNamespaces` (README.md), and that `AllowedNamespace` decides it.
use mysql_dba_operator.Base.{
  Bytes, true, ◌≡◌, ◌↔◌, ◌⊎◌, inl, inr, List, [], ◌∷◌, ◌++◌, ◌==◌, ==_iff, has_prefix_iff,
  has_suffix_iff, trim_suffix, trim_suffix-append, Any, any, any_iff, Bool-cases, arith, refl,
}
use mysql_dba_operator.Api.{AdminConnection}
use mysql_dba_operator.Namespace.{star, entry_permits, entries_permit, allowed_namespace}

-- An entry names a namespace, or is a prefix of its name with a trailing star.
abbrev pub Covers : Bytes → Bytes → Type 0
Covers namespace entry =
    (entry ≡ namespace)
    ⊎ ((prefix rest : Bytes) × (entry ≡ prefix ++ star) × (namespace ≡ prefix ++ rest))

entry_permits-Covers :
    (namespace entry : Bytes) → entry_permits namespace entry ≡ true → Covers namespace entry
unfolding entry_permits
entry_permits-Covers namespace entry h = elim (Bool-cases (entry == namespace)) [
  | inl same ↦ inl ((==_iff entry namespace).0 same)
  | inr other ↦
      let (prefix, e) = (has_suffix_iff entry star).0 (ground arith) in
      let trimmed = trim_suffix-append prefix star in
      let (rest, f) = (has_prefix_iff namespace (trim_suffix entry star)).0 (ground arith) in
      inr (prefix, rest, e, cc)
]

Covers-entry_permits :
    (namespace entry : Bytes) → Covers namespace entry → entry_permits namespace entry ≡ true
unfolding entry_permits
Covers-entry_permits namespace entry (inl same) = ground (arith, ==_iff entry namespace)
Covers-entry_permits namespace entry (inr (prefix, rest, e, f)) =
    let suffixed = (has_suffix_iff entry star).1 (prefix, e) in
    let trimmed = trim_suffix-append prefix star in
    let prefixed = (has_prefix_iff namespace (trim_suffix entry star)).1 (rest, cc) in ground arith

entries_permit-any :
    (namespace : Bytes) (entries : List Bytes)
    → entries_permit namespace entries ≡ any (entry_permits namespace) entries
unfolding entries_permit
entries_permit-any namespace [] = refl
entries_permit-any namespace (entry ∷ entries) =
    ground (arith, entries_permit-any namespace entries)

entries_permit_iff :
    (namespace : Bytes) (entries : List Bytes)
    → (entries_permit namespace entries ≡ true) ↔ Any (Covers namespace) entries
entries_permit_iff namespace entries = rw entries_permit-any (
    any_iff _ _
      (λ entry. (entry_permits-Covers namespace entry, Covers-entry_permits namespace entry))
      entries)

-- A namespace may use the connection exactly when it is the connection's own, or when an entry of
-- the list names it or ends in a star behind a prefix of its name.
pub allowed_namespace_iff :
    (admin : AdminConnection) (namespace : Bytes)
    → (allowed_namespace admin namespace ≡ true)
      ↔ ((namespace ≡ admin.meta.namespace) ⊎ Any (Covers namespace) admin.spec.allowed_namespaces)
unfolding allowed_namespace
allowed_namespace_iff admin namespace = elim (Bool-cases (namespace == admin.meta.namespace)) [
  | inl own ↦ rw own (λ _. inl ((==_iff _ _).0 own), λ _. refl)
  | inr other ↦ rw other (
    λ h. inr ((entries_permit_iff namespace _).0 h),
    elim [
      | inl own ↦ absurd (ground (arith, ==_iff namespace admin.meta.namespace))
      | inr m ↦ (entries_permit_iff namespace _).1 m
    ],
  )
]
