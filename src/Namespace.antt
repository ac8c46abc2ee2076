-- ===== src/Namespace.antt =====
-- `AllowedNamespace` of api/v1alpha1/adminconnection_types.go: which namespaces may use an
-- `AdminConnection`.
pub mod Permitted
use mysql_dba_operator.Base.{
  Bytes, Bool, true, false, List, [], ◌∷◌, codes, ◌==◌, has_prefix, has_suffix, trim_suffix,
  if◌then◌else◌,
}
use mysql_dba_operator.Api.{AdminConnection}

abbrev pub star : Bytes
star = codes "*"

-- The body of the loop, for one entry of `AllowedNamespaces`.
entry_permits : Bytes → Bytes → Bool
entry_permits namespace allowed =
    if allowed == namespace
    then true
    else if has_suffix allowed star
    then has_prefix namespace (trim_suffix allowed star)
    else false

-- The loop.
entries_permit : Bytes → List Bytes → Bool
entries_permit namespace [] = false
entries_permit namespace (allowed ∷ rest) =
    let later = entries_permit namespace rest in
    if entry_permits namespace allowed then true else later

unfoldable pub allowed_namespace : AdminConnection → Bytes → Bool
unfolding entries_permit entry_permits
allowed_namespace admin namespace =
    if namespace == admin.meta.namespace
    then true
    else entries_permit namespace admin.spec.allowed_namespaces
