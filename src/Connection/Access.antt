-- ===== src/Connection/Access.antt =====
-- `GetAdminConnection`: what it hands out, and what it does with the rest.
use mysql_dba_operator.Base.{Bytes, true, ◌≡◌, Option, none, some, [], arith, ◌==◌, if◌then◌else◌}
use mysql_dba_operator.Api.{NamespacedName, AdminConnectionRef, AdminConnection}
use mysql_dba_operator.Namespace.{allowed_namespace}
use mysql_dba_operator.World.{Env, World, Error, not_found, ok, err}
use mysql_dba_operator.World.Exec.{done, call}
use mysql_dba_operator.Connection.{checked, get_admin_connection}

-- The key under which the reference is looked up: the namespace of the object that refers stands in
-- for an empty one.
abbrev pub key_of : Bytes → AdminConnectionRef → NamespacedName
key_of namespace ref = record {
  namespace = if ref.namespace == [] then namespace else ref.namespace;
  name = ref.name;
}

module _ (env : Env) (namespace : Bytes) (ref : AdminConnectionRef) (w : World) where
  -- What `GetAdminConnection` hands out is what the API server has under the reference's key, is
  -- open to the namespace that asks, and comes without an error.
  pub get_admin_connection-allowed :
      {admin : AdminConnection} {e : Option Error}
      → (get_admin_connection env namespace ref w).0 ≡ done (some admin, e)
      → (env.get_admin w.log (key_of namespace ref) ≡ ok admin)
        × (allowed_namespace admin namespace ≡ true)
        × (e ≡ none)
  unfolding get_admin_connection checked call
  get_admin_connection-allowed h = ground arith

  -- A connection that is not there is no error.
  pub get_admin_connection_missing :
      env.get_admin w.log (key_of namespace ref) ≡ err not_found
      → (get_admin_connection env namespace ref w).0 ≡ done (none, none)
  unfolding get_admin_connection checked call
  get_admin_connection_missing h = rw h
