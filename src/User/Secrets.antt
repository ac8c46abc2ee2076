-- ===== src/User/Secrets.antt =====
-- The secret with the password of a `DatabaseUser` (controllers/databaseuser_controller.go): it is read,
-- made where it is not there, and taken over.
pub mod Calls
pub mod Steps
pub mod Returns
use mysql_dba_operator.Base.{
  ℕ, Bytes, Bool, true, false, not, ◌&&◌, ◌||◌, Option, none, some, List, [], ◌∷◌, ◌++◌, codes,
  ◌==◌, ltb, length, if◌then◌else◌,
}
use mysql_dba_operator.Api.{
  NamespacedName, OwnerReference, ObjectMeta, SecretKeySelector, Secret, Identification,
  DatabaseUser,
}
use mysql_dba_operator.Orm.{Handle, ManagedUser}
use mysql_dba_operator.Password.{generate_password}
use mysql_dba_operator.World.{
  Env, Log, Error, not_found, failure, Result, ok, err, get_user, create_secret, update_secret,
  update_user, update_user_status, save_managed_user, delete_managed_user, commit,
}
use mysql_dba_operator.World.Exec.{Exec, pure, crash, ◌>>=◌, ◌>>◌, call, look, note}
use mysql_dba_operator.Ownership.{user_mine}
use mysql_dba_operator.Connection.{run, get_secret_at}
use mysql_dba_operator.Acquire.{Connected, acquire, first_error}
use mysql_dba_operator.User.Grants.{
  quoted_user, permission_list_equal, with_grants, grant_status_update, revoke, grant,
}
use mysql_dba_operator.User.Details.{deref, refresh_user, user_detail_string}
use mysql_dba_operator.User.Lifecycle.{
  with_message, with_username, user_create, user_update, finalize_user,
}

-- The loop over the owner references; `Controller` is read through a pointer that may be nil.
unfoldable pub owned_by : Bytes → List OwnerReference → Exec Bool
owned_by uid [] = pure false
owned_by uid (owner ∷ rest) =
    let later = owned_by uid rest in
    if owner.uid == uid
    then (elim owner.controller [ none ↦ crash | some true ↦ pure true | some false ↦ later ])
    else later

unfoldable pub secret_ownership_ok : Option Secret → DatabaseUser → Exec Bool
secret_ownership_ok none user = pure true
secret_ownership_ok (some secret) user = owned_by user.meta.uid secret.meta.owner_references

module _ (env : Env) where
  -- The new secret, its metadata empty but for the name and the namespace.
  new_secret : Bytes → SecretKeySelector → Bytes → Secret
  new_secret namespace selector password = record {
    meta = record {
      name = selector.name;
      namespace = namespace;
      uid = [];
      resource_version = [];
      deletion_timestamp = none;
      finalizers = [];
      owner_references = [];
    };
    entries = (selector.key, password) ∷ [];
  }

  pub create_secret_for : Bytes → SecretKeySelector → Exec (Result Secret)
  create_secret_for namespace selector = do
    password ← look (λ log. generate_password (env.draw log) 24 1 1 1)
    elim password [
      | none ↦ crash
      | some p ↦
          call (λ log. env.create_secret log (new_secret namespace selector p))
            (create_secret (new_secret namespace selector p))
    ]

  -- A secret that is not there is created.
  fetched : Bytes → SecretKeySelector → Result Secret → Exec (Result (Option Secret))
  fetched namespace selector (ok secret) = pure (ok (some secret))
  fetched namespace selector (err (failure e)) = pure (err (failure e))
  fetched namespace selector (err not_found) = do
    made ← create_secret_for namespace selector
    elim made [ err e ↦ pure (err e) | ok secret ↦ pure (ok (some secret)) ]

  selected : Bytes → Option SecretKeySelector → Exec (Result (Option Secret))
  selected namespace none = pure (ok none)
  selected namespace (some selector) = do
    secret ← get_secret_at env namespace selector
    fetched namespace selector secret

  -- `Spec.Identification.AuthString`, through both pointers.
  pub selector_of : Option Identification → Option SecretKeySelector
  selector_of none = none
  selector_of (some i) = elim i.auth_string [
    | none ↦ none
    | some source ↦ some source.secret_key_ref
  ]

  pub secret_of : DatabaseUser → Exec (Result (Option Secret))
  secret_of user = selected user.meta.namespace (selector_of user.spec.identification)

  unfoldable pub taken : Secret → DatabaseUser → Exec (Option Error)
  taken secret user = elim (env.set_controller_reference user secret) [
    | err e ↦ pure (some e)
    | ok owned ↦ call (λ log. env.update_secret log owned) (update_secret owned)
  ]

  -- `SetControllerReference` on `loop.secret`.
  unfoldable pub take_secret : Option Secret → DatabaseUser → Exec (Option Error)
  take_secret secret user = do s ← deref secret; taken s user
