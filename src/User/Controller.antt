-- ===== src/User/Controller.antt =====
-- The reconciler of `DatabaseUser` resources. The errors that the branch for a user with a name finds
-- are those of a variable of the inner block: the `err` that `Reconcile` returns stays nil there.
pub mod Panics
pub mod Deletion
pub mod Calls
pub mod Safety
pub mod Progress
pub mod Steps
pub mod Returns
use mysql_dba_operator.Base.{
  ℕ, Bytes, Bool, true, false, not, ◌&&◌, ◌||◌, Option, none, some, List, [], ◌∷◌, ◌++◌, codes,
  ◌==◌, ltb, length, if◌then◌else◌,
}
use mysql_dba_operator.Api.{
  NamespacedName, OwnerReference, ObjectMeta, SecretKeySelector, Secret, Identification,
  DatabaseUser,
}
use mysql_dba_operator.Orm.{Handle, ManagedUser}
use mysql_dba_operator.Password.{generate_password}
use mysql_dba_operator.World.{
  Env, Log, Error, not_found, failure, Result, ok, err, get_user, create_secret, update_secret,
  update_user, update_user_status, save_managed_user, delete_managed_user, commit,
}
use mysql_dba_operator.World.Exec.{Exec, pure, crash, ◌>>=◌, ◌>>◌, call, look, note}
use mysql_dba_operator.Ownership.{user_mine}
use mysql_dba_operator.Connection.{run, get_secret_at}
use mysql_dba_operator.Acquire.{Connected, acquire, first_error}
use mysql_dba_operator.User.Grants.{
  quoted_user, permission_list_equal, with_grants, grant_status_update, revoke, grant,
}
use mysql_dba_operator.User.Details.{deref, refresh_user, user_detail_string}
use mysql_dba_operator.User.Lifecycle.{
  with_message, with_username, user_create, user_update, finalize_user,
}
use mysql_dba_operator.User.Secrets.{secret_ownership_ok, secret_of, take_secret}

abbrev pub user_finalizer : Bytes
user_finalizer = codes "mysql.apps.cuppett.dev/user-finalizer"

module _ (env : Env) where
  -- Without a connection the log line of the other branch reads the host through a nil pointer.
  released : Option Connected → DatabaseUser → Exec (Option Error)
  released none user = crash
  released (some c) user = do
    mine ← user_mine env c.db user
    if mine then finalize_user env c.db user else pure none

  pub unfinalized : DatabaseUser → DatabaseUser
  unfinalized user = record user { meta = env.remove_finalizer user.meta user_finalizer }

  pub save_user : DatabaseUser → Exec (Option Error)
  save_user user = call (λ log. env.update_user log user) (update_user user)

  pub save_status : DatabaseUser → Exec (Option Error)
  save_status user = call (λ log. env.update_user_status log user) (update_user_status user)

  pub deleted : Option Connected → DatabaseUser → Exec (Option Error)
  deleted connection user =
      if env.contains_finalizer user.meta user_finalizer
      then (do
        refused ← released connection user
        elim refused [ some e ↦ pure (some e) | none ↦ save_user (unfinalized user) ])
      else pure none

  pub unavailable : Option Error → DatabaseUser → Exec (Option Error)
  unavailable admin_error user = do
    failed ←
        save_status (
          with_message (codes "Failed to further reconcile against current admin connection.") user)
    pure (first_error failed admin_error)

  -- `!exists`: the time and the message are set whatever `userCreate` returned.
  pub created : Option Secret → Handle → DatabaseUser → Exec (Option Error × DatabaseUser)
  created secret db user = do
    (e, made) ← user_create env secret db user
    time ← look env.now
    pure (
      e,
      with_message (codes "Created user")
          (record made { status = record (made.status) { creation_time = time } }),
    )

  pub stamped : Bool × Option Error × DatabaseUser → Exec (Option Error × DatabaseUser)
  stamped (false, e, user) = pure (e, user)
  stamped (true, e, user) = do
    time ← look env.now
    pure (e, record user { status = record (user.status) { sync_time = time } })

  updated : Option Secret → Handle → DatabaseUser → Exec (Option Error × DatabaseUser)
  updated secret db user = do outcome ← user_update env secret db user; stamped outcome

  pub checked_update : Option Secret → Handle → DatabaseUser → Exec (Option Error × DatabaseUser)
  checked_update secret db user = do
    mine ← user_mine env db user
    if mine
        then updated secret db user
        else pure (none, with_message (codes "Ownership failed. Unable to update user.") user)

  create_or_update :
      Bool → Option Secret → Handle → DatabaseUser → Exec (Option Error × DatabaseUser)
  create_or_update true secret db user = checked_update secret db user
  create_or_update false secret db user = created secret db user

  -- A failure is logged and nothing more; else the status is saved.
  pub concluded : Option Error × DatabaseUser → Exec (Option Error)
  concluded (some e, final) = pure none
  concluded (none, final) = do _ ← save_status final; pure none

  -- The branch with the name, the secret and the finalizer in place.
  pub provision : Option Secret → Handle → DatabaseUser → Exec (Option Error)
  provision secret db user = do
    (exists, found) ← refresh_user env db user
    outcome ← create_or_update exists secret db found
    concluded outcome

  pub finalized : DatabaseUser → DatabaseUser
  finalized user = record user { meta = env.add_finalizer user.meta user_finalizer }

  -- The branches behind the test of the secret's owner.
  pub owned : Bool → Option Secret → Handle → DatabaseUser → Exec (Option Error)
  owned false secret db user = take_secret env secret user
  owned true secret db user =
      if not (env.contains_finalizer user.meta user_finalizer)
      then save_user (finalized user)
      else if not (user.status.username == [])
      then provision secret db user
      else save_status (with_message (codes "Invalid username specified.") user)

  pub prepared : Option Secret → Handle → DatabaseUser → Exec (Option Error)
  prepared secret db user = do
    ok_owner ← secret_ownership_ok secret user
    owned ok_owner secret db user

  -- `Status.Username == "" && UserMine`: the second half is asked only if the first holds.
  pub claims_name : Handle → DatabaseUser → Exec Bool
  claims_name db user = if user.status.username == [] then user_mine env db user else pure false

  pub named : Option Secret → Handle → DatabaseUser → Exec (Option Error)
  named secret db user = do
    claims ← claims_name db user
    if claims then save_status (with_username user.spec.username user) else prepared secret db user

  pub present : Option Connected → Option Error → DatabaseUser → Exec (Option Error)
  present none admin_error user = unavailable admin_error user
  present (some c) admin_error user = do
    secret ← secret_of env user
    elim secret [ err e ↦ pure (some e) | ok s ↦ named s c.db user ]

  pub handle : DatabaseUser → Exec (Option Error)
  handle user = do
    (connection, admin_error) ← acquire env user.meta.namespace user.spec.admin_connection
    elim user.meta.deletion_timestamp [
      | some time ↦ deleted connection user
      | none ↦ present connection admin_error user
    ]

  -- The result is the error of `Reconcile`; its `ctrl.Result` is always empty.
  pub reconcile : NamespacedName → Exec (Option Error)
  reconcile request = do
    user ← call (λ log. env.get_user log request) (get_user request)
    elim user [
      | err not_found ↦ pure none
      | err (failure e) ↦ pure (some (failure e))
      | ok u ↦ handle u
    ]
