-- ===== src/User/Controller/Panics.antt =====
-- Where the reconciler of users reads through a nil pointer.
use mysql_dba_operator.Base.{ℕ, true, ◌≡◌, refl, none, some, [], ◌∷◌, ◌++◌, append_assoc}
use mysql_dba_operator.Api.{NamespacedName, Identification, DatabaseUser}
use mysql_dba_operator.Orm.{Handle}
use mysql_dba_operator.World.{Env, not_found, ok, err, World, Log, get_user, get_admin, first_user}
use mysql_dba_operator.World.Exec.{panic, call}
use mysql_dba_operator.Ownership.{named_user, user_exists}
use mysql_dba_operator.Connection.{get_admin_connection, checked}
use mysql_dba_operator.Connection.Access.{key_of}
use mysql_dba_operator.Acquire.{connect, acquire}
use mysql_dba_operator.User.Details.{refresh_user}
use mysql_dba_operator.User.Details.Authentication.{user_detail_string_no_secret}
use mysql_dba_operator.User.Lifecycle.{user_create}
use mysql_dba_operator.User.Controller.{
  user_finalizer, released, deleted, handle, reconcile, provision, create_or_update, created,
}

module _ (env : Env) where
  -- A user that is wanted with an identification but no password, and that does not exist: the
  -- attempt to create it panics, after the one query for the user and before any statement.
  pub provision_no_password :
      (db : Handle) (user : DatabaseUser) (identification : Identification) (w : World)
      → user.spec.identification ≡ some identification
      → identification.auth_string ≡ none
      → named_user (env.first_user w.log db user.status.username) ≡ none
      → provision env none db user w ≡ (
        panic,
        record w {
          log =
              w.log
              ++ (first_user db user.status.username (env.first_user w.log db user.status.username)
                  ∷ []);
        },
      )
  unfolding provision refresh_user user_exists call create_or_update created user_create
  provision_no_password db user identification w wanted passwordless gone =
      rw (gone, call)
        (rw (user_detail_string_no_secret env user identification true _ wanted passwordless))

  -- A user that is marked to be deleted and has the finalizer, while its `AdminConnection` is not
  -- there: `Reconcile` panics, and all that it has done are the two reads.
  pub reconcile_deleted_user_unconnected :
      (request : NamespacedName) (user : DatabaseUser) (time : ℕ) (w : World)
      → env.get_user w.log request ≡ ok user
      → user.meta.deletion_timestamp ≡ some time
      → env.contains_finalizer user.meta user_finalizer ≡ true
      → ((log : Log)
          → env.get_admin log (key_of user.meta.namespace user.spec.admin_connection)
            ≡ err not_found)
      → ((reconcile env request w).0 ≡ panic)
        × ((reconcile env request w).1.log
            ≡ w.log
              ++ (get_user request (ok user)
                  ∷ get_admin
                      (key_of user.meta.namespace user.spec.admin_connection)
                      (err not_found)
                  ∷ []))
  unfolding reconcile handle acquire get_admin_connection checked connect deleted released call
  reconcile_deleted_user_unconnected request user time w found marked kept missing =
      simp (found, missing, marked, kept, append_assoc) (refl, refl)
