-- ===== src/User/Controller/Steps.antt =====
-- A reconciliation of a `DatabaseUser` is calls and `GetDatabaseConnection`.
use mysql_dba_operator.Base.{ℕ, Bool, true, false, Option, none, some}
use mysql_dba_operator.Api.{NamespacedName, Secret, DatabaseUser}
use mysql_dba_operator.Orm.{Handle}
use mysql_dba_operator.World.{Env, World, Error, not_found, failure, ok, err}
use mysql_dba_operator.World.Traces.{Moves}
use mysql_dba_operator.World.Steps.{
  AdmitsCalls, Steps-pure, Steps-bind, Steps-call, Steps-if, steps,
}
use mysql_dba_operator.Ownership.Steps.{user_mine-Steps}
use mysql_dba_operator.Acquire.{Connected}
use mysql_dba_operator.Acquire.Steps.{AdmitsRuns, acquire-Steps}
use mysql_dba_operator.User.Details.Steps.{refresh_user-Steps}
use mysql_dba_operator.User.Lifecycle.Steps.{
  user_create-Steps, user_update-Steps, finalize_user-Steps,
}
use mysql_dba_operator.User.Secrets.Steps.{
  secret_ownership_ok-Steps, secret_of-Steps, take_secret-Steps,
}
use mysql_dba_operator.User.Controller.{
  released, save_user, save_status, deleted, unavailable, created, stamped, updated, checked_update,
  create_or_update, concluded, provision, owned, prepared, claims_name, named, present, handle,
  reconcile,
}

module _ {R : World → World → Type 0} (r : AdmitsRuns R) (env : Env) where
  abbrev c : AdmitsCalls R
  c = r.calls

  released-Steps :
      (connection : Option Connected) (user : DatabaseUser) → Moves R (released env connection user)
  unfolding released
  released-Steps none user = search (steps, c)
  released-Steps (some connected) user = search (steps, c, user_mine-Steps, finalize_user-Steps)

  save_user-Steps : (user : DatabaseUser) → Moves R (save_user env user)
  unfolding save_user
  save_user-Steps user = search (steps, c)

  save_status-Steps : (user : DatabaseUser) → Moves R (save_status env user)
  unfolding save_status
  save_status-Steps user = search (steps, c)

  deleted-Steps :
      (connection : Option Connected) (user : DatabaseUser) → Moves R (deleted env connection user)
  unfolding deleted
  deleted-Steps connection user =
      Steps-if c _ _ _
        (Steps-bind c _ _ (released-Steps connection user)
          (elim [ some e ↦ Steps-pure c (some e) | none ↦ save_user-Steps _ ]))
        (Steps-pure c none)

  stamped-Steps : (o : Bool × Option Error × DatabaseUser) → Moves R (stamped env o)
  unfolding stamped
  stamped-Steps (false, e, user) = search (steps, c)
  stamped-Steps (true, e, user) = search (steps, c)

  create_or_update-Steps :
      (exists : Bool) (secret : Option Secret) (db : Handle) (user : DatabaseUser)
      → Moves R (create_or_update env exists secret db user)
  unfolding create_or_update checked_update updated created
  create_or_update-Steps true secret db user =
      search (steps, c, user_mine-Steps, user_update-Steps, stamped-Steps)
  create_or_update-Steps false secret db user = search (steps, c, user_create-Steps)

  concluded-Steps : (o : Option Error × DatabaseUser) → Moves R (concluded env o)
  unfolding concluded
  concluded-Steps (some e, final) = search (steps, c)
  concluded-Steps (none, final) = search (steps, c, save_status-Steps)

  provision-Steps :
      (secret : Option Secret) (db : Handle) (user : DatabaseUser)
      → Moves R (provision env secret db user)
  unfolding provision
  provision-Steps secret db user =
      search (steps, c, refresh_user-Steps, create_or_update-Steps, concluded-Steps)

  owned-Steps :
      (b : Bool) (secret : Option Secret) (db : Handle) (user : DatabaseUser)
      → Moves R (owned env b secret db user)
  unfolding owned
  owned-Steps false secret db user = take_secret-Steps c env secret user
  owned-Steps true secret db user =
      search (steps, c, save_user-Steps, provision-Steps, save_status-Steps)

  named-Steps :
      (secret : Option Secret) (db : Handle) (user : DatabaseUser)
      → Moves R (named env secret db user)
  unfolding named claims_name prepared
  named-Steps secret db user =
      search (steps, c, user_mine-Steps, save_status-Steps, secret_ownership_ok-Steps, owned-Steps)

  present-Steps :
      (connection : Option Connected) (e : Option Error) (user : DatabaseUser)
      → Moves R (present env connection e user)
  unfolding present unavailable
  present-Steps none e user = search (steps, c, save_status-Steps)
  present-Steps (some connected) e user =
      Steps-bind c _ _ (secret_of-Steps c env user)
        (elim [ err x ↦ Steps-pure c (some x) | ok s ↦ named-Steps s connected.db user ])

  handle-Steps : (user : DatabaseUser) → Moves R (handle env user)
  unfolding handle
  handle-Steps user =
      Steps-bind c _ _ (acquire-Steps r env _ _)
        (λ (connection, e). go user.meta.deletion_timestamp connection e)
    where
      go :
          (time : Option ℕ) (connection : Option Connected) (e : Option Error)
          → Moves R (elim time [
            | some t ↦ deleted env connection user
            | none ↦ present env connection e user
          ])
      go (some t) connection e = deleted-Steps connection user
      go none connection e = present-Steps connection e user

  pub reconcile-Steps : (request : NamespacedName) → Moves R (reconcile env request)
  unfolding reconcile
  reconcile-Steps request = Steps-bind c _ _ (Steps-call c _ _) (elim [
    | err not_found ↦ search (steps, c)
    | err (failure e) ↦ search (steps, c)
    | ok u ↦ handle-Steps u
  ])
