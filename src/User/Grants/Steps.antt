-- ===== src/User/Grants/Steps.antt =====
-- `revoke`, `grant` and `grantStatusUpdate` do nothing but calls.
use mysql_dba_operator.Base.{Bool, true, false, none, some, List, [], ◌∷◌}
use mysql_dba_operator.Api.{Database, DatabasePermission, DatabaseUser}
use mysql_dba_operator.Orm.{Handle}
use mysql_dba_operator.World.{Env, World, ok, err}
use mysql_dba_operator.World.Traces.{Moves}
use mysql_dba_operator.World.Steps.{AdmitsCalls, Steps-bind, Steps-call, steps}
use mysql_dba_operator.Ownership.Steps.{database_mine-Steps}
use mysql_dba_operator.Connection.Steps.{run-Steps}
use mysql_dba_operator.User.Grants.{
  grant_status_update, revoke, granted, grant_one, grant_each, grant,
}

module _ {R : World → World → Type 0} (c : AdmitsCalls R) (env : Env) (db : Handle) where
  pub grant_status_update-Steps :
      (user : DatabaseUser) (empty : Bool) → Moves R (grant_status_update env db user empty)
  unfolding grant_status_update
  grant_status_update-Steps user empty = search (steps, c)

  pub revoke-Steps : (user : DatabaseUser) → Moves R (revoke env db user)
  unfolding revoke
  revoke-Steps user =
      Steps-bind c _ _ (run-Steps c env db _)
        (elim [ some e ↦ search (steps, c) | none ↦ grant_status_update-Steps _ true ])

  grant_one-Steps :
      (user : DatabaseUser) (permission : DatabasePermission) (database : Database)
      → Moves R (grant_one env db user permission database)
  unfolding grant_one granted
  grant_one-Steps user permission database = search (steps, c, database_mine-Steps, run-Steps)

  grant_each-Steps :
      (user : DatabaseUser) (permissions : List DatabasePermission)
      → Moves R (grant_each env db user permissions)
  unfolding grant_each
  grant_each-Steps user [] = search (steps, c)
  grant_each-Steps user (permission ∷ rest) =
      let again = grant_each-Steps user rest in
      Steps-bind c _ _ (Steps-call c _ _) (elim [
        | err e ↦ search (steps, c)
        | ok d ↦ Steps-bind c _ _ (grant_one-Steps user permission d) (λ _. again)
      ])

  pub grant-Steps : (user : DatabaseUser) → Moves R (grant env db user)
  unfolding grant
  grant-Steps user =
      Steps-bind c _ _ (grant_each-Steps user _)
        (elim [ some e ↦ search (steps, c) | none ↦ grant_status_update-Steps _ false ])
