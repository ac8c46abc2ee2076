-- ===== src/User/Grants/Returns.antt =====
-- `revoke`, `grant` and `grantStatusUpdate` return.
use mysql_dba_operator.Base.{Bool, true, false, none, some, List, [], ◌∷◌}
use mysql_dba_operator.Api.{Database, DatabasePermission, DatabaseUser}
use mysql_dba_operator.Orm.{Handle}
use mysql_dba_operator.World.{Env, ok, err}
use mysql_dba_operator.World.Total.{Total, Total-call, Total-bind, returns}
use mysql_dba_operator.Ownership.Returns.{database_mine-Total}
use mysql_dba_operator.Connection.Returns.{run-Total}
use mysql_dba_operator.User.Grants.{
  grant_status_update, revoke, granted, grant_one, grant_each, grant,
}

module _ (env : Env) (db : Handle) where
  pub grant_status_update-Total :
      (user : DatabaseUser) (empty : Bool) → Total (grant_status_update env db user empty)
  unfolding grant_status_update
  grant_status_update-Total user empty = search returns

  pub revoke-Total : (user : DatabaseUser) → Total (revoke env db user)
  unfolding revoke
  revoke-Total user =
      Total-bind _ _ (run-Total env db _)
        (elim [ some e ↦ search returns | none ↦ grant_status_update-Total _ true ])

  grant_one-Total :
      (user : DatabaseUser) (permission : DatabasePermission) (database : Database)
      → Total (grant_one env db user permission database)
  unfolding grant_one granted
  grant_one-Total user permission database = search (returns, database_mine-Total, run-Total)

  grant_each-Total :
      (user : DatabaseUser) (permissions : List DatabasePermission)
      → Total (grant_each env db user permissions)
  unfolding grant_each
  grant_each-Total user [] = search returns
  grant_each-Total user (permission ∷ rest) =
      let again = grant_each-Total user rest in
      Total-bind _ _ (Total-call _ _) (elim [
        | err e ↦ search returns
        | ok d ↦ Total-bind _ _ (grant_one-Total user permission d) (λ _. again)
      ])

  pub grant-Total : (user : DatabaseUser) → Total (grant env db user)
  unfolding grant
  grant-Total user =
      Total-bind _ _ (grant_each-Total user _)
        (elim [ some e ↦ search returns | none ↦ grant_status_update-Total _ false ])
