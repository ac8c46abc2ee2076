-- ===== src/Ownership/Returns.antt =====
-- The ownership tests return.
use mysql_dba_operator.Base.{Bytes, none, some, List, [], ◌∷◌}
use mysql_dba_operator.Api.{Database, DatabaseUser}
use mysql_dba_operator.Orm.{Handle, ManagedUser}
use mysql_dba_operator.World.{Env}
use mysql_dba_operator.World.Total.{Total, Total-bind, returns}
use mysql_dba_operator.Ownership.{
  no_user, claimed_names, database_exists, user_exists, database_mine, names_mine, user_mine,
}

module _ (env : Env) (db : Handle) where
  pub database_exists-Total : (name : Bytes) → Total (database_exists env db name)
  unfolding database_exists
  database_exists-Total name = search returns

  pub user_exists-Total : (name : Bytes) → Total (user_exists env db name)
  unfolding user_exists
  user_exists-Total name = search returns

  pub database_mine-Total : (database : Database) → Total (database_mine env db database)
  unfolding database_mine
  database_mine-Total database =
      Total-bind _ _ (database_exists-Total database.spec.name)
        (elim [ none ↦ search returns | some _ ↦ search returns ])

  names_mine-Total :
      (user : DatabaseUser) (managed : ManagedUser) (names : List Bytes)
      → Total (names_mine env db user managed names)
  unfolding names_mine
  names_mine-Total user managed [] = search returns
  names_mine-Total user managed (name ∷ names) =
      let again = λ (m : ManagedUser). names_mine-Total user m names in
      Total-bind _ _ (user_exists-Total name)
        (elim [ none ↦ again managed | some _ ↦ search (returns, again) ])

  pub user_mine-Total : (user : DatabaseUser) → Total (user_mine env db user)
  unfolding user_mine
  user_mine-Total user = names_mine-Total user no_user (claimed_names user)
