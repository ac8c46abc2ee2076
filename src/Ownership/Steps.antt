-- ===== src/Ownership/Steps.antt =====
-- The ownership tests do nothing but calls.
use mysql_dba_operator.Base.{Bytes, none, some, List, [], ◌∷◌}
use mysql_dba_operator.Api.{Database, DatabaseUser}
use mysql_dba_operator.Orm.{Handle, ManagedUser}
use mysql_dba_operator.World.{Env, World}
use mysql_dba_operator.World.Traces.{Moves}
use mysql_dba_operator.World.Steps.{AdmitsCalls, Steps-bind, steps}
use mysql_dba_operator.Ownership.{
  no_user, claimed_names, database_exists, user_exists, database_mine, names_mine, user_mine,
}

module _ {R : World → World → Type 0} (c : AdmitsCalls R) (env : Env) (db : Handle) where
  pub database_exists-Steps : (name : Bytes) → Moves R (database_exists env db name)
  unfolding database_exists
  database_exists-Steps name = search (steps, c)

  pub user_exists-Steps : (name : Bytes) → Moves R (user_exists env db name)
  unfolding user_exists
  user_exists-Steps name = search (steps, c)

  pub database_mine-Steps : (database : Database) → Moves R (database_mine env db database)
  unfolding database_mine
  database_mine-Steps database =
      Steps-bind c _ _ (database_exists-Steps database.spec.name)
        (elim [ none ↦ search (steps, c) | some _ ↦ search (steps, c) ])

  names_mine-Steps :
      (user : DatabaseUser) (managed : ManagedUser) (names : List Bytes)
      → Moves R (names_mine env db user managed names)
  unfolding names_mine
  names_mine-Steps user managed [] = search (steps, c)
  names_mine-Steps user managed (name ∷ names) =
      let again = λ (m : ManagedUser). names_mine-Steps user m names in
      Steps-bind c _ _ (user_exists-Steps name)
        (elim [ none ↦ again managed | some _ ↦ search (steps, c, again) ])

  pub user_mine-Steps : (user : DatabaseUser) → Moves R (user_mine env db user)
  unfolding user_mine
  user_mine-Steps user = names_mine-Steps user no_user (claimed_names user)
