-- ===== src/Ownership/Queries.antt =====
-- The ownership tests send no statement.
use mysql_dba_operator.Base.{Bytes, none, some, List, [], ◌∷◌}
use mysql_dba_operator.Api.{Database, DatabaseUser}
use mysql_dba_operator.Orm.{Handle, ManagedUser}
use mysql_dba_operator.World.{Env, Log}
use mysql_dba_operator.World.Traces.{
  AdmitsQuiet, Emits, Emits-quiet, Emits-pure, Emits-bind, Emits-if,
}
use mysql_dba_operator.Ownership.{
  no_user, found_or, user_differs, claimed_names, database_exists, user_exists, database_mine,
  names_mine, user_mine,
}

module _ {T : Log → Type 0} (q : AdmitsQuiet T) (env : Env) (db : Handle) where
  pub database_exists-Emits : (name : Bytes) → Emits T (database_exists env db name)
  unfolding database_exists
  database_exists-Emits name = Emits-bind q _ _ (Emits-quiet q _ _ (λ _. tt)) (λ _. Emits-pure q _)

  pub user_exists-Emits : (name : Bytes) → Emits T (user_exists env db name)
  unfolding user_exists
  user_exists-Emits name = Emits-bind q _ _ (Emits-quiet q _ _ (λ _. tt)) (λ _. Emits-pure q _)

  pub database_mine-Emits : (database : Database) → Emits T (database_mine env db database)
  unfolding database_mine
  database_mine-Emits database = Emits-bind q _ _ (database_exists-Emits database.spec.name) (elim [
    | none ↦ Emits-pure q _
    | some _ ↦ Emits-bind q _ _ (Emits-quiet q _ _ (λ _. tt)) (λ _. Emits-pure q _)
  ])

  names_mine-Emits :
      (user : DatabaseUser) (managed : ManagedUser) (names : List Bytes)
      → Emits T (names_mine env db user managed names)
  unfolding names_mine
  names_mine-Emits user managed [] = Emits-pure q _
  names_mine-Emits user managed (name ∷ names) =
      let again = λ (m : ManagedUser). names_mine-Emits user m names in
      Emits-bind q _ _ (user_exists-Emits name) (elim [
        | none ↦ again managed
        | some _ ↦ Emits-bind q _ _ (Emits-quiet q _ _ (λ _. tt)) (λ row.
            Emits-if q (user_differs (found_or managed row) name user) _ _ (Emits-pure q _)
              (again (found_or managed row)))
      ])

  pub user_mine-Emits : (user : DatabaseUser) → Emits T (user_mine env db user)
  unfolding user_mine
  user_mine-Emits user = names_mine-Emits user no_user (claimed_names user)
