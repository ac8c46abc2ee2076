-- ===== src/DatabaseController/Sync.antt =====
-- The branch of `Reconcile` for a `Database` that is there and has its finalizer.
use mysql_dba_operator.Base.{Bytes, Bool, true, false, ◌≡◌, refl, Option, none, some}
use mysql_dba_operator.Api.{Database}
use mysql_dba_operator.Orm.{Handle}
use mysql_dba_operator.World.{Env, Error}
use mysql_dba_operator.World.Total.{
  Returns, Total, Returns-pure, Returns-if, Returns-bind, Total-call, Total-look, Total-note,
}
use mysql_dba_operator.Ownership.{database_exists, database_mine}
use mysql_dba_operator.Connection.Returns.{run-Total}
use mysql_dba_operator.Acquire.{Connected}
use mysql_dba_operator.DatabaseController.{
  refresh, altered, database_update, database_create, after_create, created, reported, updated,
  located, create_or_update, provision, save_status,
}

module _ (env : Env) where
  database_exists-Total : (db : Handle) (name : Bytes) → Total (database_exists env db name)
  unfolding database_exists
  database_exists-Total db name = Returns-bind _ _ (Total-call _ _) (λ found _. Returns-pure _ tt)

  refresh-Total : (db : Handle) (database : Database) → Total (refresh env db database)
  unfolding refresh
  refresh-Total db database =
      Returns-bind _ _ (database_exists-Total db _)
        (elim [ none ↦ λ _. Returns-pure _ tt | some s ↦ λ _. Returns-pure _ tt ])

  altered-Total :
      (required : Bool) (db : Handle) (database : Database)
      → Total (altered env required db database)
  unfolding altered
  altered-Total required db database =
      Returns-bind _ _ (refresh-Total db database) (λ _ _. Returns-pure _ tt)

  database_update-Total :
      (db : Handle) (database : Database) → Total (database_update env db database)
  unfolding database_update
  database_update-Total db database =
      Returns-if _ _ _
        (Returns-bind _ _ (run-Total env db _)
          (elim [ some e ↦ λ _. Returns-pure _ tt | none ↦ λ _. altered-Total true db _ ]))
        (altered-Total false db _)

  database_create-Total :
      (db : Handle) (database : Database) → Total (database_create env db database)
  unfolding database_create
  database_create-Total db database = Returns-bind _ _ (run-Total env db _) (elim [
    | some e ↦ λ _. Returns-pure _ tt
    | none ↦ λ _. Returns-bind _ _ (Total-call _ _) (λ _ _.
        Returns-bind _ _ (Total-note _)
          (λ _ _. Returns-bind _ _ (refresh-Total db _) (λ _ _. Returns-pure _ tt)))
  ])

  after_create-Total : (o : Bool × Option Error × Database) → Total (after_create env o)
  unfolding after_create
  after_create-Total (true, none, database) =
      Returns-bind _ _ (Total-look _) (λ _ _. Returns-pure _ tt)
  after_create-Total (_, _, database) = Returns-pure _ tt

  pub database_mine-Total :
      (db : Handle) (database : Database) → Total (database_mine env db database)
  unfolding database_mine
  database_mine-Total db database = Returns-bind _ _ (database_exists-Total db _) (elim [
    | none ↦ λ _. Returns-pure _ tt
    | some _ ↦ λ _. Returns-bind _ _ (Total-call _ _) (λ _ _. Returns-pure _ tt)
  ])

  create_or_update-Total :
      (exists : Bool) (db : Handle) (database : Database)
      → Total (create_or_update env exists db database)
  unfolding create_or_update created updated reported
  create_or_update-Total true db database =
      Returns-bind _ _ (database_mine-Total db database) (λ _ _.
        Returns-if _ _ _
          (Returns-bind _ _ (database_update-Total db database) (λ _ _. Returns-pure _ tt))
          (Returns-pure _ tt))
  create_or_update-Total false db database =
      Returns-bind _ _ (database_create-Total db database) (λ o _. after_create-Total o)

  located-Total : (c : Connected) (database : Database) → Total (located env c.admin database)
  unfolding located
  located-Total c database = Returns-bind _ _ (Total-look _) (λ _ _. Returns-pure _ tt)

  pub save_status-Total : (database : Database) → Total (save_status env database)
  unfolding save_status
  save_status-Total database = Total-call _ _

  pub provision-Returns :
      (c : Connected) (database : Database) → Returns (λ e. e ≡ none) (provision env c database)
  unfolding provision
  provision-Returns c database =
      Returns-bind _ _ (refresh-Total c.db database) (λ (exists, found) _.
        Returns-bind _ _ (located-Total c found) (λ placed _.
          Returns-bind _ _ (create_or_update-Total exists c.db placed) (λ final _.
            Returns-bind _ _ (save_status-Total final) (λ _ _. Returns-pure none refl))))
