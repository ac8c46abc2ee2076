-- ===== src/DatabaseController/Settles/Created.antt =====
-- A round that creates the database brings the server in step.
use mysql_dba_operator.Base.{
  Bool, true, false, not, ◌≡◌, refl, inl, inr, Option-cases, ◌∙◌, ap, Option, none, some, [], ◌∷◌,
  ◌++◌, ◌==◌,
}
use mysql_dba_operator.Api.{DatabaseSpec, Database}
use mysql_dba_operator.Orm.{DatabaseSchema, ManagedDatabase}
use mysql_dba_operator.World.{
  Env, World, Log, Event, Error, exec, first_schema, create_managed_database, commit,
}
use mysql_dba_operator.World.Exec.{Exec, pure, ◌>>=◌, ◌>>◌, call, look, note}
use mysql_dba_operator.World.Traces.{Moves, Moves-pure, Moves-bind}
use mysql_dba_operator.Connection.{run}
use mysql_dba_operator.Ownership.{database_exists}
use mysql_dba_operator.Ownership.Evidence.{Records}
use mysql_dba_operator.Acquire.{Connected}
use mysql_dba_operator.DatabaseController.{
  create_query, with_character_set, with_collate, refresh, managed_of, database_create,
  after_create, created, located, create_or_update, provision,
}
use mysql_dba_operator.DatabaseController.Converged.{IsInSync}
use mysql_dba_operator.DatabaseController.Settles.{
  touches_row, Serves, Mine, Mine-row, Unclaimed, Settled, Settled-later, Stays, Stays-IsPreorder,
  refresh-Stays, Settled-after, save-Stays,
}

module _ (env : Env) (c : Connected) (database : Database) (serves : Serves env c.db database) where
  managed_of-Records : Records (managed_of env database) database.spec.name database.meta
  unfolding managed_of
  managed_of-Records = record { same_database = refl; same_name = refl; same_namespace = refl }

  known-Mine :
      (log : Log) (r : ManagedDatabase)
      → serves.row log ≡ some r
      → (Unclaimed env c database serves) log
      → (Mine env c database serves) log
  known-Mine log r known (inl fresh) = cc
  known-Mine log r known (inr mine) = mine

  Unclaimed-later :
      (log : Log) (event : Event)
      → touches_row event ≡ false
      → (Unclaimed env c database serves) log
      → (Unclaimed env c database serves) (log ++ event ∷ [])
  Unclaimed-later log event h (inl fresh) = inl (serves.keeps_row log event h ∙ fresh)
  Unclaimed-later log event h (inr mine) =
      inr (Mine-row env c database serves (serves.keeps_row log event h) mine)

  -- A new database and its row.
  recorded_settles :
      (w : World) (s : DatabaseSchema)
      → serves.schema w.log ≡ some s
      → IsInSync database.spec s
      → (Unclaimed env c database serves) w.log
      → (Settled env c database serves)
          (call
            (λ log. env.create_managed_database log c.db (managed_of env database))
            (create_managed_database c.db (managed_of env database))
            w).1.log
  unfolding call
  recorded_settles w s made sync unclaimed = elim (Option-cases (serves.row w.log)) [
    | inl fresh ↦
        let (recorded, kept) = serves.records w.log fresh in
        rw (recorded) (record {
          there = s;
          found = serves.keeps_schema w.log _ refl ∙ made;
          in_sync = sync;
          mine = rw (kept) managed_of-Records;
        })
    | inr (r, known) ↦
        let (e, (refused, kept)) = serves.refuses w.log r known in
        rw (refused) (record {
          there = s;
          found = serves.keeps_schema w.log _ refl ∙ made;
          in_sync = sync;
          mine = Mine-row env c database serves kept (known-Mine w.log r known unclaimed);
        })
  ]

  commit-Stays : Moves (Stays env c database serves) (note (commit c.db))
  unfolding note
  commit-Stays = record { at = λ w. (Settled-later env c database serves) (commit c.db) refl refl }

  -- What `databaseCreate` does behind the row.
  abbrev written : Database → Database
  written d =
      with_collate (not (d.spec.collate == []))
        (with_character_set (not (d.spec.character_set == [])) d)

  abbrev committed : Database → Exec (Bool × Option Error × Database)
  committed d = do
    note (commit c.db)
    (exists, found) ← refresh env c.db d
    pure (exists, none, found)

  committed-Stays : (d : Database) → Moves (Stays env c database serves) (committed d)
  committed-Stays d = Moves-bind (Stays-IsPreorder env c database serves) _ _ commit-Stays (λ _.
      Moves-bind (Stays-IsPreorder env c database serves) _ _
        ((refresh-Stays env c database serves) d)
        (λ o.
          Moves-pure (Stays-IsPreorder env c database serves) {A = Bool × Option Error × Database}
            (o.0, none, o.1)))

  same_query : (d : Database) → d.spec ≡ database.spec → create_query d ≡ create_query database
  unfolding create_query
  same_query d same = ap (λ (spec : DatabaseSpec). create_query (record d { spec = spec })) same

  same_row :
      (d : Database)
      → d.spec ≡ database.spec
      → d.meta ≡ database.meta
      → managed_of env d ≡ managed_of env database
  unfolding managed_of
  same_row d same_spec same_meta = rw (same_spec, same_meta) refl

  create_settles :
      (d : Database) (w : World)
      → d.spec ≡ database.spec
      → d.meta ≡ database.meta
      → serves.schema w.log ≡ none
      → (Unclaimed env c database serves) w.log
      → (Settled env c database serves) (database_create env c.db d w).1.log
  unfolding database_create run call
  create_settles d w same_spec same_meta absent unclaimed =
      let (accepted, (s, (made, sync))) = serves.creates w.log absent in
      let sent : World = record w { log = w.log ++ exec c.db (create_query database) none ∷ [] } in
      rw (same_query d same_spec, accepted, same_row d same_spec same_meta)
        ((Settled-after env c database serves)
          (call (λ log. env.create_managed_database log c.db (managed_of env database))
            (create_managed_database c.db (managed_of env database)))
          (λ _. committed (written d)) sent
          (recorded_settles sent s made sync
            (Unclaimed-later w.log (exec c.db (create_query database) none) refl unclaimed))
          (λ _. committed-Stays (written d)))

  after_create-Stays :
      (outcome : Bool × Option Error × Database)
      → Moves (Stays env c database serves) (after_create env outcome)
  unfolding after_create look
  after_create-Stays (true, none, d) = record { at = λ w s. s }
  after_create-Stays (false, none, d) = record { at = λ w s. s }
  after_create-Stays (true, some e, d) = record { at = λ w s. s }
  after_create-Stays (false, some e, d) = record { at = λ w s. s }

  -- A round that creates the database.
  pub created_settles :
      (w : World)
      → serves.schema w.log ≡ none
      → (Unclaimed env c database serves) w.log
      → (Settled env c database serves) (provision env c database w).1.log
  unfolding provision refresh database_exists located look call create_or_update created
  created_settles w absent unclaimed =
      let looked =
        first_schema c.db database.spec.name (env.first_schema w.log c.db database.spec.name) in
      rw (serves.finds_schema w.log, absent)
        ((Settled-after env c database serves) (created env c.db _) _ _
          ((Settled-after env c database serves) (database_create env c.db _) (after_create env) _
            (create_settles _ (record w { log = w.log ++ looked ∷ [] }) refl refl
              (serves.keeps_schema w.log looked refl ∙ absent)
              (Unclaimed-later w.log looked refl unclaimed))
            after_create-Stays)
          (save-Stays env c database serves))
