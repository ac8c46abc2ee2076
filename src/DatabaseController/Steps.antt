-- ===== src/DatabaseController/Steps.antt =====
-- A reconciliation of a `Database` is calls and `GetDatabaseConnection`.
use mysql_dba_operator.Base.{ℕ, Bool, true, false, Option, none, some}
use mysql_dba_operator.Api.{NamespacedName, AdminConnection, Database}
use mysql_dba_operator.Orm.{Handle}
use mysql_dba_operator.World.{Env, World, Error, not_found, failure, ok, err}
use mysql_dba_operator.World.Traces.{Moves}
use mysql_dba_operator.World.Steps.{
  AdmitsCalls, Steps-pure, Steps-bind, Steps-call, Steps-if, steps,
}
use mysql_dba_operator.Ownership.Steps.{database_exists-Steps, database_mine-Steps}
use mysql_dba_operator.Connection.Steps.{run-Steps}
use mysql_dba_operator.Acquire.{Connected}
use mysql_dba_operator.Acquire.Steps.{AdmitsRuns, acquire-Steps}
use mysql_dba_operator.DatabaseController.{
  refresh, altered, database_update, database_create, finalize_database, released, deleted,
  save_status, unavailable, after_create, created, reported, updated, located, create_or_update,
  provision, present, handle, reconcile,
}

module _ {R : World → World → Type 0} (r : AdmitsRuns R) (env : Env) where
  abbrev c : AdmitsCalls R
  c = r.calls

  refresh-Steps : (db : Handle) (database : Database) → Moves R (refresh env db database)
  unfolding refresh
  refresh-Steps db database =
      Steps-bind c _ _ (database_exists-Steps c env db _)
        (elim [ none ↦ search (steps, c) | some s ↦ search (steps, c) ])

  altered-Steps :
      (required : Bool) (db : Handle) (database : Database)
      → Moves R (altered env required db database)
  unfolding altered
  altered-Steps required db database = search (steps, c, refresh-Steps)

  database_update-Steps :
      (db : Handle) (database : Database) → Moves R (database_update env db database)
  unfolding database_update
  database_update-Steps db database =
      Steps-if c _ _ _
        (Steps-bind c _ _ (run-Steps c env db _)
          (elim [ some e ↦ search (steps, c) | none ↦ altered-Steps true db _ ]))
        (altered-Steps false db _)

  database_create-Steps :
      (db : Handle) (database : Database) → Moves R (database_create env db database)
  unfolding database_create
  database_create-Steps db database =
      Steps-bind c _ _ (run-Steps c env db _)
        (elim [ some e ↦ search (steps, c) | none ↦ search (steps, c, refresh-Steps) ])

  finalize_database-Steps :
      (db : Handle) (database : Database) → Moves R (finalize_database env db database)
  unfolding finalize_database
  finalize_database-Steps db database = search (steps, c, run-Steps)

  released-Steps :
      (connection : Option Connected) (database : Database)
      → Moves R (released env connection database)
  unfolding released
  released-Steps none database = search (steps, c)
  released-Steps (some connected) database =
      search (steps, c, database_mine-Steps, finalize_database-Steps)

  deleted-Steps :
      (connection : Option Connected) (database : Database)
      → Moves R (deleted env connection database)
  unfolding deleted
  deleted-Steps connection database =
      Steps-if c _ _ _
        (Steps-bind c _ _ (released-Steps connection database)
          (elim [ some e ↦ search (steps, c) | none ↦ Steps-call c _ _ ]))
        (Steps-pure c none)

  save_status-Steps : (database : Database) → Moves R (save_status env database)
  unfolding save_status
  save_status-Steps database = search (steps, c)

  after_create-Steps : (o : Bool × Option Error × Database) → Moves R (after_create env o)
  unfolding after_create
  after_create-Steps (true, none, database) = search (steps, c)
  after_create-Steps (true, some e, database) = search (steps, c)
  after_create-Steps (false, e, database) = search (steps, c)

  updated-Steps : (db : Handle) (database : Database) → Moves R (updated env db database)
  unfolding updated reported
  updated-Steps db database = search (steps, c, database_mine-Steps, database_update-Steps)

  create_or_update-Steps :
      (exists : Bool) (db : Handle) (database : Database)
      → Moves R (create_or_update env exists db database)
  unfolding create_or_update created
  create_or_update-Steps true db database = updated-Steps db database
  create_or_update-Steps false db database =
      search (steps, c, database_create-Steps, after_create-Steps)

  located-Steps :
      (admin : AdminConnection) (database : Database) → Moves R (located env admin database)
  unfolding located
  located-Steps admin database = search (steps, c)

  provision-Steps :
      (connected : Connected) (database : Database) → Moves R (provision env connected database)
  unfolding provision
  provision-Steps connected database =
      search (steps, c, refresh-Steps, located-Steps, create_or_update-Steps, save_status-Steps)

  present-Steps :
      (connection : Option Connected) (e : Option Error) (database : Database)
      → Moves R (present env connection e database)
  unfolding present unavailable
  present-Steps none e database = search (steps, c, save_status-Steps)
  present-Steps (some connected) e database = search (steps, c, provision-Steps)

  handle-Steps : (database : Database) → Moves R (handle env database)
  unfolding handle
  handle-Steps database =
      Steps-bind c _ _ (acquire-Steps r env _ _)
        (λ (connection, e). go database.meta.deletion_timestamp connection e)
    where
      go :
          (time : Option ℕ) (connection : Option Connected) (e : Option Error)
          → Moves R (elim time [
            | some t ↦ deleted env connection database
            | none ↦ present env connection e database
          ])
      go (some t) connection e = deleted-Steps connection database
      go none connection e = present-Steps connection e database

  pub reconcile-Steps : (request : NamespacedName) → Moves R (reconcile env request)
  unfolding reconcile
  reconcile-Steps request = Steps-bind c _ _ (Steps-call c _ _) (elim [
    | err not_found ↦ search (steps, c)
    | err (failure e) ↦ search (steps, c)
    | ok d ↦ handle-Steps d
  ])
