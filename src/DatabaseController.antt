-- ===== src/DatabaseController.antt =====
-- controllers/database_controller.go: the reconciler of `Database` resources. A function that writes
-- to `loop.instance` takes the instance and returns it. In the functions behind the nil test of
-- `Reconcile` the connection is there, so they take it and not `DatabaseLoopContext`. Log lines are
-- left out, but for those that read through a pointer which may be nil.
pub mod Examples
pub mod Sql
pub mod Safety
pub mod Deletion
pub mod Sync
pub mod Steps
pub mod Termination
pub mod Converged
pub mod Settles
pub mod Rounds
pub mod Queries
unfoldable pub use Queries.*
use mysql_dba_operator.Base.{
  Bytes, Bool, true, false, not, ◌&&◌, ◌||◌, Option, none, some, [], ◌∷◌, ◌++◌, codes, ◌==◌,
  if◌then◌else◌,
}
use mysql_dba_operator.Api.{NamespacedName, AdminConnectionRef, AdminConnection, Database}
use mysql_dba_operator.Orm.{Handle, ManagedDatabase}
use mysql_dba_operator.World.{
  Env, Error, not_found, failure, Result, ok, err, get_database, update_database,
  update_database_status, create_managed_database, delete_managed_database, commit,
}
use mysql_dba_operator.World.Exec.{Exec, pure, crash, ◌>>=◌, ◌>>◌, call, look, note}
use mysql_dba_operator.Ownership.{database_exists, database_mine}
use mysql_dba_operator.Acquire.{Connected, acquire, first_error}
use mysql_dba_operator.Connection.{run, get_admin_connection, get_database_connection}

abbrev pub db_finalizer : Bytes
db_finalizer = codes "mysql.apps.cuppett.dev/db-finalizer"

module _ (env : Env) where
  pub refresh : Handle → Database → Exec (Bool × Database)
  refresh db database = do
    schema ← database_exists env db database.spec.name
    elim schema [
      | none ↦ pure (false, database)
      | some s ↦ pure (true, seen database s.default_character_set s.default_collation)
    ]

  -- The result is `requireAlter`, the error and the instance.
  altered : Bool → Handle → Database → Exec (Bool × Option Error × Database)
  altered required db database = do (_, found) ← refresh db database; pure (required, none, found)

  pub database_update : Handle → Database → Exec (Bool × Option Error × Database)
  database_update db database =
      let required = alters_character_set database || alters_collate database in
      let written =
        with_collate (alters_collate database)
          (with_character_set (alters_character_set database) database) in
      if required
      then (do
        failed ← run env db (alter_query database)
        elim failed [ some e ↦ pure (false, some e, written) | none ↦ altered true db written ])
      else altered false db written

  pub managed_of : Database → ManagedDatabase
  managed_of database = record {
    uuid = database.meta.uid;
    namespace = database.meta.namespace;
    name = database.meta.name;
    database_name = database.spec.name;
  }

  -- The result is whether the database exists now, the error and the instance.
  pub database_create : Handle → Database → Exec (Bool × Option Error × Database)
  database_create db database = do
    let written =
        with_collate (not (database.spec.collate == []))
          (with_character_set (not (database.spec.character_set == [])) database)
    failed ← run env db (create_query database)
    elim failed [
      | some e ↦ pure (false, some e, written)
      | none ↦ do
        _ ←
            call (λ log. env.create_managed_database log db (managed_of database))
              (create_managed_database db (managed_of database))
        note (commit db)
        (exists, found) ← refresh db written
        pure (exists, none, found)
    ]

  -- A failure to drop is logged and nothing more: the result is always `nil`.
  pub finalize_database : Handle → Database → Exec (Option Error)
  finalize_database db database = do
    _ ← run env db (drop_query database)
    note (delete_managed_database db database.meta.uid)
    pure none

  -- Without a connection the log line of the other branch reads the host through a nil pointer.
  pub released : Option Connected → Database → Exec (Option Error)
  released none database = crash
  released (some c) database = do
    mine ← database_mine env c.db database
    if mine then finalize_database c.db database else pure none

  pub unfinalized : Database → Database
  unfinalized database = record database { meta = env.remove_finalizer database.meta db_finalizer }

  -- The branch for an instance with a deletion timestamp.
  pub deleted : Option Connected → Database → Exec (Option Error)
  deleted connection database =
      if env.contains_finalizer database.meta db_finalizer
      then (do
        refused ← released connection database
        elim refused [
          | some e ↦ pure (some e)
          | none ↦
              call (λ log. env.update_database log (unfinalized database))
                (update_database (unfinalized database))
        ])
      else pure none

  pub save_status : Database → Exec (Option Error)
  save_status database =
      call (λ log. env.update_database_status log database) (update_database_status database)

  -- The branch without a connection.
  pub unavailable : Option Error → Database → Exec (Option Error)
  unavailable admin_error database = do
    failed ← save_status (
        with_message (codes "Failed to further reconcile against current admin connection.")
          database)
    pure (first_error failed admin_error)

  -- The instance behind `databaseCreate`.
  after_create : Bool × Option Error × Database → Exec Database
  after_create (true, none, database) = do
    time ← look env.now
    pure (
        with_message (codes "Created database")
          (record database { status = record (database.status) { creation_time = time } }))
  after_create (_, _, database) = pure database

  created : Handle → Database → Exec Database
  created db database = do outcome ← database_create db database; after_create outcome

  reported : Handle → Database → Exec Database
  reported db database = do outcome ← database_update db database; pure (after_update outcome)

  pub updated : Handle → Database → Exec Database
  updated db database = do
    mine ← database_mine env db database
    if mine
        then reported db database
        else pure (with_message (codes "No permission to this database.") database)

  -- The status fields that are set before the database is created or updated.
  located : AdminConnection → Database → Exec Database
  located admin database = do
    time ← look env.now
    pure (record database {
      status = record (database.status) {
        host = admin.spec.host;
        port = admin.spec.port;
        name = database.spec.name;
        sync_time = time;
      };
    })

  create_or_update : Bool → Handle → Database → Exec Database
  create_or_update true db database = updated db database
  create_or_update false db database = created db database

  -- The branch with a connection and the finalizer. The errors of this branch are those of variables
  -- of the inner block: the `err` that `Reconcile` returns stays nil.
  pub provision : Connected → Database → Exec (Option Error)
  provision c database = do
    (exists, found) ← refresh c.db database
    placed ← located c.admin found
    final ← create_or_update exists c.db placed
    _ ← save_status final
    pure none

  finalized : Database → Database
  finalized database = record database { meta = env.add_finalizer database.meta db_finalizer }

  pub present : Option Connected → Option Error → Database → Exec (Option Error)
  present none admin_error database = unavailable admin_error database
  present (some c) admin_error database =
      if env.contains_finalizer database.meta db_finalizer
      then provision c database
      else call (λ log. env.update_database log (finalized database))
          (update_database (finalized database))

  -- The body of `Reconcile` for an instance that was read.
  pub handle : Database → Exec (Option Error)
  handle database = do
    (connection, admin_error) ← acquire env database.meta.namespace database.spec.admin_connection
    elim database.meta.deletion_timestamp [
      | some time ↦ deleted connection database
      | none ↦ present connection admin_error database
    ]

  -- The result is the error of `Reconcile`; its `ctrl.Result` is always empty.
  pub reconcile : NamespacedName → Exec (Option Error)
  reconcile request = do
    database ← call (λ log. env.get_database log request) (get_database request)
    elim database [
      | err not_found ↦ pure none
      | err (failure e) ↦ pure (some (failure e))
      | ok d ↦ handle d
    ]
