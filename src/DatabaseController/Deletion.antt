-- ===== src/DatabaseController/Deletion.antt =====
-- The branch of `Reconcile` for a `Database` that is marked to be deleted.
use mysql_dba_operator.Base.{ℕ, true, ◌≡◌, refl, some, [], ◌∷◌, ◌++◌, append_assoc}
use mysql_dba_operator.Api.{NamespacedName, Database}
use mysql_dba_operator.World.{Env, not_found, ok, err, World, Log, get_database, get_admin}
use mysql_dba_operator.World.Exec.{panic, call}
use mysql_dba_operator.Connection.{get_admin_connection, checked}
use mysql_dba_operator.Connection.Access.{key_of}
use mysql_dba_operator.Acquire.{connect, acquire}
use mysql_dba_operator.DatabaseController.{db_finalizer, released, deleted, handle, reconcile}

module _ (env : Env) (database : Database) where
  -- A database that is marked to be deleted and has the finalizer, while its `AdminConnection` is
  -- not there: `Reconcile` panics, and all that it has done are the two reads.
  pub reconcile_deleted_unconnected :
      (request : NamespacedName) (time : ℕ) (w : World)
      → env.get_database w.log request ≡ ok database
      → database.meta.deletion_timestamp ≡ some time
      → env.contains_finalizer database.meta db_finalizer ≡ true
      → ((log : Log)
          → env.get_admin log (key_of database.meta.namespace database.spec.admin_connection)
            ≡ err not_found)
      → ((reconcile env request w).0 ≡ panic)
        × ((reconcile env request w).1.log
            ≡ w.log
              ++ (get_database request (ok database)
                  ∷ get_admin
                      (key_of database.meta.namespace database.spec.admin_connection)
                      (err not_found)
                  ∷ []))
  unfolding reconcile handle acquire get_admin_connection checked connect deleted released call
  reconcile_deleted_unconnected request time w found marked kept missing =
      simp (found, missing, marked, kept, append_assoc) (refl, refl)
