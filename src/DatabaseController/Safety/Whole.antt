-- ===== src/DatabaseController/Safety/Whole.antt =====
-- A whole reconciliation of a `Database` is safe.
use mysql_dba_operator.Base.{
  ◌∙◌, append_assoc, ℕ, Bytes, Bool, true, Option, none, some, [], ◌∷◌, ◌++◌, ◌≡◌, ◌⊎◌, inl, inr,
  refl, Option-cases,
}
use mysql_dba_operator.Api.{NamespacedName, AdminConnection, Database}
use mysql_dba_operator.Orm.{Handle, DatabaseSchema}
use mysql_dba_operator.World.{
  get_database, Env, Error, not_found, failure, Log, ok, err, World, exec, first_schema,
}
use mysql_dba_operator.World.Exec.{pure, ◌>>=◌, call, look}
use mysql_dba_operator.World.Traces.{
  logged, AdmitsQuiet, Extends, Extends-trans, Emits-quiet, Emits-note, Emits-pure, Emits-look,
  Emits-bind, Emits-if,
}
use mysql_dba_operator.Ownership.{named_schema, database_exists}
use mysql_dba_operator.Connection.{run}
use mysql_dba_operator.Acquire.{Connected, acquire-Emits}
use mysql_dba_operator.DatabaseController.{
  db_finalizer, quoted, create_query, seen, refresh, database_create, deleted, save_status,
  after_create, created, located, create_or_update, provision, present, handle, reconcile,
}
use mysql_dba_operator.DatabaseController.Safety.{
  Safe, nothing, quiet, creates, Safe-AdmitsSetup, SafeFor,
}
use mysql_dba_operator.DatabaseController.Safety.Owned.{
  q, behind, SafeStep, step_bind, deleted-SafeFor, save_status-SafeFor, unavailable-SafeFor,
  refresh-SafeFor, updated-SafeFor, SafeFor-status,
}

-- The last event before `v` is a query that found no schema of the name.
record VacantAt (db : Handle) (name : Bytes) (w v : World) : Type 0 where
  reply : Option DatabaseSchema
  split : v.log ≡ w.log ++ (first_schema db name reply ∷ [])
  vacant : named_schema reply ≡ none

module _ (env : Env) (database : Database) where
  -- `CREATE DATABASE` directly behind that query.
  create_vacant :
      (db : Handle) (w v : World)
      → VacantAt db database.spec.name w v
      → SafeStep env database w (run env db (create_query database) v).1
  unfolding run call create_query quoted
  create_vacant db w v shown = record {
    events =
        first_schema db database.spec.name shown.reply
        ∷ exec db (create_query database) (env.exec v.log db (create_query database))
        ∷ [];
    split = behind w.log _ _ shown.split;
    good = creates db shown.reply _ _ shown.vacant nothing;
  }

  after_create-SafeFor :
      (o : Bool × Option Error × Database) → SafeFor database (after_create env o)
  unfolding after_create
  after_create-SafeFor (true, none, other) =
      Emits-bind (q env database) _ _ (Emits-look (q env database) _)
        (λ _. Emits-pure (q env database) _)
  after_create-SafeFor (_, _, other) = Emits-pure (q env database) _

  created_vacant :
      (db : Handle) (w v : World)
      → VacantAt db database.spec.name w v
      → SafeStep env database w (created env db database v).1
  unfolding created database_create
  created_vacant db w v shown =
      step_bind env database (database_create env db database) _ w v
        (step_bind env database (run env db (create_query database)) _ w v
          (create_vacant db w v shown)
          (elim [
            | some e ↦ Emits-pure (q env database) _
            | none ↦
                Emits-bind (q env database) _ _ (Emits-quiet (q env database) _ _ (λ _. tt)) (λ _.
                  Emits-bind (q env database) _ _ (Emits-note (q env database) _ tt) (λ _.
                    Emits-bind (q env database) _ _ (refresh-SafeFor env database db _)
                      (λ _. Emits-pure (q env database) _)))
          ]))
        after_create-SafeFor

module _ (env : Env) (database : Database) where
  located-SafeFor :
      (admin : AdminConnection) (other : Database) → SafeFor database (located env admin other)
  unfolding located
  located-SafeFor admin other =
      Emits-bind (q env database) _ _ (Emits-look (q env database) _)
        (λ _. Emits-pure (q env database) _)

  tail-SafeFor :
      (final : Database)
      → SafeFor database (save_status env final >>= λ _. pure {A = Option Error} none)
  tail-SafeFor final =
      Emits-bind (q env database) _ _ (save_status-SafeFor env database final)
        (λ _. Emits-pure (q env database) none)

  -- The rest of `provision`, once `databaseExists` has found a schema.
  provision_found :
      (c : Connected) (found placed : Database)
      → placed.spec ≡ database.spec
      → placed.meta ≡ database.meta
      → SafeFor database (
          create_or_update env true c.db placed >>= λ final.
          save_status env final >>= λ _. pure {A = Option Error} none)
  unfolding create_or_update
  provision_found c found placed spec meta =
      Emits-bind (q env database) _ _
        (SafeFor-status env database placed spec meta (updated-SafeFor env placed c.db))
        tail-SafeFor

  provision_gone :
      (c : Connected) (w : World)
      → named_schema (env.first_schema w.log c.db database.spec.name) ≡ none
      → SafeStep env database w (provision env c database w).1
  unfolding provision refresh database_exists located look call create_or_update
  provision_gone c w gone =
      rw (gone, call)
        (step_bind env database (created env c.db _) _ w _
          (created_vacant env _ c.db w _ (record { reply = _; split = refl; vacant = gone }))
          tail-SafeFor)

  provision_there :
      (c : Connected) (w : World) (s : DatabaseSchema)
      → named_schema (env.first_schema w.log c.db database.spec.name) ≡ some s
      → SafeStep env database w (provision env c database w).1
  unfolding provision refresh database_exists located look call seen
  provision_there c w s there =
      rw (there, call)
        (Extends-trans (q env database).trace
          (record { events = _; split = refl; good = quiet _ tt nothing })
          ((provision_found c database _ refl refl).at _))

  provision-SafeFor : (c : Connected) → SafeFor database (provision env c database)
  provision-SafeFor c = record { at = λ w. go w (Option-cases _) }
    where
      go :
          (w : World)
          → (named_schema (env.first_schema w.log c.db database.spec.name) ≡ none)
            ⊎ ((s : DatabaseSchema) × (named_schema (env.first_schema w.log c.db database.spec.name)
                  ≡ some s))
          → SafeStep env database w (provision env c database w).1
      go w (inl gone) = provision_gone c w gone
      go w (inr (s, there)) = provision_there c w s there

  present-SafeFor :
      (connection : Option Connected) (e : Option Error)
      → SafeFor database (present env connection e database)
  unfolding present
  present-SafeFor none e = unavailable-SafeFor env database e
  present-SafeFor (some c) e =
      Emits-if (q env database) (env.contains_finalizer database.meta db_finalizer) _ _
        (provision-SafeFor c) (Emits-quiet (q env database) _ _ (λ _. tt))

  handle-SafeFor : SafeFor database (handle env database)
  unfolding handle
  handle-SafeFor =
      Emits-bind (q env database) _ _ (acquire-Emits (Safe-AdmitsSetup _ _) env _ _)
        (λ (connection, e). branch connection e database.meta.deletion_timestamp)
    where
      branch :
          (connection : Option Connected) (e : Option Error) (deleted_at : Option ℕ)
          → SafeFor database (elim deleted_at [
            | some time ↦ deleted env connection database
            | none ↦ present env connection e database
          ])
      branch connection e (some time) = deleted-SafeFor env database connection
      branch connection e none = present-SafeFor connection e

-- The log begins with the read.
pub reconcile_read-Safe :
    (env : Env) (request : NamespacedName) (r : Database) (w : World)
    → env.get_database w.log request ≡ ok r
    → Extends
        (λ events.
          (rest : Log) × (events ≡ get_database request (ok r) ∷ rest)
          × Safe r.spec.name r.meta rest)
        w
        (reconcile env request w).1
unfolding reconcile call
reconcile_read-Safe env request r w found =
    let x = (handle-SafeFor env r).at (logged (get_database request (ok r)) w) in
    rw (found, call)
      (record {
        events = get_database request (ok r) ∷ x.events;
        split = x.split ∙ append_assoc w.log _ _;
        good = (x.events, refl, x.good);
      })

-- Of a resource that could not be read, the log has only the read.
pub reconcile_unread-Extends :
    {T : Log → Type 0} (t : AdmitsQuiet T) (env : Env) (request : NamespacedName) (e : Error)
    (w : World)
    → env.get_database w.log request ≡ err e
    → Extends T w (reconcile env request w).1
unfolding reconcile call
reconcile_unread-Extends t env request not_found w h =
    rw (h) (record { events = _; split = refl; good = t.quiet _ tt })
reconcile_unread-Extends t env request (failure f) w h =
    rw (h) (record { events = _; split = refl; good = t.quiet _ tt })
