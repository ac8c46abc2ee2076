-- ===== src/DatabaseController/Safety.antt =====
-- Which statements a reconciliation of a `Database` may send, and on what grounds.
pub mod Owned
pub mod Whole
use mysql_dba_operator.Base.{
  Bytes, Bool, true, false, Option, none, some, List, [], ◌∷◌, ◌++◌, append_assoc, ◌≡◌, ◌⊎◌, inl,
  inr, refl, sym, ◌∙◌, ap, arith, codes, if◌then◌else◌, Option-cases, Bool-cases, ◌||◌,
}
use mathlib.Core.Path.{subst, subst₂}
use mysql_dba_operator.Api.{
  NamespacedName, AdminConnectionRef, ObjectMeta, AdminConnection, DatabaseSpec, Database,
}
use mysql_dba_operator.Orm.{
  Handle, Pool, DbConfig, DatabaseSchema, ConnectionDefinition, database_name,
}
use mysql_dba_operator.World.{
  Env, Error, Result, ok, err, Event, Log, World, exec, first_schema, delete_managed_database,
}
use mysql_dba_operator.World.Exec.{
  Outcome, done, panic, Exec, pure, ◌>>=◌, ◌>>◌, continue, call, note,
}
use mysql_dba_operator.World.Traces.{
  IsTrace, IsQuiet, AdmitsQuiet, Extends, Extends-trans, Extends-IsPreorder, Emits, Emits-call,
  Emits-quiet, Emits-note, Emits-pure, Emits-crash, Emits-look, Emits-bind, Emits-if, Moves,
  Moves-bind_at, continue_moves,
}
use mysql_dba_operator.Ownership.{named_schema, database_exists, database_mine}
use mysql_dba_operator.Ownership.Evidence.{
  OwnsDatabase, vacant, recorded, database_mine-OwnsDatabase,
}
use mysql_dba_operator.Connection.{run}
use mysql_dba_operator.Connection.Statements.{
  IsControl, AdmitsSetup, get_admin_connection-Emits, get_database_connection-Emits,
}
use mysql_dba_operator.Acquire.{Connected, connect, acquire, acquire-Emits}
use mysql_dba_operator.DatabaseController.{
  db_finalizer, quoted, clause, create_query, alter_query, drop_query, alters_character_set,
  alters_collate, seen, refresh, altered, database_update, managed_of, database_create,
  finalize_database, released, unfinalized, deleted, save_status, unavailable, after_create,
  after_update, created, reported, updated, located, create_or_update, provision, finalized,
  present, handle, reconcile, with_character_set, with_collate,
}

-- The statements of one reconciliation, for the database `name` and the object with `meta`: those that
-- set up the control database; `CREATE DATABASE` of the name directly after a query that found no such
-- schema; `ALTER DATABASE` and `DROP DATABASE` of the name directly after the queries that show
-- ownership. `rest` is the text behind the name.
pub data Safe (name : Bytes) (meta : ObjectMeta) : Log → Type 0 where
  nothing : Safe name meta []
  quiet : (e : Event) {log : Log} → IsQuiet e → Safe name meta log → Safe name meta (e ∷ log)
  control :
      (db : Handle) (query : Bytes) (reply : Option Error) {log : Log}
      → IsControl query
      → Safe name meta log
      → Safe name meta (exec db query reply ∷ log)
  creates :
      (db : Handle) (schema : Option DatabaseSchema) (rest : Bytes) (reply : Option Error)
      {log : Log}
      → named_schema schema ≡ none
      → Safe name meta log
      → Safe name meta (
          first_schema db name schema
          ∷ exec db (codes "CREATE DATABASE " ++ ((codes "`" ++ (name ++ codes "`")) ++ rest)) reply
          ∷ log)
  alters :
      (db : Handle) (shown : Log) (rest : Bytes) (reply : Option Error) {log : Log}
      → OwnsDatabase db name meta shown
      → Safe name meta log
      → Safe name meta (
          shown
          ++ (exec db
                (codes "ALTER DATABASE " ++ ((codes "`" ++ (name ++ codes "`")) ++ rest))
                reply
              ∷ log))
  drops :
      (db : Handle) (shown : Log) (reply : Option Error) {log : Log}
      → OwnsDatabase db name meta shown
      → Safe name meta log
      → Safe name meta (
          shown
          ++ (exec db (codes "DROP DATABASE IF EXISTS " ++ (codes "`" ++ (name ++ codes "`"))) reply
              ∷ log))

module _ (name : Bytes) (meta : ObjectMeta) where
  Safe-append :
      {xs : Log} (ys : Log) → Safe name meta xs → Safe name meta ys → Safe name meta (xs ++ ys)
  Safe-append ys nothing t = t
  Safe-append ys (quiet e h s) t = quiet e h (Safe-append ys s t)
  Safe-append ys (control db query reply h s) t = control db query reply h (Safe-append ys s t)
  Safe-append ys (creates db schema rest reply h s) t =
      creates db schema rest reply h (Safe-append ys s t)
  Safe-append ys (alters db shown rest reply h s) t =
      subst (Safe name meta) (sym (append_assoc shown _ ys))
        (alters db shown rest reply h (Safe-append ys s t))
  Safe-append ys (drops db shown reply h s) t =
      subst (Safe name meta) (sym (append_assoc shown _ ys))
        (drops db shown reply h (Safe-append ys s t))

  Safe-IsTrace : IsTrace (Safe name meta)
  Safe-IsTrace = record { empty = nothing; join = λ xs ys s t. Safe-append ys s t }

  pub OwnsDatabase-Safe :
      {db : Handle} {log : Log} → OwnsDatabase db name meta log → Safe name meta log
  OwnsDatabase-Safe (vacant reply h) = quiet _ tt nothing
  OwnsDatabase-Safe (recorded reply row h) = quiet _ tt (quiet _ tt nothing)

  pub Safe-AdmitsQuiet : AdmitsQuiet (Safe name meta)
  Safe-AdmitsQuiet = record { trace = Safe-IsTrace; quiet = λ e h. quiet e h nothing }

  pub Safe-AdmitsSetup : AdmitsSetup (Safe name meta)
  Safe-AdmitsSetup = record {
    others = Safe-AdmitsQuiet;
    control = λ db query reply h. control db query reply h nothing;
  }

abbrev pub SafeFor : Database → {A : Type 0} → Exec A → Type 0
SafeFor database = Emits (Safe database.spec.name database.meta)
