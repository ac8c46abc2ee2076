-- ===== src/DatabaseController/Safety/Owned.antt =====
-- The statements that need ownership: `DROP DATABASE` and `ALTER DATABASE` are sent directly behind
-- the queries that show it.
use mysql_dba_operator.Base.{
  Bool, true, false, Option, none, some, [], ◌∷◌, ◌++◌, append_assoc, ◌≡◌, inl, inr, refl, ◌∙◌, ap,
  Bool-cases, ◌||◌,
}
use mathlib.Core.Path.{subst₂}
use mysql_dba_operator.Api.{DatabaseSpec, Database}
use mysql_dba_operator.Orm.{Handle}
use mysql_dba_operator.World.{Env, Error, Log, World, exec, delete_managed_database}
use mysql_dba_operator.World.Exec.{Outcome, done, panic, Exec, ◌>>=◌, continue, call, note}
use mysql_dba_operator.World.Traces.{
  AdmitsQuiet, Extends, Extends-trans, Extends-IsPreorder, Emits, Emits-quiet, Emits-pure,
  Emits-crash, Emits-bind, Emits-if, bind_from,
}
use mysql_dba_operator.Ownership.{database_mine}
use mysql_dba_operator.Ownership.Queries.{database_exists-Emits, database_mine-Emits}
use mysql_dba_operator.Ownership.Evidence.{OwnsDatabase, database_mine-OwnsDatabase}
use mysql_dba_operator.Connection.{run}
use mysql_dba_operator.Acquire.{Connected}
use mysql_dba_operator.DatabaseController.{
  db_finalizer, quoted, alter_query, drop_query, alters_character_set, alters_collate, refresh,
  altered, database_update, finalize_database, released, deleted, save_status, unavailable,
  reported, updated,
}
use mysql_dba_operator.DatabaseController.Safety.{
  Safe, nothing, quiet, alters, drops, OwnsDatabase-Safe, Safe-AdmitsQuiet, SafeFor,
}

pub behind :
    (before events : Log) {after : Log} (more : Log)
    → after ≡ before ++ events
    → after ++ more ≡ before ++ (events ++ more)
behind before events more split = ap (λ l. l ++ more) split ∙ append_assoc before events more

module _ (env : Env) (database : Database) where
  abbrev pub q : AdmitsQuiet (Safe database.spec.name database.meta)
  q = Safe-AdmitsQuiet database.spec.name database.meta

  abbrev OwnedAt : Handle → World → World → Type 0
  OwnedAt db w v = Extends (OwnsDatabase db database.spec.name database.meta) w v

  abbrev pub SafeStep : World → World → Type 0
  SafeStep w v = Extends (Safe database.spec.name database.meta) w v

  -- `DROP DATABASE` directly behind the queries that show ownership.
  finalize_database_owned :
      (db : Handle) (w v : World)
      → OwnedAt db w v
      → SafeStep w (finalize_database env db database v).1
  unfolding finalize_database run call note drop_query quoted
  finalize_database_owned db w v shown = record {
    events =
        shown.events
        ++ (exec db (drop_query database) (env.exec v.log db (drop_query database))
            ∷ delete_managed_database db database.meta.uid
            ∷ []);
    split = append_assoc v.log _ _ ∙ behind w.log shown.events _ shown.split;
    good = drops db shown.events _ shown.good (quiet _ tt nothing);
  }

  -- `ALTER DATABASE` directly behind them.
  alter_owned :
      (db : Handle) (w v : World)
      → OwnedAt db w v
      → SafeStep w (run env db (alter_query database) v).1
  unfolding run call alter_query quoted
  alter_owned db w v shown = record {
    events =
        shown.events
        ++ (exec db (alter_query database) (env.exec v.log db (alter_query database)) ∷ []);
    split = behind w.log shown.events _ shown.split;
    good = alters db shown.events _ _ shown.good nothing;
  }

  owned_safe : (db : Handle) (w v : World) → OwnedAt db w v → SafeStep w v
  owned_safe db w v shown = record {
    events = shown.events;
    split = shown.split;
    good = OwnsDatabase-Safe _ _ shown.good;
  }

  pub step_bind :
      {A B : Type 0} (m : Exec A) (f : A → Exec B) (w v : World)
      → SafeStep w (m v).1
      → ((a : A) → SafeFor database (f a))
      → SafeStep w ((m >>= f) v).1
  step_bind m f w v first rest = bind_from (Extends-IsPreorder q.trace) m f w v first rest

  -- A block that goes on from `DatabaseMine`: with its answer true, the evidence is at hand.
  owned_bind :
      {B : Type 0} (db : Handle) (f : Bool → Exec B)
      → SafeFor database (f false)
      → ((w v : World) → OwnedAt db w v → SafeStep w (f true v).1)
      → SafeFor database (database_mine env db database >>= f)
  owned_bind {B} db f refused owned = record {
    at = λ w. go w (database_mine env db database w).0 refl;
  }
    where
      after : World → World
      after w = (database_mine env db database w).1

      go :
          (w : World) (o : Outcome Bool)
          → (database_mine env db database w).0 ≡ o
          → SafeStep w (continue o f (after w)).1
      go w (done true) e = owned w (after w) (database_mine-OwnsDatabase env db database w e)
      go w (done false) e =
          Extends-trans q.trace ((database_mine-Emits q env db database).at w)
            (refused.at (after w))
      go w panic e = (database_mine-Emits q env db database).at w

  released-SafeFor :
      (connection : Option Connected) → SafeFor database (released env connection database)
  unfolding released
  released-SafeFor none = Emits-crash q
  released-SafeFor (some c) = owned_bind c.db _ (Emits-pure q none) (finalize_database_owned c.db)

  pub deleted-SafeFor :
      (connection : Option Connected) → SafeFor database (deleted env connection database)
  unfolding deleted
  deleted-SafeFor connection =
      Emits-if q (env.contains_finalizer database.meta db_finalizer) _ _
        (Emits-bind q _ _ (released-SafeFor connection)
          (elim [ some e ↦ Emits-pure q _ | none ↦ Emits-quiet q _ _ (λ _. tt) ]))
        (Emits-pure q _)

  pub save_status-SafeFor : (final : Database) → SafeFor database (save_status env final)
  unfolding save_status
  save_status-SafeFor final = Emits-quiet q _ _ (λ _. tt)

  pub unavailable-SafeFor : (e : Option Error) → SafeFor database (unavailable env e database)
  unfolding unavailable
  unavailable-SafeFor e = Emits-bind q _ _ (save_status-SafeFor _) (λ _. Emits-pure q _)

  pub refresh-SafeFor : (db : Handle) (other : Database) → SafeFor database (refresh env db other)
  unfolding refresh
  refresh-SafeFor db other =
      Emits-bind q _ _ (database_exists-Emits q env db other.spec.name)
        (elim [ none ↦ Emits-pure q _ | some s ↦ Emits-pure q _ ])

  altered-SafeFor :
      (required : Bool) (db : Handle) (other : Database)
      → SafeFor database (altered env required db other)
  unfolding altered
  altered-SafeFor required db other =
      Emits-bind q _ _ (refresh-SafeFor db other) (λ _. Emits-pure q _)

  -- The part of `databaseUpdate` that is behind the test, from the evidence of ownership.
  database_update_owned :
      (db : Handle) (w v : World)
      → OwnedAt db w v
      → SafeStep w (database_update env db database v).1
  unfolding database_update
  database_update_owned db w v shown =
      elim (Bool-cases (alters_character_set database || alters_collate database)) [
        | inl required ↦ rw required (
            step_bind (run env db (alter_query database)) _ w v (alter_owned db w v shown)
              (elim [ some e ↦ Emits-pure q _ | none ↦ altered-SafeFor true db _ ]))
        | inr same ↦
            rw same
              (Extends-trans q.trace (owned_safe db w v shown) ((altered-SafeFor false db _).at v))
      ]

  pub updated-SafeFor : (db : Handle) → SafeFor database (updated env db database)
  unfolding updated reported
  updated-SafeFor db = owned_bind db _ (Emits-pure q _) (λ w v shown.
      step_bind (database_update env db database) _ w v (database_update_owned db w v shown)
        (λ _. Emits-pure q _))

  -- A database that differs in its status alone: the same statements are safe for it.
  pub SafeFor-status :
      (other : Database) {A : Type 0} {m : Exec A}
      → other.spec ≡ database.spec
      → other.meta ≡ database.meta
      → SafeFor other m
      → SafeFor database m
  SafeFor-status other {m} spec meta safe =
      subst₂ (λ n o. Emits (Safe n o) m) (ap (λ (d : DatabaseSpec). d.name) spec) meta safe
