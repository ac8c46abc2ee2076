-- ===== src/DatabaseController/Settles.antt =====
-- What it is for the server to be in step with a `Database`, and what keeps it so.
pub mod Created
pub mod Altered
use mysql_dba_operator.Base.{
  Bytes, Bool, true, false, not, ◌||◌, ◌≡◌, ◌⊎◌, inl, inr, refl, ◌∙◌, ap, sym, subst, Option, none,
  some, [], ◌∷◌, ◌++◌, ◌==◌, ==_iff, Bool-cases, arith,
}
use mysql_dba_operator.Api.{DatabaseSpec, Database}
use mysql_dba_operator.Orm.{Handle, DatabaseSchema, ManagedDatabase}
use mysql_dba_operator.World.{
  Env, World, Log, Event, Error, exec, first_schema, find_managed_database, create_managed_database,
  delete_managed_database, update_database_status, commit,
}
use mysql_dba_operator.World.Exec.{Exec, done, pure, ◌>>=◌, ◌>>◌, call, look, note}
use mysql_dba_operator.World.Traces.{
  Extends, Quiet, IsPreorder, Moves, Moves-pure, Moves-bind, bind_from,
}
use mysql_dba_operator.Connection.{run}
use mysql_dba_operator.Ownership.{
  named_schema, no_database, found_or, database_matches, database_exists, database_mine,
}
use mysql_dba_operator.Ownership.Evidence.{Records}
use mysql_dba_operator.Acquire.{Connected}
use mysql_dba_operator.DatabaseController.{
  create_query, alter_query, with_character_set, with_collate, alters_character_set, alters_collate,
  seen, refresh, altered, database_update, managed_of, database_create, after_create, created,
  reported, updated, after_update, located, create_or_update, provision, save_status,
}
use mysql_dba_operator.DatabaseController.Converged.{IsInSync, seen_status, provision_in_sync}

-- A statement may change a schema, and two calls the row.
abbrev pub touches_schema : Event → Bool
touches_schema (exec db query reply) = true
touches_schema event = false

abbrev pub touches_row : Event → Bool
touches_row (create_managed_database db row reply) = true
touches_row (delete_managed_database db uid) = true
touches_row event = false

-- What MySQL is documented to do, for one database that nobody else changes: it has a schema of that
-- name or none, and a row for the resource or none, which the queries find. It creates the database
-- where there is none, takes an `ALTER DATABASE` that sets something, takes the row where there is none,
-- and refuses it where there is one, whose primary key it has.
-- This takes a spec whose character set and collation the server has and which go together.
pub record Serves (env : Env) (db : Handle) (database : Database) : Type 0 where
  pub schema : Log → Option DatabaseSchema
  pub row : Log → Option ManagedDatabase
  pub finds_schema :
      (log : Log) → named_schema (env.first_schema log db database.spec.name) ≡ schema log
  pub finds_row : (log : Log) → env.find_managed_database log db database.meta.uid ≡ row log
  pub keeps_schema :
      (log : Log) (event : Event)
      → touches_schema event ≡ false
      → schema (log ++ event ∷ []) ≡ schema log
  pub keeps_row :
      (log : Log) (event : Event) → touches_row event ≡ false → row (log ++ event ∷ []) ≡ row log
  pub creates :
      (log : Log)
      → schema log ≡ none
      → (env.exec log db (create_query database) ≡ none)
        × ((s : DatabaseSchema) × ((schema (log ++ exec db (create_query database) none ∷ [])
                ≡ some s)
              × IsInSync database.spec s))
  pub records :
      (log : Log)
      → row log ≡ none
      → (env.create_managed_database log db (managed_of env database) ≡ none)
        × (row (log ++ create_managed_database db (managed_of env database) none ∷ [])
            ≡ some (managed_of env database))
  pub refuses :
      (log : Log) (r : ManagedDatabase)
      → row log ≡ some r
      → (e : Error) × ((env.create_managed_database log db (managed_of env database) ≡ some e)
          × (row (log ++ create_managed_database db (managed_of env database) (some e) ∷ [])
              ≡ row log))
  pub alters :
      (log : Log) (d : Database) (s : DatabaseSchema)
      → d.spec ≡ database.spec
      → schema log ≡ some s
      → d.status.character_set ≡ s.default_character_set
      → d.status.collate ≡ s.default_collation
      → (alters_character_set d || alters_collate d) ≡ true
      → (env.exec log db (alter_query d) ≡ none)
        × ((t : DatabaseSchema) × ((schema (log ++ exec db (alter_query d) none ∷ []) ≡ some t)
              × IsInSync database.spec t))

module _ (env : Env) (c : Connected) (database : Database) (serves : Serves env c.db database) where
  abbrev pub Mine : Log → Type 0
  Mine log = Records (found_or no_database (serves.row log)) database.spec.name database.meta

  -- A row that is the same says the same.
  pub Mine-row : {log later : Log} → serves.row later ≡ serves.row log → Mine log → Mine later
  Mine-row same mine =
      subst (λ row. Records (found_or no_database row) database.spec.name database.meta) (sym same)
        mine

  -- There is no row, or it says that the database is the resource's.
  abbrev pub Unclaimed : Log → Type 0
  Unclaimed log = (serves.row log ≡ none) ⊎ Mine log

  -- The schema is there and in step, and the row says whose it is.
  pub record Settled (log : Log) : Type 0 where
    pub there : DatabaseSchema
    pub found : serves.schema log ≡ some there
    pub in_sync : IsInSync database.spec there
    pub mine : Mine log

  -- A call that is no statement and does not touch the row.
  pub Settled-later :
      {log : Log} (event : Event)
      → touches_schema event ≡ false
      → touches_row event ≡ false
      → Settled log
      → Settled (log ++ event ∷ [])
  Settled-later {log} event s r h = record {
    there = h.there;
    found = serves.keeps_schema log event s ∙ h.found;
    in_sync = h.in_sync;
    mine = Mine-row (serves.keeps_row log event r) h.mine;
  }

  -- What keeps a settled server settled.
  abbrev pub Stays : World → World → Type 0
  Stays u v = Settled u.log → Settled v.log

  pub Stays-IsPreorder : IsPreorder Stays
  Stays-IsPreorder = record { here = λ w s. s; chain = λ f g s. g (f s) }

  pub call-Stays :
      {A : Type 0} (reply : Log → A) (event : A → Event)
      → ((a : A) → touches_schema (event a) ≡ false)
      → ((a : A) → touches_row (event a) ≡ false)
      → Moves Stays (call reply event)
  unfolding call
  call-Stays reply event s r = record {
    at = λ w. Settled-later (event (reply w.log)) (s (reply w.log)) (r (reply w.log));
  }

  pub refresh-Stays : (d : Database) → Moves Stays (refresh env c.db d)
  unfolding refresh database_exists
  refresh-Stays d =
      Moves-bind Stays-IsPreorder _ _
        (Moves-bind Stays-IsPreorder _ _ (call-Stays _ _ (λ a. refl) (λ a. refl))
          (λ _. Moves-pure Stays-IsPreorder _))
        (elim [ none ↦ Moves-pure Stays-IsPreorder _ | some s ↦ Moves-pure Stays-IsPreorder _ ])

  -- What follows a step that settled the server.
  pub Settled-after :
      {A B : Type 0} (m : Exec A) (f : A → Exec B) (w : World)
      → Settled (m w).1.log
      → ((a : A) → Moves Stays (f a))
      → Settled ((m >>= f) w).1.log
  Settled-after m f w settled rest = bind_from Stays-IsPreorder m f (m w).1 w (λ s. s) rest settled

  pub save-Stays :
      (d : Database) → Moves Stays (save_status env d >>= λ _. pure {A = Option Error} none)
  unfolding save_status
  save-Stays d =
      Moves-bind Stays-IsPreorder _ _ (call-Stays _ _ (λ a. refl) (λ a. refl))
        (λ _. Moves-pure Stays-IsPreorder _)
