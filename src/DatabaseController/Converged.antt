-- ===== src/DatabaseController/Converged.antt =====
-- A database that is as its resource wants it is left alone.
use mysql_dba_operator.Base.{
  Bytes, true, false, ◌||◌, ◌≡◌, ◌⊎◌, refl, Option, none, some, [], arith, ==_iff,
}
use mysql_dba_operator.Api.{DatabaseSpec, Database}
use mysql_dba_operator.Orm.{Handle, DatabaseSchema}
use mysql_dba_operator.World.{Env, Error, World}
use mysql_dba_operator.World.Exec.{pure, ◌>>=◌, call, look}
use mysql_dba_operator.World.Traces.{
  Quiet, Quiet-AdmitsQuiet, AdmitsQuiet, Extends, Extends-trans, Emits, Emits-quiet, Emits-pure,
  Emits-bind, Emits-if,
}
use mysql_dba_operator.Ownership.{named_schema, database_exists}
use mysql_dba_operator.Ownership.Queries.{database_exists-Emits, database_mine-Emits}
use mysql_dba_operator.Acquire.{Connected}
use mysql_dba_operator.DatabaseController.{
  seen, refresh, altered, alters_character_set, alters_collate, database_update, reported, updated,
  located, create_or_update, provision, save_status,
}

-- The schema has what the spec asks for.
pub record IsInSync (spec : DatabaseSpec) (schema : DatabaseSchema) : Type 0 where
  pub character_set :
      (spec.character_set ≡ []) ⊎ (spec.character_set ≡ schema.default_character_set)
  pub collate : (spec.collate ≡ []) ⊎ (spec.collate ≡ schema.default_collation)

-- After `databaseExists` the status shows the schema.
pub seen_status :
    (database : Database) (character_set collation : Bytes)
    → ((seen database character_set collation).status.character_set ≡ character_set)
      × ((seen database character_set collation).status.collate ≡ collation)
unfolding seen
seen_status database character_set collation = ground (
  arith,
  ==_iff database.status.character_set character_set,
  ==_iff database.status.collate collation,
)

-- A database whose status shows a schema in sync needs no `ALTER DATABASE`.
alters_none :
    (database : Database) (schema : DatabaseSchema)
    → IsInSync database.spec schema
    → database.status.character_set ≡ schema.default_character_set
    → database.status.collate ≡ schema.default_collation
    → (alters_character_set database || alters_collate database) ≡ false
unfolding alters_character_set alters_collate
alters_none database schema h cs co = ground (
  arith,
  h.character_set,
  h.collate,
  ==_iff database.spec.character_set [],
  ==_iff database.spec.character_set database.status.character_set,
  ==_iff database.spec.collate [],
  ==_iff database.spec.collate database.status.collate,
)

module _ (env : Env) where
  abbrev q : AdmitsQuiet Quiet
  q = Quiet-AdmitsQuiet

  refresh-Quiet : (db : Handle) (database : Database) → Emits Quiet (refresh env db database)
  unfolding refresh
  refresh-Quiet db database =
      Emits-bind q _ _ (database_exists-Emits q env db _)
        (elim [ none ↦ Emits-pure q _ | some s ↦ Emits-pure q _ ])

  update-Quiet :
      (db : Handle) (database : Database)
      → (alters_character_set database || alters_collate database) ≡ false
      → Emits Quiet (database_update env db database)
  unfolding database_update altered
  update-Quiet db database same =
      rw same (Emits-bind q _ _ (refresh-Quiet db _) (λ _. Emits-pure q _))

  rest-Quiet :
      (db : Handle) (database : Database)
      → (alters_character_set database || alters_collate database) ≡ false
      → Emits Quiet (
          create_or_update env true db database >>= λ final.
          save_status env final >>= λ _. pure {A = Option Error} none)
  unfolding create_or_update updated reported save_status
  rest-Quiet db database same =
      Emits-bind q _ _
        (Emits-bind q _ _ (database_mine-Emits q env db database) (λ mine.
          Emits-if q mine _ _
            (Emits-bind q _ _ (update-Quiet db database same) (λ _. Emits-pure q _))
            (Emits-pure q _)))
        (λ final. Emits-bind q _ _ (Emits-quiet q _ _ (λ _. tt)) (λ _. Emits-pure q _))

  -- If the query for the schema finds one that has the character set and the collation of the spec,
  -- where the spec names them, then the reconciliation sends no statement at all.
  pub provision_in_sync :
      (c : Connected) (database : Database) (schema : DatabaseSchema) (w : World)
      → named_schema (env.first_schema w.log c.db database.spec.name) ≡ some schema
      → IsInSync database.spec schema
      → Extends Quiet w (provision env c database w).1
  unfolding provision refresh database_exists located look call seen
  provision_in_sync c database schema w there h =
      rw (there, call)
        (Extends-trans q.trace (record { events = _; split = refl; good = (tt, tt) })
          ((rest-Quiet c.db _ (
              alters_none _ schema h
                (seen_status database schema.default_character_set schema.default_collation).0
                (seen_status database schema.default_character_set schema.default_collation).1)).at
            _))
