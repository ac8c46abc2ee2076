-- ===== src/DatabaseController/Settles/Altered.antt =====
-- A round for a database that is there brings the server in step.
use mysql_dba_operator.Base.{
  Bool, true, false, ◌||◌, ◌≡◌, inl, inr, refl, ◌∙◌, subst, Option, none, some, [], ◌∷◌, ◌++◌,
  ==_iff, Bool-cases, arith,
}
use mysql_dba_operator.Api.{DatabaseSpec, Database}
use mysql_dba_operator.Orm.{DatabaseSchema}
use mysql_dba_operator.World.{
  Env, World, Log, Event, Error, exec, first_schema, find_managed_database,
}
use mysql_dba_operator.World.Exec.{done, pure, call, look}
use mysql_dba_operator.World.Traces.{Moves, Moves-pure, Moves-bind}
use mysql_dba_operator.Connection.{run}
use mysql_dba_operator.Ownership.{database_matches, database_exists, database_mine}
use mysql_dba_operator.Ownership.Evidence.{Records-database_matches}
use mysql_dba_operator.Acquire.{Connected}
use mysql_dba_operator.DatabaseController.{
  alter_query, alters_character_set, alters_collate, seen, refresh, altered, database_update,
  reported, updated, after_update, located, create_or_update, provision,
}
use mysql_dba_operator.DatabaseController.Converged.{IsInSync, seen_status}
use mysql_dba_operator.DatabaseController.Settles.{
  Serves, Mine, Mine-row, Settled, Stays, Stays-IsPreorder, refresh-Stays, Settled-after,
  save-Stays,
}

seen_spec :
    (d : Database) (s : DatabaseSchema)
    → (seen d s.default_character_set s.default_collation).spec ≡ d.spec
unfolding seen
seen_spec d s = refl

seen_meta :
    (d : Database) (s : DatabaseSchema)
    → (seen d s.default_character_set s.default_collation).meta ≡ d.meta
unfolding seen
seen_meta d s = refl

-- A status that shows the schema and needs no `ALTER DATABASE`.
IsInSync-of_none :
    (d : Database) (s : DatabaseSchema)
    → (alters_character_set d || alters_collate d) ≡ false
    → d.status.character_set ≡ s.default_character_set
    → d.status.collate ≡ s.default_collation
    → IsInSync d.spec s
unfolding alters_character_set alters_collate
IsInSync-of_none d s h cs co = record {
  character_set = ground (
    arith,
    h,
    cs,
    ==_iff d.spec.character_set [],
    ==_iff d.spec.character_set d.status.character_set,
  );
  collate = ground (arith, h, co, ==_iff d.spec.collate [], ==_iff d.spec.collate d.status.collate);
}

module _ (env : Env) (c : Connected) (database : Database) (serves : Serves env c.db database) where
  altered-Stays :
      (required : Bool) (d : Database)
      → Moves (Stays env c database serves) (altered env required c.db d)
  unfolding altered
  altered-Stays required d =
      Moves-bind (Stays-IsPreorder env c database serves) _ _
        ((refresh-Stays env c database serves) d)
        (λ o.
          Moves-pure (Stays-IsPreorder env c database serves) {A = Bool × Option Error × Database}
            (required, none, o.1))

  -- A database whose status shows the schema is altered into step, or is in step.
  altered_settles :
      (d : Database) (w : World) (s : DatabaseSchema)
      → d.spec ≡ database.spec
      → serves.schema w.log ≡ some s
      → d.status.character_set ≡ s.default_character_set
      → d.status.collate ≡ s.default_collation
      → (Mine env c database serves) w.log
      → (Settled env c database serves) (database_update env c.db d w).1.log
  unfolding database_update run call
  altered_settles d w s same_spec found cs co mine =
      elim (Bool-cases (alters_character_set d || alters_collate d)) [
        | inl required ↦
            let (accepted, (t, (made, sync))) =
              serves.alters w.log d s same_spec found cs co required in
            let sent : Event = exec c.db (alter_query d) none in
            rw (required, accepted)
              ((altered-Stays true _).at _ (record {
                there = t;
                found = made;
                in_sync = sync;
                mine = Mine-row env c database serves (serves.keeps_row w.log sent refl) mine;
              }))
        | inr not_required ↦ rw (not_required) (
            (altered-Stays false _).at _ (record {
              there = s;
              found = found;
              in_sync =
                  subst (λ (spec : DatabaseSpec). IsInSync spec s) same_spec
                    (IsInSync-of_none d s not_required cs co);
              mine = mine;
            }))
      ]

  -- The ownership test passes, and leaves the schema and the row.
  owns :
      (d : Database) (w : World) (s : DatabaseSchema)
      → d.spec ≡ database.spec
      → d.meta ≡ database.meta
      → serves.schema w.log ≡ some s
      → (Mine env c database serves) w.log
      → (v : World) × ((database_mine env c.db d w ≡ (done true, v))
          × ((serves.schema v.log ≡ some s) × (Mine env c database serves) v.log))
  unfolding database_mine database_exists call database_matches
  owns d w s same_spec same_meta found mine =
      let looked =
        first_schema c.db database.spec.name (env.first_schema w.log c.db database.spec.name) in
      let log1 : Log = w.log ++ looked ∷ [] in
      let row1 : serves.row log1 ≡ serves.row w.log = serves.keeps_row w.log looked refl in
      let read =
        find_managed_database c.db database.meta.uid
          (env.find_managed_database log1 c.db database.meta.uid) in
      (
        record w { log = log1 ++ read ∷ [] },
        (
          rw (same_spec, serves.finds_schema w.log, found, same_meta)
              (rw (serves.finds_row log1, row1)
                (rw (same_spec, Records-database_matches _ database mine) refl)),
          (
            serves.keeps_schema log1 read refl ∙ (serves.keeps_schema w.log looked refl ∙ found),
            Mine-row env c database serves (serves.keeps_row log1 read refl ∙ row1) mine,
          ),
        ),
      )

  update_settles :
      (d : Database) (w : World) (s : DatabaseSchema)
      → d.spec ≡ database.spec
      → d.meta ≡ database.meta
      → d.status.character_set ≡ s.default_character_set
      → d.status.collate ≡ s.default_collation
      → serves.schema w.log ≡ some s
      → (Mine env c database serves) w.log
      → (Settled env c database serves) (updated env c.db d w).1.log
  unfolding updated reported
  update_settles d w s same_spec same_meta cs co found mine =
      let (v, (tested, (kept, owned))) = owns d w s same_spec same_meta found mine in
      rw (tested) (
        (Settled-after env c database serves) (database_update env c.db d)
          (λ outcome. pure (after_update outcome)) v
          (altered_settles d v s same_spec kept cs co owned)
          (λ outcome. Moves-pure (Stays-IsPreorder env c database serves) (after_update outcome)))

  -- A round for a database that is there and is the resource's.
  pub updated_settles :
      (w : World) (s : DatabaseSchema)
      → serves.schema w.log ≡ some s
      → (Mine env c database serves) w.log
      → (Settled env c database serves) (provision env c database w).1.log
  unfolding provision refresh database_exists located look call create_or_update
  updated_settles w s found mine =
      let looked =
        first_schema c.db database.spec.name (env.first_schema w.log c.db database.spec.name) in
      let shows = seen_status database s.default_character_set s.default_collation in
      let w1 : World = record w { log = w.log ++ looked ∷ [] } in
      rw (serves.finds_schema w.log, found)
        ((Settled-after env c database serves) (updated env c.db _) _ _
          (update_settles _ w1 s (seen_spec database s) (seen_meta database s) shows.0 shows.1
            (serves.keeps_schema w.log looked refl ∙ found)
            (Mine-row env c database serves (serves.keeps_row w.log looked refl) mine))
          (save-Stays env c database serves))
