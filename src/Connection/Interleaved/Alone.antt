-- ===== src/Connection/Interleaved/Alone.antt =====
-- Steps of `GetDatabaseConnection` that nothing interrupts, against the function as it is written.
use mysql_dba_operator.Base.{
  ℕ, zero, suc, Bytes, true, false, ◌≡◌, ◌∙◌, refl, ◌+◌, Option-cases, inl, inr, Bool-cases, Option,
  none, some, [], ◌∷◌, ◌++◌, codes, arith,
}
use mysql_dba_operator.Api.{SecretKeySource, AdminConnection}
use mysql_dba_operator.Orm.{Handle, Pool, DbConfig, ConnectionDefinition}
use mysql_dba_operator.World.{Env, World, Event, Error, Result, ok, err, pool_of, ping, close}
use mysql_dba_operator.World.Exec.{
  Exec, Outcome, done, panic, continue, pure, ◌>>=◌, call, get_cache,
}
use mysql_dba_operator.Connection.{
  get_secret_at, get_secret_ref_value, secret_or, get_db_config, run, switch_database, migrated,
  opened, create_fresh_connection, pinged, closed, reusable, renewed, connected,
  get_database_connection, close_pool, pool_of_handle, ping_pool, same_config,
}
use mysql_dba_operator.Connection.Sound.{Result-cases}
use mysql_dba_operator.Connection.Interleaved.{
  Pc, step, with_user, with_password, with_entry, with_old_pool, with_answer, with_pool, with_test,
  with_handle, with_migration,
}

module _ (env : Env) (admin : AdminConnection) where
  -- A number of steps.
  pub alone : ℕ → Pc → Exec Pc
  unfolding step
  alone zero pc = pure pc
  alone (suc n) pc = do next ← step env admin pc; alone n next

  alone-returned :
      (n : ℕ) (db : Result Handle) (w : World)
      → alone n (Pc.returned db) w ≡ (done (Pc.returned db), w)
  unfolding alone
  alone-returned zero db w = refl
  alone-returned (suc n) db w = alone-returned n db w

  -- What a function returns, as the end of the steps.
  abbrev ending : Exec (Result Handle) → Exec Pc
  ending m = m >>= λ db. pure (Pc.returned db)

  alone-add : (m n : ℕ) (pc : Pc) (w : World) → alone (m + n) pc w ≡ (alone m pc >>= alone n) w
  unfolding alone
  alone-add zero n pc w = let e : 0 + n ≡ n = omega arith in rw e refl
  alone-add (suc m) n pc w =
      let e : suc m + n ≡ suc (m + n) = omega arith in
      rw e (go (alone-add m n) (step env admin pc w))
    where
      go :
          ((next : Pc) (v : World) → alone (m + n) next v ≡ (alone m next >>= alone n) v)
          → (r : Outcome Pc × World)
          → continue r.0 (alone (m + n)) r.1
            ≡ continue (continue r.0 (alone m) r.1).0 (alone n) (continue r.0 (alone m) r.1).1
      go later (done next, v) = later next v
      go later (panic, v) = refl

  -- Further steps after the end change nothing.
  ended :
      (m n : ℕ) (pc : Pc) (f : Exec (Result Handle)) (w : World)
      → alone m pc w ≡ ending f w
      → alone (m + n) pc w ≡ ending f w
  ended m n pc f w h = alone-add m n pc w ∙ (rw h (go (f w)))
    where
      go :
          (r : Outcome (Result Handle) × World)
          → (continue
              (continue r.0 (λ db. pure (Pc.returned db)) r.1).0
              (alone n)
              (continue r.0 (λ db. pure (Pc.returned db)) r.1).1)
            ≡ continue r.0 (λ db. pure (Pc.returned db)) r.1
      go (done db, v) = alone-returned n db v
      go (panic, v) = refl

  alone-renewed :
      (config : DbConfig) (w : World)
      → alone 8 (Pc.erasing config) w ≡ ending (renewed env admin config) w
  unfolding alone step with_pool with_test with_handle with_migration renewed
      create_fresh_connection opened migrated switch_database run close_pool ping_pool call
  alone-renewed config w = ground arith

  alone-renewed_later :
      (n : ℕ) (config : DbConfig) (w : World)
      → alone (8 + n) (Pc.erasing config) w ≡ ending (renewed env admin config) w
  alone-renewed_later n config w =
      ended 8 n (Pc.erasing config) (renewed env admin config) w (alone-renewed config w)

  -- The world after one more call.
  abbrev logged : World → Event → World
  logged v event = record v { log = v.log ++ event ∷ [] }

  -- What follows the look at the entry of the cache.
  abbrev reusing : DbConfig → Option ConnectionDefinition → Exec (Result Handle)
  reusing config conn =
      reusable env conn config >>= elim [ some db ↦ pure (ok db) | none ↦ renewed env admin config ]

  module _ (config : DbConfig) (conn : ConnectionDefinition) (w : World) where
    abbrev Found : Type 0
    Found = alone 10 (Pc.pooling config conn) w ≡ ending (reusing config (some conn)) w

    alone-lost : (e : Error) → env.pool_of w.log conn.db ≡ err e → Found
    unfolding alone step with_old_pool with_answer reusable pinged closed close_pool ping_pool
        pool_of_handle call
    alone-lost e failed = elim (Bool-cases (same_config conn.config config)) [
      | inl same ↦ rw (same) (
          ground (arith, failed, alone-renewed_later 1 config (logged w (pool_of conn.db (err e)))))
      | inr other ↦ rw (other) (
          ground (arith, failed, alone-renewed_later 1 config (logged w (pool_of conn.db (err e)))))
    ]

    module _ (pool : Pool) (got : env.pool_of w.log conn.db ≡ ok pool) where
      abbrev asked : World
      asked = logged w (pool_of conn.db (ok pool))

      alone-other : same_config conn.config config ≡ false → Found
      unfolding alone step with_old_pool with_answer reusable pinged closed close_pool ping_pool
          pool_of_handle call
      alone-other other = rw (other) (
          ground (
            arith,
            got,
            alone-renewed config (logged asked (close pool (env.close asked.log pool))),
          ))

      alone-silent :
          (e : Error)
          → same_config conn.config config ≡ true
          → env.ping asked.log pool ≡ some e
          → Found
      unfolding alone step with_old_pool with_answer reusable pinged closed close_pool ping_pool
          pool_of_handle call
      alone-silent e same failed =
          rw (got, same)
            (ground (arith, failed, alone-renewed config (logged asked (ping pool (some e)))))

      alone-alive : same_config conn.config config ≡ true → env.ping asked.log pool ≡ none → Found
      unfolding alone step with_old_pool with_answer reusable pinged closed close_pool ping_pool
          pool_of_handle call
      alone-alive same passed = rw (got, same) (ground (arith, passed))

      alone-same : same_config conn.config config ≡ true → Found
      alone-same same = elim (Option-cases (env.ping asked.log pool)) [
        | inl passed ↦ alone-alive same passed
        | inr (e, failed) ↦ alone-silent e same failed
      ]

    alone-found : Found
    alone-found = elim (Result-cases (env.pool_of w.log conn.db)) [
      | inr (e, failed) ↦ alone-lost e failed
      | inl (pool, got) ↦ elim (Bool-cases (same_config conn.config config)) [
        | inl same ↦ alone-same pool got same
        | inr other ↦ alone-other pool got other
      ]
    ]

  alone-connected :
      (config : DbConfig) (w : World)
      → alone 11 (Pc.looking_up config) w ≡ ending (connected env admin config) w
  unfolding alone step with_entry connected reusable get_cache
  alone-connected config w = elim (Option-cases (w.cache admin.meta.uid)) [
    | inl missing ↦ rw (missing) (alone-renewed_later 2 config w)
    | inr (conn, found) ↦ rw (found) (alone-found config conn w)
  ]

  -- A secret is read in one step, which does not panic.
  pub secret_or-done :
      (namespace : Bytes) (source : Option SecretKeySource) (default : Bytes) (w : World)
      → (value : Result Bytes) × (v : World) × (secret_or env namespace source default w
          ≡ (done value, v))
  unfolding secret_or get_secret_ref_value get_secret_at call
  secret_or-done namespace none default w = (_, _, refl)
  secret_or-done namespace (some source) default w = (_, _, refl)

  -- The function takes at most thirteen steps, and with no other step between them, whatever the
  -- environment replies, they do what `GetDatabaseConnection` does: the same calls with the same
  -- replies, the same cache and the same result.
  pub alone-get_database_connection :
      (w : World)
      → alone 13 Pc.reading_user w
        ≡ (get_database_connection env admin >>= λ db. pure (Pc.returned db)) w
  unfolding alone step with_user with_password get_database_connection get_db_config
  alone-get_database_connection w =
      go_user (secret_or-done admin.meta.namespace admin.spec.admin_user (codes "root") w)
    where
      Ends : Type 0
      Ends =
          alone 13 Pc.reading_user w
          ≡ (get_database_connection env admin >>= λ db. pure (Pc.returned db)) w

      go_passwd :
          (user : Bytes) (v : World)
          → secret_or env admin.meta.namespace admin.spec.admin_user (codes "root") w
            ≡ (done (ok user), v)
          → ((value : Result Bytes) × (u : World) × (secret_or env admin.meta.namespace
                  admin.spec.admin_password [] v
                ≡ (done value, u)))
          → Ends
      go_passwd user v h (err e, u, h2) = rw h (rw h2 (alone-returned 11 _ _))
      go_passwd user v h (ok passwd, u, h2) = rw h (rw h2 (alone-connected _ u))

      go_user :
          ((value : Result Bytes) × (v : World) × (secret_or env admin.meta.namespace
                admin.spec.admin_user
                (codes "root")
                w
              ≡ (done value, v)))
          → Ends
      go_user (err e, v, h) = rw h (alone-returned 12 _ _)
      go_user (ok user, v, h) =
          go_passwd user v h (secret_or-done admin.meta.namespace admin.spec.admin_password [] v)
