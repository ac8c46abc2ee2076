-- ===== src/Connection/Interleaved/Traced/Steps.antt =====
-- Each step of `GetDatabaseConnection` keeps what is known.
use mysql_dba_operator.Base.{
  Bytes, ◌≡◌, ◌≢◌, ◌⊎◌, refl, subst, Option, none, some, [], ◌∷◌, ◌++◌, Bool-cases, ◌==◌, inl, inr,
}
use mysql_dba_operator.Api.{SecretKeySource, AdminConnection}
use mysql_dba_operator.Orm.{Handle, Pool, DbConfig, ConnectionDefinition}
use mysql_dba_operator.World.{
  Env, World, Log, Event, Error, Result, ok, err, sql_open, ping, gorm_open, auto_migrate,
}
use mysql_dba_operator.World.Exec.{
  Outcome, done, panic, pure, ◌>>=◌, call, get_cache, set_cache, update,
}
use mysql_dba_operator.Connection.{
  secret_or, get_secret_ref_value, get_secret_at, same_config, run, close_pool, pool_of_handle,
  ping_pool,
}
use mysql_dba_operator.Connection.Cached.{same_config-eq}
use mysql_dba_operator.Connection.Interleaved.{
  Pc, step, with_user, with_password, with_entry, with_old_pool, with_answer, with_pool, with_test,
  with_handle, with_migration,
}
use mysql_dba_operator.Connection.Interleaved.Traced.Order.{InOrder-none, InOrder-snoc}
use mysql_dba_operator.Connection.Interleaved.Traced.Places.{
  Opens, IsFor, Known, Opens-later, Filled,
}

some_injective : {x y : ConnectionDefinition} → some x ≡ some y → x ≡ y
some_injective h = cc

none-ne_some : {x : ConnectionDefinition} → none ≢ some x
none-ne_some h = cc

module _ (env : Env) (admin : AdminConnection) where
  -- What a step keeps: one call at most is made, the cache is as it should be, and what is known at the
  -- place that it leads to holds.
  pub record Kept (w : World) (pc : Pc) (v : World) : Type 0 where
    pub grown : (v.log ≡ w.log) ⊎ ((event : Event) × (v.log ≡ w.log ++ event ∷ []))
    pub filled : Filled v
    pub known : Known env admin v.log pc

  abbrev KeptBy : World → Outcome Pc × World → Type 0
  KeptBy w (done pc, v) = Kept w pc v
  KeptBy w (panic, v) = Unit {0}

  silent : (w : World) (pc : Pc) → Filled w → Known env admin w.log pc → Kept w pc w
  silent w pc s k = record { grown = inl refl; filled = s; known = k }

  logged :
      (w : World) (pc : Pc) (event : Event)
      → Filled w
      → Known env admin (w.log ++ event ∷ []) pc
      → Kept w pc (record w { log = w.log ++ event ∷ [] })
  logged w pc event s k = record {
    grown = inr (event, refl);
    filled = λ uid conn e. Opens-later event (s uid conn e);
    known = k;
  }

  secret-KeptBy :
      (w : World) (namespace : Bytes) (source : Option SecretKeySource) (default : Bytes)
      (f : Result Bytes → Pc)
      → Filled w
      → ((value : Result Bytes) (log : Log) → Known env admin log (f value))
      → KeptBy w ((secret_or env namespace source default >>= λ value. pure (f value)) w)
  unfolding secret_or get_secret_ref_value get_secret_at call
  secret-KeptBy w namespace none default f s k = silent w _ s (k _ _)
  secret-KeptBy w namespace (some source) default f s k = logged w _ _ s (k _ _)

  user-Known : (value : Result Bytes) (log : Log) → Known env admin log (with_user env admin value)
  unfolding with_user Known
  user-Known (ok user) log = tt
  user-Known (err e) log = tt

  password-Known :
      (user : Bytes) (value : Result Bytes) (log : Log)
      → Known env admin log (with_password env admin user value)
  unfolding with_password Known
  password-Known user (ok passwd) log = record { addressed = refl }
  password-Known user (err e) log = tt

  entry-Known :
      (config : DbConfig) (entry : Option ConnectionDefinition) (log : Log)
      → IsFor env admin config
      → ((conn : ConnectionDefinition) → entry ≡ some conn → Opens conn.config conn.db log)
      → Known env admin log (with_entry env admin config entry)
  unfolding with_entry Known
  entry-Known config none log f o = f
  entry-Known config (some conn) log f o = (f, o conn refl)

  old_pool-Known :
      (config : DbConfig) (conn : ConnectionDefinition) (reply : Result Pool) (log : Log)
      → IsFor env admin config
      → Opens conn.config conn.db log
      → Known env admin log (with_old_pool env admin config conn reply)
  unfolding with_old_pool Known
  old_pool-Known config conn (err e) log f o = f
  old_pool-Known config conn (ok pool) log f o =
      elim (Bool-cases (same_config conn.config config)) [
        | inl same ↦ rw (same) (
          f,
          subst (λ (c : DbConfig). Opens c conn.db log) (same_config-eq conn.config config same) o,
        )
        | inr other ↦ rw (other) f
      ]

  answer-Known :
      (config : DbConfig) (db : Handle) (failed : Option Error) (log : Log)
      → IsFor env admin config
      → Opens config db log
      → Known env admin log (with_answer env admin config db failed)
  unfolding with_answer Known
  answer-Known config db none log f o = (config, (f, o))
  answer-Known config db (some e) log f o = f

  pool-Known :
      (config : DbConfig) (reply : Result Pool) (log : Log)
      → IsFor env admin config
      → Known env admin (log ++ sql_open config reply ∷ []) (with_pool env admin config reply)
  unfolding with_pool Known
  pool-Known config (ok pool) log f = (f, InOrder-snoc _ (InOrder-none log))
  pool-Known config (err e) log f = tt

  test-Known :
      (config : DbConfig) (pool : Pool) (failed : Option Error) (log : Log)
      → Known env admin log (Pc.testing config pool)
      → Known env admin (log ++ ping pool failed ∷ []) (with_test env admin config pool failed)
  unfolding with_test Known
  test-Known config pool none log (f, o) = (f, InOrder-snoc _ o)
  test-Known config pool (some e) log k = tt

  handle-Known :
      (config : DbConfig) (pool : Pool) (reply : Result Handle) (log : Log)
      → Known env admin log (Pc.wrapping config pool)
      → Known env admin (log ++ gorm_open pool reply ∷ []) (with_handle env admin config pool reply)
  unfolding with_handle Known
  handle-Known config pool (ok db) log (f, o) = (f, InOrder-snoc _ o)
  handle-Known config pool (err e) log k = tt

  migration-Known :
      (config : DbConfig) (pool : Pool) (db : Handle) (failed : Option Error) (log : Log)
      → Known env admin log (Pc.migrating config pool db)
      → Known env admin
          (log ++ auto_migrate db failed ∷ [])
          (with_migration env admin config pool db failed)
  unfolding with_migration Known
  migration-Known config pool db none log (f, (c, u, o)) =
      (f, record { pool = pool; created = c; used = u; calls = InOrder-snoc _ o })
  migration-Known config pool db (some e) log k = tt

  erased :
      (w : World) (config : DbConfig)
      → Filled w
      → IsFor env admin config
      → Kept w (Pc.opening_pool config) (set_cache admin.meta.uid none w).1
  unfolding set_cache update Known
  erased w config s f = record {
    grown = inl refl;
    filled = λ uid conn e. elim (Bool-cases (admin.meta.uid == uid)) [
      | inl here ↦ absurd (none-ne_some (rw (here) at e))
      | inr there ↦ s uid conn (rw (there) at e)
    ];
    known = f;
  }

  entered :
      (w : World) (config : DbConfig) (db : Handle)
      → Filled w
      → IsFor env admin config
      → Opens config db w.log
      → Kept w
          (Pc.returned (ok db))
          (set_cache admin.meta.uid (some (record { config = config; db = db })) w).1
  unfolding set_cache update Known
  entered w config db s f o = record {
    grown = inl refl;
    filled = λ uid conn e. elim (Bool-cases (admin.meta.uid == uid)) [
      | inl here ↦
          subst (λ (x : ConnectionDefinition). Opens x.config x.db w.log)
            (some_injective (rw (here) at e)) o
      | inr there ↦ s uid conn (rw (there) at e)
    ];
    known = (config, (f, o));
  }

  step-KeptBy :
      (pc : Pc) (w : World) → Filled w → Known env admin w.log pc → KeptBy w (step env admin pc w)
  unfolding Known step run close_pool pool_of_handle ping_pool call get_cache set_cache
  step-KeptBy Pc.reading_user w s k =
      secret-KeptBy w _ admin.spec.admin_user _ (with_user env admin) s user-Known
  step-KeptBy (Pc.reading_password user) w s k =
      secret-KeptBy w _ admin.spec.admin_password _ (with_password env admin user) s
        (password-Known user)
  step-KeptBy (Pc.looking_up config) w s k =
      silent w _ s (entry-Known config (w.cache admin.meta.uid) w.log k (s admin.meta.uid))
  step-KeptBy (Pc.pooling config conn) w s (f, o) =
      logged w _ _ s (old_pool-Known config conn _ _ f (Opens-later _ o))
  step-KeptBy (Pc.pinging config db pool) w s (f, o) =
      logged w _ _ s (answer-Known config db _ _ f (Opens-later _ o))
  step-KeptBy (Pc.closing config pool) w s k = logged w (Pc.erasing config) _ s k
  step-KeptBy (Pc.erasing config) w s k = erased w config s k
  step-KeptBy (Pc.opening_pool config) w s k = logged w _ _ s (pool-Known config _ w.log k)
  step-KeptBy (Pc.testing config pool) w s k = logged w _ _ s (test-Known config pool _ w.log k)
  step-KeptBy (Pc.wrapping config pool) w s k = logged w _ _ s (handle-Known config pool _ w.log k)
  step-KeptBy (Pc.creating config pool db) w s (f, o) =
      logged w (Pc.using config pool db) _ s (f, (_, InOrder-snoc _ o))
  step-KeptBy (Pc.using config pool db) w s (f, (c, o)) =
      logged w (Pc.migrating config pool db) _ s (f, (c, _, InOrder-snoc _ o))
  step-KeptBy (Pc.migrating config pool db) w s k =
      logged w _ _ s (migration-Known config pool db _ w.log k)
  step-KeptBy (Pc.discarding pool e) w s k = logged w (Pc.returned (err e)) _ s tt
  step-KeptBy (Pc.entering config db) w s (f, o) = entered w config db s f o
  step-KeptBy (Pc.returned db) w s k = silent w (Pc.returned db) s k

  pub step-Kept :
      (pc : Pc) {next : Pc} {w v : World}
      → step env admin pc w ≡ (done next, v)
      → Filled w
      → Known env admin w.log pc
      → Kept w next v
  step-Kept pc {w = w} h s k = subst (KeptBy w) h (step-KeptBy pc w s k)
