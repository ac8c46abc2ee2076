-- ===== src/Connection/Interleaved/Examples.antt =====
-- Schedules of two goroutines, and the theorems on them.
use mysql_dba_operator.Base.{
  ℕ, zero, suc, ◌≡◌, refl, Bool, true, false, Option, none, some, List, [], ◌∷◌, ◌++◌, length,
  count, codes, ◌==◌,
}
use mysql_dba_operator.Api.{AdminConnection}
use mysql_dba_operator.Orm.{Handle, DbConfig, ConnectionDefinition}
use mysql_dba_operator.World.{Env, World, Event, Result, ok, close}
use mysql_dba_operator.World.Exec.{pure, ◌>>=◌, call, get_cache, set_cache, update}
use mysql_dba_operator.Connection.{
  secret_or, get_secret_ref_value, get_secret_at, run, close_pool, pool_of_handle, ping_pool,
  same_config, bool_eq, get_database_connection,
}
use mysql_dba_operator.Connection.Interleaved.{
  Pc, step, with_user, with_password, with_entry, with_old_pool, with_answer, with_pool, with_test,
  with_handle, with_migration,
}
use mysql_dba_operator.Connection.Interleaved.Alone.{alone, alone-get_database_connection}
use mysql_dba_operator.Connection.Interleaved.Threads.{System, Reach, began, assign}
use mysql_dba_operator.Connection.Interleaved.Traced.{Reach-Opens}
use mysql_dba_operator.Connection.Interleaved.Traced.Places.{Opens, IsFor, Filled}
use mysql_dba_operator.Connection.Interleaved.Schedules.{
  Action, Played, play, begin_from, move_from,
}
use mysql_dba_operator.Sample.{main_admin, sample, start}

-- Every pool has another number.
abbrev counting : Env
counting = record sample {
  sql_open = λ log config. ok (length log);
  gorm_open = λ log pool. ok pool;
  pool_of = λ log db. ok db;
}

abbrev moves : ℕ → ℕ → List Action
moves zero i = []
moves (suc n) i = Action.move i ∷ moves n i

-- Two goroutines call the function for one resource; both look the cache up before one enters its
-- connection.
abbrev race : List Action
race =
    Action.begin 0 main_admin
    ∷ Action.begin 1 main_admin
    ∷ (moves 3 0 ++ (moves 3 1 ++ (moves 10 0 ++ moves 10 1)))

abbrev raced : Played counting
raced = play counting race (began, Reach.start)

abbrev handle_of : Option ConnectionDefinition → Option Handle
handle_of none = none
handle_of (some conn) = some conn.db

abbrev is_close : Event → Bool
is_close (close pool reply) = true
is_close event = false

result_of : System → ℕ → Option (Result Handle)
result_of s i = elim (s.threads i) [ none ↦ none | some t ↦ outcome t.pc ]
  where
    outcome : Pc → Option (Result Handle)
    outcome (Pc.returned db) = some db
    outcome pc = none

-- Each has its own pool, the cache has that of the last one, and none was closed.
race_leaks :
    (result_of raced.0 0 ≡ some (ok 0))
    × (result_of raced.0 1 ≡ some (ok 6))
    × (handle_of (raced.0.world.cache main_admin.meta.uid) ≡ some 6)
    × (count is_close raced.0.world.log ≡ 0)
unfolding result_of play begin_from move_from step with_user with_password with_entry with_old_pool
    with_answer with_pool with_test with_handle with_migration secret_or get_secret_ref_value
    get_secret_at run close_pool pool_of_handle ping_pool call get_cache set_cache update assign
    codes ◌==◌ same_config bool_eq
race_leaks = (refl, refl, refl, refl)

Reach-Opens_example :
    Filled raced.0.world
    × ((i : ℕ) (admin : AdminConnection) (db : Handle)
        → raced.0.threads i ≡ some (record { admin = admin; pc = Pc.returned (ok db) })
        → (config : DbConfig) × (IsFor counting admin config × Opens config db raced.0.world.log))
Reach-Opens_example = Reach-Opens counting raced.1

alone-get_database_connection_example :
    alone counting main_admin 13 Pc.reading_user start
    ≡ (get_database_connection counting main_admin >>= λ db. pure (Pc.returned db)) start
alone-get_database_connection_example = alone-get_database_connection counting main_admin start

-- At each step the goroutine meets the world of the race.
abbrev met : ℕ → List World
met zero = []
met (suc n) = raced.0.world ∷ met n
