-- ===== src/Connection/Interleaved/Threads.antt =====
-- Goroutines of the controllers that call `GetDatabaseConnection` on one shared cache, their steps in
-- any order; main.go hands one map to the three reconcilers.
use mysql_dba_operator.Base.{ℕ, ◌≡◌, Option, none, some, [], ◌∷◌, ◌++◌, ◌=?◌, if◌then◌else◌}
use mysql_dba_operator.Api.{AdminConnection}
use mysql_dba_operator.World.{Env, World, Event, Result}
use mysql_dba_operator.World.Exec.{done}
use mysql_dba_operator.Orm.{Handle}
use mysql_dba_operator.Connection.Interleaved.{Pc, step}

-- A call of `in.GetDatabaseConnection`, and how far it has come.
pub record Thread : Type 0 where
  pub admin : AdminConnection
  pub pc : Pc

abbrev pub Threads : Type 0
Threads = ℕ → Option Thread

pub record System : Type 0 where
  pub world : World
  pub threads : Threads

-- The goroutine has not called the function yet, or has its result.
pub data IsFree : Option Thread → Type 0 where
  fresh : IsFree none
  ended :
      (admin : AdminConnection) (db : Result Handle)
      → IsFree (some (record { admin = admin; pc = Pc.returned db }))

unfoldable pub assign : Threads → ℕ → Thread → Threads
assign threads i t = λ j. if i =? j then some t else threads j

-- A goroutine calls the function, or makes its next step; or something else is called, which leaves
-- the cache.
pub data Step (env : Env) (s : System) : System → Type 0 where
  begins :
      (i : ℕ) (admin : AdminConnection)
      → IsFree (s.threads i)
      → Step env s (record s {
        threads = assign s.threads i (record { admin = admin; pc = Pc.reading_user });
      })
  moves :
      (i : ℕ) (admin : AdminConnection) {pc next : Pc} {v : World}
      → s.threads i ≡ some (record { admin = admin; pc = pc })
      → step env admin pc s.world ≡ (done next, v)
      → Step env s
          (record { world = v; threads = assign s.threads i (record { admin = admin; pc = next }) })
  calls :
      (event : Event)
      → Step env s (record s { world = record s.world { log = s.world.log ++ event ∷ [] } })

abbrev pub began : System
began = record { world = record { log = []; cache = λ uid. none }; threads = λ i. none }

pub data Reach (env : Env) : System → Type 0 where
  start : Reach env began
  later : {s t : System} → Reach env s → Step env s t → Reach env t
