-- ===== src/Connection/Interleaved/Schedules.antt =====
-- A schedule of goroutines, run.
use mysql_dba_operator.Base.{ℕ, ◌≡◌, refl, sym, subst, Option, none, some, List, [], ◌∷◌}
use mysql_dba_operator.Api.{AdminConnection}
use mysql_dba_operator.World.{Env, World}
use mysql_dba_operator.World.Exec.{Outcome, done, panic}
use mysql_dba_operator.Connection.Interleaved.{Pc, step}
use mysql_dba_operator.Connection.Interleaved.Threads.{Thread, System, IsFree, Step, Reach}

pub data Action : Type 0 where
  begin : ℕ → AdminConnection → Action
  move : ℕ → Action

module _ (env : Env) where
  abbrev pub Played : Type 0
  Played = (s : System) × Reach env s

  unfoldable pub begin_from : (s : System) → Reach env s → ℕ → AdminConnection → Played
  begin_from s r i admin = go (s.threads i) refl
    where
      free : {t : Option Thread} → s.threads i ≡ t → IsFree t → Played
      free e f = (_, Reach.later r (Step.begins i admin (subst IsFree (sym e) f)))

      after :
          (a : AdminConnection) (pc : Pc)
          → s.threads i ≡ some (record { admin = a; pc = pc })
          → Played
      after a (Pc.returned db) e = free e (IsFree.ended a db)
      after a pc e = (s, r)

      go : (t : Option Thread) → s.threads i ≡ t → Played
      go none e = free e IsFree.fresh
      go (some t) e = after t.admin t.pc e

  unfoldable pub move_from : (s : System) → Reach env s → ℕ → Played
  move_from s r i = go (s.threads i) refl
    where
      stepped :
          (admin : AdminConnection) (pc : Pc)
          → s.threads i ≡ some (record { admin = admin; pc = pc })
          → (o : Outcome Pc) (v : World) → step env admin pc s.world ≡ (o, v)
          → Played
      stepped admin pc e (done next) v h = (_, Reach.later r (Step.moves i admin e h))
      stepped admin pc e panic v h = (s, r)

      go : (t : Option Thread) → s.threads i ≡ t → Played
      go none e = (s, r)
      go (some t) e =
          let now : Outcome Pc × World = step env t.admin t.pc s.world in
          stepped t.admin t.pc e now.0 now.1 refl

  unfoldable pub play : List Action → Played → Played
  unfolding begin_from move_from
  play [] p = p
  play (Action.begin i admin ∷ rest) (s, r) = play rest (begin_from s r i admin)
  play (Action.move i ∷ rest) (s, r) = play rest (move_from s r i)
