-- ===== src/Connection/Interleaved/Traced.antt =====
-- Under every interleaving of calls of `GetDatabaseConnection`: what stands in the cache, and what a
-- call returns, was opened with the configuration that it is kept or returned for. Other calls may
-- stand between those that opened it.
pub mod Order
pub mod Places
mod Steps
use mysql_dba_operator.Base.{
  ℕ, ◌≡◌, ◌≢◌, ◌⊎◌, refl, sym, subst, Option, none, some, [], ◌∷◌, ◌++◌, Bool-cases, ◌=?◌, inl, inr,
}
use mysql_dba_operator.Api.{AdminConnection}
use mysql_dba_operator.Orm.{Handle, DbConfig, ConnectionDefinition}
use mysql_dba_operator.World.{Env, World, Log, Event, ok}
use mysql_dba_operator.World.Exec.{done}
use mysql_dba_operator.Connection.Interleaved.{Pc, step}
use mysql_dba_operator.Connection.Interleaved.Threads.{Thread, System, Threads, assign, Step, Reach}
use Places.{Opens, Opens-later, Filled, IsFor, Known, Known-later}
use Steps.{Kept, step-Kept}

module _ (env : Env) where
  -- What is known holds of every goroutine.
  record Inv (s : System) : Type 0 where
    filled : Filled s.world
    known :
        (i : ℕ) (admin : AdminConnection) (pc : Pc)
        → s.threads i ≡ some (record { admin = admin; pc = pc })
        → Known env admin s.world.log pc

  Thread-eq :
      {s t : Thread} (P : AdminConnection → Pc → Type 0)
      → some s ≡ some t
      → P s.admin s.pc
      → P t.admin t.pc
  Thread-eq {s} P e p = subst P' (inj e) p
    where
      P' : Thread → Type 0
      P' t = P t.admin t.pc

      inj : {a b : Thread} → some a ≡ some b → a ≡ b
      inj h = cc

  -- The other goroutines know what they knew, for the log has only grown.
  grown-Known :
      (admin : AdminConnection) (pc : Pc) {log log' : Log}
      → (log' ≡ log) ⊎ ((event : Event) × (log' ≡ log ++ event ∷ []))
      → Known env admin log pc
      → Known env admin log' pc
  grown-Known admin pc (inl same) k = subst (λ l. Known env admin l pc) (sym same) k
  grown-Known admin pc {log} (inr (event, e)) k =
      subst (λ l. Known env admin l pc) (sym e) (Known-later env admin pc log event k)

  moved-Inv :
      (s : System) (i : ℕ) (admin : AdminConnection) (next : Pc) (v : World)
      → Inv s
      → (v.log ≡ s.world.log) ⊎ ((event : Event) × (v.log ≡ s.world.log ++ event ∷ []))
      → Filled v
      → Known env admin v.log next
      → Inv
          (record { world = v; threads = assign s.threads i (record { admin = admin; pc = next }) })
  unfolding assign
  moved-Inv s i admin next v inv grown filled k = record {
    filled = filled;
    known = λ j admin' pc e. elim (Bool-cases (i =? j)) [
      | inl here ↦ Thread-eq (λ a p. Known env a v.log p) (rw (here) at e) k
      | inr there ↦ grown-Known admin' pc grown (inv.known j admin' pc (rw (there) at e))
    ];
  }

  Step-Inv : {s t : System} → Step env s t → Inv s → Inv t
  unfolding Known
  Step-Inv {s} (Step.begins i admin free) inv =
      moved-Inv s i admin Pc.reading_user s.world inv (inl refl) inv.filled tt
  Step-Inv {s} (Step.moves i admin {pc} {next} {v} e h) inv =
      let kept = step-Kept env admin pc h inv.filled (inv.known i admin pc e) in
      moved-Inv s i admin next v inv kept.grown kept.filled kept.known
  Step-Inv {s} (Step.calls event) inv = record {
    filled = λ uid conn e. Opens-later event (inv.filled uid conn e);
    known = λ i admin pc e. Known-later env admin pc s.world.log event (inv.known i admin pc e);
  }

  Reach-Inv : {s : System} → Reach env s → Inv s
  Reach-Inv Reach.start = record {
    filled = λ uid conn e. absurd (none-ne_some e);
    known = λ i admin pc e. absurd (none-ne_some e);
  }
    where
      none-ne_some : {A : Type 0} {x : A} → none ≢ some x
      none-ne_some h = cc
  Reach-Inv (Reach.later before st) = Step-Inv st (Reach-Inv before)

  -- In any number of calls of `GetDatabaseConnection` on one cache that is empty at the start, with
  -- their steps and other calls in any order: for every entry of the cache the log has, in their order
  -- but perhaps with others between them, the calls that open its handle with its configuration; and
  -- for every handle that a call returned, those that open it with some configuration for the host and
  -- the port of the resource that the call was made for.
  pub Reach-Opens :
      {s : System}
      → Reach env s
      → Filled s.world
        × ((i : ℕ) (admin : AdminConnection) (db : Handle)
            → s.threads i ≡ some (record { admin = admin; pc = Pc.returned (ok db) })
            → (config : DbConfig) × (IsFor env admin config × Opens config db s.world.log))
  unfolding Known
  Reach-Opens r =
      let inv = Reach-Inv r in
      (inv.filled, λ i admin db e. inv.known i admin (Pc.returned (ok db)) e)
