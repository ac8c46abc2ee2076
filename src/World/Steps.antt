-- ===== src/World/Steps.antt =====
-- Functions that do nothing to the world but calls: they keep every relation that holds across a call.
use mysql_dba_operator.Base.{Bool, Option, none, some, if◌then◌else◌}
use mysql_dba_operator.World.{Event, Log, World}
use mysql_dba_operator.World.Exec.{Exec, pure, crash, ◌>>=◌, call, look, note}
use mysql_dba_operator.World.Traces.{
  IsPreorder, Moves, Moves-pure, Moves-crash, Moves-look, Moves-bind, Moves-if, IsQuiet, logged,
}

pub record AdmitsCalls (R : World → World → Type 0) : Type 0 where
  pub order : IsPreorder R
  pub logs : (event : Event) (w : World) → R w (logged event w)

module _ {R : World → World → Type 0} (c : AdmitsCalls R) where
  pub Steps-pure : {A : Type 0} (a : A) → Moves R (pure a)
  Steps-pure = Moves-pure c.order

  pub Steps-crash : {A : Type 0} → Moves R (crash {A = A})
  Steps-crash = Moves-crash c.order

  pub Steps-look : {A : Type 0} (reply : Log → A) → Moves R (look reply)
  Steps-look = Moves-look c.order

  pub Steps-call : {A : Type 0} (reply : Log → A) (event : A → Event) → Moves R (call reply event)
  unfolding call
  Steps-call reply event = record { at = λ w. c.logs (event (reply w.log)) w }

  pub Steps-note : (event : Event) → Moves R (note event)
  unfolding note
  Steps-note event = record { at = c.logs event }

  pub Steps-bind :
      {A B : Type 0} (m : Exec A) (f : A → Exec B)
      → Moves R m
      → ((a : A) → Moves R (f a))
      → Moves R (m >>= f)
  Steps-bind = Moves-bind c.order

  pub Steps-if :
      {A : Type 0} (b : Bool) (m n : Exec A) → Moves R m → Moves R n → Moves R (if b then m else n)
  Steps-if = Moves-if c.order

  -- An error, or the rest.
  pub Steps-option :
      {A B : Type 0} (o : Option A) (m : Exec B) (f : A → Exec B)
      → Moves R m
      → ((a : A) → Moves R (f a))
      → Moves R (elim o [ none ↦ m | some a ↦ f a ])
  Steps-option none m f hm hf = hm
  Steps-option (some a) m f hm hf = hf a

pub ruleset steps =
    (Steps-pure, Steps-crash, Steps-look, Steps-call, Steps-note, Steps-bind, Steps-if)

-- The same for calls that are no statements.
pub record AdmitsQuietCalls (R : World → World → Type 0) : Type 0 where
  pub order : IsPreorder R
  pub quiet : (event : Event) → IsQuiet event → (w : World) → R w (logged event w)

pub AdmitsCalls-quiet : {R : World → World → Type 0} → AdmitsCalls R → AdmitsQuietCalls R
AdmitsCalls-quiet c = record { order = c.order; quiet = λ event _. c.logs event }

module _ {R : World → World → Type 0} (q : AdmitsQuietCalls R) where
  pub Quiet-call :
      {A : Type 0} (reply : Log → A) (event : A → Event)
      → ((a : A) → IsQuiet (event a))
      → Moves R (call reply event)
  unfolding call
  Quiet-call reply event h = record { at = λ w. q.quiet (event (reply w.log)) (h _) w }

  pub Quiet-note : (event : Event) → IsQuiet event → Moves R (note event)
  unfolding note
  Quiet-note event h = record { at = q.quiet event h }
