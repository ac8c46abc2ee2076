-- ===== src/User/Controller/Calls.antt =====
-- The parts of the reconciliation of a `DatabaseUser` that send no statement.
use mysql_dba_operator.Base.{Bool, true, false, Option}
use mysql_dba_operator.Api.{DatabaseUser}
use mysql_dba_operator.World.{Env, Log, Error}
use mysql_dba_operator.World.Traces.{
  AdmitsQuiet, Emits, Emits-quiet, Emits-pure, Emits-look, Emits-bind,
}
use mysql_dba_operator.User.Controller.{save_user, save_status, unavailable, stamped}

module _ {T : Log → Type 0} (s : AdmitsQuiet T) (env : Env) where
  -- The parts that send no statement.
  pub save_user-Emits : (user : DatabaseUser) → Emits T (save_user env user)
  unfolding save_user
  save_user-Emits user = Emits-quiet s _ _ (λ _. tt)

  pub save_status-Emits : (user : DatabaseUser) → Emits T (save_status env user)
  unfolding save_status
  save_status-Emits user = Emits-quiet s _ _ (λ _. tt)

  pub unavailable-Emits :
      (e : Option Error) (user : DatabaseUser) → Emits T (unavailable env e user)
  unfolding unavailable
  unavailable-Emits e user = Emits-bind s _ _ (save_status-Emits _) (λ _. Emits-pure s _)

  pub stamped-Emits : (outcome : Bool × Option Error × DatabaseUser) → Emits T (stamped env outcome)
  unfolding stamped
  stamped-Emits (false, e, user) = Emits-pure s _
  stamped-Emits (true, e, user) = Emits-bind s _ _ (Emits-look s _) (λ _. Emits-pure s _)
