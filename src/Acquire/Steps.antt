-- ===== src/Acquire/Steps.antt =====
-- What the reconcilers do besides `GetDatabaseConnection` is nothing but calls: they keep a relation
-- that calls and `GetDatabaseConnection` keep.
use mysql_dba_operator.Base.{Bytes, Option, none, some}
use mysql_dba_operator.Api.{AdminConnectionRef, AdminConnection}
use mysql_dba_operator.World.{Env, World, Error, ok, err}
use mysql_dba_operator.World.Traces.{Moves}
use mysql_dba_operator.World.Steps.{AdmitsCalls, Steps-bind, steps}
use mysql_dba_operator.Connection.{get_database_connection}
use mysql_dba_operator.Connection.Steps.{get_admin_connection-Steps}
use mysql_dba_operator.Acquire.{connect, acquire}

pub record AdmitsRuns (R : World → World → Type 0) : Type 0 where
  pub calls : AdmitsCalls R
  pub connects : (env : Env) (admin : AdminConnection) → Moves R (get_database_connection env admin)

module _ {R : World → World → Type 0} (r : AdmitsRuns R) (env : Env) where
  connect-Steps :
      (admin : Option AdminConnection) (e : Option Error) → Moves R (connect env admin e)
  unfolding connect
  connect-Steps (some admin) none =
      Steps-bind r.calls _ _ (r.connects env admin)
        (elim [ ok d ↦ search (steps, r.calls) | err e ↦ search (steps, r.calls) ])
  connect-Steps (some admin) (some e) = search (steps, r.calls)
  connect-Steps none e = search (steps, r.calls)

  pub acquire-Steps :
      (namespace : Bytes) (ref : AdminConnectionRef) → Moves R (acquire env namespace ref)
  unfolding acquire
  acquire-Steps namespace ref =
      Steps-bind r.calls _ _ (get_admin_connection-Steps r.calls env namespace ref)
        (λ (admin, e). connect-Steps admin e)
