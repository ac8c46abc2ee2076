-- ===== src/Acquire.antt =====
-- What both reconcilers start with (controllers/database_controller.go and
-- controllers/databaseuser_controller.go): the `AdminConnection` of the instance and a connection to
-- its server.
pub mod Steps
pub mod Returns
use mysql_dba_operator.Base.{Bytes, Option, none, some}
use mysql_dba_operator.Api.{AdminConnectionRef, AdminConnection}
use mysql_dba_operator.Orm.{Handle}
use mysql_dba_operator.World.{Env, Log, Error, ok, err}
use mysql_dba_operator.World.Exec.{Exec, pure, ◌>>=◌}
use mysql_dba_operator.World.Traces.{Emits, Emits-pure, Emits-bind}
use mysql_dba_operator.Connection.{get_admin_connection, get_database_connection}
use mysql_dba_operator.Connection.Statements.{
  AdmitsSetup, get_admin_connection-Emits, get_database_connection-Emits,
}

-- `loop.adminConnection` and `loop.db`, which are set together.
pub record Connected : Type 0 where
  pub admin : AdminConnection
  pub db : Handle

-- `return err` where a second error is returned if the first is nil.
unfoldable pub first_error : Option Error → Option Error → Option Error
first_error none otherwise = otherwise
first_error (some e) otherwise = some e

module _ (env : Env) where
  -- The connection, or the error of the attempt.
  unfoldable pub connect :
      Option AdminConnection → Option Error → Exec (Option Connected × Option Error)
  connect (some admin) none = do
    db ← get_database_connection env admin
    elim db [
      | ok d ↦ pure (some (record { admin = admin; db = d }), none)
      | err e ↦ pure (none, some e)
    ]
  connect _ failed = pure (none, failed)

  unfoldable pub acquire : Bytes → AdminConnectionRef → Exec (Option Connected × Option Error)
  acquire namespace ref = do
    (admin, failed) ← get_admin_connection env namespace ref
    connect admin failed

module _ {T : Log → Type 0} (t : AdmitsSetup T) (env : Env) where
  connect-Emits :
      (admin : Option AdminConnection) (e : Option Error) → Emits T (connect env admin e)
  unfolding connect
  connect-Emits (some admin) none =
      Emits-bind t.others _ _ (get_database_connection-Emits t env admin)
        (elim [ ok d ↦ Emits-pure t.others _ | err x ↦ Emits-pure t.others _ ])
  connect-Emits _ e = Emits-pure t.others _

  pub acquire-Emits :
      (namespace : Bytes) (ref : AdminConnectionRef) → Emits T (acquire env namespace ref)
  unfolding acquire
  acquire-Emits namespace ref =
      Emits-bind t.others _ _ (get_admin_connection-Emits t env namespace ref)
        (λ (admin, e). connect-Emits admin e)
