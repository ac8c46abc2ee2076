-- ===== src/Acquire/Returns.antt =====
-- The attempt to get a connection returns.
use mysql_dba_operator.Base.{Bytes, Option, none, some}
use mysql_dba_operator.Api.{AdminConnectionRef, AdminConnection}
use mysql_dba_operator.World.{Env, Error, ok, err}
use mysql_dba_operator.World.Total.{Total, Returns-pure, Returns-bind, Total-call}
use mysql_dba_operator.Connection.{get_admin_connection}
use mysql_dba_operator.Connection.Refinement.{get_database_connection-Total}
use mysql_dba_operator.Acquire.{connect, acquire}

module _ (env : Env) where
  get_admin_connection-Total :
      (namespace : Bytes) (ref : AdminConnectionRef)
      → Total (get_admin_connection env namespace ref)
  unfolding get_admin_connection
  get_admin_connection-Total namespace ref =
      Returns-bind _ _ (Total-call _ _) (λ _ _. Returns-pure _ tt)

  connect-Total : (admin : Option AdminConnection) (e : Option Error) → Total (connect env admin e)
  unfolding connect
  connect-Total (some admin) none =
      Returns-bind _ _ (get_database_connection-Total env admin)
        (elim [ ok d ↦ λ _. Returns-pure _ tt | err x ↦ λ _. Returns-pure _ tt ])
  connect-Total _ e = Returns-pure _ tt

  pub acquire-Total :
      (namespace : Bytes) (ref : AdminConnectionRef) → Total (acquire env namespace ref)
  unfolding acquire
  acquire-Total namespace ref =
      Returns-bind _ _ (get_admin_connection-Total namespace ref)
        (λ (admin, e) _. connect-Total admin e)
