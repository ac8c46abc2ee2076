-- ===== src/Connection/Returns.antt =====
-- The reads of secrets and the statements return.
use mysql_dba_operator.Base.{Bytes}
use mysql_dba_operator.Api.{SecretKeySelector}
use mysql_dba_operator.Orm.{Handle}
use mysql_dba_operator.World.{Env}
use mysql_dba_operator.World.Total.{Total, returns}
use mysql_dba_operator.Connection.{get_secret_at, get_secret_ref_value, run}

module _ (env : Env) where
  pub get_secret_at-Total :
      (namespace : Bytes) (selector : SecretKeySelector)
      → Total (get_secret_at env namespace selector)
  unfolding get_secret_at
  get_secret_at-Total namespace selector = search returns

  pub get_secret_ref_value-Total :
      (namespace : Bytes) (selector : SecretKeySelector)
      → Total (get_secret_ref_value env namespace selector)
  unfolding get_secret_ref_value
  get_secret_ref_value-Total namespace selector = search (returns, get_secret_at-Total)

  pub run-Total : (db : Handle) (query : Bytes) → Total (run env db query)
  unfolding run
  run-Total db query = search returns
