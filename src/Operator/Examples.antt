-- ===== src/Operator/Examples.antt =====
-- The theorems on the operator at two runs, of which the first makes a connection.
use mysql_dba_operator.Base.{[], ◌∷◌}
use mysql_dba_operator.World.{World}
use mysql_dba_operator.DatabaseController
use mysql_dba_operator.User.Controller
use mysql_dba_operator.Connection.Sound.{Sound}
use mysql_dba_operator.Operator.{started, of_database, of_user, initial, next}
use mysql_dba_operator.Operator.Cache.{Reachable-Sound}
use mysql_dba_operator.Operator.Statements.{
  database_run, user_run, RunLogs, run_of, runs_of, Reachable-RunLogs,
}
use mysql_dba_operator.Sample.{sample, orders_key}

abbrev first : World
first = (DatabaseController.reconcile sample orders_key started).1

Reachable-Sound_example : Sound (Controller.reconcile sample orders_key first).1
Reachable-Sound_example =
    Reachable-Sound (
      next (next initial (of_database sample orders_key started)) (of_user sample orders_key first))

Reachable-RunLogs_example :
    RunLogs
      (database_run sample orders_key ∷ user_run sample orders_key ∷ [])
      (Controller.reconcile sample orders_key first).1.log
unfolding runs_of run_of
Reachable-RunLogs_example =
    Reachable-RunLogs (
      next (next initial (of_database sample orders_key started)) (of_user sample orders_key first))
