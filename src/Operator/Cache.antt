-- ===== src/Operator/Cache.antt =====
-- The invariant of the connection cache that the controllers share.
use mysql_dba_operator.Base.{none, some, ◌≢◌}
use mysql_dba_operator.Orm.{ConnectionDefinition}
use mysql_dba_operator.World.{World}
use mysql_dba_operator.Connection.Sound.{
  Sound, KeepsSound, KeepsSound-AdmitsCalls, get_database_connection-KeepsSound,
}
use mysql_dba_operator.World.Steps.{AdmitsCalls-quiet}
use mysql_dba_operator.Acquire.Steps.{AdmitsRuns}
use mysql_dba_operator.DatabaseController
use mysql_dba_operator.User.Controller
use mysql_dba_operator.AdminController
use mysql_dba_operator.Operator.{
  started, Runs, of_database, of_user, of_admin, Reachable, initial, next,
}

KeepsSound-AdmitsRuns : AdmitsRuns KeepsSound
KeepsSound-AdmitsRuns = record {
  calls = KeepsSound-AdmitsCalls;
  connects = get_database_connection-KeepsSound;
}

started-Sound : Sound started
started-Sound uid conn e = absurd (none-ne_some e)
  where
    none-ne_some : {c : ConnectionDefinition} → none ≢ some c
    none-ne_some h = cc

Runs-KeepsSound : {w v : World} → Runs w v → KeepsSound w v
Runs-KeepsSound (of_database env request w) =
    (DatabaseController.Steps.reconcile-Steps KeepsSound-AdmitsRuns env request).at w
Runs-KeepsSound (of_user env request w) =
    (Controller.Steps.reconcile-Steps KeepsSound-AdmitsRuns env request).at w
Runs-KeepsSound (of_admin env order request w) =
    (AdminController.Steps.reconcile-Steps (AdmitsCalls-quiet KeepsSound-AdmitsCalls) env
        (get_database_connection-KeepsSound env) order request).at
      w

-- Whatever runs there were, in whatever order, and whether they returned or panicked: a handle that the
-- cache holds was opened with the configuration that it is kept under. The log has the calls, one
-- after the other: the pool was opened with that configuration and answered a ping, the handle was opened
-- on it, and the control database was made and migrated through it.
pub Reachable-Sound : {w : World} → Reachable w → Sound w
Reachable-Sound initial = started-Sound
Reachable-Sound (next before run) = Runs-KeepsSound run (Reachable-Sound before)
