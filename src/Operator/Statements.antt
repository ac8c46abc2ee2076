-- ===== src/Operator/Statements.antt =====
-- Which statements the operator sends to the servers.
use mysql_dba_operator.Base.{◌≡◌, ◌⊎◌, inl, inr, refl, sym, subst, List, [], ◌∷◌, ◌++◌}
use mysql_dba_operator.Api.{NamespacedName, Database, DatabaseUser}
use mysql_dba_operator.World.{Env, World, Log, get_database, get_user, Error, Result, ok, err}
use mysql_dba_operator.World.Traces.{Quiet, Quiet-AdmitsQuiet, Extends, Extends-IsPreorder}
use mysql_dba_operator.World.Steps.{AdmitsQuietCalls}
use mysql_dba_operator.Connection.Statements.{get_database_connection-Emits}
use mysql_dba_operator.DatabaseController.Safety.{Safe}
use mysql_dba_operator.DatabaseController.Safety.Whole
use mysql_dba_operator.User.Statements.{Setup}
use mysql_dba_operator.User.Safety.{UserSafe, Setup-AdmitsSetup, Setup-AdmitsQuiet}
use mysql_dba_operator.AdminController
use mysql_dba_operator.AdminController.{Groups}
use mysql_dba_operator.Operator.{Runs, of_database, of_user, of_admin, Reachable, initial, next}

-- One call of a `Reconcile`: which one, in which environment, and for which request.
pub data Run : Type 0 where
  database_run : (env : Env) (request : NamespacedName) → Run
  user_run : (env : Env) (request : NamespacedName) → Run
  admin_run : (env : Env) (order : Groups → Groups) (request : NamespacedName) → Run

unfoldable pub run_of : {w v : World} → Runs w v → Run
run_of (of_database env request w) = database_run env request
run_of (of_user env request w) = user_run env request
run_of (of_admin env order request w) = admin_run env order request

-- The runs that led to a world, the first one first.
unfoldable pub runs_of : {w : World} → Reachable w → List Run
runs_of initial = []
runs_of (next before run) = runs_of before ++ run_of run ∷ []

-- What a run adds to the log. A run for a `Database`: the read of the one that was requested and behind
-- it nothing that is not safe for it, or no statement at all. A run for a `DatabaseUser` likewise. A run
-- for an `AdminConnection`: no statement but those that set up the control database.
pub data RunLog : Run → Log → Type 0 where
  for_database :
      (env : Env) (request : NamespacedName) (d : Database) {events : Log}
      → Safe d.spec.name d.meta events
      → RunLog (database_run env request) (get_database request (ok d) ∷ events)
  no_database_read :
      (env : Env) (request : NamespacedName) {events : Log}
      → Quiet events
      → RunLog (database_run env request) events
  for_user :
      (env : Env) (request : NamespacedName) (u : DatabaseUser) {events : Log}
      → UserSafe env u events
      → RunLog (user_run env request) (get_user request (ok u) ∷ events)
  no_user_read :
      (env : Env) (request : NamespacedName) {events : Log}
      → Quiet events
      → RunLog (user_run env request) events
  for_admin :
      (env : Env) (order : Groups → Groups) (request : NamespacedName) {events : Log}
      → Setup events
      → RunLog (admin_run env order request) events

-- One part of the log for each of the runs, in their order.
pub data RunLogs : List Run → Log → Type 0 where
  no_runs : RunLogs [] []
  one_more :
      {runs : List Run} {run : Run} {log events : Log}
      → RunLogs runs log
      → RunLog run events
      → RunLogs (runs ++ run ∷ []) (log ++ events)

run_log :
    {run : Run} {T : Log → Type 0} {w v : World}
    → ((events : Log) → T events → RunLog run events)
    → Extends T w v
    → Extends (RunLog run) w v
run_log f x = record { events = x.events; split = x.split; good = f x.events x.good }

read-cases : {A : Type 0} (r : Result A) → ((a : A) × (r ≡ ok a)) ⊎ ((e : Error) × (r ≡ err e))
read-cases (ok a) = inl (a, refl)
read-cases (err e) = inr (e, refl)

Setup-AdmitsQuietCalls : AdmitsQuietCalls (Extends Setup)
Setup-AdmitsQuietCalls = record {
  order = Extends-IsPreorder Setup-AdmitsQuiet.trace;
  quiet = λ event h w. record { events = _; split = refl; good = Setup-AdmitsQuiet.quiet event h };
}

Runs-RunLog : {w v : World} (run : Runs w v) → Extends (RunLog (run_of run)) w v
unfolding run_of
Runs-RunLog (of_database env request w) = elim (read-cases (env.get_database w.log request)) [
  | inl (d, h) ↦
      run_log
        (λ events (rest, e, safe).
          subst (RunLog (database_run env request)) (sym e) (for_database env request d safe))
        (Whole.reconcile_read-Safe env request d w h)
  | inr (e, h) ↦
      run_log (λ _. no_database_read env request)
        (Whole.reconcile_unread-Extends Quiet-AdmitsQuiet env request e w h)
]
Runs-RunLog (of_user env request w) = elim (read-cases (env.get_user w.log request)) [
  | inl (u, h) ↦
      run_log
        (λ events (rest, e, safe).
          subst (RunLog (user_run env request)) (sym e) (for_user env request u safe))
        (mysql_dba_operator.User.Controller.Safety.Whole.reconcile_read-UserSafe env request u w h)
  | inr (e, h) ↦
      run_log (λ _. no_user_read env request)
        (mysql_dba_operator.User.Controller.Safety.Whole.reconcile_unread-Extends Quiet-AdmitsQuiet
          env request e w h)
]
Runs-RunLog (of_admin env order request w) =
    run_log (λ _. for_admin env order request)
      ((AdminController.Steps.reconcile-Steps Setup-AdmitsQuietCalls env
          (get_database_connection-Emits Setup-AdmitsSetup env) order request).at
        w)

-- Whatever runs there were, in whatever order and environments, and whether they returned or panicked:
-- the log is made of one part for each run, in the order of the runs. The part of a run for a `Database`
-- is the read of the one that was requested and behind it no statement but those that are safe for it
-- (`Safe`), or has no statement. The part of a run for a `DatabaseUser` is the read of the one that was
-- requested and behind it none but those that are safe for it (`UserSafe`), or has no statement. The
-- part of a run for an `AdminConnection` has none but those that set up the control database.
pub Reachable-RunLogs : {w : World} (reached : Reachable w) → RunLogs (runs_of reached) w.log
unfolding runs_of
Reachable-RunLogs initial = no_runs
Reachable-RunLogs (next before run) =
    let x = Runs-RunLog run in
    subst (RunLogs (runs_of before ++ run_of run ∷ [])) (sym x.split)
      (one_more (Reachable-RunLogs before) x.good)
