-- ===== src/Operator.antt =====
-- The operator as a whole (main.go): three controllers that share one connection cache, which is empty
-- at the start. The controller runtime decides which resource is reconciled next; a run is one call of
-- a `Reconcile`.
pub mod Cache
pub mod Statements
pub mod Examples
use mysql_dba_operator.Base.{none, []}
use mysql_dba_operator.Api.{NamespacedName}
use mysql_dba_operator.World.{Env, World}
use mysql_dba_operator.DatabaseController
use mysql_dba_operator.User.Controller
use mysql_dba_operator.AdminController
use mysql_dba_operator.AdminController.{Groups}

-- `connectionCache` as it is made.
abbrev pub started : World
started = record { log = []; cache = λ uid. none }

-- One run of a controller, whether it returns or panics, and whatever the environment is.
pub data Runs : World → World → Type 0 where
  of_database :
      (env : Env) (request : NamespacedName) (w : World)
      → Runs w (DatabaseController.reconcile env request w).1
  of_user :
      (env : Env) (request : NamespacedName) (w : World)
      → Runs w (Controller.reconcile env request w).1
  of_admin :
      (env : Env) (order : Groups → Groups) (request : NamespacedName) (w : World)
      → Runs w (AdminController.reconcile env order request w).1

-- What any number of runs, of any controllers and in any order, lead to.
pub data Reachable : World → Type 0 where
  initial : Reachable started
  next : {w v : World} → Reachable w → Runs w v → Reachable v
