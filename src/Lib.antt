-- ===== src/Lib.antt =====
-- The MySQL DBA operator: a Kubernetes operator that keeps the databases and users of MySQL servers in
-- step with `Database` and `DatabaseUser` resources, by way of `AdminConnection` resources that say
-- how to reach a server and which namespaces may use it.
--
-- A reconciler (controllers/) reads its resource, resolves the reference to an `AdminConnection`
-- (`GetAdminConnection`, `AllowedNamespace`), gets a handle through the connection cache that the
-- reconcilers share (`GetDatabaseConnection`), tests ownership against the rows that the operator
-- keeps in its control database (`DatabaseMine`, `UserMine`), sends statements, and saves the status.
--
-- World models what is outside: `Env` has a function for each call of the API server, of MySQL, of
-- the clock and of the random source, whose reply may depend on all calls before. A function of the
-- operator is an `Exec`: it takes the log of calls so far and the cache, and returns a value, or
-- panics, with the log and the cache behind it. Nothing is assumed of `Env` but where a theorem says
-- so, so that the theorems hold whatever the servers reply and whatever others do in between. A
-- reconciliation runs from its beginning to its end; that of `GetDatabaseConnection`, where the three
-- controllers meet in one map, is also modelled step by step, the steps of any goroutines in any order.
--
-- The files, and the code that each models (paths from the repository's root):
--   Api                 the resource types of api/v1alpha1
--   Orm                 orm/model.go, orm/cache.go: rows, catalogue entries, cache entries
--   Escape              `Escape` of api/v1alpha1/common.go; Escape/Literal: how MySQL reads the result
--   Password            `GeneratePassword` of api/v1alpha1/common.go
--   Namespace           `AllowedNamespace` of api/v1alpha1/adminconnection_types.go
--   Ownership           `DatabaseExists`, `UserExists` (orm/model.go), `DatabaseMine`, `UserMine`
--                       (api/v1alpha1/adminconnection_types.go)
--   Connection          `GetSecret`, `GetSecretRefValue`, `GetAdminConnection`, `getDbConfig`,
--                       `GetDatabaseConnection`, `createFreshConnection`, `switchDatabase`;
--                       Connection/Refinement: the cache as a map from UIDs to connections;
--                       Connection/Interleaved: `GetDatabaseConnection` by single calls and accesses of
--                       the map, alone and under every interleaving of goroutines
--   Acquire             the start of both reconcilers, which gets the connection
--   DatabaseController  controllers/database_controller.go, its statements in DatabaseController/Queries;
--                       DatabaseController/Rounds: rounds of it on a server that does what it is told
--   User                controllers/databaseuser_controller.go, a child for each group of functions:
--                       Grants, Details, Lifecycle, Secrets and Controller, which is the reconciler;
--                       Statements and Safety say which statements a reconciler may send and when
--   AdminController     controllers/adminconnection_controller.go
--   Webhook             api/v1alpha1/database_webhook.go; Webhook/Accepted: what it lets through
--   Requests            `findObjectsForAdminConnection`, `findObjectsForDatabase` (controllers/)
--   Watches             `SetupWithManager` of the three controllers: what they ask to be told of;
--                       Watches/Dispatched: which requests a changed object makes
--   Start               `init` and `main` of main.go, groupversion_info.go and the `init` functions of
--                       api/v1alpha1: flags, options, and the requests to the controller runtime
--   DeepCopy            api/v1alpha1/zz_generated.deepcopy.go, a child for each file of types; pointers
--                       and slices carry addresses there
--   Operator            main.go: the shared cache, and runs of the three reconcilers in any order;
--                       Operator/Cache and Operator/Statements: what holds after any such runs
--   Base, World         shared names and lemmas; the environment, the monad and reasoning about traces
--   Steps, Returns      the children of that name: what a part does to the world is calls, and that
--                       it returns; Queries, Sends, Calls: which events it adds to the log
--   Sample, Examples    test data, and the theorems at concrete inputs (also in `Examples` children)
--
-- Loops are structural recursion over the slice or the number of rounds, so no fuel is used.
-- A map that is ranged over is a list in the order of the visit. Strings are lists of bytes. Log
-- lines are left out, but for those that read through a pointer that may be nil.
--
-- What is a parameter, since it is not code of the repository: the API server and MySQL (`Env`), the
-- dispatch of the controller runtime (`Runtime` in Watches/Dispatched), its replies at the start
-- (Start), and the copies of the Kubernetes types (`Foreign` in DeepCopy). `GetDatabaseConnection` has
-- 13 steps at most, so `alone` takes 13 of them; a step of it is one call or one access of the map.
--
-- Not modelled: what Go does when two accesses of the map meet, which no lock prevents; the set-up of
-- the logger; a failing random source; the times of the rows, which gorm sets; and the registration of
-- the webhook, which stores the client and calls the controller runtime
-- (`SetupWebhookWithManager`). Tests and deployment manifests are left aside.
pub mod Base
pub mod Api
pub mod Escape
pub mod Namespace
pub mod Orm
pub mod World
pub mod Ownership
pub mod Connection
pub mod Acquire
pub mod DatabaseController
pub mod Password
pub mod User
pub mod Webhook
pub mod Operator
pub mod Requests
pub mod DeepCopy
pub mod Watches
pub mod Start
pub mod Sample
pub mod Examples
pub mod AdminController
