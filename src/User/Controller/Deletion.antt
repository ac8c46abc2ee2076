-- ===== src/User/Controller/Deletion.antt =====
-- The branch of `Reconcile` for a `DatabaseUser` that is marked to be deleted.
use mysql_dba_operator.World.{World}
