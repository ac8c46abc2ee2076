-- ===== src/Connection/Examples.antt =====
-- The theorems on `GetAdminConnection` and `GetDatabaseConnection` at concrete inputs.
use mysql_dba_operator.Base.{true, ◌≡◌, refl, Option, none, codes, ◌==◌}
use mysql_dba_operator.Orm.{DbConfig}
use mysql_dba_operator.World.{Error, Result, ok}
use mysql_dba_operator.World.Exec.{done, call}
use mysql_dba_operator.Namespace.{allowed_namespace}
use mysql_dba_operator.Connection.{
  checked, get_admin_connection, get_db_config, get_database_connection,
}
use mysql_dba_operator.Connection.Access.{
  key_of, get_admin_connection-allowed, get_admin_connection_missing,
}
use mysql_dba_operator.Connection.Refinement.{Obtained, get_database_connection-Obtained}
use mysql_dba_operator.Sample.{main_admin, main_ref, sample, adrift, start}

get_admin_connection-allowed_example :
    (sample.get_admin start.log (key_of (codes "ops") main_ref) ≡ ok main_admin)
    × (allowed_namespace main_admin (codes "ops") ≡ true)
    × (◌≡◌ {A = Option Error} none none)
unfolding codes ◌==◌ get_admin_connection checked call allowed_namespace
get_admin_connection-allowed_example =
    get_admin_connection-allowed sample (codes "ops") main_ref start {admin = main_admin} {e = none}
      refl

get_admin_connection_missing_example :
    (get_admin_connection adrift (codes "ops") main_ref start).0 ≡ done (none, none)
get_admin_connection_missing_example =
    get_admin_connection_missing adrift (codes "ops") main_ref start refl

get_database_connection-Obtained_example :
    (config : Result DbConfig) × ((get_db_config sample main_admin start).0 ≡ done config)
    × Obtained (codes "main") config start.cache (get_database_connection sample main_admin start)
get_database_connection-Obtained_example = get_database_connection-Obtained sample main_admin start
