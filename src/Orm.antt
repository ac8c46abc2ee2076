-- ===== src/Orm.antt =====
-- orm/model.go and orm/cache.go: the rows that the operator keeps in its control database, those that
-- it reads of the server's catalogue, and the entries of the connection cache. A database handle
-- (`*gorm.DB`) and a pool (`*sql.DB`) are numbers. The row's two times, which gorm sets, are left out.
use mysql_dba_operator.Base.{ℕ, Bytes, Bool, codes, ◌++◌}

abbrev pub database_name : Bytes
database_name = codes "zz_dba_operator"

abbrev pub Handle : Type 0
Handle = ℕ

abbrev pub Pool : Type 0
Pool = ℕ

pub record ManagedDatabase : Type 0 where
  pub uuid : Bytes
  pub namespace : Bytes
  pub name : Bytes
  pub database_name : Bytes

pub record ManagedUser : Type 0 where
  pub uuid : Bytes
  pub namespace : Bytes
  pub name : Bytes
  pub username : Bytes

pub record DatabaseSchema : Type 0 where
  pub schema_name : Bytes
  pub default_character_set : Bytes
  pub default_collation : Bytes

pub record MySqlUser : Type 0 where
  pub host : Bytes
  pub user : Bytes
  pub plugin : Bytes

-- A row of the server's privileges on databases; the operator reads none.
record MySqlDb : Type 0 where
  pub host : Bytes
  pub user : Bytes
  pub db : Bytes

-- `TableName` of each.
abbrev pub managed_databases_table : Bytes
managed_databases_table = database_name ++ codes ".managed_databases"

abbrev pub managed_users_table : Bytes
managed_users_table = database_name ++ codes ".managed_users"

abbrev pub schemas_table : Bytes
schemas_table = codes "INFORMATION_SCHEMA.SCHEMATA"

abbrev pub users_table : Bytes
users_table = codes "mysql.user"

abbrev pub grants_table : Bytes
grants_table = codes "mysql.db"

-- The fields of `mysql.Config` that the operator sets.
pub record DbConfig : Type 0 where
  pub net : Bytes
  pub db_name : Bytes
  pub parse_time : Bool
  pub allow_native_passwords : Bool
  pub tls_config : Bytes
  pub addr : Bytes
  pub user : Bytes
  pub passwd : Bytes

pub record ConnectionDefinition : Type 0 where
  pub config : DbConfig
  pub db : Handle
