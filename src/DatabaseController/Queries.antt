-- ===== src/DatabaseController/Queries.antt =====
-- The statements on a database (controllers/database_controller.go), and the writes to its status.
use mysql_dba_operator.Base.{
  Bytes, Bool, true, false, not, ◌&&◌, ◌||◌, Option, none, some, [], ◌++◌, codes, ◌==◌,
  if◌then◌else◌,
}
use mysql_dba_operator.Api.{Database}
use mysql_dba_operator.World.{Error}

unfoldable pub quoted : Bytes → Bytes
quoted name = codes "`" ++ (name ++ codes "`")

-- The two clauses that follow the name, each if it is wanted.
unfoldable pub clause : Bool → Bytes → Bytes → Bytes
clause wanted word value = if wanted then word ++ value else []

unfoldable pub create_query : Database → Bytes
unfolding quoted clause
create_query database =
    codes "CREATE DATABASE "
    ++ (quoted database.spec.name
        ++ (clause (not (database.spec.character_set == [])) (codes " CHARACTER SET ")
              database.spec.character_set
            ++ clause (not (database.spec.collate == [])) (codes " COLLATE ")
                database.spec.collate))

-- The tests of `databaseUpdate`.
unfoldable pub alters_character_set : Database → Bool
alters_character_set database =
    not (database.spec.character_set == [])
    && not (database.spec.character_set == database.status.character_set)

unfoldable pub alters_collate : Database → Bool
alters_collate database =
    not (database.spec.collate == []) && not (database.spec.collate == database.status.collate)

unfoldable pub alter_query : Database → Bytes
unfolding quoted clause
alter_query database =
    codes "ALTER DATABASE "
    ++ (quoted database.spec.name
        ++ (clause (alters_character_set database) (codes " CHARACTER SET ")
              database.spec.character_set
            ++ clause (alters_collate database) (codes " COLLATE ") database.spec.collate))

unfoldable pub drop_query : Database → Bytes
unfolding quoted
drop_query database = codes "DROP DATABASE IF EXISTS " ++ quoted database.spec.name

-- The writes to the status of `databaseCreate` and `databaseUpdate`.
unfoldable pub with_character_set : Bool → Database → Database
with_character_set wanted database =
    if wanted
    then record database {
      status = record (database.status) { character_set = database.spec.character_set };
    }
    else database

unfoldable pub with_collate : Bool → Database → Database
with_collate wanted database =
    if wanted
    then record database { status = record (database.status) { collate = database.spec.collate } }
    else database

unfoldable pub with_message : Bytes → Database → Database
with_message message database = record database {
  status = record (database.status) { message = message };
}

-- `databaseExists`: the status follows the schema that was found.
unfoldable pub seen : Database → Bytes → Bytes → Database
seen database character_set collation =
    let status = database.status in
    record database {
      status = record status {
        collate =
            if status.collate == [] || not (status.collate == collation)
            then collation
            else status.collate;
        character_set =
            if status.character_set == [] || not (status.character_set == character_set)
            then character_set
            else status.character_set;
      };
    }

-- The instance behind `databaseUpdate`.
unfoldable pub after_update : Bool × Option Error × Database → Database
after_update (true, none, database) = with_message (codes "Altered database") database
after_update (false, none, database) = with_message (codes "Database in sync") database
after_update (_, some e, database) = with_message (codes "Failed to update database") database
