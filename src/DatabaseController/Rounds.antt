-- ===== src/DatabaseController/Rounds.antt =====
-- Rounds of reconciliation of one `Database`, whose status alone changes from one to the next.
mod Examples
use mysql_dba_operator.Base.{
  true, ◌≡◌, ◌⊎◌, refl, sym, ap, Option, none, some, List, [], ◌∷◌, append-nil,
}
use mysql_dba_operator.Api.{DatabaseStatus, Database}
use mysql_dba_operator.Orm.{Handle, DatabaseSchema}
use mysql_dba_operator.World.{Env, World, Log}
use mysql_dba_operator.Ownership.{named_schema, no_database, found_or}
use mysql_dba_operator.Ownership.Evidence.{Records}
use mysql_dba_operator.Acquire.{Connected}
use mysql_dba_operator.DatabaseController.{create_query, managed_of, provision}
use mysql_dba_operator.DatabaseController.Settles.{Serves, Mine, Unclaimed, Settled}

module _ (env : Env) (c : Connected) (database : Database) where
  -- The instance as it is read in a round.
  abbrev pub with_status : DatabaseStatus → Database
  with_status status = record database { status = status }

  -- Rounds with these statuses, one after the other.
  pub rounds : List DatabaseStatus → World → World
  rounds [] w = w
  rounds (status ∷ rest) w = rounds rest (provision env c (with_status status) w).1

module _ (env : Env) (c : Connected) (database : Database) (serves : Serves env c.db database) where
  serves_status : (status : DatabaseStatus) → Serves env c.db (with_status env c database status)
  unfolding create_query managed_of
  serves_status status = record {
    schema = serves.schema;
    row = serves.row;
    finds_schema = serves.finds_schema;
    finds_row = serves.finds_row;
    keeps_schema = serves.keeps_schema;
    keeps_row = serves.keeps_row;
    creates = serves.creates;
    records = serves.records;
    refuses = serves.refuses;
    alters = serves.alters;
  }

  abbrev pub IsSettled : Log → Type 0
  IsSettled = Settled env c database serves

  -- There is no database of the name and no row that is not the resource's, or there is one and the
  -- row says that it is the resource's.
  abbrev pub Free : Log → Type 0
  Free log =
      (serves.schema log ≡ none) × Unclaimed env c database serves log
      ⊎ ((s : DatabaseSchema) × ((serves.schema log ≡ some s)
            × Records (found_or no_database (serves.row log)) database.spec.name database.meta))
