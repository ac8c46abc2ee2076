-- ===== src/DatabaseController/Rounds/Examples.antt =====
-- A MySQL server that takes every statement and row for the database of the test data.
use mysql_dba_operator.Base.{
  ◌||◌, ◌≡◌, refl, inl, inr, Option, none, some, [], ◌∷◌, ◌++◌, codes, ◌==◌, any, Bool,
  if◌then◌else◌, arith,
}
use mysql_dba_operator.Orm.{DatabaseSchema, ManagedDatabase}
use mysql_dba_operator.World.{Env, Log, Event, failure, exec, create_managed_database}
use mysql_dba_operator.Ownership.{named_schema}
use mysql_dba_operator.DatabaseController.{create_query, alter_query, managed_of}
use mysql_dba_operator.DatabaseController.Converged.{IsInSync}
use mysql_dba_operator.DatabaseController.Settles.{touches_schema, touches_row, Serves}
use mysql_dba_operator.Sample.{sample, orders, orders_schema, orders_row, line}

abbrev schema_in : Log → Option DatabaseSchema
schema_in log = if any touches_schema log then some orders_schema else none

abbrev row_in : Log → Option ManagedDatabase
row_in log = if any touches_row log then some orders_row else none

abbrev mysql : Env
mysql = record sample {
  exec = λ log db query. none;
  create_managed_database = λ log db row. if any touches_row log then some (failure []) else none;
  first_schema = λ log db name. schema_in log;
  find_managed_database = λ log db uid. row_in log;
}

any_snoc :
    (p : Event → Bool) (log : Log) (event : Event)
    → any p (log ++ event ∷ []) ≡ any p log || p event
any_snoc p [] event = ground arith
any_snoc p (e ∷ log) event = ground (arith, any_snoc p log event)

orders-IsInSync : IsInSync orders.spec orders_schema
orders-IsInSync = record { character_set = inr refl; collate = inl refl }

named_orders : (log : Log) → named_schema (schema_in log) ≡ schema_in log
unfolding named_schema codes ◌==◌
named_orders log = ground arith

mysql_serves : Serves mysql line.db orders
unfolding managed_of
mysql_serves = record {
  schema = schema_in;
  row = row_in;
  finds_schema = named_orders;
  finds_row = λ log. refl;
  keeps_schema = λ log event h. ground (arith, any_snoc touches_schema log event, h);
  keeps_row = λ log event h. ground (arith, any_snoc touches_row log event, h);
  creates = λ log absent. (
    refl,
    (
      orders_schema,
      (
        ground (arith, any_snoc touches_schema log (exec line.db (create_query orders) none)),
        orders-IsInSync,
      ),
    ),
  );
  records = λ log fresh. (
    ground arith,
    ground (
      arith,
      any_snoc touches_row log (create_managed_database line.db (managed_of mysql orders) none),
    ),
  );
  refuses = λ log r known. (
    failure [],
    (
      ground arith,
      ground (
        arith,
        any_snoc touches_row log
            (create_managed_database line.db (managed_of mysql orders) (some (failure []))),
      ),
    ),
  );
  alters = λ log d s e f g h required. (
    refl,
    (
      orders_schema,
      (
        ground (arith, any_snoc touches_schema log (exec line.db (alter_query d) none)),
        orders-IsInSync,
      ),
    ),
  );
}
