-- ===== src/DatabaseController/Examples.antt =====
-- The theorems on the reconciler of `Database` resources at concrete inputs.
use mysql_dba_operator.Base.{◌≡◌, ◌↔◌, refl, some, [], ◌∷◌, ◌++◌, codes, ◌==◌, ==_differs, arith}
use mysql_dba_operator.Api.{Database}
use mysql_dba_operator.World.{Env, ok}
use mysql_dba_operator.World.Exec.{panic}
use mysql_dba_operator.DatabaseController.{quoted, reconcile}
use mysql_dba_operator.DatabaseController.Sql.{
  read_quoted, read_quoted-quoted, read_quoted-quoted_backtick,
}
use mysql_dba_operator.DatabaseController.Termination.{Unreleasable, after_read, reconcile-panic}
use mysql_dba_operator.Sample.{orders, orders_key, adrift, start}

-- A resource that wants the database `orders`, which is another's.
abbrev rival : Database
rival = record orders { meta = record (orders.meta) { name = codes "rival" } }

abbrev doomed : Database
doomed = record orders { meta = record (orders.meta) { deletion_timestamp = some 3 } }

abbrev doomed_env : Env
doomed_env = record adrift { get_database = λ log name. ok doomed }

read_quoted-quoted_example :
    read_quoted (quoted (codes "orders") ++ codes " COLLATE")
    ≡ some (codes "orders", codes " COLLATE")
unfolding codes ◌==◌
read_quoted-quoted_example =
    read_quoted-quoted (codes "orders") (codes " COLLATE") (omega arith) (omega arith)

-- The name "a`b".
read_quoted-quoted_backtick_example :
    read_quoted (quoted (codes "a" ++ (96 ∷ codes "b"))) ≡ some (codes "a", codes "b" ++ (96 ∷ []))
unfolding codes ◌==◌
read_quoted-quoted_backtick_example =
    read_quoted-quoted_backtick (codes "a") (codes "b") (omega arith) (omega arith)
      (==_differs (codes "b") [] refl)

reconcile-panic_example : ((reconcile doomed_env orders_key start).0 ≡ panic) ↔ (
    (d : Database) × (ok doomed ≡ ok d)
    × Unreleasable doomed_env d (after_read doomed_env orders_key start))
reconcile-panic_example = reconcile-panic doomed_env orders_key start
