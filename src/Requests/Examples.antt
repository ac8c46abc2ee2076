-- ===== src/Requests/Examples.antt =====
-- The theorems on the requests at concrete inputs.
use mysql_dba_operator.Base.{◌≡◌, refl, none, some, All, [], ◌∷◌, codes, ◌==◌, ==_differs}
use mysql_dba_operator.Api.{Database}
use mysql_dba_operator.World.{ok}
use mysql_dba_operator.World.Exec.{done}
use mysql_dba_operator.Connection.{get_admin_connection}
use mysql_dba_operator.Requests.{find_databases}
use mysql_dba_operator.Requests.Complete.{find_databases-defaulted}
use mysql_dba_operator.Sample.{meta_of, main_admin, orders, sample, start}

-- A database beside the connection, which refers to it by its name alone.
abbrev nearby : Database
nearby = record orders {
  meta = meta_of (codes "ops") (codes "orders");
  spec = record (orders.spec) { admin_connection = record { namespace = []; name = codes "main" } };
}

find_databases-defaulted_example :
    All
      (λ (d : Database).
        (get_admin_connection sample d.meta.namespace d.spec.admin_connection start).0
        ≡ done (some main_admin, none))
      (nearby ∷ [])
    × (find_databases main_admin (ok (nearby ∷ [])) ≡ [])
unfolding codes ◌==◌
find_databases-defaulted_example =
    find_databases-defaulted sample main_admin start refl (nearby ∷ [])
      (==_differs (codes "ops") [] refl) (record { beside = refl; short = refl }, tt)
