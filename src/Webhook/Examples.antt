-- ===== src/Webhook/Examples.antt =====
-- The theorem on the validation of `Database` resources at a concrete input.
use mysql_dba_operator.Base.{◌≡◌, ◌↔◌, length, codes}
use mysql_dba_operator.Api.{Database}
use mysql_dba_operator.Webhook.{validate_create, validate_update, validate_delete}
use mysql_dba_operator.Webhook.Accepted.{Accepts, IsName, Combines, validate_iff}
use mysql_dba_operator.Sample.{orders, sample, start}

abbrev renamed_orders : Database
renamed_orders = record orders { spec = record (orders.spec) { name = codes "sales" } }

validate_iff_example :
    (Accepts (validate_create sample length orders) start
      ↔ (IsName length orders.spec.name × Combines sample orders start))
    × (Accepts (validate_update sample orders renamed_orders) start
        ↔ ((orders.spec.name ≡ renamed_orders.spec.name) × Combines sample orders start))
    × Accepts (validate_delete orders) start
validate_iff_example = validate_iff sample orders length renamed_orders start
