-- ===== src/AdminController/Examples.antt =====
-- The theorems on the reconciler of `AdminConnection` resources at concrete inputs.
use mysql_dba_operator.Base.{
  Bytes, true, false, ◌≡◌, ◌↔◌, refl, none, List, [], ◌∷◌, ◌++◌, codes, ◌==◌, map,
}
use mysql_dba_operator.Api.{NamespacedName, AdminConnection}
use mysql_dba_operator.World.{Row, text, Log, update_admin_status}
use mysql_dba_operator.Webhook.{check_charsets}
use mysql_dba_operator.Webhook.Verdicts.{Has}
use mysql_dba_operator.AdminController.{
  Groups, text_at, add_collation, read_row, group_rows, charset_of, reconcile,
}
use mysql_dba_operator.AdminController.Offers.{offers, check_charsets-offers}
use mysql_dba_operator.AdminController.Deferred.{reconcile-Saves}
use mysql_dba_operator.Sample.{main_admin, sample, start}

abbrev row_of : Bytes → Bytes → Bytes → Row
row_of collation charset default =
    (codes "Collation", text collation)
    ∷ (codes "Charset", text charset)
    ∷ (codes "Default", text default)
    ∷ []

abbrev rows : List Row
rows =
    row_of (codes "utf8_bin") (codes "utf8") []
    ∷ row_of (codes "ascii_bin") (codes "ascii") (codes "Yes")
    ∷ []

abbrev groups : Groups
groups =
    (codes "utf8", record { name = codes "utf8_bin"; default = false } ∷ [])
    ∷ (codes "ascii", record { name = codes "ascii_bin"; default = true } ∷ [])
    ∷ []

check_charsets-offers_example :
    ((check_charsets (codes "utf8") (codes "utf8_bin") (map charset_of groups)).1 ≡ none)
    ↔ Has (codes "utf8_bin") (offers (codes "utf8") rows)
unfolding codes ◌==◌ group_rows read_row text_at add_collation
check_charsets-offers_example =
    check_charsets-offers rows groups (map charset_of groups) refl (λ name. refl) (codes "utf8")
      (codes "utf8_bin")

abbrev main_key : NamespacedName
main_key = record { namespace = codes "ops"; name = codes "main" }

reconcile-Saves_example :
    (before : Log) × (final : AdminConnection) × ((reconcile sample (λ g. g) main_key start).1.log
      ≡ before ++ update_admin_status final ∷ [])
    × (final.status.sync_time ≡ 5)
    × (final.spec ≡ main_admin.spec)
    × (final.meta ≡ main_admin.meta)
reconcile-Saves_example = reconcile-Saves sample (λ g. g) main_key main_admin start refl
