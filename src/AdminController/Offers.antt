-- ===== src/AdminController/Offers.antt =====
-- The charsets that a reconciliation of an `AdminConnection` records against the rows that the server
-- shows, and what the webhook for databases makes of them.
use mysql_dba_operator.Base.{
  Bytes, ◌≡◌, ◌↔◌, ◌∙◌, none, some, List, [], ◌∷◌, ◌++◌, append_assoc, append-nil, ap, ◌==◌, ==_iff,
  map, Bool-cases, Option-cases, inl, inr, arith, if◌then◌else◌,
}
use mathlib.Core.Path.{subst}
use mysql_dba_operator.Api.{Collation, Charset}
use mysql_dba_operator.World.{Row}
use mysql_dba_operator.Webhook.{check_charsets}
use mysql_dba_operator.Webhook.Verdicts.{find_charset, or_empty, Has, check_charsets-Has}
use mysql_dba_operator.AdminController.{Groups, add_collation, read_row, group_rows, charset_of}

-- The collations that the rows list for a charset, in their order.
pub offers : Bytes → List Row → List Collation
offers name [] = []
offers name (row ∷ rows) =
    let later = offers name rows in
    elim (read_row row) [
      | none ↦ later
      | some (charset, entry) ↦ if charset == name then entry ∷ later else later
    ]

abbrev lookup : Bytes → Groups → List Collation
lookup name groups = or_empty (find_charset name (map charset_of groups))

lookup-add_collation :
    (name charset : Bytes) (entry : Collation) (groups : Groups)
    → lookup name (add_collation charset entry groups)
      ≡ lookup name groups ++ (if charset == name then entry ∷ [] else [])
unfolding find_charset add_collation charset_of
lookup-add_collation name charset entry [] = ground (arith, ==_iff charset name)
lookup-add_collation name charset entry ((n, entries) ∷ rest) = elim (Bool-cases (n == charset)) [
  | inl same ↦
      rw (same, (==_iff n charset).0 same)
        (ground (arith, ==_iff charset name, append-nil entries, append-nil (lookup name rest)))
  | inr other ↦ rw other (
      ground (
        arith,
        lookup-add_collation name charset entry rest,
        ==_iff charset name,
        ==_iff n charset,
        ==_iff n name,
        append-nil entries,
      ))
]

after :
    (name charset : Bytes) (entry : Collation) (before rest : List Collation)
    → (before ++ (if charset == name then entry ∷ [] else [])) ++ rest
      ≡ before ++ (if charset == name then entry ∷ rest else rest)
after name charset entry before rest =
    ground (arith, append_assoc before (entry ∷ []) rest, append-nil before)

lookup-group_rows :
    (name : Bytes) (rows : List Row) (groups final : Groups)
    → group_rows rows groups ≡ some final
    → lookup name final ≡ lookup name groups ++ offers name rows
unfolding group_rows offers
lookup-group_rows name [] groups final h = ground (arith, append-nil (lookup name groups))
lookup-group_rows name (row ∷ rows) groups final h = elim (Option-cases (read_row row)) [
  | inl gone ↦ ground arith
  | inr ((charset, entry), there) ↦
      rw (there, offers)
        (lookup-group_rows name rows (add_collation charset entry groups) final
            (rw (there, group_rows) at h)
          ∙ ap (λ (l : List Collation). l ++ offers name rows)
              (lookup-add_collation name charset entry groups)
          ∙ after name charset entry (lookup name groups) (offers name rows))
]

-- If the rows of `SHOW COLLATION` are grouped without a panic, and the recorded charsets are the
-- groups in an order that leaves each name its collations, then the webhook accepts a charset and a
-- collation against the record exactly when a row of the server lists that collation for that charset.
pub check_charsets-offers :
    (rows : List Row) (groups : Groups) (recorded : List Charset)
    → group_rows rows [] ≡ some groups
    → ((name : Bytes) → find_charset name recorded ≡ find_charset name (map charset_of groups))
    → (charset collation : Bytes)
    → ((check_charsets charset collation recorded).1 ≡ none) ↔ Has collation (offers charset rows)
unfolding find_charset
check_charsets-offers rows groups recorded grouped same charset collation =
    subst (λ es. ((check_charsets charset collation recorded).1 ≡ none) ↔ Has collation es)
      (ap or_empty (same charset) ∙ lookup-group_rows charset rows [] groups grouped)
      (check_charsets-Has charset collation recorded)
