-- ===== src/AdminController.antt =====
-- controllers/adminconnection_controller.go: the reconciler of `AdminConnection` resources. The
-- deferred status update runs on every way out behind it, also when the code panics.
pub mod Offers
pub mod Examples
pub mod Deferred
pub mod Steps
use mysql_dba_operator.Base.{
  Bytes, Option, none, some, List, [], ◌∷◌, ◌++◌, codes, ◌==◌, length, map, if◌then◌else◌,
}
use mysql_dba_operator.Api.{
  NamespacedName, Collation, Charset, AdminConnectionStatus, AdminConnection,
}
use mysql_dba_operator.Escape.{escape}
use mysql_dba_operator.Orm.{Handle, database_name}
use mysql_dba_operator.World.{
  Env, Error, not_found, failure, Result, ok, err, text, Row, get_admin, query, update_admin_status,
}
use mysql_dba_operator.World.Exec.{
  Outcome, done, panic, Exec, pure, crash, ◌>>=◌, ◌>>◌, call, look, note,
}
use mysql_dba_operator.Connection.{get_database_connection}

-- `row[column].(string)`: the assertion panics on `nil`, on another type and without the column.
pub text_at : Bytes → Row → Option Bytes
text_at column [] = none
text_at column ((key, value) ∷ row) =
    let later = text_at column row in
    if key == column then (elim value [ text t ↦ some t | _ ↦ none ]) else later

-- `sortedResults`, in the order in which the charsets came up.
abbrev pub Groups : Type 0
Groups = List (Bytes × List Collation)

-- `sortedResults[charset] = append(sortedResults[charset], entry)`, made first where it is missing.
pub add_collation : Bytes → Collation → Groups → Groups
add_collation charset entry [] = (charset, entry ∷ []) ∷ []
add_collation charset entry ((name, entries) ∷ rest) =
    if name == charset
    then (name, entries ++ entry ∷ []) ∷ rest
    else (name, entries) ∷ add_collation charset entry rest

-- A row as its charset and its collation; `none` where an assertion panics.
pub read_row : Row → Option (Bytes × Collation)
read_row row = elim (text_at (codes "Collation") row) [
  | none ↦ none
  | some collation ↦ elim (text_at (codes "Charset") row) [
    | none ↦ none
    | some charset ↦ elim (text_at (codes "Default") row) [
      | none ↦ none
      | some default ↦ some (charset, record { name = collation; default = default == codes "Yes" })
    ]
  ]
]

-- The loop over the rows.
pub group_rows : List Row → Groups → Option Groups
group_rows [] groups = some groups
group_rows (row ∷ rows) groups = elim (read_row row) [
  | none ↦ none
  | some (charset, entry) ↦ group_rows rows (add_collation charset entry groups)
]

pub charset_of : Bytes × List Collation → Charset
charset_of (name, entries) = record { name = name; collations = entries }

with_status : AdminConnectionStatus → AdminConnection → AdminConnection
with_status status admin = record admin { status = status }

pub with_message : Bytes → AdminConnection → AdminConnection
with_message message admin = with_status (record (admin.status) { message = message }) admin

-- The outcome of a part of `Reconcile`, with the instance at its end.
abbrev Ending : Type 0
Ending = Outcome (Option Error) × AdminConnection

failed_with : Error → Bytes → AdminConnection → Exec Ending
failed_with e message admin = pure (done (some e), with_message message admin)

-- A computation whose panic does not end the code behind it.
caught : {A : Type 0} → Exec A → Exec (Outcome A)
caught m w = (done (m w).0, (m w).1)

-- `order` is the order in which `range` visits the map.
module _ (env : Env) (order : Groups → Groups) where
  charsets_in_order : Groups → List Charset
  charsets_in_order groups = map charset_of (order groups)

  or_crash : {A : Type 0} → Option A → Exec A
  or_crash none = crash
  or_crash (some a) = pure a

  variable_of : List Row → Exec (Result Bytes)
  variable_of (row ∷ []) = do value ← or_crash (text_at (codes "Value") row); pure (ok value)
  variable_of rows = pure (err (failure (codes "expected 1 row, got " ++ env.itoa (length rows))))

  pub get_variable : Bytes → Handle → Exec (Result Bytes)
  get_variable name db = do
    let show = codes "SHOW VARIABLES LIKE '" ++ (escape name ++ codes "'")
    rows ← call (λ log. env.query log db show) (query db show)
    elim rows [ err e ↦ pure (err e) | ok r ↦ variable_of r ]

  pub get_char_sets : Handle → Exec (Result (List Charset))
  get_char_sets db = do
    let show = codes "SHOW COLLATION WHERE Charset IS NOT NULL"
    rows ← call (λ log. env.query log db show) (query db show)
    elim rows [
      | err e ↦ pure (err e)
      | ok r ↦ do groups ← or_crash (group_rows r []); pure (ok (charsets_in_order groups))
    ]

  -- The steps behind `GetDatabaseConnection`, each with the outcome and with the instance as the
  -- deferred update then finds it. A failure sets the field of its step to its zero value.
  fill_charsets : Handle → AdminConnection → Exec Ending
  fill_charsets db admin = do
    charsets ← caught (get_char_sets db)
    elim charsets [
      | panic ↦ pure (panic, admin)
      | done (err e) ↦
          failed_with e (codes "Failed to retrieve available character sets")
            (with_status (record (admin.status) { available_charsets = [] }) admin)
      | done (ok c) ↦ pure (
        done none,
        with_status
            (record (admin.status) {
              available_charsets = c;
              message = codes "Successfully pinged database";
              control_database = database_name;
            })
            admin,
      )
    ]

  fill_collation : Handle → AdminConnection → Exec Ending
  fill_collation db admin = do
    collation ← caught (get_variable (codes "collation_server") db)
    elim collation [
      | panic ↦ pure (panic, admin)
      | done (err e) ↦
          failed_with e (codes "Failed to retrieve default server collation")
            (with_status (record (admin.status) { collation = [] }) admin)
      | done (ok c) ↦ fill_charsets db (with_status (record (admin.status) { collation = c }) admin)
    ]

  fill_character_set : Handle → AdminConnection → Exec Ending
  fill_character_set db admin = do
    charset ← caught (get_variable (codes "character_set_server") db)
    elim charset [
      | panic ↦ pure (panic, admin)
      | done (err e) ↦
          failed_with e (codes "Failed to retrieve default server character set")
            (with_status (record (admin.status) { character_set = [] }) admin)
      | done (ok c) ↦
          fill_collation db (with_status (record (admin.status) { character_set = c }) admin)
    ]

  inspect : AdminConnection → Exec Ending
  inspect admin = do
    db ← caught (get_database_connection env admin)
    elim db [
      | panic ↦ pure (panic, admin)
      | done (err e) ↦ failed_with e (codes "Failed to connect or ping database") admin
      | done (ok d) ↦ fill_character_set d admin
    ]

  resume : Outcome (Option Error) → Exec (Option Error)
  resume panic = crash
  resume (done result) = pure result

  -- `Reconcile` for a resource that was read: the time is set, and the deferred update of the status
  -- runs on every way out.
  synced : AdminConnection → Exec (Option Error)
  synced admin = do
    time ← look env.now
    ending ← inspect (with_status (record (admin.status) { sync_time = time }) admin)
    note (update_admin_status ending.1)
    resume ending.0

  found : Result AdminConnection → Exec (Option Error)
  found (err not_found) = pure none
  found (err (failure message)) = pure (some (failure message))
  found (ok admin) = synced admin

  pub reconcile : NamespacedName → Exec (Option Error)
  reconcile name = do admin ← call (λ log. env.get_admin log name) (get_admin name); found admin
