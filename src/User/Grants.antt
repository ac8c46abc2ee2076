-- ===== src/User/Grants.antt =====
-- `contains`, `grantStatusUpdate`, `revoke`, `grant` and `PermissionListEqual`: what a user may do, in
-- the server and in the status of its resource.
pub mod Status
pub mod Sends
pub mod Steps
pub mod Returns
use mysql_dba_operator.Base.{
  ℕ, suc, Bytes, Bool, true, false, not, ◌&&◌, Option, none, some, List, [], ◌∷◌, ◌++◌, codes, ◌==◌,
  ltb, ◌=?◌, length, map, if◌then◌else◌,
}
use mysql_dba_operator.Api.{NamespacedName, Database, DatabasePermission, DatabaseUser}
use mysql_dba_operator.Orm.{Handle}
use mysql_dba_operator.Escape.{escape}
use mysql_dba_operator.World.{
  Env, Error, Result, ok, err, Value, null, text, opaque, Row, get_database, query,
}
use mysql_dba_operator.World.Exec.{Exec, pure, ◌>>=◌, ◌>>◌, call}
use mysql_dba_operator.Ownership.{database_mine}
use mysql_dba_operator.Connection.{run}

-- `fmt.Sprintf("%v", value)`
pub sprint : Value → Bytes
sprint null = codes "<nil>"
sprint (text t) = t
sprint (opaque t) = t

pub contains : List Bytes → Bytes → Bool
contains [] x = false
contains (n ∷ a) x = let rest = contains a x in if x == n then true else rest

-- The body of the inner loop: the flag `update` and the grants of the status.
pub add_grant : Bytes → Bool × List Bytes → Bool × List Bytes
add_grant grant (update, grants) =
    if contains grants grant then (update, grants) else (true, grants ++ grant ∷ [])

-- The inner loop, over the columns of a row.
pub add_row : Row → Bool × List Bytes → Bool × List Bytes
add_row [] state = state
add_row ((key, value) ∷ row) state = add_row row (add_grant (sprint value) state)

-- The outer loop, from the row with the index `i`; the first row is dropped.
pub add_rows : ℕ → List Row → Bool × List Bytes → Bool × List Bytes
add_rows i [] state = state
add_rows i (row ∷ rows) state = add_rows (suc i) rows (if ltb 0 i then add_row row state else state)

-- `!=` on slices of permissions by `reflect.DeepEqual`: a nil slice differs from an empty one.
same_texts : List Bytes → List Bytes → Bool
same_texts [] [] = true
same_texts [] (b ∷ t) = false
same_texts (a ∷ s) [] = false
same_texts (a ∷ s) (b ∷ t) = a == b && same_texts s t

same_slice {ℓ} : {A : Type ℓ} → (List A → List A → Bool) → Option (List A) → Option (List A) → Bool
same_slice same none none = true
same_slice same (some s) (some t) = same s t
same_slice same _ _ = false

same_permissions : List DatabasePermission → List DatabasePermission → Bool
same_permissions [] [] = true
same_permissions [] (b ∷ t) = false
same_permissions (a ∷ s) [] = false
same_permissions (a ∷ s) (b ∷ t) =
    (a.name == b.name && same_slice same_texts a.grants b.grants) && same_permissions s t

-- The members of a slice that may be nil.
abbrev pub members {ℓ} : {A : Type ℓ} → Option (List A) → List A
members none = []
members (some l) = l

pub permission_list_equal : DatabaseUser → Bool
permission_list_equal user =
    if not (length user.status.grants =? length (members user.spec.database_list))
    then false
    else same_slice same_permissions user.spec.database_list user.status.database_list

unfoldable pub with_grants : List Bytes → DatabaseUser → DatabaseUser
with_grants grants user = record user { status = record (user.status) { grants = grants } }

unfoldable pub quoted_user : Bytes → Bytes
quoted_user name = codes "'" ++ (escape name ++ codes "'")

abbrev emptied : Bool → DatabaseUser → DatabaseUser
emptied empty user = if empty then with_grants [] user else user

-- The status after the rows of `SHOW GRANTS`.
shown : DatabaseUser → Result (List Row) → Bool × Option Error × DatabaseUser
shown user (err e) = (false, some e, user)
shown user (ok rows) =
    let (update, grants) = add_rows 0 rows (false, user.status.grants) in
    (update, none, with_grants grants user)

-- `, ` between the privileges, in upper case.
privileges : (Bytes → Bytes) → ℕ → List Bytes → Bytes
privileges to_upper i [] = []
privileges to_upper i (p ∷ rest) =
    (if ltb 0 i then codes ", " else []) ++ (to_upper p ++ privileges to_upper (suc i) rest)

pub grant_query : (Bytes → Bytes) → Database → DatabasePermission → Bytes → Bytes
grant_query to_upper database permission username =
    codes "GRANT "
    ++ ((if length (members permission.grants) =? 0
          then codes "ALL"
          else privileges to_upper 0 (members permission.grants))
        ++ (codes " ON `" ++ (database.status.name ++ (codes "`.* TO " ++ quoted_user username))))

pub revoke_query : Bytes → Bytes
revoke_query username = codes "REVOKE ALL PRIVILEGES, GRANT OPTION FROM " ++ quoted_user username

with_database_list : Option (List DatabasePermission) → DatabaseUser → DatabaseUser
with_database_list list user = record user {
  status = record (user.status) { database_list = list };
}

module _ (env : Env) where
  pub grant_status_update : Handle → DatabaseUser → Bool → Exec (Bool × Option Error × DatabaseUser)
  grant_status_update db user empty = do
    let show = codes "SHOW GRANTS FOR " ++ quoted_user user.status.username
    rows ← call (λ log. env.query log db show) (query db show)
    pure (shown (emptied empty user) rows)

  pub revoke : Handle → DatabaseUser → Exec (Bool × Option Error × DatabaseUser)
  revoke db user = do
    failed ← run env db (revoke_query user.status.username)
    elim failed [
      | some e ↦ pure (false, some e, user)
      | none ↦ grant_status_update db (with_database_list (some []) user) true
    ]

  granted : Handle → DatabaseUser → DatabasePermission → Database → Exec (Unit {0})
  granted db user permission database = do
    _ ← run env db (grant_query env.to_upper database permission user.status.username)
    pure tt

  -- A refused `GRANT` is logged, and the loop goes on.
  grant_one : Handle → DatabaseUser → DatabasePermission → Database → Exec (Unit {0})
  grant_one db user permission database = do
    mine ← database_mine env db database
    if mine && not (database.status.name == [])
        then granted db user permission database
        else pure tt

  -- The loop over the permissions, which ends at the first database that cannot be read.
  grant_each : Handle → DatabaseUser → List DatabasePermission → Exec (Option Error)
  grant_each db user [] = pure none
  grant_each db user (permission ∷ rest) = do
    let key : NamespacedName = record { namespace = user.meta.namespace; name = permission.name }
    database ← call (λ log. env.get_database log key) (get_database key)
    elim database [
      | err e ↦ pure (some e)
      | ok d ↦ do grant_one db user permission d; grant_each db user rest
    ]

  pub grant : Handle → DatabaseUser → Exec (Bool × Option Error × DatabaseUser)
  grant db user = do
    failed ← grant_each db user (members user.spec.database_list)
    elim failed [
      | some e ↦ pure (false, some e, user)
      | none ↦ grant_status_update db (with_database_list user.spec.database_list user) false
    ]
