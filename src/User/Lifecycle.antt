-- ===== src/User/Lifecycle.antt =====
-- `userCreate`, `userUpdate` and `finalizeUser`: the statements on a user and its row in the control
-- database.
pub mod Rows
pub mod Sends
pub mod Steps
pub mod Returns
use mysql_dba_operator.Base.{
  ℕ, Bytes, Bool, true, false, not, ◌&&◌, ◌||◌, Option, none, some, List, [], ◌∷◌, ◌++◌, codes,
  ◌==◌, ltb, length, if◌then◌else◌,
}
use mysql_dba_operator.Api.{
  NamespacedName, OwnerReference, ObjectMeta, SecretKeySelector, Secret, Identification,
  DatabaseUser,
}
use mysql_dba_operator.Orm.{Handle, ManagedUser}
use mysql_dba_operator.Password.{generate_password}
use mysql_dba_operator.World.{
  Env, Log, Error, not_found, failure, Result, ok, err, get_user, create_secret, update_secret,
  update_user, update_user_status, save_managed_user, delete_managed_user, commit,
}
use mysql_dba_operator.World.Exec.{Exec, pure, crash, ◌>>=◌, ◌>>◌, call, look, note}
use mysql_dba_operator.Ownership.{user_mine}
use mysql_dba_operator.Connection.{run, get_secret_at}
use mysql_dba_operator.Acquire.{Connected, acquire, first_error}
use mysql_dba_operator.User.Grants.{
  quoted_user, permission_list_equal, with_grants, grant_status_update, revoke, grant,
}
use mysql_dba_operator.User.Details.{deref, refresh_user, user_detail_string}

pub with_message : Bytes → DatabaseUser → DatabaseUser
with_message message user = record user { status = record (user.status) { message = message } }

unfoldable pub with_username : Bytes → DatabaseUser → DatabaseUser
with_username username user = record user { status = record (user.status) { username = username } }

-- The row that is saved: it always takes the wanted name.
pub managed_of : DatabaseUser → ManagedUser
managed_of user = record {
  uuid = user.meta.uid;
  namespace = user.meta.namespace;
  name = user.meta.name;
  username = user.spec.username;
}

pub create_query : Bytes → Bytes → Bytes
create_query username details = codes "CREATE USER " ++ (quoted_user username ++ details)

pub rename_query : Bytes → Bytes → Bytes
rename_query old new =
    codes "RENAME USER " ++ (quoted_user old ++ (codes " TO " ++ quoted_user new))

pub alter_query : Bytes → Bytes → Bytes
alter_query username details = codes "ALTER USER " ++ (quoted_user username ++ details)

pub drop_query : Bytes → Bytes
drop_query username = codes "DROP USER IF EXISTS " ++ quoted_user username

module _ (env : Env) where
  pub save_row : Handle → DatabaseUser → Exec (Unit {0})
  save_row db user = do
    _ ←
        call (λ log. env.save_managed_user log db (managed_of user))
          (save_managed_user db (managed_of user))
    note (commit db)

  -- `CREATE USER` with the clauses, the grants and the row.
  pub made : Handle → Bytes → DatabaseUser → Exec (Option Error × DatabaseUser)
  made db details user = do
    refused ← run env db (create_query user.status.username details)
    elim refused [
      | some e ↦ pure (some e, user)
      | none ↦ do
        (_, e, granted) ← grant env db (with_grants [] user)
        save_row db granted
        pure (e, granted)
    ]

  unfoldable pub user_create :
      Option Secret → Handle → DatabaseUser → Exec (Option Error × DatabaseUser)
  user_create secret db user = do
    (details, failed, identified) ← user_detail_string env secret true user
    elim failed [ some e ↦ pure (some e, identified) | none ↦ made db details identified ]

  renamed : Handle → DatabaseUser → Exec (Bool × Option Error × DatabaseUser)
  renamed db user = do
    refused ← run env db (rename_query user.status.username user.spec.username)
    elim refused [
      | some e ↦ pure (false, some e, user)
      | none ↦ do
        save_row db user
        pure (
          true,
          none,
          with_message (codes "User renamed") (with_username user.spec.username user),
        )
    ]

  altered : Handle → Bytes → DatabaseUser → Exec (Bool × Option Error × DatabaseUser)
  altered db details user = do
    refused ← run env db (alter_query user.status.username details)
    elim refused [
      | some e ↦ pure (false, some e, user)
      | none ↦ pure (true, none, with_message (codes "User altered") user)
    ]

  -- `REVOKE`, where there is anything to revoke, and then `GRANT`.
  regrant : Handle → DatabaseUser → Exec (Bool × Option Error × DatabaseUser)
  regrant db user = do
    (_, failed, revoked) ←
        if ltb 0 (length user.status.grants) then revoke env db user else pure (false, none, user)
    elim failed [
      | some e ↦ pure (true, some e, revoked)
      | none ↦ do (_, e, granted) ← grant env db revoked; pure (true, e, granted)
    ]

  permitted : Handle → DatabaseUser → Exec (Bool × Option Error × DatabaseUser)
  permitted db user = do
    (differ, failed, found) ← grant_status_update env db user false
    elim failed [
      | some e ↦ pure (differ, some e, found)
      | none ↦
          if differ || not (permission_list_equal found)
          then regrant db found
          else pure (differ, none, found)
    ]

  pub user_update :
      Option Secret → Handle → DatabaseUser → Exec (Bool × Option Error × DatabaseUser)
  user_update secret db user =
      if not (user.spec.username == user.status.username) then renamed db user else (do
        (details, failed, identified) ← user_detail_string env secret false user
        elim failed [
          | some e ↦ pure (false, some e, identified)
          | none ↦
              if not (details == []) then altered db details identified else permitted db identified
        ])

  -- A failure to drop is logged and nothing more: the result is always `nil`.
  unfoldable pub finalize_user : Handle → DatabaseUser → Exec (Option Error)
  finalize_user db user = do
    _ ← run env db (drop_query user.status.username)
    note (delete_managed_user db user.meta.uid)
    pure none
