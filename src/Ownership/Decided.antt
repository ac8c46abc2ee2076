-- ===== src/Ownership/Decided.antt =====
-- What `UserMine` answers where the server and the control database stay as they are meanwhile.
use mysql_dba_operator.Base.{Bytes, ◌≡◌, ◌⊎◌, Option, none}
use mysql_dba_operator.Api.{DatabaseUser}
use mysql_dba_operator.Orm.{Handle, ManagedUser, MySqlUser}
use mysql_dba_operator.World.{Env, World, Log}
use mysql_dba_operator.Ownership.{named_user, no_user, found_or}
use mysql_dba_operator.Ownership.Evidence.{RecordsUser}

-- The server has no such user, or `managed` records it.
abbrev pub FreeOr : (Bytes → Option MySqlUser) → DatabaseUser → ManagedUser → Bytes → Type 0
FreeOr users user managed name = (named_user (users name) ≡ none) ⊎ RecordsUser managed name user

-- Every query is answered the same whatever came before: `users` has the reply by name, and `row` is
-- the one for the UID.
module _ (env : Env) (db : Handle) (user : DatabaseUser) (users : Bytes → Option MySqlUser)
    (row : Option ManagedUser)
    (same_users : (log : Log) (name : Bytes) → env.first_user log db name ≡ users name)
    (same_row : (log : Log) → env.find_managed_user log db user.meta.uid ≡ row) where
  abbrev Ours : Bytes → Type 0
  Ours = FreeOr users user (found_or no_user row)
