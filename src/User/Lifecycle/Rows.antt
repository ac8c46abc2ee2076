-- ===== src/User/Lifecycle/Rows.antt =====
-- The row that `userCreate` and `userUpdate` save, against the test of ownership that reads it.
use mysql_dba_operator.Base.{false, ◌≡◌, ◌≢◌, some, []}
use mysql_dba_operator.Api.{DatabaseUser}
use mysql_dba_operator.Orm.{Handle, MySqlUser}
use mysql_dba_operator.World.{Env, Log, World}
use mysql_dba_operator.World.Exec.{done}
use mysql_dba_operator.Ownership.{named_user, user_mine}
use mysql_dba_operator.Ownership.Rename.{user_mine_foreign_row}
use mysql_dba_operator.User.Lifecycle.{managed_of}

-- The row that `userCreate` saves after it has created the user of the present name, while another
-- name is wanted, does not own that user: with this row for the UID, and as long as the user exists,
-- `UserMine` returns false, whether or not a user of the wanted name exists.
pub managed_of_disowns :
    (env : Env) (db : Handle) (user : DatabaseUser) (present : MySqlUser) (w : World)
    → user.spec.username ≢ user.status.username
    → user.status.username ≢ []
    → ((log : Log) → env.find_managed_user log db user.meta.uid ≡ some (managed_of user))
    → ((log : Log) → named_user (env.first_user log db user.status.username) ≡ some present)
    → (user_mine env db user w).0 ≡ done false
unfolding managed_of
managed_of_disowns env db user present w renamed set row there =
    user_mine_foreign_row env db user (managed_of user) present renamed set renamed row there w
