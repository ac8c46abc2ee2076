-- ===== src/User/Details/Authentication.antt =====
-- `userDetailString` where no secret is read, and what it writes where one is.
use mysql_dba_operator.Base.{Bool, ◌≡◌, refl, none, some}
use mysql_dba_operator.Api.{Identification, DatabaseUser}
use mysql_dba_operator.World.{Env, World}
use mysql_dba_operator.World.Exec.{panic}
use mysql_dba_operator.User.Details.{
  deref, password_updated, auth_value, identify, user_detail_string,
}

module _ (env : Env) (user : DatabaseUser) where
  -- An identification with no password makes `userDetailString` panic, for there is no secret whose
  -- version it could read. Nothing is called before that.
  pub user_detail_string_no_secret :
      (identification : Identification) (create : Bool) (w : World)
      → user.spec.identification ≡ some identification
      → identification.auth_string ≡ none
      → user_detail_string env none create user w ≡ (panic, w)
  unfolding user_detail_string identify password_updated auth_value deref
  user_detail_string_no_secret identification create w wanted passwordless =
      rw (wanted, user_detail_string) (rw (passwordless, user_detail_string) refl)
