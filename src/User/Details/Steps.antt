-- ===== src/User/Details/Steps.antt =====
-- `userExists` and `userDetailString` do nothing but calls.
use mysql_dba_operator.Base.{Bytes, Bool, false, not, ◌==◌, Option, none, some, []}
use mysql_dba_operator.Api.{SecretKeySource, Secret, Identification, DatabaseUser}
use mysql_dba_operator.Orm.{Handle}
use mysql_dba_operator.World.{Env, World, Error, ok, err}
use mysql_dba_operator.World.Exec.{pure, ◌>>=◌}
use mysql_dba_operator.World.Traces.{Moves}
use mysql_dba_operator.World.Steps.{AdmitsCalls, Steps-pure, Steps-crash, Steps-bind, steps}
use mysql_dba_operator.Ownership.Steps.{user_exists-Steps}
use mysql_dba_operator.Connection.Steps.{get_secret_ref_value-Steps}
use mysql_dba_operator.User.Details.{
  deref, refresh_user, password_updated, auth_value, identify, user_detail_string,
}

module _ {R : World → World → Type 0} (c : AdmitsCalls R) where
  pub deref-Steps : (secret : Option Secret) → Moves R (deref secret)
  unfolding deref
  deref-Steps none = Steps-crash c
  deref-Steps (some s) = Steps-pure c s

module _ {R : World → World → Type 0} (c : AdmitsCalls R) (env : Env) where
  pub refresh_user-Steps : (db : Handle) (user : DatabaseUser) → Moves R (refresh_user env db user)
  unfolding refresh_user
  refresh_user-Steps db user =
      Steps-bind c _ _ (user_exists-Steps c env db _)
        (elim [ none ↦ search (steps, c) | some u ↦ search (steps, c) ])

  password_updated-Steps :
      (secret : Option Secret) (identification : Identification) (user : DatabaseUser)
      → Moves R (password_updated env secret identification user)
  unfolding password_updated
  password_updated-Steps secret identification user = go identification.auth_string
    where
      go :
          (source : Option SecretKeySource)
          → Moves R {A = Bool} (elim source [
            | none ↦ pure false
            | some s ↦ deref secret >>= λ x.
                pure (not (user.status.identification_resource_version == x.meta.resource_version))
          ])
      go none = search (steps, c)
      go (some s) = search (steps, c, deref-Steps)

  auth_value-Steps :
      (namespace : Bytes) (source : Option SecretKeySource)
      → Moves R (auth_value env namespace source)
  unfolding auth_value
  auth_value-Steps namespace none = search (steps, c)
  auth_value-Steps namespace (some source) =
      Steps-bind c _ _ (get_secret_ref_value-Steps c env namespace _)
        (elim [ err e ↦ search (steps, c) | ok v ↦ search (steps, c) ])

  identify-Steps :
      (secret : Option Secret) (create : Bool) (identification : Identification)
      (user : DatabaseUser)
      → Moves R (identify env secret create identification user)
  unfolding identify
  identify-Steps secret create identification user =
      Steps-bind c _ _ (password_updated-Steps secret identification user) (λ updated.
        Steps-bind c _ _ (auth_value-Steps _ _)
          (elim [ err e ↦ search (steps, c) | ok a ↦ search (steps, c, deref-Steps) ]))

  pub user_detail_string-Steps :
      (secret : Option Secret) (create : Bool) (user : DatabaseUser)
      → Moves R (user_detail_string env secret create user)
  unfolding user_detail_string
  user_detail_string-Steps secret create user = go user.spec.identification
    where
      go :
          (i : Option Identification)
          → Moves R {A = Bytes × Option Error × DatabaseUser} (elim i [
            | none ↦ pure ([], none, user)
            | some identification ↦ identify env secret create identification user
          ])
      go none = search (steps, c)
      go (some i) = identify-Steps secret create i user
