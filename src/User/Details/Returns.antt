-- ===== src/User/Details/Returns.antt =====
-- `userExists` returns, and `userDetailString` does where a secret is there that it reads.
use mysql_dba_operator.Base.{Bytes, Bool, false, not, ◌==◌, ◌≡◌, refl, Option, none, some, []}
use mysql_dba_operator.Api.{SecretKeySource, Secret, Identification, DatabaseUser}
use mysql_dba_operator.Orm.{Handle}
use mysql_dba_operator.World.{Env, Error, ok, err}
use mysql_dba_operator.World.Exec.{pure, ◌>>=◌}
use mysql_dba_operator.World.Total.{Returns, Returns-pure, Returns-bind, Total, Total-bind, returns}
use mysql_dba_operator.Ownership.Returns.{user_exists-Total}
use mysql_dba_operator.Connection.Returns.{get_secret_ref_value-Total}
use mysql_dba_operator.User.Details.{
  deref, refresh_user, password_updated, auth_value, identify, user_detail_string,
}

-- There is a secret, or none is read.
abbrev pub HasSecret : Option Secret → DatabaseUser → Type 0
HasSecret none user = user.spec.identification ≡ none
HasSecret (some s) user = Unit {0}

module _ (env : Env) where
  pub refresh_user-Returns :
      (db : Handle) (user : DatabaseUser)
      → Returns (λ (_, found). found.spec ≡ user.spec) (refresh_user env db user)
  unfolding refresh_user
  refresh_user-Returns db user =
      Returns-bind _ _ (user_exists-Total env db _)
        (elim [ none ↦ λ _. Returns-pure _ refl | some u ↦ λ _. Returns-pure _ refl ])

  module _ (secret : Secret) where
    password_updated-Total :
        (identification : Identification) (user : DatabaseUser)
        → Total (password_updated env (some secret) identification user)
    unfolding password_updated deref
    password_updated-Total identification user = go identification.auth_string
      where
        go :
            (source : Option SecretKeySource)
            → Total {A = Bool} (elim source [
              | none ↦ pure false
              | some s ↦ deref (some secret) >>= λ x.
                  pure
                    (not (user.status.identification_resource_version == x.meta.resource_version))
            ])
        go none = search returns
        go (some s) = search returns

    auth_value-Total :
        (namespace : Bytes) (source : Option SecretKeySource)
        → Total (auth_value env namespace source)
    unfolding auth_value
    auth_value-Total namespace none = search returns
    auth_value-Total namespace (some source) =
        Total-bind _ _ (get_secret_ref_value-Total env namespace _)
          (elim [ err e ↦ search returns | ok v ↦ search returns ])

    identify-Total :
        (create : Bool) (identification : Identification) (user : DatabaseUser)
        → Total (identify env (some secret) create identification user)
    unfolding identify deref
    identify-Total create identification user =
        Total-bind _ _ (password_updated-Total identification user) (λ updated.
          Total-bind _ _ (auth_value-Total _ _)
            (elim [ err e ↦ search returns | ok a ↦ search returns ]))

  pub user_detail_string-Total :
      (secret : Option Secret) (create : Bool) (user : DatabaseUser)
      → HasSecret secret user
      → Total (user_detail_string env secret create user)
  unfolding user_detail_string
  user_detail_string-Total none create user h = go user.spec.identification h
    where
      go :
          (i : Option Identification)
          → i ≡ none
          → Total {A = Bytes × Option Error × DatabaseUser} (elim i [
            | none ↦ pure ([], none, user)
            | some identification ↦ identify env none create identification user
          ])
      go none h = search returns
      go (some i) h = cc
  user_detail_string-Total (some s) create user h = go user.spec.identification
    where
      go :
          (i : Option Identification)
          → Total {A = Bytes × Option Error × DatabaseUser} (elim i [
            | none ↦ pure ([], none, user)
            | some identification ↦ identify env (some s) create identification user
          ])
      go none = search returns
      go (some i) = identify-Total s create i user
