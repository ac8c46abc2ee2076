-- ===== src/User/Lifecycle/Returns.antt =====
-- `userCreate` and `userUpdate` return where a secret is there that they read; `finalizeUser` returns.
use mysql_dba_operator.Base.{Bytes, false, ltb, length, Option, none, some}
use mysql_dba_operator.Api.{Secret, DatabaseUser}
use mysql_dba_operator.Orm.{Handle}
use mysql_dba_operator.World.{Env}
use mysql_dba_operator.World.Total.{Total, Total-pure, Total-bind, Total-if, Total-option, returns}
use mysql_dba_operator.Connection.Returns.{run-Total}
use mysql_dba_operator.User.Grants.Returns.{grant_status_update-Total, revoke-Total, grant-Total}
use mysql_dba_operator.User.Details.Returns.{HasSecret, user_detail_string-Total}
use mysql_dba_operator.User.Lifecycle.{
  save_row, made, user_create, renamed, altered, regrant, permitted, user_update, finalize_user,
}

module _ (env : Env) where
  save_row-Total : (db : Handle) (user : DatabaseUser) → Total (save_row env db user)
  unfolding save_row
  save_row-Total db user = search returns

  made-Total :
      (db : Handle) (details : Bytes) (user : DatabaseUser) → Total (made env db details user)
  unfolding made
  made-Total db details user =
      Total-bind _ _ (run-Total env db _)
        (elim [ some e ↦ search returns | none ↦ search (returns, grant-Total, save_row-Total) ])

  pub user_create-Total :
      (secret : Option Secret) (db : Handle) (user : DatabaseUser)
      → HasSecret secret user
      → Total (user_create env secret db user)
  unfolding user_create
  user_create-Total secret db user has =
      Total-bind _ _ (user_detail_string-Total env secret _ user has) (λ (details, failed, i).
        Total-option failed _ _ (made-Total db details i) (λ e. Total-pure _))

  renamed-Total : (db : Handle) (user : DatabaseUser) → Total (renamed env db user)
  unfolding renamed
  renamed-Total db user =
      Total-bind _ _ (run-Total env db _)
        (elim [ some e ↦ search returns | none ↦ search (returns, save_row-Total) ])

  altered-Total :
      (db : Handle) (details : Bytes) (user : DatabaseUser) → Total (altered env db details user)
  unfolding altered
  altered-Total db details user =
      Total-bind _ _ (run-Total env db _) (elim [ some e ↦ search returns | none ↦ search returns ])

  regrant-Total : (db : Handle) (user : DatabaseUser) → Total (regrant env db user)
  unfolding regrant
  regrant-Total db user =
      Total-bind _ _
        (Total-if (ltb 0 (length user.status.grants)) _ _ (revoke-Total env db user)
          (Total-pure (false, none, user)))
        (λ (x, failed, revoked).
          Total-option failed _ _ (Total-bind _ _ (grant-Total env db revoked) (λ _. Total-pure _))
            (λ e. Total-pure _))

  permitted-Total : (db : Handle) (user : DatabaseUser) → Total (permitted env db user)
  unfolding permitted
  permitted-Total db user =
      Total-bind _ _ (grant_status_update-Total env db user _) (λ (differ, failed, found).
        Total-option failed _ _ (Total-if _ _ _ (regrant-Total db found) (Total-pure _))
          (λ e. Total-pure _))

  pub user_update-Total :
      (secret : Option Secret) (db : Handle) (user : DatabaseUser)
      → HasSecret secret user
      → Total (user_update env secret db user)
  unfolding user_update
  user_update-Total secret db user has = Total-if _ _ _ (renamed-Total db user) (
      Total-bind _ _ (user_detail_string-Total env secret _ user has) (λ (details, failed, i).
        Total-option failed _ _ (Total-if _ _ _ (altered-Total db details i) (permitted-Total db i))
          (λ e. Total-pure _)))

  pub finalize_user-Total : (db : Handle) (user : DatabaseUser) → Total (finalize_user env db user)
  unfolding finalize_user
  finalize_user-Total db user = search (returns, run-Total)
