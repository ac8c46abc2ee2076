-- ===== src/User/Lifecycle/Steps.antt =====
-- `userCreate`, `userUpdate` and `finalizeUser` do nothing but calls.
use mysql_dba_operator.Base.{Bytes, false, ltb, length, Option, none, some}
use mysql_dba_operator.Api.{Secret, DatabaseUser}
use mysql_dba_operator.Orm.{Handle}
use mysql_dba_operator.World.{Env, World}
use mysql_dba_operator.World.Traces.{Moves}
use mysql_dba_operator.World.Steps.{
  AdmitsCalls, Steps-pure, Steps-bind, Steps-if, Steps-option, steps,
}
use mysql_dba_operator.Connection.Steps.{run-Steps}
use mysql_dba_operator.User.Grants.Steps.{grant_status_update-Steps, revoke-Steps, grant-Steps}
use mysql_dba_operator.User.Details.Steps.{user_detail_string-Steps}
use mysql_dba_operator.User.Lifecycle.{
  save_row, made, user_create, renamed, altered, regrant, permitted, user_update, finalize_user,
}

module _ {R : World → World → Type 0} (c : AdmitsCalls R) (env : Env) where
  save_row-Steps : (db : Handle) (user : DatabaseUser) → Moves R (save_row env db user)
  unfolding save_row
  save_row-Steps db user = search (steps, c)

  made-Steps :
      (db : Handle) (details : Bytes) (user : DatabaseUser) → Moves R (made env db details user)
  unfolding made
  made-Steps db details user =
      Steps-bind c _ _ (run-Steps c env db _) (elim [
        | some e ↦ search (steps, c)
        | none ↦ search (steps, c, grant-Steps, save_row-Steps)
      ])

  pub user_create-Steps :
      (secret : Option Secret) (db : Handle) (user : DatabaseUser)
      → Moves R (user_create env secret db user)
  unfolding user_create
  user_create-Steps secret db user =
      Steps-bind c _ _ (user_detail_string-Steps c env secret _ user) (λ (details, failed, i).
        Steps-option c failed _ _ (made-Steps db details i) (λ e. Steps-pure c _))

  renamed-Steps : (db : Handle) (user : DatabaseUser) → Moves R (renamed env db user)
  unfolding renamed
  renamed-Steps db user =
      Steps-bind c _ _ (run-Steps c env db _)
        (elim [ some e ↦ search (steps, c) | none ↦ search (steps, c, save_row-Steps) ])

  altered-Steps :
      (db : Handle) (details : Bytes) (user : DatabaseUser) → Moves R (altered env db details user)
  unfolding altered
  altered-Steps db details user =
      Steps-bind c _ _ (run-Steps c env db _)
        (elim [ some e ↦ search (steps, c) | none ↦ search (steps, c) ])

  regrant-Steps : (db : Handle) (user : DatabaseUser) → Moves R (regrant env db user)
  unfolding regrant
  regrant-Steps db user =
      Steps-bind c _ _
        (Steps-if c (ltb 0 (length user.status.grants)) _ _ (revoke-Steps c env db user)
          (Steps-pure c (false, none, user)))
        (λ (x, failed, revoked).
          Steps-option c failed _ _
            (Steps-bind c _ _ (grant-Steps c env db revoked) (λ _. Steps-pure c _))
            (λ e. Steps-pure c _))

  permitted-Steps : (db : Handle) (user : DatabaseUser) → Moves R (permitted env db user)
  unfolding permitted
  permitted-Steps db user =
      Steps-bind c _ _ (grant_status_update-Steps c env db user _) (λ (differ, failed, found).
        Steps-option c failed _ _ (Steps-if c _ _ _ (regrant-Steps db found) (Steps-pure c _))
          (λ e. Steps-pure c _))

  pub user_update-Steps :
      (secret : Option Secret) (db : Handle) (user : DatabaseUser)
      → Moves R (user_update env secret db user)
  unfolding user_update
  user_update-Steps secret db user = Steps-if c _ _ _ (renamed-Steps db user) (
      Steps-bind c _ _ (user_detail_string-Steps c env secret _ user) (λ (details, failed, i).
        Steps-option c failed _ _
          (Steps-if c _ _ _ (altered-Steps db details i) (permitted-Steps db i))
          (λ e. Steps-pure c _)))

  pub finalize_user-Steps :
      (db : Handle) (user : DatabaseUser) → Moves R (finalize_user env db user)
  unfolding finalize_user
  finalize_user-Steps db user = search (steps, c, run-Steps)
