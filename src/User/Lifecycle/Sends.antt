-- ===== src/User/Lifecycle/Sends.antt =====
-- What `userCreate`, `userUpdate` and `finalizeUser` send.
use mysql_dba_operator.Base.{
  Bytes, Bool, true, false, not, ◌||◌, ◌≡◌, refl, Option, none, some, [], ◌==◌, ltb, length,
  if◌then◌else◌,
}
use mysql_dba_operator.Api.{Secret, DatabaseUser}
use mysql_dba_operator.Orm.{Handle}
use mysql_dba_operator.World.{Env, Error}
use mysql_dba_operator.World.Exec.{Exec, pure, ◌>>=◌}
use mysql_dba_operator.World.Traces.{
  AdmitsQuiet, Emits, Emits-quiet, Emits-note, Emits-pure, Emits-bind, Emits-if,
}
use mysql_dba_operator.World.Ensures.{Ensures-Emits, Ensures-pure, Ensures-if, Emits-after}
use mysql_dba_operator.User.Statements.{
  Account, account_of, Details, Creating, creates, Managing, renames, alters, drops, Sent,
  Sent-AdmitsQuiet, Sent-account,
}
use mysql_dba_operator.User.Grants.{quoted_user, with_grants, permission_list_equal, grant}
use mysql_dba_operator.User.Grants.Sends.{
  grant_status_update-SendsOn, grant-SendsOn, run-Emits, revoke-SendsOn,
}
use mysql_dba_operator.User.Details.Sends.{user_detail_string-Describes}
use mysql_dba_operator.User.Lifecycle.{
  save_row, create_query, rename_query, alter_query, drop_query, made, user_create, renamed,
  altered, regrant, permitted, user_update, finalize_user,
}

module _ (P : Account → Bytes → Type 0) (env : Env) (a : Account) where
  save_row-Emits : (db : Handle) (user : DatabaseUser) → Emits (Sent P a) (save_row env db user)
  unfolding save_row
  save_row-Emits db user =
      Emits-bind (Sent-AdmitsQuiet P a) _ _ (Emits-quiet (Sent-AdmitsQuiet P a) _ _ (λ _. tt))
        (λ _. Emits-note (Sent-AdmitsQuiet P a) _ tt)

module _ (env : Env) (db : Handle) where
  abbrev q :
      (P : Account → Bytes → Type 0) (user : DatabaseUser)
      → AdmitsQuiet (Sent P (account_of env user))
  q P user = Sent-AdmitsQuiet P (account_of env user)

  made-Emits :
      (details : Bytes) (user : DatabaseUser)
      → Details details
      → Emits (Sent Creating (account_of env user)) (made env db details user)
  unfolding made create_query quoted_user with_grants
  made-Emits details user described =
      Emits-bind (q Creating user) _ _
        (run-Emits Creating env (account_of env user) db _ (creates details described))
        (elim [
          | some e ↦ Emits-pure (q Creating user) _
          | none ↦
              Emits-bind (q Creating user) _ _
                (Ensures-Emits (grant-SendsOn Creating env db (with_grants [] user)))
                (λ (_, e, granted).
                  Emits-bind (q Creating user) _ _
                    (save_row-Emits Creating env (account_of env user) db granted)
                    (λ _. Emits-pure (q Creating user) _))
        ])

  pub user_create-Emits :
      (secret : Option Secret) (user : DatabaseUser)
      → Emits (Sent Creating (account_of env user)) (user_create env secret db user)
  unfolding user_create
  user_create-Emits secret user =
      Emits-after (q Creating user) _ _ (user_detail_string-Describes Creating env user secret true)
        (λ (details, failed, identified) (described, same).
          go details failed identified described same)
    where
      go :
          (details : Bytes) (failed : Option Error) (identified : DatabaseUser)
          → Details details
          → account_of env identified ≡ account_of env user
          → Emits (Sent Creating (account_of env user)) (elim failed [
            | some e ↦ pure (some e, identified)
            | none ↦ made env db details identified
          ])
      go details (some e) identified described same = Emits-pure (q Creating user) _
      go details none identified described same =
          Sent-account same (made-Emits details identified described)

  abbrev Manages : {A : Type 0} → DatabaseUser → Exec A → Type 0
  Manages user m = Emits (Sent Managing (account_of env user)) m

  renamed-Emits : (user : DatabaseUser) → Manages user (renamed env db user)
  unfolding renamed rename_query quoted_user
  renamed-Emits user =
      Emits-bind (q Managing user) _ _ (run-Emits Managing env (account_of env user) db _ renames)
        (elim [
          | some e ↦ Emits-pure (q Managing user) _
          | none ↦
              Emits-bind (q Managing user) _ _
                (save_row-Emits Managing env (account_of env user) db user)
                (λ _. Emits-pure (q Managing user) _)
        ])

  altered-Emits :
      (details : Bytes) (user : DatabaseUser)
      → Details details
      → Manages user (altered env db details user)
  unfolding altered alter_query quoted_user
  altered-Emits details user described =
      Emits-bind (q Managing user) _ _
        (run-Emits Managing env (account_of env user) db _ (alters details described))
        (elim [ some e ↦ Emits-pure (q Managing user) _ | none ↦ Emits-pure (q Managing user) _ ])

  regrant-Emits : (user : DatabaseUser) → Manages user (regrant env db user)
  unfolding regrant
  regrant-Emits user =
      Emits-after (q Managing user) _ _
        (Ensures-if (q Managing user) (ltb 0 (length user.status.grants)) _ _
          (revoke-SendsOn env db user) (Ensures-pure (q Managing user) _ refl))
        (λ (_, failed, revoked) same. go failed revoked same)
    where
      go :
          (failed : Option Error) (revoked : DatabaseUser)
          → account_of env revoked ≡ account_of env user
          → Manages {A = Bool × Option Error × DatabaseUser} user (elim failed [
            | some e ↦ pure (true, some e, revoked)
            | none ↦ grant env db revoked >>= λ (_, e, granted). pure (true, e, granted)
          ])
      go (some e) revoked same = Emits-pure (q Managing user) _
      go none revoked same = Sent-account same (
          Emits-bind (q Managing revoked) _ _
            (Ensures-Emits (grant-SendsOn Managing env db revoked))
            (λ _. Emits-pure (q Managing revoked) _))

  permitted-Emits : (user : DatabaseUser) → Manages user (permitted env db user)
  unfolding permitted
  permitted-Emits user =
      Emits-after (q Managing user) _ _ (grant_status_update-SendsOn Managing env db user false)
        (λ (differ, failed, found) same. go differ failed found same)
    where
      go :
          (differ : Bool) (failed : Option Error) (found : DatabaseUser)
          → account_of env found ≡ account_of env user
          → Manages {A = Bool × Option Error × DatabaseUser} user (elim failed [
            | some e ↦ pure (differ, some e, found)
            | none ↦
                if differ || not (permission_list_equal found)
                then regrant env db found
                else pure (differ, none, found)
          ])
      go differ (some e) found same = Emits-pure (q Managing user) _
      go differ none found same =
          Emits-if (q Managing user) (differ || not (permission_list_equal found)) _ _
            (Sent-account same (regrant-Emits found)) (Emits-pure (q Managing user) _)

  pub user_update-Emits :
      (secret : Option Secret) (user : DatabaseUser) → Manages user (user_update env secret db user)
  unfolding user_update
  user_update-Emits secret user =
      Emits-if (q Managing user) (not (user.spec.username == user.status.username)) _ _
        (renamed-Emits user)
        (Emits-after (q Managing user) _ _
          (user_detail_string-Describes Managing env user secret false)
          (λ (details, failed, identified) (described, same).
            go details failed identified described same))
    where
      go :
          (details : Bytes) (failed : Option Error) (identified : DatabaseUser)
          → Details details
          → account_of env identified ≡ account_of env user
          → Manages {A = Bool × Option Error × DatabaseUser} user (elim failed [
            | some e ↦ pure (false, some e, identified)
            | none ↦
                if not (details == [])
                then altered env db details identified
                else permitted env db identified
          ])
      go details (some e) identified described same = Emits-pure (q Managing user) _
      go details none identified described same = Sent-account same (
          Emits-if (q Managing identified) (not (details == [])) _ _
            (altered-Emits details identified described) (permitted-Emits identified))

  pub finalize_user-Emits : (user : DatabaseUser) → Manages user (finalize_user env db user)
  unfolding finalize_user drop_query quoted_user
  finalize_user-Emits user =
      Emits-bind (q Managing user) _ _ (run-Emits Managing env (account_of env user) db _ drops)
        (λ _.
          Emits-bind (q Managing user) _ _ (Emits-note (q Managing user) _ tt)
            (λ _. Emits-pure (q Managing user) _))
