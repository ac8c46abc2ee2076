-- ===== src/User/Grants/Sends.antt =====
-- What `revoke`, `grant` and `grantStatusUpdate` send, and that they keep the account of the user.
use mysql_dba_operator.Base.{
  ℕ, suc, ◌=?◌, length, codes, ltb, All, Any, Bytes, Bool, true, false, not, ◌&&◌, ◌≡◌, ◌≢◌, refl,
  ◌∙◌, Option, none, some, List, [], ◌∷◌, ◌++◌, append_assoc, ◌==◌, ==_iff, Bool-cases, inl, inr,
  arith, if◌then◌else◌,
}
use mathlib.Core.Path.{subst}
use mysql_dba_operator.Api.{NamespacedName, Database, DatabasePermission, DatabaseUser}
use mysql_dba_operator.Orm.{Handle}
use mysql_dba_operator.World.{Env, Error, Result, ok, err, Row, World, exec, get_database}
use mysql_dba_operator.World.Exec.{Exec, Outcome, done, panic, pure, continue, call}
use mysql_dba_operator.World.Traces.{
  AdmitsQuiet, Extends, Extends-trans, Extends-IsPreorder, Emits, Emits-quiet, Emits-pure,
  Emits-call, Moves-call, bind_from, logged,
}
use mysql_dba_operator.World.Ensures.{Ensures, Ensures-pure, Ensures-after}
use mysql_dba_operator.Ownership.{database_mine}
use mysql_dba_operator.Ownership.Queries.{database_mine-Emits}
use mysql_dba_operator.Ownership.Evidence.{OwnsDatabase, database_mine-OwnsDatabase}
use mysql_dba_operator.Connection.{run}
use mysql_dba_operator.User.Statements.{
  Account, account_of, Managing, revokes, Listed, Privileges, all_of_nil, all_of_empty, listed,
  behind_commas, Sent, nothing, quiet, sends, grants, Sent-AdmitsQuiet,
}
use mysql_dba_operator.User.Grants.{
  with_grants, quoted_user, emptied, shown, members, privileges, grant_query, revoke_query,
  with_database_list, grant_status_update, revoke, granted, grant_one, grant_each, grant,
}

-- The key under which the database of a permission is read.
abbrev key_in : DatabaseUser → DatabasePermission → NamespacedName
key_in user p = record { namespace = user.meta.namespace; name = p.name }

-- The third part of an outcome is a user with the account `a`.
abbrev pub KeepsAccount : {X : Type 0} → Env → Account → X × Option Error × DatabaseUser → Type 0
KeepsAccount env a (x, e, user) = account_of env user ≡ a

emptied-account :
    (env : Env) (empty : Bool) (user : DatabaseUser)
    → account_of env (emptied empty user) ≡ account_of env user
unfolding with_grants
emptied-account env true user = refl
emptied-account env false user = refl

shown-KeepsAccount :
    (env : Env) (user : DatabaseUser) (rows : Result (List Row))
    → KeepsAccount env (account_of env user) (shown user rows)
unfolding shown with_grants
shown-KeepsAccount env user (err e) = refl
shown-KeepsAccount env user (ok rows) = refl

privileges_behind :
    (upper : Bytes → Bytes) (i : ℕ) (grants : List Bytes)
    → privileges upper (suc i) grants ≡ behind_commas upper grants
unfolding privileges behind_commas
privileges_behind upper i [] = refl
privileges_behind upper i (g ∷ rest) =
    let later : ltb 0 (suc i) ≡ true = ground arith in
    rw (later, privileges_behind upper (suc i) rest) refl

-- What the code writes between `GRANT` and `ON`.
privileges-Privileges :
    (upper : Bytes → Bytes) (grants : Option (List Bytes))
    → Privileges upper grants
        (if length (members grants) =? 0 then codes "ALL" else privileges upper 0 (members grants))
unfolding privileges
privileges-Privileges upper none = all_of_nil
privileges-Privileges upper (some []) = all_of_empty
privileges-Privileges upper (some (g ∷ rest)) =
    let some_grant : (suc (length rest) =? 0) ≡ false = ground arith in
    rw (some_grant, privileges_behind upper 0 rest) (listed g rest)

members-Listed :
    (env : Env) (user : DatabaseUser)
    → All (Listed (account_of env user)) (members user.spec.database_list)
members-Listed env user = go user.spec.database_list refl
  where
    among :
        (wider ps : List DatabasePermission)
        → user.spec.database_list ≡ some wider
        → ((p : DatabasePermission) → Any (λ q. q ≡ p) ps → Any (λ q. q ≡ p) wider)
        → All (Listed (account_of env user)) ps
    among wider [] e h = tt
    among wider (p ∷ ps) e h = ((wider, e, h p (inl refl)), among wider ps e (λ q at. h q (inr at)))

    go :
        (list : Option (List DatabasePermission))
        → user.spec.database_list ≡ list
        → All (Listed (account_of env user)) (members list)
    go none e = tt
    go (some ps) e = among ps ps e (λ p at. at)

module _ (P : Account → Bytes → Type 0) (env : Env) where
  abbrev q : (user : DatabaseUser) → AdmitsQuiet (Sent P (account_of env user))
  q user = Sent-AdmitsQuiet P (account_of env user)

  abbrev pub SendsOn : {X : Type 0} → DatabaseUser → Exec (X × Option Error × DatabaseUser) → Type 0
  SendsOn user m = Ensures (Sent P (account_of env user)) (KeepsAccount env (account_of env user)) m

  pub SendsOn-account :
      {X : Type 0} (user other : DatabaseUser) {m : Exec (X × Option Error × DatabaseUser)}
      → account_of env other ≡ account_of env user
      → SendsOn other m
      → SendsOn user m
  SendsOn-account user other {m} e h = subst (λ a. Ensures (Sent P a) (KeepsAccount env a) m) e h

  pub grant_status_update-SendsOn :
      (db : Handle) (user : DatabaseUser) (empty : Bool)
      → SendsOn user (grant_status_update env db user empty)
  unfolding grant_status_update
  grant_status_update-SendsOn db user empty =
      Ensures-after (q user) _ _ (Emits-quiet (q user) _ _ (λ _. tt)) (λ rows.
        Ensures-pure (q user) _
          (shown-KeepsAccount env (emptied empty user) rows ∙ emptied-account env empty user))

  -- `GRANT` directly behind the read of the database and the queries that show ownership.
  granted_owned :
      (db : Handle) (user : DatabaseUser) (p : DatabasePermission) (d : Database) (u v w : World)
      → v.log ≡ u.log ++ (get_database (key_in user p) (ok d) ∷ [])
      → Extends (OwnsDatabase db d.spec.name d.meta) v w
      → Listed (account_of env user) p
      → d.status.name ≢ []
      → Extends (Sent P (account_of env user)) u (granted env db user p d w).1
  unfolding granted run call grant_query quoted_user
  granted_owned db user p d u v w read owns permitted set = record {
    events =
        get_database (key_in user p) (ok d)
        ∷ (owns.events
            ++ (exec db (grant_query env.to_upper d p user.status.username)
                  (env.exec w.log db (grant_query env.to_upper d p user.status.username))
                ∷ []));
    split = rw (owns.split, read) (simp append_assoc);
    good =
        grants db p d owns.events _ _ permitted (privileges-Privileges env.to_upper p.grants)
          owns.good set nothing;
  }

  -- The read alone, and the queries behind it.
  asked :
      (db : Handle) (user : DatabaseUser) (p : DatabasePermission) (r : Result Database)
      (u v : World)
      → v.log ≡ u.log ++ (get_database (key_in user p) r ∷ [])
      → Extends (Sent P (account_of env user)) u v
  asked db user p r u v read = record { events = _; split = read; good = quiet _ tt nothing }

  -- One round, behind the read of its database.
  grant_one_read :
      (db : Handle) (user : DatabaseUser) (p : DatabasePermission) (d : Database) (u v : World)
      → v.log ≡ u.log ++ (get_database (key_in user p) (ok d) ∷ [])
      → Listed (account_of env user) p
      → Extends (Sent P (account_of env user)) u (grant_one env db user p d v).1
  unfolding grant_one
  grant_one_read db user p d u v read permitted = go (database_mine env db d v).0 refl
    where
      after : World
      after = (database_mine env db d v).1

      quietly : Extends (Sent P (account_of env user)) u after
      quietly =
          Extends-trans (q user).trace (asked db user p (ok d) u v read)
            ((database_mine-Emits (q user) env db d).at v)

      go :
          (o : Outcome Bool)
          → (database_mine env db d v).0 ≡ o
          → Extends
              (Sent P (account_of env user))
              u
              (continue o
                (λ mine.
                  if mine && not (d.status.name == []) then granted env db user p d else pure tt)
                after).1
      go (done true) e = elim (Bool-cases (d.status.name == [])) [
        | inl empty ↦ rw empty quietly
        | inr set ↦ rw set (
            granted_owned db user p d u v after read (database_mine-OwnsDatabase env db d v e)
              permitted (λ s. ground (arith, ==_iff d.status.name [])))
      ]
      go (done false) e = quietly
      go panic e = quietly

  grant_each-Emits :
      (db : Handle) (user : DatabaseUser) (permissions : List DatabasePermission)
      → All (Listed (account_of env user)) permissions
      → Emits (Sent P (account_of env user)) (grant_each env db user permissions)
  unfolding grant_each
  grant_each-Emits db user [] h = Emits-pure (q user) none
  grant_each-Emits db user (p ∷ rest) (permitted, h) =
      let later = grant_each-Emits db user rest h in
      Moves-call _ _ _ (elim [
        | err e ↦ λ w. asked db user p (err e) w _ refl
        | ok d ↦ λ w.
            let v = logged (get_database (key_in user p) (ok d)) w in
            bind_from (Extends-IsPreorder (q user).trace) (grant_one env db user p d)
              (λ _. grant_each env db user rest) w v (grant_one_read db user p d w v refl permitted)
              (λ _. later)
      ])

  pub grant-SendsOn : (db : Handle) (user : DatabaseUser) → SendsOn user (grant env db user)
  unfolding grant with_database_list
  grant-SendsOn db user =
      Ensures-after (q user) _ _ (grant_each-Emits db user _ (members-Listed env user)) (elim [
        | some e ↦ Ensures-pure (q user) _ refl
        | none ↦
            SendsOn-account user (with_database_list user.spec.database_list user) refl
              (grant_status_update-SendsOn db _ false)
      ])

-- A statement of the phase `P`.
pub run-Emits :
    (P : Account → Bytes → Type 0) (env : Env) (a : Account) (db : Handle) (query : Bytes)
    → P a query
    → Emits (Sent P a) (run env db query)
unfolding run
run-Emits P env a db query h = Emits-call _ _ (λ reply. sends db query reply h nothing)

module _ (env : Env) where
  pub revoke-SendsOn :
      (db : Handle) (user : DatabaseUser) → SendsOn Managing env user (revoke env db user)
  unfolding revoke with_database_list revoke_query quoted_user
  revoke-SendsOn db user =
      Ensures-after (Sent-AdmitsQuiet Managing (account_of env user)) _ _
        (run-Emits Managing env (account_of env user) db _ revokes)
        (elim [
          | some e ↦ Ensures-pure (Sent-AdmitsQuiet Managing (account_of env user)) _ refl
          | none ↦
              grant_status_update-SendsOn Managing env db (with_database_list (some []) user) true
        ])
