-- ===== src/User/Controller/Progress/Rounds.antt =====
-- The rounds by the branch that each takes, and how many there are.
use mysql_dba_operator.Base.{
  ℕ, suc, zero, Bytes, Bool, true, false, ◌≡◌, ◌≢◌, ◌⊎◌, inl, inr, refl, sym, ◌∙◌, ap, subst,
  Option, none, some, [], ◌∷◌, ◌==◌, ==_iff, Bool-cases, append_assoc, arith,
}
use mysql_dba_operator.Api.{Secret, DatabaseUser}
use mysql_dba_operator.Orm.{Handle}
use mysql_dba_operator.World.{
  Env, World, Log, update_user, update_user_status, update_secret, first_user,
}
use mysql_dba_operator.World.Exec.{done, pure, call}
use mysql_dba_operator.World.Traces.{logged}
use mysql_dba_operator.Ownership.{named_user, claimed_names, user_exists, names_mine, user_mine}
use mysql_dba_operator.User.Details.{deref}
use mysql_dba_operator.User.Lifecycle.{with_username}
use mysql_dba_operator.User.Secrets.{secret_ownership_ok, taken, take_secret}
use mysql_dba_operator.User.Controller.{
  user_finalizer, save_user, save_status, finalized, owned, prepared, claims_name, named,
}
use mysql_dba_operator.User.Controller.Progress.{
  stored, stored_all, Belongs, Settles, Within, Takes, round, updating, Serves,
}

set_test : {name : Bytes} → name ≢ [] → name == [] ≡ false
set_test {name} h = ground (arith, ==_iff name [])

module _ (env : Env) (db : Handle) where
  module _ (secret : Option Secret) (user : DatabaseUser) where
    named-prepared :
        (w : World)
        → user.status.username ≢ []
        → named env secret db user w ≡ prepared env secret db user w
    unfolding named claims_name
    named-prepared w h = rw (set_test h) refl

    prepared-owned :
        (b : Bool) (w : World)
        → secret_ownership_ok secret user ≡ pure b
        → prepared env secret db user w ≡ owned env b secret db user w
    unfolding prepared
    prepared-owned b w h = rw h refl

    belongs : Belongs secret user.meta.uid → secret_ownership_ok secret user ≡ pure true
    unfolding secret_ownership_ok
    belongs h = go secret h
      where
        go : (s : Option Secret) → Belongs s user.meta.uid → secret_ownership_ok s user ≡ pure true
        go none h = refl
        go (some s) h = h

    -- With the name, the secret and the finalizer in place.
    settled :
        user.status.username ≢ []
        → Belongs secret user.meta.uid
        → env.contains_finalizer user.meta user_finalizer ≡ true
        → Settles env db zero (record { secret = secret; user = user })
    unfolding owned
    settled named_ owns held w =
        named-prepared w named_
        ∙ prepared-owned true w (belongs owns)
        ∙ rw (held, set_test named_) refl

  module _ (serves : Serves env) where
    finalizing :
        (secret : Option Secret) (user : DatabaseUser)
        → user.status.username ≢ []
        → Belongs secret user.meta.uid
        → Within env db 1 (record { secret = secret; user = user })
    unfolding owned save_user finalized stored
    finalizing secret user named_ owns =
        elim (Bool-cases (env.contains_finalizer user.meta user_finalizer)) [
          | inl held ↦ (0, omega arith, settled secret user named_ owns held)
          | inr bare ↦
              updating env db (record { secret = secret; user = user })
                (record { secret = secret; user = finalized env user }) 0
                (λ log. env.update_user log (finalized env user)) (update_user (finalized env user))
                (λ w.
                  named-prepared secret user w named_
                  ∙ prepared-owned secret user true w (belongs secret user owns)
                  ∙ rw (bare) refl)
                (λ log. serves.accepts_user log (finalized env user)) refl
                (
                  0,
                  omega arith,
                  settled secret (finalized env user) named_
                      (subst (Belongs secret) (sym (serves.keeps user.meta)) owns)
                      (serves.adds user.meta),
                )
        ]

    taking :
        (secret : Secret) (user : DatabaseUser)
        → user.status.username ≢ []
        → Takes env secret user.meta.uid
        → Within env db 2 (record { secret = some secret; user = user })
    unfolding owned take_secret taken deref secret_ownership_ok stored
    taking secret user named_ t =
        let (s, adopted, owns) = t.takes user refl in
        updating env db _ (record { secret = some s; user = user }) 1
          (λ log. env.update_secret log s) (update_secret s)
          (λ w.
            named-prepared (some secret) user w named_
            ∙ prepared-owned (some secret) user false w t.foreign
            ∙ rw (adopted, taken) refl)
          (λ log. serves.accepts_secret log s) refl (finalizing (some s) user named_ owns)

    -- Nobody has the wanted name on the server.
    abbrev pub Free : DatabaseUser → Type 0
    Free user = (log : Log) → named_user (env.first_user log db user.spec.username) ≡ none

    unset_test : (name : Bytes) → name ≡ [] → name == [] ≡ true
    unset_test name h = (==_iff name []).1 h

    claimed_one :
        (user : DatabaseUser)
        → user.status.username ≡ []
        → claimed_names user ≡ user.spec.username ∷ []
    unfolding claimed_names
    claimed_one user h = ground (arith, unset_test user.status.username h)

    Free-user_mine :
        (user : DatabaseUser) (w : World)
        → user.status.username ≡ []
        → Free user
        → user_mine env db user w ≡ (
          done true,
          logged (first_user db user.spec.username (env.first_user w.log db user.spec.username)) w,
        )
    unfolding user_mine names_mine user_exists call
    Free-user_mine user w unset free = rw (claimed_one user unset, free w.log) refl

    claims_name_unset :
        (user : DatabaseUser) (w : World)
        → user.status.username ≡ []
        → claims_name env db user w ≡ user_mine env db user w
    unfolding claims_name
    claims_name_unset user w unset = rw (unset_test user.status.username unset) refl

    -- The run that gives the user its name.
    naming_run :
        (secret : Option Secret) (user : DatabaseUser) (w : World)
        → user.status.username ≡ []
        → Free user
        → named env secret db user w
          ≡ save_status env (with_username user.spec.username user) (
              logged
                (first_user db user.spec.username (env.first_user w.log db user.spec.username))
                w)
    unfolding named
    naming_run secret user w unset free =
        rw (claims_name_unset user w unset, Free-user_mine user w unset free) refl

    naming :
        (k : ℕ) (secret : Option Secret) (user : DatabaseUser)
        → user.status.username ≡ []
        → Free user
        → Within env db k (record { secret = secret; user = with_username user.spec.username user })
        → Within env db (suc k) (record { secret = secret; user = user })
    unfolding save_status stored stored_all call with_username
    naming k secret user unset free =
        let named_user_ = with_username user.spec.username user in
        round env db (record { secret = secret; user = user })
          (record { secret = secret; user = named_user_ }) k
          (λ w. rw (naming_run secret user w unset free) (
            ap done (serves.accepts_status _ named_user_),
            record {
              events =
                  first_user db user.spec.username (env.first_user w.log db user.spec.username)
                  ∷ update_user_status named_user_ (env.update_user_status _ named_user_)
                  ∷ [];
              split = append_assoc w.log _ _;
              good =
                  ap
                    (λ e.
                      stored (update_user_status named_user_ e)
                        (record { secret = secret; user = user }))
                    (serves.accepts_status _ named_user_);
            },
          ))

    finalizing_or_taking :
        (secret : Option Secret) (user : DatabaseUser)
        → user.status.username ≢ []
        → Belongs secret user.meta.uid
          ⊎ ((s : Secret) × (secret ≡ some s) × Takes env s user.meta.uid)
        → Within env db 2 (record { secret = secret; user = user })
    finalizing_or_taking secret user named_ (inl owns) =
        let (n, bound, rest) = finalizing secret user named_ owns in (n, omega arith, rest)
    finalizing_or_taking secret user named_ (inr (s, e, t)) = rw (e) (taking s user named_ t)

    -- Let the API server accept every update and show it to the next round, let the finalizer be one
    -- that can be added, let the user have a name or want one, which is not empty and which nobody has on
    -- the server, and let the secret be the user's, or nobody's and free to be taken over. Then at most
    -- three rounds of the branch of `Reconcile` with a connection, none of which returns an error, lead
    -- to a round that provisions the user.
    pub named-Within :
        (secret : Option Secret) (user : DatabaseUser)
        → (user.status.username ≢ []) ⊎ ((user.spec.username ≢ []) × Free user)
        → Belongs secret user.meta.uid
          ⊎ ((s : Secret) × (secret ≡ some s) × Takes env s user.meta.uid)
        → Within env db 3 (record { secret = secret; user = user })
    unfolding with_username
    named-Within secret user (inl named_) owns =
        let (n, bound, rest) = finalizing_or_taking secret user named_ owns in
        (n, omega arith, rest)
    named-Within secret user (inr (wanted, free)) owns =
        elim (Bool-cases (user.status.username == [])) [
          | inl unset ↦
              naming 2 secret user ((==_iff _ _).0 unset) free
                (finalizing_or_taking secret (with_username user.spec.username user) wanted owns)
          | inr set ↦
              let (n, bound, rest) =
                finalizing_or_taking secret user (λ e. cc (unset_test user.status.username e))
                  owns in
              (n, omega arith, rest)
        ]
