-- ===== src/User/Controller/Returns.antt =====
-- When a reconciliation of a `DatabaseUser` that is not deleted returns.
use mysql_dba_operator.Base.{
  ℕ, Bool, true, false, ◌≡◌, ◌≢◌, refl, ◌∙◌, ap, subst, Option, none, some,
}
use mysql_dba_operator.Api.{NamespacedName, Secret, Identification, DatabaseUserSpec, DatabaseUser}
use mysql_dba_operator.Orm.{Handle}
use mysql_dba_operator.World.{Env, World, Error, Result, ok, err, get_user}
use mysql_dba_operator.World.Exec.{done, pure, call}
use mysql_dba_operator.World.Traces.{logged}
use mysql_dba_operator.World.Total.{Returns-bind, Total, Total-pure, Total-bind, Total-if, returns}
use mysql_dba_operator.Ownership.Returns.{user_mine-Total}
use mysql_dba_operator.Acquire.{Connected}
use mysql_dba_operator.Acquire.Returns.{acquire-Total}
use mysql_dba_operator.User.Details.Returns.{HasSecret, refresh_user-Returns}
use mysql_dba_operator.User.Lifecycle.Returns.{user_create-Total, user_update-Total}
use mysql_dba_operator.User.Secrets.{secret_ownership_ok, selector_of}
use mysql_dba_operator.User.Secrets.Returns.{
  SaysController, Benign, Fetched, secret_ownership_ok-Total, secret_of-Returns, take_secret-Total,
  selector_of-none,
}
use mysql_dba_operator.User.Controller.{
  save_user, save_status, unavailable, created, stamped, updated, checked_update, create_or_update,
  concluded, provision, owned, prepared, claims_name, named, deleted, present, handle, reconcile,
}

module _ (env : Env) where
  save_user-Total : (user : DatabaseUser) → Total (save_user env user)
  unfolding save_user
  save_user-Total user = search returns

  save_status-Total : (user : DatabaseUser) → Total (save_status env user)
  unfolding save_status
  save_status-Total user = search returns

  stamped-Total : (o : Bool × Option Error × DatabaseUser) → Total (stamped env o)
  unfolding stamped
  stamped-Total (false, e, user) = search returns
  stamped-Total (true, e, user) = search returns

  create_or_update-Total :
      (exists : Bool) (secret : Option Secret) (db : Handle) (user : DatabaseUser)
      → HasSecret secret user
      → Total (create_or_update env exists secret db user)
  unfolding create_or_update checked_update updated created
  create_or_update-Total true secret db user has =
      Total-bind _ _ (user_mine-Total env db user) (λ mine.
        Total-if mine _ _
          (Total-bind _ _ (user_update-Total env secret db user has) (λ o. stamped-Total o))
          (search returns))
  create_or_update-Total false secret db user has =
      Total-bind _ _ (user_create-Total env secret db user has) (λ _. search returns)

  concluded-Total : (o : Option Error × DatabaseUser) → Total (concluded env o)
  unfolding concluded
  concluded-Total (some e, final) = search returns
  concluded-Total (none, final) = search (returns, save_status-Total)

  HasSecret-spec :
      (secret : Option Secret) (user other : DatabaseUser)
      → other.spec ≡ user.spec
      → HasSecret secret user
      → HasSecret secret other
  HasSecret-spec none user other e h = ap (λ (s : DatabaseUserSpec). s.identification) e ∙ h
  HasSecret-spec (some s) user other e h = tt

  provision-Total :
      (secret : Option Secret) (db : Handle) (user : DatabaseUser)
      → HasSecret secret user
      → Total (provision env secret db user)
  unfolding provision
  provision-Total secret db user has =
      Returns-bind _ _ (refresh_user-Returns env db user) (λ (exists, found) same.
        Total-bind _ _
          (create_or_update-Total exists secret db found
            (HasSecret-spec secret user found same has))
          (λ o. concluded-Total o))

  owned-true-Total :
      (secret : Option Secret) (db : Handle) (user : DatabaseUser)
      → HasSecret secret user
      → Total (owned env true secret db user)
  unfolding owned
  owned-true-Total secret db user has =
      Total-if _ _ _ (save_user-Total _)
        (Total-if _ _ _ (provision-Total secret db user has) (save_status-Total _))

  owned-some-Total :
      (b : Bool) (secret : Secret) (db : Handle) (user : DatabaseUser)
      → Total (owned env b (some secret) db user)
  unfolding owned
  owned-some-Total true secret db user = owned-true-Total (some secret) db user tt
  owned-some-Total false secret db user = take_secret-Total env secret user

  prepared-Total :
      (secret : Option Secret) (db : Handle) (user : DatabaseUser)
      → HasSecret secret user
      → ((s : Secret) → secret ≡ some s → SaysController s)
      → Total (prepared env secret db user)
  unfolding prepared secret_ownership_ok
  prepared-Total none db user has says = record { at = (owned-true-Total none db user has).at }
  prepared-Total (some s) db user has says =
      Total-bind _ _ (secret_ownership_ok-Total s user (says s refl))
        (λ b. owned-some-Total b s db user)

  named-Total :
      (secret : Option Secret) (db : Handle) (user : DatabaseUser)
      → HasSecret secret user
      → ((s : Secret) → secret ≡ some s → SaysController s)
      → Total (named env secret db user)
  unfolding named claims_name
  named-Total secret db user has says =
      Total-bind _ _ (Total-if _ _ _ (user_mine-Total env db user) (Total-pure false)) (λ claims.
        Total-if claims _ _ (save_status-Total _) (prepared-Total secret db user has says))

  -- An identification has a password.
  abbrev pub WellIdentified : DatabaseUser → Type 0
  WellIdentified user =
      (i : Identification) → user.spec.identification ≡ some i → i.auth_string ≢ none

  module _ (benign : Benign env) (user : DatabaseUser) (identified : WellIdentified user) where
    named-Fetched :
        (db : Handle) (r : Result (Option Secret))
        → Fetched (selector_of env user.spec.identification) r
        → Total (elim r [ err e ↦ pure (some e) | ok s ↦ named env s db user ])
    named-Fetched db (err e) h = Total-pure (some e)
    named-Fetched db (ok none) h =
        named-Total none db user (selector_of-none env user.spec.identification identified h)
          (λ s e. absurd (none-ne_some e))
      where
        none-ne_some : {s : Secret} → none ≢ some s
        none-ne_some e = cc
    named-Fetched db (ok (some s)) h =
        named-Total (some s) db user tt (λ t e. subst SaysController (some_injective e) h)
      where
        some_injective : {s t : Secret} → some s ≡ some t → s ≡ t
        some_injective e = cc

    present-Total :
        (connection : Option Connected) (e : Option Error) → Total (present env connection e user)
    unfolding present unavailable
    present-Total none e = search (returns, save_status-Total)
    present-Total (some c) e =
        Returns-bind _ _ (secret_of-Returns env benign user) (λ r h. named-Fetched c.db r h)

    handle-Total : user.meta.deletion_timestamp ≡ none → Total (handle env user)
    unfolding handle
    handle-Total kept =
        Total-bind _ _ (acquire-Total env _ _)
          (λ (connection, e). go user.meta.deletion_timestamp kept connection e)
      where
        go :
            (time : Option ℕ)
            → time ≡ none
            → (connection : Option Connected) (e : Option Error)
            → Total (elim time [
              | some t ↦ deleted env connection user
              | none ↦ present env connection e user
            ])
        go none h connection e = present-Total connection e
        go (some t) h connection e = cc

    -- A reconciliation returns, without a panic, whatever fails, if the resource could be read, is not
    -- marked deleted and has a password wherever it has an identification; if every owner of a secret
    -- that is read or made says whether it is the controller; and if the random source keeps to its
    -- bounds.
    pub reconcile_returns :
        (request : NamespacedName) (w : World)
        → env.get_user w.log request ≡ ok user
        → user.meta.deletion_timestamp ≡ none
        → (result : Option Error) × ((reconcile env request w).0 ≡ done result)
    unfolding reconcile call
    reconcile_returns request w found kept =
        let (result, e, _) = (handle-Total kept).at (logged (get_user request (ok user)) w) in
        rw (found, call) (result, e)
