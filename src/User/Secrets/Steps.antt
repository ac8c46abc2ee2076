-- ===== src/User/Secrets/Steps.antt =====
-- The functions on the secret of a user do nothing but calls.
use mysql_dba_operator.Base.{Bytes, Bool, true, false, Option, none, some, List, [], ◌∷◌, ◌==◌}
use mysql_dba_operator.Api.{OwnerReference, SecretKeySelector, Secret, DatabaseUser}
use mysql_dba_operator.World.{Env, World, Result, not_found, failure, ok, err, update_secret}
use mysql_dba_operator.World.Exec.{pure, crash, call}
use mysql_dba_operator.World.Traces.{Moves}
use mysql_dba_operator.World.Steps.{
  AdmitsCalls, Steps-pure, Steps-crash, Steps-look, Steps-bind, Steps-if, steps,
}
use mysql_dba_operator.Connection.Steps.{get_secret_at-Steps}
use mysql_dba_operator.User.Details.{deref}
use mysql_dba_operator.User.Secrets.{
  owned_by, secret_ownership_ok, create_secret_for, fetched, selected, secret_of, taken,
  take_secret,
}

module _ {R : World → World → Type 0} (c : AdmitsCalls R) where
  owned_by-Steps : (uid : Bytes) (owners : List OwnerReference) → Moves R (owned_by uid owners)
  unfolding owned_by
  owned_by-Steps uid [] = Steps-pure c false
  owned_by-Steps uid (owner ∷ rest) =
      let later = owned_by-Steps uid rest in
      Steps-if c (owner.uid == uid) _ _ (go later owner.controller) later
    where
      go :
          Moves R (owned_by uid rest)
          → (controller : Option Bool)
          → Moves R {A = Bool} (elim controller [
            | none ↦ crash
            | some true ↦ pure true
            | some false ↦ owned_by uid rest
          ])
      go later none = Steps-crash c
      go later (some true) = Steps-pure c true
      go later (some false) = later

  pub secret_ownership_ok-Steps :
      (secret : Option Secret) (user : DatabaseUser) → Moves R (secret_ownership_ok secret user)
  unfolding secret_ownership_ok
  secret_ownership_ok-Steps none user = Steps-pure c true
  secret_ownership_ok-Steps (some secret) user = owned_by-Steps _ _

module _ {R : World → World → Type 0} (c : AdmitsCalls R) (env : Env) where
  create_secret_for-Steps :
      (namespace : Bytes) (selector : SecretKeySelector)
      → Moves R (create_secret_for env namespace selector)
  unfolding create_secret_for
  create_secret_for-Steps namespace selector =
      Steps-bind c _ _ (Steps-look c _)
        (elim [ none ↦ search (steps, c) | some p ↦ search (steps, c) ])

  fetched-Steps :
      (namespace : Bytes) (selector : SecretKeySelector) (r : Result Secret)
      → Moves R (fetched env namespace selector r)
  unfolding fetched
  fetched-Steps namespace selector (ok secret) = search (steps, c)
  fetched-Steps namespace selector (err (failure e)) = search (steps, c)
  fetched-Steps namespace selector (err not_found) =
      Steps-bind c _ _ (create_secret_for-Steps namespace selector)
        (elim [ err e ↦ search (steps, c) | ok secret ↦ search (steps, c) ])

  selected-Steps :
      (namespace : Bytes) (selector : Option SecretKeySelector)
      → Moves R (selected env namespace selector)
  unfolding selected
  selected-Steps namespace none = search (steps, c)
  selected-Steps namespace (some selector) = search (steps, c, get_secret_at-Steps, fetched-Steps)

  pub secret_of-Steps : (user : DatabaseUser) → Moves R (secret_of env user)
  unfolding secret_of
  secret_of-Steps user = selected-Steps _ _

  taken-Steps : (secret : Secret) (user : DatabaseUser) → Moves R (taken env secret user)
  unfolding taken
  taken-Steps secret user = go (env.set_controller_reference user secret)
    where
      go :
          (r : Result Secret)
          → Moves R (elim r [
            | err e ↦ pure (some e)
            | ok o ↦ call (λ log. env.update_secret log o) (update_secret o)
          ])
      go (err e) = search (steps, c)
      go (ok o) = search (steps, c)

  pub take_secret-Steps :
      (secret : Option Secret) (user : DatabaseUser) → Moves R (take_secret env secret user)
  unfolding take_secret deref
  take_secret-Steps none user = Steps-crash c
  take_secret-Steps (some secret) user = taken-Steps secret user
