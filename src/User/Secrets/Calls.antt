-- ===== src/User/Secrets/Calls.antt =====
-- The functions on the secret send no statement.
use mysql_dba_operator.Base.{Bytes, Bool, true, false, Option, none, some, List, [], ◌∷◌, ◌==◌}
use mysql_dba_operator.Api.{OwnerReference, SecretKeySelector, Secret, DatabaseUser}
use mysql_dba_operator.World.{Env, Log, not_found, failure, Result, ok, err, update_secret}
use mysql_dba_operator.World.Exec.{pure, crash, call}
use mysql_dba_operator.World.Traces.{
  AdmitsQuiet, Emits, Emits-quiet, Emits-pure, Emits-crash, Emits-look, Emits-bind, Emits-if,
}
use mysql_dba_operator.Connection.Statements.{get_secret_at-Emits}
use mysql_dba_operator.User.Details.{deref}
use mysql_dba_operator.User.Secrets.{
  owned_by, secret_ownership_ok, create_secret_for, fetched, selected, secret_of, taken,
  take_secret,
}

module _ {T : Log → Type 0} (s : AdmitsQuiet T) (env : Env) where
  create_secret_for-Emits :
      (namespace : Bytes) (selector : SecretKeySelector)
      → Emits T (create_secret_for env namespace selector)
  unfolding create_secret_for
  create_secret_for-Emits namespace selector =
      Emits-bind s _ _ (Emits-look s _)
        (elim [ none ↦ Emits-crash s | some p ↦ Emits-quiet s _ _ (λ _. tt) ])

  fetched-Emits :
      (namespace : Bytes) (selector : SecretKeySelector) (r : Result Secret)
      → Emits T (fetched env namespace selector r)
  unfolding fetched
  fetched-Emits namespace selector (ok secret) = Emits-pure s _
  fetched-Emits namespace selector (err (failure e)) = Emits-pure s _
  fetched-Emits namespace selector (err not_found) =
      Emits-bind s _ _ (create_secret_for-Emits namespace selector)
        (elim [ err e ↦ Emits-pure s _ | ok secret ↦ Emits-pure s _ ])

  selected-Emits :
      (namespace : Bytes) (selector : Option SecretKeySelector)
      → Emits T (selected env namespace selector)
  unfolding selected
  selected-Emits namespace none = Emits-pure s _
  selected-Emits namespace (some selector) =
      Emits-bind s _ _ (get_secret_at-Emits s env namespace selector)
        (λ r. fetched-Emits namespace selector r)

  pub secret_of-Emits : (user : DatabaseUser) → Emits T (secret_of env user)
  unfolding secret_of
  secret_of-Emits user = selected-Emits _ _

  taken-Emits : (secret : Secret) (user : DatabaseUser) → Emits T (taken env secret user)
  unfolding taken
  taken-Emits secret user = go (env.set_controller_reference user secret)
    where
      go :
          (r : Result Secret)
          → Emits T (elim r [
            | err e ↦ pure (some e)
            | ok o ↦ call (λ log. env.update_secret log o) (update_secret o)
          ])
      go (err e) = Emits-pure s _
      go (ok o) = Emits-quiet s _ _ (λ _. tt)

  pub take_secret-Emits :
      (secret : Option Secret) (user : DatabaseUser) → Emits T (take_secret env secret user)
  unfolding take_secret deref
  take_secret-Emits none user = Emits-crash s
  take_secret-Emits (some secret) user = taken-Emits secret user

module _ {T : Log → Type 0} (s : AdmitsQuiet T) where
  owned_by-Emits : (uid : Bytes) (owners : List OwnerReference) → Emits T (owned_by uid owners)
  unfolding owned_by
  owned_by-Emits uid [] = Emits-pure s false
  owned_by-Emits uid (owner ∷ rest) =
      let later = owned_by-Emits uid rest in
      Emits-if s (owner.uid == uid) _ _ (go later owner.controller) later
    where
      go :
          Emits T (owned_by uid rest)
          → (c : Option Bool)
          → Emits T {A = Bool}
              (elim c [ none ↦ crash | some true ↦ pure true | some false ↦ owned_by uid rest ])
      go later none = Emits-crash s
      go later (some true) = Emits-pure s true
      go later (some false) = later

  pub secret_ownership_ok-Emits :
      (secret : Option Secret) (user : DatabaseUser) → Emits T (secret_ownership_ok secret user)
  unfolding secret_ownership_ok
  secret_ownership_ok-Emits none user = Emits-pure s true
  secret_ownership_ok-Emits (some secret) user = owned_by-Emits _ _
