-- ===== src/User/Secrets/Returns.antt =====
-- The functions on the secret of a user return, where the owners of each secret that is read say whether
-- they are its controller, and the random source keeps to its bounds.
use mysql_dba_operator.Base.{
  ℕ, ◌<◌, Bytes, Bool, true, false, ◌==◌, ◌≡◌, ◌≢◌, refl, All, Option, none, some, List, [], ◌∷◌,
  arith,
}
use mysql_dba_operator.Api.{
  NamespacedName, OwnerReference, SecretKeySelector, SecretKeySource, Secret, Identification,
  DatabaseUser,
}
use mysql_dba_operator.World.{Env, Log, Result, not_found, failure, ok, err, update_secret}
use mysql_dba_operator.World.Exec.{pure, crash, call, look}
use mysql_dba_operator.World.Total.{
  Returns, Returns-pure, Returns-bind, Total, Total-pure, Total-if, returns,
}
use mysql_dba_operator.Password.{generate_password}
use mysql_dba_operator.Password.Laws.{generate_password-IsPassword}
use mysql_dba_operator.Connection.{get_secret_at}
use mysql_dba_operator.User.Details.{deref}
use mysql_dba_operator.User.Secrets.{
  owned_by, secret_ownership_ok, new_secret, create_secret_for, fetched, selected, selector_of,
  secret_of, taken, take_secret,
}

-- Every owner says whether it is the controller.
abbrev pub SaysController : Secret → Type 0
SaysController s = All (λ (o : OwnerReference). o.controller ≢ none) s.meta.owner_references

-- What the reconciliation relies on so as not to panic.
pub record Benign (env : Env) : Type 0 where
  pub read_says :
      (log : Log) (name : NamespacedName) (s : Secret)
      → env.get_secret log name ≡ ok s
      → SaysController s
  pub created_says :
      (log : Log) (wanted s : Secret)
      → wanted.meta.owner_references ≡ []
      → env.create_secret log wanted ≡ ok s
      → SaysController s
  pub draws : (log : Log) (at bound : ℕ) → 0 < bound → env.draw log at bound < bound

owned_by-Total :
    (uid : Bytes) (owners : List OwnerReference)
    → All (λ (o : OwnerReference). o.controller ≢ none) owners
    → Total (owned_by uid owners)
unfolding owned_by
owned_by-Total uid [] h = Total-pure false
owned_by-Total uid (owner ∷ rest) (says, h) =
    let later = owned_by-Total uid rest h in
    Total-if (owner.uid == uid) _ _ (go later owner.controller says) later
  where
    go :
        Total (owned_by uid rest)
        → (controller : Option Bool) → controller ≢ none
        → Total {A = Bool} (elim controller [
          | none ↦ crash
          | some true ↦ pure true
          | some false ↦ owned_by uid rest
        ])
    go later none says = absurd (says refl)
    go later (some true) says = Total-pure true
    go later (some false) says = later

pub secret_ownership_ok-Total :
    (secret : Secret) (user : DatabaseUser)
    → SaysController secret
    → Total (secret_ownership_ok (some secret) user)
unfolding secret_ownership_ok
secret_ownership_ok-Total secret user h = owned_by-Total _ _ h

-- A result without a secret is one where none is selected, and a secret names its controller.
abbrev pub Fetched : Option SecretKeySelector → Result (Option Secret) → Type 0
Fetched selector (err e) = Unit {0}
Fetched selector (ok none) = selector ≡ none
Fetched selector (ok (some s)) = SaysController s

module _ (env : Env) (benign : Benign env) where
  call-Says :
      (reply : Log → Result Secret) (event : Result Secret → _)
      → ((log : Log) (s : Secret) → reply log ≡ ok s → SaysController s)
      → Returns (λ r. (s : Secret) → r ≡ ok s → SaysController s) (call reply event)
  unfolding call
  call-Says reply event h = record { at = λ w. (reply w.log, refl, h w.log) }

  get_secret_at-Says :
      (namespace : Bytes) (selector : SecretKeySelector)
      → Returns
          (λ r. (s : Secret) → r ≡ ok s → SaysController s)
          (get_secret_at env namespace selector)
  unfolding get_secret_at
  get_secret_at-Says namespace selector = call-Says _ _ (λ log s e. benign.read_says log _ s e)

  -- A password is drawn.
  drawn-Returns :
      Returns
        (λ p. (s : Bytes) × (p ≡ some s))
        (look (λ log. generate_password (env.draw log) 24 1 1 1))
  unfolding look
  drawn-Returns = record {
    at = λ w.
        let (s, e, _) =
          generate_password-IsPassword (env.draw w.log) (benign.draws w.log) 24 1 1 1
            (omega arith) in
        (generate_password (env.draw w.log) 24 1 1 1, refl, (s, e));
  }

  create_secret_for-Says :
      (namespace : Bytes) (selector : SecretKeySelector)
      → Returns
          (λ r. (s : Secret) → r ≡ ok s → SaysController s)
          (create_secret_for env namespace selector)
  unfolding create_secret_for new_secret
  create_secret_for-Says namespace selector = Returns-bind _ _ drawn-Returns (elim [
    | none ↦ λ (s, e). cc
    | some p ↦ λ _. call-Says _ _ (λ log s e. benign.created_says log _ s refl e)
  ])

  fetched-Returns :
      (namespace : Bytes) (selector : SecretKeySelector) (r : Result Secret)
      → ((s : Secret) → r ≡ ok s → SaysController s)
      → Returns (Fetched (some selector)) (fetched env namespace selector r)
  unfolding fetched
  fetched-Returns namespace selector (ok secret) h = Returns-pure (ok (some secret)) (h secret refl)
  fetched-Returns namespace selector (err (failure e)) h = Returns-pure (err (failure e)) tt
  fetched-Returns namespace selector (err not_found) h =
      Returns-bind _ _ (create_secret_for-Says namespace selector) (elim [
        | err e ↦ λ _. Returns-pure (err e) tt
        | ok secret ↦ λ says. Returns-pure (ok (some secret)) (says secret refl)
      ])

  selected-Returns :
      (namespace : Bytes) (selector : Option SecretKeySelector)
      → Returns (Fetched selector) (selected env namespace selector)
  unfolding selected
  selected-Returns namespace none = Returns-pure (ok none) refl
  selected-Returns namespace (some selector) =
      Returns-bind _ _ (get_secret_at-Says namespace selector)
        (λ r h. fetched-Returns namespace selector r h)

  pub secret_of-Returns :
      (user : DatabaseUser)
      → Returns (Fetched (selector_of env user.spec.identification)) (secret_of env user)
  unfolding secret_of
  secret_of-Returns user = selected-Returns _ _

module _ (env : Env) where
  taken-Total : (secret : Secret) (user : DatabaseUser) → Total (taken env secret user)
  unfolding taken
  taken-Total secret user = go (env.set_controller_reference user secret)
    where
      go :
          (r : Result Secret)
          → Total (elim r [
            | err e ↦ pure (some e)
            | ok o ↦ call (λ log. env.update_secret log o) (update_secret o)
          ])
      go (err e) = search returns
      go (ok o) = search returns

  pub take_secret-Total :
      (secret : Secret) (user : DatabaseUser) → Total (take_secret env (some secret) user)
  unfolding take_secret deref
  take_secret-Total secret user = taken-Total secret user

  -- No password is selected only where there is no identification, for an identification with one.
  pub selector_of-none :
      (i : Option Identification)
      → ((j : Identification) → i ≡ some j → j.auth_string ≢ none)
      → selector_of env i ≡ none
      → i ≡ none
  unfolding selector_of
  selector_of-none none h e = refl
  selector_of-none (some j) h e = go j.auth_string (h j refl) e
    where
      go :
          (a : Option SecretKeySource)
          → a ≢ none
          → (elim a [ none ↦ none | some source ↦ some source.secret_key_ref ]) ≡ none
          → some j ≡ none
      go none h e = absurd (h refl)
      go (some s) h e = cc
