-- ===== src/User/Controller/Progress.antt =====
-- The rounds of reconciliation that lead a `DatabaseUser` to the branch that provisions it.
pub mod Rounds
pub mod Examples
use mysql_dba_operator.Base.{
  ℕ, suc, zero, ◌≤◌, Bytes, Bool, true, false, not, ◌≡◌, ◌≢◌, ◌⊎◌, inl, inr, refl, sym, ◌∙◌, ap,
  subst, Option, none, some, List, [], ◌∷◌, ◌++◌, ◌==◌, ==_iff, Bool-cases, append_assoc, arith,
}
use mysql_dba_operator.Api.{ObjectMeta, Secret, DatabaseUser}
use mysql_dba_operator.Orm.{Handle}
use mysql_dba_operator.World.{
  Env, World, Log, Event, Error, Result, ok, update_user, update_user_status, update_secret,
  first_user,
}
use mysql_dba_operator.World.Exec.{Outcome, done, Exec, pure, call}
use mysql_dba_operator.World.Traces.{Extends, logged}
use mysql_dba_operator.Ownership.{named_user, claimed_names, user_exists, names_mine, user_mine}
use mysql_dba_operator.User.Details.{deref}
use mysql_dba_operator.User.Lifecycle.{with_username}
use mysql_dba_operator.User.Secrets.{owned_by, secret_ownership_ok, taken, take_secret}
use mysql_dba_operator.User.Controller.{
  user_finalizer, save_user, save_status, provision, finalized, owned, prepared, claims_name, named,
}

-- What the API server has.
pub record Stored : Type 0 where
  pub secret : Option Secret
  pub user : DatabaseUser

-- The same after a call: an update that is accepted replaces the object, but of a user it does not
-- touch the status, and an update of the status nothing else.
pub stored : Event → Stored → Stored
stored (update_user u none) r = record r { user = record u { status = r.user.status } }
stored (update_user_status u none) r = record r { user = record (r.user) { status = u.status } }
stored (update_secret s none) r = record r { secret = some s }
stored _ r = r

pub stored_all : Log → Stored → Stored
stored_all [] r = r
stored_all (e ∷ events) r = stored_all events (stored e r)

-- The secret names the user as its controller.
abbrev pub Belongs : Option Secret → Bytes → Type 0
Belongs none uid = Unit {0}
Belongs (some secret) uid = owned_by uid secret.meta.owner_references ≡ pure true

module _ (env : Env) where
  -- A secret that is nobody's, and that the user may take over.
  pub record Takes (secret : Secret) (uid : Bytes) : Type 0 where
    pub foreign : owned_by uid secret.meta.owner_references ≡ pure false
    pub takes :
        (user : DatabaseUser)
        → user.meta.uid ≡ uid
        → (s : Secret) × (env.set_controller_reference user secret ≡ ok s) × Belongs (some s) uid

  -- Every update is accepted, and the finalizer can be added.
  pub record Serves : Type 0 where
    pub accepts_user : (log : Log) (user : DatabaseUser) → env.update_user log user ≡ none
    pub accepts_status : (log : Log) (user : DatabaseUser) → env.update_user_status log user ≡ none
    pub accepts_secret : (log : Log) (secret : Secret) → env.update_secret log secret ≡ none
    pub adds :
        (meta : ObjectMeta)
        → env.contains_finalizer (env.add_finalizer meta user_finalizer) user_finalizer ≡ true
    pub keeps : (meta : ObjectMeta) → (env.add_finalizer meta user_finalizer).uid ≡ meta.uid

module _ (env : Env) (db : Handle) where
  -- From `r` it takes `n` rounds, each of which returns no error and whose updates the next one reads,
  -- until a round is the branch that provisions.
  abbrev pub Settles : ℕ → Stored → Type 0
  Settles zero r = (w : World) → named env r.secret db r.user w ≡ provision env r.secret db r.user w
  Settles (suc n) r =
      (w : World)
      → ((named env r.secret db r.user w).0 ≡ done none)
        × Extends (λ events. Settles n (stored_all events r)) w (named env r.secret db r.user w).1

  abbrev pub Within : ℕ → Stored → Type 0
  Within bound r = (n : ℕ) × (n ≤ bound) × Settles n r

  -- One round that saves something.
  pub round :
      (r r' : Stored) (n : ℕ)
      → ((w : World)
          → ((named env r.secret db r.user w).0 ≡ done none)
            × Extends (λ events. stored_all events r ≡ r') w (named env r.secret db r.user w).1)
      → Within n r'
      → Within (suc n) r
  round r r' n h (m, bound, rest) = (
    suc m,
    omega arith,
    λ w.
        let (e, x) = h w in
        (
          e,
          record { events = x.events; split = x.split; good = subst (Settles m) (sym x.good) rest },
        ),
  )

  -- A round that is one update, which is accepted.
  pub updating :
      (r r' : Stored) (n : ℕ) (reply : Log → Option Error) (event : Option Error → Event)
      → ((w : World) → named env r.secret db r.user w ≡ call reply event w)
      → ((log : Log) → reply log ≡ none)
      → stored (event none) r ≡ r'
      → Within n r'
      → Within (suc n) r
  unfolding call stored_all
  updating r r' n reply event run accepted result = round r r' n (λ w. rw (run w) (
    ap done (accepted w.log),
    record {
      events = event (reply w.log) ∷ [];
      split = refl;
      good = ap (λ e. stored (event e) r) (accepted w.log) ∙ result;
    },
  ))
