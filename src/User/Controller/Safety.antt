-- ===== src/User/Controller/Safety.antt =====
-- The statements that need the grounds: those behind `UserMine`, and `CREATE USER`.
pub mod Whole
use mysql_dba_operator.Base.{
  ℕ, Bytes, Bool, true, false, not, ◌≡◌, ◌⊎◌, inl, inr, refl, ap, ◌∙◌, Option, none, some, List, [],
  ◌∷◌, ◌++◌, append_assoc, ◌==◌, Option-cases, if◌then◌else◌,
}
use mysql_dba_operator.Api.{
  NamespacedName, OwnerReference, SecretKeySelector, SecretKeySource, Secret, Identification,
  DatabaseUser,
}
use mysql_dba_operator.Orm.{Handle, MySqlUser}
use mysql_dba_operator.Password.{generate_password}
use mysql_dba_operator.World.{
  Env, Log, Error, not_found, failure, Result, ok, err, World, first_user, get_user, update_secret,
}
use mysql_dba_operator.World.Exec.{
  Exec, Outcome, done, panic, pure, crash, continue, ◌>>=◌, call, look,
}
use mysql_dba_operator.World.Traces.{
  Quiet, Quiet-AdmitsQuiet, AdmitsQuiet, Extends, Extends-trans, Extends-IsPreorder, Emits,
  Emits-quiet, Emits-pure, Emits-crash, Emits-look, Emits-bind, Emits-if, logged,
}
use mysql_dba_operator.Ownership.{named_user, no_user, claimed_names, user_exists, user_mine}
use mysql_dba_operator.Ownership.Evidence.{OwnsUser, user_mine-OwnsUser}
use mysql_dba_operator.Ownership.Queries.{user_exists-Emits, user_mine-Emits}
use mysql_dba_operator.Connection.Statements.{get_secret_at-Emits}
use mysql_dba_operator.Acquire.{Connected, first_error, acquire, acquire-Emits}
use mysql_dba_operator.User.Statements.{
  Account, account_of, Creating, Managing, Sent, Sent-AdmitsQuiet, Setup,
}
use mysql_dba_operator.User.Safety.{
  UserSafe, idle, creates, manages, Setup-AdmitsQuiet, Setup-AdmitsSetup, Setup-then, Setup-alone,
  UserSafe-Setup, UserSafe-bind, UserSafe-bind_quiet, then_quiet, UserSafe-identified,
}
use mysql_dba_operator.User.Details.{refresh_user, with_plugin}
use mysql_dba_operator.User.Lifecycle.{user_create, user_update, finalize_user}
use mysql_dba_operator.User.Lifecycle.Sends.{
  user_create-Emits, user_update-Emits, finalize_user-Emits,
}
use mysql_dba_operator.User.Controller.{
  user_finalizer, released, unfinalized, save_user, save_status, deleted, unavailable, created,
  stamped, updated, checked_update, create_or_update, concluded, provision, finalized, owned,
  prepared, claims_name, named, present, handle, reconcile,
}
use mysql_dba_operator.User.Secrets.Calls.{
  secret_of-Emits, take_secret-Emits, secret_ownership_ok-Emits,
}
use mysql_dba_operator.User.Controller.Calls.{
  save_user-Emits, save_status-Emits, unavailable-Emits, stamped-Emits,
}

abbrev pub Safely : {A : Type 0} → Env → DatabaseUser → Exec A → Type 0
Safely env user m = Emits (UserSafe env user) m

module _ (env : Env) (user : DatabaseUser) where
  abbrev OwnedAt : Handle → World → World → Type 0
  OwnedAt db w v = Extends (OwnsUser db user) w v

  abbrev pub SafeStep : World → World → Type 0
  SafeStep w v = Extends (UserSafe env user) w v

  -- Statements directly behind the queries that show that the operator manages the user.
  owned_then :
      (db : Handle) (u v w : World)
      → OwnedAt db u v
      → Extends (Sent Managing (account_of env user)) v w
      → SafeStep u w
  owned_then db u v w shown after = record {
    events = shown.events ++ after.events;
    split = rw (after.split, shown.split) (append_assoc u.log shown.events after.events);
    good = manages [] db shown.events tt shown.good after.good;
  }

  -- A block that goes on from `UserMine`: with its answer true, what follows may manage the user.
  mine_bind :
      {B : Type 0} (db : Handle) (f : Bool → Exec B)
      → Emits (Sent Managing (account_of env user)) (f true)
      → Emits Setup (f false)
      → Safely env user (user_mine env db user >>= f)
  mine_bind {B} db f managed refused = record { at = λ w. go w (user_mine env db user w).0 refl }
    where
      after : World → World
      after w = (user_mine env db user w).1

      asked : (w : World) → Extends Setup w (after w)
      asked w = (user_mine-Emits Setup-AdmitsQuiet env db user).at w

      go :
          (w : World) (o : Outcome Bool)
          → (user_mine env db user w).0 ≡ o
          → SafeStep w (continue o f (after w)).1
      go w (done true) e =
          owned_then db w (after w) _ (user_mine-OwnsUser env db user w e) (managed.at (after w))
      go w (done false) e =
          Setup-alone (Extends-trans Setup-AdmitsQuiet.trace (asked w) (refused.at (after w)))
      go w panic e = Setup-alone (asked w)

  released-Safely : (connection : Option Connected) → Safely env user (released env connection user)
  unfolding released
  released-Safely none = UserSafe-Setup (Emits-crash Setup-AdmitsQuiet)
  released-Safely (some c) =
      mine_bind c.db _ (finalize_user-Emits env c.db user) (Emits-pure Setup-AdmitsQuiet none)

  pub deleted-Safely :
      (connection : Option Connected) → Safely env user (deleted env connection user)
  unfolding deleted
  deleted-Safely connection = go (env.contains_finalizer user.meta user_finalizer)
    where
      go :
          (b : Bool)
          → Safely env user (
              if b
              then released env connection user
                >>= elim [ some e ↦ pure (some e) | none ↦ save_user env (unfinalized env user) ]
              else pure none)
      go true = UserSafe-bind_quiet _ _ (released-Safely connection) (elim [
        | some e ↦ Emits-pure Quiet-AdmitsQuiet _
        | none ↦ save_user-Emits Quiet-AdmitsQuiet env _
      ])
      go false = UserSafe-Setup (Emits-pure Setup-AdmitsQuiet none)

  pub checked_update-Safely :
      (secret : Option Secret) (db : Handle) → Safely env user (checked_update env secret db user)
  unfolding checked_update updated
  checked_update-Safely secret db =
      mine_bind db _
        (Emits-bind (Sent-AdmitsQuiet Managing (account_of env user)) _ _
          (user_update-Emits env db secret user)
          (stamped-Emits (Sent-AdmitsQuiet Managing (account_of env user)) env))
        (Emits-pure Setup-AdmitsQuiet _)

  created-Emits :
      (secret : Option Secret) (db : Handle)
      → Emits (Sent Creating (account_of env user)) (created env secret db user)
  unfolding created
  created-Emits secret db =
      Emits-bind (Sent-AdmitsQuiet Creating (account_of env user)) _ _
        (user_create-Emits env db secret user)
        (λ (e, made).
          Emits-bind (Sent-AdmitsQuiet Creating (account_of env user)) _ _
            (Emits-look (Sent-AdmitsQuiet Creating (account_of env user)) _)
            (λ _. Emits-pure (Sent-AdmitsQuiet Creating (account_of env user)) _))

  -- `userCreate` behind the query that found no user.
  pub created_vacant :
      (secret : Option Secret) (db : Handle) (reply : Option MySqlUser) (u v : World)
      → v.log ≡ u.log ++ (first_user db user.status.username reply ∷ [])
      → named_user reply ≡ none
      → SafeStep u (created env secret db user v).1
  created_vacant secret db reply u v asked gone =
      let sent = (created-Emits secret db).at v in
      record {
        events = first_user db user.status.username reply ∷ sent.events;
        split =
            sent.split ∙ ap (λ l. l ++ sent.events) asked ∙ append_assoc u.log (_ ∷ []) sent.events;
        good = creates [] db reply tt gone sent.good;
      }
