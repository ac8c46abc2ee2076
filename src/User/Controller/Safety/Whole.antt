-- ===== src/User/Controller/Safety/Whole.antt =====
-- A whole reconciliation of a `DatabaseUser` is safe.
use mysql_dba_operator.Base.{
  ◌∷◌, ◌∙◌, append_assoc, ℕ, Bool, true, false, not, ◌≡◌, ◌⊎◌, inl, inr, refl, Option, none, some,
  [], ◌==◌, Option-cases, if◌then◌else◌,
}
use mysql_dba_operator.Api.{NamespacedName, Secret, DatabaseUser}
use mysql_dba_operator.Orm.{Handle, MySqlUser}
use mysql_dba_operator.World.{
  Env, Error, not_found, failure, Log, ok, err, World, first_user, get_user,
}
use mysql_dba_operator.World.Exec.{Exec, Outcome, done, panic, continue, ◌>>=◌, call}
use mysql_dba_operator.World.Traces.{
  AdmitsQuiet, Quiet, Quiet-AdmitsQuiet, Extends, Emits, Emits-pure, Emits-bind, Emits-if, logged,
}
use mysql_dba_operator.Ownership.{named_user, user_exists}
use mysql_dba_operator.Ownership.Queries.{user_mine-Emits}
use mysql_dba_operator.Acquire.{Connected, acquire-Emits}
use mysql_dba_operator.User.Statements.{Setup}
use mysql_dba_operator.User.Safety.{
  UserSafe, Setup-AdmitsQuiet, Setup-AdmitsSetup, Setup-then, UserSafe-Setup, UserSafe-bind,
  then_quiet, UserSafe-identified,
}
use mysql_dba_operator.User.Details.{refresh_user, with_plugin}
use mysql_dba_operator.User.Controller.{
  user_finalizer, save_status, deleted, created, checked_update, create_or_update, concluded,
  provision, owned, prepared, claims_name, named, present, handle, reconcile,
}
use mysql_dba_operator.User.Secrets.Calls.{
  secret_of-Emits, take_secret-Emits, secret_ownership_ok-Emits,
}
use mysql_dba_operator.User.Controller.Calls.{save_user-Emits, save_status-Emits, unavailable-Emits}
use mysql_dba_operator.User.Controller.Safety.{
  Safely, SafeStep, deleted-Safely, checked_update-Safely, created_vacant,
}

module _ (env : Env) (user : DatabaseUser) where
  concluded-Emits : (outcome : Option Error × DatabaseUser) → Emits Quiet (concluded env outcome)
  unfolding concluded
  concluded-Emits (some e, final) = Emits-pure Quiet-AdmitsQuiet none
  concluded-Emits (none, final) =
      Emits-bind Quiet-AdmitsQuiet _ _ (save_status-Emits Quiet-AdmitsQuiet env final)
        (λ _. Emits-pure Quiet-AdmitsQuiet none)

  -- The end of `provision`, from a world behind the query for the user.
  then_concluded :
      (m : Exec (Option Error × DatabaseUser)) (u v : World)
      → SafeStep env user u (m v).1
      → SafeStep env user u ((m >>= concluded env) v).1
  then_concluded m u v first = go (m v).0 (m v).1 first
    where
      go :
          (o : Outcome (Option Error × DatabaseUser)) (w : World)
          → SafeStep env user u w
          → SafeStep env user u (continue o (concluded env) w).1
      go (done outcome) w x = then_quiet x ((concluded-Emits outcome).at w)
      go panic w x = x

  provision_gone :
      (secret : Option Secret) (db : Handle) (w : World)
      → named_user (env.first_user w.log db user.status.username) ≡ none
      → SafeStep env user w (provision env secret db user w).1
  unfolding provision refresh_user user_exists call create_or_update
  provision_gone secret db w gone =
      rw (gone, call)
        (then_concluded (created env secret db user) w _
          (created_vacant env user secret db _ w _ refl gone))

  provision_there :
      (secret : Option Secret) (db : Handle) (w : World) (present : MySqlUser)
      → named_user (env.first_user w.log db user.status.username) ≡ some present
      → SafeStep env user w (provision env secret db user w).1
  unfolding provision refresh_user user_exists call create_or_update
  provision_there secret db w present there =
      let found = record user {
        status = record (user.status) {
          identification = some (with_plugin present.plugin user.status.identification);
        };
      } in
      let v =
        logged (first_user db user.status.username (env.first_user w.log db user.status.username))
          w in
      let step = (checked_update-Safely env found secret db).at v in
      rw (there, call)
        (then_concluded (checked_update env secret db found) w v (
          Setup-then {v = v} (record { events = _; split = refl; good = (tt, tt) })
            (record {
              events = step.events;
              split = step.split;
              good = UserSafe-identified _ step.good;
            })))

  provision-Safely :
      (secret : Option Secret) (db : Handle) → Safely env user (provision env secret db user)
  provision-Safely secret db = record { at = λ w. go w (Option-cases _) }
    where
      go :
          (w : World)
          → (named_user (env.first_user w.log db user.status.username) ≡ none)
            ⊎ ((u : MySqlUser) × (named_user (env.first_user w.log db user.status.username)
                  ≡ some u))
          → SafeStep env user w (provision env secret db user w).1
      go w (inl gone) = provision_gone secret db w gone
      go w (inr (u, there)) = provision_there secret db w u there

  safely_if :
      {A : Type 0} (b : Bool) (m n : Exec A)
      → Safely env user m
      → Safely env user n
      → Safely env user (if b then m else n)
  safely_if true m n hm hn = hm
  safely_if false m n hm hn = hn

  saved : (final : DatabaseUser) → Safely env user (save_status env final)
  saved final = UserSafe-Setup (save_status-Emits Setup-AdmitsQuiet env final)

  owned-Safely :
      (ok_owner : Bool) (secret : Option Secret) (db : Handle)
      → Safely env user (owned env ok_owner secret db user)
  unfolding owned
  owned-Safely false secret db =
      UserSafe-Setup (take_secret-Emits Setup-AdmitsQuiet env secret user)
  owned-Safely true secret db =
      safely_if (not (env.contains_finalizer user.meta user_finalizer)) _ _
        (UserSafe-Setup (save_user-Emits Setup-AdmitsQuiet env _))
        (safely_if (not (user.status.username == [])) _ _ (provision-Safely secret db) (saved _))

  prepared-Safely :
      (secret : Option Secret) (db : Handle) → Safely env user (prepared env secret db user)
  unfolding prepared
  prepared-Safely secret db =
      UserSafe-bind _ _ (secret_ownership_ok-Emits Setup-AdmitsQuiet secret user)
        (λ ok_owner. owned-Safely ok_owner secret db)

  claims_name-Emits : (db : Handle) → Emits Setup (claims_name env db user)
  unfolding claims_name
  claims_name-Emits db =
      Emits-if Setup-AdmitsQuiet (user.status.username == []) _ _
        (user_mine-Emits Setup-AdmitsQuiet env db user) (Emits-pure Setup-AdmitsQuiet false)

  named-Safely : (secret : Option Secret) (db : Handle) → Safely env user (named env secret db user)
  unfolding named
  named-Safely secret db =
      UserSafe-bind _ _ (claims_name-Emits db)
        (λ claims. safely_if claims _ _ (saved _) (prepared-Safely secret db))

  present-Safely :
      (connection : Option Connected) (e : Option Error)
      → Safely env user (present env connection e user)
  unfolding present
  present-Safely none e = UserSafe-Setup (unavailable-Emits Setup-AdmitsQuiet env e user)
  present-Safely (some c) e = UserSafe-bind _ _ (secret_of-Emits Setup-AdmitsQuiet env user) (elim [
    | err x ↦ UserSafe-Setup (Emits-pure Setup-AdmitsQuiet _)
    | ok secret ↦ named-Safely secret c.db
  ])

  handle-Safely : Safely env user (handle env user)
  unfolding handle
  handle-Safely =
      UserSafe-bind _ _ (acquire-Emits Setup-AdmitsSetup env _ _)
        (λ (connection, e). go connection e user.meta.deletion_timestamp)
    where
      go :
          (connection : Option Connected) (e : Option Error) (marked : Option ℕ)
          → Safely env user (elim marked [
            | some time ↦ deleted env connection user
            | none ↦ present env connection e user
          ])
      go connection e (some time) = deleted-Safely env user connection
      go connection e none = present-Safely connection e

-- The log begins with the read.
pub reconcile_read-UserSafe :
    (env : Env) (request : NamespacedName) (r : DatabaseUser) (w : World)
    → env.get_user w.log request ≡ ok r
    → Extends
        (λ events. (rest : Log) × (events ≡ get_user request (ok r) ∷ rest) × UserSafe env r rest)
        w
        (reconcile env request w).1
unfolding reconcile call
reconcile_read-UserSafe env request r w found =
    let x = (handle-Safely env r).at (logged (get_user request (ok r)) w) in
    rw (found, call)
      (record {
        events = get_user request (ok r) ∷ x.events;
        split = x.split ∙ append_assoc w.log _ _;
        good = (x.events, refl, x.good);
      })

-- Of a resource that could not be read, the log has only the read.
pub reconcile_unread-Extends :
    {T : Log → Type 0} (t : AdmitsQuiet T) (env : Env) (request : NamespacedName) (e : Error)
    (w : World)
    → env.get_user w.log request ≡ err e
    → Extends T w (reconcile env request w).1
unfolding reconcile call
reconcile_unread-Extends t env request not_found w h =
    rw (h) (record { events = _; split = refl; good = t.quiet _ tt })
reconcile_unread-Extends t env request (failure f) w h =
    rw (h) (record { events = _; split = refl; good = t.quiet _ tt })
