-- ===== src/User/Safety.antt =====
-- How a reconciliation of a `DatabaseUser` comes to send statements.
use mysql_dba_operator.Base.{
  ◌≡◌, sym, ap, ◌∙◌, Option, none, List, [], ◌∷◌, ◌++◌, append_assoc, Bytes, All-append,
}
use mathlib.Core.Path.{subst}
use mysql_dba_operator.Api.{Identification, DatabaseUser, DatabaseUserStatus}
use mysql_dba_operator.Orm.{Handle, ManagedUser, MySqlUser}
use mysql_dba_operator.World.{Env, Event, Log, World, first_user, exec}
use mysql_dba_operator.World.Exec.{Exec, Outcome, done, panic, continue, ◌>>=◌}
use mysql_dba_operator.World.Traces.{Quiet, IsQuiet, AdmitsQuiet, Extends, Emits}
use mysql_dba_operator.Ownership.{named_user}
use mysql_dba_operator.Ownership.Evidence.{
  OwnsNames, all_checked, vacant, recorded, OwnsUser, one_name, two_names,
}
use mysql_dba_operator.Connection.Statements.{AdmitsSetup}
use mysql_dba_operator.User.Statements.{
  account_of, Creating, Managing, Sent, Sent-Quiet, IsSetup, Setup,
}

-- The log of a reconciliation, for the resource as it was read. Behind the statements that set up the
-- control database, and other calls, it holds no statement, or: a query that finds no user of the
-- present name, and behind it `CREATE USER` of that name and grants to it; or the queries that show
-- that the operator manages the user, and behind them statements on that user and grants to it.
pub data UserSafe (env : Env) (user : DatabaseUser) : Log → Type 0 where
  idle : {before : Log} → Setup before → UserSafe env user before
  creates :
      (before : Log) (db : Handle) (reply : Option MySqlUser) {log : Log}
      → Setup before
      → named_user reply ≡ none
      → Sent Creating (account_of env user) log
      → UserSafe env user (before ++ (first_user db user.status.username reply ∷ log))
  manages :
      (before : Log) (db : Handle) (shown : Log) {log : Log}
      → Setup before
      → OwnsUser db user shown
      → Sent Managing (account_of env user) log
      → UserSafe env user (before ++ (shown ++ log))

quiet-Setup : (e : Event) → IsQuiet e → Setup (e ∷ [])
quiet-Setup (exec db query reply) h = absurd h
quiet-Setup _ h = (tt, tt)

Setup-Quiet : (log : Log) → Quiet log → Setup log
Setup-Quiet [] h = tt
Setup-Quiet (e ∷ log) (h, hs) = ((quiet-Setup e h).0, Setup-Quiet log hs)

pub Setup-AdmitsQuiet : AdmitsQuiet Setup
Setup-AdmitsQuiet = record {
  trace = record { empty = tt; join = λ xs ys. All-append IsSetup xs ys };
  quiet = λ e h. quiet-Setup e h;
}

pub Setup-AdmitsSetup : AdmitsSetup Setup
Setup-AdmitsSetup = record { others = Setup-AdmitsQuiet; control = λ db query reply h. (h, tt) }

-- The evidence speaks of the metadata alone, and not of the status.
pub OwnsNames-status :
    {db : Handle} {user : DatabaseUser} (status : DatabaseUserStatus) {managed : ManagedUser}
    {names : List Bytes} {log : Log}
    → OwnsNames db (record user { status = status }) managed names log
    → OwnsNames db user managed names log
OwnsNames-status status (all_checked managed) = all_checked managed
OwnsNames-status status (vacant managed name reply h o) =
    vacant managed name reply h (OwnsNames-status status o)
OwnsNames-status status (recorded managed name reply row r o) =
    recorded managed name reply row
      (record {
        same_username = r.same_username;
        same_name = r.same_name;
        same_namespace = r.same_namespace;
      })
      (OwnsNames-status status o)

-- So it may be of the instance with another plugin.
OwnsUser-identified :
    {db : Handle} {user : DatabaseUser} (i : Option Identification) {log : Log}
    → OwnsUser db (record user { status = record (user.status) { identification = i } }) log
    → OwnsUser db user log
OwnsUser-identified {user} i (one_name h o) =
    one_name h (OwnsNames-status (record (user.status) { identification = i }) o)
OwnsUser-identified {user} i (two_names other set o) =
    two_names other set (OwnsNames-status (record (user.status) { identification = i }) o)

module _ {env : Env} {user : DatabaseUser} where
  behind-Setup :
      (xs : Log) {ys : Log} → Setup xs → UserSafe env user ys → UserSafe env user (xs ++ ys)
  behind-Setup xs {ys} s (idle t) = idle (All-append IsSetup xs ys s t)
  behind-Setup xs s (creates before db reply t h r) =
      subst (UserSafe env user) (append_assoc xs before _)
        (creates (xs ++ before) db reply (All-append IsSetup xs before s t) h r)
  behind-Setup xs s (manages before db shown t o r) =
      subst (UserSafe env user) (append_assoc xs before _)
        (manages (xs ++ before) db shown (All-append IsSetup xs before s t) o r)

  before_quiet :
      {xs : Log} (ys : Log) → UserSafe env user xs → Quiet ys → UserSafe env user (xs ++ ys)
  before_quiet ys (idle {before = xs} s) h = idle (All-append IsSetup xs ys s (Setup-Quiet ys h))
  before_quiet ys (creates before db reply {log = log} s v r) h =
      subst (UserSafe env user) (sym (append_assoc before (_ ∷ log) ys))
        (creates before db reply s v (Sent-Quiet Creating (account_of env user) ys r h))
  before_quiet ys (manages before db shown {log = log} s o r) h =
      subst (UserSafe env user)
        (sym (
          append_assoc before (shown ++ log) ys
          ∙ ap (λ l. before ++ l) (append_assoc shown log ys)))
        (manages before db shown s o (Sent-Quiet Managing (account_of env user) ys r h))

  pub then_quiet :
      {u v w : World}
      → Extends (UserSafe env user) u v
      → Extends Quiet v w
      → Extends (UserSafe env user) u w
  then_quiet {u} a b = record {
    events = a.events ++ b.events;
    split = b.split ∙ ap (λ l. l ++ b.events) a.split ∙ append_assoc u.log a.events b.events;
    good = before_quiet b.events a.good b.good;
  }

  pub UserSafe-bind_quiet :
      {A B : Type 0} (m : Exec A) (f : A → Exec B)
      → Emits (UserSafe env user) m
      → ((a : A) → Emits Quiet (f a))
      → Emits (UserSafe env user) (m >>= f)
  UserSafe-bind_quiet {A} m f hm hf = record { at = λ w. go w (m w).0 (hm.at w) }
    where
      go :
          (w : World) (o : Outcome A)
          → Extends (UserSafe env user) w (m w).1
          → Extends (UserSafe env user) w (continue o f (m w).1).1
      go w (done a) x = then_quiet x ((hf a).at (m w).1)
      go w panic x = x

  pub Setup-then :
      {u v w : World}
      → Extends Setup u v
      → Extends (UserSafe env user) v w
      → Extends (UserSafe env user) u w
  Setup-then {u} a b = record {
    events = a.events ++ b.events;
    split = b.split ∙ ap (λ l. l ++ b.events) a.split ∙ append_assoc u.log a.events b.events;
    good = behind-Setup a.events a.good b.good;
  }

  pub Setup-alone : {u v : World} → Extends Setup u v → Extends (UserSafe env user) u v
  Setup-alone a = record { events = a.events; split = a.split; good = idle a.good }

  pub UserSafe-Setup : {A : Type 0} {m : Exec A} → Emits Setup m → Emits (UserSafe env user) m
  UserSafe-Setup h = record { at = λ w. Setup-alone (h.at w) }

  pub UserSafe-bind :
      {A B : Type 0} (m : Exec A) (f : A → Exec B)
      → Emits Setup m
      → ((a : A) → Emits (UserSafe env user) (f a))
      → Emits (UserSafe env user) (m >>= f)
  UserSafe-bind {A} m f hm hf = record { at = λ w. go w (m w).0 (hm.at w) }
    where
      go :
          (w : World) (o : Outcome A)
          → Extends Setup w (m w).1
          → Extends (UserSafe env user) w (continue o f (m w).1).1
      go w (done a) x = Setup-then x ((hf a).at (m w).1)
      go w panic x = Setup-alone x

  -- The instance with the plugin that the server shows is as safe as the instance that was read.
  pub UserSafe-identified :
      (i : Option Identification) {log : Log}
      → UserSafe env (record user { status = record (user.status) { identification = i } }) log
      → UserSafe env user log
  UserSafe-identified i (idle s) = idle s
  UserSafe-identified i (creates before db reply s v r) = creates before db reply s v r
  UserSafe-identified i (manages before db shown s o r) =
      manages before db shown s (OwnsUser-identified i o) r
