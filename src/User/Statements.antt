-- ===== src/User/Statements.antt =====
-- The statements that a reconciliation of a `DatabaseUser` may send, and on what grounds. The texts
-- are spelled out here and not taken from the code.
use mysql_dba_operator.Base.{
  Bytes, ◌≡◌, ◌≢◌, sym, Option, none, some, List, [], ◌∷◌, ◌++◌, append_assoc, codes, All, Any,
}
use mathlib.Core.Path.{subst}
use mysql_dba_operator.Api.{ObjectMeta, Database, DatabasePermission, DatabaseUser}
use mysql_dba_operator.Orm.{Handle}
use mysql_dba_operator.Escape.{escape}
use mysql_dba_operator.World.{Env, Error, ok, Event, Log, exec, get_database}
use mysql_dba_operator.World.Exec.{Exec}
use mysql_dba_operator.World.Traces.{Quiet, IsQuiet, AdmitsQuiet, Emits}
use mysql_dba_operator.Ownership.Evidence.{OwnsDatabase, vacant, recorded}
use mysql_dba_operator.Connection.Statements.{IsControl}

-- What the statements name: the namespace of the resource, the name of the user on the server, the
-- name that the resource asks for, and the permissions that it lists; and `strings.ToUpper`.
pub record Account : Type 0 where
  pub namespace : Bytes
  pub present : Bytes
  pub wanted : Bytes
  pub database_list : Option (List DatabasePermission)
  pub upper : Bytes → Bytes

abbrev pub account_of : Env → DatabaseUser → Account
account_of env user = record {
  namespace = user.meta.namespace;
  present = user.status.username;
  wanted = user.spec.username;
  database_list = user.spec.database_list;
  upper = env.to_upper;
}

-- An escaped text between quotes.
abbrev pub literal : Bytes → Bytes
literal name = codes "'" ++ (escape name ++ codes "'")

-- What says how a user proves who it is: the plugin and the secret stand escaped between quotes.
pub data Identifies : Bytes → Type 0 where
  left_open : Identifies []
  with_plugin :
      (plugin : Bytes) → Identifies (codes " IDENTIFIED WITH '" ++ (escape plugin ++ codes "'"))
  with_plugin_by :
      (plugin secret : Bytes)
      → Identifies (
          codes " IDENTIFIED WITH '"
          ++ (escape plugin ++ (codes "' BY '" ++ (escape secret ++ codes "'"))))
  with_plugin_as :
      (plugin secret : Bytes)
      → Identifies (
          codes " IDENTIFIED WITH '"
          ++ (escape plugin ++ (codes "' AS '" ++ (escape secret ++ codes "'"))))
  by_password :
      (secret : Bytes) → Identifies (codes " IDENTIFIED BY '" ++ (escape secret ++ codes "'"))
  by_hash :
      (secret : Bytes)
      → Identifies (codes " IDENTIFIED BY PASSWORD '" ++ (escape secret ++ codes "'"))

pub data Requires : Bytes → Type 0 where
  nothing_said : Requires []
  encryption : Requires (codes " REQUIRE SSL")
  no_encryption : Requires (codes " REQUIRE NONE")

-- What stands behind the name of the user.
pub data Details : Bytes → Type 0 where
  both : {proof tls : Bytes} → Identifies proof → Requires tls → Details (proof ++ tls)

-- The statement that makes a user.
pub data Creating (a : Account) : Bytes → Type 0 where
  creates :
      (details : Bytes)
      → Details details
      → Creating a (codes "CREATE USER " ++ (literal a.present ++ details))

-- The statements that take a user's ownership for granted.
pub data Managing (a : Account) : Bytes → Type 0 where
  renames :
      Managing a (codes "RENAME USER " ++ (literal a.present ++ (codes " TO " ++ literal a.wanted)))
  alters :
      (details : Bytes)
      → Details details
      → Managing a (codes "ALTER USER " ++ (literal a.present ++ details))
  revokes : Managing a (codes "REVOKE ALL PRIVILEGES, GRANT OPTION FROM " ++ literal a.present)
  drops : Managing a (codes "DROP USER IF EXISTS " ++ literal a.present)

-- The resource lists the permission.
abbrev pub Listed : Account → DatabasePermission → Type 0
Listed a p =
    (permissions : List DatabasePermission) × (a.database_list ≡ some permissions)
    × Any (λ q. q ≡ p) permissions

-- Each of the texts in upper case behind a comma.
unfoldable pub behind_commas : (Bytes → Bytes) → List Bytes → Bytes
behind_commas upper [] = []
behind_commas upper (grant ∷ rest) = codes ", " ++ (upper grant ++ behind_commas upper rest)

-- What the permission writes before `ON`: its grants in upper case, or `ALL` where it has none.
pub data Privileges (upper : Bytes → Bytes) : Option (List Bytes) → Bytes → Type 0 where
  all_of_nil : Privileges upper none (codes "ALL")
  all_of_empty : Privileges upper (some []) (codes "ALL")
  listed :
      (grant : Bytes) (rest : List Bytes)
      → Privileges upper (some (grant ∷ rest)) (upper grant ++ behind_commas upper rest)

-- The statements of `P`, and `GRANT` of the privileges of a permission that the resource lists to the
-- present name on a database: directly after the queries
-- that show that the operator manages the database of a `Database` resource, which was read by the name
-- in the permission and in the namespace of the user's resource.
pub data Sent (P : Account → Bytes → Type 0) (a : Account) : Log → Type 0 where
  nothing : Sent P a []
  quiet : (e : Event) {log : Log} → IsQuiet e → Sent P a log → Sent P a (e ∷ log)
  sends :
      (db : Handle) (query : Bytes) (reply : Option Error) {log : Log}
      → P a query
      → Sent P a log
      → Sent P a (exec db query reply ∷ log)
  grants :
      (db : Handle) (p : DatabasePermission) (d : Database) (shown : Log) (privileges : Bytes)
      (reply : Option Error) {log : Log}
      → Listed a p
      → Privileges a.upper p.grants privileges
      → OwnsDatabase db d.spec.name d.meta shown
      → d.status.name ≢ []
      → Sent P a log
      → Sent P a (
          get_database (record { namespace = a.namespace; name = p.name }) (ok d)
          ∷ (shown
              ++ (exec db
                    (codes "GRANT "
                      ++ (privileges
                          ++ (codes " ON `"
                              ++ (d.status.name ++ (codes "`.* TO " ++ literal a.present)))))
                    reply
                  ∷ log)))

module _ (P : Account → Bytes → Type 0) (a : Account) where
  Sent-append : {xs : Log} (ys : Log) → Sent P a xs → Sent P a ys → Sent P a (xs ++ ys)
  Sent-append ys nothing t = t
  Sent-append ys (quiet e h s) t = quiet e h (Sent-append ys s t)
  Sent-append ys (sends db query reply h s) t = sends db query reply h (Sent-append ys s t)
  Sent-append ys (grants db p d shown privileges reply l h o n s) t =
      subst
        (λ l.
          Sent P a (get_database (record { namespace = a.namespace; name = p.name }) (ok d) ∷ l))
        (sym (append_assoc shown (_ ∷ _) ys))
        (grants db p d shown privileges reply l h o n (Sent-append ys s t))

  pub Sent-Quiet : {xs : Log} (ys : Log) → Sent P a xs → Quiet ys → Sent P a (xs ++ ys)
  Sent-Quiet ys s h = Sent-append ys s (quietly ys h)
    where
      quietly : (log : Log) → Quiet log → Sent P a log
      quietly [] h = nothing
      quietly (e ∷ log) (h, hs) = quiet e h (quietly log hs)

  pub Sent-AdmitsQuiet : AdmitsQuiet (Sent P a)
  Sent-AdmitsQuiet = record {
    trace = record { empty = nothing; join = λ xs ys s t. Sent-append ys s t };
    quiet = λ e h. quiet e h nothing;
  }

  pub OwnsDatabase-Sent :
      {db : Handle} {name : Bytes} {meta : ObjectMeta} {log : Log}
      → OwnsDatabase db name meta log
      → Sent P a log
  OwnsDatabase-Sent (vacant reply h) = quiet _ tt nothing
  OwnsDatabase-Sent (recorded reply row h) = quiet _ tt (quiet _ tt nothing)

-- An account that is the same names the same.
pub Sent-account :
    {P : Account → Bytes → Type 0} {a b : Account} {A : Type 0} {m : Exec A}
    → a ≡ b
    → Emits (Sent P a) m
    → Emits (Sent P b) m
Sent-account {P} {m} e h = subst (λ a. Emits (Sent P a) m) e h

-- No statement but those that set up the control database.
abbrev pub IsSetup : Event → Type 0
IsSetup (exec db query reply) = IsControl query
IsSetup _ = Unit

abbrev pub Setup : Log → Type 0
Setup log = All IsSetup log
