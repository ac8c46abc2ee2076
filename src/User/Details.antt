-- ===== src/User/Details.antt =====
-- `userExists` and `userDetailString`: what is known of the user, and the clauses of `CREATE USER`
-- and `ALTER USER` that follow the name.
pub mod Authentication
pub mod Sends
pub mod Steps
pub mod Returns
use mysql_dba_operator.Base.{
  Bytes, Bool, true, false, not, ◌&&◌, ◌||◌, Option, none, some, List, [], ◌∷◌, ◌++◌, codes, ◌==◌,
  if◌then◌else◌,
}
use mysql_dba_operator.Api.{
  Secret, SecretKeySource, Identification, TlsOptions, DatabaseUserSpec, DatabaseUser,
}
use mysql_dba_operator.Orm.{Handle}
use mysql_dba_operator.Escape.{escape}
use mysql_dba_operator.World.{Env, Error, Result, ok, err}
use mysql_dba_operator.World.Exec.{Exec, pure, crash, ◌>>=◌}
use mysql_dba_operator.Ownership.{user_exists}
use mysql_dba_operator.Connection.{get_secret_ref_value}

-- The status takes the plugin of the user that was found.
pub with_plugin : Bytes → Option Identification → Identification
with_plugin plugin none = record { auth_plugin = plugin; auth_string = none; clear_text = false }
with_plugin plugin (some i) = record i { auth_plugin = plugin }

-- The clauses for the plugin and the password, both escaped.
identified : Bytes → Bytes → Bool → Bytes
identified plugin auth clear_text =
    if not (plugin == [])
    then codes " IDENTIFIED WITH '"
      ++ (plugin
          ++ (codes "'"
              ++ (if auth == []
                  then []
                  else (if clear_text then codes " BY '" else codes " AS '")
                    ++ (auth ++ codes "'"))))
    else if not (auth == [])
    then codes " IDENTIFIED BY"
      ++ ((if clear_text then [] else codes " PASSWORD") ++ (codes " '" ++ (auth ++ codes "'")))
    else []

-- `pluginsDiff`
plugins_differ : Identification → Option Identification → Bool
plugins_differ wanted none = false
plugins_differ wanted (some present) =
    not (wanted.auth_plugin == present.auth_plugin) && not (wanted.auth_plugin == [])

bool_differs : Bool → Bool → Bool
bool_differs true b = not b
bool_differs false b = b

tls_clause : TlsOptions → TlsOptions → Bytes
tls_clause wanted present =
    if bool_differs wanted.required present.required
    then (if wanted.required then codes " REQUIRE SSL" else codes " REQUIRE NONE")
    else []

-- Reads through `loop.secret`.
unfoldable pub deref : Option Secret → Exec Secret
deref none = crash
deref (some secret) = pure secret

-- The status once the identification is applied.
identified_status : Bytes → DatabaseUser → DatabaseUser
identified_status resource_version user = record user {
  status = record (user.status) {
    identification_resource_version = resource_version;
    identification = user.spec.identification;
    tls_options = user.spec.tls_options;
  };
}

module _ (env : Env) where
  unfoldable pub refresh_user : Handle → DatabaseUser → Exec (Bool × DatabaseUser)
  refresh_user db user = do
    found ← user_exists env db user.status.username
    elim found [
      | none ↦ pure (false, user)
      | some u ↦ pure (
        true,
        record user {
          status = record (user.status) {
            identification = some (with_plugin u.plugin user.status.identification);
          };
        },
      )
    ]

  -- `passwordUpdated`
  password_updated : Option Secret → Identification → DatabaseUser → Exec Bool
  password_updated secret identification user = elim identification.auth_string [
    | none ↦ pure false
    | some source ↦ do
      s ← deref secret
      pure (not (user.status.identification_resource_version == s.meta.resource_version))
  ]

  -- The password, escaped; empty where no secret is named.
  auth_value : Bytes → Option SecretKeySource → Exec (Result Bytes)
  auth_value namespace none = pure (ok [])
  auth_value namespace (some source) = do
    value ← get_secret_ref_value env namespace source.secret_key_ref
    elim value [ err e ↦ pure (err e) | ok v ↦ pure (ok (escape v)) ]

  fragment : Bool → Identification → DatabaseUser → Bytes → Bytes
  fragment update identification user auth =
      (if update
        then identified (escape identification.auth_plugin) auth identification.clear_text
        else [])
      ++ tls_clause user.spec.tls_options user.status.tls_options

  identify :
      Option Secret
      → Bool
      → Identification
      → DatabaseUser
      → Exec (Bytes × Option Error × DatabaseUser)
  identify secret create identification user = do
    updated ← password_updated secret identification user
    auth ← auth_value user.meta.namespace identification.auth_string
    elim auth [
      | err e ↦ pure ([], some e, user)
      | ok a ↦ do
        let update = updated || (plugins_differ identification user.status.identification || create)
        s ← deref secret
        pure (
          fragment update identification user a,
          none,
          identified_status s.meta.resource_version user,
        )
    ]

  pub user_detail_string :
      Option Secret → Bool → DatabaseUser → Exec (Bytes × Option Error × DatabaseUser)
  user_detail_string secret create user = elim user.spec.identification [
    | none ↦ pure ([], none, user)
    | some identification ↦ identify secret create identification user
  ]
