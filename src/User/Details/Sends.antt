-- ===== src/User/Details/Sends.antt =====
-- `userDetailString` sends no statement, keeps the account of the user, and writes what the statements
-- may hold behind a name.
use mysql_dba_operator.Base.{
  Bytes, Bool, true, false, not, ◌||◌, ◌≡◌, refl, inl, inr, Bool-cases, codes, Option, none, some,
  [], ◌==◌,
}
use mysql_dba_operator.Api.{TlsOptions, Secret, SecretKeySource, Identification, DatabaseUser}
use mysql_dba_operator.World.{Env, Error, Result, ok, err}
use mysql_dba_operator.World.Exec.{Exec, pure, ◌>>=◌}
use mysql_dba_operator.World.Traces.{AdmitsQuiet, Emits, Emits-pure, Emits-crash, Emits-bind}
use mysql_dba_operator.World.Ensures.{Ensures, Ensures-pure, Ensures-bind, Ensures-after}
use mysql_dba_operator.Connection.Statements.{get_secret_ref_value-Emits}
use mysql_dba_operator.User.Statements.{
  Account, account_of, Identifies, left_open, with_plugin, with_plugin_by, with_plugin_as,
  by_password, by_hash, Requires, nothing_said, encryption, no_encryption, Details, both, Sent,
  Sent-AdmitsQuiet,
}
use mysql_dba_operator.Escape.{escape}
use mysql_dba_operator.User.Details.{
  identified, plugins_differ, bool_differs, tls_clause, fragment, deref, password_updated,
  auth_value, identified_status, identify, user_detail_string,
}

identified-Identifies :
    (plugin secret : Bytes) (clear_text : Bool)
    → Identifies (identified (escape plugin) (escape secret) clear_text)
unfolding identified codes
identified-Identifies plugin secret clear_text = elim (Bool-cases (escape plugin == [])) [
  | inl none_named ↦ elim (Bool-cases (escape secret == [])) [
    | inl empty ↦ rw (none_named, empty) left_open
    | inr set ↦ elim (Bool-cases clear_text) [
      | inl clear ↦ rw (none_named, set, clear) (by_password secret)
      | inr hashed ↦ rw (none_named, set, hashed) (by_hash secret)
    ]
  ]
  | inr named ↦ elim (Bool-cases (escape secret == [])) [
    | inl empty ↦ rw (named, empty) (with_plugin plugin)
    | inr set ↦ elim (Bool-cases clear_text) [
      | inl clear ↦ rw (named, set, clear) (with_plugin_by plugin secret)
      | inr hashed ↦ rw (named, set, hashed) (with_plugin_as plugin secret)
    ]
  ]
]

tls_clause-Requires : (wanted present : TlsOptions) → Requires (tls_clause wanted present)
unfolding tls_clause
tls_clause-Requires wanted present =
    elim (Bool-cases (bool_differs wanted.required present.required)) [
      | inl changed ↦ elim (Bool-cases wanted.required) [
        | inl on ↦ rw (changed, on) encryption
        | inr off ↦ rw (changed, off) no_encryption
      ]
      | inr same ↦ rw same nothing_said
    ]

fragment-Details :
    (env : Env) (update : Bool) (identification : Identification) (user : DatabaseUser)
    (secret : Bytes)
    → Details (fragment env update identification user (escape secret))
unfolding fragment
fragment-Details env true identification user secret =
    both (identified-Identifies identification.auth_plugin secret identification.clear_text)
      (tls_clause-Requires user.spec.tls_options user.status.tls_options)
fragment-Details env false identification user secret =
    both left_open (tls_clause-Requires user.spec.tls_options user.status.tls_options)

-- A value is an escaped text.
abbrev Escaped : Result Bytes → Type 0
Escaped (err e) = Unit
Escaped (ok value) = (secret : Bytes) × (value ≡ escape secret)

module _ (P : Account → Bytes → Type 0) (env : Env) (user : DatabaseUser) where
  abbrev q : AdmitsQuiet (Sent P (account_of env user))
  q = Sent-AdmitsQuiet P (account_of env user)

  deref-Emits : (secret : Option Secret) → Emits (Sent P (account_of env user)) (deref secret)
  unfolding deref
  deref-Emits none = Emits-crash q
  deref-Emits (some s) = Emits-pure q s

  password_updated-Emits :
      (secret : Option Secret) (identification : Identification)
      → Emits (Sent P (account_of env user)) (password_updated env secret identification user)
  unfolding password_updated
  password_updated-Emits secret identification = go identification.auth_string
    where
      go :
          (source : Option SecretKeySource)
          → Emits (Sent P (account_of env user)) (elim source [
            | none ↦ pure false
            | some s ↦ deref secret >>= λ r.
                pure (not (user.status.identification_resource_version == r.meta.resource_version))
          ])
      go none = Emits-pure q _
      go (some s) = Emits-bind q _ _ (deref-Emits secret) (λ _. Emits-pure q _)

  auth_value-Escaped :
      (namespace : Bytes) (source : Option SecretKeySource)
      → Ensures (Sent P (account_of env user)) Escaped (auth_value env namespace source)
  unfolding auth_value escape
  auth_value-Escaped namespace none = Ensures-pure q _ ([], refl)
  auth_value-Escaped namespace (some s) =
      Ensures-after q _ _ (get_secret_ref_value-Emits q env namespace s.secret_key_ref)
        (elim [ err e ↦ Ensures-pure q _ tt | ok v ↦ Ensures-pure q _ (v, refl) ])

  -- The first part of an outcome may stand behind a name, and the third has the account of the user.
  abbrev pub Describes : Exec (Bytes × Option Error × DatabaseUser) → Type 0
  Describes m =
      Ensures (Sent P (account_of env user))
        (λ (details, e, other). Details details × (account_of env other ≡ account_of env user)) m

  identify-Describes :
      (secret : Option Secret) (create : Bool) (identification : Identification)
      → Describes (identify env secret create identification user)
  unfolding identify identified_status
  identify-Describes secret create identification =
      Ensures-after q _ _ (password_updated-Emits secret identification) (λ updated.
        Ensures-bind q _ _ (auth_value-Escaped user.meta.namespace identification.auth_string)
          (λ value escaped_. go updated value escaped_))
    where
      go :
          (updated : Bool) (value : Result Bytes)
          → Escaped value
          → Describes (elim value [
            | err e ↦ pure ([], some e, user)
            | ok a ↦ deref secret >>= λ s. pure (
              fragment env
                  (updated || (plugins_differ identification user.status.identification || create))
                  identification
                  user
                  a,
              none,
              identified_status s.meta.resource_version user,
            )
          ])
      go updated (err e) h = Ensures-pure q _ (both left_open nothing_said, refl)
      go updated (ok a) (v, e) = rw e (
          Ensures-after q _ _ (deref-Emits secret)
            (λ s. Ensures-pure q _ (fragment-Details env _ identification user v, refl)))

  pub user_detail_string-Describes :
      (secret : Option Secret) (create : Bool)
      → Describes (user_detail_string env secret create user)
  unfolding user_detail_string
  user_detail_string-Describes secret create = go user.spec.identification
    where
      go :
          (wanted : Option Identification)
          → Describes (elim wanted [
            | none ↦ pure ([], none, user)
            | some identification ↦ identify env secret create identification user
          ])
      go none = Ensures-pure q _ (both left_open nothing_said, refl)
      go (some identification) = identify-Describes secret create identification
