-- ===== src/Webhook.antt =====
-- api/v1alpha1/database_webhook.go: the validation of `Database` resources. `rune_count` is
-- `utf8.RuneCountInString`. The result is the warnings and the error.
pub mod Verdicts
pub mod Accepted
pub mod Examples
use mysql_dba_operator.Base.{
  ℕ, Bytes, Bool, not, ◌&&◌, Option, none, some, List, [], ◌∷◌, codes, ◌==◌, ◌=?◌, leb, all, any,
  if◌then◌else◌,
}
use mysql_dba_operator.Api.{NamespacedName, Collation, Charset, AdminConnection, Database}
use mysql_dba_operator.World.{Env, Error, failure, Result, ok, err, get_admin}
use mysql_dba_operator.World.Exec.{Exec, pure, ◌>>=◌, call}

-- The characters of the class in `nameRegEx`, which a name must not hold.
abbrev pub forbidden : Bytes
forbidden = codes "\\/?%*:|\"<>."

-- `nameRegEx.MatchString`: 1 to 64 characters, none of them forbidden.
pub name_matches : (Bytes → ℕ) → Bytes → Bool
name_matches rune_count name =
    all (λ c. not (any (λ f. f =? c) forbidden)) name
    && (leb 1 (rune_count name) && leb (rune_count name) 64)

abbrev pub Verdict : Type 0
Verdict = List Bytes × Option Error

abbrev pub rejected : Bytes → Verdict
rejected message = ([], some (failure message))

abbrev pub combination_invalid : Bytes
combination_invalid = codes "Charset and collation combination not valid for this server"

abbrev pub charset_invalid : Bytes
charset_invalid = codes "Charset not valid for this server"

abbrev pub not_default : Bytes
not_default = codes "Collation not the default for this charset"

-- The inner loop, over the collations of the charset.
pub check_collations : Bytes → List Collation → Verdict
check_collations collation [] = rejected combination_invalid
check_collations collation (entry ∷ rest) =
    let later = check_collations collation rest in
    if entry.name == collation
    then (if not entry.default then (not_default ∷ [], none) else ([], none))
    else later

-- The outer loop, over the charsets of the server.
pub check_charsets : Bytes → Bytes → List Charset → Verdict
check_charsets charset collation [] = rejected charset_invalid
check_charsets charset collation (combo ∷ rest) =
    let later = check_charsets charset collation rest in
    if combo.name == charset then check_collations collation combo.collations else later

pub or_default : Bytes → Bytes → Bytes
or_default wanted default = if wanted == [] then default else wanted

-- The test of the charset and the collation against a connection that was read.
pub check_combo : Database → Result AdminConnection → Verdict
check_combo database (err e) = ([], some e)
check_combo database (ok admin) =
    check_charsets (or_default database.spec.character_set admin.status.character_set)
      (or_default database.spec.collate admin.status.collation) admin.status.available_charsets

module _ (env : Env) where
  pub referred : Database → NamespacedName
  referred database = record {
    namespace =
        if not (database.spec.admin_connection.namespace == [])
        then database.spec.admin_connection.namespace
        else database.meta.namespace;
    name = database.spec.admin_connection.name;
  }

  -- `ValidateCharsetCollationCombo` behind its first test.
  pub looked_up : Database → Exec Verdict
  looked_up database = do
    admin ← call (λ log. env.get_admin log (referred database)) (get_admin (referred database))
    pure (check_combo database admin)

  pub validate_charset_collation_combo : Database → Exec Verdict
  validate_charset_collation_combo database =
      if database.spec.admin_connection.name == [] then pure ([], none) else looked_up database

  pub validate_create : (Bytes → ℕ) → Database → Exec Verdict
  validate_create rune_count database =
      if not (name_matches rune_count database.spec.name)
      then pure (rejected (codes "Invalid database name."))
      else validate_charset_collation_combo database

  pub validate_update : Database → Database → Exec Verdict
  validate_update database old =
      if not (database.spec.name == old.spec.name)
      then pure (rejected (codes "Name not allowed to be changed"))
      else validate_charset_collation_combo database

-- Accepts everything.
pub validate_delete : Database → Exec Verdict
validate_delete database = pure ([], none)
