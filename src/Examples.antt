-- ===== src/Examples.antt =====
-- The theorems on shared components at concrete inputs.
use mysql_dba_operator.Base.{
  ◌≡◌, ◌↔◌, ◌⊎◌, refl, Bytes, true, false, some, List, [], ◌∷◌, ◌++◌, codes, ◌==◌, ==_differs, Any,
  arith,
}
use mysql_dba_operator.Api.{DatabaseUser}
use mysql_dba_operator.World.{text, Row}
use mysql_dba_operator.World.Exec.{done}
use mysql_dba_operator.Escape.{escape}
use mysql_dba_operator.Escape.Literal.{read_literal, read_literal-escape}
use mysql_dba_operator.Namespace.{allowed_namespace}
use mysql_dba_operator.Namespace.Permitted.{Covers, allowed_namespace_iff}
use mysql_dba_operator.Ownership.{named_user, user_mine}
use mysql_dba_operator.Ownership.Rename.{user_mine_two_names}
use mysql_dba_operator.Password.{generate_password}
use mysql_dba_operator.Password.Laws.{IsPassword, generate_password-IsPassword}
use mysql_dba_operator.User.Grants.{add_rows}
use mysql_dba_operator.User.Grants.Status.{Holds, shown_grants, add_rows-Holds}
use mysql_dba_operator.Sample.{main_admin, clerk, clerk_row, server_user, sample, start}

abbrev quoted_name : Bytes
quoted_name = codes "O'Hara"

read_literal-escape_example :
    read_literal (escape quoted_name ++ b'\'' ∷ codes " TLS") ≡ some (quoted_name, codes " TLS")
unfolding codes
read_literal-escape_example = read_literal-escape quoted_name (codes " TLS") (omega arith)

allowed_namespace_iff_example : (allowed_namespace main_admin (codes "shop") ≡ true) ↔ (
    (codes "shop" ≡ main_admin.meta.namespace)
    ⊎ Any (Covers (codes "shop")) main_admin.spec.allowed_namespaces)
allowed_namespace_iff_example = allowed_namespace_iff main_admin (codes "shop")

-- `clerk` with the name that it has.
abbrev kept : DatabaseUser
kept = record clerk { spec = record (clerk.spec) { username = codes "clerk" } }

user_mine_two_names_example : (user_mine sample 9 clerk start).0 ≡ done false
unfolding codes ◌==◌ named_user
user_mine_two_names_example =
    user_mine_two_names sample 9 clerk (some clerk_row) server_user server_user
      (==_differs (codes "agent") (codes "clerk") refl) (==_differs (codes "clerk") [] refl)
      (λ log. refl) (λ log. refl) (λ log. refl) start

generate_password-IsPassword_example :
    (s : Bytes) × (generate_password (λ at bound. 0) 10 2 3 4 ≡ some s) × IsPassword 10 2 3 4 s
generate_password-IsPassword_example =
    generate_password-IsPassword (λ at bound. 0) (λ at bound h. h) 10 2 3 4 (omega arith)

-- The rows of `SHOW GRANTS`.
abbrev grant_rows : List Row
grant_rows =
    ((codes "Grants", text (codes "GRANT USAGE")) ∷ [])
    ∷ ((codes "Grants", text (codes "GRANT ALL ON `a`.*")) ∷ [])
    ∷ []

add_rows-Holds_example : Holds (add_rows 0 grant_rows (false, [])).1 (shown_grants grant_rows)
add_rows-Holds_example = add_rows-Holds grant_rows []
