-- ===== src/Escape.antt =====
-- `Escape` of api/v1alpha1/common.go: the text that goes between quotes in a MySQL statement.
pub mod Literal
use mysql_dba_operator.Base.{ℕ, Bytes, Option, none, some, [], ◌∷◌, ◌++◌, ◌=?◌, if◌then◌else◌}

-- The `switch` of the loop: the byte that stands behind the backslash, if `c` needs one.
escape_byte : ℕ → Option ℕ
escape_byte c =
    if c =? 0
    then some b'0'
    else if c =? b'\n'
    then some b'n'
    else if c =? b'\r'
    then some b'r'
    else if c =? b'\\'
    then some b'\\'
    else if c =? b'\''
    then some b'\''
    else if c =? b'"'
    then some b'"'
    else if c =? 26
    then some b'Z'
    else none

-- What one round of the loop appends to `dest`.
escaped : Option ℕ → ℕ → Bytes
escaped none c = c ∷ []
escaped (some e) c = b'\\' ∷ e ∷ []

-- The loop, from `sql[i:]` and `dest`.
escape_loop : Bytes → Bytes → Bytes
unfolding escaped escape_byte
escape_loop [] dest = dest
escape_loop (c ∷ sql) dest = escape_loop sql (dest ++ escaped (escape_byte c) c)

unfoldable pub escape : Bytes → Bytes
unfolding escape_loop
escape sql = escape_loop sql []
