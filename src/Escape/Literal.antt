-- ===== src/Escape/Literal.antt =====
-- What MySQL reads back from an escaped text: the string-literal rules of the server, stated
-- independently of `escape`.
use mysql_dba_operator.Base.{
  ℕ, ◌≡◌, ◌≢◌, refl, sym, Bytes, Option, none, some, [], ◌∷◌, ◌++◌, append_assoc, append-nil, All,
  All-append, arith, ◌=?◌, if◌then◌else◌,
}
use mysql_dba_operator.Escape.{escape_byte, escaped, escape_loop, escape}

-- The byte that `\c` stands for; a backslash before any other byte is dropped.
unescape_byte : ℕ → ℕ
unescape_byte c =
    if c =? b'0'
    then 0
    else if c =? b'n'
    then b'\n'
    else if c =? b'r'
    then b'\r'
    else if c =? b'Z'
    then 26
    else if c =? b't'
    then 9
    else if c =? b'b'
    then 8
    else c

-- Where the reader of a quoted text stands: in the text, behind a backslash, behind a quote.
pub data Mode : Type 0 where
  plain escaping quoted : Mode

-- Reads a text that began with a quote: its value, and the input behind the closing quote. Two
-- quotes in a row are one quote of the value; `none` is a text that is never closed.
read : Mode → Bytes → Bytes → Option (Bytes × Bytes)
read quoted [] value = some (value, [])
read _ [] value = none
read plain (c ∷ s) value =
    let wait = read escaping s value in
    let quote = read quoted s value in
    let copy = read plain s (value ++ c ∷ []) in
    if c =? b'\\' then wait else if c =? b'\'' then quote else copy
read escaping (c ∷ s) value = read plain s (value ++ unescape_byte c ∷ [])
read quoted (c ∷ s) value =
    let again = read plain s (value ++ b'\'' ∷ []) in
    if c =? b'\'' then again else some (value, c ∷ s)

unfoldable pub read_literal : Bytes → Option (Bytes × Bytes)
unfolding read unescape_byte
read_literal s = read plain s []

-- The text of all rounds.
escape_all : Bytes → Bytes
escape_all [] = []
escape_all (c ∷ s) = escaped (escape_byte c) c ++ escape_all s

escape_loop-escape_all : (s dest : Bytes) → escape_loop s dest ≡ dest ++ escape_all s
unfolding escape_loop escape_all
escape_loop-escape_all [] dest = sym (append-nil dest)
escape_loop-escape_all (c ∷ s) dest = simp (escape_loop-escape_all s, append_assoc)

escape-escape_all : (s : Bytes) → escape s ≡ escape_all s
unfolding escape
escape-escape_all s = escape_loop-escape_all s []

read-escaped :
    (c : ℕ) (s value : Bytes)
    → read plain (escaped (escape_byte c) c ++ s) value ≡ read plain s (value ++ c ∷ [])
unfolding read unescape_byte escaped escape_byte
read-escaped c s value = ground arith

read-escape_all :
    (s rest value : Bytes) → read plain (escape_all s ++ rest) value ≡ read plain rest (value ++ s)
unfolding escape_all
read-escape_all [] rest value = rw append-nil
read-escape_all (c ∷ s) rest value = simp (append_assoc, read-escaped, read-escape_all s)

-- The input behind a closing quote does not go on with a quote.
abbrev pub EndsQuote : Bytes → Type 0
EndsQuote [] = Unit
EndsQuote (c ∷ s) = c ≢ b'\''

read_close :
    (rest value : Bytes) → EndsQuote rest → read plain (b'\'' ∷ rest) value ≡ some (value, rest)
unfolding read
read_close [] value h = refl
read_close (c ∷ rest) value h = ground arith

-- An escaped text between quotes is read back as the text itself, and the reading stops at the
-- closing quote, whatever bytes the text holds, if no further quote follows.
pub read_literal-escape :
    (s rest : Bytes) → EndsQuote rest → read_literal (escape s ++ b'\'' ∷ rest) ≡ some (s, rest)
unfolding read_literal
read_literal-escape s rest h = rw (escape-escape_all s, read-escape_all s) (read_close rest s h)

-- Not a byte that breaks a line of the log or that MySQL wants escaped.
abbrev pub IsTame : ℕ → Type 0
IsTame c = (c ≢ 0) × (c ≢ b'\n') × (c ≢ b'\r') × (c ≢ 26)

escaped-IsTame : (c : ℕ) → All IsTame (escaped (escape_byte c) c)
unfolding escaped escape_byte
escaped-IsTame c = ground arith

escape_all-IsTame : (s : Bytes) → All IsTame (escape_all s)
unfolding escape_all
escape_all-IsTame [] = tt
escape_all-IsTame (c ∷ s) =
    All-append IsTame _ (escape_all s) (escaped-IsTame c) (escape_all-IsTame s)

-- An escaped text holds no NUL, no line feed, no carriage return and no Control-Z.
pub escape-IsTame : (s : Bytes) → All IsTame (escape s)
escape-IsTame s = rw escape-escape_all (escape_all-IsTame s)
