-- ===== src/Cypher/Lexer.antt =====
-- `tokenize` and `unescapeString` of internal/cypher/engine.go.
-- The source's index `i` is the list of bytes from `i` on; a slice past the end is a panic.
pub mod Literals
pub mod Totality
pub mod Reading
use pincher_mcp.Prelude.{
  ℕ, zero, suc, String, Bool, true, false, ◌&&◌, ◌||◌, List, [], ◌∷◌, ◌++◌, Option, none, some,
  ◌==◌, if◌then◌else◌, Bytes, codes, one_of, has_byte, span, is_digit, is_lower, is_capital,
  to_upper, length, Result, ok, fail, panic, out_of_fuel, value_or, map, ◌≡◌, refl,
}
use pincher_mcp.Cypher.Token.{Token, token, keyword, ident, number, string, punct, hops}

abbrev pub backslash : ℕ
backslash = 92

-- The byte that an escape stands for, where the source recognises it.
unfoldable pub escape_value : ℕ → Option ℕ
escape_value d =
    if d == backslash || d == b'"' || d == 39
    then some d
    else if d == b'n'
    then some 10
    else if d == b't'
    then some 9
    else if d == b'r'
    then some 13
    else none

unfoldable pub unescape_loop : Bytes → Bytes
unfolding escape_value
unescape_loop [] = []
unescape_loop (c ∷ []) = c ∷ []
unescape_loop (c ∷ d ∷ s) =
    let after = unescape_loop s in
    let verbatim = c ∷ unescape_loop (d ∷ s) in
    if c == backslash
    then elim (escape_value d) [ some b ↦ b ∷ after | none ↦ verbatim ]
    else verbatim

unfoldable pub unescape_string : Bytes → Bytes
unfolding unescape_loop has_byte
unescape_string s = if has_byte backslash s then unescape_loop s else s

-- No Go error comes out of the scanner.
pub data NoError : Type 0 where

abbrev pub Scan : Type 0 → Type 0
Scan A = Result NoError A

abbrev pub prepend : Bytes → Scan (Bytes × Bytes) → Scan (Bytes × Bytes)
prepend p (ok (raw, rest)) = ok (p ++ raw, rest)
prepend p (fail e) = fail e

-- The body of a string literal behind its quote `q`, and what follows the closing quote. A missing
-- closing quote ends the body at the end of the text; a lone backslash there moves the source's
-- `j` past the end, and the slice `s[i+1:j]` panics.
unfoldable pub scan_string : ℕ → Bytes → Scan (Bytes × Bytes)
scan_string q [] = ok ([], [])
scan_string q (c ∷ []) =
    if c == q then ok ([], []) else if c == backslash then fail panic else ok (c ∷ [], [])
scan_string q (c ∷ d ∷ s) =
    let escaped = prepend (c ∷ d ∷ []) (scan_string q s) in
    let plain = prepend (c ∷ []) (scan_string q (d ∷ s)) in
    if c == q then ok ([], d ∷ s) else if c == backslash then escaped else plain

abbrev pub Lexeme : Type 0
Lexeme = Option Token × Bytes

abbrev pub literal : Scan (Bytes × Bytes) → Scan Lexeme
literal (ok (raw, rest)) = ok (some (token string (unescape_string raw)), rest)
literal (fail e) = fail e

abbrev fuses : ℕ → ℕ → Bool
fuses c d =
    (c == b'-' && d == b'>')
    || (c == b'<' && d == b'>')
    || (c == b'>' && d == b'=')
    || (c == b'<' && d == b'=')
    || (c == b'=' && d == b'~')

unfoldable pub is_hop_byte : ℕ → Bool
is_hop_byte c = is_digit c || c == b'.'

unfoldable pub single : ℕ → Bytes → Lexeme
unfolding is_hop_byte span
single c s =
    if c == b'*'
    then (let (spec, rest) = span is_hop_byte s in (some (token hops spec), rest))
    else (some (token punct (c ∷ [])), s)

unfoldable pub lex_punct : ℕ → Bytes → Lexeme
unfolding single
lex_punct c [] = single c []
lex_punct c (d ∷ s) = if fuses c d then (some (token punct (c ∷ d ∷ [])), s) else single c (d ∷ s)

-- A decimal point and its digits, taken only when a digit follows the point.
unfoldable pub fraction : Bytes → Bytes × Bytes
unfolding span
fraction (p ∷ d ∷ s) =
    if p == b'.' && is_digit d
    then (let (ds, rest) = span is_digit (d ∷ s) in (p ∷ ds, rest))
    else ([], p ∷ d ∷ s)
fraction s = ([], s)

unfoldable pub lex_number : Bytes → Lexeme
unfolding fraction span
lex_number s =
    let (whole, after) = span is_digit s in
    let (part, rest) = fraction after in (some (token number (whole ++ part)), rest)

abbrev pub keywords : List String
keywords =
    "MATCH" ∷ "WHERE" ∷ "RETURN" ∷ "ORDER" ∷ "BY" ∷ "LIMIT" ∷ "DISTINCT" ∷ "AND" ∷ "OR" ∷ "NOT"
    ∷ "CONTAINS" ∷ "STARTS" ∷ "ENDS" ∷ "WITH" ∷ "ASC" ∷ "DESC" ∷ "COUNT" ∷ "IN" ∷ "IS" ∷ "NULL"
    ∷ "TRUE" ∷ "FALSE" ∷ []

abbrev starts_word : ℕ → Bool
starts_word c = is_lower c || is_capital c || c == b'_'

abbrev in_word : ℕ → Bool
in_word c = is_lower c || is_capital c || is_digit c || c == b'_'

unfoldable pub word_token : Bytes → Token
unfolding one_of to_upper
word_token word =
    if one_of (to_upper word) keywords then token keyword (to_upper word) else token ident word

unfoldable pub lex_word : Bytes → Lexeme
unfolding word_token span
lex_word s = let (word, rest) = span in_word s in (some (word_token word), rest)

-- One round of the loop: the token, if the round appends one, and the text that is left.
unfoldable pub lex_one : ℕ → Bytes → Scan Lexeme
lex_one c s =
    if c == b' ' || c == 9 || c == 10 || c == 13
    then ok (none, s)
    else if c == 39 || c == b'"'
    then literal (scan_string c s)
    else if has_byte c (codes "()[]{}:,.*+-><=!~|")
    then ok (lex_punct c s)
    else if is_digit c
    then ok (lex_number (c ∷ s))
    else if starts_word c
    then ok (lex_word (c ∷ s))
    else ok (none, s)

abbrev pub emit : Option Token → Scan (List Token) → Scan (List Token)
emit none r = r
emit (some t) (ok ts) = ok (t ∷ ts)
emit (some t) (fail e) = fail e

abbrev pub go_on : (Bytes → Scan (List Token)) → Scan Lexeme → Scan (List Token)
go_on more (ok (t, rest)) = emit t (more rest)
go_on more (fail e) = fail e

unfoldable pub lex : ℕ → Bytes → Scan (List Token)
lex fuel [] = ok []
lex zero (c ∷ s) = fail out_of_fuel
lex (suc fuel) (c ∷ s) = go_on (lex fuel) (lex_one c s)

unfoldable pub tokenize : Bytes → Scan (List Token)
unfolding lex lex_one scan_string lex_punct lex_number lex_word unescape_string has_byte
tokenize s = lex (length s) s
