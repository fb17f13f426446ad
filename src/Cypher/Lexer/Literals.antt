-- ===== src/Cypher/Lexer/Literals.antt =====
-- String literals of `tokenize` and `unescapeString` in internal/cypher/engine.go, against the
-- literal that spells a given text.
use pincher_mcp.Prelude.{
  ℕ, ◌≡◌, refl, ◌⊎◌, inl, inr, true, false, ◌||◌, [], ◌∷◌, ◌++◌, arith, ◌==◌, ==_refl,
  if◌then◌else◌, Bool-cases, Bytes, has_byte, ok, fail, panic, some,
}
use pincher_mcp.Cypher.Token.{token, string}
use pincher_mcp.Cypher.Lexer.{
  backslash, unescape_loop, unescape_string, scan_string, prepend, lex_one,
}

-- The literal's spelling of a text: a backslash before every backslash and quote.
abbrev pub escape : Bytes → Bytes
escape [] = []
escape (c ∷ s) =
    let rest = escape s in
    if c == backslash || c == b'"' || c == 39 then backslash ∷ c ∷ rest else c ∷ rest

unescape_loop-plain :
    (c : ℕ) (s : Bytes) → (c == backslash) ≡ false → unescape_loop (c ∷ s) ≡ c ∷ unescape_loop s
unfolding unescape_loop
unescape_loop-plain c [] h = refl
unescape_loop-plain c (d ∷ s) h = rw h

unescape_loop-special :
    (c : ℕ) (s : Bytes)
    → (c == backslash || c == b'"' || c == 39) ≡ true
    → unescape_loop (backslash ∷ c ∷ s) ≡ c ∷ unescape_loop s
unfolding unescape_loop
unescape_loop-special c s h = ground arith

unescape_loop_identity : (s : Bytes) → has_byte backslash s ≡ false → unescape_loop s ≡ s
unfolding has_byte
unescape_loop_identity [] h = unfold unescape_loop in refl
unescape_loop_identity (c ∷ s) h = ground (arith, unescape_loop-plain c s, unescape_loop_identity s)

-- The early return of `unescapeString` changes no result.
unescape_string-eq-loop : (s : Bytes) → unescape_string s ≡ unescape_loop s
unfolding unescape_string
unescape_string-eq-loop s = ground (arith, unescape_loop_identity s)

unescape_loop-escape : (s : Bytes) → unescape_loop (escape s) ≡ s
unescape_loop-escape [] = unfold unescape_loop in refl
unescape_loop-escape (c ∷ s) = elim (Bool-cases (c == backslash || c == b'"' || c == 39)) [
  | inl special ↦
      rw special (rw (unescape_loop-special c (escape s) special) (rw (unescape_loop-escape s)))
  | inr plain ↦
      rw plain (rw (unescape_loop-plain c (escape s) (ground arith)) (rw (unescape_loop-escape s)))
]

-- `unescapeString` undoes the spelling, for every text.
pub unescape_string-escape : (s : Bytes) → unescape_string (escape s) ≡ s
unescape_string-escape s = rw unescape_string-eq-loop (unescape_loop-escape s)

scan_string-plain :
    (q c : ℕ) (s : Bytes)
    → (c == q) ≡ false
    → (c == backslash) ≡ false
    → scan_string q (c ∷ s) ≡ prepend (c ∷ []) (scan_string q s)
unfolding scan_string
scan_string-plain q c [] h k = rw h (rw k)
scan_string-plain q c (d ∷ s) h k = rw h (rw k)

scan_string-escaped :
    (q c : ℕ) (s : Bytes)
    → (backslash == q) ≡ false
    → scan_string q (backslash ∷ c ∷ s) ≡ prepend (backslash ∷ c ∷ []) (scan_string q s)
unfolding scan_string
scan_string-escaped q c s h = rw h

scan_string-end : (q : ℕ) (s : Bytes) → scan_string q (q ∷ s) ≡ ok ([], s)
unfolding scan_string
scan_string-end q [] = rw ==_refl
scan_string-end q (d ∷ s) = rw ==_refl

abbrev pub IsQuote : ℕ → Type 0
IsQuote q = (q ≡ 39) ⊎ (q ≡ b'"')

scan_string-escape :
    (q : ℕ) (s rest : Bytes)
    → IsQuote q
    → scan_string q (escape s ++ q ∷ rest) ≡ ok (escape s, rest)
scan_string-escape q [] rest h = scan_string-end q rest
scan_string-escape q (c ∷ s) rest h = elim (Bool-cases (c == backslash || c == b'"' || c == 39)) [
  | inl special ↦ rw special (
      rw (scan_string-escaped q c (escape s ++ q ∷ rest) (ground arith))
        (rw (scan_string-escape q s rest h)))
  | inr plain ↦ rw plain (
      rw (scan_string-plain q c (escape s ++ q ∷ rest) (ground arith) (ground arith))
        (rw (scan_string-escape q s rest h)))
]

-- One round of the scanner on a spelled literal.
pub lex_one-literal :
    (q : ℕ) (s rest : Bytes)
    → IsQuote q
    → lex_one q (escape s ++ q ∷ rest) ≡ ok (some (token string s), rest)
unfolding lex_one
lex_one-literal q s rest h = ground (arith, scan_string-escape q s rest h, unescape_string-escape s)

-- A body with neither the quote nor a backslash, and then a lone backslash at the end of the text.
pub scan_string_panics :
    (q : ℕ) (s : Bytes)
    → IsQuote q
    → has_byte q s ≡ false
    → has_byte backslash s ≡ false
    → scan_string q (s ++ backslash ∷ []) ≡ fail panic
unfolding has_byte
scan_string_panics q [] h k l = unfold scan_string in ground arith
scan_string_panics q (c ∷ s) h k l =
    ground (arith, scan_string-plain q c (s ++ backslash ∷ []), scan_string_panics q s)
