-- ===== src/Cypher/Lexer/Reading.antt =====
-- `tokenize` of internal/cypher/engine.go on string literals, closed and open.
use pincher_mcp.Prelude.{
  ℕ, zero, suc, ◌≤◌, ◌≡◌, refl, ap, false, List, [], ◌∷◌, ◌++◌, arith, Bytes, has_byte, length,
  length-append, some, ok, fail, panic,
}
use pincher_mcp.Cypher.Token.{Token, token, string}
use pincher_mcp.Cypher.Lexer.{backslash, Scan, Lexeme, lex_one, emit, go_on, lex, tokenize}
use pincher_mcp.Cypher.Lexer.Literals.{escape, IsQuote, lex_one-literal, scan_string_panics}
use pincher_mcp.Cypher.Lexer.Totality.{Leaves, after, Scanned, lex_one-Scanned}

-- Fuel above the length of the text changes nothing.
go_on-eq :
    (more other : Bytes → Scan (List Token)) (s : Bytes) (r : Scan Lexeme)
    → ((rest : Bytes) → Leaves s rest → more rest ≡ other rest)
    → Scanned s after r
    → go_on more r ≡ go_on other r
go_on-eq more other s (ok (t, rest)) k l = ap (emit t) (k rest l)
go_on-eq more other s (fail e) k l = refl

lex_enough :
    (fuel more : ℕ) (s : Bytes) → length s ≤ fuel → length s ≤ more → lex fuel s ≡ lex more s
unfolding lex
lex_enough fuel more [] h k = refl
lex_enough zero more (c ∷ s) h k = absurd (omega arith)
lex_enough (suc fuel) zero (c ∷ s) h k = absurd (omega arith)
lex_enough (suc fuel) (suc more) (c ∷ s) h k =
    go_on-eq (lex fuel) (lex more) s (lex_one c s)
      (λ rest l. lex_enough fuel more rest (omega (arith, l.shorter)) (omega (arith, l.shorter)))
      (lex_one-Scanned c s)

lex-fuel_zero : (fuel : ℕ) → lex fuel [] ≡ ok []
unfolding lex
lex-fuel_zero zero = refl
lex-fuel_zero (suc f) = refl

lex-cons : (fuel c : ℕ) (s : Bytes) → lex (suc fuel) (c ∷ s) ≡ go_on (lex fuel) (lex_one c s)
unfolding lex
lex-cons fuel c s = refl

-- A text, spelled as a literal in either quote, is read back as one string token with exactly that
-- text, whatever follows the literal in the query.
pub tokenize-literal :
    (q : ℕ) (s rest : Bytes)
    → IsQuote q
    → tokenize (q ∷ escape s ++ q ∷ rest) ≡ emit (some (token string s)) (tokenize rest)
unfolding tokenize
tokenize-literal q s rest h =
    rw
      (
        lex-cons (length (escape s ++ q ∷ rest)) q (escape s ++ q ∷ rest),
        lex_one-literal q s rest h,
      )
      (ap (emit (some (token string s))) (
        lex_enough (length (escape s ++ q ∷ rest)) (length rest) rest
          (omega (arith, length-append (escape s) (q ∷ rest))) (omega arith)))

lex_one-panics :
    (q : ℕ) (s : Bytes)
    → IsQuote q
    → has_byte q s ≡ false
    → has_byte backslash s ≡ false
    → lex_one q (s ++ backslash ∷ []) ≡ fail panic
unfolding lex_one
lex_one-panics q s h k l = ground (arith, scan_string_panics q s h k l)

-- A query that opens a string literal, holds neither its quote nor a backslash after that, and ends
-- in one backslash makes the scanner panic.
pub tokenize_panics :
    (q : ℕ) (s : Bytes)
    → IsQuote q
    → has_byte q s ≡ false
    → has_byte backslash s ≡ false
    → tokenize (q ∷ s ++ backslash ∷ []) ≡ fail panic
unfolding tokenize lex
tokenize_panics q s h k l = rw (lex_one-panics q s h k l)
