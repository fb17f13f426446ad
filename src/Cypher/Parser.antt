-- ===== src/Cypher/Parser.antt =====
-- The parser of internal/cypher/engine.go: the state, the errors, and `peek`, `next`, `skip` and
-- `expect`. The index `pos` is the list of tokens from `pos` on; past the end it is empty.
pub mod Condition
pub mod WhereClause
pub mod PatternClause
pub mod ReturnClause
pub mod Query
pub mod Total
pub mod LeafTotality
pub mod WhereTotality
pub mod PatternTotality
pub mod QueryTotality
pub mod Ranges
pub mod WellFormed
use pincher_mcp.Prelude.{
  ℕ, String, Bool, List, [], ◌∷◌, Option, if◌then◌else◌, Bytes, codes, is, str_eq, length, Result,
  ok, fail, error,
}
use pincher_mcp.Cypher.Token.{Kind, Token, is_eof, end_of_query}

-- The hints of `operatorHint`.
pub data Hint : Type 0 where
  use_contains use_match_operator use_starts_with use_ends_with use_regex_match : Hint
  no_arithmetic no_between no_function_calls : Hint

-- One constructor for each error message, with what the message shows of the query.
pub data ParseError : Type 0 where
  unbalanced : String → Bytes → ParseError
  unclosed_group : Bytes → ParseError
  chained_edges where_after_return multi_column_order with_clause comma_patterns : ParseError
  no_match_clause no_return_clause outbound_only : ParseError
  limit_negative : ParseError
  limit_not_number : Bytes → Kind → ParseError
  limit_float limit_out_of_range : Bytes → ParseError
  write_keyword : Bytes → ParseError
  unexpected_token : Bytes → Option String → ParseError
  invalid_regex : Bytes → ParseError
  in_parens in_empty : ParseError
  in_literal : Bytes → Kind → ParseError
  in_separator : Bytes → ParseError
  bang_equals : ParseError
  unsupported_operator : Bytes → Option Hint → ParseError
  needs_operator : Bytes → Bytes → Bytes → ParseError
  distinct_in_aggregate : Bytes → ParseError
  count_distinct_star : ParseError
  count_distinct_whole : Bytes → ParseError
  unknown_function : Bytes → ParseError
  return_star : ParseError

abbrev pub Tokens : Type 0
Tokens = List Token

abbrev pub Parse : Type 0 → Type 0
Parse A = Tokens → Result ParseError (A × Tokens)

module _ {A B : Type 0} where
  abbrev pub and_then :
      (A → Parse B) → Result ParseError (A × Tokens) → Result ParseError (B × Tokens)
  and_then f (ok (a, rest)) = f a rest
  and_then f (fail e) = fail e

  infixl 5 ◌>>=◌ ◌>>◌
  unfoldable pub ◌>>=◌ : Parse A → (A → Parse B) → Parse B
  ◌>>=◌ m f ts = and_then f (m ts)

  unfoldable pub ◌>>◌ : Parse A → Parse B → Parse B
  ◌>>◌ m n ts = and_then (λ _. n) (m ts)

unfoldable pub pure : {A : Type 0} → A → Parse A
pure a ts = ok (a, ts)

unfoldable pub raise : {A : Type 0} → ParseError → Parse A
raise e ts = fail (error e)

abbrev pub first : Tokens → Token
first [] = end_of_query
first (t ∷ ts) = t

abbrev pub rest_of : Tokens → Tokens
rest_of [] = []
rest_of (t ∷ ts) = ts

unfoldable pub peek : Parse Token
peek ts = ok (first ts, ts)

unfoldable pub next : Parse Token
next ts = ok (first ts, rest_of ts)

unfoldable pub next_value : Parse Bytes
next_value ts = ok ((first ts).value, rest_of ts)

-- `p.peek().value == val`
unfoldable pub peek_is : String → Parse Bool
peek_is val ts = ok (is (first ts).value val, ts)

unfoldable pub skip : String → Parse (Unit {0})
skip val ts = if is (first ts).value val then ok (tt, rest_of ts) else ok (tt, ts)

abbrev shown : Token → Bytes
shown t = if is_eof t.kind then codes "end of query" else t.value

-- The error shows the token, or that the query ended. `IN` wraps it in a text of its own.
unfoldable pub expect : String → Parse (Unit {0})
expect val ts =
    if is (first ts).value val
    then ok (tt, rest_of ts)
    else fail (error (unbalanced val (shown (first ts))))

-- The number of tokens that are left; no code of the source, it only measures fuel.
unfoldable pub remaining : Parse ℕ
remaining ts = ok (length ts, ts)
