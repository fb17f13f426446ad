-- ===== src/Cypher/Parser/Query.antt =====
-- The clause loop: `parseQuery` and `parse` of internal/cypher/engine.go.
use pincher_mcp.Prelude.{
  ℕ, zero, suc, Bool, true, false, not, ◌||◌, [], ◌∷◌, ◌++◌, Option, none, some, if◌then◌else◌,
  Bytes, codes, is, has_byte, to_upper, length, Atoi, number, syntax, range, atoi, Result, ok, fail,
  error, panic, out_of_fuel,
}
use pincher_mcp.Cypher.Token.{Token, is_number}
use pincher_mcp.Cypher.Lexer.{Scan, tokenize}
use pincher_mcp.Cypher.Ast.{WhereExpr, and_op, binary_expr, QueryAst}
use pincher_mcp.Cypher.Flatten.{flatten_where}
use pincher_mcp.Cypher.Typos.{nearest_clause_keyword, is_cypher_write_keyword}
use pincher_mcp.Cypher.Where.{Host}
use pincher_mcp.Cypher.Parser.{
  ParseError, chained_edges, where_after_return, multi_column_order, with_clause, comma_patterns,
  no_match_clause, no_return_clause, limit_negative, limit_not_number, limit_float,
  limit_out_of_range, write_keyword, unexpected_token, Tokens, Parse, ◌>>=◌, ◌>>◌, pure, raise,
  peek, next, next_value, peek_is, skip, expect, and_then,
}
use pincher_mcp.Cypher.Parser.WhereClause.{parse_where}
use pincher_mcp.Cypher.Parser.PatternClause.{parse_pattern}
use pincher_mcp.Cypher.Parser.ReturnClause.{is_agg_fn, is_star, parse_return}

-- The query so far, and whether RETURN was seen.
pub record Progress : Type 0 where
  pub query : QueryAst
  pub seen_return : Bool

abbrev pub start : Progress
start = record {
  query = record {
    patterns = [];
    conditions = [];
    where_expr = none;
    return_vars = [];
    order_by = [];
    order_dir = [];
    limit = none;
    distinct = false;
  };
  seen_return = false;
}

unfoldable pub match_clause : Progress → Parse Progress
match_clause s = do
  next
  pat ← parse_pattern
  t ← peek
  if is t.value "-" || is t.value "<"
      then raise chained_edges
      else pure (record s { query = record s.query { patterns = s.query.patterns ++ pat ∷ [] } })

-- Several WHERE clauses are joined by AND.
abbrev pub join_where : Option WhereExpr → WhereExpr → WhereExpr
join_where none w = w
join_where (some v) w = binary_expr and_op v w

abbrev pub set_where : WhereExpr → QueryAst → QueryAst
set_where w q = record q { where_expr = some w; conditions = flatten_where (some w) }

unfoldable pub return_clause : Progress → Parse Progress
return_clause s = do
  next
  distinct ← peek_is "DISTINCT"
  if distinct
      then (do
        next
        vars ← parse_return
        pure (record {
          query = record s.query { return_vars = vars; distinct = true };
          seen_return = true;
        }))
      else (do
        vars ← parse_return
        pure (record { query = record s.query { return_vars = vars }; seen_return = true }))

-- `.name` behind a sort key, where there is one
unfoldable pub dotted : Bytes → Parse Bytes
dotted v = do
  dot ← peek_is "."
  if dot then (do next; p ← next_value; pure (v ++ b'.' ∷ p)) else pure v

unfoldable pub sort_argument : Parse Bytes
sort_argument = do t ← peek; next; if is_star t then pure (codes "*") else dotted t.value

unfoldable pub sort_key : Parse Bytes
sort_key = do
  t ← peek
  next
  if is_agg_fn t.value
      then (do
        skip "("
        v ← sort_argument
        expect ")"
        pure (to_upper t.value ++ b'(' ∷ v ++ b')' ∷ []))
      else dotted t.value

unfoldable pub direction : Bytes → Parse Bytes
direction old = do
  t ← peek
  if is t.value "DESC"
      then (do next; pure (codes "DESC"))
      else if is t.value "ASC"
      then (do next; pure old)
      else pure old

unfoldable pub order_clause : Progress → Parse Progress
order_clause s = do
  next
  skip "BY"
  key ← sort_key
  dir ← direction s.query.order_dir
  comma ← peek_is ","
  if comma
      then raise multi_column_order
      else pure (record s { query = record s.query { order_by = key; order_dir = dir } })

unfoldable pub contains_float_mark : Bytes → Bool
contains_float_mark v = has_byte b'.' v || has_byte b'e' v || has_byte b'E' v

abbrev pub take_limit : Token → Progress → Atoi → Parse Progress
take_limit tok s (number n) = pure (record s { query = record s.query { limit = some n } })
take_limit tok s range = raise (limit_out_of_range tok.value)
take_limit tok s syntax = raise (limit_out_of_range tok.value)

unfoldable pub limit_clause : Progress → Parse Progress
limit_clause s = do
  next
  tok ← peek
  if is tok.value "-"
      then raise limit_negative
      else if not (is_number tok.kind)
      then raise (limit_not_number tok.value tok.kind)
      else if contains_float_mark tok.value
      then raise (limit_float tok.value)
      else (do next; take_limit tok s (atoi tok.value))

unfoldable pub other_token : Progress → Parse Progress
other_token s = do
  t ← peek
  if is_cypher_write_keyword t.value
      then raise (write_keyword t.value)
      else if is t.value ","
      then raise comma_patterns
      else raise (unexpected_token t.value (nearest_clause_keyword t.value))

unfoldable pub finish : Progress → Parse QueryAst
finish s ts = elim s.query.patterns [
  | [] ↦ raise no_match_clause ts
  | pat ∷ pats ↦ elim s.query.return_vars [
    | [] ↦ raise no_return_clause ts
    | rv ∷ rvs ↦ ok (s.query, ts)
  ]
]

abbrev pub answer : Result ParseError (QueryAst × Tokens) → Result ParseError QueryAst
answer (ok (q, ts)) = ok q
answer (fail e) = fail e

module _ (host : Host) where
  unfoldable pub where_clause : Progress → Parse Progress
  where_clause s = if s.seen_return then raise where_after_return else (do
    next
    w ← parse_where host
    pure (record s { query = set_where (join_where s.query.where_expr w) s.query }))

  -- One round of the loop over clauses.
  unfoldable pub clause : Progress → Parse Progress
  clause s = do
    t ← peek
    if is t.value "MATCH"
        then match_clause s
        else if is t.value "WHERE"
        then where_clause s
        else if is t.value "RETURN"
        then return_clause s
        else if is t.value "ORDER"
        then order_clause s
        else if is t.value "LIMIT"
        then limit_clause s
        else if is t.value "WITH"
        then raise with_clause
        else other_token s

  unfoldable pub clauses : ℕ → Progress → Parse QueryAst
  clauses fuel s [] = finish s []
  clauses zero s (t ∷ ts) = fail out_of_fuel
  clauses (suc fuel) s (t ∷ ts) = and_then (clauses fuel) (clause s (t ∷ ts))

  unfoldable pub parse_query : Tokens → Result ParseError QueryAst
  parse_query ts = answer (clauses (length ts) start ts)

  abbrev pub parse_tokens : Scan Tokens → Result ParseError QueryAst
  parse_tokens (ok ts) = parse_query ts
  parse_tokens (fail panic) = fail panic
  parse_tokens (fail out_of_fuel) = fail out_of_fuel
  parse_tokens (fail (error e)) = elim e [ ]

  unfoldable pub parse : Bytes → Result ParseError QueryAst
  parse text = parse_tokens (tokenize text)
