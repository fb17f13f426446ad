-- ===== src/Cypher/Parser/Condition.antt =====
-- One leaf of WHERE: `parseOneCondition`, `normalizeConditionValue`, `isExpressionBoundary` and
-- `operatorHint` of internal/cypher/engine.go.
use pincher_mcp.Prelude.{
  ℕ, zero, suc, Bool, true, false, not, ◌&&◌, ◌||◌, [], ◌∷◌, ◌++◌, Option, none, some,
  if◌then◌else◌, Bytes, codes, is, is_empty, one_of, to_upper, fail, out_of_fuel,
}
use pincher_mcp.Cypher.Token.{
  Kind, Token, keyword, ident, number, string, punct, hops, eof, is_eof, is_keyword,
}
use pincher_mcp.Cypher.Ast.{
  Op, eq, ne, gt, lt, ge, le, matches, contains, starts_with, ends_with, is_null, is_not_null,
  in_list, Condition,
}
use pincher_mcp.Cypher.Columns.{cypher_prop_to_col, is_bool_col}
use pincher_mcp.Cypher.Where.{Host}
use pincher_mcp.Cypher.Parser.{
  Hint, use_contains, use_match_operator, use_starts_with, use_ends_with, use_regex_match,
  no_arithmetic, no_between, no_function_calls, invalid_regex, in_parens, in_empty, in_literal,
  in_separator, bang_equals, unsupported_operator, needs_operator, Parse, ◌>>=◌, ◌>>◌, pure, raise,
  first, rest_of, peek, next, next_value, peek_is, skip, expect, remaining,
}

abbrev keyword_value : Bytes → Bytes
keyword_value v =
    if is v "TRUE"
    then codes "1"
    else if is v "FALSE"
    then codes "0"
    else if is v "NULL"
    then []
    else v

unfoldable pub normalize_condition_value : Token → Bytes
normalize_condition_value tok = if is_keyword tok.kind then keyword_value tok.value else tok.value

unfoldable pub is_expression_boundary : Token → Bool
is_expression_boundary tok =
    is_eof tok.kind || one_of tok.value (")" ∷ "AND" ∷ "OR" ∷ "RETURN" ∷ "ORDER" ∷ "LIMIT" ∷ [])

unfoldable pub operator_hint : Bytes → Option Hint
operator_hint op =
    let up = to_upper op in
    if is up "LIKE"
    then some use_contains
    else if one_of up ("REGEXP" ∷ "RLIKE" ∷ [])
    then some use_match_operator
    else if is up "STARTS_WITH"
    then some use_starts_with
    else if is up "ENDS_WITH"
    then some use_ends_with
    else if is up "MATCHES"
    then some use_regex_match
    else if one_of up ("+" ∷ "-" ∷ "*" ∷ "/" ∷ [])
    then some no_arithmetic
    else if is up "BETWEEN"
    then some no_between
    else if is up "("
    then some no_function_calls
    else none

-- The operators that are compared with one value.
unfoldable pub comparison : Bytes → Option Op
comparison v =
    if is v "="
    then some eq
    else if is v "<>"
    then some ne
    else if is v ">"
    then some gt
    else if is v "<"
    then some lt
    else if is v ">="
    then some ge
    else if is v "<="
    then some le
    else none

abbrev pub blank : Bytes → Bytes → Condition
blank variable property = record {
  variable = variable;
  property = property;
  op = eq;
  value = [];
  in_values = [];
  negated = false;
  connector = none;
  rhs_variable = [];
  rhs_property = [];
  value_kind = none;
}

abbrev pub with_value : Op → Token → Condition → Condition
with_value op tok c = record c {
  op = op;
  value = normalize_condition_value tok;
  value_kind = some tok.kind;
}

-- The token behind the operator.
unfoldable pub value_leaf : Op → Condition → Parse Condition
value_leaf op c = do t ← next; pure (with_value op t c)

-- A comparison, whose right side may be another column.
unfoldable pub comparison_leaf : Op → Condition → Parse Condition
comparison_leaf op c = do
  next
  t ← next
  dot ← peek_is "."
  if dot
      then (do
        next
        p ← next_value
        pure (record c { op = op; rhs_variable = normalize_condition_value t; rhs_property = p }))
      else pure (with_value op t c)

unfoldable pub null_leaf : Condition → Parse Condition
null_leaf c = do
  next
  negative ← peek_is "NOT"
  if negative
      then (do next; skip "NULL"; pure (record c { op = is_not_null }))
      else (do skip "NULL"; pure (record c { op = is_null }))

abbrev pub is_literal : Kind → Bool
is_literal string = true
is_literal number = true
is_literal keyword = true
is_literal ident = true
is_literal punct = false
is_literal hops = false
is_literal eof = false

abbrev first_kind : Option Kind → Kind → Option Kind
first_kind none k = some k
first_kind (some j) k = some j

abbrev pub with_item : Token → Condition → Condition
with_item tok c = record c {
  in_values = c.in_values ++ normalize_condition_value tok ∷ [];
  value_kind = first_kind c.value_kind tok.kind;
}

unfoldable pub in_items : ℕ → Condition → Parse Condition
in_items zero c = λ ts. fail out_of_fuel
in_items (suc fuel) c = do
  tok ← next
  if is_literal tok.kind
      then (do
        sep ← peek
        if is sep.value ","
            then (do next; in_items fuel (with_item tok c))
            else if is sep.value "]"
            then (do next; pure (with_item tok c))
            else raise (in_separator sep.value))
      else raise (in_literal tok.value tok.kind)

unfoldable pub in_leaf : Condition → Parse Condition
in_leaf c = do
  next
  paren ← peek_is "("
  if paren then raise in_parens else (do
    expect "["
    empty ← peek_is "]"
    if empty
        then raise in_empty
        else (do n ← remaining; in_items (suc n) (record c { op = in_list })))

module _ (host : Host) where
  open host use {compile}

  regex_compiles : Bytes → Bool
  regex_compiles v = elim (compile v) [ some re ↦ true | none ↦ false ]

  unfoldable pub regex_leaf : Condition → Parse Condition
  unfolding regex_compiles
  regex_leaf c = do
    next
    t ← next
    if regex_compiles (normalize_condition_value t)
        then pure (with_value matches t c)
        else raise (invalid_regex (normalize_condition_value t))

unfoldable pub bang_leaf : Condition → Parse Condition
bang_leaf c ts =
    if is (first (rest_of ts)).value "="
    then raise bang_equals ts
    else raise (unsupported_operator (first ts).value none) ts

-- A property with no operator behind it is a Boolean column, or an error.
unfoldable pub naked_leaf : Condition → Parse Condition
naked_leaf c = do
  t ← peek
  if not (is_empty c.property) && is_expression_boundary t
      then (if is_bool_col (cypher_prop_to_col c.property)
          then pure (record c { op = eq; value = codes "1" })
          else raise (needs_operator c.variable c.property t.value))
      else raise (unsupported_operator t.value (operator_hint t.value))

unfoldable pub left_side : Parse Condition
left_side = do
  v ← next_value
  dot ← peek_is "."
  if dot then (do next; p ← next_value; pure (blank v p)) else pure (blank v [])

module _ (host : Host) where
  unfoldable pub operator_leaf : Condition → Parse Condition
  operator_leaf c = do
    t ← peek
    elim (comparison t.value) [
      | some op ↦ comparison_leaf op c
      | none ↦
          if is t.value "=~"
          then regex_leaf host c
          else if is t.value "CONTAINS"
          then (do next; value_leaf contains c)
          else if is t.value "STARTS"
          then (do next; skip "WITH"; value_leaf starts_with c)
          else if is t.value "ENDS"
          then (do next; skip "WITH"; value_leaf ends_with c)
          else if is t.value "IS"
          then null_leaf c
          else if is t.value "IN"
          then in_leaf c
          else if is t.value "!"
          then bang_leaf c
          else naked_leaf c
    ]

  unfoldable pub parse_one_condition : Parse Condition
  parse_one_condition = do c ← left_side; operator_leaf c
