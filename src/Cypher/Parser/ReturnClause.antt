-- ===== src/Cypher/Parser/ReturnClause.antt =====
-- RETURN items: `parseReturn` and `isAggFn` of internal/cypher/engine.go.
use pincher_mcp.Prelude.{
  ℕ, zero, suc, Bool, true, false, ◌&&◌, ◌||◌, List, [], ◌∷◌, ◌++◌, if◌then◌else◌, Bytes, codes, is,
  is_empty, one_of, to_upper, fail, out_of_fuel,
}
use pincher_mcp.Cypher.Token.{Token, is_hops, is_keyword}
use pincher_mcp.Cypher.Ast.{ReturnVar}
use pincher_mcp.Cypher.Parser.{
  distinct_in_aggregate, count_distinct_star, count_distinct_whole, unknown_function, return_star,
  Parse, ◌>>=◌, ◌>>◌, pure, raise, peek, next, next_value, peek_is, skip, expect, remaining,
}

unfoldable pub is_agg_fn : Bytes → Bool
unfolding one_of to_upper
is_agg_fn tok = one_of (to_upper tok) ("COUNT" ∷ "AVG" ∷ "MIN" ∷ "MAX" ∷ "SUM" ∷ [])

abbrev pub blank_var : ReturnVar
blank_var = record { variable = []; property = []; alias = []; fn = []; distinct = false }

-- `DISTINCT` inside an aggregate, which only COUNT takes
unfoldable pub distinct_part : ReturnVar → Parse ReturnVar
distinct_part rv = do
  t ← peek
  if is_keyword t.kind && is t.value "DISTINCT"
      then (if is rv.fn "COUNT"
          then (do next; pure (record rv { distinct = true }))
          else raise (distinct_in_aggregate rv.fn))
      else pure rv

-- `.property`, where there is one
unfoldable pub property_part : ReturnVar → Parse ReturnVar
property_part rv = do
  dot ← peek_is "."
  if dot then (do next; p ← next_value; pure (record rv { property = p })) else pure rv

-- The scanner reads a lone `*` as an empty HOPS token.
abbrev pub is_star : Token → Bool
is_star t = is_hops t.kind && is_empty t.value

unfoldable pub argument_part : ReturnVar → Parse ReturnVar
argument_part rv = do
  t ← peek
  next
  if is_star t
      then pure (record rv { variable = codes "*" })
      else property_part (record rv { variable = t.value })

unfoldable pub check_distinct : ReturnVar → Parse ReturnVar
check_distinct rv =
    if rv.distinct && is rv.variable "*"
    then raise count_distinct_star
    else if rv.distinct && is_empty rv.property
    then raise (count_distinct_whole rv.variable)
    else pure rv

unfoldable pub aggregate : Bytes → Parse ReturnVar
aggregate name = do
  next
  skip "("
  rv ← distinct_part (record blank_var { fn = to_upper name })
  rv' ← argument_part rv
  checked ← check_distinct rv'
  expect ")"
  pure checked

unfoldable pub plain_item : Parse ReturnVar
plain_item = do
  tok ← next
  call ← peek_is "("
  if call
      then raise (unknown_function tok.value)
      else if is_hops tok.kind || is_empty tok.value
      then raise return_star
      else property_part (record blank_var { variable = tok.value })

unfoldable pub alias_part : ReturnVar → Parse ReturnVar
alias_part rv = do
  as_word ← peek_is "AS"
  if as_word then (do next; a ← next_value; pure (record rv { alias = a })) else pure rv

unfoldable pub return_item : Parse ReturnVar
return_item = do
  t ← peek
  rv ← (if is_agg_fn t.value then aggregate t.value else plain_item)
  alias_part rv

abbrev pub ends_return : Bytes → Bool
ends_return v = is v "WHERE" || is v "ORDER" || is v "LIMIT" || is v "MATCH"

unfoldable pub return_loop : ℕ → List ReturnVar → Parse (List ReturnVar)
return_loop zero vars = λ ts. fail out_of_fuel
return_loop (suc fuel) vars = do
  rv ← return_item
  comma ← peek_is ","
  if comma
      then (do
        next
        t ← peek
        if ends_return t.value then pure (vars ++ rv ∷ []) else return_loop fuel (vars ++ rv ∷ []))
      else pure (vars ++ rv ∷ [])

unfoldable pub parse_return : Parse (List ReturnVar)
parse_return = do n ← remaining; return_loop (suc n) []
