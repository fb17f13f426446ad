-- ===== src/Cypher/Parser/QueryTotality.antt =====
-- Termination of `parseReturn` and `parseQuery` in internal/cypher/engine.go.
use pincher_mcp.Prelude.{
  ℕ, zero, suc, ◌≤◌, ◌<◌, refl, List, [], ◌∷◌, ◌++◌, arith, if◌then◌else◌, Bool-cases, inl, inr,
  Bytes, str_eq, length, Atoi, number, syntax, range,
}
use pincher_mcp.Cypher.Token.{Token}
use pincher_mcp.Cypher.Ast.{ReturnVar}
use pincher_mcp.Cypher.Where.{Host}
use pincher_mcp.Cypher.Parser.{Tokens, ◌>>=◌, pure, raise, first, peek, remaining}
use pincher_mcp.Cypher.Parser.ReturnClause.{
  distinct_part, property_part, argument_part, check_distinct, aggregate, plain_item, alias_part,
  return_item, ends_return, return_loop, parse_return,
}
use pincher_mcp.Cypher.Parser.Query.{
  Progress, match_clause, return_clause, dotted, sort_argument, sort_key, direction, order_clause,
  take_limit, limit_clause, other_token, finish, where_clause, clause, clauses,
}
use pincher_mcp.Cypher.Parser.Total.{
  Leaves, Leaves-le, Leaves-and_then, Leaves-bind, Leaves-test, Total, total_rules, Total-pure,
  Total-raise, Strict, strict_rules, Strict-if, Strict-raise, Strict-next, Total-bind,
}
use pincher_mcp.Cypher.Parser.WhereClause.{parse_where}
use pincher_mcp.Cypher.Parser.WhereTotality.{parse_where-Total}
use pincher_mcp.Cypher.Parser.PatternTotality.{parse_pattern-Total}

module _ (rv : ReturnVar) where
  distinct_part-Total : Total (distinct_part rv)
  unfolding distinct_part
  distinct_part-Total = search total_rules depth 12

  property_part-Total : Total (property_part rv)
  unfolding property_part
  property_part-Total = search total_rules depth 12

  check_distinct-Total : Total (check_distinct rv)
  unfolding check_distinct
  check_distinct-Total = search total_rules depth 12

  alias_part-Total : Total (alias_part rv)
  unfolding alias_part
  alias_part-Total = search total_rules depth 12

argument_part-Total : (rv : ReturnVar) → Total (argument_part rv)
unfolding argument_part
argument_part-Total rv = search (total_rules, property_part-Total) depth 12

ruleset item_rules = (
  total_rules, distinct_part-Total, property_part-Total, check_distinct-Total, alias_part-Total,
  argument_part-Total,
)

aggregate-Total : (name : Bytes) → Total (aggregate name)
unfolding aggregate
aggregate-Total name = search item_rules depth 15

plain_item-Total : Total plain_item
unfolding plain_item
plain_item-Total = search item_rules depth 15

return_item-Total : Total return_item
unfolding return_item
return_item-Total = search (item_rules, aggregate-Total, plain_item-Total) depth 12

-- What stands behind a comma: the end of the items, or one more.
after_comma-Leaves :
    (fuel : ℕ) (vars : List ReturnVar) (ts : Tokens)
    → Leaves (length ts) (return_loop fuel vars ts)
    → Leaves
        (length ts)
        ((do t ← peek; if ends_return t.value then pure vars else return_loop fuel vars) ts)
unfolding ◌>>=◌ peek pure
after_comma-Leaves fuel vars ts h = elim (Bool-cases (ends_return (first ts).value)) [
  | inl e ↦ rw e (omega arith)
  | inr e ↦ rw e h
]

return_loop-Leaves :
    (fuel : ℕ) (vars : List ReturnVar) (ts : Tokens)
    → length ts < fuel
    → Leaves (length ts) (return_loop fuel vars ts)
unfolding return_loop
return_loop-Leaves zero vars ts h = absurd (omega arith)
return_loop-Leaves (suc fuel) vars ts h =
    Leaves-bind return_item _ ts (length ts) return_item-Total λ rv rest l.
      Leaves-test "," _ (pure (vars ++ rv ∷ [])) rest (length ts) (unfold str_eq in refl)
        (λ rest' l'.
          Leaves-le (length rest') (length ts) _
            (after_comma-Leaves fuel (vars ++ rv ∷ []) rest'
              (return_loop-Leaves fuel (vars ++ rv ∷ []) rest' (omega arith)))
            (omega arith))
        (unfold pure in omega arith)

parse_return-Total : Total parse_return
unfolding parse_return ◌>>=◌ remaining
parse_return-Total = record { at = λ ts. return_loop-Leaves (suc (length ts)) [] ts (omega arith) }

dotted-Total : (v : Bytes) → Total (dotted v)
unfolding dotted
dotted-Total v = search total_rules depth 12

sort_argument-Total : Total sort_argument
unfolding sort_argument
sort_argument-Total = search (total_rules, dotted-Total) depth 12

sort_key-Total : Total sort_key
unfolding sort_key
sort_key-Total = search (total_rules, dotted-Total, sort_argument-Total) depth 15

direction-Total : (old : Bytes) → Total (direction old)
unfolding direction
direction-Total old = search total_rules depth 12

take_limit-Total : (t : Token) (s : Progress) (n : Atoi) → Total (take_limit t s n)
take_limit-Total t s (number n) = Total-pure _
take_limit-Total t s syntax = Total-raise _
take_limit-Total t s range = Total-raise _

ruleset clause_rules = (
  total_rules, strict_rules, parse_return-Total, parse_pattern-Total, sort_key-Total,
  direction-Total, take_limit-Total,
)

module _ (s : Progress) where
  match_clause-Strict : Strict (match_clause s)
  unfolding match_clause
  match_clause-Strict = search clause_rules depth 12

  return_clause-Strict : Strict (return_clause s)
  unfolding return_clause
  return_clause-Strict = search clause_rules depth 12

  order_clause-Strict : Strict (order_clause s)
  unfolding order_clause
  order_clause-Strict = search clause_rules depth 15

  -- LIMIT looks at its value before it decides, and takes the keyword first.
  limit_clause-Strict : Strict (limit_clause s)
  unfolding limit_clause
  limit_clause-Strict = search clause_rules depth 15

  other_token-Strict : Strict (other_token s)
  unfolding other_token
  other_token-Strict = search clause_rules depth 12

module _ (host : Host) where
  where_clause-Strict : (s : Progress) → Strict (where_clause host s)
  unfolding where_clause
  where_clause-Strict s =
      Strict-if s.seen_return _ _ (Strict-raise _)
        (Strict-next _ (Total-bind (parse_where host) _ (parse_where-Total host) λ w. Total-pure _))

  clause-Strict : (s : Progress) → Strict (clause host s)
  unfolding clause
  clause-Strict s =
      search
        (
          strict_rules, match_clause-Strict, where_clause-Strict, return_clause-Strict,
          order_clause-Strict, limit_clause-Strict, other_token-Strict,
        )
        depth 15

  finish-Total : (s : Progress) → Total (finish s)
  unfolding finish raise
  finish-Total s = record { at = λ ts. ground arith }

  pub clauses-Leaves :
      (fuel : ℕ) (s : Progress) (ts : Tokens)
      → length ts ≤ fuel
      → Leaves (length ts) (clauses host fuel s ts)
  unfolding clauses
  clauses-Leaves fuel s [] h = (finish-Total s).at []
  clauses-Leaves zero s (t ∷ ts) h = absurd (omega arith)
  clauses-Leaves (suc fuel) s (t ∷ ts) h =
      Leaves-and_then (length ts) (suc (length ts)) (clause host s (t ∷ ts)) (clauses host fuel)
        ((clause-Strict s).at t ts)
        λ s' rest l.
          Leaves-le (length rest) (suc (length ts)) (clauses host fuel s' rest)
            (clauses-Leaves fuel s' rest (omega arith)) (omega arith)
