-- ===== src/Cypher/Parser/WhereClause.antt =====
-- The WHERE grammar: `parseWhere`, `parseOrExpr`, `parseAndExpr` and `parseFactor` of
-- internal/cypher/engine.go. `parse_where` gives the fuel: three levels for each token left.
use pincher_mcp.Prelude.{
  ℕ, zero, suc, ◌+◌, ◌*◌, Bool, if◌then◌else◌, is, fail, out_of_fuel, true, false, length,
}
use pincher_mcp.Cypher.Ast.{WhereExpr, and_op, or_op, cond_expr, binary_expr, not_expr}
use pincher_mcp.Cypher.Where.{Host}
use pincher_mcp.Cypher.Parser.{Parse, ◌>>=◌, ◌>>◌, pure, raise, unclosed_group, peek, next, peek_is}
use pincher_mcp.Cypher.Parser.Condition.{parse_one_condition}

-- `NOT` in front of an atom
unfoldable pub negation : Parse Bool
negation = do n ← peek_is "NOT"; if n then (do next; pure true) else pure false

unfoldable pub close_group : Bool → WhereExpr → Parse WhereExpr
close_group negated inner = do
  t ← peek
  if is t.value ")"
      then (do next; pure (if negated then not_expr inner else inner))
      else raise (unclosed_group t.value)

module _ (host : Host) where
  unfoldable pub leaf : Bool → Parse WhereExpr
  leaf negated = do c ← parse_one_condition host; pure (cond_expr (record c { negated = negated }))

  unfoldable mutual
    pub parse_or_expr : ℕ → Parse WhereExpr
    parse_or_expr zero = λ ts. fail out_of_fuel
    parse_or_expr (suc f) = do left ← parse_and_expr f; or_loop f left

    pub or_loop : ℕ → WhereExpr → Parse WhereExpr
    or_loop zero left = λ ts. fail out_of_fuel
    or_loop (suc f) left = do
      more ← peek_is "OR"
      if more
          then (do next; right ← parse_and_expr f; or_loop f (binary_expr or_op left right))
          else pure left

    pub parse_and_expr : ℕ → Parse WhereExpr
    parse_and_expr zero = λ ts. fail out_of_fuel
    parse_and_expr (suc f) = do left ← parse_factor f; and_loop f left

    pub and_loop : ℕ → WhereExpr → Parse WhereExpr
    and_loop zero left = λ ts. fail out_of_fuel
    and_loop (suc f) left = do
      more ← peek_is "AND"
      if more
          then (do next; right ← parse_factor f; and_loop f (binary_expr and_op left right))
          else pure left

    pub parse_factor : ℕ → Parse WhereExpr
    parse_factor zero = λ ts. fail out_of_fuel
    parse_factor (suc f) = do
      negated ← negation
      group ← peek_is "("
      if group then (do next; inner ← parse_or_expr f; close_group negated inner) else leaf negated

  unfoldable pub parse_where : Parse WhereExpr
  parse_where ts = parse_or_expr (3 * length ts + 3) ts
