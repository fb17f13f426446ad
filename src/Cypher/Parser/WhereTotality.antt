-- ===== src/Cypher/Parser/WhereTotality.antt =====
-- The fuel of `parse_where`, and the termination of `parseWhere` in internal/cypher/engine.go.
use pincher_mcp.Prelude.{ℕ, zero, suc, ◌+◌, ◌*◌, ◌≤◌, refl, Bool, arith, str_eq, length}
use pincher_mcp.Cypher.Ast.{WhereExpr, and_op, or_op, binary_expr}
use pincher_mcp.Cypher.Where.{Host}
use pincher_mcp.Cypher.Parser.{Tokens, ◌>>=◌, pure}
use pincher_mcp.Cypher.Parser.WhereClause.{
  negation, close_group, leaf, parse_or_expr, or_loop, parse_and_expr, and_loop, parse_factor,
  parse_where,
}
use pincher_mcp.Cypher.Parser.Total.{
  Leaves, Leaves-le, Leaves-seq, Leaves-bind, Leaves-test, Total, total_rules, Total-pure,
}
use pincher_mcp.Cypher.Parser.LeafTotality.{parse_one_condition-Total}

negation-Total : Total negation
unfolding negation
negation-Total = search total_rules depth 9

close_group-Total : (negated : Bool) (w : WhereExpr) → Total (close_group negated w)
unfolding close_group
close_group-Total negated w = search total_rules depth 9

module _ (host : Host) where
  leaf-Total : (negated : Bool) → Total (leaf host negated)
  unfolding leaf
  leaf-Total negated = search (total_rules, parse_one_condition-Total host)

  -- What each function of the grammar needs for `n` tokens.
  mutual
    unfolding parse_or_expr str_eq

    parse_or-Leaves :
        (f : ℕ) (ts : Tokens) → 3 * length ts + 3 ≤ f → Leaves (length ts) (parse_or_expr host f ts)
    parse_or-Leaves zero ts h = absurd (omega arith)
    parse_or-Leaves (suc f) ts h =
        Leaves-seq (parse_and_expr host f) (or_loop host f) ts (length ts) (length ts)
          (parse_and-Leaves f ts (omega arith))
          λ w rest l.
            Leaves-le (length rest) (length ts) (or_loop host f w rest)
              (or_loop-Leaves f w rest (omega arith)) l

    or_loop-Leaves :
        (f : ℕ) (w : WhereExpr) (ts : Tokens)
        → 3 * length ts + 1 ≤ f
        → Leaves (length ts) (or_loop host f w ts)
    or_loop-Leaves zero w ts h = absurd (omega arith)
    or_loop-Leaves (suc f) w ts h =
        Leaves-test "OR" (parse_and_expr host f >>= λ r. or_loop host f (binary_expr or_op w r))
          (pure w) ts (length ts) refl
          (λ rest l.
            Leaves-seq (parse_and_expr host f) (λ r. or_loop host f (binary_expr or_op w r)) rest
              (length rest) (length ts) (parse_and-Leaves f rest (omega arith))
              λ r rest' l'.
                Leaves-le (length rest') (length ts) (or_loop host f (binary_expr or_op w r) rest')
                  (or_loop-Leaves f (binary_expr or_op w r) rest' (omega arith)) (omega arith))
          ((Total-pure w).at ts)

    parse_and-Leaves :
        (f : ℕ) (ts : Tokens)
        → 3 * length ts + 2 ≤ f
        → Leaves (length ts) (parse_and_expr host f ts)
    parse_and-Leaves zero ts h = absurd (omega arith)
    parse_and-Leaves (suc f) ts h =
        Leaves-seq (parse_factor host f) (and_loop host f) ts (length ts) (length ts)
          (parse_factor-Leaves f ts (omega arith))
          λ w rest l.
            Leaves-le (length rest) (length ts) (and_loop host f w rest)
              (and_loop-Leaves f w rest (omega arith)) l

    and_loop-Leaves :
        (f : ℕ) (w : WhereExpr) (ts : Tokens)
        → 3 * length ts + 1 ≤ f
        → Leaves (length ts) (and_loop host f w ts)
    and_loop-Leaves zero w ts h = absurd (omega arith)
    and_loop-Leaves (suc f) w ts h =
        Leaves-test "AND" (parse_factor host f >>= λ r. and_loop host f (binary_expr and_op w r))
          (pure w) ts (length ts) refl
          (λ rest l.
            Leaves-seq (parse_factor host f) (λ r. and_loop host f (binary_expr and_op w r)) rest
              (length rest) (length ts) (parse_factor-Leaves f rest (omega arith))
              λ r rest' l'.
                Leaves-le (length rest') (length ts)
                  (and_loop host f (binary_expr and_op w r) rest')
                  (and_loop-Leaves f (binary_expr and_op w r) rest' (omega arith)) (omega arith))
          ((Total-pure w).at ts)

    parse_factor-Leaves :
        (f : ℕ) (ts : Tokens) → 3 * length ts + 1 ≤ f → Leaves (length ts) (parse_factor host f ts)
    parse_factor-Leaves zero ts h = absurd (omega arith)
    parse_factor-Leaves (suc f) ts h =
        Leaves-bind negation _ ts (length ts) negation-Total λ negated rest l.
          Leaves-test "(" (parse_or_expr host f >>= close_group negated) (leaf host negated) rest
            (length ts) refl
            (λ rest' l'.
              Leaves-seq (parse_or_expr host f) (close_group negated) rest' (length rest')
                (length ts) (parse_or-Leaves f rest' (omega arith))
                λ w rest'' l''.
                  Leaves-le (length rest'') (length ts) (close_group negated w rest'')
                    ((close_group-Total negated w).at rest'') (omega arith))
            (Leaves-le (length rest) (length ts) (leaf host negated rest)
              ((leaf-Total negated).at rest) l)

  -- Whatever tokens follow, the WHERE parser returns a tree or an error: no panic, no loop.
  pub parse_where-Total : Total (parse_where host)
  unfolding parse_where
  parse_where-Total = record { at = λ ts. parse_or-Leaves (3 * length ts + 3) ts (omega arith) }
