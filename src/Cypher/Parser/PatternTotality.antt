-- ===== src/Cypher/Parser/PatternTotality.antt =====
-- Termination of `parsePattern` and `parseProps` in internal/cypher/engine.go.
use pincher_mcp.Prelude.{
  ℕ, zero, suc, ◌<◌, refl, not, ◌&&◌, List, [], ◌∷◌, ◌++◌, arith, Bool-cases, inl, inr, Bytes, is,
  str_eq, length, to_upper,
}
use pincher_mcp.Cypher.Token.{is_eof, is_ident}
use pincher_mcp.Cypher.Ast.{Props, Pattern}
use pincher_mcp.Cypher.Parser.{
  Tokens, Parse, ◌>>=◌, ◌>>◌, pure, peek, next, next_value, skip, remaining,
}
use pincher_mcp.Cypher.Parser.PatternClause.{
  put, props_loop, parse_props, kind_part, props_part, parse_node, edge_kinds_loop, edge_var_part,
  edge_kinds_part, hops_part, bracket_part, arrow_part, to_part, edge_part, parse_pattern,
}
use pincher_mcp.Cypher.Parser.Total.{
  Leaves, Leaves-le, Leaves-bind, Leaves-test, Leaves-then, Total, total_rules, Total-bind,
  Total-then, Total-next_value, Total-skip,
}

-- A round of the props loop takes the key's token.
props_loop-Leaves :
    (fuel : ℕ) (props : Props) (ts : Tokens)
    → length ts < fuel
    → Leaves (length ts) (props_loop fuel props ts)
unfolding props_loop ◌>>=◌ next_value peek pure str_eq
props_loop-Leaves zero props ts h = absurd (omega arith)
props_loop-Leaves (suc fuel) props [] h = omega arith
props_loop-Leaves (suc fuel) props (t ∷ ts) h =
    elim (Bool-cases (not (is t.value "}") && not (is_eof t.kind))) [
      | inr e ↦ rw e (omega arith)
      | inl e ↦ rw e (
          Leaves-then (skip ":") _ ts (suc (length ts)) (Total-skip ":") λ rest l.
            Leaves-bind next_value _ rest (suc (length ts)) Total-next_value λ val rest' l'.
              Leaves-then (skip ",") (props_loop fuel (put t.value val props)) rest'
                (suc (length ts)) (Total-skip ",")
                λ rest'' l''.
                  Leaves-le (length rest'') (suc (length ts))
                    (props_loop fuel (put t.value val props) rest'')
                    (props_loop-Leaves fuel (put t.value val props) rest'' (omega arith))
                    (omega arith))
    ]

props_all-Total : (props : Props) → Total (remaining >>= λ n. props_loop (suc n) props)
unfolding ◌>>=◌ remaining
props_all-Total props = record {
  at = λ ts. props_loop-Leaves (suc (length ts)) props ts (omega arith);
}

-- `remaining` and the loop, with what follows them.
module _ {A B : Type 0} where
  pub loop_then :
      (loop : ℕ → Parse A) (f : A → Parse B)
      → Total (remaining >>= loop)
      → ((a : A) → Total (f a))
      → Total (remaining >>= λ n. loop n >>= f)
  unfolding ◌>>=◌ remaining
  loop_then loop f h g = record { at = λ ts. (Total-bind (remaining >>= loop) f h g).at ts }

parse_props-Total : Total parse_props
unfolding parse_props
parse_props-Total =
    Total-then (skip "{") _ (Total-skip "{")
      (loop_then (λ n. props_loop (suc n) []) _ (props_all-Total []) λ props. search total_rules)

kind_part-Total : Total kind_part
unfolding kind_part
kind_part-Total = search total_rules depth 9

props_part-Total : Total props_part
unfolding props_part
props_part-Total = search (total_rules, parse_props-Total) depth 9

parse_node-Total : Total parse_node
unfolding parse_node
parse_node-Total = search (total_rules, kind_part-Total, props_part-Total) depth 12

edge_kinds_loop-Leaves :
    (fuel : ℕ) (kinds : List Bytes) (ts : Tokens)
    → length ts < fuel
    → Leaves (length ts) (edge_kinds_loop fuel kinds ts)
unfolding edge_kinds_loop ◌>>=◌ ◌>>◌ next peek pure
edge_kinds_loop-Leaves zero kinds ts h = absurd (omega arith)
edge_kinds_loop-Leaves (suc fuel) kinds [] h = omega arith
edge_kinds_loop-Leaves (suc fuel) kinds (t ∷ ts) h = elim (Bool-cases (is_ident t.kind)) [
  | inr e ↦ rw e (omega arith)
  | inl e ↦
      let kinds' = kinds ++ to_upper t.value ∷ [] in
      rw e (
        Leaves-test "|" (edge_kinds_loop fuel kinds') (pure kinds') ts (suc (length ts))
          (unfold str_eq in refl)
          (λ rest l.
            Leaves-le (length rest) (suc (length ts)) (edge_kinds_loop fuel kinds' rest)
              (edge_kinds_loop-Leaves fuel kinds' rest (omega arith)) (omega arith))
          (omega arith))
]

edge_kinds_all-Total :
    (kinds : List Bytes) → Total (remaining >>= λ n. edge_kinds_loop (suc n) kinds)
unfolding ◌>>=◌ remaining
edge_kinds_all-Total kinds = record {
  at = λ ts. edge_kinds_loop-Leaves (suc (length ts)) kinds ts (omega arith);
}

module _ (pat : Pattern) where
  edge_var_part-Total : Total (edge_var_part pat)
  unfolding edge_var_part
  edge_var_part-Total = search total_rules depth 9

  kinds_then :
      (f : List Bytes → Parse Pattern)
      → ((k : List Bytes) → Total (f k))
      → Total (remaining >>= λ n. edge_kinds_loop (suc n) [] >>= f)
  kinds_then f h = loop_then (λ n. edge_kinds_loop (suc n) []) f (edge_kinds_all-Total []) h

  edge_kinds_part-Total : Total (edge_kinds_part pat)
  unfolding edge_kinds_part
  edge_kinds_part-Total = search (total_rules, kinds_then) depth 12

  hops_part-Total : Total (hops_part pat)
  unfolding hops_part
  hops_part-Total = search total_rules depth 9

  arrow_part-Total : Total (arrow_part pat)
  unfolding arrow_part
  arrow_part-Total = search total_rules depth 12

  to_part-Total : Total (to_part pat)
  unfolding to_part
  to_part-Total = search (total_rules, parse_node-Total) depth 12

ruleset edge_rules = (
  total_rules, edge_var_part-Total, edge_kinds_part-Total, hops_part-Total, arrow_part-Total,
  to_part-Total, parse_node-Total,
)

bracket_part-Total : (pat : Pattern) → Total (bracket_part pat)
unfolding bracket_part
bracket_part-Total pat = search edge_rules depth 12

edge_part-Total : (pat : Pattern) → Total (edge_part pat)
unfolding edge_part
edge_part-Total pat = search (edge_rules, bracket_part-Total) depth 12

pub parse_pattern-Total : Total parse_pattern
unfolding parse_pattern
parse_pattern-Total = search (edge_rules, edge_part-Total) depth 12
