-- ===== src/Cypher/Parser/LeafTotality.antt =====
-- Termination of `parseOneCondition` in internal/cypher/engine.go.
use pincher_mcp.Prelude.{
  ℕ, zero, suc, ◌<◌, [], ◌∷◌, Option, none, some, arith, Bool-cases, inl, inr, is, length,
}
use pincher_mcp.Cypher.Ast.{Op, Condition}
use pincher_mcp.Cypher.Where.{Host}
use pincher_mcp.Cypher.Parser.{
  Tokens, Parse, ◌>>=◌, ◌>>◌, pure, raise, first, rest_of, peek, next, remaining,
}
use pincher_mcp.Cypher.Parser.Condition.{
  value_leaf, comparison_leaf, null_leaf, is_literal, with_item, in_items, in_leaf, regex_leaf,
  bang_leaf, naked_leaf, left_side, comparison, operator_leaf, parse_one_condition,
}
use pincher_mcp.Cypher.Parser.Total.{
  Leaves, Leaves-le, Total, Total-bind, Total-peek, total_rules, length-rest_of,
}

value_leaf-Total : (op : Op) (c : Condition) → Total (value_leaf op c)
unfolding value_leaf
value_leaf-Total op c = search total_rules

comparison_leaf-Total : (op : Op) (c : Condition) → Total (comparison_leaf op c)
unfolding comparison_leaf
comparison_leaf-Total op c = search total_rules depth 9

null_leaf-Total : (c : Condition) → Total (null_leaf c)
unfolding null_leaf
null_leaf-Total c = search total_rules depth 9

naked_leaf-Total : (c : Condition) → Total (naked_leaf c)
unfolding naked_leaf
naked_leaf-Total c = search total_rules depth 9

left_side-Total : Total left_side
unfolding left_side
left_side-Total = search total_rules depth 9

bang_leaf-Total : (c : Condition) → Total (bang_leaf c)
unfolding bang_leaf raise
bang_leaf-Total c = record { at = λ ts. ground arith }

-- A round of the list takes a token, or ends with an error.
in_items-Leaves :
    (fuel : ℕ) (c : Condition) (ts : Tokens)
    → length ts < fuel
    → Leaves (length ts) (in_items fuel c ts)
unfolding in_items ◌>>=◌ ◌>>◌ next peek pure raise
in_items-Leaves zero c ts h = absurd (omega arith)
in_items-Leaves (suc fuel) c [] h = tt
in_items-Leaves (suc fuel) c (t ∷ ts) h = elim (Bool-cases (is_literal t.kind)) [
  | inr e ↦ rw e tt
  | inl e ↦ rw e (elim (Bool-cases (is (first ts).value ",")) [
    | inl comma ↦ rw comma (
        Leaves-le (length (rest_of ts)) (suc (length ts))
          (in_items fuel (with_item t c) (rest_of ts))
          (in_items-Leaves fuel (with_item t c) (rest_of ts) (omega (arith, length-rest_of ts)))
          (omega (arith, length-rest_of ts)))
    | inr more ↦ rw more (elim (Bool-cases (is (first ts).value "]")) [
      | inl close ↦ rw close (omega (arith, length-rest_of ts))
      | inr bad ↦ rw bad tt
    ])
  ])
]

in_all-Total : (c : Condition) → Total (remaining >>= λ n. in_items (suc n) c)
unfolding ◌>>=◌ remaining
in_all-Total c = record { at = λ ts. in_items-Leaves (suc (length ts)) c ts (omega arith) }

in_leaf-Total : (c : Condition) → Total (in_leaf c)
unfolding in_leaf
in_leaf-Total c = search (total_rules, in_all-Total) depth 12

module _ (host : Host) where
  regex_leaf-Total : (c : Condition) → Total (regex_leaf host c)
  unfolding regex_leaf
  regex_leaf-Total c = search total_rules depth 9

ruleset leaf_rules = (
  total_rules, value_leaf-Total, comparison_leaf-Total, null_leaf-Total, naked_leaf-Total,
  bang_leaf-Total, in_leaf-Total, regex_leaf-Total, left_side-Total,
)

module _ (host : Host) where
  by_operator :
      (o : Option Op) (c : Condition) (other : Parse Condition)
      → Total other
      → Total (elim o [ some op ↦ comparison_leaf op c | none ↦ other ])
  by_operator (some op) c other h = comparison_leaf-Total op c
  by_operator none c other h = h

  operator_leaf-Total : (c : Condition) → Total (operator_leaf host c)
  unfolding operator_leaf
  operator_leaf-Total c =
      Total-bind peek _ Total-peek
        λ t. by_operator (comparison t.value) c _ (search leaf_rules depth 20)

  pub parse_one_condition-Total : Total (parse_one_condition host)
  unfolding parse_one_condition
  parse_one_condition-Total = Total-bind left_side _ left_side-Total operator_leaf-Total
