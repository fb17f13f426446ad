-- ===== src/Cypher/Where/Cache.antt =====
-- The cache of regular expressions in the WHERE evaluation of internal/cypher/engine.go.
use pincher_mcp.Prelude.{
  ◌≡◌, refl, sym, ap, ap₂, ◌∙◌, Bool, true, false, List, [], ◌∷◌, Option, none, some, arith,
  if◌then◌else◌, Bytes, is_empty, str_eq_iff, Bool-cases, inl, inr, not,
}
use pincher_mcp.Cypher.Ast.{
  Op, matches, BoolOp, and_op, or_op, Condition, WhereExpr, cond_expr, binary_expr, not_expr,
}
use pincher_mcp.Cypher.Where.{
  Value, Row, row_key, Host, sprint, ReCache, cached, compile_into, from_cache, regexp_of,
  match_option, eval_regexp, eval_op, eval_condition, eval_leaf, choose, eval, matches_where,
  conditions_loop, connect,
}

module _ (host : Host) where
  open host use {Regexp, compile}

  -- Every entry is what compiling its text gives.
  abbrev pub IsConsistent : ReCache host → Type 0
  IsConsistent none = Unit
  IsConsistent (some m) =
      (k : Bytes) (re : Regexp) → cached host k m ≡ some re → compile k ≡ some re

  -- A result with a cache: the result without one, and a cache that is consistent.
  abbrev pub Agrees : (Bool × ReCache host) → (Bool × ReCache host) → Type 0
  Agrees r plain = (r.0 ≡ plain.0) × IsConsistent r.1 × (plain.1 ≡ none)

  insert-IsConsistent :
      (k : Bytes) (m : List (Bytes × Regexp)) (re : Regexp)
      → IsConsistent (some m)
      → compile k ≡ some re
      → IsConsistent (some ((k, re) ∷ m))
  unfolding cached
  insert-IsConsistent k m re h e j re' f = ground (arith, h j re', str_eq_iff k j)

  regexp_of_lem :
      (k : Bytes) (cache : ReCache host)
      → IsConsistent cache
      → ((regexp_of host k cache).0 ≡ compile k) × IsConsistent (regexp_of host k cache).1
  unfolding regexp_of
  regexp_of_lem k none h = (refl, tt)
  regexp_of_lem k (some m) h = go (cached host k m) refl
    where
      miss :
          (o : Option Regexp)
          → compile k ≡ o
          → ((compile_into host k m o).0 ≡ o) × IsConsistent (compile_into host k m o).1
      miss none e = (refl, h)
      miss (some re) e = (refl, insert-IsConsistent k m re h e)

      go :
          (o : Option Regexp)
          → cached host k m ≡ o
          → ((from_cache host k m o).0 ≡ compile k) × IsConsistent (from_cache host k m o).1
      go none e = miss (compile k) refl
      go (some re) e = (sym (h k re e), h)

  regexp_of-none : (k : Bytes) → regexp_of host k none ≡ (compile k, none)
  unfolding regexp_of
  regexp_of-none k = refl

  eval_op-Agrees :
      (op : Op) (c : Condition) (raw : Option Value) (cache : ReCache host)
      → IsConsistent cache
      → Agrees (eval_op host op c raw cache) (eval_op host op c raw none)
  unfolding eval_op eval_regexp
  eval_op-Agrees matches c raw cache h =
      let (e, k) = regexp_of_lem c.value cache h in
      (
        ap (λ o. match_option host o (sprint raw))
            (e ∙ sym (ap (λ r. r.0) (regexp_of-none c.value))),
        k,
        ap (λ r. r.1) (regexp_of-none c.value),
      )
  eval_op-Agrees op c raw cache h = (refl, h, refl)

  eval_condition-Agrees :
      (row : Row) (c : Condition) (cache : ReCache host)
      → IsConsistent cache
      → Agrees (eval_condition host row c cache) (eval_condition host row c none)
  unfolding eval_condition
  eval_condition-Agrees row c cache h = elim (Bool-cases (is_empty c.rhs_property)) [
    | inl e ↦ rw e (eval_op-Agrees c.op c (row (row_key c)) cache h)
    | inr e ↦ rw e (refl, h, refl)
  ]

  pub eval_leaf-Agrees :
      (row : Row) (c : Condition) (cache : ReCache host)
      → IsConsistent cache
      → Agrees (eval_leaf host row c cache) (eval_leaf host row c none)
  unfolding eval_leaf
  eval_leaf-Agrees row c cache h =
      let (e, k, n) = eval_condition-Agrees row c cache h in
      (ap (λ r. if c.negated then not r else r) e, k, n)

  choose-Agrees :
      (op : BoolOp) (a : Bool) (right right' : Bool × ReCache host) (cache : ReCache host)
      → IsConsistent cache
      → Agrees right right'
      → Agrees (choose host op a right cache) (choose host op a right' none)
  choose-Agrees or_op true right right' cache h k = (refl, h, refl)
  choose-Agrees or_op false right right' cache h k = k
  choose-Agrees and_op true right right' cache h k = k
  choose-Agrees and_op false right right' cache h k = (refl, h, refl)

  pub eval-Agrees :
      (w : WhereExpr) (row : Row) (cache : ReCache host)
      → IsConsistent cache
      → Agrees (eval host w row cache) (eval host w row none)
  unfolding eval
  eval-Agrees (cond_expr c) row cache h = eval_leaf-Agrees row c cache h
  eval-Agrees (binary_expr op left right) row cache h =
      let (e, k, n) = eval-Agrees left row cache h in
      rw (e, n)
        (choose-Agrees op (eval host left row none).0 _ _ (eval host left row cache).1 k
          (eval-Agrees right row (eval host left row cache).1 k))
  eval-Agrees (not_expr inner) row cache h =
      let (e, k, n) = eval-Agrees inner row cache h in (ap not e, k, n)

  -- With a cache that holds only what its texts compile to, a row matches a WHERE exactly when it
  -- does with no cache, and the cache stays so.
  pub matches_where_cached :
      (row : Row) (w : Option WhereExpr) (cache : ReCache host)
      → IsConsistent cache
      → ((matches_where host row w cache).0 ≡ (matches_where host row w none).0)
        × IsConsistent (matches_where host row w cache).1
  unfolding matches_where
  matches_where_cached row none cache h = (refl, h)
  matches_where_cached row (some w) cache h = let (e, k, n) = eval-Agrees w row cache h in (e, k)

  -- The truth of a leaf and of a tree, with no cache.
  abbrev pub leaf_value : Row → Condition → Bool
  leaf_value row c = (eval_leaf host row c none).0

  abbrev pub combine : BoolOp → Bool → Bool → Bool
  combine op a b = connect host (some op) a b

  abbrev pub tree_value : Row → WhereExpr → Bool
  tree_value row (cond_expr c) = leaf_value row c
  tree_value row (binary_expr op left right) =
      combine op (tree_value row left) (tree_value row right)
  tree_value row (not_expr inner) = not (tree_value row inner)

  choose-combine :
      (op : BoolOp) (a : Bool) (right : Bool × ReCache host)
      → (choose host op a right none).0 ≡ combine op a right.0
  choose-combine or_op true right = refl
  choose-combine or_op false right = refl
  choose-combine and_op true right = refl
  choose-combine and_op false right = refl

  eval-none : (w : WhereExpr) (row : Row) → (eval host w row none).1 ≡ none
  eval-none w row = (eval-Agrees w row none tt).2

  eval-plain : (w : WhereExpr) (row : Row) → (eval host w row none).0 ≡ tree_value row w
  unfolding eval
  eval-plain (cond_expr c) row = refl
  eval-plain (binary_expr op left right) row = rw (eval-none left row) (
      choose-combine op (eval host left row none).0 (eval host right row none)
      ∙ ap₂ (combine op) (eval-plain left row) (eval-plain right row))
  eval-plain (not_expr inner) row = ap not (eval-plain inner row)

  pub eval-tree_value :
      (w : WhereExpr) (row : Row) (cache : ReCache host)
      → IsConsistent cache
      → (eval host w row cache).0 ≡ tree_value row w
  eval-tree_value w row cache h = (eval-Agrees w row cache h).0 ∙ eval-plain w row

  unfoldable pub loop_value : Row → Bool → List Condition → Bool
  loop_value row result [] = result
  loop_value row result (c ∷ cs) =
      loop_value row (connect host c.connector result (leaf_value row c)) cs

  pub conditions_loop-value :
      (row : Row) (result : Bool) (cs : List Condition) (cache : ReCache host)
      → IsConsistent cache
      → (conditions_loop host row result cs cache).0 ≡ loop_value row result cs
  unfolding conditions_loop loop_value
  conditions_loop-value row result [] cache h = refl
  conditions_loop-value row result (c ∷ cs) cache h =
      let (e, k, n) = eval_leaf-Agrees row c cache h in
      conditions_loop-value row (connect host c.connector result (eval_leaf host row c cache).0) cs
        (eval_leaf host row c cache).1 k
      ∙ ap (λ b. loop_value row (connect host c.connector result b) cs) e
