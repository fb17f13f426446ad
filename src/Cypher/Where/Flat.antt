-- ===== src/Cypher/Where/Flat.antt =====
-- The flat and the tree form of WHERE in internal/cypher/engine.go: `matchesConditions` after
-- `flattenWhere` against `matchesWhere`, and the AND chains of the pushdown.
use pincher_mcp.Prelude.{
  ◌≡◌, refl, sym, ap, ap₂, ◌∙◌, Bool, true, ◌&&◌, and_assoc, List, [], ◌∷◌, ◌++◌, Option, none,
  some, arith, length, length-append,
}
use pincher_mcp.Cypher.Ast.{
  Op, eq, BoolOp, and_op, Condition, WhereExpr, cond_expr, binary_expr, not_expr,
}
use pincher_mcp.Cypher.Flatten.{
  Leaves, add_leaf, collect_flat_leaves, stamp, stamp_rest, stamp_all, stamped, flatten_where,
  is_and_chain, where_is_and_chain_of_leaves, and_chain_loop, and_chain_from_conds,
}
use pincher_mcp.Cypher.Where.{
  Row, Value, Host, ReCache, eval_eq, eval_ne, eval_in, eval_regexp, eval_order, eval_op,
  falsy_literal, eval_condition, eval_leaf, matches_where, connect, matches_conditions,
}
use pincher_mcp.Cypher.Where.Cache.{
  IsConsistent, eval_leaf-Agrees, leaf_value, combine, tree_value, eval-tree_value, loop_value,
  conditions_loop-value,
}

head_eq {ℓ} : {A : Type ℓ} {x y : A} {xs ys : List A} → x ∷ xs ≡ y ∷ ys → x ≡ y
head_eq e = cc

tail_eq {ℓ} : {A : Type ℓ} {x y : A} {xs ys : List A} → x ∷ xs ≡ y ∷ ys → xs ≡ ys
tail_eq e = cc

module _ (host : Host) (row : Row) where
  eval_op-stamp :
      (k : Option BoolOp) (op : Op) (c : Condition) (raw : Option Value)
      → eval_op host op (stamp k c) raw none ≡ eval_op host op c raw none
  unfolding eval_op eval_eq eval_ne eval_in eval_regexp eval_order falsy_literal
  eval_op-stamp k eq c raw = refl
  eval_op-stamp k op c raw = refl

  leaf_value-stamp :
      (k : Option BoolOp) (c : Condition) → leaf_value host row (stamp k c) ≡ leaf_value host row c
  unfolding eval_leaf eval_condition
  leaf_value-stamp k c = rw eval_op-stamp

  loop_value-append :
      (r : Bool) (xs : List Condition) (c : Condition)
      → loop_value host row r (xs ++ c ∷ [])
        ≡ connect host c.connector (loop_value host row r xs) (leaf_value host row c)
  unfolding loop_value
  loop_value-append r [] c = refl
  loop_value-append r (x ∷ xs) c =
      loop_value-append (connect host x.connector r (leaf_value host row x)) xs c

  stamp_rest-append :
      (cs : List Condition) (ks : List BoolOp) (c : Condition) (k : BoolOp)
      → length cs ≡ length ks
      → stamp_rest (cs ++ c ∷ []) (ks ++ k ∷ []) ≡ stamp_rest cs ks ++ stamp (some k) c ∷ []
  unfolding stamp_rest
  stamp_rest-append [] [] c k h = refl
  stamp_rest-append [] (l ∷ ks) c k h = absurd (omega arith)
  stamp_rest-append (d ∷ cs) [] c k h = absurd (omega arith)
  stamp_rest-append (d ∷ cs) (l ∷ ks) c k h =
      ap (λ t. stamp (some l) d ∷ t) (stamp_rest-append cs ks c k (omega arith))

  -- The leaves of a tree: as many connectors as later leaves, and the loop over them computes the
  -- truth of the tree.
  abbrev Represents : WhereExpr → Option Leaves → Type 0
  Represents w none = Unit
  Represents w (some ([], ks)) = ⊥
  Represents w (some (c ∷ cs, ks)) =
      (length cs ≡ length ks)
      × (loop_value host row (leaf_value host row c) (stamp_rest cs ks) ≡ tree_value host row w)

  add_leaf-Represents :
      (op : BoolOp) (left right : WhereExpr) (found : Option Leaves)
      → Represents left found
      → Represents (binary_expr op left right) (add_leaf op right found)
  add_leaf-Represents op left (cond_expr c) none h = tt
  add_leaf-Represents op left (cond_expr c) (some ([], ks)) h = absurd h
  add_leaf-Represents op left (cond_expr c) (some (d ∷ cs, ks)) (n, e) = (
    omega (arith, length-append cs (c ∷ []), length-append ks (op ∷ [])),
    ap (loop_value host row (leaf_value host row d)) (stamp_rest-append cs ks c op n)
        ∙ loop_value-append (leaf_value host row d) (stamp_rest cs ks) (stamp (some op) c)
        ∙ ap₂ (combine host op) e (leaf_value-stamp (some op) c),
  )
  add_leaf-Represents op left (binary_expr op' l r) found h = tt
  add_leaf-Represents op left (not_expr w) found h = tt

  collect-Represents : (w : WhereExpr) → Represents w (collect_flat_leaves w)
  unfolding collect_flat_leaves
  collect-Represents (cond_expr c) = unfold loop_value stamp_rest in (refl, refl)
  collect-Represents (binary_expr op left right) =
      add_leaf-Represents op left right (collect_flat_leaves left) (collect-Represents left)
  collect-Represents (not_expr inner) = tt

  matches_conditions-value :
      (c : Condition) (cs : List Condition) (cache : ReCache host)
      → IsConsistent host cache
      → (matches_conditions host row (c ∷ cs) cache).0
        ≡ loop_value host row (leaf_value host row c) cs
  unfolding matches_conditions
  matches_conditions-value c cs cache h =
      let (e, k, n) = eval_leaf-Agrees host row c cache h in
      conditions_loop-value host row (eval_leaf host row c cache).0 cs
        (eval_leaf host row c cache).1 k
      ∙ ap (λ b. loop_value host row b cs) e

  stamped-agrees :
      (w : WhereExpr) (found : Option Leaves) (c : Condition) (cs : List Condition)
      → Represents w found
      → stamped found ≡ c ∷ cs
      → loop_value host row (leaf_value host row c) cs ≡ tree_value host row w
  stamped-agrees w none c cs h e = cc
  stamped-agrees w (some ([], ks)) c cs h e = absurd h
  stamped-agrees w (some (d ∷ ds, ks)) c cs (n, v) e =
      ap₂ (λ b t. loop_value host row b t) (ap (leaf_value host row) (sym (head_eq e)))
        (sym (tail_eq e))
      ∙ ap (λ b. loop_value host row b (stamp_rest ds ks)) (leaf_value-stamp none d)
      ∙ v

  -- Where the tree has a flat form, the flat evaluation and the tree's give one answer, on every row
  -- and whatever consistent caches the two have.
  pub matches_conditions-flatten :
      (w : WhereExpr) (c : Condition) (cs : List Condition) (cache cache' : ReCache host)
      → flatten_where (some w) ≡ c ∷ cs
      → IsConsistent host cache
      → IsConsistent host cache'
      → (matches_conditions host row (c ∷ cs) cache).0 ≡ (matches_where host row (some w) cache').0
  unfolding flatten_where matches_where
  matches_conditions-flatten w c cs cache cache' e h k =
      matches_conditions-value c cs cache h
      ∙ stamped-agrees w (collect_flat_leaves w) c cs (collect-Represents w) e
      ∙ sym (eval-tree_value host w row cache' k)

  -- The truth of all the conditions of a list.
  abbrev pub all_hold : List Condition → Bool
  all_hold [] = true
  all_hold (c ∷ cs) = leaf_value host row c && all_hold cs

  and_chain_loop-value :
      (w : WhereExpr) (cs : List Condition)
      → tree_value host row (and_chain_loop w cs) ≡ (tree_value host row w && all_hold cs)
  unfolding and_chain_loop
  and_chain_loop-value w [] = ground arith
  and_chain_loop-value w (c ∷ cs) =
      and_chain_loop-value (binary_expr and_op w (cond_expr c)) cs
      ∙ and_assoc (tree_value host row w) (leaf_value host row c) (all_hold cs)

  -- The chain that is built from the conditions left after the pushdown holds exactly when all of
  -- them hold.
  pub matches_where-and_chain :
      (cs : List Condition) (cache : ReCache host)
      → IsConsistent host cache
      → (matches_where host row (and_chain_from_conds cs) cache).0 ≡ all_hold cs
  unfolding and_chain_from_conds matches_where
  matches_where-and_chain [] cache h = refl
  matches_where-and_chain (c ∷ cs) cache h =
      eval-tree_value host (and_chain_loop (cond_expr c) cs) row cache h
      ∙ and_chain_loop-value (cond_expr c) cs

  all_hold-append :
      (xs : List Condition) (c : Condition)
      → all_hold (xs ++ c ∷ []) ≡ (all_hold xs && leaf_value host row c)
  all_hold-append [] c = ground arith
  all_hold-append (x ∷ xs) c =
      ap (λ b. leaf_value host row x && b) (all_hold-append xs c)
      ∙ sym (and_assoc (leaf_value host row x) (all_hold xs) (leaf_value host row c))

  -- The leaves of an AND chain: all of them hold exactly when the chain does.
  abbrev Conjoins : WhereExpr → Option Leaves → Type 0
  Conjoins w none = ⊥
  Conjoins w (some ([], ks)) = ⊥
  Conjoins w (some (c ∷ cs, ks)) =
      (length cs ≡ length ks) × (all_hold (stamp_all (c ∷ cs, ks)) ≡ tree_value host row w)

  add_leaf-Conjoins :
      (left : WhereExpr) (c : Condition) (found : Option Leaves)
      → Conjoins left found
      → Conjoins (binary_expr and_op left (cond_expr c)) (add_leaf and_op (cond_expr c) found)
  add_leaf-Conjoins left c none h = h
  add_leaf-Conjoins left c (some ([], ks)) h = absurd h
  add_leaf-Conjoins left c (some (d ∷ cs, ks)) (n, e) = (
    omega (arith, length-append cs (c ∷ []), length-append ks (and_op ∷ [])),
    ap (λ t. all_hold (stamp none d ∷ t)) (stamp_rest-append cs ks c and_op n)
        ∙ all_hold-append (stamp none d ∷ stamp_rest cs ks) (stamp (some and_op) c)
        ∙ ap₂ ◌&&◌ e (leaf_value-stamp (some and_op) c),
  )

  collect-Conjoins : (w : WhereExpr) → is_and_chain w ≡ true → Conjoins w (collect_flat_leaves w)
  unfolding collect_flat_leaves is_and_chain
  collect-Conjoins (cond_expr c) h =
      (refl, unfold stamp_rest in (ap (λ b. b && true) (leaf_value-stamp none c) ∙ ground arith))
  collect-Conjoins (binary_expr and_op left (cond_expr c)) h =
      add_leaf-Conjoins left c (collect_flat_leaves left) (collect-Conjoins left h)
  collect-Conjoins (binary_expr op left right) h = cc
  collect-Conjoins (not_expr inner) h = cc

  stamped-Conjoins :
      (w : WhereExpr) (found : Option Leaves)
      → Conjoins w found
      → all_hold (stamped found) ≡ tree_value host row w
  stamped-Conjoins w none h = absurd h
  stamped-Conjoins w (some ([], ks)) h = absurd h
  stamped-Conjoins w (some (c ∷ cs, ks)) h = h.1

  -- Where the pushdown gate is open, the flat conditions are a plain conjunction: the WHERE holds on
  -- a row exactly when each of them does, so they may be pushed one by one and joined by AND.
  pub pushdown_conjunction :
      (w : WhereExpr) (cache : ReCache host)
      → where_is_and_chain_of_leaves (some w) ≡ true
      → IsConsistent host cache
      → (matches_where host row (some w) cache).0 ≡ all_hold (flatten_where (some w))
  unfolding where_is_and_chain_of_leaves matches_where flatten_where
  pushdown_conjunction w cache h k =
      eval-tree_value host w row cache k
      ∙ sym (stamped-Conjoins w (collect_flat_leaves w) (collect-Conjoins w h))
