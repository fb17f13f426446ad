-- ===== src/Cypher/Sql/Placeholders.antt =====
-- The placeholders and the bound arguments of the statements that internal/cypher/engine.go builds
-- for WHERE.
use pincher_mcp.Prelude.{
  ℕ, suc, ◌+◌, String, ◌≡◌, refl, ap, Bool, true, false, List, [], ◌∷◌, ◌++◌, map, Option, none,
  some, arith, ◌==◌, if◌then◌else◌, Bool-cases, inl, inr, Bytes, codes, is_empty, length,
  length-append, All, one_of,
}
use pincher_mcp.Cypher.Ast.{
  Op, eq, ne, matches, in_list, BoolOp, and_op, or_op, Condition, WhereExpr, cond_expr, binary_expr,
  not_expr,
}
use pincher_mcp.Cypher.Columns.{columns, column_in, cypher_prop_to_col, is_zero_value_predicate}
use pincher_mcp.Cypher.Sql.{
  Sql, bound_value, placeholders, eq_sql, ne_sql, in_sql, op_sql, negate_sql, cond_leaf_to_sql,
  join_sql, known_leaf, leaf_sql, where_expr_to_sql,
}

-- How many placeholders a text has.
abbrev pub count_marks : Bytes → ℕ
count_marks [] = 0
count_marks (c ∷ s) = if c == b'?' then suc (count_marks s) else count_marks s

pub count_marks-append : (s t : Bytes) → count_marks (s ++ t) ≡ count_marks s + count_marks t
count_marks-append [] t = omega arith
count_marks-append (c ∷ s) t = ground (arith, count_marks-append s t)

-- One argument is bound for each placeholder.
abbrev pub IsBalanced : Option Sql → Type 0
IsBalanced none = Unit
IsBalanced (some (sql, args)) = count_marks sql ≡ length args

placeholders-count :
    (v : Bytes) (vs : List Bytes) → count_marks (placeholders (v ∷ vs)) ≡ suc (length vs)
unfolding placeholders
placeholders-count v [] = refl
placeholders-count v (w ∷ vs) = ap suc (placeholders-count w vs)

length-map {ℓ κ} :
    {A : Type ℓ} {B : Type κ} (f : A → B) (xs : List A) → length (map f xs) ≡ length xs
length-map f [] = refl
length-map f (x ∷ xs) = ap suc (length-map f xs)

module _ (target col : Bytes) (h : count_marks target ≡ 0) where
  eq_sql-IsBalanced : (v : Bytes) → IsBalanced (eq_sql target col v)
  unfolding eq_sql
  eq_sql-IsBalanced v = elim (Bool-cases (is_zero_value_predicate col v)) [
    | inl e ↦ rw e (simp count_marks-append (omega arith))
    | inr e ↦ rw e (simp count_marks-append (omega arith))
  ]

  ne_sql-IsBalanced : (v : Bytes) → IsBalanced (ne_sql target col v)
  unfolding ne_sql
  ne_sql-IsBalanced v = elim (Bool-cases (is_zero_value_predicate col v)) [
    | inl e ↦ rw e (simp count_marks-append (omega arith))
    | inr e ↦ rw e (simp count_marks-append (omega arith))
  ]

  in_sql-IsBalanced : (vs : List Bytes) → IsBalanced (in_sql target col vs)
  unfolding in_sql
  in_sql-IsBalanced [] = tt
  in_sql-IsBalanced (v ∷ vs) =
      simp count_marks-append
        (omega (arith, placeholders-count v vs, length-map (bound_value col) vs))

  op_sql-IsBalanced : (op : Op) (c : Condition) → IsBalanced (op_sql op target col c)
  unfolding op_sql
  op_sql-IsBalanced eq c = eq_sql-IsBalanced (bound_value col c.value)
  op_sql-IsBalanced ne c = ne_sql-IsBalanced (bound_value col c.value)
  op_sql-IsBalanced in_list c = in_sql-IsBalanced c.in_values
  op_sql-IsBalanced matches c = tt
  op_sql-IsBalanced op c = simp count_marks-append (omega arith)

negate_sql-IsBalanced : (b : Bool) (r : Option Sql) → IsBalanced r → IsBalanced (negate_sql b r)
negate_sql-IsBalanced b none h = tt
negate_sql-IsBalanced true (some (sql, args)) h =
    omega (arith, h, count_marks-append sql (codes ")"))
negate_sql-IsBalanced false (some (sql, args)) h = h

-- The columns hold no placeholder.
column_in-marks :
    (cases : List (List String × String)) (prop : Bytes)
    → All (λ (x : List String × String). count_marks (codes x.1) ≡ 0) cases
    → count_marks (column_in cases prop) ≡ 0
unfolding column_in
column_in-marks [] prop h = refl
column_in-marks ((names, col) ∷ cases) prop h = elim (Bool-cases (one_of prop names)) [
  | inl e ↦ rw e h.0
  | inr e ↦ rw e (column_in-marks cases prop h.1)
]

pub cypher_prop_to_col-marks : (prop : Bytes) → count_marks (cypher_prop_to_col prop) ≡ 0
unfolding cypher_prop_to_col
cypher_prop_to_col-marks prop = column_in-marks columns prop (omega arith)

module _ (prefix_for : Bytes → Option Bytes)
    (plain : (v p : Bytes) → prefix_for v ≡ some p → count_marks p ≡ 0) where
  known_leaf-IsBalanced :
      (o : Option Bytes) (c : Condition) → prefix_for c.variable ≡ o → IsBalanced (known_leaf o c)
  unfolding cond_leaf_to_sql
  known_leaf-IsBalanced none c e = tt
  known_leaf-IsBalanced (some p) c e =
      elim (Bool-cases (is_empty (cypher_prop_to_col c.property))) [
        | inl k ↦ rw k tt
        | inr k ↦ rw k (
            negate_sql-IsBalanced c.negated
              (op_sql c.op (p ++ cypher_prop_to_col c.property) (cypher_prop_to_col c.property) c)
              (op_sql-IsBalanced (p ++ cypher_prop_to_col c.property)
                (cypher_prop_to_col c.property)
                (omega (
                  arith,
                  count_marks-append p (cypher_prop_to_col c.property),
                  plain c.variable p e,
                  cypher_prop_to_col-marks c.property,
                ))
                c.op c))
      ]

  leaf_sql-IsBalanced : (c : Condition) → IsBalanced (leaf_sql prefix_for c)
  unfolding leaf_sql
  leaf_sql-IsBalanced c = elim (Bool-cases (is_empty c.rhs_property)) [
    | inl e ↦ rw e (known_leaf-IsBalanced (prefix_for c.variable) c refl)
    | inr e ↦ rw e tt
  ]

  join_sql-IsBalanced :
      (op : BoolOp) (l r : Option Sql) → IsBalanced l → IsBalanced r → IsBalanced (join_sql op l r)
  join_sql-IsBalanced op none r h k = tt
  join_sql-IsBalanced op (some (ls, la)) none h k = tt
  join_sql-IsBalanced and_op (some (ls, la)) (some (rs, ra)) h k =
      simp count_marks-append (omega (arith, length-append la ra))
  join_sql-IsBalanced or_op (some (ls, la)) (some (rs, ra)) h k =
      simp count_marks-append (omega (arith, length-append la ra))

  -- Where no table prefix holds a placeholder, a WHERE that is pushed to SQL binds exactly one
  -- argument for each placeholder of its text.
  pub where_expr_to_sql-IsBalanced : (w : WhereExpr) → IsBalanced (where_expr_to_sql prefix_for w)
  unfolding where_expr_to_sql
  where_expr_to_sql-IsBalanced (cond_expr c) = leaf_sql-IsBalanced c
  where_expr_to_sql-IsBalanced (binary_expr op left right) =
      join_sql-IsBalanced op (where_expr_to_sql prefix_for left)
        (where_expr_to_sql prefix_for right) (where_expr_to_sql-IsBalanced left)
        (where_expr_to_sql-IsBalanced right)
  where_expr_to_sql-IsBalanced (not_expr inner) =
      negate_sql-IsBalanced true (where_expr_to_sql prefix_for inner)
        (where_expr_to_sql-IsBalanced inner)
