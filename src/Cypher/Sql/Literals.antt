-- ===== src/Cypher/Sql/Literals.antt =====
-- The literals of a query and the SQL text of internal/cypher/engine.go.
use pincher_mcp.Prelude.{
  ◌≡◌, refl, sym, ap, ap₂, subst, ◌∙◌, Bool, List, [], ◌∷◌, ◌++◌, Option, none, some, arith,
  if◌then◌else◌, Bool-cases, inl, inr, Bytes, codes, is_empty, length,
}
use pincher_mcp.Cypher.Ast.{
  Op, eq, ne, in_list, BoolOp, Condition, WhereExpr, cond_expr, binary_expr, not_expr,
}
use pincher_mcp.Cypher.Columns.{cypher_prop_to_col, is_zero_value_predicate}
use pincher_mcp.Cypher.Sql.{
  Sql, bound_value, placeholders, eq_sql, ne_sql, in_sql, op_sql, wrap_not, negate_sql,
  cond_leaf_to_sql, conj, join_sql, not_sql, known_leaf, leaf_sql, where_expr_to_sql,
}

-- The text of a statement, without its arguments.
abbrev pub text : Option Sql → Option Bytes
text none = none
text (some (sql, args)) = some sql

-- The absence test that = and <> ask for, which is all that they read of the literal.
abbrev pub asks_absent : Condition → Bool
asks_absent c =
    is_zero_value_predicate (cypher_prop_to_col c.property)
      (bound_value (cypher_prop_to_col c.property) c.value)

-- Two leaves that differ in their literals alone.
pub record SameShape (c d : Condition) : Type 0 where
  pub variables : c.variable ≡ d.variable
  pub properties : c.property ≡ d.property
  pub ops : c.op ≡ d.op
  pub signs : c.negated ≡ d.negated
  pub right_sides : c.rhs_property ≡ d.rhs_property
  pub absences : asks_absent c ≡ asks_absent d
  pub counts : length c.in_values ≡ length d.in_values

pub data Alike : WhereExpr → WhereExpr → Type 0 where
  leaf : (c d : Condition) → SameShape c d → Alike (cond_expr c) (cond_expr d)
  binary :
      (op : BoolOp) {l l' r r' : WhereExpr}
      → Alike l l'
      → Alike r r'
      → Alike (binary_expr op l r) (binary_expr op l' r')
  negation : {w w' : WhereExpr} → Alike w w' → Alike (not_expr w) (not_expr w')

placeholders-length :
    (vs ws : List Bytes) → length vs ≡ length ws → placeholders vs ≡ placeholders ws
unfolding placeholders
placeholders-length [] [] h = refl
placeholders-length [] (w ∷ ws) h = absurd (omega arith)
placeholders-length (v ∷ vs) [] h = absurd (omega arith)
placeholders-length (v ∷ []) (w ∷ []) h = refl
placeholders-length (v ∷ []) (w ∷ w' ∷ ws) h = absurd (omega arith)
placeholders-length (v ∷ v' ∷ vs) (w ∷ []) h = absurd (omega arith)
placeholders-length (v ∷ v' ∷ vs) (w ∷ w' ∷ ws) h =
    ap (λ t. codes "?," ++ t) (placeholders-length (v' ∷ vs) (w' ∷ ws) (omega arith))

module _ (target col : Bytes) where
  eq_sql-text :
      (v w : Bytes)
      → is_zero_value_predicate col v ≡ is_zero_value_predicate col w
      → text (eq_sql target col v) ≡ text (eq_sql target col w)
  unfolding eq_sql
  eq_sql-text v w h = elim (Bool-cases (is_zero_value_predicate col w)) [
    | inl e ↦ rw (h, e)
    | inr e ↦ rw (h, e)
  ]

  ne_sql-text :
      (v w : Bytes)
      → is_zero_value_predicate col v ≡ is_zero_value_predicate col w
      → text (ne_sql target col v) ≡ text (ne_sql target col w)
  unfolding ne_sql
  ne_sql-text v w h = elim (Bool-cases (is_zero_value_predicate col w)) [
    | inl e ↦ rw (h, e)
    | inr e ↦ rw (h, e)
  ]

  in_sql-text :
      (vs ws : List Bytes)
      → length vs ≡ length ws
      → text (in_sql target col vs) ≡ text (in_sql target col ws)
  unfolding in_sql
  in_sql-text [] [] h = refl
  in_sql-text [] (w ∷ ws) h = absurd (omega arith)
  in_sql-text (v ∷ vs) [] h = absurd (omega arith)
  in_sql-text (v ∷ vs) (w ∷ ws) h =
      ap (λ t. some (target ++ codes " IN (" ++ t ++ codes ")"))
        (placeholders-length (v ∷ vs) (w ∷ ws) h)

  op_sql-text :
      (op : Op) (c d : Condition)
      → is_zero_value_predicate col (bound_value col c.value)
        ≡ is_zero_value_predicate col (bound_value col d.value)
      → length c.in_values ≡ length d.in_values
      → text (op_sql op target col c) ≡ text (op_sql op target col d)
  unfolding op_sql
  op_sql-text eq c d h k = eq_sql-text _ _ h
  op_sql-text ne c d h k = ne_sql-text _ _ h
  op_sql-text in_list c d h k = in_sql-text c.in_values d.in_values k
  op_sql-text op c d h k = refl

signed_text : Bool → Option Bytes → Option Bytes
signed_text b none = none
signed_text b (some t) = some (if b then wrap_not t else t)

negate_sql-text : (b : Bool) (r : Option Sql) → text (negate_sql b r) ≡ signed_text b (text r)
unfolding signed_text
negate_sql-text b none = refl
negate_sql-text b (some (sql, args)) = refl

pub some_inj {ℓ} : {A : Type ℓ} {x y : A} → some x ≡ some y → x ≡ y
some_inj e = cc

join_sql-text :
    (op : BoolOp) (l l' r r' : Option Sql)
    → text l ≡ text l'
    → text r ≡ text r'
    → text (join_sql op l r) ≡ text (join_sql op l' r')
join_sql-text op none none r r' h k = refl
join_sql-text op none (some l') r r' h k = cc
join_sql-text op (some l) none r r' h k = cc
join_sql-text op (some l) (some l') none none h k = refl
join_sql-text op (some l) (some l') none (some r') h k = cc
join_sql-text op (some l) (some l') (some r) none h k = cc
join_sql-text op (some (ls, la)) (some (ls', la')) (some (rs, ra)) (some (rs', ra')) h k =
    ap₂ (λ s t. some (codes "(" ++ s ++ conj op ++ t ++ codes ")")) (some_inj h) (some_inj k)

not_sql-text : (r r' : Option Sql) → text r ≡ text r' → text (not_sql r) ≡ text (not_sql r')
not_sql-text none none h = refl
not_sql-text none (some r') h = cc
not_sql-text (some r) none h = cc
not_sql-text (some (s, a)) (some (s', a')) h = ap (λ t. some (wrap_not t)) (some_inj h)

cond_leaf_to_sql-text :
    (p col : Bytes) (c d : Condition)
    → c.op ≡ d.op
    → c.negated ≡ d.negated
    → is_zero_value_predicate col (bound_value col c.value)
      ≡ is_zero_value_predicate col (bound_value col d.value)
    → length c.in_values ≡ length d.in_values
    → text (cond_leaf_to_sql p col c) ≡ text (cond_leaf_to_sql p col d)
unfolding cond_leaf_to_sql
cond_leaf_to_sql-text p col c d e n h k =
    negate_sql-text c.negated (op_sql c.op (p ++ col) col c)
    ∙ ap₂ signed_text n
        (op_sql-text (p ++ col) col c.op c d h k ∙ ap (λ o. text (op_sql o (p ++ col) col d)) e)
    ∙ sym (negate_sql-text d.negated (op_sql d.op (p ++ col) col d))

known_leaf-text :
    (o : Option Bytes) (c d : Condition)
    → SameShape c d
    → text (known_leaf o c) ≡ text (known_leaf o d)
known_leaf-text none c d s = refl
known_leaf-text (some p) c d s =
    by_column (cypher_prop_to_col c.property) (cypher_prop_to_col d.property)
      (ap cypher_prop_to_col s.properties) s.absences
  where
    by_column :
        (col col' : Bytes)
        → col ≡ col'
        → is_zero_value_predicate col (bound_value col c.value)
          ≡ is_zero_value_predicate col' (bound_value col' d.value)
        → text (if is_empty col then none else cond_leaf_to_sql p col c)
          ≡ text (if is_empty col' then none else cond_leaf_to_sql p col' d)
    by_column col col' e h =
        subst
          (λ x.
            is_zero_value_predicate col (bound_value col c.value)
              ≡ is_zero_value_predicate x (bound_value x d.value)
            → text (if is_empty col then none else cond_leaf_to_sql p col c)
              ≡ text (if is_empty x then none else cond_leaf_to_sql p x d))
          e (λ h'. same col h') h
      where
        same :
            (col : Bytes)
            → is_zero_value_predicate col (bound_value col c.value)
              ≡ is_zero_value_predicate col (bound_value col d.value)
            → text (if is_empty col then none else cond_leaf_to_sql p col c)
              ≡ text (if is_empty col then none else cond_leaf_to_sql p col d)
        same [] h = refl
        same (x ∷ xs) h = cond_leaf_to_sql-text p (x ∷ xs) c d s.ops s.signs h s.counts

module _ (prefix_for : Bytes → Option Bytes) where
  at_right :
      (r : Bytes) (o : Option Bytes) (c d : Condition)
      → SameShape c d
      → text (if is_empty r then known_leaf o c else none)
        ≡ text (if is_empty r then known_leaf o d else none)
  at_right [] o c d s = known_leaf-text o c d s
  at_right (x ∷ xs) o c d s = refl

  leaf_sql-text :
      (c d : Condition)
      → SameShape c d
      → text (leaf_sql prefix_for c) ≡ text (leaf_sql prefix_for d)
  unfolding leaf_sql
  leaf_sql-text c d s =
      ap₂ (λ r o. text (if is_empty r then known_leaf o c else none)) s.right_sides
        (ap prefix_for s.variables)
      ∙ at_right d.rhs_property (prefix_for d.variable) c d s

  -- Two trees that differ in their literals alone, the tests for an absent value and the lengths of
  -- the IN lists being the same, are pushed with one text: the literals are bound, never written
  -- into the statement.
  pub where_expr_to_sql-text :
      {w v : WhereExpr}
      → Alike w v
      → text (where_expr_to_sql prefix_for w) ≡ text (where_expr_to_sql prefix_for v)
  unfolding where_expr_to_sql
  where_expr_to_sql-text (leaf c d s) = leaf_sql-text c d s
  where_expr_to_sql-text (binary op l r) =
      join_sql-text op _ _ _ _ (where_expr_to_sql-text l) (where_expr_to_sql-text r)
  where_expr_to_sql-text (negation w) = not_sql-text _ _ (where_expr_to_sql-text w)
