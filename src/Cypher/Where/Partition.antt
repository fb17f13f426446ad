-- ===== src/Cypher/Where/Partition.antt =====
-- The operators of `evalCondition` in internal/cypher/engine.go against one another.
use pincher_mcp.Prelude.{
  ◌≡◌, refl, sym, ap, ap₂, ◌∙◌, Bool, true, false, not, ◌||◌, List, [], ◌∷◌, Option, none, some,
  arith, if◌then◌else◌, Bool-cases, inl, inr, Bytes, codes, is, is_empty, str_eq, str_eq_iff,
  str_eq→eq, any,
}
use pincher_mcp.Cypher.Ast.{
  eq, ne, is_null, is_not_null, in_list, and_op, Condition, WhereExpr, cond_expr, binary_expr,
}
use pincher_mcp.Cypher.Columns.{bool_coerce_equal}
use pincher_mcp.Cypher.Where.{
  Value, nil, Row, row_key, Host, ReCache, sprint, missing, is_null_row, falsy_literal, eval_eq,
  eval_ne, eval_is_null, eval_is_not_null, in_loop, eval_in, eval_op, eval_condition, eval_leaf,
  eval,
}

-- Fmt writes every absent value as `<nil>`.
null_row-sprint : (raw : Option Value) → is_null_row raw ≡ true → sprint raw ≡ codes "<nil>"
unfolding is_null_row sprint
null_row-sprint none h = refl
null_row-sprint (some nil) h = refl
null_row-sprint (some v) h = str_eq→eq (sprint (some v)) (codes "<nil>") h

coerce-nil : (v : Bytes) → bool_coerce_equal (codes "<nil>") v ≡ false
unfolding bool_coerce_equal
coerce-nil v = refl

nil_text : (v : Bytes) → is v "<nil>" ≡ false → str_eq (codes "<nil>") v ≡ false
nil_text v h = elim (Bool-cases (str_eq (codes "<nil>") v)) [
  | inr e ↦ e
  | inl e ↦ absurd (clash (sym (str_eq→eq (codes "<nil>") v e)))
]
  where
    clash : v ≡ codes "<nil>" → ⊥
    clash e = let k : is v "<nil>" ≡ true = (str_eq_iff v (codes "<nil>")).1 e in cc

-- On an absent value the two operators read only what the literal is.
eval_eq-null :
    (c : Condition) (raw : Option Value)
    → is_null_row raw ≡ true
    → is c.value "<nil>" ≡ false
    → eval_eq c raw ≡ not (eval_ne c raw)
unfolding eval_eq eval_ne
eval_eq-null c raw h k = ground (
  arith,
  null_row-sprint raw h,
  ap (λ t. str_eq t c.value) (null_row-sprint raw h),
  ap (λ t. bool_coerce_equal t c.value) (null_row-sprint raw h),
  coerce-nil c.value,
  nil_text c.value k,
)

eval_eq-present :
    (c : Condition) (raw : Option Value)
    → is_null_row raw ≡ false
    → eval_eq c raw ≡ not (eval_ne c raw)
unfolding eval_eq eval_ne
eval_eq-present c raw h = ground arith

eval_eq-not-eval_ne :
    (c : Condition) (raw : Option Value)
    → is c.value "<nil>" ≡ false
    → eval_eq c raw ≡ not (eval_ne c raw)
eval_eq-not-eval_ne c raw k = elim (Bool-cases (is_null_row raw)) [
  | inl h ↦ eval_eq-null c raw h k
  | inr h ↦ eval_eq-present c raw h
]

missing→null : (raw : Option Value) → missing raw ≡ true → is_null_row raw ≡ true
unfolding is_null_row
missing→null raw h = ground arith

nil_literal_both :
    (c : Condition) (raw : Option Value)
    → c.value ≡ codes "<nil>"
    → missing raw ≡ true
    → (eval_eq c raw ≡ true) × (eval_ne c raw ≡ true)
unfolding eval_eq eval_ne falsy_literal
nil_literal_both c raw v m =
    let null : is_null_row raw ≡ true = missing→null raw m in
    let text : sprint raw ≡ codes "<nil>" = null_row-sprint raw null in
    let full : is_empty c.value ≡ false = ap is_empty v in
    let f : is c.value "false" ≡ false = ap (λ t. is t "false") v ∙ unfold str_eq in refl in
    let z : is c.value "0" ≡ false = ap (λ t. is t "0") v ∙ unfold str_eq in refl in
    let same : str_eq (sprint raw) c.value ≡ true = (str_eq_iff _ _).1 (text ∙ sym v) in
    (ground arith, ground arith)

module _ (host : Host) (row : Row) (c : Condition) (cache : ReCache host) where
  -- For a condition with no column on its right side and a literal other than `<nil>`, every row
  -- matches exactly one of `=` and `<>`.
  eq_ne_partition :
      is_empty c.rhs_property ≡ true
      → is c.value "<nil>" ≡ false
      → (eval_condition host row (record c { op = eq }) cache).0
        ≡ not (eval_condition host row (record c { op = ne }) cache).0
  unfolding eval_condition eval_op eval_eq eval_ne falsy_literal
  eq_ne_partition e k = rw e (eval_eq-not-eval_ne c (row (row_key c)) k)

  -- For a condition with no column on its right side, every row matches exactly one of `IS NULL` and
  -- `IS NOT NULL`.
  pub null_partition :
      is_empty c.rhs_property ≡ true
      → (eval_condition host row (record c { op = is_null }) cache).0
        ≡ not (eval_condition host row (record c { op = is_not_null }) cache).0
  unfolding eval_condition eval_op eval_is_null eval_is_not_null
  null_partition e = rw e (ground arith)

  -- For a condition with no column on its right side and the literal `<nil>`, a row with no value at
  -- the key matches `=` and `<>` both.
  nil_literal_matches_both :
      is_empty c.rhs_property ≡ true
      → c.value ≡ codes "<nil>"
      → missing (row (row_key c)) ≡ true
      → ((eval_condition host row (record c { op = eq }) cache).0 ≡ true)
        × ((eval_condition host row (record c { op = ne }) cache).0 ≡ true)
  unfolding eval_condition eval_op eval_eq eval_ne falsy_literal
  nil_literal_matches_both e v m = rw e (nil_literal_both c (row (row_key c)) v m)

  -- A comparison with another column is ignored in a conjunction, unless it stands under NOT: then
  -- no row matches the conjunction.
  cross_column_and :
      (w : WhereExpr)
      → is_empty c.rhs_property ≡ false
      → (eval host (binary_expr and_op w (cond_expr c)) row cache).0
        ≡ (if c.negated then false else (eval host w row cache).0)
  unfolding eval eval_leaf eval_condition
  cross_column_and w e = rw e (ground arith)

-- A list holds a text under the equality that `=` uses.
in_loop-any :
    (actual : Bytes) (vs : List Bytes)
    → in_loop actual vs ≡ any (λ v. str_eq actual v || bool_coerce_equal actual v) vs
unfolding in_loop
in_loop-any actual [] = refl
in_loop-any actual (v ∷ vs) = ground (arith, in_loop-any actual vs)

any-eq {ℓ} :
    {A : Type ℓ} (p q : A → Bool) (xs : List A) → ((x : A) → p x ≡ q x) → any p xs ≡ any q xs
any-eq p q [] h = refl
any-eq p q (x ∷ xs) h = ap₂ ◌||◌ (h x) (any-eq p q xs h)

eval_eq-value :
    (c : Condition) (raw : Option Value) (v : Bytes)
    → is_null_row raw ≡ false
    → (str_eq (sprint raw) v || bool_coerce_equal (sprint raw) v)
      ≡ eval_eq (record c { value = v }) raw
unfolding eval_eq
eval_eq-value c raw v h = ground arith

module _ (host : Host) (row : Row) (c : Condition) (cache : ReCache host) where
  -- For a condition with no column on its right side, on a row with a value at the key, other than the
  -- text `<nil>`, IN is the disjunction of the equalities with the members of the list.
  in_list-any :
      is_empty c.rhs_property ≡ true
      → is_null_row (row (row_key c)) ≡ false
      → (eval_condition host row (record c { op = in_list }) cache).0
        ≡ any (λ v. (eval_condition host row (record c { op = eq; value = v }) cache).0) c.in_values
  unfolding eval_condition eval_op eval_in eval_eq falsy_literal
  in_list-any e h = rw e (present (missing (row (row_key c))) refl)
    where
      clash : is_null_row (row (row_key c)) ≡ true → ⊥
      clash n = cc

      present :
          (b : Bool)
          → missing (row (row_key c)) ≡ b
          → (if b then false else in_loop (sprint (row (row_key c))) c.in_values)
            ≡ any (λ v. eval_eq (record c { op = eq; value = v }) (row (row_key c))) c.in_values
      present true k = absurd (clash (missing→null (row (row_key c)) k))
      present false k =
          in_loop-any (sprint (row (row_key c))) c.in_values
          ∙ any-eq _ _ c.in_values (λ v. eval_eq-value c (row (row_key c)) v h)
