-- ===== src/Cypher/Sql/Pushable.antt =====
-- The leaves of WHERE that internal/cypher/engine.go turns into SQL.
use pincher_mcp.Prelude.{
  ◌≡◌, refl, ◌∙◌, Bool, true, false, List, [], ◌∷◌, ◌++◌, Option, none, some, arith, Bytes,
}
use pincher_mcp.Cypher.Ast.{Op, eq, ne, in_list, Condition}
use pincher_mcp.Cypher.Sql.{
  Sql, pushable_op, eq_sql, ne_sql, in_sql, op_sql, negate_sql, cond_leaf_to_sql,
}

-- Which leaves become SQL: the pushable operators, and IN with a list that is not empty.
abbrev pub is_some {ℓ} : {A : Type ℓ} → Option A → Bool
is_some none = false
is_some (some a) = true

abbrev pub pushes : Op → List Bytes → Bool
pushes in_list [] = false
pushes in_list (v ∷ vs) = true
pushes op vs = pushable_op op

eq_sql-is_some : (target col v : Bytes) → is_some (eq_sql target col v) ≡ true
unfolding eq_sql
eq_sql-is_some target col v = ground arith

ne_sql-is_some : (target col v : Bytes) → is_some (ne_sql target col v) ≡ true
unfolding ne_sql
ne_sql-is_some target col v = ground arith

in_sql-is_some :
    (target col : Bytes) (vs : List Bytes) → is_some (in_sql target col vs) ≡ pushes in_list vs
unfolding in_sql
in_sql-is_some target col [] = refl
in_sql-is_some target col (v ∷ vs) = refl

op_sql-is_some :
    (op : Op) (target col : Bytes) (c : Condition)
    → is_some (op_sql op target col c) ≡ pushes op c.in_values
unfolding op_sql pushable_op
op_sql-is_some eq target col c = eq_sql-is_some target col _
op_sql-is_some ne target col c = ne_sql-is_some target col _
op_sql-is_some in_list target col c = in_sql-is_some target col c.in_values
op_sql-is_some op target col c = refl

negate_sql-is_some : (b : Bool) (r : Option Sql) → is_some (negate_sql b r) ≡ is_some r
negate_sql-is_some b none = refl
negate_sql-is_some b (some r) = refl

-- A leaf has an SQL form exactly when its operator is pushable, or is IN with a list that is not
-- empty.
pub cond_leaf_to_sql-pushes :
    (p col : Bytes) (c : Condition) → is_some (cond_leaf_to_sql p col c) ≡ pushes c.op c.in_values
unfolding cond_leaf_to_sql
cond_leaf_to_sql-pushes p col c =
    negate_sql-is_some c.negated (op_sql c.op (p ++ col) col c)
    ∙ op_sql-is_some c.op (p ++ col) col c
