-- ===== src/Cypher/Sql/Append.antt =====
-- `appendWhereOp` of internal/cypher/engine.go against `condLeafToSQL`.
use pincher_mcp.Prelude.{
  ℕ, ◌≡◌, refl, ap, ◌∙◌, Bool, true, false, [], ◌∷◌, ◌++◌, Option, none, some, arith, Bytes, codes,
  str_eq, str_eq_refl, has_prefix-append,
}
use pincher_mcp.Cypher.Ast.{Condition}
use pincher_mcp.Cypher.Sql.{
  Sql, op_sql, wrap_not, negate_sql, cond_leaf_to_sql, trim_prefix, trim_suffix, append_leaf,
  append_where_op,
}

trim_prefix-append : (p s : Bytes) → trim_prefix (p ++ s) p ≡ s
unfolding trim_prefix
trim_prefix-append [] s = by_text s
  where
    by_text : (s : Bytes) → trim_prefix s [] ≡ s
    by_text [] = refl
    by_text (c ∷ s) = refl
trim_prefix-append (x ∷ p) s = rw (has_prefix-append (x ∷ p) s) (trim_prefix-append p s)

str_eq-longer : (x : ℕ) (s : Bytes) (d : ℕ) → str_eq (x ∷ s ++ d ∷ []) (d ∷ []) ≡ false
unfolding str_eq
str_eq-longer x [] d = ground arith
str_eq-longer x (y ∷ s) d = ground arith

trim_suffix-append : (s : Bytes) (d : ℕ) → trim_suffix (s ++ d ∷ []) (d ∷ []) ≡ s
unfolding trim_suffix
trim_suffix-append [] d = rw str_eq_refl
trim_suffix-append (x ∷ s) d = rw (str_eq-longer x s d) (ap (λ t. x ∷ t) (trim_suffix-append s d))

-- The text and the arguments of one more condition, behind what is there already.
abbrev pub and_also : Sql → Option Sql → Sql
and_also q none = q
and_also (sql, args) (some (inner, leaf_args)) =
    (sql ++ (codes " AND " ++ inner), args ++ leaf_args)

strip_wrap :
    (inner : Bytes) → trim_suffix (trim_prefix (wrap_not inner) (codes "NOT (")) (codes ")") ≡ inner
strip_wrap inner =
    ap (λ t. trim_suffix t (codes ")")) (trim_prefix-append (codes "NOT (") (inner ++ codes ")"))
    ∙ trim_suffix-append inner b')'

append_leaf-and_also :
    (b : Bool) (q : Sql) (r : Option Sql)
    → append_leaf b q (negate_sql b r) ≡ and_also q (negate_sql b r)
append_leaf-and_also b (sql, args) none = refl
append_leaf-and_also false (sql, args) (some (inner, leaf_args)) = refl
append_leaf-and_also true (sql, args) (some (inner, leaf_args)) =
    ap (λ t. (sql ++ (codes " AND NOT (" ++ t ++ codes ")"), args ++ leaf_args)) (strip_wrap inner)

-- Appending a condition adds ` AND ` and the leaf's own SQL, and the leaf's arguments: stripping the
-- NOT of a negated leaf and writing it again loses nothing. A leaf with no SQL changes nothing.
append_where_op_lem :
    (q : Sql) (p col : Bytes) (c : Condition)
    → append_where_op q p col c ≡ and_also q (cond_leaf_to_sql p col c)
unfolding append_where_op cond_leaf_to_sql
append_where_op_lem q p col c = append_leaf-and_also c.negated q (op_sql c.op (p ++ col) col c)
