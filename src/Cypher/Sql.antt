-- ===== src/Cypher/Sql.antt =====
-- The SQL of WHERE: `condLeafToSQL`, `whereExprToSQL`, `appendWhereOp`, `pushableOp`,
-- `escapeLikePattern`, `appendInlinePropFilters` and `scanLimitFor` of internal/cypher/engine.go.
-- A bind argument is a text; every one that the source binds here is a string.
pub mod Placeholders
pub mod Literals
pub mod Append
pub mod Pushable
pub mod InlineProps
pub mod LikePatterns
pub mod Scan
use pincher_mcp.Prelude.{
  ℕ, zero, suc, ◌+◌, ◌*◌, Bool, true, false, not, List, [], ◌∷◌, ◌++◌, map, Option, none, some, ltb,
  if◌then◌else◌, Bytes, codes, is_empty, str_eq, has_prefix, has_suffix, length, ◌==◌, ◌≡◌, refl,
}
use pincher_mcp.Cypher.Ast.{
  Op, eq, ne, gt, lt, ge, le, matches, contains, starts_with, ends_with, is_null, is_not_null,
  in_list, BoolOp, and_op, or_op, Condition, WhereExpr, cond_expr, binary_expr, not_expr, Props,
}
use pincher_mcp.Cypher.Columns.{
  cypher_prop_to_col, is_bool_col, coerce_bool_literal, is_zero_value_predicate,
}

-- A statement's text, and the arguments that are bound to its placeholders.
abbrev pub Sql : Type 0
Sql = Bytes × List Bytes

-- `strings.ReplaceAll` of one byte by two
unfoldable pub replace_byte : ℕ → Bytes → Bytes
replace_byte b [] = []
replace_byte b (c ∷ s) = let rest = replace_byte b s in if c == b then 92 ∷ c ∷ rest else c ∷ rest

unfoldable pub escape_like_pattern : Bytes → Bytes
escape_like_pattern s = replace_byte b'_' (replace_byte b'%' (replace_byte 92 s))

unfoldable pub pushable_op : Op → Bool
pushable_op eq = true
pushable_op ne = true
pushable_op gt = true
pushable_op lt = true
pushable_op ge = true
pushable_op le = true
pushable_op contains = true
pushable_op starts_with = true
pushable_op ends_with = true
pushable_op is_null = true
pushable_op is_not_null = true
pushable_op matches = false
pushable_op in_list = false

-- A literal as it is bound against the column.
unfoldable pub bound_value : Bytes → Bytes → Bytes
bound_value col v = if is_bool_col col then coerce_bool_literal v else v

-- `?,?,…`, one for each value
unfoldable pub placeholders : List Bytes → Bytes
placeholders [] = []
placeholders (v ∷ []) = codes "?"
placeholders (v ∷ w ∷ vs) = codes "?," ++ placeholders (w ∷ vs)

abbrev pub like : Bytes → Bytes → Option Sql
like target pattern = some (target ++ codes " LIKE ? ESCAPE '\\'", pattern ∷ [])

abbrev pub compare_sql : Bytes → Bytes → Bytes → Option Sql
compare_sql target op v = some (target ++ op ++ codes "?", v ∷ [])

unfoldable pub eq_sql : Bytes → Bytes → Bytes → Option Sql
eq_sql target col v =
    if is_zero_value_predicate col v
    then some (codes "(" ++ target ++ codes " IS NULL OR " ++ target ++ codes "=?)", v ∷ [])
    else some (target ++ codes "=?", v ∷ [])

unfoldable pub ne_sql : Bytes → Bytes → Bytes → Option Sql
ne_sql target col v =
    if is_zero_value_predicate col v
    then some (codes "(" ++ target ++ codes " IS NOT NULL AND " ++ target ++ codes "<>?)", v ∷ [])
    else some (codes "(" ++ target ++ codes " IS NULL OR " ++ target ++ codes "<>?)", v ∷ [])

unfoldable pub in_sql : Bytes → Bytes → List Bytes → Option Sql
in_sql target col [] = none
in_sql target col (v ∷ vs) =
    some (
      target ++ codes " IN (" ++ placeholders (v ∷ vs) ++ codes ")",
      map (bound_value col) (v ∷ vs),
    )

-- The `switch` on the operator; `target` is the prefix and the column.
unfoldable pub op_sql : Op → Bytes → Bytes → Condition → Option Sql
op_sql eq target col c = eq_sql target col (bound_value col c.value)
op_sql ne target col c = ne_sql target col (bound_value col c.value)
op_sql gt target col c = compare_sql target (codes ">") (bound_value col c.value)
op_sql lt target col c = compare_sql target (codes "<") (bound_value col c.value)
op_sql ge target col c = compare_sql target (codes ">=") (bound_value col c.value)
op_sql le target col c = compare_sql target (codes "<=") (bound_value col c.value)
op_sql contains target col c = like target (b'%' ∷ escape_like_pattern c.value ++ b'%' ∷ [])
op_sql starts_with target col c = like target (escape_like_pattern c.value ++ b'%' ∷ [])
op_sql ends_with target col c = like target (b'%' ∷ escape_like_pattern c.value)
op_sql is_null target col c =
    some (codes "(" ++ target ++ codes " IS NULL OR " ++ target ++ codes " = '')", [])
op_sql is_not_null target col c =
    some (codes "(" ++ target ++ codes " IS NOT NULL AND " ++ target ++ codes " <> '')", [])
op_sql in_list target col c = in_sql target col c.in_values
op_sql matches target col c = none

abbrev pub wrap_not : Bytes → Bytes
wrap_not inner = codes "NOT (" ++ inner ++ codes ")"

abbrev pub negate_sql : Bool → Option Sql → Option Sql
negate_sql negated none = none
negate_sql negated (some (inner, args)) = some (if negated then wrap_not inner else inner, args)

unfoldable pub cond_leaf_to_sql : Bytes → Bytes → Condition → Option Sql
cond_leaf_to_sql prefix col c = negate_sql c.negated (op_sql c.op (prefix ++ col) col c)

-- `strings.TrimPrefix` and `strings.TrimSuffix`
unfoldable pub trim_prefix : Bytes → Bytes → Bytes
trim_prefix s [] = s
trim_prefix [] (p ∷ ps) = []
trim_prefix (c ∷ s) (p ∷ ps) = if has_prefix (c ∷ s) (p ∷ ps) then trim_prefix s ps else c ∷ s

unfoldable pub trim_suffix : Bytes → Bytes → Bytes
trim_suffix [] p = []
trim_suffix (c ∷ s) p = let rest = trim_suffix s p in if str_eq (c ∷ s) p then [] else c ∷ rest

abbrev pub append_leaf : Bool → Sql → Option Sql → Sql
append_leaf negated (sql, args) none = (sql, args)
append_leaf negated (sql, args) (some (inner, leaf_args)) = (
  sql
      ++ (if negated
          then codes " AND NOT ("
            ++ trim_suffix (trim_prefix inner (codes "NOT (")) (codes ")")
            ++ codes ")"
          else codes " AND " ++ inner),
  args ++ leaf_args,
)

-- The statement so far, with one more condition of an AND chain.
unfoldable pub append_where_op : Sql → Bytes → Bytes → Condition → Sql
append_where_op q prefix col c = append_leaf c.negated q (cond_leaf_to_sql prefix col c)

abbrev pub conj : BoolOp → Bytes
conj and_op = codes " AND "
conj or_op = codes " OR "

abbrev pub join_sql : BoolOp → Option Sql → Option Sql → Option Sql
join_sql op none r = none
join_sql op (some l) none = none
join_sql op (some (ls, la)) (some (rs, ra)) =
    some (codes "(" ++ ls ++ conj op ++ rs ++ codes ")", la ++ ra)

abbrev pub not_sql : Option Sql → Option Sql
not_sql none = none
not_sql (some (s, a)) = some (wrap_not s, a)

-- A leaf with a known variable and column, and no column on its right side.
abbrev pub known_leaf : Option Bytes → Condition → Option Sql
known_leaf none c = none
known_leaf (some prefix) c =
    let col = cypher_prop_to_col c.property in
    if is_empty col then none else cond_leaf_to_sql prefix col c

module _ (prefix_for : Bytes → Option Bytes) where
  unfoldable pub leaf_sql : Condition → Option Sql
  leaf_sql c = if is_empty c.rhs_property then known_leaf (prefix_for c.variable) c else none

  unfoldable pub where_expr_to_sql : WhereExpr → Option Sql
  where_expr_to_sql (cond_expr c) = leaf_sql c
  where_expr_to_sql (binary_expr op left right) =
      join_sql op (where_expr_to_sql left) (where_expr_to_sql right)
  where_expr_to_sql (not_expr inner) = not_sql (where_expr_to_sql inner)

-- The filter for one inline property.
unfoldable pub inline_filter : Sql → Bytes → Bytes → Bytes → Sql
inline_filter (sql, args) prefix k v =
    let col = cypher_prop_to_col k in
    if is_empty col
    then (sql ++ codes " AND 1=0", args)
    else (sql ++ codes " AND " ++ prefix ++ col ++ codes "=?", args ++ bound_value col v ∷ [])

-- The inline properties of a pattern, in the order in which the map is iterated.
unfoldable pub append_inline_prop_filters : Sql → Bytes → Props → Sql
append_inline_prop_filters q prefix [] = q
append_inline_prop_filters q prefix ((k, v) ∷ props) =
    append_inline_prop_filters (inline_filter q prefix k v) prefix props

-- `none` is the nil filter: SQL evaluates the whole WHERE.
unfoldable pub scan_limit_for : ℕ → Option WhereExpr → ℕ
scan_limit_for max_rows none = max_rows * 2
scan_limit_for max_rows (some filter) =
    let limit = max_rows * 50 in if ltb 10000 limit then 10000 else limit
