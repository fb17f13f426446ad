-- ===== src/Cypher/Sql/Scan.antt =====
-- How `runNodeScan` and `runJoinQuery` of internal/cypher/engine.go divide WHERE between SQL and Go.
use pincher_mcp.Prelude.{
  not, ◌&&◌, List, [], ◌∷◌, ◌++◌, Option, none, some, if◌then◌else◌, Bytes, codes, is_empty, str_eq,
}
use pincher_mcp.Cypher.Ast.{Condition, WhereExpr, QueryAst}
use pincher_mcp.Cypher.Columns.{cypher_prop_to_col}
use pincher_mcp.Cypher.Flatten.{pushdown_allowed, and_chain_from_conds}
use pincher_mcp.Cypher.Sql.{Sql, pushable_op, append_where_op, where_expr_to_sql}

-- The scan of one table for the variable of a node, or the join for the variables of two.
pub data TableScan : Type 0 where
  node_scan : Bytes → TableScan
  join_scan : Bytes → Bytes → TableScan

-- The prefix of a variable's columns, in the loop over conditions and in `prefixFor`.
unfoldable pub chain_prefix : TableScan → Bytes → Option Bytes
chain_prefix (node_scan from) v = if str_eq v from then some [] else none
chain_prefix (join_scan from to) v =
    if str_eq v to then some (codes "b.") else if str_eq v from then some (codes "a.") else none

unfoldable pub prefix_for : TableScan → Bytes → Option Bytes
prefix_for (node_scan from) v = if str_eq v from then some [] else none
prefix_for (join_scan from to) v =
    if str_eq v from then some (codes "a.") else if str_eq v to then some (codes "b.") else none

-- The statement with the conditions that are left to Go.
abbrev pub Pushed : Type 0
Pushed = Sql × List Condition

-- A condition on another variable is passed over by the scan, and left to Go by the join.
abbrev pub push_foreign : TableScan → Condition → Pushed → Pushed
push_foreign (node_scan from) c (sql, left) = (sql, left)
push_foreign (join_scan from to) c (sql, left) = (sql, left ++ c ∷ [])

abbrev pub push_known : Bytes → Condition → Pushed → Pushed
push_known prefix c (sql, left) =
    let col = cypher_prop_to_col c.property in
    if not (is_empty col) && pushable_op c.op
    then (append_where_op sql prefix col c, left)
    else (sql, left ++ c ∷ [])

unfoldable pub push_condition : TableScan → Condition → Pushed → Pushed
unfolding chain_prefix append_where_op
push_condition scan c (sql, left) =
    if not (is_empty c.rhs_property)
    then (sql, left ++ c ∷ [])
    else elim (chain_prefix scan c.variable) [
      | none ↦ push_foreign scan c (sql, left)
      | some prefix ↦ push_known prefix c (sql, left)
    ]

unfoldable pub push_conditions : TableScan → List Condition → Pushed → Pushed
unfolding push_condition
push_conditions scan [] s = s
push_conditions scan (c ∷ cs) s = push_conditions scan cs (push_condition scan c s)

-- The statement, and the filter that is left to Go; `none` is nil.
abbrev pub with_tree : WhereExpr → Sql → Option Sql → Sql × Option WhereExpr
with_tree w sql none = (sql, some w)
with_tree w (sql, args) (some (expr, expr_args)) =
    ((sql ++ codes " AND " ++ expr, args ++ expr_args), none)

abbrev pub filtered_by : Pushed → Sql × Option WhereExpr
filtered_by (sql, left) = (sql, and_chain_from_conds left)

unfoldable pub push_where : TableScan → QueryAst → Sql → Sql × Option WhereExpr
unfolding push_conditions and_chain_from_conds prefix_for where_expr_to_sql
push_where scan q sql =
    if pushdown_allowed q
    then filtered_by (push_conditions scan q.conditions (sql, []))
    else elim q.where_expr [
      | none ↦ (sql, none)
      | some w ↦ with_tree w sql (where_expr_to_sql (prefix_for scan) w)
    ]
