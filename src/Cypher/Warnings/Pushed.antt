-- ===== src/Cypher/Warnings/Pushed.antt =====
-- The warnings and the SQL of WHERE in internal/cypher/engine.go.
use pincher_mcp.Prelude.{◌≡◌, Bool, true, false, List, [], ◌∷◌, Bytes, is_empty, any, if◌then◌else◌}
use pincher_mcp.Cypher.Ast.{Condition}
use pincher_mcp.Cypher.Sql.Scan.{TableScan, chain_prefix, prefix_for}
use pincher_mcp.Cypher.Sql.{Sql, pushable_op, append_leaf, leaf_sql}
use pincher_mcp.Cypher.Sql.Pushable.{is_some, pushes}
use pincher_mcp.Cypher.Warnings.Names.{is_edge_var}

abbrev found_any {ℓ} : {A : Type ℓ} → List A → Bool
found_any xs = any (λ x. true) xs

-- A comparison on a variable of the scan's that is not of an edge, with a property and an operator that is
-- pushable, or IN with members where WHERE is no AND chain.
pub record IsComparable (scan : TableScan) (edges : List Bytes) (chain : Bool) (c : Condition)
    : Type 0 where
  pub has_prefix : is_some (prefix_for scan c.variable) ≡ true
  pub on_node : is_edge_var edges c.variable ≡ false
  pub has_property : is_empty c.property ≡ false
  pub has_form : (if chain then pushable_op c.op else pushes c.op c.in_values) ≡ true

-- The statement with all conditions appended, each in the form that `whereExprToSQL` gives a leaf.
unfoldable pub all_appended : TableScan → List Condition → Sql → Sql
all_appended scan [] sql = sql
all_appended scan (c ∷ cs) sql =
    all_appended scan cs (append_leaf c.negated sql (leaf_sql (chain_prefix scan) c))
