-- ===== src/Cypher/Examples/Statements.antt =====
-- The SQL of internal/cypher/engine.go at concrete inputs.
use pincher_mcp.Prelude.{length, [], ◌∷◌, ◌≡◌, refl, some, Bytes, codes, str_eq, one_of, ap, sym}
use pincher_mcp.Cypher.Ast.{or_op, WhereExpr, cond_expr, binary_expr, not_expr}
use pincher_mcp.Cypher.Columns.{cypher_prop_to_col, column_in, is_bool_col, is_zero_value_predicate}
use pincher_mcp.Cypher.Sql.{
  leaf_sql, cond_leaf_to_sql, op_sql, in_sql, eq_sql, bound_value, placeholders,
  escape_like_pattern, where_expr_to_sql,
}
use pincher_mcp.Cypher.Sql.Literals.{text as stated, some_inj, leaf, where_expr_to_sql-text}
use pincher_mcp.Cypher.Sql.LikePatterns.{like_literal, like_literal-escape}
use pincher_mcp.Cypher.Sql.Placeholders.{count_marks, where_expr_to_sql-IsBalanced}
use pincher_mcp.Cypher.Examples.{name_is, two_names, one_table}

one_table_no_marks : (v p : Bytes) → one_table v ≡ some p → count_marks p ≡ 0
one_table_no_marks v p e = ap count_marks (sym (some_inj e))

where_expr_to_sql-text_example :
    stated (where_expr_to_sql one_table (cond_expr (name_is (codes "main"))))
    ≡ stated (where_expr_to_sql one_table (cond_expr (name_is (codes "' OR 1=1 --"))))
where_expr_to_sql-text_example = where_expr_to_sql-text one_table (
    leaf (name_is (codes "main")) (name_is (codes "' OR 1=1 --")) record {
      variables = refl;
      properties = refl;
      ops = refl;
      signs = refl;
      right_sides = refl;
      absences =
          unfold cypher_prop_to_col column_in one_of str_eq bound_value is_bool_col
            is_zero_value_predicate in
          refl;
      counts = refl;
    })

-- An IN list of two values, or the negation of a comparison.
abbrev choice : WhereExpr
choice = binary_expr or_op (cond_expr two_names) (not_expr (cond_expr (name_is (codes "main"))))

where_expr_to_sql-IsBalanced_example :
    count_marks (codes "(n.name IN (?,?) OR NOT (n.name=?))")
    ≡ length (codes "other" ∷ codes "main" ∷ codes "main" ∷ [])
unfolding where_expr_to_sql placeholders str_eq leaf_sql cypher_prop_to_col cond_leaf_to_sql op_sql
    in_sql eq_sql is_zero_value_predicate bound_value
where_expr_to_sql-IsBalanced_example =
    where_expr_to_sql-IsBalanced one_table one_table_no_marks choice

like_literal-escape_example :
    like_literal (escape_like_pattern (codes "100%_\\")) ≡ some (codes "100%_\\")
like_literal-escape_example = like_literal-escape (codes "100%_\\")
