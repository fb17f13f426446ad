-- ===== src/Cypher/Examples/Warnings.antt =====
-- The warnings of internal/cypher/engine.go on concrete queries.
use pincher_mcp.Prelude.{
  ◌≡◌, refl, true, false, [], ◌∷◌, none, some, Bytes, String, codes, str_eq, text_less, any,
  IsStrict, ◌&&◌, arith, sort_by,
}
use pincher_mcp.Cypher.Token.{string}
use pincher_mcp.Cypher.Ast.{
  eq, and_op, or_op, WhereExpr, cond_expr, binary_expr, Pattern, Props, ReturnVar, QueryAst,
}
use pincher_mcp.Cypher.Parser.Condition.{blank}
use pincher_mcp.Cypher.Parser.ReturnClause.{blank_var, is_agg_fn}
use pincher_mcp.Cypher.Result.Build.{has_aggregation}
use pincher_mcp.Cypher.Columns.{cypher_prop_to_col, is_zero_value_predicate}
use pincher_mcp.Cypher.Flatten.{pushdown_allowed, and_chain_from_conds}
use pincher_mcp.Cypher.Sql.Scan.{
  node_scan, chain_prefix, push_where, push_conditions, push_condition,
}
use pincher_mcp.Cypher.Examples.{name_is}
use pincher_mcp.Cypher.Sql.{
  Sql, append_where_op, cond_leaf_to_sql, op_sql, eq_sql, bound_value, pushable_op,
}
use pincher_mcp.Cypher.Warnings.{
  unknown_property, unknown_variable, type_mismatch, clamped_hops, order_by_aggregate,
}
use pincher_mcp.Cypher.Warnings.Names.{
  is_known_edge_property, edge_variables, is_edge_var, collect_unknown_property_warnings,
}
use pincher_mcp.Cypher.Warnings.Collect.{collect_warnings}
use pincher_mcp.Cypher.Warnings.Reported.{mentions, is_unknown}
use pincher_mcp.Cypher.Warnings.Unique.{
  is_on, is_on_edge, warning_less, SameReferences, collect_unknown_property_warnings-reported,
  collect_unknown_property_warnings-same,
}

abbrev call_pattern : Props → Pattern
call_pattern props = record {
  from_var = codes "n";
  from_kind = codes "Function";
  from_props = props;
  edge_var = codes "r";
  edge_kinds = codes "CALLS" ∷ [];
  min_hops = 1;
  max_hops = 2;
  inverted_hops = false;
  min_hops_clamped = true;
  to_var = codes "m";
  to_kind = [];
  to_props = [];
  directed = true;
}

abbrev equals : String → String → String → WhereExpr
equals v p lit =
    cond_expr
      (record (blank (codes v) (codes p)) { op = eq; value = codes lit; value_kind = some string })

abbrev returned : String → String → ReturnVar
returned v p = record blank_var { variable = codes v; property = codes p }

abbrev asked : Props → WhereExpr → QueryAst
asked props w = record {
  patterns = call_pattern props ∷ [];
  conditions = [];
  where_expr = some w;
  return_vars = returned "n" "name" ∷ returned "m" "nmae" ∷ [];
  order_by = codes "COUNT(n)";
  order_dir = codes "ASC";
  limit = none;
  distinct = false;
}

abbrev typos : QueryAst
typos =
    asked ((codes "zoo", codes "1") ∷ (codes "foo", codes "2") ∷ [])
      (binary_expr and_op (equals "r" "foo" "x") (equals "k" "start_line" "ten"))

abbrev turned : QueryAst
turned =
    asked ((codes "foo", codes "2") ∷ (codes "zoo", codes "1") ∷ [])
      (binary_expr and_op (equals "r" "foo" "x") (equals "k" "start_line" "ten"))

abbrev clean : QueryAst
clean = record (asked [] (equals "n" "name" "main")) { return_vars = returned "n" "name" ∷ [] }

warnings_of_typos :
    collect_warnings typos
    ≡ unknown_property (codes "foo") true
      ∷ unknown_property (codes "nmae") false
      ∷ unknown_property (codes "zoo") false
      ∷ unknown_variable (codes "k") (codes "m" ∷ codes "n" ∷ codes "r" ∷ [])
      ∷ clamped_hops 2
      ∷ type_mismatch
          (record { prop = codes "start_line"; prop_type = codes "int"; value_kind = string })
      ∷ order_by_aggregate (codes "COUNT(n)")
      ∷ []
unfolding collect_warnings sort_by str_eq text_less is_known_edge_property is_agg_fn has_aggregation
warnings_of_typos = refl

collect_unknown_property_warnings-reported_example :
    ((n : Bytes)
      → (any (is_on n) (collect_unknown_property_warnings typos)
          ≡ mentions (λ v p. is_unknown (edge_variables typos.patterns) v p && str_eq p n) typos)
        × (any (is_on_edge n) (collect_unknown_property_warnings typos)
            ≡ mentions
                (λ v p.
                  is_unknown (edge_variables typos.patterns) v p
                  && is_edge_var (edge_variables typos.patterns) v
                  && str_eq p n)
                typos))
    × IsStrict warning_less (collect_unknown_property_warnings typos)
collect_unknown_property_warnings-reported_example =
    collect_unknown_property_warnings-reported typos

typos-SameReferences : SameReferences typos turned
unfolding edge_variables
typos-SameReferences = record { edges = λ v. refl; references = λ t. ground arith }

collect_unknown_property_warnings-same_example :
    collect_unknown_property_warnings typos ≡ collect_unknown_property_warnings turned
collect_unknown_property_warnings-same_example =
    collect_unknown_property_warnings-same typos turned typos-SameReferences

-- A choice between two names in a join.
abbrev either : WhereExpr
either = binary_expr or_op (equals "n" "name" "main") (equals "m" "name" "run")

abbrev choosing : QueryAst
choosing = record clean { where_expr = some either; conditions = [] }

-- The scan of one table leaves nothing of an AND chain on its variable to Go.
scan_pushes_chain :
    push_where
      (node_scan (codes "n"))
      (record clean { conditions = name_is (codes "main") ∷ [] })
      (codes "S", [])
    ≡ ((codes "S AND name=?", codes "main" ∷ []), none)
unfolding push_where pushdown_allowed push_conditions push_condition chain_prefix append_where_op
    cond_leaf_to_sql op_sql eq_sql is_zero_value_predicate bound_value pushable_op
    cypher_prop_to_col str_eq and_chain_from_conds
scan_pushes_chain = refl
