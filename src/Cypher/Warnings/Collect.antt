-- ===== src/Cypher/Warnings/Collect.antt =====
-- The warnings that `Execute` of internal/cypher/engine.go collects before it runs a query.
use pincher_mcp.Prelude.{List, ◌++◌}
use pincher_mcp.Cypher.Ast.{QueryAst}
use pincher_mcp.Cypher.Warnings.{Warning}
use pincher_mcp.Cypher.Warnings.Names.{
  collect_unknown_property_warnings, collect_unknown_variable_warnings,
  collect_unknown_edge_kind_warnings, collect_return_bare_property_warnings,
}
use pincher_mcp.Cypher.Warnings.Types.{
  collect_cross_column_warnings, collect_type_mismatch_warnings,
  collect_aggregate_type_mismatch_warnings,
}
use pincher_mcp.Cypher.Warnings.Clauses.{
  collect_hop_range_warnings, collect_unknown_order_by_warnings,
  collect_order_by_aggregate_warnings, collect_repeated_pattern_var_warnings,
  collect_aggregate_mixed_with_bare_warnings,
}

unfoldable pub collect_warnings : QueryAst → List Warning
unfolding collect_unknown_property_warnings collect_unknown_variable_warnings
    collect_unknown_edge_kind_warnings collect_return_bare_property_warnings
    collect_cross_column_warnings collect_type_mismatch_warnings
    collect_aggregate_type_mismatch_warnings collect_hop_range_warnings
    collect_unknown_order_by_warnings collect_order_by_aggregate_warnings
    collect_repeated_pattern_var_warnings collect_aggregate_mixed_with_bare_warnings
collect_warnings q =
    collect_unknown_property_warnings q
    ++ (collect_unknown_variable_warnings q
        ++ (collect_cross_column_warnings q
            ++ (collect_unknown_edge_kind_warnings q
                ++ (collect_hop_range_warnings q
                    ++ (collect_unknown_order_by_warnings q
                        ++ (collect_type_mismatch_warnings q
                            ++ (collect_aggregate_type_mismatch_warnings q
                                ++ (collect_order_by_aggregate_warnings q
                                    ++ (collect_repeated_pattern_var_warnings q
                                        ++ (collect_return_bare_property_warnings q
                                            ++ collect_aggregate_mixed_with_bare_warnings
                                                q))))))))))
