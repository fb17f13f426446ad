-- ===== src/Cypher/Sql/InlineProps.antt =====
-- `appendInlinePropFilters` of internal/cypher/engine.go: the placeholders of the filters.
use pincher_mcp.Prelude.{
  ◌≡◌, [], ◌∷◌, some, arith, Bool-cases, inl, inr, Bytes, codes, is_empty, length-append,
}
use pincher_mcp.Cypher.Ast.{Props}
use pincher_mcp.Cypher.Columns.{cypher_prop_to_col}
use pincher_mcp.Cypher.Sql.{Sql, bound_value, inline_filter, append_inline_prop_filters}
use pincher_mcp.Cypher.Sql.Placeholders.{
  count_marks, count_marks-append, cypher_prop_to_col-marks, IsBalanced,
}

module _ (prefix : Bytes) (plain : count_marks prefix ≡ 0) where
  inline_filter-IsBalanced :
      (q : Sql) (k v : Bytes) → IsBalanced (some q) → IsBalanced (some (inline_filter q prefix k v))
  unfolding inline_filter
  inline_filter-IsBalanced (sql, args) k v h = elim (Bool-cases (is_empty (cypher_prop_to_col k))) [
    | inl e ↦ rw e (omega (arith, h, count_marks-append sql (codes " AND 1=0")))
    | inr e ↦ rw e (
        simp count_marks-append (
          omega (
            arith,
            h,
            plain,
            cypher_prop_to_col-marks k,
            length-append args (bound_value (cypher_prop_to_col k) v ∷ []),
          )))
  ]

  -- Where the statement so far binds one argument for each placeholder, and the table prefix holds
  -- none, it does so too with the filters for the inline properties of a pattern.
  append_inline_prop_filters-IsBalanced :
      (q : Sql) (props : Props)
      → IsBalanced (some q)
      → IsBalanced (some (append_inline_prop_filters q prefix props))
  unfolding append_inline_prop_filters
  append_inline_prop_filters-IsBalanced q [] h = h
  append_inline_prop_filters-IsBalanced q ((k, v) ∷ props) h =
      append_inline_prop_filters-IsBalanced (inline_filter q prefix k v) props
        (inline_filter-IsBalanced q k v h)
