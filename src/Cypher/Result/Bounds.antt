-- ===== src/Cypher/Result/Bounds.antt =====
-- How many rows a query of internal/cypher/engine.go returns.
use pincher_mcp.Prelude.{
  ℕ, zero, suc, ◌≤◌, ◌≡◌, refl, false, List, [], ◌∷◌, Option, none, some, arith, length,
  length-take, length-take_less, Bool-cases, inl, inr,
}
use pincher_mcp.Cypher.Ast.{ReturnVar, QueryAst}
use pincher_mcp.Cypher.Result.{Fields, OutRow, Numbers}
use pincher_mcp.Cypher.Result.Build.{
  QueryResult, has_aggregation, default_limit, limit_rows, single_row, aggregated_by, aggregated,
  projected, build_result, max_rows, trim, group_vars,
}

-- The rows that a LIMIT, or its absence, admits.
abbrev pub admitted : Option ℕ → ℕ
admitted none = default_limit
admitted (some n) = n

length-limit_rows : (l : Option ℕ) (rows : List OutRow) → length (limit_rows l rows) ≤ admitted l
length-limit_rows none rows = length-take default_limit rows
length-limit_rows (some n) rows = length-take n rows

length-single_row : (l : Option ℕ) (row : OutRow) → length (single_row l row) ≤ admitted l
unfolding single_row
length-single_row none row = omega arith
length-single_row (some zero) row = omega arith
length-single_row (some (suc n)) row = omega arith

length-trim :
    (m : ℕ) (q : QueryAst) (r : QueryResult) (l : ℕ)
    → length r.rows ≤ l
    → r.total ≡ length r.rows
    → (length (trim m q r).rows ≤ l)
      × ((trim m q r).total ≡ length (trim m q r).rows)
      × (has_aggregation q ≡ false → length (trim m q r).rows ≤ max_rows m)
unfolding trim
length-trim m q r l h t =
    ground (arith, length-take (max_rows m) r.rows, length-take_less (max_rows m) r.rows)

module _ (numbers : Numbers) where
  length-aggregated_by :
      (all_rows : List Fields) (q : QueryAst) (rvs : List ReturnVar)
      → length (aggregated_by numbers all_rows q rvs) ≤ admitted q.limit
  unfolding aggregated_by
  length-aggregated_by all_rows q [] = length-single_row q.limit _
  length-aggregated_by all_rows q (rv ∷ rvs) = length-limit_rows q.limit _

  length-build_result :
      (all_rows : List Fields) (q : QueryAst)
      → length (build_result numbers all_rows q).rows ≤ admitted q.limit
  unfolding build_result aggregated projected
  length-build_result all_rows q = elim (Bool-cases (has_aggregation q)) [
    | inl e ↦ rw e (length-aggregated_by all_rows q (group_vars q.return_vars))
    | inr e ↦ rw e (length-limit_rows q.limit _)
  ]

  -- Whatever rows the scan gives, the result has at most as many rows as LIMIT says, or 200 without a
  -- LIMIT, with an aggregate or without; its total is the number of its rows; and the trim to max_rows
  -- keeps both, and leaves at most max_rows rows unless the query aggregates.
  pub build_result_bounds :
      (all_rows : List Fields) (q : QueryAst) (m : ℕ)
      → (length (build_result numbers all_rows q).rows ≤ admitted q.limit)
        × ((build_result numbers all_rows q).total ≡ length (build_result numbers all_rows q).rows)
        × (length (trim m q (build_result numbers all_rows q)).rows ≤ admitted q.limit)
        × ((trim m q (build_result numbers all_rows q)).total
            ≡ length (trim m q (build_result numbers all_rows q)).rows)
        × (has_aggregation q ≡ false
            → length (trim m q (build_result numbers all_rows q)).rows ≤ max_rows m)
  unfolding build_result
  build_result_bounds all_rows q m =
      let h = length-build_result all_rows q in
      let (le, total, few) =
        length-trim m q (build_result numbers all_rows q) (admitted q.limit) h refl in
      (h, refl, le, total, few)
