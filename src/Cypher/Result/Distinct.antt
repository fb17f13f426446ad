-- ===== src/Cypher/Result/Distinct.antt =====
-- RETURN DISTINCT in `buildResult` of internal/cypher/engine.go.
use pincher_mcp.Prelude.{
  ℕ, ◌≤◌, ◌≡◌, refl, ap, ◌∙◌, Bool, true, false, not, ◌&&◌, List, [], ◌∷◌, Option, none, some,
  arith, Bytes, is_empty, str_eq, str_eq_iff, str_eq_refl, any, length, Bool-cases, inl, inr,
  take-all, any-sort_by, length-sort_by, Once, take-Once, sort_by-Once,
}
use pincher_mcp.Cypher.Ast.{ReturnVar, QueryAst}
use pincher_mcp.Cypher.Result.{Fields, OutRow, Numbers, sprint_row}
use pincher_mcp.Cypher.Result.Build.{
  project_row, project_all, order_rows, order_key, limit_rows, default_limit, has_aggregation,
  projected, build_result,
}
use pincher_mcp.Cypher.Result.Bounds.{admitted}

-- Two result rows print alike.
abbrev pub prints_like : OutRow → OutRow → Bool
prints_like r s = str_eq (sprint_row r) (sprint_row s)

-- Some result row prints as the text.
abbrev pub printed : Bytes → List OutRow → Bool
printed t rows = any (λ r. str_eq t (sprint_row r)) rows

-- The projection of some scanned row prints as the text.
abbrev pub offered : List ReturnVar → Bytes → List Fields → Bool
offered rvs t rows = any (λ row. str_eq t (sprint_row (project_row rvs row))) rows

printed-project_all :
    (rvs : List ReturnVar) (t : Bytes) (rows : List Fields) (seen : List Bytes)
    → printed t (project_all true rvs rows seen) ≡ (not (any (str_eq t) seen) && offered rvs t rows)
unfolding project_all
printed-project_all rvs t [] seen = ground arith
printed-project_all rvs t (row ∷ rows) seen =
    let key = sprint_row (project_row rvs row) in
    elim (Bool-cases (any (str_eq key) seen)) [
      | inl e ↦ ground (arith, printed-project_all rvs t rows seen, str_eq_iff t key)
      | inr e ↦ ground (arith, printed-project_all rvs t rows (key ∷ seen), str_eq_iff t key)
    ]

project_all-Once :
    (rvs : List ReturnVar) (rows : List Fields) (seen : List Bytes)
    → Once prints_like (project_all true rvs rows seen)
unfolding project_all
project_all-Once rvs [] seen = tt
project_all-Once rvs (row ∷ rows) seen =
    let key = sprint_row (project_row rvs row) in
    elim (Bool-cases (any (str_eq key) seen)) [
      | inl e ↦ rw e (project_all-Once rvs rows seen)
      | inr e ↦ rw e (
        ground (arith, printed-project_all rvs key rows (key ∷ seen), str_eq_refl key),
        project_all-Once rvs rows (key ∷ seen),
      )
    ]

prints_like_symm : (r s : OutRow) → prints_like r s ≡ prints_like s r
prints_like_symm r s =
    ground
      (arith, str_eq_iff (sprint_row r) (sprint_row s), str_eq_iff (sprint_row s) (sprint_row r))

limit_rows-Once :
    (l : Option ℕ) (rows : List OutRow)
    → Once prints_like rows
    → Once prints_like (limit_rows l rows)
limit_rows-Once none rows h = take-Once prints_like default_limit rows h
limit_rows-Once (some n) rows h = take-Once prints_like n rows h

limit_rows-all :
    (l : Option ℕ) (rows : List OutRow) → length rows ≤ admitted l → limit_rows l rows ≡ rows
limit_rows-all none rows h = take-all default_limit rows h
limit_rows-all (some n) rows h = take-all n rows h

module _ (numbers : Numbers) where
  order_rows-Once :
      (key : Bytes) (q : QueryAst) (rows : List OutRow)
      → Once prints_like rows
      → Once prints_like (order_rows numbers key q rows)
  unfolding order_rows
  order_rows-Once key q rows h = elim (Bool-cases (is_empty q.order_by)) [
    | inl e ↦ rw e h
    | inr e ↦ rw e (sort_by-Once prints_like _ prints_like_symm rows h)
  ]

  printed-order_rows :
      (key t : Bytes) (q : QueryAst) (rows : List OutRow)
      → (printed t (order_rows numbers key q rows) ≡ printed t rows)
        × (length (order_rows numbers key q rows) ≡ length rows)
  unfolding order_rows
  printed-order_rows key t q rows = elim (Bool-cases (is_empty q.order_by)) [
    | inl e ↦ rw e (refl, refl)
    | inr e ↦ rw e (any-sort_by _ _ rows, length-sort_by _ rows)
  ]

  -- RETURN DISTINCT without an aggregate gives no two rows that print alike; and if the distinct rows
  -- are within LIMIT, or 200 without one, exactly the printed forms that the projections of the scanned
  -- rows have.
  pub build_result-Once :
      (all_rows : List Fields) (q : QueryAst)
      → has_aggregation q ≡ false
      → q.distinct ≡ true
      → Once prints_like (build_result numbers all_rows q).rows
        × (length (project_all true q.return_vars all_rows []) ≤ admitted q.limit
            → (t : Bytes)
            → printed t (build_result numbers all_rows q).rows ≡ offered q.return_vars t all_rows)
  unfolding build_result projected
  build_result-Once all_rows q plain distinct =
      let rows = project_all true q.return_vars all_rows [] in
      let ordered = order_rows numbers (order_key q) q rows in
      let e : (build_result numbers all_rows q).rows ≡ limit_rows q.limit ordered = ground arith in
      (
        rw e (
            limit_rows-Once q.limit ordered
              (order_rows-Once (order_key q) q rows (project_all-Once q.return_vars all_rows []))),
        λ few t.
            let (same, size) = printed-order_rows (order_key q) t q rows in
            rw e (
              ap (printed t) (limit_rows-all q.limit ordered (rw size few))
              ∙ same
              ∙ printed-project_all q.return_vars t all_rows []),
      )
