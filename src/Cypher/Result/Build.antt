-- ===== src/Cypher/Result/Build.antt =====
-- `buildResult` of internal/cypher/engine.go, and the trim of its rows in `Execute`.
use pincher_mcp.Prelude.{
  ℕ, zero, suc, ◌==◌, Bool, not, ◌&&◌, List, [], ◌∷◌, ◌++◌, Option, none, some, if◌then◌else◌, ltb,
  Bytes, codes, is, is_empty, str_eq, has_prefix, text_less, length, map, any, sort_by, take,
}
use pincher_mcp.Cypher.Ast.{ReturnVar, QueryAst}
use pincher_mcp.Cypher.Where.{Value, nil}
use pincher_mcp.Cypher.Result.{
  Fields, Cell, value, node, OutRow, Numbers, get, get_cell, set_cell, value_at, sprint_row,
  source_key, agg_col_name, column_of, compute_agg, cypher_less_than,
}

-- `Result` without its warnings.
pub record QueryResult : Type 0 where
  pub column_names : List Bytes
  pub rows : List OutRow
  pub total : ℕ

-- The keys of the first row that do not begin with an underscore, sorted.
unfoldable pub plain_keys : Fields → List Bytes
unfolding has_prefix
plain_keys [] = []
plain_keys ((k, v) ∷ row) =
    let rest = plain_keys row in if has_prefix k (codes "_") then rest else k ∷ rest

unfoldable pub auto_columns : List Fields → List Bytes
unfolding plain_keys sort_by text_less
auto_columns [] = []
auto_columns (row ∷ rows) = sort_by text_less (plain_keys row)

unfoldable pub columns_of : List Fields → QueryAst → List Bytes
unfolding column_of auto_columns
columns_of rows q = elim q.return_vars [
  | [] ↦ auto_columns rows
  | rv ∷ rvs ↦ map column_of (rv ∷ rvs)
]

abbrev pub is_agg : ReturnVar → Bool
is_agg rv = not (is_empty rv.fn)

unfoldable pub has_aggregation : QueryAst → Bool
has_aggregation q = any is_agg q.return_vars

unfoldable pub agg_vars : List ReturnVar → List ReturnVar
agg_vars [] = []
agg_vars (rv ∷ rvs) = let rest = agg_vars rvs in if is_agg rv then rv ∷ rest else rest

unfoldable pub group_vars : List ReturnVar → List ReturnVar
group_vars [] = []
group_vars (rv ∷ rvs) = let rest = group_vars rvs in if is_agg rv then rest else rv ∷ rest

-- `values` of a row: its values of the columns to group by.
unfoldable pub group_values : List ReturnVar → Fields → OutRow → OutRow
unfolding set_cell get
group_values [] row values = values
group_values (rv ∷ rvs) row values = group_values rvs row (
    set_cell (if is_empty rv.alias then source_key rv else rv.alias)
      (value (value_at (source_key rv) row)) values)

-- The local type `groupBucket`, with the key under which `groups` holds it.
pub record GroupBucket : Type 0 where
  pub key : Bytes
  pub values : OutRow
  pub rows : List Fields

-- `groups` and `groupOrder` after one more row: the buckets in the order of their first rows.
unfoldable pub add_to_group : Bytes → OutRow → Fields → List GroupBucket → List GroupBucket
add_to_group key values row [] = record { key = key; values = values; rows = row ∷ [] } ∷ []
add_to_group key values row (b ∷ bs) =
    if str_eq b.key key
    then record b { rows = b.rows ++ row ∷ [] } ∷ bs
    else b ∷ add_to_group key values row bs

unfoldable pub group_rows : List ReturnVar → List Fields → List GroupBucket → List GroupBucket
unfolding group_values sprint_row add_to_group str_eq
group_rows rvs [] bs = bs
group_rows rvs (row ∷ rows) bs =
    let values = group_values rvs row [] in
    group_rows rvs rows (add_to_group (sprint_row values) values row bs)

-- No LIMIT clause stands for 200 rows.
abbrev pub default_limit : ℕ
default_limit = 200

abbrev pub limit_rows : Option ℕ → List OutRow → List OutRow
limit_rows none rows = take default_limit rows
limit_rows (some n) rows = take n rows

-- Without columns to group by there is one row, but none for LIMIT 0.
unfoldable pub single_row : Option ℕ → OutRow → List OutRow
single_row none row = row ∷ []
single_row (some zero) row = []
single_row (some (suc n)) row = row ∷ []

-- The entries of a node under its prefix, without those that are nil.
unfoldable pub cut_prefix : Bytes → Bytes → Option Bytes
cut_prefix k [] = some k
cut_prefix [] (p ∷ ps) = none
cut_prefix (c ∷ k) (p ∷ ps) = let rest = cut_prefix k ps in if c == p then rest else none

node_entry : Bytes → Bytes → Value → Fields → Fields
unfolding cut_prefix
node_entry prefix k nil rest = rest
node_entry prefix k v rest = elim (cut_prefix k prefix) [ none ↦ rest | some r ↦ (r, v) ∷ rest ]

unfoldable pub node_of : Bytes → Fields → Fields
unfolding node_entry
node_of prefix [] = []
node_of prefix ((k, v) ∷ row) = node_entry prefix k v (node_of prefix row)

unfoldable pub projected_cell : ReturnVar → Fields → Cell
unfolding get node_of
projected_cell rv row =
    if is_empty rv.property
    then node (node_of (rv.variable ++ codes ".") row)
    else value (value_at (source_key rv) row)

-- Without RETURN items the row itself, otherwise its items under their columns.
unfoldable pub project_items : List ReturnVar → Fields → OutRow → OutRow
unfolding projected_cell set_cell column_of
project_items [] row out = out
project_items (rv ∷ rvs) row out =
    project_items rvs row (set_cell (column_of rv) (projected_cell rv row) out)

unfoldable pub project_row : List ReturnVar → Fields → OutRow
unfolding project_items
project_row [] row = map (λ e. (e.0, value e.1)) row
project_row (rv ∷ rvs) row = project_items (rv ∷ rvs) row []

-- The loop over the rows, with the keys seen so far.
unfoldable pub project_all : Bool → List ReturnVar → List Fields → List Bytes → List OutRow
unfolding project_row sprint_row str_eq
project_all distinct rvs [] seen = []
project_all distinct rvs (row ∷ rows) seen =
    let pr = project_row rvs row in
    let key = sprint_row pr in
    let again = project_all distinct rvs rows seen in
    let first = pr ∷ project_all distinct rvs rows (key ∷ seen) in
    let plain = pr ∷ again in
    if distinct then (if any (str_eq key) seen then again else first) else plain

-- `sourceToProjected[orderKey]`: the last item with that source key under another column.
unfoldable pub projected_key : Bytes → List ReturnVar → Option Bytes → Option Bytes
unfolding column_of
projected_key order_by [] found = found
projected_key order_by (rv ∷ rvs) found = projected_key order_by rvs (
    if str_eq (source_key rv) order_by
      && not (is_empty (source_key rv))
      && not (str_eq (source_key rv) (column_of rv))
    then some (column_of rv)
    else found)

unfoldable pub order_key : QueryAst → Bytes
unfolding projected_key
order_key q = elim (projected_key q.order_by q.return_vars none) [ none ↦ q.order_by | some k ↦ k ]

module _ (numbers : Numbers) where
  -- `sort.SliceStable` by the cells at a key.
  unfoldable pub order_rows : Bytes → QueryAst → List OutRow → List OutRow
  unfolding sort_by get_cell cypher_less_than str_eq
  order_rows key q rows =
      if is_empty q.order_by
      then rows
      else sort_by
          (λ r s.
            cypher_less_than numbers (get_cell key r) (get_cell key s) (is q.order_dir "DESC"))
          rows

  unfoldable pub put_aggs : List ReturnVar → List Fields → OutRow → OutRow
  unfolding set_cell agg_col_name compute_agg
  put_aggs [] rows out = out
  put_aggs (rv ∷ rvs) rows out =
      put_aggs rvs rows (set_cell (agg_col_name rv) (value (compute_agg numbers rows rv)) out)

  unfoldable pub emit_groups : List ReturnVar → List GroupBucket → List OutRow
  unfolding put_aggs
  emit_groups aggs [] = []
  emit_groups aggs (b ∷ bs) = put_aggs aggs b.rows b.values ∷ emit_groups aggs bs

  abbrev result_of : List Bytes → List OutRow → QueryResult
  result_of columns rows = record { column_names = columns; rows = rows; total = length rows }

  -- The rows of an aggregating query, by its columns to group by: one row in all, or one for each group.
  unfoldable pub aggregated_by : List Fields → QueryAst → List ReturnVar → List OutRow
  unfolding put_aggs agg_vars group_rows emit_groups order_rows
  aggregated_by all_rows q [] = single_row q.limit (put_aggs (agg_vars q.return_vars) all_rows [])
  aggregated_by all_rows q (rv ∷ rvs) = limit_rows q.limit (
      order_rows q.order_by q
        (emit_groups (agg_vars q.return_vars) (group_rows (rv ∷ rvs) all_rows [])))

  unfoldable pub aggregated : List Fields → QueryAst → List OutRow
  unfolding aggregated_by group_vars
  aggregated all_rows q = aggregated_by all_rows q (group_vars q.return_vars)

  unfoldable pub projected : List Fields → QueryAst → List OutRow
  unfolding project_all order_rows order_key
  projected all_rows q =
      limit_rows q.limit
        (order_rows (order_key q) q (project_all q.distinct q.return_vars all_rows []))

  unfoldable pub build_result : List Fields → QueryAst → QueryResult
  unfolding columns_of has_aggregation aggregated projected
  build_result all_rows q =
      result_of (columns_of all_rows q)
        (if has_aggregation q then aggregated all_rows q else projected all_rows q)

-- `maxRows`, for a `MaxRows` that is not negative
unfoldable pub max_rows : ℕ → ℕ
max_rows n = if ltb 0 n then (if ltb 10000 n then 10000 else n) else default_limit

-- The trim of `Execute`: without an aggregate, no more rows than `maxRows`.
unfoldable pub trim : ℕ → QueryAst → QueryResult → QueryResult
unfolding max_rows has_aggregation
trim n q res =
    if not (has_aggregation q) && ltb (max_rows n) (length res.rows)
    then record res { rows = take (max_rows n) res.rows; total = max_rows n }
    else res
