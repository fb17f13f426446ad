-- ===== src/Cypher/Examples/Results.antt =====
-- Result projection of internal/cypher/engine.go at concrete inputs.
use pincher_mcp.Prelude.{
  is, All, ℕ, ◌≤◌, ◌≡◌, refl, true, false, List, [], ◌∷◌, Option, none, some, arith, ltb, ◌/◌, ◌+◌,
  Bytes, String, codes, itoa, length, map, Once, IsSortedBy, Atoi, number, syntax, range, atoi,
}
use mathlib.Core.List.{Perm}
use pincher_mcp.Cypher.Ast.{ReturnVar, QueryAst}
use pincher_mcp.Cypher.Where.{int, text}
use pincher_mcp.Cypher.Result.{Fields, OutRow, value, Numbers, get_cell, to_float_for_order_by}
use pincher_mcp.Cypher.Result.Build.{
  group_rows, build_result, trim, max_rows, project_all, has_aggregation, limit_rows, order_key,
}
use pincher_mcp.Cypher.Result.Groups.{
  with_key, rows_for, HasKeysOnce, gathered, group_rows-with_key,
}
use pincher_mcp.Cypher.Result.Bounds.{build_result_bounds}
use pincher_mcp.Cypher.Result.Distinct.{prints_like, printed, offered, build_result-Once}
use pincher_mcp.Cypher.Result.Ordered.{
  IsFloatOrder, IsNumeric, IsTextual, smaller, earlier_text, build_result-IsSortedBy,
}

abbrev read_natural : Atoi → Option ℕ
read_natural (number n) = some n
read_natural syntax = none
read_natural range = none

-- Natural numbers for floats.
abbrev naturals : Numbers
naturals = record {
  Float = ℕ;
  parse_float = λ t. read_natural (atoi t);
  of_int = λ n. n;
  add = λ a b. a + b;
  divide = λ a b. a / b;
  less = ltb;
  print = itoa;
}

abbrev item : String → String → String → ReturnVar
item property alias fn = record {
  variable = codes "n";
  property = codes property;
  alias = codes alias;
  fn = codes fn;
  distinct = false;
}

abbrev query : List ReturnVar → String → Option ℕ → QueryAst
query items order limit = record {
  patterns = [];
  conditions = [];
  where_expr = none;
  return_vars = items;
  order_by = codes order;
  order_dir = codes "ASC";
  limit = limit;
  distinct = true;
}

abbrev scanned : String → ℕ → Fields
scanned kind line = (codes "n.kind", text (codes kind)) ∷ (codes "n.start_line", int line) ∷ []

abbrev rows : List Fields
rows =
    scanned "Method" 126 ∷ scanned "Function" 9 ∷ scanned "Method" 1004 ∷ scanned "Function" 9 ∷ []

abbrev by_line : QueryAst
by_line = query (item "start_line" "line" "" ∷ []) "n.start_line" none

-- DISTINCT drops the second 9, and ORDER BY by the source name of an alias sorts numbers as numbers.
lines_in_order :
    map (get_cell (codes "line")) (build_result naturals rows by_line).rows
    ≡ value (int 9) ∷ value (int 126) ∷ value (int 1004) ∷ []
unfolding build_result
lines_in_order = refl

abbrev by_kind : QueryAst
by_kind = query (item "kind" "" "" ∷ item "" "c" "COUNT" ∷ []) "c" (some 5)

kinds_counted :
    map (get_cell (codes "c")) (build_result naturals rows by_kind).rows
    ≡ value (int 2) ∷ value (int 2) ∷ []
unfolding build_result
kinds_counted = refl

-- The order of groups by the source name of an aliased column is not resolved, and the groups stay in
-- the order of the scan.
abbrev by_alias : QueryAst
by_alias = query (item "kind" "k" "" ∷ item "" "c" "COUNT" ∷ []) "n.kind" none

grouped_alias_unsorted :
    map (get_cell (codes "k")) (build_result naturals rows by_alias).rows
    ≡ value (text (codes "Method")) ∷ value (text (codes "Function")) ∷ []
unfolding build_result
grouped_alias_unsorted = refl

-- Two rows with other values print alike, and share a group.
abbrev alike : List Fields
alike =
    ((codes "n.kind", text (codes "x n.name:y")) ∷ (codes "n.name", text (codes "z")) ∷ [])
    ∷ ((codes "n.kind", text (codes "x")) ∷ (codes "n.name", text (codes "y n.name:z")) ∷ [])
    ∷ []

groups_merged :
    map (λ b. length b.rows) (group_rows (item "kind" "" "" ∷ item "name" "" "" ∷ []) alike [])
    ≡ 2 ∷ []
unfolding group_rows
groups_merged = refl

group_rows-with_key_example :
    ((key : Bytes)
      → rows_for key (group_rows (item "kind" "" "" ∷ []) rows [])
        ≡ with_key (item "kind" "" "" ∷ []) key rows)
    × HasKeysOnce (group_rows (item "kind" "" "" ∷ []) rows [])
    × (gathered (group_rows (item "kind" "" "" ∷ []) rows []) ≡ length rows)
group_rows-with_key_example = group_rows-with_key (item "kind" "" "" ∷ []) rows

build_result_bounds_example :
    (length (build_result naturals rows by_line).rows ≤ 200)
    × ((build_result naturals rows by_line).total
        ≡ length (build_result naturals rows by_line).rows)
    × (length (trim 2 by_line (build_result naturals rows by_line)).rows ≤ 200)
    × ((trim 2 by_line (build_result naturals rows by_line)).total
        ≡ length (trim 2 by_line (build_result naturals rows by_line)).rows)
    × (has_aggregation by_line ≡ false
        → length (trim 2 by_line (build_result naturals rows by_line)).rows ≤ max_rows 2)
build_result_bounds_example = build_result_bounds naturals rows by_line 2

build_result-Once_example :
    Once prints_like (build_result naturals rows by_line).rows
    × (length (project_all true by_line.return_vars rows []) ≤ 200
        → (t : Bytes)
        → printed t (build_result naturals rows by_line).rows ≡ offered by_line.return_vars t rows)
unfolding has_aggregation
build_result-Once_example = build_result-Once naturals rows by_line refl refl

natural_order : IsFloatOrder naturals
natural_order = record { asymm = λ x y h. ground arith; cotrans = λ x y z h. ground arith }

build_result-IsSortedBy_example :
    (ordered : List OutRow) × Perm ordered (project_all true by_line.return_vars rows [])
    × ((build_result naturals rows by_line).rows ≡ limit_rows none ordered)
    × (All (IsNumeric naturals (order_key by_line)) (project_all true by_line.return_vars rows [])
        → IsSortedBy (smaller naturals (order_key by_line) (is by_line.order_dir "DESC")) ordered)
    × (All (IsTextual naturals (order_key by_line)) (project_all true by_line.return_vars rows [])
        → IsSortedBy
            (earlier_text naturals (order_key by_line) (is by_line.order_dir "DESC"))
            ordered)
unfolding has_aggregation
build_result-IsSortedBy_example =
    build_result-IsSortedBy naturals natural_order rows by_line refl refl

lines_are_numbers :
    All (IsNumeric naturals (order_key by_line)) (project_all true by_line.return_vars rows [])
unfolding order_key project_all get_cell to_float_for_order_by
lines_are_numbers = ((126, refl), ((9, refl), ((1004, refl), tt)))
