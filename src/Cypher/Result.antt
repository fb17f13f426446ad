-- ===== src/Cypher/Result.antt =====
-- The projection of rows in internal/cypher/engine.go: columns, aggregates, the order of ORDER BY and
-- the text of a row. `buildResult` is in the child Build.
pub mod Build
pub mod Groups
pub mod Bounds
pub mod Distinct
pub mod Ordered
use pincher_mcp.Prelude.{
  ℕ, zero, Bool, true, false, not, ◌&&◌, ◌||◌, List, [], ◌∷◌, ◌++◌, Option, none, some,
  if◌then◌else◌, ◌==◌, ltb, Bytes, codes, is, is_empty, str_eq, has_prefix, text_less, itoa, span,
  length, sort_by,
}
use pincher_mcp.Cypher.Ast.{ReturnVar, Pattern}
use pincher_mcp.Cypher.Columns.{cypher_prop_to_col}
use pincher_mcp.Cypher.Where.{Value, nil, bool, int, float, text, sprint}

-- A row that the scan gives, `map[string]any`, as its entries: no key twice, in some order.
abbrev pub Fields : Type 0
Fields = List (Bytes × Value)

-- A value of a result row: a plain value, or the nested map of a node.
pub data Cell : Type 0 where
  value : Value → Cell
  node : Fields → Cell

-- A result row.
abbrev pub OutRow : Type 0
OutRow = List (Bytes × Cell)

-- Go's floating point numbers, as far as the projection uses them. `print` is `fmt.Sprint`.
pub record Numbers : Type 1 where
  pub Float : Type 0
  pub parse_float : Bytes → Option Float
  pub of_int : ℕ → Float
  pub add : Float → Float → Float
  pub divide : Float → Float → Float
  pub less : Float → Float → Bool
  pub print : Float → Bytes

-- `row[key]`
unfoldable pub get : Bytes → Fields → Option Value
get k [] = none
get k ((j, v) ∷ row) = if str_eq j k then some v else get k row

-- `m[key]` of a result row; a key that is not there gives nil.
unfoldable pub get_cell : Bytes → OutRow → Cell
get_cell k [] = value nil
get_cell k ((j, c) ∷ row) = if str_eq j k then c else get_cell k row

-- `m[key] = cell`
unfoldable pub set_cell : Bytes → Cell → OutRow → OutRow
set_cell k c [] = (k, c) ∷ []
set_cell k c ((j, d) ∷ row) = if str_eq j k then (k, c) ∷ row else (j, d) ∷ set_cell k c row

-- The value that `row[key]` gives to a variable of type `any`.
abbrev pub value_at : Bytes → Fields → Value
value_at k row = elim (get k row) [ none ↦ nil | some v ↦ v ]

-- `fmt.Sprint` of a map: the entries in the order of their keys.
unfoldable pub join_entries : List (Bytes × Bytes) → Bytes
join_entries [] = []
join_entries ((k, v) ∷ []) = k ++ b':' ∷ v
join_entries ((k, v) ∷ es) = k ++ b':' ∷ v ++ b' ' ∷ join_entries es

abbrev pub earlier : Bytes × Bytes → Bytes × Bytes → Bool
earlier e f = text_less e.0 f.0

unfoldable pub sprint_entries : List (Bytes × Bytes) → Bytes
unfolding join_entries sort_by text_less
sprint_entries es = codes "map[" ++ join_entries (sort_by earlier es) ++ codes "]"

unfoldable pub texts_of : Fields → List (Bytes × Bytes)
unfolding sprint
texts_of [] = []
texts_of ((k, v) ∷ row) = (k, sprint (some v)) ∷ texts_of row

unfoldable pub sprint_cell : Cell → Bytes
unfolding sprint sprint_entries texts_of
sprint_cell (value v) = sprint (some v)
sprint_cell (node fields) = sprint_entries (texts_of fields)

unfoldable pub cells_of : OutRow → List (Bytes × Bytes)
unfolding sprint_cell
cells_of [] = []
cells_of ((k, c) ∷ row) = (k, sprint_cell c) ∷ cells_of row

-- `fmt.Sprint(pr)`
unfoldable pub sprint_row : OutRow → Bytes
unfolding cells_of sprint_entries
sprint_row row = sprint_entries (cells_of row)

-- The key of an item in a scanned row, and `sourceKey`.
abbrev pub source_key : ReturnVar → Bytes
source_key rv = if is_empty rv.property then rv.variable else rv.variable ++ b'.' ∷ rv.property

unfoldable pub agg_col_name : ReturnVar → Bytes
agg_col_name rv =
    if is_empty rv.alias
    then rv.fn
      ++ b'(' ∷ (if rv.distinct then codes "DISTINCT " ++ source_key rv else source_key rv)
      ++ codes ")"
    else rv.alias

-- The column of an item: aggregated, aliased or plain.
unfoldable pub column_of : ReturnVar → Bytes
unfolding agg_col_name
column_of rv =
    if is_empty rv.fn
    then (if is_empty rv.alias then source_key rv else rv.alias)
    else agg_col_name rv

-- The texts of the values that are present and not nil, in the order of the rows.
unfoldable pub present_texts : Bytes → List Fields → List Bytes
unfolding get sprint
present_texts key [] = []
present_texts key (row ∷ rows) =
    let rest = present_texts key rows in
    elim (get key row) [
      | none ↦ rest
      | some nil ↦ rest
      | some (bool b) ↦ sprint (some (bool b)) ∷ rest
      | some (int n) ↦ sprint (some (int n)) ∷ rest
      | some (float t) ↦ sprint (some (float t)) ∷ rest
      | some (text t) ↦ sprint (some (text t)) ∷ rest
    ]

-- The members of a set built by insertion.
unfoldable pub add_new : Bytes → List Bytes → List Bytes
add_new t [] = t ∷ []
add_new t (s ∷ seen) = if str_eq s t then s ∷ seen else s ∷ add_new t seen

unfoldable pub unique : List Bytes → List Bytes → List Bytes
unfolding add_new
unique [] seen = seen
unique (t ∷ ts) seen = unique ts (add_new t seen)

unfoldable pub count_agg : List Fields → ReturnVar → ℕ
unfolding present_texts unique
count_agg rows rv =
    if is_empty rv.property
    then length rows
    else if rv.distinct
    then length (unique (present_texts (source_key rv) rows) [])
    else length (present_texts (source_key rv) rows)

module _ (numbers : Numbers) where
  open numbers use {Float, parse_float, of_int, add, divide, less, print}

  unfoldable pub numerals : List Bytes → List Float
  numerals [] = []
  numerals (t ∷ ts) =
      let rest = numerals ts in elim (parse_float t) [ none ↦ rest | some f ↦ f ∷ rest ]

  unfoldable pub sum_from : Float → List Float → Float
  sum_from s [] = s
  sum_from s (n ∷ ns) = sum_from (add s n) ns

  unfoldable pub min_from : Float → List Float → Float
  min_from m [] = m
  min_from m (n ∷ ns) = min_from (if less n m then n else m) ns

  unfoldable pub max_from : Float → List Float → Float
  max_from m [] = m
  max_from m (n ∷ ns) = max_from (if less m n then n else m) ns

  abbrev number : Float → Value
  number f = float (print f)

  -- The aggregates of numbers.
  unfoldable pub number_agg : Bytes → List Float → Value
  unfolding sum_from min_from max_from str_eq
  number_agg fn [] = if is fn "SUM" then number (of_int 0) else nil
  number_agg fn (n ∷ ns) =
      if is fn "SUM"
      then number (sum_from (of_int 0) (n ∷ ns))
      else if is fn "AVG"
      then number (divide (sum_from (of_int 0) (n ∷ ns)) (of_int (length (n ∷ ns))))
      else if is fn "MIN"
      then number (min_from n ns)
      else if is fn "MAX"
      then number (max_from n ns)
      else nil

  unfoldable pub compute_agg : List Fields → ReturnVar → Value
  unfolding count_agg numerals number_agg present_texts str_eq
  compute_agg rows rv =
      if is rv.fn "COUNT"
      then int (count_agg rows rv)
      else number_agg rv.fn (numerals (present_texts (source_key rv) rows))

  -- `toFloatForOrderBy`: a float is read back from its text.
  unfoldable pub to_float_for_order_by : Cell → Option Float
  to_float_for_order_by (value (int n)) = some (of_int n)
  to_float_for_order_by (value (float t)) = parse_float t
  to_float_for_order_by (value nil) = none
  to_float_for_order_by (value (bool b)) = none
  to_float_for_order_by (value (text t)) = none
  to_float_for_order_by (node fields) = none

  unfoldable pub compare_texts : Cell → Cell → Bool → Bool
  unfolding sprint_cell text_less
  compare_texts a b desc =
      if desc
      then text_less (sprint_cell b) (sprint_cell a)
      else text_less (sprint_cell a) (sprint_cell b)

  unfoldable pub cypher_less_than : Cell → Cell → Bool → Bool
  unfolding to_float_for_order_by compare_texts
  cypher_less_than a b desc = elim (to_float_for_order_by a) [
    | none ↦ compare_texts a b desc
    | some x ↦ elim (to_float_for_order_by b) [
      | none ↦ compare_texts a b desc
      | some y ↦ if desc then less y x else less x y
    ]
  ]
