-- ===== src/Cypher/Warnings/Types.antt =====
-- `cypherPropType`, `collectTypeMismatchWarnings`, `collectAggregateTypeMismatchWarnings` and
-- `collectCrossColumnWarnings` of internal/cypher/engine.go.
use pincher_mcp.Prelude.{
  Bool, true, false, not, ◌&&◌, ◌||◌, List, [], ◌∷◌, ◌++◌, none, some, map, if◌then◌else◌, Bytes,
  codes, is, is_empty, str_eq, one_of, to_lower, text_less, sort_by,
}
use pincher_mcp.Cypher.Token.{Kind, number, string}
use pincher_mcp.Cypher.Ast.{
  Op, eq, ne, gt, lt, ge, le, matches, contains, starts_with, ends_with, is_null, is_not_null,
  in_list, Condition, ReturnVar, QueryAst,
}
use pincher_mcp.Cypher.Columns.{cypher_prop_to_col}
use pincher_mcp.Cypher.Warnings.{
  Warning, Mismatch, TextAggregate, type_mismatch, aggregate_type_mismatch, cross_column, add_text,
  sort_texts, each, each_condition,
}

-- The empty text is an unknown property.
unfoldable pub cypher_prop_type : Bytes → Bytes
unfolding cypher_prop_to_col one_of
cypher_prop_type prop =
    let col = cypher_prop_to_col prop in
    if is_empty col
    then []
    else if one_of col ("start_line" ∷ "end_line" ∷ "start_byte" ∷ "end_byte" ∷ "complexity" ∷ [])
    then codes "int"
    else if is col "extraction_confidence"
    then codes "real"
    else if one_of col ("is_exported" ∷ "is_entry_point" ∷ "is_test" ∷ [])
    then codes "bool"
    else codes "text"

abbrev pub is_comparison : Op → Bool
is_comparison eq = true
is_comparison ne = true
is_comparison gt = true
is_comparison lt = true
is_comparison ge = true
is_comparison le = true
is_comparison op = false

-- The cases of `bad`, for a literal that is a number and one that is a text.
unfoldable pub bad_number : Bytes → Bytes → Bool
bad_number prop_type value =
    if is prop_type "text"
    then true
    else is prop_type "bool" && not (is value "0") && not (is value "1")

unfoldable pub bad_text : Bytes → Bytes → Bool
unfolding one_of to_lower
bad_text prop_type value =
    if is prop_type "int" || is prop_type "real"
    then true
    else is prop_type "bool" && not (one_of (to_lower value) ("true" ∷ "false" ∷ "0" ∷ "1" ∷ []))

abbrev pub bad_literal : Kind → Bytes → Bytes → Bool
bad_literal number prop_type value = bad_number prop_type value
bad_literal string prop_type value = bad_text prop_type value
bad_literal kind prop_type value = false

abbrev pub same_kind : Kind → Kind → Bool
same_kind number number = true
same_kind string string = true
same_kind j k = false

-- The order of the texts NUMBER and STRING.
abbrev pub kind_less : Kind → Kind → Bool
kind_less number string = true
kind_less j k = false

abbrev pub same_mismatch : Mismatch → Mismatch → Bool
same_mismatch x y =
    str_eq x.prop y.prop && str_eq x.prop_type y.prop_type && same_kind x.value_kind y.value_kind

unfoldable pub add_mismatch : Mismatch → List Mismatch → List Mismatch
add_mismatch x [] = x ∷ []
add_mismatch x (y ∷ ys) =
    let rest = add_mismatch x ys in if same_mismatch y x then y ∷ ys else y ∷ rest

-- The closure `consider`; an empty kind is skipped.
unfoldable pub consider : Condition → List Mismatch → List Mismatch
unfolding add_mismatch cypher_prop_type bad_number bad_text
consider c seen = elim c.value_kind [
  | none ↦ seen
  | some k ↦
      let prop_type = cypher_prop_type c.property in
      if is_empty c.property || not (is_empty c.rhs_property) || not (is_comparison c.op)
      then seen
      else if is_empty prop_type
      then seen
      else if bad_literal k prop_type c.value
      then add_mismatch (record { prop = c.property; prop_type = prop_type; value_kind = k }) seen
      else seen
]

abbrev pub mismatch_less : Mismatch → Mismatch → Bool
mismatch_less x y =
    if str_eq x.prop y.prop then kind_less x.value_kind y.value_kind else text_less x.prop y.prop

unfoldable pub collect_type_mismatch_warnings : QueryAst → List Warning
unfolding each_condition consider
collect_type_mismatch_warnings q =
    map type_mismatch (sort_by mismatch_less (each_condition consider q []))

unfoldable pub add_aggregate : TextAggregate → List TextAggregate → List TextAggregate
add_aggregate x [] = x ∷ []
add_aggregate x (y ∷ ys) =
    let rest = add_aggregate x ys in
    if str_eq y.fn x.fn && str_eq y.prop x.prop && str_eq y.prop_type x.prop_type
    then y ∷ ys
    else y ∷ rest

unfoldable pub consider_aggregate : ReturnVar → List TextAggregate → List TextAggregate
unfolding add_aggregate cypher_prop_type one_of
consider_aggregate rv seen =
    let prop_type = cypher_prop_type rv.property in
    if not (one_of rv.fn ("MIN" ∷ "MAX" ∷ "SUM" ∷ "AVG" ∷ [])) || is_empty rv.property
    then seen
    else if is prop_type "text" || is prop_type "bool"
    then add_aggregate (record { fn = rv.fn; prop = rv.property; prop_type = prop_type }) seen
    else seen

abbrev pub aggregate_less : TextAggregate → TextAggregate → Bool
aggregate_less x y = if str_eq x.fn y.fn then text_less x.prop y.prop else text_less x.fn y.fn

unfoldable pub collect_aggregate_type_mismatch_warnings : QueryAst → List Warning
unfolding each consider_aggregate
collect_aggregate_type_mismatch_warnings q =
    map aggregate_type_mismatch (sort_by aggregate_less (each consider_aggregate q.return_vars []))

-- The texts of `condition.op`.
abbrev pub op_text : Op → Bytes
op_text eq = codes "="
op_text ne = codes "<>"
op_text gt = codes ">"
op_text lt = codes "<"
op_text ge = codes ">="
op_text le = codes "<="
op_text matches = codes "=~"
op_text contains = codes "CONTAINS"
op_text starts_with = codes "STARTS WITH"
op_text ends_with = codes "ENDS WITH"
op_text is_null = codes "IS NULL"
op_text is_not_null = codes "IS NOT NULL"
op_text in_list = codes "IN"

abbrev pub clause_text : Condition → Bytes
clause_text c =
    c.variable
    ++ b'.' ∷ c.property
    ++ b' ' ∷ op_text c.op
    ++ b' ' ∷ c.rhs_variable
    ++ b'.' ∷ c.rhs_property

unfoldable pub check_clause : Condition → List Bytes → List Bytes
unfolding add_text
check_clause c clauses =
    if is_empty c.rhs_property then clauses else add_text (clause_text c) clauses

unfoldable pub collect_cross_column_warnings : QueryAst → List Warning
unfolding each_condition check_clause
collect_cross_column_warnings q = map cross_column (sort_texts (each_condition check_clause q []))
