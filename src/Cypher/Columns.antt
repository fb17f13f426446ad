-- ===== src/Cypher/Columns.antt =====
-- Column names and Boolean literals: `cypherPropToCol`, `isBoolCol`, `coerceBoolLiteral`, `boolNorm`
-- and `boolCoerceEqual` of internal/cypher/engine.go.
use pincher_mcp.Prelude.{
  String, Bool, true, false, not, ◌&&◌, List, [], ◌∷◌, Option, none, some, if◌then◌else◌, Bytes,
  codes, is, is_empty, one_of, to_lower,
}

-- The cases of the `switch`: the names, and the column.
abbrev pub columns : List (List String × String)
columns =
    ("id" ∷ [], "id")
    ∷ ("project_id" ∷ "project" ∷ [], "project_id")
    ∷ ("name" ∷ [], "name")
    ∷ ("qualified_name" ∷ "qn" ∷ [], "qualified_name")
    ∷ ("kind" ∷ "label" ∷ [], "kind")
    ∷ ("file_path" ∷ [], "file_path")
    ∷ ("language" ∷ [], "language")
    ∷ ("start_line" ∷ [], "start_line")
    ∷ ("end_line" ∷ [], "end_line")
    ∷ ("start_byte" ∷ [], "start_byte")
    ∷ ("end_byte" ∷ [], "end_byte")
    ∷ ("complexity" ∷ [], "complexity")
    ∷ ("extraction_confidence" ∷ "confidence" ∷ [], "extraction_confidence")
    ∷ ("is_exported" ∷ [], "is_exported")
    ∷ ("is_entry_point" ∷ [], "is_entry_point")
    ∷ ("is_test" ∷ [], "is_test")
    ∷ ("signature" ∷ [], "signature")
    ∷ ("return_type" ∷ [], "return_type")
    ∷ ("docstring" ∷ [], "docstring")
    ∷ []

unfoldable pub column_in : List (List String × String) → Bytes → Bytes
column_in [] prop = []
column_in ((names, col) ∷ cases) prop =
    if one_of prop names then codes col else column_in cases prop

-- The empty text is the default case, an unknown property.
unfoldable pub cypher_prop_to_col : Bytes → Bytes
unfolding column_in one_of
cypher_prop_to_col prop = column_in columns prop

unfoldable pub is_bool_col : Bytes → Bool
unfolding one_of
is_bool_col col = one_of col ("is_exported" ∷ "is_entry_point" ∷ "is_test" ∷ [])

unfoldable pub coerce_bool_literal : Bytes → Bytes
unfolding to_lower
coerce_bool_literal v =
    if is (to_lower v) "true" then codes "1" else if is (to_lower v) "false" then codes "0" else v

unfoldable pub bool_norm : Bytes → Option Bool
unfolding one_of
bool_norm s =
    if one_of s ("1" ∷ "true" ∷ "TRUE" ∷ [])
    then some true
    else if one_of s ("0" ∷ "false" ∷ "FALSE" ∷ [])
    then some false
    else none

abbrev same_bool : Option Bool → Option Bool → Bool
same_bool (some true) (some b) = b
same_bool (some false) (some b) = not b
same_bool _ _ = false

unfoldable pub bool_coerce_equal : Bytes → Bytes → Bool
unfolding bool_norm
bool_coerce_equal a b = same_bool (bool_norm a) (bool_norm b)

unfoldable pub is_zero_value_predicate : Bytes → Bytes → Bool
unfolding is_bool_col
is_zero_value_predicate col val = if is_empty val then true else is_bool_col col && is val "0"
