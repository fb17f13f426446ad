-- ===== src/Cypher/Warnings/Names.antt =====
-- Unknown properties, variables and edge kinds: `collectUnknownPropertyWarnings`,
-- `collectUnknownVariableWarnings`, `isKnownEdgeProperty`, `collectUnknownEdgeKindWarnings` and
-- `collectReturnBarePropertyWarnings` of internal/cypher/engine.go.
use pincher_mcp.Prelude.{
  Bool, true, false, not, ◌&&◌, ◌||◌, List, [], ◌∷◌, map, if◌then◌else◌, Bytes, is, is_empty,
  str_eq, one_of, text_less, sort_by,
}
use pincher_mcp.Cypher.Ast.{Condition, Pattern, Props, ReturnVar, QueryAst}
use pincher_mcp.Cypher.Columns.{cypher_prop_to_col}
use pincher_mcp.Cypher.Warnings.{
  Warning, unknown_property, unknown_variable, unknown_edge_kind, bare_property, add_text, has_text,
  sort_texts, each, each_condition, add_named, bound_variables,
}

unfoldable pub is_known_edge_property : Bytes → Bool
unfolding one_of
is_known_edge_property prop = one_of prop ("kind" ∷ "confidence" ∷ [])

-- The entry of a property in the map `unknown`: whether some reference is to an edge.
abbrev pub Unknown : Type 0
Unknown = List (Bytes × Bool)

-- A mark for an edge is kept.
unfoldable pub mark_unknown : Bytes → Bool → Unknown → Unknown
mark_unknown prop is_edge [] = (prop, is_edge) ∷ []
mark_unknown prop is_edge ((p, e) ∷ later) =
    let rest = mark_unknown prop is_edge later in
    if str_eq p prop then (p, (if is_edge && not e then is_edge else e)) ∷ later else (p, e) ∷ rest

unfoldable pub edge_variables : List Pattern → List Bytes
unfolding each add_text
edge_variables pats = each (λ pat. add_named pat.edge_var) pats []

abbrev pub is_edge_var : List Bytes → Bytes → Bool
is_edge_var edges v = not (is_empty v) && has_text edges v

abbrev pub is_known_property : Bool → Bytes → Bool
is_known_property true prop = is_known_edge_property prop
is_known_property false prop = not (is_empty (cypher_prop_to_col prop))

-- The closure `check`.
unfoldable pub check_property : List Bytes → Bytes → Bytes → Unknown → Unknown
unfolding mark_unknown
check_property edges v prop found =
    let edge = is_edge_var edges v in
    if is_empty prop || is_known_property edge prop then found else mark_unknown prop edge found

unfoldable pub check_props : List Bytes → Bytes → Props → Unknown → Unknown
unfolding check_property each
check_props edges v props = each (λ (p : Bytes × Bytes). check_property edges v p.0) props

abbrev pub check_pattern : List Bytes → Pattern → Unknown → Unknown
check_pattern edges pat found =
    check_props edges pat.to_var pat.to_props (check_props edges pat.from_var pat.from_props found)

unfoldable pub unknown_properties : QueryAst → Unknown
unfolding edge_variables check_property check_props each each_condition
unknown_properties q =
    let edges = edge_variables q.patterns in
    each (λ (rv : ReturnVar). check_property edges rv.variable rv.property) q.return_vars
      (each (check_pattern edges) q.patterns
        (each_condition (λ c. check_property edges c.variable c.property) q []))

abbrev pub name_less : Bytes × Bool → Bytes × Bool → Bool
name_less x y = text_less x.0 y.0

unfoldable pub collect_unknown_property_warnings : QueryAst → List Warning
unfolding unknown_properties
collect_unknown_property_warnings q =
    map (λ (x : Bytes × Bool). unknown_property x.0 x.1) (sort_by name_less (unknown_properties q))

unfoldable pub check_variable : List Bytes → Bytes → Bytes → List Bytes → List Bytes
unfolding add_text
check_variable bound v prop found =
    if is_empty v || is_empty prop || has_text bound v then found else add_text v found

unfoldable pub check_sides : List Bytes → Condition → List Bytes → List Bytes
unfolding check_variable
check_sides bound c found =
    let left = check_variable bound c.variable c.property found in
    if is_empty c.rhs_variable
    then left
    else check_variable bound c.rhs_variable c.rhs_property left

unfoldable pub unknown_variables : QueryAst → List Bytes
unfolding bound_variables check_sides check_variable each each_condition
unknown_variables q =
    let bound = bound_variables q.patterns in
    each (λ (rv : ReturnVar). check_variable bound rv.variable rv.property) q.return_vars
      (each_condition (check_sides bound) q [])

-- Without a bound variable there is no warning.
unfoldable pub collect_unknown_variable_warnings : QueryAst → List Warning
unfolding unknown_variables bound_variables
collect_unknown_variable_warnings q = elim (bound_variables q.patterns) [
  | [] ↦ []
  | v ∷ vs ↦ map (λ n. unknown_variable n (sort_texts (v ∷ vs))) (sort_texts (unknown_variables q))
]

unfoldable pub known_edge_kind : Bytes → Bool
unfolding one_of
known_edge_kind k = one_of k (
    "CALLS" ∷ "HTTP_CALLS" ∷ "ASYNC_CALLS" ∷ "READS" ∷ "WRITES" ∷ "IMPORTS" ∷ "REFERENCES"
    ∷ "USES_VAR" ∷ [])

unfoldable pub check_edge_kind : Bytes → List Bytes → List Bytes
unfolding add_text known_edge_kind
check_edge_kind k found = if is_empty k || known_edge_kind k then found else add_text k found

unfoldable pub unknown_edge_kinds : List Pattern → List Bytes
unfolding each check_edge_kind
unknown_edge_kinds pats = each (λ pat. each check_edge_kind pat.edge_kinds) pats []

unfoldable pub collect_unknown_edge_kind_warnings : QueryAst → List Warning
unfolding unknown_edge_kinds
collect_unknown_edge_kind_warnings q =
    map unknown_edge_kind (sort_texts (unknown_edge_kinds q.patterns))

-- A bare name that is no bound variable and is a property.
abbrev pub is_bare_property : List Bytes → ReturnVar → Bool
is_bare_property bound rv =
    is_empty rv.fn
    && is_empty rv.property
    && not (is_empty rv.variable || is rv.variable "*")
    && not (has_text bound rv.variable)
    && not (is_empty (cypher_prop_to_col rv.variable))

unfoldable pub bare_properties : List Bytes → List ReturnVar → List Warning
bare_properties bound [] = []
bare_properties bound (rv ∷ rvs) =
    let rest = bare_properties bound rvs in
    if is_bare_property bound rv then bare_property rv.variable (sort_texts bound) ∷ rest else rest

unfoldable pub collect_return_bare_property_warnings : QueryAst → List Warning
unfolding bound_variables bare_properties
collect_return_bare_property_warnings q = elim (bound_variables q.patterns) [
  | [] ↦ []
  | v ∷ vs ↦ bare_properties (v ∷ vs) q.return_vars
]
