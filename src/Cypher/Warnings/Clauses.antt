-- ===== src/Cypher/Warnings/Clauses.antt =====
-- Warnings on ORDER BY, RETURN and the patterns: `collectUnknownOrderByWarnings`,
-- `collectOrderByAggregateWithoutGroupingWarnings`, `collectAggregateMixedWithBareWarnings`,
-- `collectRepeatedPatternVarWarnings` and `collectHopRangeWarnings` of internal/cypher/engine.go.
use pincher_mcp.Prelude.{
  ℕ, Bool, not, ◌&&◌, ◌||◌, List, [], ◌∷◌, ◌++◌, if◌then◌else◌, Bytes, is_empty, str_eq, any,
  has_byte, span, to_lower, leb, ◌==◌,
}
use pincher_mcp.Cypher.Ast.{Pattern, ReturnVar, QueryAst}
use pincher_mcp.Cypher.Columns.{cypher_prop_to_col}
use pincher_mcp.Cypher.Parser.ReturnClause.{is_agg_fn}
use pincher_mcp.Cypher.Result.Build.{has_aggregation}
use pincher_mcp.Cypher.Warnings.{
  Warning, unknown_order_by, order_by_aggregate, repeated_variable, inverted_hops, clamped_hops,
  mixed_aggregate,
}

-- `strings.TrimSpace`, for ASCII
is_space : ℕ → Bool
is_space c = c == b' ' || leb 9 c && leb c 13

trim_left : Bytes → Bytes
unfolding is_space
trim_left [] = []
trim_left (c ∷ s) = let rest = trim_left s in if is_space c then rest else c ∷ s

trim_right : Bytes → Bytes
unfolding is_space
trim_right [] = []
trim_right (c ∷ s) = let rest = trim_right s in if is_space c && is_empty rest then [] else c ∷ rest

unfoldable pub trim_space : Bytes → Bytes
unfolding trim_left trim_right
trim_space s = trim_right (trim_left s)

-- What follows the first dot, or all of it.
unfoldable pub after_dot : Bytes → Bytes
unfolding span
after_dot s = elim ((span (λ c. not (c == b'.')) s).1) [ [] ↦ s | dot ∷ rest ↦ rest ]

abbrev pub is_alias : Bytes → ReturnVar → Bool
is_alias ob rv = not (is_empty rv.alias) && str_eq rv.alias ob

unfoldable pub is_order_target : QueryAst → Bool
unfolding after_dot has_byte
is_order_target q =
    let prop = after_dot q.order_by in
    has_byte b'(' q.order_by
    || any (is_alias q.order_by) q.return_vars
    || is_empty prop
    || not (is_empty (cypher_prop_to_col prop))

unfoldable pub collect_unknown_order_by_warnings : QueryAst → List Warning
unfolding is_order_target
collect_unknown_order_by_warnings q =
    if is_empty q.order_by || is_order_target q then [] else unknown_order_by q.order_by ∷ []

-- What stands before a parenthesis that is not the first byte; otherwise nothing.
unfoldable pub before_parenthesis : Bytes → Bytes
unfolding span has_byte
before_parenthesis s = if has_byte b'(' s then (span (λ c. not (c == b'(')) s).0 else []

unfoldable pub orders_by_aggregate : Bytes → Bool
unfolding before_parenthesis trim_space
orders_by_aggregate ob =
    let fn = before_parenthesis ob in not (is_empty fn) && is_agg_fn (trim_space fn)

unfoldable pub collect_order_by_aggregate_warnings : QueryAst → List Warning
unfolding orders_by_aggregate trim_space
collect_order_by_aggregate_warnings q =
    let ob = trim_space q.order_by in
    if is_empty q.order_by || not (orders_by_aggregate ob) || has_aggregation q
    then []
    else order_by_aggregate ob ∷ []

abbrev pub dotted_name : ReturnVar → Bytes
dotted_name rv = if is_empty rv.property then rv.variable else rv.variable ++ b'.' ∷ rv.property

-- `formatAggExpr` and `formatBareCol`
unfoldable pub format_agg_expr : ReturnVar → Bytes
unfolding to_lower
format_agg_expr rv =
    let expr = to_lower rv.fn ++ b'(' ∷ dotted_name rv ++ b')' ∷ [] in
    if is_empty rv.alias then expr else expr ++ b' ' ∷ b'A' ∷ b'S' ∷ b' ' ∷ rv.alias

unfoldable pub format_bare_col : ReturnVar → Bytes
format_bare_col rv = dotted_name rv

-- `aggExpr` and `bareCol`: the first text of its kind that is not empty, since an empty one is set again.
unfoldable pub first_agg_expr : List ReturnVar → Bytes
unfolding format_agg_expr
first_agg_expr [] = []
first_agg_expr (rv ∷ rvs) =
    let rest = first_agg_expr rvs in
    if is_empty rv.fn || is_empty rv.alias then rest else format_agg_expr rv

unfoldable pub first_bare_col : List ReturnVar → Bytes
unfolding format_bare_col
first_bare_col [] = []
first_bare_col (rv ∷ rvs) =
    let rest = first_bare_col rvs in
    if not (is_empty rv.fn) || is_empty (format_bare_col rv) then rest else format_bare_col rv

abbrev pub mixes : Bytes → Bytes → List Warning
mixes agg bare = if is_empty agg || is_empty bare then [] else mixed_aggregate agg bare ∷ []

-- One RETURN item or none has nothing to mix.
unfoldable pub collect_aggregate_mixed_with_bare_warnings : QueryAst → List Warning
unfolding orders_by_aggregate trim_space first_agg_expr first_bare_col
collect_aggregate_mixed_with_bare_warnings q =
    let found = mixes (first_agg_expr q.return_vars) (first_bare_col q.return_vars) in
    elim q.return_vars [
      | [] ↦ []
      | rv ∷ rvs ↦ elim rvs [
        | [] ↦ []
        | rv2 ∷ rvs2 ↦
            if q.distinct || orders_by_aggregate (trim_space q.order_by) then [] else found
      ]
    ]

unfoldable pub repeated_variables : List Pattern → List Warning
repeated_variables [] = []
repeated_variables (pat ∷ pats) =
    let rest = repeated_variables pats in
    if not (is_empty pat.from_var)
      && str_eq pat.from_var pat.to_var
      && leb pat.min_hops 1
      && leb pat.max_hops 1
    then repeated_variable pat.from_var ∷ rest
    else rest

unfoldable pub collect_repeated_pattern_var_warnings : QueryAst → List Warning
unfolding repeated_variables
collect_repeated_pattern_var_warnings q = repeated_variables q.patterns

unfoldable pub hop_ranges : List Pattern → List Warning
hop_ranges [] = []
hop_ranges (pat ∷ pats) =
    let rest = hop_ranges pats in
    let clamped = if pat.min_hops_clamped then clamped_hops pat.max_hops ∷ rest else rest in
    if pat.inverted_hops then inverted_hops pat.min_hops pat.max_hops ∷ clamped else clamped

unfoldable pub collect_hop_range_warnings : QueryAst → List Warning
unfolding hop_ranges
collect_hop_range_warnings q = hop_ranges q.patterns
