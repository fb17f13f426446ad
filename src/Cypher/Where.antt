-- ===== src/Cypher/Where.antt =====
-- Evaluation of WHERE in Go: `evalCondition`, the `eval` methods, `matchesWhere` and
-- `matchesConditions` of internal/cypher/engine.go.
pub mod Cache
pub mod Flat
pub mod Partition
pub mod InlineProps
use pincher_mcp.Prelude.{
  ℕ, Bool, true, false, not, ◌&&◌, ◌||◌, List, [], ◌∷◌, ◌++◌, Option, none, some, if◌then◌else◌,
  Bytes, codes, is, is_empty, str_eq, has_prefix, has_suffix, contains as has_text, itoa,
}
use pincher_mcp.Cypher.Ast.{
  Op, eq, ne, gt, lt, ge, le, matches, contains, starts_with, ends_with, is_null, is_not_null,
  in_list, BoolOp, and_op, or_op, Props, Condition, WhereExpr, cond_expr, binary_expr, not_expr,
}
use pincher_mcp.Cypher.Columns.{cypher_prop_to_col, is_bool_col, bool_coerce_equal}

-- A value of a row, of Go's type `any`. A float is the text that `fmt.Sprint` writes for it.
pub data Value : Type 0 where
  nil : Value
  bool : Bool → Value
  int : ℕ → Value
  float : Bytes → Value
  text : Bytes → Value

-- `map[string]any`: `none` is a key that is not present.
abbrev pub Row : Type 0
Row = Bytes → Option Value

-- The parts of Go's library that are not modelled: regular expressions and floating point numbers.
pub record Host : Type 1 where
  pub Regexp : Type 0
  pub compile : Bytes → Option Regexp
  pub match_string : Regexp → Bytes → Bool
  pub Float : Type 0
  pub parse_float : Bytes → Option Float
  pub less : Float → Float → Bool
  pub less_eq : Float → Float → Bool

-- `fmt.Sprint` of what the row holds at the key
unfoldable pub sprint : Option Value → Bytes
unfolding itoa
sprint none = codes "<nil>"
sprint (some nil) = codes "<nil>"
sprint (some (bool b)) = if b then codes "true" else codes "false"
sprint (some (int n)) = itoa n
sprint (some (float t)) = t
sprint (some (text t)) = t

abbrev pub row_key : Condition → Bytes
row_key c = c.variable ++ b'.' ∷ c.property

abbrev pub missing : Option Value → Bool
missing none = true
missing (some nil) = true
missing (some v) = false

-- `isNullRow` of the branches for = and <>
unfoldable pub is_null_row : Option Value → Bool
unfolding sprint
is_null_row raw = missing raw || is (sprint raw) "<nil>"

-- A falsy literal against a Boolean column
unfoldable pub falsy_literal : Condition → Bool
unfolding is_bool_col cypher_prop_to_col
falsy_literal c =
    is_bool_col (cypher_prop_to_col c.property) && (is c.value "false" || is c.value "0")

unfoldable pub eval_eq : Condition → Option Value → Bool
eval_eq c raw =
    if is_null_row raw && is_empty c.value
    then true
    else if is_null_row raw && falsy_literal c
    then true
    else if str_eq (sprint raw) c.value
    then true
    else bool_coerce_equal (sprint raw) c.value

unfoldable pub eval_ne : Condition → Option Value → Bool
eval_ne c raw =
    if is_null_row raw
    then (if is_empty c.value then false else if falsy_literal c then false else true)
    else if str_eq (sprint raw) c.value
    then false
    else not (bool_coerce_equal (sprint raw) c.value)

unfoldable pub eval_is_null : Option Value → Bool
eval_is_null raw = missing raw || is_empty (sprint raw) || is (sprint raw) "<nil>"

unfoldable pub eval_is_not_null : Option Value → Bool
eval_is_not_null raw =
    not (missing raw) && not (is_empty (sprint raw)) && not (is (sprint raw) "<nil>")

unfoldable pub in_loop : Bytes → List Bytes → Bool
in_loop actual [] = false
in_loop actual (v ∷ vs) =
    let rest = in_loop actual vs in
    if str_eq actual v then true else if bool_coerce_equal actual v then true else rest

unfoldable pub eval_in : Condition → Option Value → Bool
eval_in c raw = if missing raw then false else in_loop (sprint raw) c.in_values

-- The inline properties of a pattern's end, in the order in which the map is iterated.
unfoldable pub matches_inline_props : Row → Bytes → Props → Bool
matches_inline_props row variable [] = true
matches_inline_props row variable ((k, want) ∷ props) =
    let rest = matches_inline_props row variable props in
    let col = cypher_prop_to_col k in
    let got = sprint (row (variable ++ b'.' ∷ k)) in
    if is_empty col
    then false
    else if is_bool_col col
    then (if bool_coerce_equal got want then rest else false)
    else if str_eq got want
    then rest
    else false

module _ (host : Host) where
  open host use {Regexp, Float, compile, match_string, parse_float, less, less_eq}

  unfoldable pub eval_order : (Float → Float → Bool) → Condition → Option Value → Bool
  eval_order test c raw = elim (parse_float (sprint raw)) [
    | none ↦ false
    | some an ↦ elim (parse_float c.value) [ none ↦ false | some bn ↦ test an bn ]
  ]

  -- `reCache`: the nil map is `none`.
  abbrev pub ReCache : Type 0
  ReCache = Option (List (Bytes × Regexp))

  unfoldable pub cached : Bytes → List (Bytes × Regexp) → Option Regexp
  cached k [] = none
  cached k ((j, re) ∷ m) = if str_eq j k then some re else cached k m

  -- The regular expression of a text, and the cache after it was asked for.
  unfoldable pub compile_into :
      Bytes → List (Bytes × Regexp) → Option Regexp → Option Regexp × ReCache
  compile_into k m none = (none, some m)
  compile_into k m (some re) = (some re, some ((k, re) ∷ m))

  unfoldable pub from_cache :
      Bytes → List (Bytes × Regexp) → Option Regexp → Option Regexp × ReCache
  from_cache k m (some re) = (some re, some m)
  from_cache k m none = compile_into k m (compile k)

  unfoldable pub regexp_of : Bytes → ReCache → Option Regexp × ReCache
  unfolding from_cache compile_into
  regexp_of k none = (compile k, none)
  regexp_of k (some m) = from_cache k m (cached k m)

  abbrev pub match_option : Option Regexp → Bytes → Bool
  match_option none s = false
  match_option (some re) s = match_string re s

  unfoldable pub eval_regexp : Condition → Option Value → ReCache → Bool × ReCache
  eval_regexp c raw cache =
      let (re, cache') = regexp_of c.value cache in (match_option re (sprint raw), cache')

  -- The `switch` on the operator.
  unfoldable pub eval_op : Op → Condition → Option Value → ReCache → Bool × ReCache
  eval_op eq c raw cache = (eval_eq c raw, cache)
  eval_op ne c raw cache = (eval_ne c raw, cache)
  eval_op matches c raw cache = eval_regexp c raw cache
  eval_op contains c raw cache = (has_text (sprint raw) c.value, cache)
  eval_op starts_with c raw cache = (has_prefix (sprint raw) c.value, cache)
  eval_op ends_with c raw cache = (has_suffix (sprint raw) c.value, cache)
  eval_op is_null c raw cache = (eval_is_null raw, cache)
  eval_op is_not_null c raw cache = (eval_is_not_null raw, cache)
  eval_op in_list c raw cache = (eval_in c raw, cache)
  eval_op gt c raw cache = (eval_order (λ a b. less b a) c raw, cache)
  eval_op lt c raw cache = (eval_order (λ a b. less a b) c raw, cache)
  eval_op ge c raw cache = (eval_order (λ a b. less_eq b a) c raw, cache)
  eval_op le c raw cache = (eval_order (λ a b. less_eq a b) c raw, cache)

  unfoldable pub eval_condition : Row → Condition → ReCache → Bool × ReCache
  eval_condition row c cache =
      if is_empty c.rhs_property then eval_op c.op c (row (row_key c)) cache else (true, cache)

  -- A leaf with its NOT: the body of `condExpr.eval`, and of each round of `matchesConditions`.
  unfoldable pub eval_leaf : Row → Condition → ReCache → Bool × ReCache
  eval_leaf row c cache =
      let (r, cache') = eval_condition row c cache in (if c.negated then not r else r, cache')

  abbrev pub choose : BoolOp → Bool → (Bool × ReCache) → ReCache → Bool × ReCache
  choose or_op a right cache = if a then (true, cache) else right
  choose and_op a right cache = if a then right else (false, cache)

  unfoldable pub eval : WhereExpr → Row → ReCache → Bool × ReCache
  eval (cond_expr c) row cache = eval_leaf row c cache
  eval (binary_expr op left right) row cache =
      let (a, cache') = eval left row cache in
      let other = eval right row cache' in choose op a other cache'
  eval (not_expr inner) row cache = let (a, cache') = eval inner row cache in (not a, cache')

  unfoldable pub matches_where : Row → Option WhereExpr → ReCache → Bool × ReCache
  matches_where row none cache = (true, cache)
  matches_where row (some w) cache = eval w row cache

  abbrev pub connect : Option BoolOp → Bool → Bool → Bool
  connect (some or_op) result matched = result || matched
  connect (some and_op) result matched = result && matched
  connect none result matched = result && matched

  unfoldable pub conditions_loop : Row → Bool → List Condition → ReCache → Bool × ReCache
  conditions_loop row result [] cache = (result, cache)
  conditions_loop row result (c ∷ cs) cache =
      let (matched, cache') = eval_leaf row c cache in
      conditions_loop row (connect c.connector result matched) cs cache'

  unfoldable pub matches_conditions : Row → List Condition → ReCache → Bool × ReCache
  matches_conditions row [] cache = (true, cache)
  matches_conditions row (c ∷ cs) cache =
      let (result, cache') = eval_leaf row c cache in conditions_loop row result cs cache'
