-- ===== src/Cypher/Parser/PatternClause.antt =====
-- MATCH patterns: `parsePattern` and `parseProps` of internal/cypher/engine.go.
use pincher_mcp.Prelude.{
  ℕ, zero, suc, true, false, not, ◌&&◌, ◌||◌, List, [], ◌∷◌, ◌++◌, if◌then◌else◌, Bytes, is, str_eq,
  to_upper, fail, out_of_fuel,
}
use pincher_mcp.Cypher.Token.{is_eof, is_ident, is_hops}
use pincher_mcp.Cypher.Ast.{Props, Pattern}
use pincher_mcp.Cypher.Hops.{Hops, parse_hops}
use pincher_mcp.Cypher.Parser.{
  outbound_only, Parse, ◌>>=◌, ◌>>◌, pure, raise, peek, next, next_value, peek_is, skip, expect,
  remaining,
}

-- `props[key] = val`
unfoldable pub put : Bytes → Bytes → Props → Props
put key val [] = (key, val) ∷ []
put key val ((k, v) ∷ props) = if str_eq k key then (k, val) ∷ props else (k, v) ∷ put key val props

unfoldable pub props_loop : ℕ → Props → Parse Props
props_loop zero props = λ ts. fail out_of_fuel
props_loop (suc fuel) props = do
  t ← peek
  if not (is t.value "}") && not (is_eof t.kind)
      then (do
        key ← next_value
        skip ":"
        val ← next_value
        skip ","
        props_loop fuel (put key val props))
      else pure props

unfoldable pub parse_props : Parse Props
parse_props = do skip "{"; n ← remaining; props ← props_loop (suc n) []; expect "}"; pure props

-- `:Kind`, where there is one
unfoldable pub kind_part : Parse Bytes
kind_part = do colon ← peek_is ":"; if colon then (do next; next_value) else pure []

-- `{prop:val}`, where there is one
unfoldable pub props_part : Parse Props
props_part = do brace ← peek_is "{"; if brace then parse_props else pure []

pub record Node : Type 0 where
  pub variable : Bytes
  pub kind : Bytes
  pub props : Props

-- The body of a node behind its parenthesis, with the one that closes it.
unfoldable pub parse_node : Parse Node
parse_node = do
  v ← next_value
  k ← kind_part
  ps ← props_part
  expect ")"
  pure (record { variable = v; kind = k; props = ps })

unfoldable pub edge_kinds_loop : ℕ → List Bytes → Parse (List Bytes)
edge_kinds_loop zero kinds = λ ts. fail out_of_fuel
edge_kinds_loop (suc fuel) kinds = do
  t ← peek
  if is_ident t.kind
      then (do
        next
        bar ← peek_is "|"
        if bar
            then (do next; edge_kinds_loop fuel (kinds ++ to_upper t.value ∷ []))
            else pure (kinds ++ to_upper t.value ∷ []))
      else pure kinds

unfoldable pub edge_var_part : Pattern → Parse Pattern
edge_var_part pat = do
  t ← peek
  if is_ident t.kind then (do next; pure (record pat { edge_var = t.value })) else pure pat

unfoldable pub edge_kinds_part : Pattern → Parse Pattern
edge_kinds_part pat = do
  colon ← peek_is ":"
  if colon
      then (do
        next
        n ← remaining
        kinds ← edge_kinds_loop (suc n) []
        pure (record pat { edge_kinds = kinds }))
      else pure pat

abbrev pub with_hops : Hops → Pattern → Pattern
with_hops h pat = record pat {
  min_hops = h.min_hops;
  max_hops = h.max_hops;
  inverted_hops = h.inverted;
  min_hops_clamped = h.min_clamped;
}

unfoldable pub hops_part : Pattern → Parse Pattern
hops_part pat = do
  t ← peek
  if is_hops t.kind then (do next; pure (with_hops (parse_hops t.value) pat)) else pure pat

-- `[r:KIND|KIND*1..3]`, where there is one
unfoldable pub bracket_part : Pattern → Parse Pattern
bracket_part pat = do
  open_bracket ← peek_is "["
  if open_bracket
      then (do
        next
        pat₁ ← edge_var_part pat
        pat₂ ← edge_kinds_part pat₁
        pat₃ ← hops_part pat₂
        expect "]"
        pure pat₃)
      else pure pat

-- The arrow head: only the outbound form is accepted.
unfoldable pub arrow_part : Pattern → Parse Pattern
arrow_part pat = do
  t ← peek
  if is t.value "->"
      then (do next; pure (record pat { directed = true }))
      else if is t.value "-"
      then (do
        next
        head ← peek_is ">"
        if head then (do next; pure (record pat { directed = true })) else raise outbound_only)
      else pure pat

unfoldable pub to_part : Pattern → Parse Pattern
to_part pat = do
  paren ← peek_is "("
  if paren
      then (do
        next
        node ← parse_node
        pure (record pat { to_var = node.variable; to_kind = node.kind; to_props = node.props }))
      else pure pat

abbrev pub from_node : Node → Pattern
from_node node = record {
  from_var = node.variable;
  from_kind = node.kind;
  from_props = node.props;
  edge_var = [];
  edge_kinds = [];
  min_hops = 1;
  max_hops = 1;
  inverted_hops = false;
  min_hops_clamped = false;
  to_var = [];
  to_kind = [];
  to_props = [];
  directed = true;
}

unfoldable pub edge_part : Pattern → Parse Pattern
edge_part pat = do
  t ← peek
  if is t.value "-" || is t.value "<"
      then (do next; pat₁ ← bracket_part pat; pat₂ ← arrow_part pat₁; to_part pat₂)
      else pure pat

unfoldable pub parse_pattern : Parse Pattern
parse_pattern = do skip "("; node ← parse_node; edge_part (from_node node)
