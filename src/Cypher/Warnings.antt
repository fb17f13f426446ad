-- ===== src/Cypher/Warnings.antt =====
-- The warnings of internal/cypher/engine.go that are read off the parsed query, a constructor for each
-- message with what it shows of the query. The children hold the collectors.
pub mod Names
pub mod Types
pub mod Clauses
pub mod Collect
pub mod Reported
pub mod Unique
pub mod Pushed
use pincher_mcp.Prelude.{
  ℕ, Bool, true, false, not, ◌&&◌, ◌||◌, List, [], ◌∷◌, ◌++◌, Option, none, some, if◌then◌else◌,
  Bytes, codes, is, is_empty, str_eq, text_less, sort_by, any, has_byte, span, ◌==◌,
}
use pincher_mcp.Cypher.Token.{Kind}
use pincher_mcp.Cypher.Ast.{
  Condition, WhereExpr, cond_expr, binary_expr, not_expr, Pattern, QueryAst,
}

-- A comparison of a property with a literal of another type.
pub record Mismatch : Type 0 where
  pub prop : Bytes
  pub prop_type : Bytes
  pub value_kind : Kind

-- An aggregate of a property that is no number.
pub record TextAggregate : Type 0 where
  pub fn : Bytes
  pub prop : Bytes
  pub prop_type : Bytes

pub data Warning : Type 0 where
  unknown_property : Bytes → Bool → Warning
  unknown_variable : Bytes → List Bytes → Warning
  cross_column unknown_edge_kind : Bytes → Warning
  inverted_hops : ℕ → ℕ → Warning
  clamped_hops : ℕ → Warning
  unknown_order_by order_by_aggregate repeated_variable : Bytes → Warning
  type_mismatch : Mismatch → Warning
  aggregate_type_mismatch : TextAggregate → Warning
  bare_property : Bytes → List Bytes → Warning
  mixed_aggregate : Bytes → Bytes → Warning

-- A `map[string]bool` or `map[string]struct{}` as a set: its members, each once.
unfoldable pub add_text : Bytes → List Bytes → List Bytes
add_text t [] = t ∷ []
add_text t (s ∷ ss) = let rest = add_text t ss in if str_eq s t then s ∷ ss else s ∷ rest

abbrev pub has_text : List Bytes → Bytes → Bool
has_text ss t = any (λ s. str_eq s t) ss

-- `sort.Strings`
abbrev pub sort_texts : List Bytes → List Bytes
sort_texts = sort_by text_less

module _ {S : Type 0} where
  -- A `for` loop that changes a state.
  unfoldable pub each {ℓ} : {A : Type ℓ} → (A → S → S) → List A → S → S
  each check [] s = s
  each check (x ∷ xs) s = each check xs (check x s)

  -- The closures `walk_where` of the collectors.
  unfoldable pub walk_where : (Condition → S → S) → WhereExpr → S → S
  walk_where check (cond_expr c) s = check c s
  walk_where check (binary_expr op left right) s = walk_where check right (walk_where check left s)
  walk_where check (not_expr inner) s = walk_where check inner s

  -- The flat conditions, and the tree after them.
  unfoldable pub each_condition : (Condition → S → S) → QueryAst → S → S
  unfolding each walk_where
  each_condition check q s = elim q.where_expr [
    | none ↦ each check q.conditions s
    | some w ↦ walk_where check w (each check q.conditions s)
  ]

abbrev pub add_named : Bytes → List Bytes → List Bytes
add_named v bound = if is_empty v then bound else add_text v bound

abbrev pub add_variables : Pattern → List Bytes → List Bytes
add_variables pat bound =
    add_named pat.edge_var (add_named pat.to_var (add_named pat.from_var bound))

-- The variables that the patterns bind.
unfoldable pub bound_variables : List Pattern → List Bytes
unfolding each add_text
bound_variables pats = each add_variables pats []
