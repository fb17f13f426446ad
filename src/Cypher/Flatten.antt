-- ===== src/Cypher/Flatten.antt =====
-- The flat form of WHERE: `flattenWhere`, `collectFlatLeaves`, `whereIsAndChainOfLeaves`,
-- `pushdownAllowed` and `andChainFromConds` of internal/cypher/engine.go.
use pincher_mcp.Prelude.{Bool, true, false, List, [], ◌∷◌, ◌++◌, Option, none, some}
use pincher_mcp.Cypher.Ast.{
  BoolOp, and_op, Condition, WhereExpr, cond_expr, binary_expr, not_expr, QueryAst,
}

-- The leaves and the connectors between them; `none` where the source returns false.
abbrev pub Leaves : Type 0
Leaves = List Condition × List BoolOp

-- The right side of a binary expression has to be a leaf.
abbrev pub add_leaf : BoolOp → WhereExpr → Option Leaves → Option Leaves
add_leaf op (cond_expr c) (some (leaves, connectors)) =
    some (leaves ++ c ∷ [], connectors ++ op ∷ [])
add_leaf op right found = none

unfoldable pub collect_flat_leaves : WhereExpr → Option Leaves
collect_flat_leaves (cond_expr c) = some (c ∷ [], [])
collect_flat_leaves (binary_expr op left right) = add_leaf op right (collect_flat_leaves left)
collect_flat_leaves (not_expr inner) = none

abbrev pub stamp : Option BoolOp → Condition → Condition
stamp k c = record c { connector = k }

-- Each later leaf gets the connector before it. There are as many connectors as later leaves.
unfoldable pub stamp_rest : List Condition → List BoolOp → List Condition
stamp_rest (c ∷ cs) (k ∷ ks) = stamp (some k) c ∷ stamp_rest cs ks
stamp_rest cs ks = []

abbrev pub stamp_all : Leaves → List Condition
stamp_all ([], ks) = []
stamp_all (c ∷ cs, ks) = stamp none c ∷ stamp_rest cs ks

abbrev pub stamped : Option Leaves → List Condition
stamped none = []
stamped (some leaves) = stamp_all leaves

-- The empty list is the source's nil.
unfoldable pub flatten_where : Option WhereExpr → List Condition
unfolding collect_flat_leaves stamp_rest
flatten_where none = []
flatten_where (some w) = stamped (collect_flat_leaves w)

unfoldable pub is_and_chain : WhereExpr → Bool
is_and_chain (cond_expr c) = true
is_and_chain (binary_expr and_op left (cond_expr c)) = is_and_chain left
is_and_chain (binary_expr op left right) = false
is_and_chain (not_expr inner) = false

unfoldable pub where_is_and_chain_of_leaves : Option WhereExpr → Bool
unfolding is_and_chain
where_is_and_chain_of_leaves none = true
where_is_and_chain_of_leaves (some w) = is_and_chain w

unfoldable pub pushdown_allowed : QueryAst → Bool
unfolding where_is_and_chain_of_leaves
pushdown_allowed q = where_is_and_chain_of_leaves q.where_expr

unfoldable pub and_chain_loop : WhereExpr → List Condition → WhereExpr
and_chain_loop w [] = w
and_chain_loop w (c ∷ cs) = and_chain_loop (binary_expr and_op w (cond_expr c)) cs

unfoldable pub and_chain_from_conds : List Condition → Option WhereExpr
unfolding and_chain_loop
and_chain_from_conds [] = none
and_chain_from_conds (c ∷ cs) = some (and_chain_loop (cond_expr c) cs)
