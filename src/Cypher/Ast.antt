-- ===== src/Cypher/Ast.antt =====
-- The parsed query: `queryAST`, `pattern`, `condition`, `returnVar` and the WHERE tree of
-- internal/cypher/engine.go.
use pincher_mcp.Prelude.{ℕ, Bool, List, Option, Bytes}
use pincher_mcp.Cypher.Token.{Kind}

-- The operator strings of `condition.op`.
pub data Op : Type 0 where
  eq ne gt lt ge le : Op
  matches contains starts_with ends_with : Op
  is_null is_not_null in_list : Op

pub data BoolOp : Type 0 where
  and_op or_op : BoolOp

pub record Condition : Type 0 where
  pub variable : Bytes
  pub property : Bytes
  pub op : Op
  pub value : Bytes
  pub in_values : List Bytes
  pub negated : Bool
  -- `none` is the empty connector of the first condition.
  pub connector : Option BoolOp
  pub rhs_variable : Bytes
  pub rhs_property : Bytes
  -- `none` is the empty kind.
  pub value_kind : Option Kind

-- `condExpr`, `binaryExpr` and `notExpr`. The interface's nil is the `none` of `Option WhereExpr`.
pub data WhereExpr : Type 0 where
  cond_expr : Condition → WhereExpr
  binary_expr : BoolOp → WhereExpr → WhereExpr → WhereExpr
  not_expr : WhereExpr → WhereExpr

abbrev pub Props : Type 0
Props = List (Bytes × Bytes)

pub record Pattern : Type 0 where
  pub from_var : Bytes
  pub from_kind : Bytes
  pub from_props : Props
  pub edge_var : Bytes
  pub edge_kinds : List Bytes
  pub min_hops : ℕ
  pub max_hops : ℕ
  pub inverted_hops : Bool
  pub min_hops_clamped : Bool
  pub to_var : Bytes
  pub to_kind : Bytes
  pub to_props : Props
  pub directed : Bool

pub record ReturnVar : Type 0 where
  pub variable : Bytes
  pub property : Bytes
  pub alias : Bytes
  pub fn : Bytes
  pub distinct : Bool

pub record QueryAst : Type 0 where
  pub patterns : List Pattern
  pub conditions : List Condition
  pub where_expr : Option WhereExpr
  pub return_vars : List ReturnVar
  pub order_by : Bytes
  pub order_dir : Bytes
  -- `none` is the source's -1, no LIMIT clause.
  pub limit : Option ℕ
  pub distinct : Bool
