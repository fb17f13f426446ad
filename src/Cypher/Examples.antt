-- ===== src/Cypher/Examples.antt =====
-- The inputs of the examples on internal/cypher/engine.go.
mod Results
mod Parsing
mod Evaluation
mod Statements
mod Warnings
use pincher_mcp.Cypher.Ast.{Props}
use pincher_mcp.Prelude.{
  ℕ, true, [], ◌∷◌, Option, none, some, if◌then◌else◌, Bytes, codes, str_eq, has_prefix, atoi, Atoi,
  number, syntax, range, ltb, leb,
}
use pincher_mcp.Cypher.Token.{string}
use pincher_mcp.Cypher.Ast.{matches, in_list, and_op, Condition, WhereExpr, cond_expr, binary_expr}
use pincher_mcp.Cypher.Where.{text, Row, Host, ReCache}
use pincher_mcp.Cypher.Parser.Condition.{blank}

-- Regular expressions that are texts, refused where they begin with a bracket, and whole numbers.
abbrev pub compile_text : Bytes → Option Bytes
compile_text s = if has_prefix s (codes "[") then none else some s

abbrev pub whole : Atoi → Option ℕ
whole (number n) = some n
whole syntax = none
whole range = none

abbrev pub sample_host : Host
sample_host = record {
  Regexp = Bytes;
  compile = compile_text;
  match_string = str_eq;
  Float = ℕ;
  parse_float = λ s. whole (atoi s);
  less = ltb;
  less_eq = leb;
}

-- A row with a name and a kind, and no docstring.
abbrev pub sample_row : Row
sample_row k =
    if str_eq k (codes "n.name")
    then some (text (codes "main"))
    else if str_eq k (codes "n.kind")
    then some (text (codes "Function"))
    else none

abbrev pub name_is : Bytes → Condition
name_is v = record (blank (codes "n") (codes "name")) { value = v; value_kind = some string }

abbrev pub docstring_is : Bytes → Condition
docstring_is v = record (blank (codes "n") (codes "docstring")) { value = v }

abbrev pub name_matches : Condition
name_matches = record (name_is (codes "main")) { op = matches }

abbrev pub chain : WhereExpr
chain = binary_expr and_op (cond_expr name_matches) (cond_expr (name_is (codes "main")))

abbrev pub joined : Condition
joined = record (blank (codes "n") (codes "name")) {
  rhs_variable = codes "m";
  rhs_property = codes "name";
  negated = true;
}

abbrev pub small_cache : ReCache sample_host
small_cache = some ((codes "main", codes "main") ∷ [])

abbrev pub no_cache : ReCache sample_host
no_cache = none

abbrev pub query_text : Bytes
query_text = codes "MATCH (n:Function) WHERE n.name = 'main' RETURN n.name LIMIT 5"

abbrev pub two_names : Condition
two_names = record (name_is []) { op = in_list; in_values = codes "other" ∷ codes "main" ∷ [] }

-- Every variable stands for a table with the prefix `n.`.
abbrev pub one_table : Bytes → Option Bytes
one_table v = some (codes "n.")

abbrev pub two_props : Props
two_props = (codes "name", codes "main") ∷ (codes "kind", codes "Function") ∷ []

abbrev pub turned_props : Props
turned_props = (codes "kind", codes "Function") ∷ (codes "name", codes "main") ∷ []
