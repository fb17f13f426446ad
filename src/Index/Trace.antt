-- ===== src/Index/Trace.antt =====
-- `TraceByID` of internal/index/indexer.go: the trace by the closure table with the recursive query to
-- fall back on, and the hops that are made of its results.
pub mod Hops
pub mod Paths
use pincher_mcp.Prelude.{
  ℕ, suc, ◌+◌, Bool, true, false, not, ◌&&◌, ◌||◌, List, [], ◌∷◌, Option, none, some, if◌then◌else◌,
  ltb, leb, ◌==◌, Bytes, codes, String, is, is_empty, str_eq, one_of, length, Failure, Result, ok,
  fail,
}
use pincher_mcp.Db.Closure.{Edge, ClosureRow}
use pincher_mcp.Db.Closure.Trace.{TraceResult, trace_via_closure}
use pincher_mcp.Db.Cte.{CteError, trace_via_cte}

-- A row of the table `symbols`, without the columns that a trace does not look at.
pub record Symbol : Type 0 where
  pub id : Bytes
  pub project_id : Bytes

pub record Hop : Type 0 where
  pub symbol : Symbol
  pub depth : ℕ
  pub via : Bytes
  pub risk : Bytes

-- `GetSymbolScoped`, or `GetSymbol` for no project.
unfoldable pub symbol_of : Bytes → Bytes → List Symbol → Option Symbol
unfolding str_eq
symbol_of project id [] = none
symbol_of project id (s ∷ symbols) =
    if str_eq s.id id && (is_empty project || str_eq s.project_id project)
    then some s
    else symbol_of project id symbols

unfoldable pub risk_label : ℕ → Bytes
risk_label depth =
    if depth == 1
    then codes "CRITICAL"
    else if depth == 2
    then codes "HIGH"
    else if depth == 3
    then codes "MEDIUM"
    else codes "LOW"

abbrev pub hop_limit : ℕ
hop_limit = 500

abbrev hop_of : Symbol → TraceResult → Bool → Hop
hop_of s r add_risk = record {
  symbol = s;
  depth = r.depth;
  via = r.via_kind;
  risk = if add_risk then risk_label r.depth else [];
}

-- The loop of `materializeHops`, with the number of hops so far.
unfoldable pub materialize_hops : Bytes → List Symbol → Bool → ℕ → List TraceResult → List Hop
unfolding symbol_of risk_label
materialize_hops project symbols add_risk n [] = []
materialize_hops project symbols add_risk n (r ∷ rs) =
    let skipped = materialize_hops project symbols add_risk n rs in
    let later = materialize_hops project symbols add_risk (suc n) rs in
    elim (symbol_of project r.symbol_id symbols) [
      | none ↦ skipped
      | some s ↦ hop_of s r add_risk ∷ (if leb hop_limit (suc n) then [] else later)
    ]

abbrev pub default_edge_kinds : List Bytes
default_edge_kinds = codes "CALLS" ∷ codes "HTTP_CALLS" ∷ codes "ASYNC_CALLS" ∷ []

all_wanted : List Bytes → Bool
all_wanted [] = true
all_wanted (k ∷ ks) =
    let rest = all_wanted ks in
    if one_of k ("CALLS" ∷ "HTTP_CALLS" ∷ "ASYNC_CALLS" ∷ []) then rest else false

unfoldable pub is_default_trace_kinds : List Bytes → Bool
unfolding all_wanted one_of
is_default_trace_kinds kinds = if length kinds == 3 then all_wanted kinds else false

-- `ClosureRowCount`
unfoldable pub closure_row_count : Bytes → List ClosureRow → ℕ
closure_row_count project [] = 0
closure_row_count project (r ∷ table) =
    let rest = closure_row_count project table in
    if str_eq r.project_id project then suc rest else rest

-- The tables that a trace reads.
pub record Tables : Type 0 where
  pub edges : List Edge
  pub closure : List ClosureRow
  pub symbols : List Symbol

-- Which queries of a trace fail.
pub record TraceFaults : Type 0 where
  pub count : Bool
  pub closure_out : Bool
  pub closure_in : Bool
  pub cte_out : Bool
  pub cte_in : Bool

-- A depth that is 0 or above 5 stands for 3.
unfoldable pub trace_depth : ℕ → ℕ
trace_depth d = if d == 0 || ltb 5 d then 3 else d

unfoldable pub kinds_or_default : List Bytes → List Bytes
kinds_or_default [] = default_edge_kinds
kinds_or_default (k ∷ ks) = k ∷ ks

module _ (faults : TraceFaults) (tables : Tables) (project id direction : Bytes)
    (add_risk : Bool) where
  unfoldable pub trace_slow : List Bytes → ℕ → Result CteError (List Hop)
  unfolding materialize_hops
  trace_slow kinds d =
      elim (trace_via_cte faults.cte_out faults.cte_in tables.edges project id direction kinds d) [
        | ok rs ↦ ok (materialize_hops project tables.symbols add_risk 0 rs)
        | fail e ↦ fail e
      ]

  -- An error of the table's query is logged, and the recursive query asked.
  unfoldable pub trace_fast : List Bytes → ℕ → Result CteError (List Hop)
  unfolding trace_slow
  trace_fast kinds d =
      elim (trace_via_closure faults.closure_out faults.closure_in tables.closure project id
        direction d) [
          | ok rs ↦ ok (materialize_hops project tables.symbols add_risk 0 rs)
          | fail e ↦ trace_slow kinds d
        ]

  -- A count that fails is 0.
  unfoldable pub has_closure : Bool
  unfolding closure_row_count
  has_closure = not faults.count && ltb 0 (closure_row_count project tables.closure)

  -- `TraceByID`; `enabled` is what `ClosureEnabled` says.
  unfoldable pub trace_by_id : Bool → List Bytes → ℕ → Result CteError (List Hop)
  unfolding trace_depth kinds_or_default is_default_trace_kinds has_closure trace_fast
  trace_by_id enabled edge_kinds max_depth =
      let d = trace_depth max_depth in
      let kinds = kinds_or_default edge_kinds in
      if enabled && not (is_empty project) && is_default_trace_kinds kinds && has_closure
      then trace_fast kinds d
      else trace_slow kinds d
