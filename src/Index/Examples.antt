-- ===== src/Index/Examples.antt =====
-- `TraceByID` of internal/index/indexer.go at concrete inputs.
mod Locks
use pincher_mcp.Prelude.{
  ◌≤◌, ◌≡◌, refl, arith, true, false, List, [], ◌∷◌, String, codes, map, ok, value_or, length,
}
use pincher_mcp.Db.Closure.{Edge, ClosureRow}
use pincher_mcp.Db.Closure.Build.{Faults, build_closure}
use pincher_mcp.Db.Closure.Distances.{keys}
use pincher_mcp.Db.Closure.Trace.{trace_limit, select, trace_via_closure}
use pincher_mcp.Db.Closure.Traced.{outbound, inbound}
use pincher_mcp.Db.Cte.{query_rows}
use pincher_mcp.Db.Cte.Traced.{found}
use pincher_mcp.Index.Trace.{Symbol, Tables, trace_depth, trace_by_id}
use pincher_mcp.Index.Trace.Paths.{SameHops, no_trace_faults, trace_by_id-agrees}

abbrev all_well : Faults
all_well = record {
  query = false;
  scan = λ e. false;
  iter = false;
  begin = false;
  delete = false;
  prepare = false;
  insert = λ r. false;
  close = false;
  commit = false;
}

abbrev call : String → String → Edge
call from to = record {
  project_id = codes "p";
  from_id = codes from;
  to_id = codes to;
  kind = codes "CALLS";
}

abbrev calls_made : List Edge
calls_made = call "a" "b" ∷ call "b" "c" ∷ call "b" "gone" ∷ []

abbrev closure_rows : List ClosureRow
unfolding build_closure
closure_rows = value_or [] (build_closure all_well keys (codes "p") 3 calls_made [])

committed : build_closure all_well keys (codes "p") 3 calls_made [] ≡ ok closure_rows
unfolding build_closure
committed = refl

abbrev symbol : String → Symbol
symbol id = record { id = codes id; project_id = codes "p" }

abbrev known_symbols : List Symbol
known_symbols = symbol "a" ∷ symbol "b" ∷ symbol "c" ∷ []

few_rows :
    (length (outbound closure_rows (codes "p") (codes "a") 3) ≤ trace_limit)
    × (length (inbound closure_rows (codes "p") (codes "a") 3) ≤ trace_limit)
unfolding build_closure select
few_rows = (omega arith, omega arith)

few_found :
    (length (found true (codes "p") calls_made (codes "a") 3) ≤ trace_limit)
    × (length (found false (codes "p") calls_made (codes "a") 3) ≤ trace_limit)
unfolding query_rows
few_found = (omega arith, omega arith)

abbrev tables : Tables
tables = record { edges = calls_made; closure = closure_rows; symbols = known_symbols }

-- A depth above 5 is taken for 3, and an id without a symbol is left out.
hops_of_a :
    map
      (λ h. h.symbol.id)
      (value_or [] (
        trace_by_id no_trace_faults tables
          (codes "p")
          (codes "a")
          (codes "outbound")
          true
          true
          []
          9))
    ≡ codes "b" ∷ codes "c" ∷ []
unfolding trace_by_id build_closure trace_via_closure
hops_of_a = refl

trace_by_id-agrees_example :
    SameHops tables (codes "p") (codes "a") (codes "outbound") true 9
    × SameHops tables (codes "p") (codes "a") (codes "inbound") true 9
unfolding trace_depth
trace_by_id-agrees_example =
    trace_by_id-agrees all_well keys (codes "p") 3 calls_made [] closure_rows known_symbols
      (codes "a") true 9 committed tt (λ adj u. refl) refl (omega arith) few_rows few_found
