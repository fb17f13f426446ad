-- ===== src/Db/Examples.antt =====
-- The closure table of internal/db/closure.go at concrete inputs.
mod Traces
mod Versions
use pincher_mcp.Prelude.{
  ℕ, ◌≤◌, ◌≡◌, ◌↔◌, refl, true, false, List, [], ◌∷◌, some, arith, Bytes, codes, str_eq, length, ok,
  fail, error, value_or, String, none,
}
use pincher_mcp.Db.Closure.{Edge, ClosureRow, closure_max_depth}
use pincher_mcp.Db.Closure.Build.{Faults, build_closure, bad_depth}
use pincher_mcp.Db.Closure.Rounds.{depth_of}
use pincher_mcp.Db.Closure.Walks.{IsDistance}
use pincher_mcp.Db.Closure.Sources.{calls}
use pincher_mcp.Db.Closure.Distances.{
  keys, Healthy, build_closure-IsDistance, closure_max_depth_bounds,
}
use pincher_mcp.Db.Closure.Keys.{IsKeyed, build_closure-IsKeyed}
use pincher_mcp.Db.Closure.Trace.{TraceResult, trace_limit, trace_via_closure, select}
use pincher_mcp.Db.Closure.Traced.{outbound, inbound, reports, trace_via_closure-build_closure}

abbrev no_faults : Faults
no_faults = record {
  query = false;
  scan = λ e. false;
  iter = false;
  begin = false;
  delete = false;
  prepare = false;
  insert = λ r. false;
  close = false;
  commit = false;
}

abbrev edge : String → String → String → Edge
edge from to kind = record {
  project_id = codes "p";
  from_id = codes from;
  to_id = codes to;
  kind = codes kind;
}

-- A cycle of calls, a shortcut that is not followed, and a reading.
abbrev sample : List Edge
sample =
    edge "a" "b" "CALLS"
    ∷ edge "b" "c" "HTTP_CALLS"
    ∷ edge "c" "a" "CALLS"
    ∷ edge "a" "c" "READS"
    ∷ []

abbrev stale : List ClosureRow
stale =
    record {
      project_id = codes "p";
      from_id = codes "x";
      to_id = codes "y";
      depth = 1;
      via_kind = codes "CALLS";
    }
    ∷ []

abbrev built_table : List ClosureRow
unfolding build_closure
built_table = value_or [] (build_closure no_faults keys (codes "p") 2 sample stale)

built : build_closure no_faults keys (codes "p") 2 sample stale ≡ ok built_table
unfolding build_closure
built = refl

built_depths :
    (depth_of (codes "p") (codes "a") (codes "c") built_table ≡ some 2)
    × (depth_of (codes "p") (codes "x") (codes "y") built_table ≡ none)
unfolding depth_of build_closure
built_depths = (refl, refl)

build_closure-IsDistance_example :
    ((a b : Bytes) (k : ℕ)
      → (depth_of (codes "p") a b built_table ≡ some k)
        ↔ (str_eq a b ≡ false) × (k ≤ 2) × IsDistance (calls (codes "p") sample) a k b)
    × ((q a b : Bytes)
        → str_eq (codes "p") q ≡ false
        → depth_of q a b built_table ≡ depth_of q a b stale)
build_closure-IsDistance_example =
    build_closure-IsDistance no_faults keys (codes "p") 2 sample stale built_table built
      (λ adj u. refl)

healthy : Healthy no_faults
healthy = record {
  query = refl;
  scan = λ e. refl;
  iter = refl;
  begin = refl;
  delete = refl;
  prepare = refl;
  insert = λ r. refl;
  close = refl;
  commit = refl;
}

few :
    (length (outbound built_table (codes "p") (codes "a") 1) ≤ trace_limit)
    × (length (inbound built_table (codes "p") (codes "a") 1) ≤ trace_limit)
unfolding build_closure select
few = (omega arith, omega arith)

trace_via_closure-build_closure_example :
    (out ins : List TraceResult) × (trace_via_closure false false built_table
        (codes "p")
        (codes "a")
        (codes "outbound")
        1
      ≡ ok out)
    × (trace_via_closure false false built_table (codes "p") (codes "a") (codes "inbound") 1
        ≡ ok ins)
    × ((b : Bytes) (k : ℕ)
        → (reports b k out ≡ true)
          ↔ (str_eq (codes "a") b ≡ false)
            × (k ≤ 2)
            × (k ≤ 1)
            × IsDistance (calls (codes "p") sample) (codes "a") k b)
    × ((b : Bytes) (k : ℕ)
        → (reports b k ins ≡ true)
          ↔ (str_eq b (codes "a") ≡ false)
            × (k ≤ 2)
            × (k ≤ 1)
            × IsDistance (calls (codes "p") sample) b k (codes "a"))
trace_via_closure-build_closure_example =
    trace_via_closure-build_closure no_faults keys (codes "p") 2 sample stale built_table
      (codes "a") 1 built (refl, tt) (λ adj u. refl) few.0 few.1
