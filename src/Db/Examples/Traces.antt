-- ===== src/Db/Examples/Traces.antt =====
-- The two traces of internal/db at concrete inputs.
use pincher_mcp.Prelude.{
  ℕ, ◌≤◌, ◌≡◌, ◌↔◌, refl, true, false, List, [], ◌∷◌, some, arith, Bytes, codes, str_eq, length, ok,
  map, value_or,
}
use pincher_mcp.Db.Closure.{Edge}
use pincher_mcp.Db.Closure.Build.{build_closure}
use pincher_mcp.Db.Closure.Walks.{IsDistance}
use pincher_mcp.Db.Closure.Sources.{calls}
use pincher_mcp.Db.Closure.Distances.{keys}
use pincher_mcp.Db.Closure.Trace.{TraceResult, trace_limit, trace_via_closure, select}
use pincher_mcp.Db.Closure.Traced.{reports, outbound, inbound}
use pincher_mcp.Db.Cte.{trace_via_cte, query_rows}
use pincher_mcp.Db.Cte.Groups.{opt_least, min_depth, IsDistinct}
use pincher_mcp.Db.Cte.Traced.{found, default_kinds, trace_via_cte-IsDistance}
use pincher_mcp.Db.Cte.Agreement.{trace_via_closure-trace_via_cte}
use pincher_mcp.Db.Examples.{no_faults, edge, sample, stale, built_table, built}

few_found :
    (length (found true (codes "p") sample (codes "a") 2) ≤ trace_limit)
    × (length (found false (codes "p") sample (codes "a") 2) ≤ trace_limit)
unfolding query_rows
few_found = (omega arith, omega arith)

few_rows :
    (length (outbound built_table (codes "p") (codes "a") 2) ≤ trace_limit)
    × (length (inbound built_table (codes "p") (codes "a") 2) ≤ trace_limit)
unfolding build_closure select
few_rows = (omega arith, omega arith)

trace_via_cte-IsDistance_example :
    (out ins all : List TraceResult) × (trace_via_cte false false sample
        (codes "p")
        (codes "a")
        (codes "outbound")
        default_kinds
        2
      ≡ ok out)
    × (trace_via_cte false false sample (codes "p") (codes "a") (codes "inbound") default_kinds 2
        ≡ ok ins)
    × (trace_via_cte false false sample (codes "p") (codes "a") (codes "both") default_kinds 2
        ≡ ok all)
    × ((b : Bytes) (k : ℕ)
        → (reports b k out ≡ true)
          ↔ (str_eq b (codes "a") ≡ false)
            × (k ≤ 2)
            × IsDistance (calls (codes "p") sample) (codes "a") k b)
    × ((b : Bytes) (k : ℕ)
        → (reports b k ins ≡ true)
          ↔ (str_eq b (codes "a") ≡ false)
            × (k ≤ 2)
            × IsDistance (calls (codes "p") sample) b k (codes "a"))
    × ((b : Bytes) (k : ℕ)
        → (reports b k all ≡ true) ↔ (opt_least (min_depth b out) (min_depth b ins) ≡ some k))
    × IsDistinct out
    × IsDistinct ins
    × IsDistinct all
trace_via_cte-IsDistance_example =
    trace_via_cte-IsDistance sample (codes "p") (codes "a") 2 refl few_found.0 few_found.1

trace_via_closure-trace_via_cte_example :
    (out out' ins ins' : List TraceResult) × (trace_via_closure false false built_table
        (codes "p")
        (codes "a")
        (codes "outbound")
        2
      ≡ ok out)
    × (trace_via_cte false false sample (codes "p") (codes "a") (codes "outbound") default_kinds 2
        ≡ ok out')
    × (trace_via_closure false false built_table (codes "p") (codes "a") (codes "inbound") 2
        ≡ ok ins)
    × (trace_via_cte false false sample (codes "p") (codes "a") (codes "inbound") default_kinds 2
        ≡ ok ins')
    × ((b : Bytes) (k : ℕ)
        → (reports b k out ≡ reports b k out') × (reports b k ins ≡ reports b k ins'))
trace_via_closure-trace_via_cte_example =
    trace_via_closure-trace_via_cte no_faults keys (codes "p") 2 sample stale built_table
      (codes "a") 2 built (refl, tt) (λ adj u. refl) refl (omega arith) few_rows few_found

-- On a cycle a trace of both by the table names an id twice, one by the recursive query once.
both_on_cycle :
    (map
        (λ r. r.symbol_id)
        (value_or []
          (trace_via_closure false false built_table (codes "p") (codes "a") (codes "both") 2))
      ≡ codes "b" ∷ codes "c" ∷ codes "c" ∷ codes "b" ∷ [])
    × (map
          (λ r. r.symbol_id)
          (value_or [] (
            trace_via_cte false false sample
              (codes "p")
              (codes "a")
              (codes "both")
              default_kinds
              2))
        ≡ codes "b" ∷ codes "c" ∷ [])
unfolding trace_via_closure trace_via_cte build_closure
both_on_cycle = (refl, refl)

-- `b` is called by `a`, and on a longer walk, asynchronously, by `c`.
abbrev detour : List Edge
detour = edge "a" "b" "CALLS" ∷ edge "a" "c" "CALLS" ∷ edge "c" "b" "ASYNC_CALLS" ∷ []

-- The table has the kind of the edge that a shortest walk ends with, the recursive query the least
-- kind of the last edges of all walks.
via_on_detour :
    (map
        (λ r. r.via_kind)
        (value_or [] (
          trace_via_closure false false
            (value_or [] (build_closure no_faults keys (codes "p") 2 detour []))
            (codes "p")
            (codes "a")
            (codes "outbound")
            2))
      ≡ codes "CALLS" ∷ codes "CALLS" ∷ [])
    × (map
          (λ r. r.via_kind)
          (value_or [] (
            trace_via_cte false false detour
              (codes "p")
              (codes "a")
              (codes "outbound")
              default_kinds
              2))
        ≡ codes "ASYNC_CALLS" ∷ codes "CALLS" ∷ [])
unfolding trace_via_closure trace_via_cte build_closure
via_on_detour = (refl, refl)
