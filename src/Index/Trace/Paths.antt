-- ===== src/Index/Trace/Paths.antt =====
-- The two paths of `TraceByID` in internal/index/indexer.go.
use pincher_mcp.Prelude.{
  ℕ, suc, ◌+◌, ◌≤◌, ◌≡◌, sym, ap, ◌∙◌, Bool, true, false, not, ◌&&◌, List, [], ◌∷◌, arith, Bytes,
  codes, is_empty, length, length-take, append-nil, Bool-cases, inl, inr, Result, ok, value_or,
  subst,
}
use pincher_mcp.Db.Closure.{Edge, ClosureRow, Adjacency}
use pincher_mcp.Db.Closure.Build.{Faults, build_closure}
use pincher_mcp.Db.Closure.Trace.{TraceResult, nearest_rows, trace_limit, trace_via_closure}
use pincher_mcp.Db.Closure.Traced.{outbound, inbound, reports}
use pincher_mcp.Db.Closure.Distances.{GivesKeys}
use pincher_mcp.Db.Closure.Keys.{IsKeyed}
use pincher_mcp.Db.Cte.{limited, keep_nearer, keep_all, trace_via_cte, CteError}
use pincher_mcp.Db.Cte.Traced.{found, default_kinds}
use pincher_mcp.Db.Cte.Agreement.{trace_via_closure-trace_via_cte}
use pincher_mcp.Index.Trace.{
  Symbol, Hop, materialize_hops, Tables, TraceFaults, trace_depth, has_closure, trace_fast,
  trace_slow, trace_by_id, is_default_trace_kinds,
}
use pincher_mcp.Index.Trace.Hops.{hops_to, is_known, hops_to-materialize_hops}

length-keep_nearer :
    (r : TraceResult) (gs : List TraceResult) → length (keep_nearer r gs) ≤ suc (length gs)
unfolding keep_nearer
length-keep_nearer r [] = omega arith
length-keep_nearer r (g ∷ gs) = ground (arith, length-keep_nearer r gs)

length-keep_all : (rs gs : List TraceResult) → length (keep_all rs gs) ≤ length rs + length gs
unfolding keep_all
length-keep_all [] gs = omega arith
length-keep_all (r ∷ rs) gs =
    omega (arith, length-keep_all rs (keep_nearer r gs), length-keep_nearer r gs)

length-limited : (rows : List TraceResult) → length (limited rows) ≤ trace_limit
unfolding limited
length-limited rows = length-take trace_limit _

length-nearest_rows : (rows : List TraceResult) → length (nearest_rows rows) ≤ trace_limit
unfolding nearest_rows
length-nearest_rows rows = length-take trace_limit _

module _ (p start : Bytes) (d : ℕ) where
  -- A trace in one direction has at most 500 results.
  length-trace_via_closure :
      (table : List ClosureRow) (rs : List TraceResult)
      → (trace_via_closure false false table p start (codes "outbound") d ≡ ok rs
          → length rs ≤ trace_limit)
        × (trace_via_closure false false table p start (codes "inbound") d ≡ ok rs
            → length rs ≤ trace_limit)
  unfolding trace_via_closure
  length-trace_via_closure table rs = (
    λ h.
        let e = sym (append-nil (nearest_rows (outbound table p start d))) ∙ ap (value_or []) h in
        subst (λ t. length t ≤ trace_limit) e (length-nearest_rows (outbound table p start d)),
    λ h.
        subst (λ t. length t ≤ trace_limit) (ap (value_or []) h)
          (length-nearest_rows (inbound table p start d)),
  )

  length-trace_via_cte :
      (es : List Edge) (rs : List TraceResult)
      → (trace_via_cte false false es p start (codes "outbound") default_kinds d ≡ ok rs
          → length rs ≤ trace_limit)
        × (trace_via_cte false false es p start (codes "inbound") default_kinds d ≡ ok rs
            → length rs ≤ trace_limit)
  unfolding trace_via_cte
  length-trace_via_cte es rs =
      let small = λ (forward : Bool).
        let rows = limited (found forward p es start d) in
        let le : length (keep_all rows []) ≤ trace_limit =
          omega (arith, length-keep_all rows [], length-limited (found forward p es start d)) in
        le in
      (
        λ h. subst (λ t. length t ≤ trace_limit) (ap (value_or []) h) (small true),
        λ h. subst (λ t. length t ≤ trace_limit) (ap (value_or []) h) (small false),
      )

abbrev pub no_trace_faults : TraceFaults
no_trace_faults = record {
  count = false;
  closure_out = false;
  closure_in = false;
  cte_out = false;
  cte_in = false;
}

-- With the closure table enabled and without, a trace returns, and finds the same symbols with the same
-- depths.
abbrev pub SameHops : Tables → Bytes → Bytes → Bytes → Bool → ℕ → Type 0
SameHops tables p start direction risk d =
    (hops hops' : List Hop) × (trace_by_id no_trace_faults tables p start direction risk true [] d
      ≡ ok hops)
    × (trace_by_id no_trace_faults tables p start direction risk false [] d ≡ ok hops')
    × ((b : Bytes) (k : ℕ) → hops_to b k hops ≡ hops_to b k hops')

module _ (tables : Tables) (p start direction : Bytes) (risk : Bool) (d : ℕ)
    (out out' : List TraceResult)
    (fast : trace_via_closure false false tables.closure p start direction (trace_depth d) ≡ ok out)
    (slow : trace_via_cte false false tables.edges p start direction default_kinds (trace_depth d)
      ≡ ok out')
    (few : length out ≤ trace_limit) (few' : length out' ≤ trace_limit)
    (same : (b : Bytes) (k : ℕ) → reports b k out ≡ reports b k out') where
  abbrev hops_when : Bool → Result CteError (List Hop)
  hops_when enabled = trace_by_id no_trace_faults tables p start direction risk enabled [] d

  abbrev test : Bool
  test =
      true
      && not (is_empty p)
      && is_default_trace_kinds default_kinds
      && has_closure no_trace_faults tables p start direction risk

  paths-slow : hops_when false ≡ ok (materialize_hops p tables.symbols risk 0 out')
  unfolding trace_by_id trace_slow
  paths-slow = simp (slow, trace_slow)

  paths-fast :
      (hops : List Hop) × (hops_when true ≡ ok hops)
      × ((b : Bytes) (k : ℕ) → hops_to b k hops ≡ (reports b k out' && is_known p b tables.symbols))
  unfolding trace_by_id trace_fast trace_slow
  paths-fast = elim (Bool-cases test) [
    | inl e ↦ (
      materialize_hops p tables.symbols risk 0 out,
      simp (e, fast, trace_fast),
      λ b k.
          hops_to-materialize_hops p tables.symbols risk b k 0 out (omega arith)
          ∙ ap (λ x. x && is_known p b tables.symbols) (same b k),
    )
    | inr e ↦ (
      materialize_hops p tables.symbols risk 0 out',
      simp (e, slow, trace_slow),
      λ b k. hops_to-materialize_hops p tables.symbols risk b k 0 out' (omega arith),
    )
  ]

  paths-agree : SameHops tables p start direction risk d
  paths-agree =
      let (hops, e, h) = paths-fast in
      let known = λ (b : Bytes) (k : ℕ).
        hops_to-materialize_hops p tables.symbols risk b k 0 out' (omega arith) in
      (
        hops,
        materialize_hops p tables.symbols risk 0 out',
        e,
        paths-slow,
        λ b k. h b k ∙ sym (known b k),
      )

-- After a build of the closure table to depth m that commits, over a table that had no two rows for one
-- project, source and target, where Go's iteration over a map gives its keys in some order, the project
-- has a name, no query fails, at most 500 rows or ids match in each query and the depth of the trace,
-- after its default, is at most m: TraceByID with the default edge kinds finds the same symbols with the
-- same depths whether the closure table is enabled or not, outbound and inbound.
pub trace_by_id-agrees :
    (faults : Faults) (order : Adjacency → List Bytes) (p : Bytes) (m : ℕ) (es : List Edge)
    (table t : List ClosureRow) (symbols : List Symbol) (start : Bytes) (risk : Bool) (d : ℕ)
    → build_closure faults order p m es table ≡ ok t
    → IsKeyed table
    → GivesKeys order
    → is_empty p ≡ false
    → trace_depth d ≤ m
    → (length (outbound t p start (trace_depth d)) ≤ trace_limit)
      × (length (inbound t p start (trace_depth d)) ≤ trace_limit)
    → (length (found true p es start (trace_depth d)) ≤ trace_limit)
      × (length (found false p es start (trace_depth d)) ≤ trace_limit)
    → SameHops
        (record { edges = es; closure = t; symbols = symbols })
        p
        start
        (codes "outbound")
        risk
        d
      × SameHops
          (record { edges = es; closure = t; symbols = symbols })
          p
          start
          (codes "inbound")
          risk
          d
trace_by_id-agrees faults order p m es table t symbols start risk d built keyed gives named le few
      few' =
    let (out, out', ins, ins', fast_out, slow_out, fast_in, slow_in, same) =
      trace_via_closure-trace_via_cte faults order p m es table t start (trace_depth d) built keyed
        gives named le few few' in
    let tables : Tables = record { edges = es; closure = t; symbols = symbols } in
    let short = length-trace_via_closure p start (trace_depth d) t in
    let short' = length-trace_via_cte p start (trace_depth d) es in
    (
      paths-agree tables p start (codes "outbound") risk d out out' fast_out slow_out
          ((short out).0 fast_out) ((short' out').0 slow_out) (λ b k. (same b k).0),
      paths-agree tables p start (codes "inbound") risk d ins ins' fast_in slow_in
          ((short ins).1 fast_in) ((short' ins').1 slow_in) (λ b k. (same b k).1),
    )
