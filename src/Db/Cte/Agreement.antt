-- ===== src/Db/Cte/Agreement.antt =====
-- The two ways to trace in internal/db, by the closure table and by the recursive query.
use pincher_mcp.Prelude.{
  ℕ, ◌≤◌, ◌≡◌, ◌↔◌, sym, Bool, true, false, List, arith, Bytes, codes, is_empty, str_eq, str_eq_iff,
  length, ok, ◌∙◌, refl,
}
use pincher_mcp.Db.Closure.{Edge, ClosureRow, Adjacency}
use pincher_mcp.Db.Closure.Build.{Faults, build_closure}
use pincher_mcp.Db.Closure.Trace.{TraceResult, trace_limit, trace_via_closure}
use pincher_mcp.Db.Closure.Traced.{outbound, inbound, reports, trace_via_closure-build_closure}
use pincher_mcp.Db.Closure.Walks.{IsDistance}
use pincher_mcp.Db.Closure.Sources.{calls}
use pincher_mcp.Db.Closure.Distances.{GivesKeys}
use pincher_mcp.Db.Closure.Keys.{IsKeyed}
use pincher_mcp.Db.Cte.{trace_via_cte}
use pincher_mcp.Db.Cte.Traced.{found, default_kinds, trace_via_cte-IsDistance}

eq_of_iff : (x y : Bool) → (x ≡ true) ↔ (y ≡ true) → x ≡ y
eq_of_iff true y (to, back) = sym (to refl)
eq_of_iff false true (to, back) = back refl
eq_of_iff false false h = refl

str_eq_symm : (s t : Bytes) → str_eq s t ≡ str_eq t s
str_eq_symm s t = ground (arith, str_eq_iff s t, str_eq_iff t s)

-- The conditions of the two traces on an id, where the depth is within that of the table.
conditions_iff :
    (D : Type 0) (a b a' b' : Bytes) (k m d : ℕ)
    → d ≤ m
    → str_eq a b ≡ str_eq a' b'
    → (str_eq a b ≡ false) × (k ≤ m) × (k ≤ d) × D ↔ (str_eq a' b' ≡ false) × (k ≤ d) × D
conditions_iff D a b a' b' k m d le same =
    (λ (ne, lm, ld, w). (sym same ∙ ne, ld, w), λ (ne, ld, w). (same ∙ ne, omega arith, ld, w))

joined : (P Q : Type 0) (x y : Bool) → (x ≡ true) ↔ P → P ↔ Q → (y ≡ true) ↔ Q → x ≡ y
joined P Q x y (xp, px) (pq, qp) (yq, qy) = eq_of_iff x y (λ h. qy (pq (xp h)), λ h. px (qp (yq h)))

-- After a build to depth m that commits, over a table that had no two rows for one project, source
-- and target, where Go's iteration over a map gives its keys in some order, the project has a name, no
-- query fails, at most 500 rows or ids match in each query and the depth asked for is at most m: the
-- trace by the closure table and the trace by the recursive query with the default kinds name the same
-- ids with the same depths, outbound and inbound.
pub trace_via_closure-trace_via_cte :
    (faults : Faults) (order : Adjacency → List Bytes) (p : Bytes) (m : ℕ) (es : List Edge)
    (table t : List ClosureRow) (start : Bytes) (d : ℕ)
    → build_closure faults order p m es table ≡ ok t
    → IsKeyed table
    → GivesKeys order
    → is_empty p ≡ false
    → d ≤ m
    → (length (outbound t p start d) ≤ trace_limit) × (length (inbound t p start d) ≤ trace_limit)
    → (length (found true p es start d) ≤ trace_limit)
      × (length (found false p es start d) ≤ trace_limit)
    → (out out' ins ins' : List TraceResult) × (trace_via_closure false false t p start
          (codes "outbound")
          d
        ≡ ok out)
      × (trace_via_cte false false es p start (codes "outbound") default_kinds d ≡ ok out')
      × (trace_via_closure false false t p start (codes "inbound") d ≡ ok ins)
      × (trace_via_cte false false es p start (codes "inbound") default_kinds d ≡ ok ins')
      × ((b : Bytes) (k : ℕ)
          → (reports b k out ≡ reports b k out') × (reports b k ins ≡ reports b k ins'))
trace_via_closure-trace_via_cte faults order p m es table t start d built keyed gives named le few
      few' =
    let (out, ins, run_out, run_ins, out_iff, ins_iff) =
      trace_via_closure-build_closure faults order p m es table t start d built keyed gives few.0
        few.1 in
    let (out', ins', all, run_out', run_ins', run_all, out_iff', ins_iff', all_iff, _, _, _) =
      trace_via_cte-IsDistance es p start d named few'.0 few'.1 in
    (
      out,
      out',
      ins,
      ins',
      run_out,
      run_out',
      run_ins,
      run_ins',
      λ b k. (
        joined _ _ (reports b k out) (reports b k out') (out_iff b k)
            (conditions_iff (IsDistance (calls p es) start k b) start b b start k m d le
              (str_eq_symm start b))
            (out_iff' b k),
        joined _ _ (reports b k ins) (reports b k ins') (ins_iff b k)
            (conditions_iff (IsDistance (calls p es) b k start) b start b start k m d le refl)
            (ins_iff' b k),
      ),
    )
