-- ===== src/Db/Closure/Traced.antt =====
-- What the trace of internal/db/closure.go returns, by itself and after a build.
use pincher_mcp.Prelude.{
  text_less, ◌<◌, ◌⊎◌, ℕ, ◌≤◌, ◌≡◌, ◌↔◌, refl, sym, ◌∙◌, Bool, true, false, ◌&&◌, List, [], ◌∷◌,
  ◌++◌, some, arith, leb, ◌==◌, Bytes, codes, str_eq, any, length, sort_by, take-all, any-sort_by,
  length-sort_by, ok, subst, ap, append-nil,
}
use mathlib.Core.List.{Perm}
use pincher_mcp.Db.Closure.{Edge, ClosureRow, Adjacency}
use pincher_mcp.Db.Closure.Build.{Faults, row_is, build_closure}
use pincher_mcp.Db.Closure.Rounds.{depth_of}
use pincher_mcp.Db.Closure.Walks.{IsDistance}
use pincher_mcp.Db.Closure.Sources.{calls}
use pincher_mcp.Db.Closure.Distances.{GivesKeys, build_closure-IsDistance}
use pincher_mcp.Db.Closure.Keys.{IsKeyed, build_closure-IsKeyed, any-depth_of}
use pincher_mcp.Db.Closure.Trace.{
  TraceResult, nearer, trace_limit, to_target, to_source, leaves, arrives, select, nearest_rows,
  trace_via_closure,
}

-- The rows for a direction, before ORDER BY and LIMIT.
abbrev pub outbound : List ClosureRow → Bytes → Bytes → ℕ → List TraceResult
outbound table project start d = select (leaves project start d) to_target table

abbrev pub inbound : List ClosureRow → Bytes → Bytes → ℕ → List TraceResult
inbound table project start d = select (arrives project start d) to_source table

-- `r` may come after `q`: it is deeper, or as deep with an id that is not less.
pub data MayFollow (q r : TraceResult) : Type 0 where
  deeper : q.depth < r.depth → MayFollow q r
  as_deep : q.depth ≡ r.depth → text_less r.symbol_id q.symbol_id ≡ false → MayFollow q r

abbrev pub IsByDepth : List TraceResult → Type 0
IsByDepth [] = Unit
IsByDepth (q ∷ []) = Unit
IsByDepth (q ∷ r ∷ rs) = MayFollow q r × IsByDepth (r ∷ rs)

-- `rs` holds the rows except some that come after them all in the order of depth and then id; it has 500, or
-- fewer with no row left out.
abbrev pub IsNearest : List TraceResult → List TraceResult → Type 0
IsNearest rows rs =
    (rest : List TraceResult) × Perm (rs ++ rest) rows
    × IsByDepth (rs ++ rest)
    × (length rs ≤ 500)
    × ((length rs ≡ 500) ⊎ (rest ≡ []))

-- The trace names the id with that depth.
abbrev pub reports : Bytes → ℕ → List TraceResult → Bool
reports b k rs = any (λ r. str_eq r.symbol_id b && r.depth == k) rs

any_ext {ℓ} :
    {A : Type ℓ} (p q : A → Bool) (xs : List A) → ((x : A) → p x ≡ q x) → any p xs ≡ any q xs
any_ext p q [] h = refl
any_ext p q (x ∷ xs) h = ground (arith, h x, any_ext p q xs h)

any-select :
    (q : TraceResult → Bool) (test : ClosureRow → Bool) (column : ClosureRow → TraceResult)
    (table : List ClosureRow)
    → any q (select test column table) ≡ any (λ r. test r && q (column r)) table
unfolding select
any-select q test column [] = refl
any-select q test column (r ∷ table) = ground (arith, any-select q test column table)

any-nearest_rows :
    (q : TraceResult → Bool) (rows : List TraceResult)
    → length rows ≤ trace_limit
    → any q (nearest_rows rows) ≡ any q rows
unfolding nearest_rows
any-nearest_rows q rows h =
    rw (take-all trace_limit (sort_by nearer rows) (rw length-sort_by h))
      (any-sort_by nearer q rows)

module _ (table : List ClosureRow) (keyed : IsKeyed table) (p : Bytes) (start b : Bytes)
    (d k : ℕ) where
  reports-outbound :
      length (outbound table p start d) ≤ trace_limit
      → (reports b k (nearest_rows (outbound table p start d)) ≡ true)
        ↔ (depth_of p start b table ≡ some k) × (k ≤ d)
  unfolding row_is
  reports-outbound few =
      let test = λ (r : TraceResult). str_eq r.symbol_id b && r.depth == k in
      let same =
        any-nearest_rows test (outbound table p start d) few
        ∙ any-select test (leaves p start d) to_target table
        ∙ any_ext (λ r. leaves p start d r && test (to_target r))
            (λ r. row_is p start b r && leb r.depth d && r.depth == k) table (λ r. ground arith) in
      subst (λ x. (x ≡ true) ↔ (depth_of p start b table ≡ some k) × (k ≤ d)) (sym same)
        (any-depth_of p start b d k table keyed)

  reports-inbound :
      length (inbound table p start d) ≤ trace_limit
      → (reports b k (nearest_rows (inbound table p start d)) ≡ true)
        ↔ (depth_of p b start table ≡ some k) × (k ≤ d)
  unfolding row_is
  reports-inbound few =
      let test = λ (r : TraceResult). str_eq r.symbol_id b && r.depth == k in
      let same =
        any-nearest_rows test (inbound table p start d) few
        ∙ any-select test (arrives p start d) to_source table
        ∙ any_ext (λ r. arrives p start d r && test (to_source r))
            (λ r. row_is p b start r && leb r.depth d && r.depth == k) table (λ r. ground arith) in
      subst (λ x. (x ≡ true) ↔ (depth_of p b start table ≡ some k) × (k ≤ d)) (sym same)
        (any-depth_of p b start d k table keyed)

-- After a build to depth m that commits, over a table that had no two rows for one project, source
-- and target, where Go's iteration over a map gives its keys in some order, no query fails and at most
-- 500 rows match: an outbound trace to depth d names an id with depth k exactly if the id is not the
-- start, k is at most m and at most d, and k is the number of edges on a shortest path from the start
-- to the id; and an inbound trace likewise for a shortest path from the id to the start.
pub trace_via_closure-build_closure :
    (faults : Faults) (order : Adjacency → List Bytes) (p : Bytes) (m : ℕ) (edges : List Edge)
    (table t : List ClosureRow) (start : Bytes) (d : ℕ)
    → build_closure faults order p m edges table ≡ ok t
    → IsKeyed table
    → GivesKeys order
    → length (outbound t p start d) ≤ trace_limit
    → length (inbound t p start d) ≤ trace_limit
    → (out ins : List TraceResult) × (trace_via_closure false false t p start (codes "outbound") d
        ≡ ok out)
      × (trace_via_closure false false t p start (codes "inbound") d ≡ ok ins)
      × ((b : Bytes) (k : ℕ)
          → (reports b k out ≡ true)
            ↔ (str_eq start b ≡ false) × (k ≤ m) × (k ≤ d) × IsDistance (calls p edges) start k b)
      × ((b : Bytes) (k : ℕ)
          → (reports b k ins ≡ true)
            ↔ (str_eq b start ≡ false) × (k ≤ m) × (k ≤ d) × IsDistance (calls p edges) b k start)
unfolding trace_via_closure
trace_via_closure-build_closure faults order p m edges table t start d built keyed gives few_out
      few_in =
    let (depths, _) = build_closure-IsDistance faults order p m edges table t built gives in
    let keyed' = build_closure-IsKeyed faults order p m edges table t keyed built in
    (
      nearest_rows (outbound t p start d),
      nearest_rows (inbound t p start d),
      ap ok (append-nil (nearest_rows (outbound t p start d))),
      refl,
      λ b k.
          let (to, from) = reports-outbound t keyed' p start b d k few_out in
          let (in_t, of_d) = depths start b k in
          (
            λ h. let (e, le) = to h in let (ne, le', w) = in_t e in (ne, le', le, w),
            λ (ne, le', le, w). from (of_d (ne, le', w), le),
          ),
      λ b k.
          let (to, from) = reports-inbound t keyed' p start b d k few_in in
          let (in_t, of_d) = depths b start k in
          (
            λ h. let (e, le) = to h in let (ne, le', w) = in_t e in (ne, le', le, w),
            λ (ne, le', le, w). from (of_d (ne, le', w), le),
          ),
    )
