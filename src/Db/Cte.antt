-- ===== src/Db/Cte.antt =====
-- `traceViaCTE` of internal/db/db.go: the trace by a recursive query on the table `edges`.
pub mod Levels
pub mod Groups
pub mod Traced
pub mod Agreement
use pincher_mcp.Prelude.{
  text_less, ℕ, zero, suc, ◌+◌, Bool, true, false, ◌&&◌, ◌||◌, not, List, [], ◌∷◌, ◌++◌,
  if◌then◌else◌, ltb, Bytes, is, is_empty, str_eq, any, sort_by, take, Result, ok, fail, error,
}
use pincher_mcp.Db.Closure.{Edge}
use pincher_mcp.Db.Closure.Trace.{TraceResult, trace_limit}

-- A direction's query: whether it follows edges from `from_id` to `to_id`, the project (all of them
-- if it is empty) and the kinds.
pub record Query : Type 0 where
  pub forward : Bool
  pub project : Bytes
  pub kinds : List Bytes

-- The JOIN: the edge leaves the id in the direction, its kind is in the list and its project is that
-- of the query.
unfoldable pub joins : Query → Bytes → Edge → Bool
unfolding str_eq
joins q u e =
    str_eq (if q.forward then e.from_id else e.to_id) u
    && any (str_eq e.kind) q.kinds
    && (is_empty q.project || str_eq e.project_id q.project)

-- `selectNeighbor`
abbrev pub neighbor : Query → Edge → Bytes
neighbor q e = if q.forward then e.to_id else e.from_id

-- The rows that the recursive SELECT adds for one row.
unfoldable pub expand_row : Query → List Edge → TraceResult → List TraceResult
unfolding joins
expand_row q [] r = []
expand_row q (e ∷ es) r =
    let rest = expand_row q es r in
    if joins q r.symbol_id e
    then record { symbol_id = neighbor q e; depth = suc r.depth; via_kind = e.kind } ∷ rest
    else rest

unfoldable pub expand : Query → List Edge → List TraceResult → List TraceResult
unfolding expand_row
expand q es [] = []
expand q es (r ∷ rs) = expand_row q es r ++ expand q es rs

-- The rows of the recursive table level by level, with the levels that `r.depth < maxDepth` leaves.
unfoldable pub reach : Query → List Edge → ℕ → List TraceResult → List TraceResult
unfolding expand
reach q es zero rows = rows
reach q es (suc n) rows = rows ++ reach q es n (expand q es rows)

-- `WHERE id != ? AND depth > 0`
unfoldable pub strangers : Bytes → List TraceResult → List TraceResult
strangers start [] = []
strangers start (r ∷ rs) =
    let rest = strangers start rs in
    if not (str_eq r.symbol_id start) && ltb 0 r.depth then r ∷ rest else rest

abbrev pub least : ℕ → ℕ → ℕ
least a b = if ltb b a then b else a

-- `GROUP BY id` with `MIN(depth)` and `MIN(via)`
unfoldable pub merge_row : TraceResult → List TraceResult → List TraceResult
unfolding text_less
merge_row r [] = r ∷ []
merge_row r (g ∷ gs) =
    if str_eq g.symbol_id r.symbol_id
    then record {
      symbol_id = g.symbol_id;
      depth = least g.depth r.depth;
      via_kind = if text_less r.via_kind g.via_kind then r.via_kind else g.via_kind;
    }
      ∷ gs
    else g ∷ merge_row r gs

unfoldable pub group : List TraceResult → List TraceResult → List TraceResult
unfolding merge_row
group [] gs = gs
group (r ∷ rs) gs = group rs (merge_row r gs)

-- The rows of one query. Rows of one depth come in any order; here, in that of their first row.
unfoldable pub query_rows : Query → List Edge → Bytes → ℕ → List TraceResult
unfolding reach strangers group
query_rows q es start d =
    let root : TraceResult = record { symbol_id = start; depth = 0; via_kind = [] } in
    group (strangers start (reach q es d (root ∷ []))) []

unfoldable pub limited : List TraceResult → List TraceResult
unfolding sort_by
limited rows = take trace_limit (sort_by (λ r g. ltb r.depth g.depth) rows)

-- `byID`: the rows of `runDir` merged into those of the runs before, by the lesser depth. Go's
-- iteration over the map gives the entries in any order; here, in that of their insertion.
unfoldable pub keep_nearer : TraceResult → List TraceResult → List TraceResult
keep_nearer r [] = r ∷ []
keep_nearer r (g ∷ gs) =
    if str_eq g.symbol_id r.symbol_id
    then (if ltb r.depth g.depth then r else g) ∷ gs
    else g ∷ keep_nearer r gs

unfoldable pub keep_all : List TraceResult → List TraceResult → List TraceResult
unfolding keep_nearer
keep_all [] by_id = by_id
keep_all (r ∷ rs) by_id = keep_all rs (keep_nearer r by_id)

pub data CteError : Type 0 where
  no_edge_kinds query_failed : CteError

-- `runDir`, if the direction asks for it, after what the run before returned.
unfoldable pub run_dir :
    Bool
    → Bool
    → Query
    → List Edge
    → Bytes
    → ℕ
    → Result CteError (List TraceResult)
    → Result CteError (List TraceResult)
unfolding query_rows limited keep_all
run_dir false fails q es start d before = before
run_dir true fails q es start d (fail e) = fail e
run_dir true true q es start d (ok by_id) = fail (error query_failed)
run_dir true false q es start d (ok by_id) = ok (keep_all (limited (query_rows q es start d)) by_id)

-- `out_fails` and `in_fails` say whether the driver fails in the outbound and in the inbound query.
unfoldable pub trace_via_cte :
    Bool
    → Bool
    → List Edge
    → Bytes
    → Bytes
    → Bytes
    → List Bytes
    → ℕ
    → Result CteError (List TraceResult)
unfolding run_dir str_eq
trace_via_cte out_fails in_fails es project start direction [] d = fail (error no_edge_kinds)
trace_via_cte out_fails in_fails es project start direction (k ∷ ks) d =
    let query = λ (forward : Bool).
      let q : Query = record { forward = forward; project = project; kinds = k ∷ ks } in q in
    run_dir (is direction "inbound" || is direction "both") in_fails (query false) es start d (
      run_dir (is direction "outbound" || is direction "both") out_fails (query true) es start d
        (ok []))
