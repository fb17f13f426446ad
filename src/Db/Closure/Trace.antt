-- ===== src/Db/Closure/Trace.antt =====
-- `TraceViaClosure` of internal/db/closure.go: the trace that reads the table `closure`.
use pincher_mcp.Prelude.{
  text_less, ℕ, Bool, true, false, ◌&&◌, ◌||◌, List, [], ◌∷◌, ◌++◌, if◌then◌else◌, ltb, leb, ◌==◌,
  Bytes, is, str_eq, sort_by, take, Result, ok, fail, error,
}
use pincher_mcp.Db.Closure.{ClosureRow}

pub record TraceResult : Type 0 where
  pub symbol_id : Bytes
  pub depth : ℕ
  pub via_kind : Bytes

-- `ORDER BY depth, id`
unfoldable pub nearer : TraceResult → TraceResult → Bool
unfolding text_less
nearer q r = ltb q.depth r.depth || q.depth == r.depth && text_less q.symbol_id r.symbol_id

abbrev pub trace_limit : ℕ
trace_limit = 500

abbrev pub to_target : ClosureRow → TraceResult
to_target r = record { symbol_id = r.to_id; depth = r.depth; via_kind = r.via_kind }

abbrev pub to_source : ClosureRow → TraceResult
to_source r = record { symbol_id = r.from_id; depth = r.depth; via_kind = r.via_kind }

abbrev pub leaves : Bytes → Bytes → ℕ → ClosureRow → Bool
leaves project start d r = str_eq r.project_id project && str_eq r.from_id start && leb r.depth d

abbrev pub arrives : Bytes → Bytes → ℕ → ClosureRow → Bool
arrives project start d r = str_eq r.project_id project && str_eq r.to_id start && leb r.depth d

-- `SELECT … FROM closure WHERE …`
unfoldable pub select :
    (ClosureRow → Bool) → (ClosureRow → TraceResult) → List ClosureRow → List TraceResult
select test column [] = []
select test column (r ∷ table) =
    let rest = select test column table in if test r then column r ∷ rest else rest

-- `ORDER BY depth, id LIMIT 500`
unfoldable pub nearest_rows : List TraceResult → List TraceResult
unfolding nearer sort_by
nearest_rows rows = take trace_limit (sort_by nearer rows)

-- One query of the trace, which fails or gives rows.
unfoldable pub query_if : Bool → Bool → List TraceResult → Result (Unit {0}) (List TraceResult)
query_if false fails rows = ok []
query_if true true rows = fail (error tt)
query_if true false rows = ok rows

unfoldable pub both_of :
    Result (Unit {0}) (List TraceResult)
    → Result (Unit {0}) (List TraceResult)
    → Result (Unit {0}) (List TraceResult)
both_of (ok xs) (ok ys) = ok (xs ++ ys)
both_of (ok xs) (fail e) = fail e
both_of (fail e) r = fail e

-- `out_fails` and `in_fails` say whether the driver fails in the outbound and in the inbound query.
unfoldable pub trace_via_closure :
    Bool → Bool → List ClosureRow → Bytes → Bytes → Bytes → ℕ → Result (Unit {0}) (List TraceResult)
unfolding str_eq query_if both_of select nearest_rows
trace_via_closure out_fails in_fails table project start direction d =
    both_of
      (query_if (is direction "outbound" || is direction "both") out_fails
        (nearest_rows (select (leaves project start d) to_target table)))
      (query_if (is direction "inbound" || is direction "both") in_fails
        (nearest_rows (select (arrives project start d) to_source table)))
