-- ===== src/Server/Latency.antt =====
-- Tool latencies of internal/server/tool_latency.go: `recordToolLatency`, whose calls interleave at their
-- atomic operations, and `topToolsByTotalTime`.
pub mod Counts
pub mod Finish
pub mod Ranking
use pincher_mcp.Prelude.{
  ℕ, zero, suc, ◌+◌, ◌≤◌, ◌<◌, ◌≡◌, Bool, true, false, not, List, [], ◌∷◌, ◌++◌, if◌then◌else◌, ltb,
  ◌==◌, Bytes, is_empty, str_eq, text_less, sort_by, take, length,
}
use mathlib.Core.Logic.{◌≢◌}

-- `toolLatencyStats` of one tool.
pub record LatencyStats : Type 0 where
  pub count : ℕ
  pub total_ms : ℕ
  pub max_ms : ℕ

-- Where a call is: before the first addition, before the second, before the load of the maximum, between
-- the load and the swap with the value it loaded, or done.
pub data Pc : Type 0 where
  entered counted totalled done : Pc
  loaded : ℕ → Pc

-- A call for the tool, with its latency.
pub record Call : Type 0 where
  pub latency_ms : ℕ
  pub pc : Pc

-- One atomic operation of a call.
pub data Move (s : LatencyStats) (l : ℕ) : Pc → LatencyStats → Pc → Type 0 where
  add_count : Move s l entered (record s { count = suc s.count }) counted
  add_total : Move s l counted (record s { total_ms = s.total_ms + l }) totalled
  load : Move s l totalled s (loaded s.max_ms)
  give_up : {cur : ℕ} → l ≤ cur → Move s l (loaded cur) s done
  swap : {cur : ℕ} → cur < l → s.max_ms ≡ cur → Move s l (loaded cur) (record s { max_ms = l }) done
  retry : {cur : ℕ} → cur < l → s.max_ms ≢ cur → Move s l (loaded cur) s totalled

pub record Recorder : Type 0 where
  pub stats : LatencyStats
  pub calls : List Call

-- A step of one of the calls.
pub data RecorderStep (r : Recorder) : Recorder → Type 0 where
  pick :
      (front back : List Call) (l : ℕ) {p q : Pc} {s : LatencyStats}
      → r.calls ≡ front ++ record { latency_ms = l; pc = p } ∷ back
      → Move r.stats l p s q
      → RecorderStep r
          (record { stats = s; calls = front ++ record { latency_ms = l; pc = q } ∷ back })

-- The calls with these latencies, none of which has done anything, on fresh counts.
unfoldable pub enter : List ℕ → List Call
enter [] = []
enter (l ∷ ls) = record { latency_ms = l; pc = entered } ∷ enter ls

abbrev pub no_stats : LatencyStats
no_stats = record { count = 0; total_ms = 0; max_ms = 0 }

pub data RecorderReach (ls : List ℕ) : Recorder → Type 0 where
  begin : RecorderReach ls (record { stats = no_stats; calls = enter ls })
  later : {r t : Recorder} → RecorderReach ls r → RecorderStep r t → RecorderReach ls t

pub record LatencyRow : Type 0 where
  pub tool : Bytes
  pub row_count : ℕ
  pub row_total : ℕ
  pub row_max : ℕ

-- The comparison of `sort.Slice`.
unfoldable pub row_before : LatencyRow → LatencyRow → Bool
row_before x y =
    if not (x.row_total == y.row_total)
    then ltb y.row_total x.row_total
    else if not (x.row_count == y.row_count)
    then ltb y.row_count x.row_count
    else text_less x.tool y.tool

-- `topToolsByTotalTime` on the rows that `Range` gives, in some order. No two rows are equal in the
-- comparison, so that every sort gives the same.
unfoldable pub top_tools_by_total_time : ℕ → List LatencyRow → List LatencyRow
unfolding row_before
top_tools_by_total_time zero rows = []
top_tools_by_total_time (suc n) rows = take (suc n) (sort_by row_before rows)
