-- ===== src/Server/Examples/Latencies.antt =====
-- Two calls of `recordToolLatency` of internal/server/tool_latency.go, one of which loses its swap, and a
-- ranking.
use pincher_mcp.Prelude.{
  ℕ, ◌≡◌, refl, arith, List, [], ◌∷◌, String, codes, str_eq, sort_by, length, ◌≤◌, ◌⊎◌, ◌++◌, any,
}
use pincher_mcp.Server.Latency.{
  LatencyStats, Pc, entered, done, loaded, Move, add_count, add_total, load, give_up, swap, retry,
  Recorder, pick, enter, no_stats, RecorderReach, begin, later, LatencyRow, row_before,
  top_tools_by_total_time,
}
use pincher_mcp.Server.Latency.Counts.{IsSettled, sum, greatest, RecorderReach-settled}
use pincher_mcp.Server.Latency.Finish.{RecorderSteps, RecorderReach-finishes}
use pincher_mcp.Server.Latency.Ranking.{same_row, IsRanked, top_tools_by_total_time-IsRanked}

abbrev both : List ℕ
both = 5 ∷ 9 ∷ []

abbrev at_pcs : LatencyStats → Pc → Pc → Recorder
at_pcs s p q = record {
  stats = s;
  calls = record { latency_ms = 5; pc = p } ∷ record { latency_ms = 9; pc = q } ∷ [];
}

module _ {s t : LatencyStats} {p q r : Pc} where
  left : RecorderReach both (at_pcs s p r) → Move s 5 p t q → RecorderReach both (at_pcs t q r)
  left h m = later h (pick [] (record { latency_ms = 9; pc = r } ∷ []) 5 refl m)

  right : RecorderReach both (at_pcs s r p) → Move s 9 p t q → RecorderReach both (at_pcs t r q)
  right h m = later h (pick (record { latency_ms = 5; pc = r } ∷ []) [] 9 refl m)

entered_both : RecorderReach both (at_pcs no_stats entered entered)
unfolding enter
entered_both = begin

-- Both have loaded 0, and the second swaps first.
under_way :
    RecorderReach both (at_pcs (record { count = 2; total_ms = 14; max_ms = 9 }) (loaded 0) done)
under_way =
    right
      (right
        (left (right (left (right (left entered_both add_count) add_count) add_total) add_total)
          load)
        load)
      (swap (omega arith) refl)

both_done : RecorderReach both (at_pcs (record { count = 2; total_ms = 14; max_ms = 9 }) done done)
both_done =
    left (left (left under_way (retry (omega arith) (omega arith))) load) (give_up (omega arith))

RecorderReach-settled_example :
    ((◌≡◌ {A = ℕ} 2 (length both)) × (◌≡◌ {A = ℕ} 14 (sum both)) × (◌≡◌ {A = ℕ} 9 (greatest both)))
RecorderReach-settled_example = RecorderReach-settled both_done (refl, (refl, tt))

RecorderReach-finishes_example :
    (t : Recorder) × RecorderSteps
      (at_pcs (record { count = 2; total_ms = 14; max_ms = 9 }) (loaded 0) done)
      t
    × IsSettled t.calls
    × (t.stats.count ≡ length both)
    × (t.stats.total_ms ≡ sum both)
    × (t.stats.max_ms ≡ greatest both)
RecorderReach-finishes_example = RecorderReach-finishes under_way

abbrev row : String → ℕ → ℕ → LatencyRow
row name n total = record { tool = codes name; row_count = n; row_total = total; row_max = total }

abbrev ranged : List LatencyRow
ranged = row "query" 2 30 ∷ row "trace" 9 40 ∷ row "search" 3 30 ∷ []

abbrev ranged_again : List LatencyRow
ranged_again = row "search" 3 30 ∷ row "query" 2 30 ∷ row "trace" 9 40 ∷ []

-- Of two tools with one total the one with more calls comes first, whatever the names.
top_two : top_tools_by_total_time 2 ranged ≡ row "trace" 9 40 ∷ row "search" 3 30 ∷ []
unfolding top_tools_by_total_time sort_by row_before
top_two = refl

top_tools_by_total_time-IsRanked_example :
    (rest : List LatencyRow) × IsRanked (top_tools_by_total_time 2 ranged ++ rest)
    × ((r : LatencyRow)
        → any (same_row r) (top_tools_by_total_time 2 ranged ++ rest) ≡ any (same_row r) ranged)
    × (length (top_tools_by_total_time 2 ranged) ≤ 2)
    × ((length (top_tools_by_total_time 2 ranged) ≡ 2) ⊎ (rest ≡ []))
    × (top_tools_by_total_time 2 ranged ≡ top_tools_by_total_time 2 ranged_again)
unfolding str_eq
top_tools_by_total_time-IsRanked_example =
    top_tools_by_total_time-IsRanked 2 ranged ranged_again (refl, (refl, (refl, tt)))
      (refl, (refl, (refl, tt))) (λ r. ground arith)
