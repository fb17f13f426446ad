-- ===== src/Server/Latency/Finish.antt =====
-- Every call of `recordToolLatency` in internal/server/tool_latency.go can return.
use pincher_mcp.Prelude.{
  ℕ, ◌≡◌, refl, sym, List, [], ◌∷◌, ◌++◌, arith, length, All-append, subst, append_assoc,
  append-nil, lt_or_le, inl, inr, ◌==◌, Bool-cases,
}
use pincher_mcp.Server.Latency.{
  LatencyStats, Pc, entered, counted, totalled, done, loaded, Call, Move, add_count, add_total,
  load, give_up, swap, retry, Recorder, RecorderStep, pick, RecorderReach, later,
}
use pincher_mcp.Server.Latency.Counts.{IsSettled, sum, greatest, RecorderReach-settled}

abbrev one : LatencyStats → List Call → ℕ → Pc → List Call → Recorder
one s front l p back = record {
  stats = s;
  calls = front ++ record { latency_ms = l; pc = p } ∷ back;
}

-- The states that steps of the calls lead to.
pub data RecorderSteps (r : Recorder) : Recorder → Type 0 where
  stay : RecorderSteps r r
  step_on : {t u : Recorder} → RecorderSteps r t → RecorderStep t u → RecorderSteps r u

module _ (r : Recorder) (front back : List Call) (l : ℕ) where
  abbrev Finishes : Type 0
  Finishes = (t : LatencyStats) × RecorderSteps r (one t front l done back)

  advance :
      {s t : LatencyStats} {p q : Pc}
      → RecorderSteps r (one s front l p back)
      → Move s l p t q
      → RecorderSteps r (one t front l q back)
  advance h m = step_on h (pick front back l refl m)

  from_totalled : (s : LatencyStats) → RecorderSteps r (one s front l totalled back) → Finishes
  from_totalled s h = elim (lt_or_le s.max_ms l) [
    | inl lt ↦ (record s { max_ms = l }, advance (advance h load) (swap lt refl))
    | inr le ↦ (s, advance (advance h load) (give_up le))
  ]

  from_loaded :
      (s : LatencyStats) (cur : ℕ) → RecorderSteps r (one s front l (loaded cur) back) → Finishes
  from_loaded s cur h = elim (lt_or_le cur l) [
    | inl lt ↦ elim (Bool-cases (s.max_ms == cur)) [
      | inl e ↦ (record s { max_ms = l }, advance h (swap lt (ground arith)))
      | inr e ↦ from_totalled s (advance h (retry lt (ground arith)))
    ]
    | inr le ↦ (s, advance h (give_up le))
  ]

  from_counted : (s : LatencyStats) → RecorderSteps r (one s front l counted back) → Finishes
  from_counted s h = from_totalled _ (advance h add_total)

  finish_call : (s : LatencyStats) (p : Pc) → RecorderSteps r (one s front l p back) → Finishes
  finish_call s entered h = from_counted _ (advance h add_count)
  finish_call s counted h = from_counted s h
  finish_call s totalled h = from_totalled s h
  finish_call s done h = (s, h)
  finish_call s (loaded cur) h = from_loaded s cur h

-- The calls after those that are done.
finish_all :
    {r : Recorder} (front back : List Call) (s : LatencyStats)
    → IsSettled front
    → RecorderSteps r (record { stats = s; calls = front ++ back })
    → (t : Recorder) × RecorderSteps r t × IsSettled t.calls
finish_all front [] s settled h =
    (record { stats = s; calls = front ++ [] }, h, subst IsSettled (sym (append-nil front)) settled)
finish_all {r} front (c ∷ back) s settled h =
    let (t, k) = finish_call r front back c.latency_ms s c.pc h in
    let d : Call = record { latency_ms = c.latency_ms; pc = done } in
    finish_all (front ++ d ∷ []) back t
      (All-append (λ (x : Call). x.pc ≡ done) front (d ∷ []) settled (refl, tt))
      (subst (λ cs. RecorderSteps r (record { stats = t; calls = cs }))
        (sym (append_assoc front (d ∷ []) back)) k)

RecorderSteps-RecorderReach :
    {ls : List ℕ} {r t : Recorder} → RecorderReach ls r → RecorderSteps r t → RecorderReach ls t
RecorderSteps-RecorderReach h stay = h
RecorderSteps-RecorderReach h (step_on k s) = later (RecorderSteps-RecorderReach h k) s

-- No call is stuck: from every state in which some calls are under way, steps of these calls lead on to
-- one in which all have returned, and there the count is the number of calls, the total the sum of their
-- latencies and the maximum the greatest of them.
pub RecorderReach-finishes :
    {ls : List ℕ} {r : Recorder}
    → RecorderReach ls r
    → (t : Recorder) × RecorderSteps r t
      × IsSettled t.calls
      × (t.stats.count ≡ length ls)
      × (t.stats.total_ms ≡ sum ls)
      × (t.stats.max_ms ≡ greatest ls)
RecorderReach-finishes {ls} {r} h =
    let (t, k, settled) = finish_all [] r.calls r.stats tt stay in
    let (counts, totals, high) = RecorderReach-settled (RecorderSteps-RecorderReach h k) settled in
    (t, k, settled, counts, totals, high)
