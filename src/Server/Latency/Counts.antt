-- ===== src/Server/Latency/Counts.antt =====
-- The counts of internal/server/tool_latency.go after all calls, in every interleaving.
use pincher_mcp.Prelude.{
  ℕ, ◌+◌, ◌≤◌, ◌≡◌, refl, sym, ap, ◌∙◌, List, [], ◌∷◌, ◌++◌, arith, ltb, if◌then◌else◌, length, All,
  subst, map,
}
use pincher_mcp.Server.Latency.{
  LatencyStats, Pc, entered, counted, totalled, done, loaded, Call, Move, add_count, add_total,
  load, give_up, swap, retry, Recorder, RecorderStep, pick, enter, no_stats, RecorderReach, begin,
  later,
}

-- What a call has added so far.
abbrev added_count : Call → ℕ
added_count c = elim c.pc [ entered ↦ 0 | counted ↦ 1 | totalled ↦ 1 | done ↦ 1 | loaded n ↦ 1 ]

abbrev added_total : Call → ℕ
added_total c = elim c.pc [
  | entered ↦ 0
  | counted ↦ 0
  | totalled ↦ c.latency_ms
  | done ↦ c.latency_ms
  | loaded n ↦ c.latency_ms
]

-- A call that has loaded a value has loaded no more than the maximum, and one that is done is counted in it.
abbrev IsFresh : ℕ → Call → Type 0
IsFresh max c = elim c.pc [
  | entered ↦ Unit
  | counted ↦ Unit
  | totalled ↦ Unit
  | done ↦ c.latency_ms ≤ max
  | loaded n ↦ n ≤ max
]

sum_of : {A : Type 0} → (A → ℕ) → List A → ℕ
sum_of w [] = 0
sum_of w (x ∷ xs) = w x + sum_of w xs

-- The sum and the greatest of some latencies, 0 for none.
unfoldable pub sum : List ℕ → ℕ
sum [] = 0
sum (l ∷ ls) = l + sum ls

unfoldable pub greatest : List ℕ → ℕ
greatest [] = 0
greatest (l ∷ ls) = let rest = greatest ls in if ltb l rest then rest else l

abbrev pub latencies : List Call → List ℕ
latencies cs = map (λ (c : Call). c.latency_ms) cs

sum_of-split :
    {A : Type 0} (w : A → ℕ) (xs : List A) (x : A) (ys : List A)
    → sum_of w (xs ++ x ∷ ys) ≡ w x + (sum_of w xs + sum_of w ys)
unfolding sum_of
sum_of-split w [] x ys = omega arith
sum_of-split w (y ∷ xs) x ys = omega (arith, sum_of-split w xs x ys)

latencies-same :
    (front back : List Call) (c d : Call)
    → c.latency_ms ≡ d.latency_ms
    → latencies (front ++ c ∷ back) ≡ latencies (front ++ d ∷ back)
latencies-same [] back c d h = ap (λ l. l ∷ latencies back) h
latencies-same (x ∷ front) back c d h = ap (◌∷◌ x.latency_ms) (latencies-same front back c d h)

IsFresh-le : (m n : ℕ) (c : Call) → m ≤ n → IsFresh m c → IsFresh n c
IsFresh-le m n c h f = go c.pc f
  where
    go : (p : Pc) → IsFresh m (record c { pc = p }) → IsFresh n (record c { pc = p })
    go entered g = tt
    go counted g = tt
    go totalled g = tt
    go done g = omega (arith, g, h)
    go (loaded k) g = omega (arith, g, h)

-- One call changes, and the maximum grows.
All-changed :
    (m n : ℕ) (front back : List Call) (c d : Call)
    → m ≤ n
    → (IsFresh m c → IsFresh n d)
    → All (IsFresh m) (front ++ c ∷ back)
    → All (IsFresh n) (front ++ d ∷ back)
All-changed m n [] [] c d h g (f, fs) = (g f, tt)
All-changed m n [] (x ∷ back) c d h g (f, (e, es)) =
    let (same, rest) = All-changed m n [] back c d h g (f, es) in
    (same, (IsFresh-le m n x h e, rest))
All-changed m n (x ∷ front) back c d h g (f, fs) =
    (IsFresh-le m n x h f, All-changed m n front back c d h g fs)

le_greatest :
    (front back : List Call) (c : Call) → c.latency_ms ≤ greatest (latencies (front ++ c ∷ back))
unfolding greatest
le_greatest [] back c = ground arith
le_greatest (x ∷ front) back c = ground (arith, le_greatest front back c)

record Inv (ls : List ℕ) (r : Recorder) : Type 0 where
  who : latencies r.calls ≡ ls
  counts : r.stats.count ≡ sum_of added_count r.calls
  totals : r.stats.total_ms ≡ sum_of added_total r.calls
  fresh : All (IsFresh r.stats.max_ms) r.calls
  below : r.stats.max_ms ≤ greatest ls

-- What one operation of one call does to the sums, the maximum and the call itself.
record Moved (s t : LatencyStats) (l : ℕ) (p q : Pc) : Type 0 where
  count_by :
      t.count + added_count (record { latency_ms = l; pc = p })
      ≡ s.count + added_count (record { latency_ms = l; pc = q })
  total_by :
      t.total_ms + added_total (record { latency_ms = l; pc = p })
      ≡ s.total_ms + added_total (record { latency_ms = l; pc = q })
  grows : s.max_ms ≤ t.max_ms
  stays :
      IsFresh s.max_ms (record { latency_ms = l; pc = p })
      → IsFresh t.max_ms (record { latency_ms = l; pc = q })
  no_more : (g : ℕ) → l ≤ g → s.max_ms ≤ g → t.max_ms ≤ g

Move-Moved :
    {s : LatencyStats} {l : ℕ} {p : Pc} {t : LatencyStats} {q : Pc}
    → Move s l p t q
    → Moved s t l p q
Move-Moved add_count = record {
  count_by = omega arith;
  total_by = omega arith;
  grows = omega arith;
  stays = λ h. tt;
  no_more = λ g h k. k;
}
Move-Moved add_total = record {
  count_by = omega arith;
  total_by = omega arith;
  grows = omega arith;
  stays = λ h. tt;
  no_more = λ g h k. k;
}
Move-Moved load = record {
  count_by = omega arith;
  total_by = omega arith;
  grows = omega arith;
  stays = λ h. omega arith;
  no_more = λ g h k. k;
}
Move-Moved (give_up le) = record {
  count_by = omega arith;
  total_by = omega arith;
  grows = omega arith;
  stays = λ h. omega (arith, h, le);
  no_more = λ g h k. k;
}
Move-Moved (swap lt e) = record {
  count_by = omega arith;
  total_by = omega arith;
  grows = omega (arith, lt, e);
  stays = λ h. omega arith;
  no_more = λ g h k. h;
}
Move-Moved (retry lt ne) = record {
  count_by = omega arith;
  total_by = omega arith;
  grows = omega arith;
  stays = λ h. tt;
  no_more = λ g h k. k;
}

RecorderStep-Inv : {ls : List ℕ} {r t : Recorder} → RecorderStep r t → Inv ls r → Inv ls t
RecorderStep-Inv {ls} {r} (pick front back l {p} {q} {s} e mv) inv =
    let c : Call = record { latency_ms = l; pc = p } in
    let d : Call = record { latency_ms = l; pc = q } in
    let m = Move-Moved mv in
    record {
      who = latencies-same front back d c refl ∙ ap latencies (sym e) ∙ inv.who;
      counts = omega (
        arith,
        inv.counts,
        m.count_by,
        ap (sum_of added_count) e,
        sum_of-split added_count front c back,
        sum_of-split added_count front d back,
      );
      totals = omega (
        arith,
        inv.totals,
        m.total_by,
        ap (sum_of added_total) e,
        sum_of-split added_total front c back,
        sum_of-split added_total front d back,
      );
      fresh =
          All-changed r.stats.max_ms s.max_ms front back c d m.grows m.stays
            (subst (All (IsFresh r.stats.max_ms)) e inv.fresh);
      below =
          m.no_more (greatest ls)
            (omega (arith, le_greatest front back c, ap greatest (ap latencies (sym e) ∙ inv.who)))
            inv.below;
    }

enter-Inv : (ls : List ℕ) → Inv ls (record { stats = no_stats; calls = enter ls })
unfolding enter sum_of
enter-Inv [] = record { who = refl; counts = refl; totals = refl; fresh = tt; below = omega arith }
enter-Inv (l ∷ ls) =
    let inv = enter-Inv ls in
    record {
      who = ap (◌∷◌ l) inv.who;
      counts = omega (arith, inv.counts);
      totals = omega (arith, inv.totals);
      fresh = (tt, inv.fresh);
      below = omega arith;
    }

RecorderReach-Inv : {ls : List ℕ} {r : Recorder} → RecorderReach ls r → Inv ls r
RecorderReach-Inv {ls} begin = enter-Inv ls
RecorderReach-Inv (later h s) = RecorderStep-Inv s (RecorderReach-Inv h)

-- Every call has returned.
abbrev pub IsSettled : List Call → Type 0
IsSettled cs = All (λ (c : Call). c.pc ≡ done) cs

settled :
    (max : ℕ) (cs : List Call)
    → IsSettled cs
    → All (IsFresh max) cs
    → (sum_of added_count cs ≡ length (latencies cs))
      × (sum_of added_total cs ≡ sum (latencies cs))
      × (greatest (latencies cs) ≤ max)
unfolding sum_of sum greatest
settled max [] h f = (refl, refl, omega arith)
settled max (c ∷ cs) (h, hs) (f, fs) =
    let (counts, totals, high) = settled max cs hs fs in
    let one : added_count c ≡ 1 = ap (λ p. added_count (record c { pc = p })) h in
    let all : added_total c ≡ c.latency_ms = ap (λ p. added_total (record c { pc = p })) h in
    let low : c.latency_ms ≤ max = subst (λ p. IsFresh max (record c { pc = p })) h f in
    (omega (arith, counts, one), omega (arith, totals, all), ground (arith, low, high))

-- When all calls have returned, in whatever order their atomic operations happened: the count is the number
-- of calls, the total the sum of their latencies, and the maximum the greatest of them. No call is lost.
pub RecorderReach-settled :
    {ls : List ℕ} {r : Recorder}
    → RecorderReach ls r
    → IsSettled r.calls
    → (r.stats.count ≡ length ls) × (r.stats.total_ms ≡ sum ls) × (r.stats.max_ms ≡ greatest ls)
RecorderReach-settled {ls} {r} h done_all =
    let inv = RecorderReach-Inv h in
    let (counts, totals, high) = settled r.stats.max_ms r.calls done_all inv.fresh in
    (
      omega (arith, inv.counts, counts, ap length inv.who),
      omega (arith, inv.totals, totals, ap sum inv.who),
      omega (arith, inv.below, high, ap greatest inv.who),
    )
