-- ===== src/Db/Closure/Reached.antt =====
-- The search from one source in internal/db/closure.go: what holds after each round.
use pincher_mcp.Prelude.{
  ℕ, suc, ◌≤◌, ◌≡◌, refl, Bool, true, List, [], ◌∷◌, none, some, arith, if◌then◌else◌, Bytes,
  str_eq, str_eq_iff, str_eq→eq, Bool-cases, Option-cases, lt_or_le, inl, inr, subst,
}
use pincher_mcp.Db.Closure.{
  Adjacency, targets_of, find, FrontierNode, Search, scan_frontier, first_search,
}
use pincher_mcp.Db.Closure.Rounds.{leads_to, queued, depth_of, Marks, follows, scan_frontier-Marks}
use pincher_mcp.Db.Closure.Walks.{Walk, here, step}

abbrev pub link_of : Adjacency → Bytes → Bytes → Bool
link_of adj u v = leads_to v (targets_of adj u)

module _ (project from : Bytes) (adj : Adjacency) where
  follows→queued :
      (v : Bytes) (us : List FrontierNode)
      → follows project from v adj us ≡ true
      → (u : Bytes) × (queued u us ≡ true) × (link_of adj u v ≡ true)
  follows→queued v [] h = ground arith
  follows→queued v (w ∷ us) h = elim (Bool-cases (link_of adj w.id v)) [
    | inl e ↦ (w.id, ground (arith, str_eq_iff w.id w.id), e)
    | inr e ↦ let (u, q, l) = follows→queued v us (ground arith) in (u, ground arith, l)
  ]

  queued→follows :
      (u v : Bytes) (us : List FrontierNode)
      → queued u us ≡ true
      → link_of adj u v ≡ true
      → follows project from v adj us ≡ true
  queued→follows u v [] q l = ground arith
  queued→follows u v (w ∷ us) q l = ground (arith, str_eq_iff w.id u, queued→follows u v us)

  abbrev pub Reaches : ℕ → Bytes → Type 0
  Reaches = Walk (link_of adj) from

  -- After the round of depth `m`.
  pub record Inv (m : ℕ) (s : Search) : Type 0 where
    pub sound : (v : Bytes) (k : ℕ) → find v s.seen ≡ some k → Reaches k v × (k ≤ m)
    pub complete :
        (v : Bytes) (k : ℕ) → Reaches k v → k ≤ m → (j : ℕ) × (find v s.seen ≡ some j) × (j ≤ k)
    pub waiting : (v : Bytes) → queued v s.next_frontier ≡ true → find v s.seen ≡ some m
    pub frontier : (v : Bytes) → find v s.seen ≡ some m → queued v s.next_frontier ≡ true
    pub rows :
        (v : Bytes)
        → depth_of project from v s.inserts ≡ (if str_eq from v then none else find v s.seen)

  Reaches-zero : (v : Bytes) (k : ℕ) → Reaches k v → k ≤ 0 → from ≡ v
  Reaches-zero v k here h = refl
  Reaches-zero v k (step w l) h = absurd (omega arith)

  pub Inv-first_search : Inv 0 (first_search project from)
  unfolding first_search find depth_of
  Inv-first_search = record {
    sound = λ v k e. elim (Bool-cases (str_eq from v)) [
      | inl h ↦
          let zero_k : 0 ≡ k = ground arith in
          (
            subst (Reaches k) (str_eq→eq from v h) (subst (λ i. Reaches i from) zero_k here),
            omega arith,
          )
      | inr h ↦ ground arith
    ];
    complete = λ v k w h. (0, ground (arith, str_eq_iff from v, Reaches-zero v k w h), omega arith);
    waiting = λ v q. ground arith;
    frontier = λ v e. ground arith;
    rows = λ v. ground arith;
  }

  -- One round, of the depth `suc m`.
  module _ (m : ℕ) (s : Search) (inv : Inv m s) where
    abbrev pub after : Search
    after = scan_frontier project from adj (suc m) s.next_frontier (record s { next_frontier = [] })

    abbrev found : Bytes → Bool
    found v = follows project from v adj s.next_frontier

    round :
        (v : Bytes) → Marks project from v (suc m) (found v) (record s { next_frontier = [] }) after
    round v =
        scan_frontier-Marks project from v adj (suc m) s.next_frontier
          (record s { next_frontier = [] })

    kept :
        (v : Bytes) (j b : ℕ)
        → find v s.seen ≡ some j
        → j ≤ b
        → (i : ℕ) × (find v after.seen ≡ some i) × (i ≤ b)
    kept v j b e h = (j, ground (arith, (round v).marked), h)

    source_mark : (i : ℕ) × (find from s.seen ≡ some i)
    source_mark = let (i, e, h) = inv.complete from 0 here (omega arith) in (i, e)

    after_sound : (v : Bytes) (k : ℕ) → find v after.seen ≡ some k → Reaches k v × (k ≤ suc m)
    after_sound v k e = elim (Option-cases (find v s.seen)) [
      | inl new ↦
          let hit : found v ≡ true = ground (arith, (round v).marked) in
          let depth : suc m ≡ k = ground (arith, (round v).marked) in
          let (u, q, l) = follows→queued v s.next_frontier hit in
          (subst (λ i. Reaches i v) depth (step (inv.sound u m (inv.waiting u q)).0 l), omega arith)
      | inr (j, old) ↦
          let same : find v s.seen ≡ some k = ground (arith, (round v).marked) in
          let (w, h) = inv.sound v k same in (w, omega arith)
    ]

    -- An id one link after a node of the frontier has a mark.
    beside :
        (v : Bytes) (b : ℕ)
        → found v ≡ true
        → m ≤ b
        → (i : ℕ) × (find v after.seen ≡ some i) × (i ≤ suc b)
    beside v b hit h = elim (Option-cases (find v s.seen)) [
      | inl new ↦ (suc m, ground (arith, (round v).marked), omega arith)
      | inr (j, old) ↦ kept v j (suc b) old (omega (arith, (inv.sound v j old).1))
    ]

    after_complete :
        (v : Bytes) (k : ℕ)
        → Reaches k v
        → k ≤ suc m
        → (j : ℕ) × (find v after.seen ≡ some j) × (j ≤ k)
    after_complete v k here h =
        let (j, e, b) = inv.complete from 0 here (omega arith) in kept from j 0 e b
    after_complete v k (step {n} {u} w l) h =
        let (j, e, b) = inv.complete u n w (omega arith) in
        elim (lt_or_le j m) [
          | inl lt ↦
              let (i, e', b') = inv.complete v (suc j) (step (inv.sound u j e).0 l) lt in
              kept v i (suc n) e' (omega arith)
          | inr le ↦
              let last : find u s.seen ≡ some m = ground (arith, (inv.sound u j e).1) in
              beside v n (queued→follows u v s.next_frontier (inv.frontier u last) l) (omega arith)
        ]

    pub Inv-round : Inv (suc m) after
    Inv-round = record {
      sound = after_sound;
      complete = after_complete;
      waiting = λ v q. ground (arith, (round v).marked, (round v).waiting);
      frontier = λ v e. ground (arith, (round v).marked, (round v).waiting, inv.sound v (suc m));
      rows = λ v.
          ground
            (arith, (round v).marked, (round v).row, inv.rows v, str_eq_iff from v, source_mark.1);
    }
