-- ===== src/Db/Closure/Found.antt =====
-- The whole search from one source in internal/db/closure.go, its early end with an empty frontier
-- included.
use pincher_mcp.Prelude.{
  ℕ, zero, suc, ◌+◌, ◌≤◌, ◌≡◌, ◌↔◌, sym, List, [], ◌∷◌, none, some, arith, if◌then◌else◌, Bytes,
  str_eq, List-cases, lt_or_le, inl, inr, subst,
}
use pincher_mcp.Db.Closure.{
  Adjacency, find, FrontierNode, Search, scan_frontier, levels, first_search, search_from,
}
use pincher_mcp.Db.Closure.Rounds.{depth_of}
use pincher_mcp.Db.Closure.Walks.{Walk, here, step, IsDistance}
use pincher_mcp.Db.Closure.Reached.{link_of, Inv, Inv-first_search, after, Inv-round}

module _ (project from : Bytes) (adj : Adjacency) where
  -- What the search ends with: the ids within the depth, with their distances.
  pub record Post (m : ℕ) (s : Search) : Type 0 where
    pub sound : (v : Bytes) (k : ℕ) → find v s.seen ≡ some k → Walk (link_of adj) from k v × (k ≤ m)
    pub complete :
        (v : Bytes) (k : ℕ)
        → Walk (link_of adj) from k v
        → k ≤ m
        → (j : ℕ) × (find v s.seen ≡ some j) × (j ≤ k)
    pub rows :
        (v : Bytes)
        → depth_of project from v s.inserts ≡ (if str_eq from v then none else find v s.seen)

  -- With an empty frontier no walk leads to an id without a mark.
  closed :
      (m : ℕ) (s : Search)
      → Inv project from adj m s
      → s.next_frontier ≡ []
      → (v : Bytes) (k : ℕ) → Walk (link_of adj) from k v
      → (j : ℕ) × (find v s.seen ≡ some j) × (j ≤ k)
  closed m s inv e v k here = inv.complete from 0 here (omega arith)
  closed m s inv e v k (step {n} {u} w l) =
      let (j, f, b) = closed m s inv e u n w in
      elim (lt_or_le j m) [
        | inl lt ↦
            let (i, e', b') = inv.complete v (suc j) (step (inv.sound u j f).0 l) lt in
            (i, e', omega arith)
        | inr le ↦
            let last : find u s.seen ≡ some m = ground (arith, (inv.sound u j f).1) in
            ground (arith, inv.frontier u last)
      ]

  pub levels-nil :
      (rounds d : ℕ) (s : Search)
      → s.next_frontier ≡ []
      → levels project from adj (suc rounds) d s ≡ s
  unfolding levels
  levels-nil rounds d s e = simp (e, levels)

  pub levels-cons :
      (rounds d : ℕ) (s : Search) (u : FrontierNode) (us : List FrontierNode)
      → s.next_frontier ≡ u ∷ us
      → levels project from adj (suc rounds) d s
        ≡ levels project from adj rounds
            (suc d)
            (scan_frontier project from adj d s.next_frontier (record s { next_frontier = [] }))
  unfolding levels
  levels-cons rounds d s u us e = simp (e, levels)

  levels-Post :
      (rounds m : ℕ) (s : Search)
      → Inv project from adj m s
      → Post (m + rounds) (levels project from adj rounds (suc m) s)
  unfolding levels
  levels-Post zero m s inv =
      let post : Post m s = record {
        sound = inv.sound;
        complete = inv.complete;
        rows = inv.rows;
      } in
      subst (λ i. Post i s) (omega arith) post
  levels-Post (suc rounds) m s inv = elim (List-cases s.next_frontier) [
    | inl e ↦
        let post : Post (m + suc rounds) s = record {
          sound = λ v k f. let (w, h) = inv.sound v k f in (w, omega arith);
          complete = λ v k w h. closed m s inv e v k w;
          rows = inv.rows;
        } in
        subst (Post (m + suc rounds)) (sym (levels-nil rounds (suc m) s e)) post
    | inr (u, us, e) ↦
        let post =
          levels-Post rounds (suc m) (after project from adj m s inv)
            (Inv-round project from adj m s inv) in
        let same : suc m + rounds ≡ m + suc rounds = omega arith in
        let moved =
          subst
            (λ i.
              Post i
                (levels project from adj rounds (suc (suc m)) (after project from adj m s inv)))
            same post in
        subst (Post (m + suc rounds)) (sym (levels-cons rounds (suc m) s u us e)) moved
  ]

  -- The search marks an id with a depth exactly if that is its distance from the source, within the
  -- greatest depth.
  pub search_from-IsDistance :
      (max_depth : ℕ) (v : Bytes) (k : ℕ)
      → (find v (search_from project from adj max_depth).seen ≡ some k)
        ↔ (k ≤ max_depth) × IsDistance (link_of adj) from k v
  unfolding search_from
  search_from-IsDistance max_depth v k = (to, back)
    where
      s : Search
      s = levels project from adj max_depth 1 (first_search project from)

      post : Post max_depth s
      post =
          subst (λ i. Post i s) (omega arith)
            (levels-Post max_depth 0 (first_search project from)
              (Inv-first_search project from adj))

      to : find v s.seen ≡ some k → (k ≤ max_depth) × IsDistance (link_of adj) from k v
      to e =
          let (w, h) = post.sound v k e in
          (
            h,
            (
              w,
              λ n w'. elim (lt_or_le n k) [
                | inl lt ↦ let (j, f, b) = post.complete v n w' (omega arith) in ground arith
                | inr le ↦ le
              ],
            ),
          )

      back : (k ≤ max_depth) × IsDistance (link_of adj) from k v → find v s.seen ≡ some k
      back (h, (w, least)) =
          let (j, f, b) = post.complete v k w h in ground (arith, least j (post.sound v j f).0)

  -- The rows of the search stand for the marked ids but the source.
  pub search_from-rows :
      (max_depth : ℕ) (v : Bytes)
      → depth_of project from v (search_from project from adj max_depth).inserts
        ≡ (if str_eq from v then none else find v (search_from project from adj max_depth).seen)
  unfolding search_from
  search_from-rows max_depth v =
      (levels-Post max_depth 0 (first_search project from) (Inv-first_search project from adj)).rows
        v
