-- ===== src/Db/Closure/Distances.antt =====
-- What a build of the closure table in internal/db/closure.go commits.
use pincher_mcp.Prelude.{
  ℕ, ◌≤◌, ◌≡◌, ◌↔◌, refl, sym, Bool, true, false, List, [], ◌∷◌, none, some, arith, if◌then◌else◌,
  Bytes, str_eq, str_eq_iff, str_eq_refl, any, map, inl, inr, ◌⊎◌, subst, ok, fail, error, Atoi,
  number, syntax, range, atoi,
}
use mathlib.Core.Path.{fun_ext}
use pincher_mcp.Db.Closure.{
  Edge, ClosureRow, Adjacency, targets_of, read_edges, find, search_from, clamp_depth,
  closure_max_depth,
}
use pincher_mcp.Db.Closure.Build.{
  Faults, insert_or_ignore, delete_project, insert_rows, all_inserts, check, commit_table,
  scan_fails, build_closure, bad_depth,
}
use pincher_mcp.Db.Closure.Rounds.{depth_of}
use pincher_mcp.Db.Closure.Walks.{Walk, here, step, IsDistance}
use pincher_mcp.Db.Closure.Reached.{link_of}
use pincher_mcp.Db.Closure.Found.{search_from-IsDistance, search_from-rows}
use pincher_mcp.Db.Closure.Table.{depth_of-insert_rows, depth_of-delete_project}
use pincher_mcp.Db.Closure.Sources.{
  calls, link_of-read_edges, depth_of-all_inserts, depth_of-all_inserts_other,
}

abbrev pub keys : Adjacency → List Bytes
keys adj = map (λ e. e.0) adj

-- Go's iteration over a map gives its keys, in some order.
abbrev pub GivesKeys : (Adjacency → List Bytes) → Type 0
GivesKeys order =
    (adj : Adjacency) (u : Bytes) → any (str_eq u) (order adj) ≡ any (str_eq u) (keys adj)

link_of→key :
    (adj : Adjacency) (u v : Bytes) → link_of adj u v ≡ true → any (str_eq u) (keys adj) ≡ true
unfolding targets_of
link_of→key [] u v h = ground arith
link_of→key ((k, ts) ∷ adj) u v h =
    ground (arith, link_of→key adj u v, str_eq_iff k u, str_eq_iff u k)

Walk-first :
    (link : Bytes → Bytes → Bool) (a b : Bytes) (k : ℕ)
    → Walk link a k b
    → (a ≡ b) ⊎ ((v : Bytes) × (link a v ≡ true))
Walk-first link a b k here = inl refl
Walk-first link a b k (step {u} {v} w l) = elim (Walk-first link a u _ w) [
  | inl e ↦ inr (v, subst (λ x. link x v ≡ true) (sym e) l)
  | inr f ↦ inr f
]

-- The depth that the searches find for a pair.
all_inserts-IsDistance :
    (order : Adjacency → List Bytes) (p : Bytes) (adj : Adjacency) (m : ℕ) (a b : Bytes) (k : ℕ)
    → GivesKeys order
    → (depth_of p a b (all_inserts p adj m (order adj)) ≡ some k)
      ↔ (str_eq a b ≡ false) × (k ≤ m) × IsDistance (link_of adj) a k b
all_inserts-IsDistance order p adj m a b k gives = (to, back)
  where
    all : depth_of p a b (all_inserts p adj m (order adj)) ≡ (
        if any (str_eq a) (order adj) then depth_of p a b (search_from p a adj m).inserts else none)
    all = depth_of-all_inserts p a b adj m (order adj)

    to :
        depth_of p a b (all_inserts p adj m (order adj)) ≡ some k
        → (str_eq a b ≡ false) × (k ≤ m) × IsDistance (link_of adj) a k b
    to e =
        let marked : find b (search_from p a adj m).seen ≡ some k =
          ground (arith, all, search_from-rows p a adj m b) in
        let (h, d) = (search_from-IsDistance p a adj m b k).0 marked in
        (ground (arith, all, search_from-rows p a adj m b), h, d)

    back :
        (str_eq a b ≡ false) × (k ≤ m) × IsDistance (link_of adj) a k b
        → depth_of p a b (all_inserts p adj m (order adj)) ≡ some k
    back (ne, h, d) =
        let marked = (search_from-IsDistance p a adj m b k).1 (h, d) in
        elim (Walk-first (link_of adj) a b k d.0) [
          | inl e ↦ ground (arith, str_eq_iff a b)
          | inr (v, l) ↦
              ground (arith, all, search_from-rows p a adj m b, gives adj a, link_of→key adj a v l)
        ]

pub build_closure-ok :
    (faults : Faults) (order : Adjacency → List Bytes) (p : Bytes) (m : ℕ) (edges : List Edge)
    (table t : List ClosureRow)
    → build_closure faults order p m edges table ≡ ok t
    → insert_rows faults
        (all_inserts p (read_edges p edges []) m (order (read_edges p edges [])))
        (delete_project p table)
      ≡ some t
unfolding build_closure check commit_table
build_closure-ok faults order p m edges table t h = ground arith

-- The depth after a build: that of the searches within the project, and the old one elsewhere.
module _ (faults : Faults) (order : Adjacency → List Bytes) (p : Bytes) (m : ℕ) (edges : List Edge)
    (table t : List ClosureRow) (built : build_closure faults order p m edges table ≡ ok t) where
  abbrev adj : Adjacency
  adj = read_edges p edges []

  depth_of-built :
      (q a b : Bytes)
      → depth_of q a b t ≡ (
          if str_eq p q
          then depth_of p a b (all_inserts p adj m (order adj))
          else depth_of q a b table)
  depth_of-built q a b =
      let inserted =
        depth_of-insert_rows faults q a b (all_inserts p adj m (order adj)) (delete_project p table)
          t (build_closure-ok faults order p m edges table t built) in
      ground (
        arith,
        inserted,
        depth_of-delete_project p q a b table,
        depth_of-all_inserts_other p q a b adj m (order adj),
        str_eq_iff p q,
      )

  -- Where Go's iteration over a map gives its keys in some order, a table `closure` that
  -- `BuildClosure` commits has a row of depth k of its project from an id a to an id b exactly if
  -- a is not b, k is at most the greatest depth, and k is the number of edges on a shortest path
  -- from a to b along the CALLS, HTTP_CALLS and ASYNC_CALLS edges of the project; and the depths of
  -- all other projects are as they were.
  pub build_closure-IsDistance :
      GivesKeys order
      → ((a b : Bytes) (k : ℕ)
          → (depth_of p a b t ≡ some k)
            ↔ (str_eq a b ≡ false) × (k ≤ m) × IsDistance (calls p edges) a k b)
        × ((q a b : Bytes) → str_eq p q ≡ false → depth_of q a b t ≡ depth_of q a b table)
  build_closure-IsDistance gives = (
    λ a b k.
        let same : link_of adj ≡ calls p edges =
          fun_ext (λ u. fun_ext (λ v. link_of-read_edges p u v edges)) in
        let found : depth_of p a b t ≡ depth_of p a b (all_inserts p adj m (order adj)) =
          ground (arith, depth_of-built p a b, str_eq_refl p) in
        subst
          (λ link.
            (depth_of p a b t ≡ some k) ↔ (str_eq a b ≡ false) × (k ≤ m) × IsDistance link a k b)
          same (rw found (all_inserts-IsDistance order p adj m a b k gives)),
    λ q a b ne. ground (arith, depth_of-built q a b),
  )

-- No call of the driver fails.
pub record Healthy (faults : Faults) : Type 0 where
  pub query : faults.query ≡ false
  pub scan : (e : Edge) → faults.scan e ≡ false
  pub iter : faults.iter ≡ false
  pub begin : faults.begin ≡ false
  pub delete : faults.delete ≡ false
  pub prepare : faults.prepare ≡ false
  pub insert : (r : ClosureRow) → faults.insert r ≡ false
  pub close : faults.close ≡ false
  pub commit : faults.commit ≡ false

insert_rows-some :
    (faults : Faults)
    → Healthy faults
    → (rs table : List ClosureRow) → (t : List ClosureRow) × (insert_rows faults rs table ≡ some t)
unfolding insert_rows
insert_rows-some faults h [] table = (table, refl)
insert_rows-some faults h (r ∷ rs) table =
    let (t, e) = insert_rows-some faults h rs (insert_or_ignore r table) in
    (t, ground (arith, h.insert r))

scan_fails-false :
    (faults : Faults)
    → Healthy faults
    → (p : Bytes) (es : List Edge) → scan_fails faults p es ≡ false
unfolding scan_fails
scan_fails-false faults h p [] = refl
scan_fails-false faults h p (e ∷ es) = ground (arith, scan_fails-false faults h p es, h.scan e)

-- Where no call of the database driver fails, `BuildClosure` commits a table for a greatest depth of
-- 1 or more, and for 0 returns the error of a bad depth.
build_closure-commits :
    (faults : Faults) (order : Adjacency → List Bytes) (p : Bytes) (m : ℕ) (edges : List Edge)
    (table : List ClosureRow)
    → Healthy faults
    → (1 ≤ m → (t : List ClosureRow) × (build_closure faults order p m edges table ≡ ok t))
      × (m ≡ 0 → build_closure faults order p m edges table ≡ fail (error (bad_depth 0)))
unfolding build_closure check commit_table
build_closure-commits faults order p m edges table h =
    let adj = read_edges p edges [] in
    let (t, e) =
      insert_rows-some faults h (all_inserts p adj m (order adj)) (delete_project p table) in
    (λ le. (t, ground (arith, scan_fails-false faults h p edges)), λ z. ground arith)

clamp_depth_bounds : (r : Atoi) → (1 ≤ clamp_depth r) × (clamp_depth r ≤ 8)
unfolding clamp_depth
clamp_depth_bounds (number n) = ground arith
clamp_depth_bounds syntax = omega arith
clamp_depth_bounds range = omega arith

-- Whatever PINCHER_CLOSURE_MAX_DEPTH holds, the depth read from it is between 1 and 8.
pub closure_max_depth_bounds : (v : Bytes) → (1 ≤ closure_max_depth v) × (closure_max_depth v ≤ 8)
unfolding closure_max_depth
closure_max_depth_bounds [] = omega arith
closure_max_depth_bounds (c ∷ s) =
    ground (arith, clamp_depth_bounds (atoi s), clamp_depth_bounds (atoi (c ∷ s)))
