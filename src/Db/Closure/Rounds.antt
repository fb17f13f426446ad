-- ===== src/Db/Closure/Rounds.antt =====
-- One round of the search of internal/db/closure.go: what it marks, queues and inserts.
use pincher_mcp.Prelude.{
  ℕ, ◌≡◌, refl, Bool, true, false, ◌&&◌, ◌||◌, List, [], ◌∷◌, ◌++◌, Option, none, some, arith,
  if◌then◌else◌, Bytes, str_eq, str_eq_iff, str_eq_refl,
}
use pincher_mcp.Db.Closure.Build.{row_is}
use pincher_mcp.Db.Closure.{
  ClosureRow, Target, Adjacency, targets_of, find, is_none, FrontierNode, Search, visit, visit_all,
  scan_frontier,
}

-- The first of two that is there.
abbrev pub or_else {ℓ} : {A : Type ℓ} → Option A → Option A → Option A
or_else (some a) o = some a
or_else none o = o

abbrev pub when {ℓ} : {A : Type ℓ} → Bool → A → Option A
when true a = some a
when false a = none

abbrev pub leads_to : Bytes → List Target → Bool
leads_to v [] = false
leads_to v (e ∷ es) = str_eq e.to v || leads_to v es

abbrev pub queued : Bytes → List FrontierNode → Bool
queued v [] = false
queued v (u ∷ us) = str_eq u.id v || queued v us

pub queued-append :
    (v : Bytes) (us ws : List FrontierNode) → queued v (us ++ ws) ≡ (queued v us || queued v ws)
queued-append v [] ws = refl
queued-append v (u ∷ us) ws = ground (arith, queued-append v us ws)

-- The depth in the first row for the pair of ids, in the project.
unfoldable pub depth_of : Bytes → Bytes → Bytes → List ClosureRow → Option ℕ
depth_of p a b [] = none
depth_of p a b (r ∷ rs) = if row_is p a b r then some r.depth else depth_of p a b rs

pub depth_of-append :
    (p a b : Bytes) (rs qs : List ClosureRow)
    → depth_of p a b (rs ++ qs) ≡ or_else (depth_of p a b rs) (depth_of p a b qs)
unfolding depth_of
depth_of-append p a b [] qs = refl
depth_of-append p a b (r ∷ rs) qs = ground (arith, depth_of-append p a b rs qs)

abbrev row_to : Bytes → Bytes → ℕ → Target → ClosureRow
row_to project from d e = record {
  project_id = project;
  from_id = from;
  to_id = e.to;
  depth = d;
  via_kind = e.kind;
}

module _ (project from v : Bytes) where
  -- What a search says of `v`: its mark, whether it waits in the new frontier, and the depth of the
  -- row that was inserted for it.
  abbrev pub mark : Search → Option ℕ
  mark s = find v s.seen

  abbrev pub waits : Search → Bool
  waits s = queued v s.next_frontier

  abbrev pub inserted : Search → Option ℕ
  inserted s = depth_of project from v s.inserts

  -- `t` comes from `s` by a look at edges of which one leads to `v` if `hit` says so.
  pub record Marks (d : ℕ) (hit : Bool) (s t : Search) : Type 0 where
    pub marked : mark t ≡ or_else (mark s) (when hit d)
    pub waiting : waits t ≡ (waits s || is_none (mark s) && hit)
    pub row : inserted t ≡ or_else (inserted s) (when (is_none (mark s) && hit) d)

  visit-Marks :
      (d : ℕ) (e : Target) (s : Search) → Marks d (str_eq e.to v) s (visit project from d e s)
  unfolding visit find depth_of row_is
  visit-Marks d e s = record {
    marked = ground (arith, str_eq_iff e.to v);
    waiting = ground (
      arith,
      str_eq_iff e.to v,
      queued-append v s.next_frontier (record { id = e.to; kind = e.kind } ∷ []),
    );
    row = ground (
      arith,
      str_eq_iff e.to v,
      str_eq_refl project,
      str_eq_refl from,
      depth_of-append project from v s.inserts (row_to project from d e ∷ []),
    );
  }

  Marks-none : (d : ℕ) (s : Search) → Marks d false s s
  Marks-none d s = ground arith

  Marks-or :
      (d : ℕ) (a b : Bool) (s t u : Search) → Marks d a s t → Marks d b t u → Marks d (a || b) s u
  Marks-or d a b s t u m n = ground arith

  visit_all-Marks :
      (d : ℕ) (es : List Target) (s : Search)
      → Marks d (leads_to v es) s (visit_all project from d es s)
  unfolding visit_all
  visit_all-Marks d [] s = Marks-none d s
  visit_all-Marks d (e ∷ es) s =
      let s' = visit project from d e s in
      Marks-or d (str_eq e.to v) (leads_to v es) s s' (visit_all project from d es s')
        (visit-Marks d e s) (visit_all-Marks d es s')

  -- Some node of the frontier has an edge to `v`.
  abbrev pub follows : Adjacency → List FrontierNode → Bool
  follows adj [] = false
  follows adj (u ∷ us) = leads_to v (targets_of adj u.id) || follows adj us

  pub scan_frontier-Marks :
      (adj : Adjacency) (d : ℕ) (us : List FrontierNode) (s : Search)
      → Marks d (follows adj us) s (scan_frontier project from adj d us s)
  unfolding scan_frontier
  scan_frontier-Marks adj d [] s = Marks-none d s
  scan_frontier-Marks adj d (u ∷ us) s =
      let s' = visit_all project from d (targets_of adj u.id) s in
      Marks-or d (leads_to v (targets_of adj u.id)) (follows adj us) s s'
        (scan_frontier project from adj d us s') (visit_all-Marks d (targets_of adj u.id) s)
        (scan_frontier-Marks adj d us s')
