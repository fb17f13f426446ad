-- ===== src/Db/Closure/Sources.antt =====
-- The adjacency lists of internal/db/closure.go against the table `edges`, and the rows that the
-- searches from all sources insert.
use pincher_mcp.Prelude.{
  ℕ, zero, suc, ◌≡◌, refl, sym, Bool, false, ◌&&◌, ◌||◌, List, [], ◌∷◌, ◌++◌, none, arith,
  if◌then◌else◌, Bytes, str_eq, str_eq_iff, str_eq_refl, any, Bool-cases, inl, inr, ap, subst,
  List-cases, str_eq→eq,
}
use pincher_mcp.Db.Closure.{
  Edge, Target, Adjacency, add_edge, targets_of, read_edges, is_traced, FrontierNode, Search, visit,
  visit_all, scan_frontier, levels, first_search, search_from,
}
use pincher_mcp.Db.Closure.Build.{row_is, all_inserts}
use pincher_mcp.Db.Closure.Rounds.{leads_to, depth_of, depth_of-append}
use pincher_mcp.Db.Closure.Reached.{link_of}
use pincher_mcp.Db.Closure.Found.{levels-nil, levels-cons}

-- Some edge of the project that is followed goes from `u` to `v`.
unfoldable pub calls : Bytes → List Edge → Bytes → Bytes → Bool
calls project [] u v = false
calls project (e ∷ es) u v =
    is_traced project e && str_eq e.from_id u && str_eq e.to_id v || calls project es u v

leads_to-append :
    (v : Bytes) (xs ys : List Target) → leads_to v (xs ++ ys) ≡ (leads_to v xs || leads_to v ys)
leads_to-append v [] ys = refl
leads_to-append v (x ∷ xs) ys = ground (arith, leads_to-append v xs ys)

link_of-add_edge :
    (from u v : Bytes) (t : Target) (adj : Adjacency)
    → link_of (add_edge from t adj) u v ≡ (link_of adj u v || str_eq from u && str_eq t.to v)
unfolding add_edge targets_of
link_of-add_edge from u v t [] = ground arith
link_of-add_edge from u v t ((k, ts) ∷ adj) = ground (
  arith,
  link_of-add_edge from u v t adj,
  leads_to-append v ts (t ∷ []),
  str_eq_iff k from,
  str_eq_iff k u,
  str_eq_iff from u,
)

link_of-read_edges_from :
    (project u v : Bytes) (es : List Edge) (adj : Adjacency)
    → link_of (read_edges project es adj) u v ≡ (link_of adj u v || calls project es u v)
unfolding read_edges calls
link_of-read_edges_from project u v [] adj = ground arith
link_of-read_edges_from project u v (e ∷ es) adj = ground (
  arith,
  link_of-read_edges_from project u v es adj,
  link_of-read_edges_from project u v es
      (add_edge e.from_id (record { to = e.to_id; kind = e.kind }) adj),
  link_of-add_edge e.from_id u v (record { to = e.to_id; kind = e.kind }) adj,
)

pub link_of-read_edges :
    (project u v : Bytes) (es : List Edge)
    → link_of (read_edges project es []) u v ≡ calls project es u v
unfolding targets_of
link_of-read_edges project u v es = link_of-read_edges_from project u v es []

-- The search from another source, or for another project, inserts no row for the pair.
module _ (project from q a b : Bytes) (other : (str_eq project q && str_eq from a) ≡ false) where
  abbrev IsSilent : Search → Type 0
  IsSilent s = depth_of q a b s.inserts ≡ none

  visit-IsSilent :
      (d : ℕ) (e : Target) (s : Search) → IsSilent s → IsSilent (visit project from d e s)
  unfolding visit depth_of row_is
  visit-IsSilent d e s h = ground (
    arith,
    depth_of-append q a b s.inserts (
        record { project_id = project; from_id = from; to_id = e.to; depth = d; via_kind = e.kind }
        ∷ []),
  )

  visit_all-IsSilent :
      (d : ℕ) (es : List Target) (s : Search)
      → IsSilent s
      → IsSilent (visit_all project from d es s)
  unfolding visit_all
  visit_all-IsSilent d [] s h = h
  visit_all-IsSilent d (e ∷ es) s h =
      visit_all-IsSilent d es (visit project from d e s) (visit-IsSilent d e s h)

  scan_frontier-IsSilent :
      (adj : Adjacency) (d : ℕ) (us : List FrontierNode) (s : Search)
      → IsSilent s
      → IsSilent (scan_frontier project from adj d us s)
  unfolding scan_frontier
  scan_frontier-IsSilent adj d [] s h = h
  scan_frontier-IsSilent adj d (u ∷ us) s h =
      scan_frontier-IsSilent adj d us (visit_all project from d (targets_of adj u.id) s)
        (visit_all-IsSilent d (targets_of adj u.id) s h)

  levels-IsSilent :
      (adj : Adjacency) (rounds d : ℕ) (s : Search)
      → IsSilent s
      → IsSilent (levels project from adj rounds d s)
  unfolding levels
  levels-IsSilent adj zero d s h = h
  levels-IsSilent adj (suc rounds) d s h = elim (List-cases s.next_frontier) [
    | inl e ↦ subst IsSilent (sym (levels-nil project from adj rounds d s e)) h
    | inr (u, us, e) ↦
        let s' =
          scan_frontier project from adj d s.next_frontier (record s { next_frontier = [] }) in
        subst IsSilent (sym (levels-cons project from adj rounds d s u us e)) (
          levels-IsSilent adj rounds (suc d) s'
            (scan_frontier-IsSilent adj d s.next_frontier (record s { next_frontier = [] }) h))
  ]

  search_from-IsSilent : (adj : Adjacency) (m : ℕ) → IsSilent (search_from project from adj m)
  unfolding search_from depth_of first_search
  search_from-IsSilent adj m = levels-IsSilent adj m 1 (first_search project from) refl

-- What the searches insert for a pair comes from the search of its source.
pub depth_of-all_inserts :
    (p a b : Bytes) (adj : Adjacency) (m : ℕ) (sources : List Bytes)
    → depth_of p a b (all_inserts p adj m sources)
      ≡ (if any (str_eq a) sources then depth_of p a b (search_from p a adj m).inserts else none)
unfolding all_inserts depth_of
depth_of-all_inserts p a b adj m [] = refl
depth_of-all_inserts p a b adj m (from ∷ sources) =
    let own = λ (x : Bytes). depth_of p a b (search_from p x adj m).inserts in
    let split =
      depth_of-append p a b (search_from p from adj m).inserts (all_inserts p adj m sources) in
    let later = depth_of-all_inserts p a b adj m sources in
    elim (Bool-cases (str_eq a from)) [
      | inl e ↦ ground (arith, split, later, ap own (sym (str_eq→eq a from e)))
      | inr e ↦
          let apart : str_eq from a ≡ false = ground (arith, str_eq_iff from a, str_eq_refl a) in
          ground (arith, split, later, search_from-IsSilent p from p a b (ground arith) adj m)
    ]

pub depth_of-all_inserts_other :
    (p q a b : Bytes) (adj : Adjacency) (m : ℕ) (sources : List Bytes)
    → str_eq p q ≡ false
    → depth_of q a b (all_inserts p adj m sources) ≡ none
unfolding all_inserts depth_of
depth_of-all_inserts_other p q a b adj m [] h = refl
depth_of-all_inserts_other p q a b adj m (from ∷ sources) h = ground (
  arith,
  depth_of-all_inserts_other p q a b adj m sources,
  depth_of-append q a b (search_from p from adj m).inserts (all_inserts p adj m sources),
  search_from-IsSilent p from q a b (ground arith) adj m,
)
