-- ===== src/Db/Closure.antt =====
-- The transitive closure table of internal/db/closure.go: its build by breadth-first search, its
-- limits from the environment, and the trace that reads it.
pub mod Rounds
pub mod Walks
pub mod Reached
pub mod Found
pub mod Build
pub mod Table
pub mod Sources
pub mod Distances
pub mod Keys
pub mod Trace
pub mod Traced
use pincher_mcp.Prelude.{
  ℕ, zero, suc, ◌≡◌, refl, Bool, true, false, ◌&&◌, ◌||◌, List, [], ◌∷◌, ◌++◌, Option, none, some,
  if◌then◌else◌, ltb, leb, ◌==◌, Bytes, codes, is, str_eq, one_of, is_empty, length, any, Atoi,
  number, syntax, range, atoi, Failure, error, Result, ok, fail,
}

-- `ClosureEnabled`, on the value of PINCHER_CLOSURE_TABLES
unfoldable pub closure_enabled : Bytes → Bool
unfolding str_eq
closure_enabled v = is v "1" || is v "true" || is v "TRUE"

abbrev pub default_closure_depth : ℕ
default_closure_depth = 3

unfoldable pub clamp_depth : Atoi → ℕ
clamp_depth (number n) = if ltb n 1 then default_closure_depth else if ltb 8 n then 8 else n
clamp_depth syntax = default_closure_depth
clamp_depth range = default_closure_depth

-- `ClosureMaxDepth`, on the value of PINCHER_CLOSURE_MAX_DEPTH. `strconv.Atoi` reads a sign, and what
-- it reads after a minus is below 1 or an error.
unfoldable pub closure_max_depth : Bytes → ℕ
unfolding clamp_depth
closure_max_depth [] = default_closure_depth
closure_max_depth (c ∷ s) =
    if c == b'+'
    then clamp_depth (atoi s)
    else if c == b'-'
    then default_closure_depth
    else clamp_depth (atoi (c ∷ s))

-- A row of the table `edges`.
pub record Edge : Type 0 where
  pub project_id : Bytes
  pub from_id : Bytes
  pub to_id : Bytes
  pub kind : Bytes

-- A row of the table `closure`.
pub record ClosureRow : Type 0 where
  pub project_id : Bytes
  pub from_id : Bytes
  pub to_id : Bytes
  pub depth : ℕ
  pub via_kind : Bytes

-- The local type `edge`: where an edge leads.
pub record Target : Type 0 where
  pub to : Bytes
  pub kind : Bytes

-- `map[string][]edge`
abbrev pub Adjacency : Type 0
Adjacency = List (Bytes × List Target)

-- `adj[from] = append(adj[from], t)`
unfoldable pub add_edge : Bytes → Target → Adjacency → Adjacency
add_edge from t [] = (from, t ∷ []) ∷ []
add_edge from t ((k, ts) ∷ adj) =
    if str_eq k from then (k, ts ++ t ∷ []) ∷ adj else (k, ts) ∷ add_edge from t adj

-- `adj[u]`
unfoldable pub targets_of : Adjacency → Bytes → List Target
targets_of [] u = []
targets_of ((k, ts) ∷ adj) u = if str_eq k u then ts else targets_of adj u

-- The WHERE of the SELECT on `edges`.
unfoldable pub is_traced : Bytes → Edge → Bool
unfolding str_eq one_of
is_traced project e =
    str_eq e.project_id project && one_of e.kind ("CALLS" ∷ "HTTP_CALLS" ∷ "ASYNC_CALLS" ∷ [])

-- The selected rows, read one by one into the adjacency lists.
unfoldable pub read_edges : Bytes → List Edge → Adjacency → Adjacency
unfolding add_edge is_traced
read_edges project [] adj = adj
read_edges project (e ∷ es) adj = read_edges project es (
    if is_traced project e
    then add_edge e.from_id (record { to = e.to_id; kind = e.kind }) adj
    else adj)

-- `m[k]` of a map with text keys; the newest entry stands first.
unfoldable pub find : Bytes → List (Bytes × ℕ) → Option ℕ
find k [] = none
find k ((j, v) ∷ m) = if str_eq j k then some v else find k m

abbrev pub is_none {ℓ} : {A : Type ℓ} → Option A → Bool
is_none none = true
is_none (some a) = false

pub record FrontierNode : Type 0 where
  pub id : Bytes
  pub kind : Bytes

-- The variables of the search from one source: `seen`, the frontier that is being built, and the rows
-- of the INSERT statements so far.
pub record Search : Type 0 where
  pub seen : List (Bytes × ℕ)
  pub next_frontier : List FrontierNode
  pub inserts : List ClosureRow

-- The search from the source `from`, over the edges of the project.
module _ (project from : Bytes) where
  -- The body of the loop over `adj[u.id]`, at depth `d`.
  unfoldable pub visit : ℕ → Target → Search → Search
  unfolding find
  visit d e s =
      if is_none (find e.to s.seen)
      then record {
        seen = (e.to, d) ∷ s.seen;
        next_frontier = s.next_frontier ++ record { id = e.to; kind = e.kind } ∷ [];
        inserts =
            s.inserts
            ++ record {
              project_id = project;
              from_id = from;
              to_id = e.to;
              depth = d;
              via_kind = e.kind;
            }
              ∷ [];
      }
      else s

  unfoldable pub visit_all : ℕ → List Target → Search → Search
  unfolding visit
  visit_all d [] s = s
  visit_all d (e ∷ es) s = visit_all d es (visit d e s)

  -- The loop over the frontier.
  unfoldable pub scan_frontier : Adjacency → ℕ → List FrontierNode → Search → Search
  unfolding visit_all targets_of
  scan_frontier adj d [] s = s
  scan_frontier adj d (u ∷ us) s = scan_frontier adj d us (visit_all d (targets_of adj u.id) s)

  -- The loop over `d`, with the rounds that are left of `maxDepth`. The frontier of a round is what
  -- the round before left in `next_frontier`.
  unfoldable pub levels : Adjacency → ℕ → ℕ → Search → Search
  unfolding scan_frontier
  levels adj zero d s = s
  levels adj (suc rounds) d s = elim s.next_frontier [
    | [] ↦ s
    | u ∷ us ↦
        levels adj rounds (suc d) (scan_frontier adj d (u ∷ us) (record s { next_frontier = [] }))
  ]

  unfoldable pub first_search : Search
  first_search = record {
    seen = (from, 0) ∷ [];
    next_frontier = record { id = from; kind = [] } ∷ [];
    inserts = [];
  }

  unfoldable pub search_from : Adjacency → ℕ → Search
  unfolding levels first_search
  search_from adj max_depth = levels adj max_depth 1 first_search
