-- ===== src/Db/Cte/Traced.antt =====
-- What the trace by a recursive query in internal/db/db.go returns.
use pincher_mcp.Prelude.{
  ℕ, suc, ◌≤◌, ◌<◌, ◌≡◌, ◌↔◌, refl, sym, ◌∙◌, Bool, true, false, List, [], ◌∷◌, some, arith, Bytes,
  codes, is_empty, str_eq, str_eq_refl, one_of, length, iff_trans, inl, inr, subst, lt_or_le, ok,
}
use mathlib.Core.Path.{fun_ext}
use pincher_mcp.Db.Closure.{Edge, is_traced}
use pincher_mcp.Db.Closure.Trace.{TraceResult, trace_limit}
use pincher_mcp.Db.Closure.Traced.{reports}
use pincher_mcp.Db.Closure.Walks.{Walk, here, step, IsDistance}
use pincher_mcp.Db.Closure.Sources.{calls}
use pincher_mcp.Db.Cte.{
  Query, joins, reach, strangers, query_rows, limited, keep_all, trace_via_cte,
}
use pincher_mcp.Db.Cte.Levels.{linked, reach-Walk}
use pincher_mcp.Db.Cte.Groups.{
  opt_least, min_depth, min_depth→reports, min_depth_iff, reports-strangers, reports-limited,
  min_depth-group, min_depth-keep_all, IsDistinct, keep_all-IsDistinct, reports-IsDistinct,
}

Walk-apart :
    (link : Bytes → Bytes → Bool) (start b : Bytes) (n : ℕ)
    → Walk link start n b
    → str_eq b start ≡ false
    → 0 < n
Walk-apart link start b n here h = ground (arith, str_eq_refl start)
Walk-apart link start b n (step w l) h = omega arith

module _ (q : Query) (es : List Edge) (start : Bytes) (d : ℕ) where
  abbrev root : TraceResult
  root = record { symbol_id = start; depth = 0; via_kind = [] }

  abbrev raw : List TraceResult
  raw = strangers start (reach q es d (root ∷ []))

  raw_lem :
      (b : Bytes) (k : ℕ)
      → (reports b k raw ≡ true)
        ↔ (str_eq b start ≡ false) × (0 < k) × (k ≤ d) × Walk (linked q es) start k b
  raw_lem b k =
      let (to, back) = reach-Walk q es start d root refl refl b k in
      let test = reports-strangers start b k (reach q es d (root ∷ [])) in
      (
        λ h. let (le, w) = to (ground arith) in (ground arith, ground arith, le, w),
        λ (ne, pos, le, w). ground (arith, back (le, w)),
      )

  raw-IsDistance :
      (b : Bytes) (k : ℕ)
      → (min_depth b raw ≡ some k)
        ↔ (str_eq b start ≡ false) × (k ≤ d) × IsDistance (linked q es) start k b
  raw-IsDistance b k = (
    λ h.
        let (f, low) = (min_depth_iff b k raw).0 h in
        let (ne, pos, le, w) = (raw_lem b k).0 f in
        (
          ne,
          le,
          (
            w,
            λ n w'. elim (lt_or_le d n) [
              | inl lt ↦ omega arith
              | inr le' ↦
                  low n ((raw_lem b n).1 (ne, Walk-apart (linked q es) start b n w' ne, le', w'))
            ],
          ),
        ),
    λ (ne, le, (w, low)). (min_depth_iff b k raw).1 (
      (raw_lem b k).1 (ne, Walk-apart (linked q es) start b k w ne, le, w),
      λ j f. let (ne', pos, le', w') = (raw_lem b j).0 f in low j w',
    ),
  )

  pub query_rows-IsDistance :
      (b : Bytes) (k : ℕ)
      → (min_depth b (query_rows q es start d) ≡ some k)
        ↔ (str_eq b start ≡ false) × (k ≤ d) × IsDistance (linked q es) start k b
  unfolding query_rows
  query_rows-IsDistance b k =
      subst
        (λ o.
          (o ≡ some k) ↔ (str_eq b start ≡ false) × (k ≤ d) × IsDistance (linked q es) start k b)
        (sym (min_depth-group b raw [])) (raw-IsDistance b k)

  pub limited-IsDistance :
      length (query_rows q es start d) ≤ trace_limit
      → (b : Bytes) (k : ℕ)
      → (min_depth b (limited (query_rows q es start d)) ≡ some k)
        ↔ (str_eq b start ≡ false) × (k ≤ d) × IsDistance (linked q es) start k b
  limited-IsDistance few b k =
      let rows = query_rows q es start d in
      let same = λ (j : ℕ). reports-limited b j rows few in
      let (to, back) = query_rows-IsDistance b k in
      (
        λ h.
            let (f, low) = (min_depth_iff b k (limited rows)).0 h in
            to ((min_depth_iff b k rows).1 (sym (same k) ∙ f, λ j g. low j (same j ∙ g))),
        λ h.
            let (f, low) = (min_depth_iff b k rows).0 (back h) in
            (min_depth_iff b k (limited rows)).1 (same k ∙ f, λ j g. low j (sym (same j) ∙ g)),
      )

-- Merged rows report the least depth of an id and no other.
pub reports-keep_all :
    (b : Bytes) (k : ℕ) (rows gs : List TraceResult)
    → IsDistinct gs
    → (reports b k (keep_all rows gs) ≡ true)
      ↔ (opt_least (min_depth b gs) (min_depth b rows) ≡ some k)
reports-keep_all b k rows gs h = (
  λ f.
      sym (min_depth-keep_all b rows gs)
      ∙ reports-IsDistinct b k (keep_all rows gs) (keep_all-IsDistinct rows gs h) f,
  λ e. min_depth→reports b k (keep_all rows gs) (min_depth-keep_all b rows gs ∙ e),
)

-- The kinds of `TraceByID`, if it is given none.
abbrev pub default_kinds : List Bytes
default_kinds = codes "CALLS" ∷ codes "HTTP_CALLS" ∷ codes "ASYNC_CALLS" ∷ []

abbrev pub query_of : Bool → Bytes → Query
query_of forward project = record { forward = forward; project = project; kinds = default_kinds }

linked_pointwise :
    (p : Bytes) (es : List Edge) (u v : Bytes)
    → is_empty p ≡ false
    → (linked (query_of true p) es u v ≡ calls p es u v)
      × (linked (query_of false p) es u v ≡ calls p es v u)
unfolding joins calls is_traced one_of
linked_pointwise p [] u v h = (refl, refl)
linked_pointwise p (e ∷ es) u v h =
    let (fore, back) = linked_pointwise p es u v h in (ground arith, ground arith)

-- The walks of the query are those along the calls of the project, or against them.
pub linked-calls :
    (p : Bytes) (es : List Edge)
    → is_empty p ≡ false
    → (linked (query_of true p) es ≡ calls p es)
      × (linked (query_of false p) es ≡ (λ u v. calls p es v u))
linked-calls p es h = (
  fun_ext (λ u. fun_ext (λ v. (linked_pointwise p es u v h).0)),
  fun_ext (λ u. fun_ext (λ v. (linked_pointwise p es u v h).1)),
)

-- A walk with one link before it.
Walk-before :
    (link : Bytes → Bytes → Bool) (a b : Bytes) (n : ℕ) (c : Bytes)
    → link a b ≡ true
    → Walk link b n c
    → Walk link a (suc n) c
Walk-before link a b n c l here = step here l
Walk-before link a b n c l (step {n = m} {u} w l') = step (Walk-before link a b m u l w) l'

Walk-reverse :
    (link : Bytes → Bytes → Bool) (a : Bytes) (n : ℕ) (b : Bytes)
    → Walk (λ u v. link v u) a n b
    → Walk link b n a
Walk-reverse link a n b here = here
Walk-reverse link a n b (step {n = m} {u} w l) =
    Walk-before link b u m a l (Walk-reverse link a m u w)

-- Distances along the links reversed are those to the start.
pub IsDistance-reverse :
    (link : Bytes → Bytes → Bool) (a : Bytes) (n : ℕ) (b : Bytes)
    → IsDistance (λ u v. link v u) a n b ↔ IsDistance link b n a
IsDistance-reverse link a n b = (
  λ (w, low). (Walk-reverse link a n b w, λ k w'. low k (Walk-reverse (λ u v. link v u) b k a w')),
  λ (w, low). (Walk-reverse (λ u v. link v u) b n a w, λ k w'. low k (Walk-reverse link a k b w')),
)

against :
    (link : Bytes → Bytes → Bool) (start b : Bytes) (k d : ℕ)
    → (str_eq b start ≡ false) × (k ≤ d) × IsDistance (λ u v. link v u) start k b
      ↔ (str_eq b start ≡ false) × (k ≤ d) × IsDistance link b k start
against link start b k d =
    let (to, from) = IsDistance-reverse link start k b in
    (λ (ne, le, w). (ne, le, to w), λ (ne, le, w). (ne, le, from w))

-- The rows of the query of a direction.
abbrev pub found : Bool → Bytes → List Edge → Bytes → ℕ → List TraceResult
found forward p es start d = query_rows (query_of forward p) es start d

-- For a project with a name, where no query fails, at most 500 ids match in each direction and the
-- kinds are the default ones: an outbound trace by the recursive query names an id with depth k
-- exactly if the id is not the start, k is at most the depth asked for and k is the number of edges on
-- a shortest path from the start to the id along the calls of the project; an inbound trace likewise
-- for a shortest path from the id to the start; and a trace of both names an id with the lesser of its
-- two depths. No trace names an id twice.
pub trace_via_cte-IsDistance :
    (es : List Edge) (p start : Bytes) (d : ℕ)
    → is_empty p ≡ false
    → length (found true p es start d) ≤ trace_limit
    → length (found false p es start d) ≤ trace_limit
    → (out ins all : List TraceResult) × (trace_via_cte false false es p start
          (codes "outbound")
          default_kinds
          d
        ≡ ok out)
      × (trace_via_cte false false es p start (codes "inbound") default_kinds d ≡ ok ins)
      × (trace_via_cte false false es p start (codes "both") default_kinds d ≡ ok all)
      × ((b : Bytes) (k : ℕ)
          → (reports b k out ≡ true)
            ↔ (str_eq b start ≡ false) × (k ≤ d) × IsDistance (calls p es) start k b)
      × ((b : Bytes) (k : ℕ)
          → (reports b k ins ≡ true)
            ↔ (str_eq b start ≡ false) × (k ≤ d) × IsDistance (calls p es) b k start)
      × ((b : Bytes) (k : ℕ)
          → (reports b k all ≡ true) ↔ (opt_least (min_depth b out) (min_depth b ins) ≡ some k))
      × IsDistinct out
      × IsDistinct ins
      × IsDistinct all
unfolding trace_via_cte
trace_via_cte-IsDistance es p start d named few_out few_in =
    let fore = limited (found true p es start d) in
    let back = limited (found false p es start d) in
    let (same_fore, same_back) = linked-calls p es named in
    (
      keep_all fore [],
      keep_all back [],
      keep_all back (keep_all fore []),
      refl,
      refl,
      refl,
      λ b k.
          subst
            (λ link.
              (reports b k (keep_all fore []) ≡ true)
              ↔ (str_eq b start ≡ false) × (k ≤ d) × IsDistance link start k b)
            same_fore
            (iff_trans (reports-keep_all b k fore [] tt)
              (limited-IsDistance (query_of true p) es start d few_out b k)),
      λ b k. iff_trans (reports-keep_all b k back [] tt) (
          iff_trans (limited-IsDistance (query_of false p) es start d few_in b k) (
            subst
              (λ link.
                (str_eq b start ≡ false) × (k ≤ d) × IsDistance link start k b
                ↔ (str_eq b start ≡ false) × (k ≤ d) × IsDistance (calls p es) b k start)
              (sym same_back) (against (calls p es) start b k d))),
      λ b k.
          subst
            (λ o.
              (reports b k (keep_all back (keep_all fore [])) ≡ true)
              ↔ (opt_least (min_depth b (keep_all fore [])) o ≡ some k))
            (sym (min_depth-keep_all b back []))
            (reports-keep_all b k back (keep_all fore []) (keep_all-IsDistinct fore [] tt)),
      keep_all-IsDistinct fore [] tt,
      keep_all-IsDistinct back [] tt,
      keep_all-IsDistinct back (keep_all fore []) (keep_all-IsDistinct fore [] tt),
    )
