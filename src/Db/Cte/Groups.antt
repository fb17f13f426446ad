-- ===== src/Db/Cte/Groups.antt =====
-- GROUP BY and the merge of the directions in `traceViaCTE` of internal/db/db.go, by the least depth
-- that rows have for an id.
use pincher_mcp.Prelude.{
  ℕ, ◌≤◌, ◌≡◌, ◌↔◌, refl, ap, ◌∙◌, true, false, ◌&&◌, not, List, [], ◌∷◌, Option, none, some, arith,
  ltb, ◌==◌, Bytes, str_eq, str_eq_iff, length, Bool-cases, Option-cases, inl, inr, any-sort_by,
  length-sort_by, sort_by, take-all,
}
use pincher_mcp.Db.Closure.Rounds.{when}
use pincher_mcp.Db.Closure.Trace.{TraceResult, trace_limit}
use pincher_mcp.Db.Closure.Traced.{reports}
use pincher_mcp.Db.Cte.{least, strangers, merge_row, group, keep_nearer, keep_all, limited}

abbrev pub opt_least : Option ℕ → Option ℕ → Option ℕ
opt_least none o = o
opt_least (some a) none = some a
opt_least (some a) (some b) = some (least a b)

opt_least_assoc : (a b c : Option ℕ) → opt_least (opt_least a b) c ≡ opt_least a (opt_least b c)
opt_least_assoc none b c = refl
opt_least_assoc (some a) none c = refl
opt_least_assoc (some a) (some b) none = refl
opt_least_assoc (some a) (some b) (some c) = ground arith

-- The least depth in the rows with the id.
abbrev pub min_depth : Bytes → List TraceResult → Option ℕ
min_depth b [] = none
min_depth b (r ∷ rs) = opt_least (when (str_eq r.symbol_id b) r.depth) (min_depth b rs)

pub min_depth→reports :
    (b : Bytes) (k : ℕ) (rows : List TraceResult)
    → min_depth b rows ≡ some k
    → reports b k rows ≡ true
min_depth→reports b k [] h = ground arith
min_depth→reports b k (r ∷ rows) h = elim (Option-cases (min_depth b rows)) [
  | inl e ↦ ground arith
  | inr (m, e) ↦ ground (arith, min_depth→reports b m rows e, min_depth→reports b k rows)
]

pub reports→min_depth :
    (b : Bytes) (j : ℕ) (rows : List TraceResult)
    → reports b j rows ≡ true
    → (k : ℕ) × (min_depth b rows ≡ some k) × (k ≤ j)
reports→min_depth b j [] h = ground arith
reports→min_depth b j (r ∷ rows) h = elim (Option-cases (min_depth b rows)) [
  | inl e ↦
      let no_rest : reports b j rows ≡ false = elim (Bool-cases (reports b j rows)) [
        | inl f ↦ let (i, g, le) = reports→min_depth b j rows f in ground arith
        | inr f ↦ f
      ] in
      (r.depth, ground arith, ground arith)
  | inr (m, e) ↦ elim (Bool-cases (reports b j rows)) [
    | inl f ↦
        let (i, g, le) = reports→min_depth b j rows f in
        elim (Bool-cases (str_eq r.symbol_id b)) [
          | inl s ↦ (least r.depth m, ground arith, ground arith)
          | inr s ↦ (m, ground arith, ground arith)
        ]
    | inr f ↦ (least r.depth m, ground arith, ground arith)
  ]
]

-- The least depth is the least that the rows report.
pub min_depth_iff :
    (b : Bytes) (k : ℕ) (rows : List TraceResult)
    → (min_depth b rows ≡ some k)
      ↔ (reports b k rows ≡ true) × ((j : ℕ) → reports b j rows ≡ true → k ≤ j)
min_depth_iff b k rows = (
  λ h. (
    min_depth→reports b k rows h,
    λ j f. let (i, g, le) = reports→min_depth b j rows f in ground arith,
  ),
  λ (f, low).
      let (i, g, le) = reports→min_depth b k rows f in
      ground (arith, low i (min_depth→reports b i rows g)),
)

pub reports-strangers :
    (start b : Bytes) (k : ℕ) (rows : List TraceResult)
    → reports b k (strangers start rows) ≡ (not (str_eq b start) && ltb 0 k && reports b k rows)
unfolding strangers
reports-strangers start b k [] = ground arith
reports-strangers start b k (r ∷ rows) =
    ground (arith, reports-strangers start b k rows, str_eq_iff r.symbol_id b)

pub reports-limited :
    (b : Bytes) (k : ℕ) (rows : List TraceResult)
    → length rows ≤ trace_limit
    → reports b k (limited rows) ≡ reports b k rows
unfolding limited
reports-limited b k rows h =
    let less = λ (r g : TraceResult). ltb r.depth g.depth in
    rw (take-all trace_limit (sort_by less rows) (rw length-sort_by h))
      (any-sort_by less (λ r. str_eq r.symbol_id b && r.depth == k) rows)

min_depth-merge_row :
    (b : Bytes) (r : TraceResult) (gs : List TraceResult)
    → min_depth b (merge_row r gs)
      ≡ opt_least (min_depth b gs) (when (str_eq r.symbol_id b) r.depth)
unfolding merge_row
min_depth-merge_row b r [] = ground arith
min_depth-merge_row b r (g ∷ gs) = elim (Option-cases (min_depth b gs)) [
  | inl e ↦ ground (
    arith,
    min_depth-merge_row b r gs,
    str_eq_iff g.symbol_id r.symbol_id,
    str_eq_iff g.symbol_id b,
    str_eq_iff r.symbol_id b,
  )
  | inr (m, e) ↦ ground (
    arith,
    min_depth-merge_row b r gs,
    str_eq_iff g.symbol_id r.symbol_id,
    str_eq_iff g.symbol_id b,
    str_eq_iff r.symbol_id b,
  )
]

pub min_depth-group :
    (b : Bytes) (rows gs : List TraceResult)
    → min_depth b (group rows gs) ≡ opt_least (min_depth b gs) (min_depth b rows)
unfolding group
min_depth-group b [] gs = ground arith
min_depth-group b (r ∷ rows) gs =
    min_depth-group b rows (merge_row r gs)
    ∙ ap (λ o. opt_least o (min_depth b rows)) (min_depth-merge_row b r gs)
    ∙ opt_least_assoc (min_depth b gs) (when (str_eq r.symbol_id b) r.depth) (min_depth b rows)

min_depth-keep_nearer :
    (b : Bytes) (r : TraceResult) (gs : List TraceResult)
    → min_depth b (keep_nearer r gs)
      ≡ opt_least (min_depth b gs) (when (str_eq r.symbol_id b) r.depth)
unfolding keep_nearer
min_depth-keep_nearer b r [] = ground arith
min_depth-keep_nearer b r (g ∷ gs) = elim (Option-cases (min_depth b gs)) [
  | inl e ↦ ground (
    arith,
    min_depth-keep_nearer b r gs,
    str_eq_iff g.symbol_id r.symbol_id,
    str_eq_iff g.symbol_id b,
    str_eq_iff r.symbol_id b,
  )
  | inr (m, e) ↦ ground (
    arith,
    min_depth-keep_nearer b r gs,
    str_eq_iff g.symbol_id r.symbol_id,
    str_eq_iff g.symbol_id b,
    str_eq_iff r.symbol_id b,
  )
]

pub min_depth-keep_all :
    (b : Bytes) (rows gs : List TraceResult)
    → min_depth b (keep_all rows gs) ≡ opt_least (min_depth b gs) (min_depth b rows)
unfolding keep_all
min_depth-keep_all b [] gs = ground arith
min_depth-keep_all b (r ∷ rows) gs =
    min_depth-keep_all b rows (keep_nearer r gs)
    ∙ ap (λ o. opt_least o (min_depth b rows)) (min_depth-keep_nearer b r gs)
    ∙ opt_least_assoc (min_depth b gs) (when (str_eq r.symbol_id b) r.depth) (min_depth b rows)

-- No two rows have the same id.
abbrev pub IsDistinct : List TraceResult → Type 0
IsDistinct [] = Unit
IsDistinct (r ∷ rs) = (min_depth r.symbol_id rs ≡ none) × IsDistinct rs

keep_nearer-IsDistinct :
    (r : TraceResult) (gs : List TraceResult) → IsDistinct gs → IsDistinct (keep_nearer r gs)
unfolding keep_nearer
keep_nearer-IsDistinct r [] h = (refl, tt)
keep_nearer-IsDistinct r (g ∷ gs) (new, h) = elim (Bool-cases (str_eq g.symbol_id r.symbol_id)) [
  | inl e ↦ ground (arith, str_eq_iff g.symbol_id r.symbol_id)
  | inr e ↦ ground (
    arith,
    keep_nearer-IsDistinct r gs h,
    min_depth-keep_nearer g.symbol_id r gs,
    str_eq_iff g.symbol_id r.symbol_id,
    str_eq_iff r.symbol_id g.symbol_id,
  )
]

pub keep_all-IsDistinct :
    (rows gs : List TraceResult) → IsDistinct gs → IsDistinct (keep_all rows gs)
unfolding keep_all
keep_all-IsDistinct [] gs h = h
keep_all-IsDistinct (r ∷ rows) gs h =
    keep_all-IsDistinct rows (keep_nearer r gs) (keep_nearer-IsDistinct r gs h)

-- With distinct ids, rows report the least depth of an id and no other.
pub reports-IsDistinct :
    (b : Bytes) (k : ℕ) (rows : List TraceResult)
    → IsDistinct rows
    → reports b k rows ≡ true
    → min_depth b rows ≡ some k
reports-IsDistinct b k [] d h = ground arith
reports-IsDistinct b k (r ∷ rows) (new, d) h = elim (Bool-cases (str_eq r.symbol_id b)) [
  | inl e ↦
      let alone : min_depth b rows ≡ none = ground (arith, str_eq_iff r.symbol_id b) in
      elim (Bool-cases (reports b k rows)) [
        | inl f ↦ let (i, g, le) = reports→min_depth b k rows f in ground arith
        | inr f ↦ ground arith
      ]
  | inr e ↦ ground (arith, reports-IsDistinct b k rows d)
]
