-- ===== src/Db/Cte/Levels.antt =====
-- The rows of the recursive query in internal/db/db.go: they are the walks from the start.
use pincher_mcp.Prelude.{
  ℕ, zero, suc, ◌+◌, ◌≤◌, ◌≡◌, ◌↔◌, refl, sym, Bool, true, false, ◌&&◌, ◌||◌, List, [], ◌∷◌, ◌++◌,
  arith, ◌==◌, ==_refl, Bytes, str_eq, str_eq_iff, str_eq_refl, Bool-cases, inl, inr, subst,
  lt_or_le,
}
use pincher_mcp.Db.Closure.{Edge}
use pincher_mcp.Db.Closure.Trace.{TraceResult}
use pincher_mcp.Db.Closure.Traced.{reports}
use pincher_mcp.Db.Closure.Walks.{Walk, here, step, Walk-last}
use pincher_mcp.Db.Cte.{Query, joins, neighbor, expand_row, expand, reach}

-- Some edge of the query leads from `u` to `v`.
abbrev pub linked : Query → List Edge → Bytes → Bytes → Bool
linked q [] u v = false
linked q (e ∷ es) u v = joins q u e && str_eq (neighbor q e) v || linked q es u v

pub reports-append :
    (b : Bytes) (k : ℕ) (rs qs : List TraceResult)
    → reports b k (rs ++ qs) ≡ (reports b k rs || reports b k qs)
reports-append b k [] qs = refl
reports-append b k (r ∷ rs) qs = ground (arith, reports-append b k rs qs)

module _ (q : Query) (es : List Edge) where
  reports-expand_row :
      (b : Bytes) (k : ℕ) (fs : List Edge) (r : TraceResult)
      → reports b k (expand_row q fs r) ≡ (linked q fs r.symbol_id b && suc r.depth == k)
  unfolding expand_row
  reports-expand_row b k [] r = refl
  reports-expand_row b k (e ∷ fs) r = ground (arith, reports-expand_row b k fs r)

  -- All rows are of one depth, and stand for the walks of that length.
  abbrev IsLevel : Bytes → ℕ → List TraceResult → Type 0
  IsLevel start n rows =
      (b : Bytes) (k : ℕ)
      → (reports b k rows ≡ true → (k ≡ n) × Walk (linked q es) start n b)
        × (Walk (linked q es) start n b → reports b n rows ≡ true)

  expand→row :
      (b : Bytes) (k : ℕ) (rows : List TraceResult)
      → reports b k (expand q es rows) ≡ true
      → (u : Bytes) × (j : ℕ) × (reports u j rows ≡ true) × (linked q es u b ≡ true) × (suc j ≡ k)
  unfolding expand
  expand→row b k [] h = ground arith
  expand→row b k (r ∷ rows) h =
      let split = reports-append b k (expand_row q es r) (expand q es rows) in
      let first = reports-expand_row b k es r in
      elim (Bool-cases (reports b k (expand_row q es r))) [
        | inl e ↦ (
          r.symbol_id,
          r.depth,
          ground (arith, str_eq_refl r.symbol_id, ==_refl r.depth),
          ground arith,
          ground arith,
        )
        | inr e ↦
            let (u, j, m, l, same) = expand→row b k rows (ground arith) in
            (u, j, ground arith, l, same)
      ]

  row→expand :
      (u b : Bytes) (j : ℕ) (rows : List TraceResult)
      → reports u j rows ≡ true
      → linked q es u b ≡ true
      → reports b (suc j) (expand q es rows) ≡ true
  unfolding expand
  row→expand u b j [] h l = ground arith
  row→expand u b j (r ∷ rows) h l = ground (
    arith,
    reports-append b (suc j) (expand_row q es r) (expand q es rows),
    reports-expand_row b (suc j) es r,
    row→expand u b j rows,
    str_eq_iff r.symbol_id u,
  )

  expand-IsLevel :
      (start : Bytes) (n : ℕ) (rows : List TraceResult)
      → IsLevel start n rows
      → IsLevel start (suc n) (expand q es rows)
  expand-IsLevel start n rows level b k = (
    λ h.
        let (u, j, m, l, same) = expand→row b k rows h in
        let (e, w) = (level u j).0 m in (omega arith, step w l),
    λ w.
        let (u, w', l) = Walk-last (linked q es) start (suc n) n b w refl in
        row→expand u b n rows ((level u n).1 w') l,
  )

  -- The rows of all levels from `n` on, `d` of them after the first.
  reach-levels :
      (start : Bytes) (d n : ℕ) (rows : List TraceResult)
      → IsLevel start n rows
      → (b : Bytes) (k : ℕ)
      → (reports b k (reach q es d rows) ≡ true
          → (n ≤ k) × (k ≤ n + d) × Walk (linked q es) start k b)
        × ((n ≤ k) × (k ≤ n + d) × Walk (linked q es) start k b
            → reports b k (reach q es d rows) ≡ true)
  unfolding reach
  reach-levels start zero n rows level b k = (
    λ h.
        let (e, w) = (level b k).0 h in
        (omega arith, omega arith, subst (λ x. Walk (linked q es) start x b) (sym e) w),
    λ (le, ge, w).
        let same : k ≡ n = omega arith in
        subst (λ x. reports b x rows ≡ true) (sym same)
          ((level b n).1 (subst (λ x. Walk (linked q es) start x b) same w)),
  )
  reach-levels start (suc d) n rows level b k =
      let later =
        reach-levels start d (suc n) (expand q es rows) (expand-IsLevel start n rows level) b k in
      let split = reports-append b k rows (reach q es d (expand q es rows)) in
      (
        λ h. elim (Bool-cases (reports b k rows)) [
          | inl first ↦
              let (e, w) = (level b k).0 first in
              (omega arith, omega arith, subst (λ x. Walk (linked q es) start x b) (sym e) w)
          | inr no_first ↦ let (le, ge, w) = later.0 (ground arith) in (omega arith, omega arith, w)
        ],
        λ (le, ge, w). elim (lt_or_le n k) [
          | inl lt ↦ ground (arith, later.1 (lt, omega arith, w))
          | inr ge' ↦
              let same : k ≡ n = omega arith in
              let first : reports b k rows ≡ true =
                subst (λ x. reports b x rows ≡ true) (sym same)
                  ((level b n).1 (subst (λ x. Walk (linked q es) start x b) same w)) in
              ground arith
        ],
      )

  -- From the start alone, the rows are the walks of at most `d` edges.
  pub reach-Walk :
      (start : Bytes) (d : ℕ) (root : TraceResult)
      → root.symbol_id ≡ start
      → root.depth ≡ 0
      → (b : Bytes) (k : ℕ)
      → (reports b k (reach q es d (root ∷ [])) ≡ true) ↔ (k ≤ d) × Walk (linked q es) start k b
  reach-Walk start d root id_eq depth_eq b k =
      let (to, back) = reach-levels start d 0 (root ∷ []) root_level b k in
      (
        λ h. let (le, ge, w) = to h in (omega arith, w),
        λ (ge, w). back (omega arith, omega arith, w),
      )
    where
      at_start : (v : Bytes) (i : ℕ) → Walk (linked q es) start i v → i ≡ 0 → start ≡ v
      at_start v i here e = refl
      at_start v i (step w l) e = absurd (omega arith)

      root_level : IsLevel start 0 (root ∷ [])
      root_level v i = (
        λ h.
            let zero_i : 0 ≡ i = ground arith in
            let same : start ≡ v = ground (arith, str_eq_iff root.symbol_id v) in
            (sym zero_i, subst (Walk (linked q es) start 0) same here),
        λ w. ground (arith, at_start v 0 w refl, str_eq_iff root.symbol_id v),
      )
