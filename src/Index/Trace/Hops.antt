-- ===== src/Index/Trace/Hops.antt =====
-- The hops that `materializeHops` of internal/index/indexer.go makes of the results of a trace.
use pincher_mcp.Prelude.{
  ℕ, suc, ◌+◌, ◌≤◌, ◌≡◌, ap, Bool, true, false, ◌&&◌, List, [], ◌∷◌, none, some, arith, ◌==◌, Bytes,
  str_eq, str_eq_iff, any, length, List-cases, Option-cases, inl, inr,
}
use pincher_mcp.Db.Closure.Trace.{TraceResult}
use pincher_mcp.Db.Closure.Traced.{reports}
use pincher_mcp.Index.Trace.{Symbol, Hop, symbol_of, materialize_hops, hop_limit}

-- Some hop is to the symbol with the id, with the depth.
abbrev pub hops_to : Bytes → ℕ → List Hop → Bool
hops_to b k hops = any (λ h. str_eq h.symbol.id b && h.depth == k) hops

-- The table of symbols has the id, in the project.
abbrev pub is_known : Bytes → Bytes → List Symbol → Bool
is_known project id symbols = elim (symbol_of project id symbols) [ none ↦ false | some s ↦ true ]

symbol_of-id :
    (project id : Bytes) (symbols : List Symbol) (s : Symbol)
    → symbol_of project id symbols ≡ some s
    → s.id ≡ id
unfolding symbol_of
symbol_of-id project id [] s h = ground arith
symbol_of-id project id (t ∷ symbols) s h =
    ground (arith, symbol_of-id project id symbols s, str_eq_iff t.id id)

-- Within the limit the hops are those of the results whose symbol is known.
pub hops_to-materialize_hops :
    (project : Bytes) (symbols : List Symbol) (add_risk : Bool) (b : Bytes) (k n : ℕ)
    (rs : List TraceResult)
    → length rs + n ≤ hop_limit
    → hops_to b k (materialize_hops project symbols add_risk n rs)
      ≡ (reports b k rs && is_known project b symbols)
unfolding materialize_hops
hops_to-materialize_hops project symbols add_risk b k n [] h = ground arith
hops_to-materialize_hops project symbols add_risk b k n (r ∷ rs) h =
    elim (Option-cases (symbol_of project r.symbol_id symbols)) [
      | inl e ↦ ground (
        arith,
        hops_to-materialize_hops project symbols add_risk b k n rs,
        str_eq_iff r.symbol_id b,
      )
      | inr (s, e) ↦
          let same = symbol_of-id project r.symbol_id symbols s e in
          elim (List-cases rs) [
            | inl last ↦ ground (arith, str_eq_iff r.symbol_id b, str_eq_iff s.id b)
            | inr (x, xs, more) ↦
                let size = ap length more in
                ground (
                  arith,
                  hops_to-materialize_hops project symbols add_risk b k (suc n) rs,
                  str_eq_iff r.symbol_id b,
                  str_eq_iff s.id b,
                )
          ]
    ]
