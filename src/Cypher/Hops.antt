-- ===== src/Cypher/Hops.antt =====
-- `parseHops` of internal/cypher/engine.go: the spec of a variable-length path.
pub mod Range
use pincher_mcp.Prelude.{
  ℕ, suc, ◌≤◌, ◌<◌, ◌≡◌, refl, ◌⊎◌, Bool, true, false, ◌&&◌, List, [], ◌∷◌, arith, ◌==◌, ltb,
  if◌then◌else◌, Bytes, codes, is_empty, atoi, atoi_value,
}

pub record Hops : Type 0 where
  pub min_hops : ℕ
  pub max_hops : ℕ
  pub inverted : Bool
  pub min_clamped : Bool

-- `strings.Split(s, "..")`
unfoldable pub cons_first : ℕ → List Bytes → List Bytes
cons_first c [] = (c ∷ []) ∷ []
cons_first c (p ∷ ps) = (c ∷ p) ∷ ps

unfoldable pub split_dots : Bytes → List Bytes
unfolding cons_first
split_dots [] = [] ∷ []
split_dots (c ∷ []) = (c ∷ []) ∷ []
split_dots (c ∷ d ∷ s) =
    let cut = [] ∷ split_dots s in
    let on = cons_first c (split_dots (d ∷ s)) in if c == b'.' && d == b'.' then cut else on

-- The two bounds as they are written.
unfoldable pub bounds : List Bytes → ℕ × ℕ
unfolding atoi
bounds (a ∷ b ∷ []) = (atoi_value (atoi a), atoi_value (atoi b))
bounds (a ∷ []) = if is_empty a then (1, 1) else (atoi_value (atoi a), atoi_value (atoi a))
bounds parts = (1, 1)

-- The swap, the clamp of the lower bound to 1, and the last repair of the upper bound.
unfoldable pub repair : ℕ → ℕ → Hops
repair min max =
    let inverted = ltb max min in
    let low = if inverted then max else min in
    let high = if inverted then min else max in
    let clamped = ltb low 1 in
    let low' = if clamped then 1 else low in
    record {
      min_hops = low';
      max_hops = if ltb high low' then low' else high;
      inverted = inverted;
      min_clamped = clamped;
    }

unfoldable pub parse_hops : Bytes → Hops
unfolding split_dots
parse_hops s =
    if is_empty s
    then record { min_hops = 1; max_hops = 1; inverted = false; min_clamped = false }
    else (let (min, max) = bounds (split_dots s) in repair min max)
