-- ===== src/Cypher/Hops/Range.antt =====
-- The range of path lengths that `parseHops` of internal/cypher/engine.go returns.
use pincher_mcp.Prelude.{
  ℕ, ◌≤◌, ◌≡◌, refl, ◌⊎◌, ◌↔◌, ◌∙◌, ap, inl, inr, false, List, [], ◌∷◌, ◌++◌, arith, ◌==◌,
  Bool-cases, Bytes, is_empty, has_byte, atoi, atoi_value,
}
use pincher_mcp.Cypher.Hops.{Hops, cons_first, split_dots, bounds, repair, parse_hops}

-- A path length that the BFS may return: from the lower bound to the upper one.
abbrev pub InRange : Hops → ℕ → Type 0
InRange h k = (h.min_hops ≤ k) × (k ≤ h.max_hops)

abbrev pub IsRange : Hops → Type 0
IsRange h = (1 ≤ h.min_hops) × (h.min_hops ≤ h.max_hops)

repair-IsRange : (a b : ℕ) → IsRange (repair a b)
unfolding repair
repair-IsRange a b = ground arith

-- Whatever the spec is, the bounds are a range of path lengths from 1 on that is not empty.
pub parse_hops-IsRange : (s : Bytes) → IsRange (parse_hops s)
unfolding parse_hops
parse_hops-IsRange s = elim (Bool-cases (is_empty s)) [
  | inl h ↦ rw h (omega arith)
  | inr h ↦ rw h (repair-IsRange (bounds (split_dots s)).0 (bounds (split_dots s)).1)
]

split_dots-plain : (q : Bytes) → has_byte b'.' q ≡ false → split_dots q ≡ q ∷ []
unfolding split_dots has_byte cons_first
split_dots-plain [] h = refl
split_dots-plain (c ∷ []) h = refl
split_dots-plain (c ∷ d ∷ q) h = ground (arith, split_dots-plain (d ∷ q))

split_dots-on :
    (c d : ℕ) (s : Bytes)
    → (c == b'.') ≡ false
    → split_dots (c ∷ d ∷ s) ≡ cons_first c (split_dots (d ∷ s))
unfolding split_dots
split_dots-on c d s h = rw h

cons_first_lem : (c : ℕ) (p : Bytes) (ps : List Bytes) → cons_first c (p ∷ ps) ≡ (c ∷ p) ∷ ps
unfolding cons_first
cons_first_lem c p ps = refl

has_byte-head : (c : ℕ) (s : Bytes) → has_byte b'.' (c ∷ s) ≡ false → (c == b'.') ≡ false
unfolding has_byte
has_byte-head c s h = ground arith

has_byte-tail : (c : ℕ) (s : Bytes) → has_byte b'.' (c ∷ s) ≡ false → has_byte b'.' s ≡ false
unfolding has_byte
has_byte-tail c s h = ground arith

split_dots-cut : (q : Bytes) → split_dots (b'.' ∷ b'.' ∷ q) ≡ [] ∷ split_dots q
unfolding split_dots
split_dots-cut q = refl

split_dots-pair :
    (p q : Bytes)
    → has_byte b'.' p ≡ false
    → has_byte b'.' q ≡ false
    → split_dots (p ++ b'.' ∷ b'.' ∷ q) ≡ p ∷ q ∷ []
split_dots-pair [] q h k = split_dots-cut q ∙ ap (λ t. [] ∷ t) (split_dots-plain q k)
split_dots-pair (c ∷ []) q h k =
    split_dots-on c b'.' (b'.' ∷ q) (has_byte-head c [] h)
    ∙ ap (cons_first c) (split_dots-pair [] q (unfold has_byte in refl) k)
    ∙ cons_first_lem c [] (q ∷ [])
split_dots-pair (c ∷ d ∷ p) q h k =
    split_dots-on c d (p ++ b'.' ∷ b'.' ∷ q) (has_byte-head c (d ∷ p) h)
    ∙ ap (cons_first c) (split_dots-pair (d ∷ p) q (has_byte-tail c (d ∷ p) h) k)
    ∙ cons_first_lem c (d ∷ p) (q ∷ [])

append-is_empty : (p : Bytes) (c : ℕ) (q : Bytes) → is_empty (p ++ c ∷ q) ≡ false
append-is_empty [] c q = refl
append-is_empty (d ∷ p) c q = refl

parse_hops-pair :
    (p q : Bytes)
    → has_byte b'.' p ≡ false
    → has_byte b'.' q ≡ false
    → parse_hops (p ++ b'.' ∷ b'.' ∷ q) ≡ repair (atoi_value (atoi p)) (atoi_value (atoi q))
unfolding parse_hops bounds
parse_hops-pair p q h k = rw (append-is_empty p, split_dots-pair p q h k)

-- Between the two bounds, in whichever order they were written.
abbrev pub Between : ℕ → ℕ → ℕ → Type 0
Between a b k = ((a ≤ k) × (k ≤ b)) ⊎ ((b ≤ k) × (k ≤ a))

repair_members :
    (a b k : ℕ)
    → InRange (repair a b) k ↔ ((1 ≤ k) × (Between a b k ⊎ ((a ≡ 0) × (b ≡ 0) × (k ≡ 1))))
unfolding repair
repair_members a b k = (λ h. ground arith, λ h. ground arith)

-- A spec `p..q`, with no further dots in `p` and `q`, covers the path lengths from 1 on that lie
-- between the two numbers in whichever order, and the length 1 if both numbers are 0.
parse_hops_members :
    (p q : Bytes) (k : ℕ)
    → has_byte b'.' p ≡ false
    → has_byte b'.' q ≡ false
    → InRange (parse_hops (p ++ b'.' ∷ b'.' ∷ q)) k ↔ (
        (1 ≤ k)
        × (Between (atoi_value (atoi p)) (atoi_value (atoi q)) k
            ⊎ ((atoi_value (atoi p) ≡ 0) × (atoi_value (atoi q) ≡ 0) × (k ≡ 1))))
parse_hops_members p q k h l = rw (parse_hops-pair p q h l) (repair_members _ _ k)
