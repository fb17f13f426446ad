-- ===== src/Cypher/Sql/LikePatterns.antt =====
-- The escaping of LIKE patterns: `escapeLikePattern` of internal/cypher/engine.go.
use mathlib.Core.Option
use pincher_mcp.Prelude.{
  ℕ, ◌≡◌, refl, ap, ◌∙◌, false, ◌||◌, [], ◌∷◌, Option, none, some, arith, ◌==◌, if◌then◌else◌,
  Bool-cases, inl, inr, Bytes,
}
use pincher_mcp.Cypher.Sql.{replace_byte, escape_like_pattern}

-- The text that a LIKE pattern with the escape byte `\\` stands for, if no `%` or `_` of it is a
-- wildcard.
abbrev pub like_literal : Bytes → Option Bytes
like_literal [] = some []
like_literal (c ∷ []) = if c == 92 || c == b'%' || c == b'_' then none else some (c ∷ [])
like_literal (c ∷ d ∷ s) =
    let escaped = Option.map (λ t. d ∷ t) (like_literal s) in
    let plain = Option.map (λ t. c ∷ t) (like_literal (d ∷ s)) in
    if c == 92 then escaped else if c == b'%' || c == b'_' then none else plain

-- One pass that escapes all three bytes.
abbrev pub escape_once : Bytes → Bytes
escape_once [] = []
escape_once (c ∷ s) =
    let rest = escape_once s in
    if c == 92 || c == b'%' || c == b'_' then 92 ∷ c ∷ rest else c ∷ rest

replace_three : (s : Bytes) → escape_like_pattern s ≡ escape_once s
unfolding escape_like_pattern replace_byte
replace_three [] = refl
replace_three (c ∷ s) = ground (arith, replace_three s)

like_literal-plain :
    (c : ℕ) (s : Bytes)
    → (c == 92 || c == b'%' || c == b'_') ≡ false
    → like_literal (c ∷ s) ≡ Option.map (λ t. c ∷ t) (like_literal s)
like_literal-plain c [] h = rw h
like_literal-plain c (d ∷ s) h = ground arith

like_literal-escape_once : (s : Bytes) → like_literal (escape_once s) ≡ some s
like_literal-escape_once [] = refl
like_literal-escape_once (c ∷ s) = elim (Bool-cases (c == 92 || c == b'%' || c == b'_')) [
  | inl e ↦ rw e (ap (Option.map (λ t. c ∷ t)) (like_literal-escape_once s))
  | inr e ↦ rw e (
      like_literal-plain c (escape_once s) e
      ∙ ap (Option.map (λ t. c ∷ t)) (like_literal-escape_once s))
]

-- The escaped text has no wildcard left, and as a pattern it stands for exactly the text.
pub like_literal-escape : (s : Bytes) → like_literal (escape_like_pattern s) ≡ some s
like_literal-escape s = ap like_literal (replace_three s) ∙ like_literal-escape_once s
