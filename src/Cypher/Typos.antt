-- ===== src/Cypher/Typos.antt =====
-- The did-you-mean helpers of internal/cypher/engine.go: `nearestClauseKeyword`,
-- `isCypherWriteKeyword` and `editDistanceAtMost1`.
pub mod Distance
use pincher_mcp.Prelude.{
  ℕ, suc, ◌+◌, String, Bool, true, false, not, ◌&&◌, List, [], ◌∷◌, Option, none, some, ◌==◌, ltb,
  if◌then◌else◌, Bytes, codes, is, one_of, to_upper, str_eq, length, ◌≡◌, refl,
}

-- The loop over texts of one length; `diff` counts the places where they differ.
unfoldable pub substitutions : ℕ → Bytes → Bytes → Bool
substitutions diff (x ∷ a) (y ∷ b) =
    let same = substitutions diff a b in
    let other = substitutions (suc diff) a b in
    if x == y then same else if ltb 1 (suc diff) then false else other
substitutions diff a b = true

-- The loop over a text and one that is a byte longer.
unfoldable pub walk : Bool → Bytes → Bytes → Bool
walk skipped [] b = true
walk skipped (x ∷ a) [] = true
walk skipped (x ∷ a) (y ∷ b) =
    let same = walk skipped a b in
    let skip = walk true (x ∷ a) b in if x == y then same else if skipped then false else skip

unfoldable pub one_longer : Bytes → Bytes → Bool
one_longer a b = if length b == suc (length a) then walk false a b else false

unfoldable pub edit_distance_at_most1 : Bytes → Bytes → Bool
edit_distance_at_most1 a b =
    if length a == length b
    then substitutions 0 a b
    else if ltb (length b) (length a)
    then one_longer b a
    else one_longer a b

abbrev pub top_level_clause_keywords : List String
top_level_clause_keywords = "MATCH" ∷ "WHERE" ∷ "RETURN" ∷ "ORDER" ∷ "LIMIT" ∷ "WITH" ∷ []

nearest : Bytes → List String → Option String
unfolding edit_distance_at_most1 one_longer walk substitutions str_eq
nearest up [] = none
nearest up (kw ∷ kws) =
    if not (is up kw) && edit_distance_at_most1 up (codes kw) then some kw else nearest up kws

unfoldable pub nearest_clause_keyword : Bytes → Option String
unfolding nearest to_upper
nearest_clause_keyword tok = nearest (to_upper tok) top_level_clause_keywords

unfoldable pub is_cypher_write_keyword : Bytes → Bool
unfolding one_of to_upper
is_cypher_write_keyword tok =
    one_of (to_upper tok)
      ("CREATE" ∷ "DELETE" ∷ "DETACH" ∷ "SET" ∷ "REMOVE" ∷ "MERGE" ∷ "DROP" ∷ "FOREACH" ∷ [])
