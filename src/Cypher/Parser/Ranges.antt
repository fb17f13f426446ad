-- ===== src/Cypher/Parser/Ranges.antt =====
-- What the parsers of internal/cypher/engine.go return where they return a value, and the bounds of
-- the patterns of `parsePattern`.
use pincher_mcp.Prelude.{◌≤◌, Bool, true, false, arith, if◌then◌else◌, Result, ok, fail}
use pincher_mcp.Cypher.Ast.{Pattern}
use pincher_mcp.Cypher.Hops.Range.{parse_hops-IsRange}
use pincher_mcp.Cypher.Parser.{
  ParseError, Tokens, Parse, and_then, ◌>>=◌, ◌>>◌, pure, raise, peek, next,
}
use pincher_mcp.Cypher.Parser.PatternClause.{
  from_node, edge_var_part, edge_kinds_part, hops_part, bracket_part, arrow_part, to_part,
  edge_part, parse_pattern,
}

-- What a parser returns, where it returns a value, has the property.
abbrev pub Gives : {A : Type 0} → (A → Type 0) → Result ParseError (A × Tokens) → Type 0
Gives P (ok (a, rest)) = P a
Gives P (fail e) = Unit

pub record Returns {A : Type 0} (P : A → Type 0) (m : Parse A) : Type 0 where
  pub at : (ts : Tokens) → Gives P (m ts)

module _ {A B : Type 0} where
  pub Gives-and_then :
      (P : A → Type 0) (Q : B → Type 0) (r : Result ParseError (A × Tokens)) (f : A → Parse B)
      → Gives P r
      → ((a : A) → P a → Returns Q (f a))
      → Gives Q (and_then f r)
  Gives-and_then P Q (ok (a, rest)) f h k = (k a h).at rest
  Gives-and_then P Q (fail e) f h k = tt

  pub Returns-bind :
      (P : A → Type 0) (Q : B → Type 0) (m : Parse A) (f : A → Parse B)
      → Returns P m
      → ((a : A) → P a → Returns Q (f a))
      → Returns Q (m >>= f)
  unfolding ◌>>=◌
  Returns-bind P Q m f h k = record { at = λ ts. Gives-and_then P Q (m ts) f (h.at ts) k }

module _ {A : Type 0} where
  Gives-any : (r : Result ParseError (A × Tokens)) → Gives (λ _. Unit {0}) r
  Gives-any (ok (a, rest)) = tt
  Gives-any (fail e) = tt

module _ {A B : Type 0} {Q : B → Type 0} where
  -- Nothing is known of the first part's value.
  pub Returns-any :
      (m : Parse A) (f : A → Parse B) → ((a : A) → Returns Q (f a)) → Returns Q (m >>= f)
  Returns-any m f k =
      Returns-bind (λ _. Unit) Q m f (record { at = λ ts. Gives-any (m ts) }) (λ a _. k a)

  pub Returns-then : (m : Parse A) (n : Parse B) → Returns Q n → Returns Q (m >> n)
  unfolding ◌>>◌
  Returns-then m n k = record {
    at = λ ts. Gives-and_then (λ _. Unit) Q (m ts) (λ _. n) (Gives-any (m ts)) (λ _ _. k);
  }

module _ {A : Type 0} {P : A → Type 0} where
  pub Returns-if :
      (b : Bool) (m n : Parse A) → Returns P m → Returns P n → Returns P (if b then m else n)
  Returns-if true m n h k = h
  Returns-if false m n h k = k

  pub Returns-pure : (a : A) → P a → Returns P (pure a)
  unfolding pure
  Returns-pure a h = record { at = λ ts. h }

  pub Returns-raise : (e : ParseError) → Returns P (raise e)
  unfolding raise
  Returns-raise e = record { at = λ ts. tt }

pub ruleset returns_rules = (Returns-any, Returns-then, Returns-if, Returns-pure, Returns-raise)

-- The bounds of a pattern are a range of path lengths from 1 on.
pub record HasRange (pat : Pattern) : Type 0 where
  pub low : 1 ≤ pat.min_hops
  pub ordered : pat.min_hops ≤ pat.max_hops

module _ (pat : Pattern) (h : HasRange pat) where
  edge_var_part-HasRange : Returns HasRange (edge_var_part pat)
  unfolding edge_var_part
  edge_var_part-HasRange = Returns-any peek _ λ t.
      Returns-if _ _ _ (Returns-then next _ (Returns-pure _ (omega arith))) (Returns-pure pat h)

  edge_kinds_part-HasRange : Returns HasRange (edge_kinds_part pat)
  unfolding edge_kinds_part
  edge_kinds_part-HasRange = Returns-any _ _ λ colon.
      Returns-if _ _ _
        (Returns-then next _
          (Returns-any _ _ λ n. Returns-any _ _ λ kinds. Returns-pure _ (omega arith)))
        (Returns-pure pat h)

  hops_part-HasRange : Returns HasRange (hops_part pat)
  unfolding hops_part
  hops_part-HasRange = Returns-any peek _ λ t.
      Returns-if _ _ _
        (Returns-then next _ (Returns-pure _ (omega (arith, parse_hops-IsRange t.value))))
        (Returns-pure pat h)

  arrow_part-HasRange : Returns HasRange (arrow_part pat)
  unfolding arrow_part
  arrow_part-HasRange = Returns-any peek _ λ t.
      Returns-if _ _ _ (Returns-then next _ (Returns-pure _ (omega arith))) (
        Returns-if _ _ _
          (Returns-then next _ (
            Returns-any _ _ λ head.
              Returns-if _ _ _ (Returns-then next _ (Returns-pure _ (omega arith)))
                (Returns-raise _)))
          (Returns-pure pat h))

  to_part-HasRange : Returns HasRange (to_part pat)
  unfolding to_part
  to_part-HasRange = Returns-any _ _ λ paren.
      Returns-if _ _ _ (Returns-then next _ (Returns-any _ _ λ node. Returns-pure _ (omega arith)))
        (Returns-pure pat h)

module _ (pat : Pattern) (h : HasRange pat) where
  bracket_part-HasRange : Returns HasRange (bracket_part pat)
  unfolding bracket_part
  bracket_part-HasRange = Returns-any _ _ λ bracket.
      Returns-if _ _ _
        (Returns-then next _ (
          Returns-bind HasRange HasRange _ _ (edge_var_part-HasRange pat h) λ p₁ h₁.
            Returns-bind HasRange HasRange _ _ (edge_kinds_part-HasRange p₁ h₁) λ p₂ h₂.
              Returns-bind HasRange HasRange _ _ (hops_part-HasRange p₂ h₂)
                λ p₃ h₃. Returns-then _ _ (Returns-pure p₃ h₃)))
        (Returns-pure pat h)

  edge_part-HasRange : Returns HasRange (edge_part pat)
  unfolding edge_part
  edge_part-HasRange = Returns-any _ _ λ t.
      Returns-if _ _ _
        (Returns-then next _ (
          Returns-bind HasRange HasRange _ _ bracket_part-HasRange λ p₁ h₁.
            Returns-bind HasRange HasRange _ _ (arrow_part-HasRange p₁ h₁) to_part-HasRange))
        (Returns-pure pat h)

pub parse_pattern-HasRange : Returns HasRange parse_pattern
unfolding parse_pattern
parse_pattern-HasRange =
    Returns-then _ _ (Returns-any _ _ λ node. edge_part-HasRange (from_node node) (omega arith))
