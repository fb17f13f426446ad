-- ===== src/Cypher/Where/InlineProps.antt =====
-- `matchesInlineProps` of internal/cypher/engine.go: Go iterates a map in no fixed order.
use mathlib.Core.List.{Perm, Permᴰ}
use mathlib.Core.Bool.{Bool-set}
use mathlib.Core.Logic.{∥∥₁_elim}
use pincher_mcp.Prelude.{◌≡◌, refl, sym, ap, ap₂, ◌∙◌, Bool, ◌&&◌, [], ◌∷◌, arith, Bytes}
use pincher_mcp.Cypher.Ast.{Props}
use pincher_mcp.Cypher.Where.{Row, matches_inline_props}

module _ (row : Row) (variable : Bytes) where
  -- One property on its own.
  one : Bytes × Bytes → Bool
  one p = matches_inline_props row variable (p ∷ [])

  matches_inline_props-cons :
      (p : Bytes × Bytes) (props : Props)
      → matches_inline_props row variable (p ∷ props)
        ≡ (one p && matches_inline_props row variable props)
  unfolding matches_inline_props one
  matches_inline_props-cons (k, want) props = ground arith

  swap_and : (a b c : Bool) → (a && (b && c)) ≡ (b && (a && c))
  swap_and a b c = ground arith

  matches_inline_props-Permᴰ :
      {props other : Props}
      → Permᴰ props other
      → matches_inline_props row variable props ≡ matches_inline_props row variable other
  matches_inline_props-Permᴰ Permᴰ.nil = refl
  matches_inline_props-Permᴰ (Permᴰ.cons {a} {b} {l₁ = l} {l₂ = m} e p) =
      matches_inline_props-cons a l
      ∙ ap₂ (λ x t. one x && t) e (matches_inline_props-Permᴰ p)
      ∙ sym (matches_inline_props-cons b m)
  matches_inline_props-Permᴰ (Permᴰ.swap {a} {b} {a'} {b'} {l} e f) =
      matches_inline_props-cons a (b ∷ l)
      ∙ ap (λ t. one a && t) (matches_inline_props-cons b l)
      ∙ swap_and (one a) (one b) (matches_inline_props row variable l)
      ∙ ap₂ (λ x y. one x && (one y && matches_inline_props row variable l)) f e
      ∙ ap (λ t. one a' && t) (sym (matches_inline_props-cons b' l))
      ∙ sym (matches_inline_props-cons a' (b' ∷ l))
  matches_inline_props-Permᴰ (Permᴰ.trans p q) =
      matches_inline_props-Permᴰ p ∙ matches_inline_props-Permᴰ q

  -- Whether a row has the inline properties of a pattern's end does not depend on the order in which
  -- the map of the properties is iterated.
  matches_inline_props-Perm :
      {props other : Props}
      → Perm props other
      → matches_inline_props row variable props ≡ matches_inline_props row variable other
  matches_inline_props-Perm h = ∥∥₁_elim h (Bool-set _ _) matches_inline_props-Permᴰ
