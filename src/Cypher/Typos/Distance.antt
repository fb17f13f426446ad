-- ===== src/Cypher/Typos/Distance.antt =====
-- `editDistanceAtMost1` of internal/cypher/engine.go against single edits of a text.
use pincher_mcp.Prelude.{
  ℕ, suc, ◌≡◌, refl, ◌↔◌, ◌⊎◌, inl, inr, Bool, true, false, [], ◌∷◌, arith, ◌==◌, ==_refl, ltb,
  Bool-cases, Bytes, length, subst,
}
use pincher_mcp.Cypher.Typos.{substitutions, walk, one_longer, edit_distance_at_most1}

-- One text is the other after at most one substitution, insertion or deletion of a byte.
pub data Edit : Bytes → Bytes → Type 0 where
  same : (s : Bytes) → Edit s s
  replace : (x y : ℕ) (s : Bytes) → Edit (x ∷ s) (y ∷ s)
  insert : (y : ℕ) (s : Bytes) → Edit s (y ∷ s)
  delete : (x : ℕ) (s : Bytes) → Edit (x ∷ s) s
  keep : (x : ℕ) {a b : Bytes} → Edit a b → Edit (x ∷ a) (x ∷ b)

Edit-symm : {a b : Bytes} → Edit a b → Edit b a
Edit-symm (same s) = same s
Edit-symm (replace x y s) = replace y x s
Edit-symm (insert y s) = delete y s
Edit-symm (delete x s) = insert x s
Edit-symm (keep x e) = keep x (Edit-symm e)

Edit-of_eq : {a b : Bytes} → a ≡ b → Edit a b
Edit-of_eq {a} e = rw (← e) (same a)

keep_eq : (x y : ℕ) (a b : Bytes) → (x == y) ≡ true → Edit a b → Edit (x ∷ a) (y ∷ b)
keep_eq x y a b h e = let p : x ≡ y = ground arith in rw p (keep y e)

-- The length of the edited text.
Edit-length :
    {a b : Bytes}
    → Edit a b
    → (length a ≡ length b) ⊎ (length b ≡ suc (length a)) ⊎ (length a ≡ suc (length b))
Edit-length (same s) = omega arith
Edit-length (replace x y s) = omega arith
Edit-length (insert y s) = omega arith
Edit-length (delete x s) = omega arith
Edit-length (keep x e) = omega (arith, Edit-length e)

substitutions-one : (a b : Bytes) → length a ≡ length b → substitutions 1 a b ≡ true → a ≡ b
unfolding substitutions
substitutions-one [] [] h k = refl
substitutions-one [] (y ∷ b) h k = absurd (omega arith)
substitutions-one (x ∷ a) [] h k = absurd (omega arith)
substitutions-one (x ∷ a) (y ∷ b) h k = ground (arith, substitutions-one a b)

substitutions→Edit : (a b : Bytes) → length a ≡ length b → substitutions 0 a b ≡ true → Edit a b
unfolding substitutions
substitutions→Edit [] [] h k = same []
substitutions→Edit [] (y ∷ b) h k = absurd (omega arith)
substitutions→Edit (x ∷ a) [] h k = absurd (omega arith)
substitutions→Edit (x ∷ a) (y ∷ b) h k = elim (Bool-cases (x == y)) [
  | inl e ↦ keep_eq x y a b e (substitutions→Edit a b (omega arith) (rw e at k))
  | inr e ↦ let p : a ≡ b = substitutions-one a b (omega arith) (rw e at k) in rw p (replace x y b)
]

substitutions_refl : (d : ℕ) (a : Bytes) → substitutions d a a ≡ true
unfolding substitutions
substitutions_refl d [] = refl
substitutions_refl d (x ∷ a) = rw ==_refl (substitutions_refl d a)

Edit→substitutions : {a b : Bytes} → Edit a b → length a ≡ length b → substitutions 0 a b ≡ true
unfolding substitutions
Edit→substitutions (same s) h = substitutions_refl 0 s
Edit→substitutions (replace x y s) h =
    ground (arith, substitutions_refl 0 s, substitutions_refl 1 s)
Edit→substitutions (insert y s) h = absurd (omega arith)
Edit→substitutions (delete x s) h = absurd (omega arith)
Edit→substitutions (keep x e) h = rw ==_refl (Edit→substitutions e (omega arith))

walk-skipped : (a b : Bytes) → length a ≡ length b → walk true a b ≡ true → a ≡ b
unfolding walk
walk-skipped [] [] h k = refl
walk-skipped [] (y ∷ b) h k = absurd (omega arith)
walk-skipped (x ∷ a) [] h k = absurd (omega arith)
walk-skipped (x ∷ a) (y ∷ b) h k = ground (arith, walk-skipped a b)

walk→Edit : (a b : Bytes) → length b ≡ suc (length a) → walk false a b ≡ true → Edit a b
unfolding walk
walk→Edit [] [] h k = absurd (omega arith)
walk→Edit [] (y ∷ []) h k = insert y []
walk→Edit [] (y ∷ z ∷ b) h k = absurd (omega arith)
walk→Edit (x ∷ a) [] h k = absurd (omega arith)
walk→Edit (x ∷ a) (y ∷ b) h k = elim (Bool-cases (x == y)) [
  | inl e ↦ keep_eq x y a b e (walk→Edit a b (omega arith) (rw e at k))
  | inr e ↦
      let p : x ∷ a ≡ b = walk-skipped (x ∷ a) b (omega arith) (rw e at k) in
      subst (λ t. Edit (x ∷ a) (y ∷ t)) p (insert y (x ∷ a))
]

walk_refl : (k : Bool) (a : Bytes) → walk k a a ≡ true
unfolding walk
walk_refl k [] = refl
walk_refl k (x ∷ a) = rw ==_refl (walk_refl k a)

walk-insert : (y : ℕ) (s : Bytes) → walk false s (y ∷ s) ≡ true
unfolding walk
walk-insert y [] = refl
walk-insert y (x ∷ s) = ground (arith, walk-insert x s, walk_refl true s, ==_refl x)

Edit→walk : {a b : Bytes} → Edit a b → length b ≡ suc (length a) → walk false a b ≡ true
unfolding walk
Edit→walk (same s) h = absurd (omega arith)
Edit→walk (replace x y s) h = absurd (omega arith)
Edit→walk (insert y s) h = walk-insert y s
Edit→walk (delete x s) h = absurd (omega arith)
Edit→walk (keep x e) h = rw ==_refl (Edit→walk e (omega arith))

one_longer→Edit : (a b : Bytes) → one_longer a b ≡ true → Edit a b
unfolding one_longer
one_longer→Edit a b h = walk→Edit a b (ground arith) (ground arith)

Edit→one_longer : {a b : Bytes} → Edit a b → length b ≡ suc (length a) → one_longer a b ≡ true
unfolding one_longer
Edit→one_longer e h = ground (arith, Edit→walk e h)

near→Edit : (a b : Bytes) → edit_distance_at_most1 a b ≡ true → Edit a b
unfolding edit_distance_at_most1
near→Edit a b h = elim (Bool-cases (length a == length b)) [
  | inl e ↦ substitutions→Edit a b (ground arith) (rw e at h)
  | inr e ↦ elim (Bool-cases (ltb (length b) (length a))) [
    | inl k ↦ Edit-symm (one_longer→Edit b a (rw k at (rw e at h)))
    | inr k ↦ one_longer→Edit a b (rw k at (rw e at h))
  ]
]

Edit→near : (a b : Bytes) → Edit a b → edit_distance_at_most1 a b ≡ true
unfolding edit_distance_at_most1
Edit→near a b e =
    ground
      (arith, Edit-length e, Edit→substitutions e, Edit→one_longer e, Edit→one_longer (Edit-symm e))

-- The function accepts two texts exactly when one is the other after at most one substitution,
-- insertion or deletion of a byte.
pub edit_distance_at_most1-Edit : (a b : Bytes) → (edit_distance_at_most1 a b ≡ true) ↔ Edit a b
edit_distance_at_most1-Edit a b = (near→Edit a b, Edit→near a b)
