-- ===== src/Ast/Duplicates/Names.antt =====
-- The names that `disambiguateDuplicates` of internal/ast/extractor.go makes.
use pincher_mcp.Prelude.{
  ℕ, zero, suc, ◌+◌, ◌-◌, ◌*◌, ◌/◌, ◌%◌, ◌<◌, ◌≡◌, refl, sym, ap, ◌∙◌, true, false, ◌&&◌, [], ◌∷◌,
  ◌++◌, arith, ltb, Bytes, str_eq, str_eq→eq, has_byte, itoa, digits_of, Bool-cases, inl, inr,
}

-- The number that digits stand for, after the number of those before.
value : ℕ → Bytes → ℕ
value n [] = n
value n (c ∷ s) = value (n * 10 + (c - b'0')) s

digits_of-value : (f n : ℕ) (out : Bytes) → n < f → value 0 (digits_of f n out) ≡ value n out
unfolding digits_of value
digits_of-value zero n out h = omega arith
digits_of-value (suc f) n out h = elim (Bool-cases (ltb n 10)) [
  | inl e ↦ rw e (ap (λ k. value k out) (ground arith))
  | inr e ↦ rw e (
      digits_of-value f (n / 10) ((b'0' + n % 10) ∷ out) (ground arith)
      ∙ ap (λ k. value k out) (omega arith))
]

-- Two numbers are written in the same way only if they are the same.
pub itoa-injective : (m n : ℕ) → str_eq (itoa m) (itoa n) ≡ true → m ≡ n
unfolding itoa value
itoa-injective m n h =
    sym (digits_of-value (suc m) m [] (omega arith))
    ∙ ap (value 0) (str_eq→eq (itoa m) (itoa n) h)
    ∙ digits_of-value (suc n) n [] (omega arith)

pub has_byte-append : (b : ℕ) (s t : Bytes) → has_byte b (s ++ b ∷ t) ≡ true
unfolding has_byte
has_byte-append b [] t = ground arith
has_byte-append b (c ∷ s) t = ground (arith, has_byte-append b s t)

pub str_eq-has_byte :
    (b : ℕ) (s t : Bytes) → has_byte b s ≡ false → has_byte b t ≡ true → str_eq s t ≡ false
unfolding has_byte str_eq
str_eq-has_byte b [] [] h k = ground arith
str_eq-has_byte b [] (d ∷ t) h k = refl
str_eq-has_byte b (c ∷ s) [] h k = refl
str_eq-has_byte b (c ∷ s) (d ∷ t) h k = ground (arith, str_eq-has_byte b s t)

-- Before the first mark, and after it, two texts are compared apart.
pub str_eq-append :
    (b : ℕ) (s t u v : Bytes)
    → has_byte b s ≡ false
    → has_byte b t ≡ false
    → str_eq (s ++ b ∷ u) (t ++ b ∷ v) ≡ (str_eq s t && str_eq u v)
unfolding has_byte str_eq
str_eq-append b [] [] u v h k = ground arith
str_eq-append b [] (d ∷ t) u v h k = ground arith
str_eq-append b (c ∷ s) [] u v h k = ground arith
str_eq-append b (c ∷ s) (d ∷ t) u v h k = ground (arith, str_eq-append b s t u v)
