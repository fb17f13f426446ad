-- ===== src/Cypher/Parser/Total.antt =====
-- Parsers that end without a panic, within their fuel, and with no more tokens than they got: the
-- rules for the ways in which the parser of internal/cypher/engine.go is put together.
use pincher_mcp.Prelude.{
  ℕ, suc, ◌≤◌, ◌≡◌, String, Bool, true, false, [], ◌∷◌, arith, if◌then◌else◌, Bool-cases, inl, inr,
  is, length, Result, ok, fail, error, panic, out_of_fuel, Ends,
}
use pincher_mcp.Cypher.Token.{Token}
use pincher_mcp.Cypher.Parser.{
  ParseError, Tokens, Parse, and_then, ◌>>=◌, ◌>>◌, pure, raise, first, rest_of, peek, next,
  next_value, peek_is, skip, expect, remaining,
}

-- At most `n` tokens are left.
abbrev pub Leaves : {A : Type 0} → ℕ → Result ParseError (A × Tokens) → Type 0
Leaves n r = Ends (λ x. length x.1 ≤ n) r

pub record Total {A : Type 0} (m : Parse A) : Type 0 where
  pub at : (ts : Tokens) → Leaves (length ts) (m ts)

pub length-rest_of : (ts : Tokens) → length (rest_of ts) ≤ length ts
length-rest_of [] = omega arith
length-rest_of (t ∷ ts) = omega arith

module _ {A B : Type 0} where
  -- After a part that leaves at most `n` tokens, the rest has to end from there.
  pub Leaves-and_then :
      (n k : ℕ) (r : Result ParseError (A × Tokens)) (f : A → Parse B)
      → Leaves n r
      → ((a : A) (rest : Tokens) → length rest ≤ n → Leaves k (f a rest))
      → Leaves k (and_then f r)
  Leaves-and_then n k (ok (a, rest)) f h g = g a rest h
  Leaves-and_then n k (fail (error e)) f h g = tt
  Leaves-and_then n k (fail panic) f h g = h
  Leaves-and_then n k (fail out_of_fuel) f h g = h

module _ {A : Type 0} where
  pub Leaves-le : (n k : ℕ) (r : Result ParseError (A × Tokens)) → Leaves n r → n ≤ k → Leaves k r
  Leaves-le n k (ok (a, rest)) h l = omega arith
  Leaves-le n k (fail (error e)) h l = tt
  Leaves-le n k (fail panic) h l = h
  Leaves-le n k (fail out_of_fuel) h l = h

module _ {A B : Type 0} where
  -- A sequence, at one state.
  pub Leaves-bind :
      (m : Parse A) (f : A → Parse B) (ts : Tokens) (k : ℕ)
      → Total m
      → ((a : A) (rest : Tokens) → length rest ≤ length ts → Leaves k (f a rest))
      → Leaves k ((m >>= f) ts)
  unfolding ◌>>=◌
  Leaves-bind m f ts k h g = Leaves-and_then (length ts) k (m ts) f (h.at ts) g

  -- The same where the first part ends only from this state, as a loop on fuel does.
  pub Leaves-seq :
      (m : Parse A) (f : A → Parse B) (ts : Tokens) (j k : ℕ)
      → Leaves j (m ts)
      → ((a : A) (rest : Tokens) → length rest ≤ j → Leaves k (f a rest))
      → Leaves k ((m >>= f) ts)
  unfolding ◌>>=◌
  Leaves-seq m f ts j k h g = Leaves-and_then j k (m ts) f h g

  pub Leaves-then :
      (m : Parse A) (n : Parse B) (ts : Tokens) (k : ℕ)
      → Total m
      → ((rest : Tokens) → length rest ≤ length ts → Leaves k (n rest))
      → Leaves k ((m >> n) ts)
  unfolding ◌>>◌
  Leaves-then m n ts k h g =
      Leaves-and_then (length ts) k (m ts) (λ _. n) (h.at ts) (λ a rest l. g rest l)

  pub Total-bind :
      (m : Parse A) (f : A → Parse B) → Total m → ((a : A) → Total (f a)) → Total (m >>= f)
  Total-bind m f h g = record {
    at = λ ts.
        Leaves-bind m f ts (length ts) h
          (λ a rest l. Leaves-le (length rest) (length ts) (f a rest) ((g a).at rest) l);
  }

  pub Total-then : (m : Parse A) (n : Parse B) → Total m → Total n → Total (m >> n)
  unfolding ◌>>◌
  Total-then m n h g = record {
    at = λ ts.
        Leaves-and_then (length ts) (length ts) (m ts) (λ _. n) (h.at ts)
          (λ a rest l. Leaves-le (length rest) (length ts) (n rest) (g.at rest) l);
  }

module _ {A : Type 0} where
  pub Total-if : (b : Bool) (m n : Parse A) → Total m → Total n → Total (if b then m else n)
  Total-if true m n h k = h
  Total-if false m n h k = k

  pub Total-pure : (a : A) → Total (pure a)
  unfolding pure
  Total-pure a = record { at = λ ts. omega arith }

  pub Total-raise : (e : ParseError) → Total (raise {A = A} e)
  unfolding raise
  Total-raise e = record { at = λ ts. tt }

pub Total-peek : Total peek
unfolding peek
Total-peek = record { at = λ ts. omega arith }

pub Total-next : Total next
unfolding next
Total-next = record { at = λ ts. length-rest_of ts }

pub Total-next_value : Total next_value
unfolding next_value
Total-next_value = record { at = λ ts. length-rest_of ts }

pub Total-peek_is : (val : String) → Total (peek_is val)
unfolding peek_is
Total-peek_is val = record { at = λ ts. omega arith }

pub Total-skip : (val : String) → Total (skip val)
unfolding skip
Total-skip val = record {
  at = λ ts. elim (Bool-cases (is (first ts).value val)) [
    | inl h ↦ rw h (length-rest_of ts)
    | inr h ↦ rw h (omega arith)
  ];
}

pub Total-expect : (val : String) → Total (expect val)
unfolding expect
Total-expect val = record {
  at = λ ts. elim (Bool-cases (is (first ts).value val)) [
    | inl h ↦ rw h (length-rest_of ts)
    | inr h ↦ rw h tt
  ];
}

taken :
    (val : String) (ts : Tokens)
    → is [] val ≡ false
    → is (first ts).value val ≡ true
    → suc (length (rest_of ts)) ≤ length ts
taken val [] h k = cc
taken val (t ∷ ts) h k = omega arith

module _ {B : Type 0} where
  -- A branch on the next token: where the test passes, a token was there, and `next` takes it.
  pub Leaves-test :
      (val : String) (m n : Parse B) (ts : Tokens) (k : ℕ)
      → is [] val ≡ false
      → ((rest : Tokens) → suc (length rest) ≤ length ts → Leaves k (m rest))
      → Leaves k (n ts)
      → Leaves k ((peek_is val >>= λ b. if b then (next >> m) else n) ts)
  unfolding ◌>>=◌ ◌>>◌ peek_is next
  Leaves-test val m n ts k empty h g = elim (Bool-cases (is (first ts).value val)) [
    | inl e ↦ rw e (h (rest_of ts) (taken val ts empty e))
    | inr e ↦ rw e g
  ]

pub Total-remaining : Total remaining
unfolding remaining
Total-remaining = record { at = λ ts. omega arith }

pub ruleset total_rules = (
  Total-bind, Total-then, Total-if, Total-pure, Total-raise, Total-peek, Total-next,
  Total-next_value, Total-peek_is, Total-skip, Total-expect, Total-remaining,
)

-- A part that takes a token wherever there is one, or fails.
pub record Strict {A : Type 0} (m : Parse A) : Type 0 where
  pub at : (t : Token) (ts : Tokens) → Leaves (length ts) (m (t ∷ ts))

module _ {A : Type 0} where
  pub Strict-next : (m : Parse A) → Total m → Strict (next >> m)
  unfolding next ◌>>◌
  Strict-next m h = record { at = λ t ts. h.at ts }

  pub Strict-raise : (e : ParseError) → Strict (raise {A = A} e)
  unfolding raise
  Strict-raise e = record { at = λ t ts. tt }

  pub Strict-if : (b : Bool) (m n : Parse A) → Strict m → Strict n → Strict (if b then m else n)
  Strict-if true m n h k = h
  Strict-if false m n h k = k

  pub Strict-peek : (f : Token → Parse A) → ((t : Token) → Strict (f t)) → Strict (peek >>= f)
  unfolding peek ◌>>=◌
  Strict-peek f h = record { at = λ t ts. (h t).at t ts }

pub ruleset strict_rules = (Strict-next, Strict-raise, Strict-if, Strict-peek)
