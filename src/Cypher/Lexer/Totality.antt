-- ===== src/Cypher/Lexer/Totality.antt =====
-- The loop of `tokenize` in internal/cypher/engine.go: its rounds, its fuel and its panics.
use pincher_mcp.Prelude.{
  ℕ, zero, suc, ◌≤◌, ◌≡◌, refl, ◌≢◌, inl, inr, Bool, true, false, ◌||◌, ◌&&◌, List, [], ◌∷◌, arith,
  ◌==◌, Bool-cases, Bytes, codes, has_byte, span, length, Option, none, some, Result, ok, fail,
  error, panic, out_of_fuel, is_digit,
}
use pincher_mcp.Cypher.Token.{Token}
use pincher_mcp.Cypher.Lexer.{
  backslash, Scan, Lexeme, scan_string, prepend, literal, single, lex_punct, fraction, lex_number,
  lex_word, lex_one, emit, go_on, lex, tokenize, is_hop_byte, in_word, starts_word, fuses, NoError,
}

-- What one round leaves is a suffix of the text: shorter, and its bytes are the text's.
pub record Leaves (s rest : Bytes) : Type 0 where
  pub shorter : length rest ≤ length s
  bytes : has_byte backslash s ≡ false → has_byte backslash rest ≡ false

Leaves-refl : (s : Bytes) → Leaves s s
Leaves-refl s = record { shorter = omega arith; bytes = λ h. h }

Leaves-cons : (c : ℕ) {s rest : Bytes} → Leaves s rest → Leaves (c ∷ s) rest
unfolding has_byte
Leaves-cons c {s} l = record {
  shorter = omega (arith, l.shorter);
  bytes = λ h. l.bytes (ground arith);
}

Leaves-trans : {s t u : Bytes} → Leaves s t → Leaves t u → Leaves s u
Leaves-trans l m = record {
  shorter = omega (arith, l.shorter, m.shorter);
  bytes = λ h. m.bytes (l.bytes h);
}

span-Leaves : (p : ℕ → Bool) (s : Bytes) → Leaves s (span p s).1
unfolding span
span-Leaves p [] = Leaves-refl []
span-Leaves p (c ∷ s) = elim (Bool-cases (p c)) [
  | inl h ↦ rw h (Leaves-cons c (span-Leaves p s))
  | inr h ↦ rw h (Leaves-refl (c ∷ s))
]

fraction-Leaves : (s : Bytes) → Leaves s (fraction s).1
unfolding fraction
fraction-Leaves [] = Leaves-refl []
fraction-Leaves (p ∷ []) = Leaves-refl (p ∷ [])
fraction-Leaves (p ∷ d ∷ s) = elim (Bool-cases (p == b'.' && is_digit d)) [
  | inl h ↦ rw h (Leaves-cons p (span-Leaves is_digit (d ∷ s)))
  | inr h ↦ rw h (Leaves-refl (p ∷ d ∷ s))
]

-- The rounds that take the first byte by a test which it passes.
span-Leaves_first : (p : ℕ → Bool) (c : ℕ) (s : Bytes) → p c ≡ true → Leaves s (span p (c ∷ s)).1
unfolding span
span-Leaves_first p c s h = rw h (span-Leaves p s)

lex_number-Leaves : (c : ℕ) (s : Bytes) → is_digit c ≡ true → Leaves s (lex_number (c ∷ s)).1
unfolding lex_number
lex_number-Leaves c s h =
    Leaves-trans (span-Leaves_first is_digit c s h) (fraction-Leaves (span is_digit (c ∷ s)).1)

lex_word-Leaves : (c : ℕ) (s : Bytes) → in_word c ≡ true → Leaves s (lex_word (c ∷ s)).1
unfolding lex_word
lex_word-Leaves c s h = span-Leaves_first in_word c s h

single-Leaves : (c : ℕ) (s : Bytes) → Leaves s (single c s).1
unfolding single
single-Leaves c s = elim (Bool-cases (c == b'*')) [
  | inl h ↦ rw h (span-Leaves is_hop_byte s)
  | inr h ↦ rw h (Leaves-refl s)
]

lex_punct-Leaves : (c : ℕ) (s : Bytes) → Leaves s (lex_punct c s).1
unfolding lex_punct
lex_punct-Leaves c [] = single-Leaves c []
lex_punct-Leaves c (d ∷ s) = elim (Bool-cases (fuses c d)) [
  | inl h ↦ rw h (Leaves-cons d (Leaves-refl s))
  | inr h ↦ rw h (single-Leaves c (d ∷ s))
]

-- The outcome of a scan: what is left of `s`, or a panic, which needs a backslash.
abbrev pub Scanned : {A : Type 0} → Bytes → (A → Bytes) → Result NoError A → Type 0
Scanned s left (ok a) = Leaves s (left a)
Scanned s left (fail panic) = has_byte backslash s ≢ false
Scanned s left (fail (error e)) = ⊥
Scanned s left (fail out_of_fuel) = ⊥

abbrev pub after : {A : Type 0} → A × Bytes → Bytes
after x = x.1

prepend-Scanned :
    (p s t : Bytes) (r : Scan (Bytes × Bytes))
    → Leaves s t
    → Scanned t after r
    → Scanned s after (prepend p r)
prepend-Scanned p s t (ok (raw, rest)) l h = Leaves-trans l h
prepend-Scanned p s t (fail panic) l h = λ e. h (l.bytes e)
prepend-Scanned p s t (fail (error e)) l h = h
prepend-Scanned p s t (fail out_of_fuel) l h = h

scan_string-Scanned : (q : ℕ) (s : Bytes) → Scanned s after (scan_string q s)
unfolding scan_string
scan_string-Scanned q [] = Leaves-refl []
scan_string-Scanned q (c ∷ []) = elim (Bool-cases (c == q)) [
  | inl h ↦ rw h (Leaves-cons c (Leaves-refl []))
  | inr h ↦ rw h (elim (Bool-cases (c == backslash)) [
    | inl k ↦ rw k (unfold has_byte in ground arith)
    | inr k ↦ rw k (Leaves-cons c (Leaves-refl []))
  ])
]
scan_string-Scanned q (c ∷ d ∷ s) = elim (Bool-cases (c == q)) [
  | inl h ↦ rw h (Leaves-cons c (Leaves-refl (d ∷ s)))
  | inr h ↦ rw h (elim (Bool-cases (c == backslash)) [
    | inl k ↦ rw k (
        prepend-Scanned (c ∷ d ∷ []) (c ∷ d ∷ s) s (scan_string q s)
          (Leaves-cons c (Leaves-cons d (Leaves-refl s))) (scan_string-Scanned q s))
    | inr k ↦ rw k (
        prepend-Scanned (c ∷ []) (c ∷ d ∷ s) (d ∷ s) (scan_string q (d ∷ s))
          (Leaves-cons c (Leaves-refl (d ∷ s))) (scan_string-Scanned q (d ∷ s)))
  ])
]

literal-Scanned :
    (s : Bytes) (r : Scan (Bytes × Bytes)) → Scanned s after r → Scanned s after (literal r)
literal-Scanned s (ok (raw, rest)) h = h
literal-Scanned s (fail panic) h = h
literal-Scanned s (fail (error e)) h = h
literal-Scanned s (fail out_of_fuel) h = h

starts-in_word : (c : ℕ) → starts_word c ≡ true → in_word c ≡ true
starts-in_word c h = ground arith

pub lex_one-Scanned : (c : ℕ) (s : Bytes) → Scanned s after (lex_one c s)
unfolding lex_one
lex_one-Scanned c s = elim (Bool-cases (c == b' ' || c == 9 || c == 10 || c == 13)) [
  | inl h ↦ rw h (Leaves-refl s)
  | inr h ↦ rw h (elim (Bool-cases (c == 39 || c == b'"')) [
    | inl h ↦ rw h (literal-Scanned s (scan_string c s) (scan_string-Scanned c s))
    | inr h ↦ rw h (elim (Bool-cases (has_byte c (codes "()[]{}:,.*+-><=!~|"))) [
      | inl h ↦ rw h (lex_punct-Leaves c s)
      | inr h ↦ rw h (elim (Bool-cases (is_digit c)) [
        | inl h ↦ rw h (lex_number-Leaves c s h)
        | inr h ↦ rw h (elim (Bool-cases (starts_word c)) [
          | inl h ↦ rw h (lex_word-Leaves c s (starts-in_word c h))
          | inr h ↦ rw h (Leaves-refl s)
        ])
      ])
    ])
  ])
]

-- The outcome of the whole loop.
abbrev Finished : Bytes → Scan (List Token) → Type 0
Finished s (ok ts) = Unit
Finished s (fail panic) = has_byte backslash s ≢ false
Finished s (fail (error e)) = ⊥
Finished s (fail out_of_fuel) = ⊥

emit-Finished :
    (s rest : Bytes) (t : Option Token) (r : Scan (List Token))
    → Leaves s rest
    → Finished rest r
    → Finished s (emit t r)
emit-Finished s rest none (ok ts) l h = tt
emit-Finished s rest none (fail panic) l h = λ e. h (l.bytes e)
emit-Finished s rest none (fail (error e)) l h = h
emit-Finished s rest none (fail out_of_fuel) l h = h
emit-Finished s rest (some t) (ok ts) l h = tt
emit-Finished s rest (some t) (fail panic) l h = λ e. h (l.bytes e)
emit-Finished s rest (some t) (fail (error e)) l h = h
emit-Finished s rest (some t) (fail out_of_fuel) l h = h

go_on-Finished :
    (more : Bytes → Scan (List Token)) (s : Bytes) (r : Scan Lexeme)
    → ((rest : Bytes) → Leaves s rest → Finished rest (more rest))
    → Scanned s after r
    → Finished s (go_on more r)
go_on-Finished more s (ok (t, rest)) k h = emit-Finished s rest t (more rest) h (k rest h)
go_on-Finished more s (fail panic) k h = h
go_on-Finished more s (fail (error e)) k h = h
go_on-Finished more s (fail out_of_fuel) k h = h

Finished-cons : (c : ℕ) (s : Bytes) (r : Scan (List Token)) → Finished s r → Finished (c ∷ s) r
Finished-cons c s (ok ts) h = tt
Finished-cons c s (fail panic) h = λ e. h ((Leaves-cons c (Leaves-refl s)).bytes e)
Finished-cons c s (fail (error e)) h = h
Finished-cons c s (fail out_of_fuel) h = h

lex-Finished : (fuel : ℕ) (s : Bytes) → length s ≤ fuel → Finished s (lex fuel s)
unfolding lex
lex-Finished fuel [] h = tt
lex-Finished zero (c ∷ s) h = absurd (omega arith)
lex-Finished (suc fuel) (c ∷ s) h = Finished-cons c s (go_on (lex fuel) (lex_one c s)) (
    go_on-Finished (lex fuel) s (lex_one c s)
      (λ rest l. lex-Finished fuel rest (omega (arith, l.shorter))) (lex_one-Scanned c s))

-- The fuel of the loop is enough for every text.
pub tokenize-total : (s : Bytes) → tokenize s ≢ fail out_of_fuel
unfolding tokenize
tokenize-total s e = rw e at (lex-Finished (length s) s (omega arith))

Finished-ok :
    (s : Bytes) (r : Scan (List Token))
    → has_byte backslash s ≡ false
    → Finished s r
    → (ts : List Token) × (r ≡ ok ts)
Finished-ok s (ok ts) h f = (ts, refl)
Finished-ok s (fail panic) h f = absurd (f h)
Finished-ok s (fail (error e)) h f = absurd f
Finished-ok s (fail out_of_fuel) h f = absurd f

-- A query without a backslash is split into tokens: no panic, and no loop.
pub tokenize_no_backslash :
    (s : Bytes) → has_byte backslash s ≡ false → (ts : List Token) × (tokenize s ≡ ok ts)
unfolding tokenize
tokenize_no_backslash s h = Finished-ok s _ h (lex-Finished (length s) s (omega arith))
