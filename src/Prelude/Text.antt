-- ===== src/Prelude/Text.antt =====
-- Go strings as lists of bytes, and the operations of `strings` and `strconv` that the source uses.
use Prim.Native.Nat.{ℕ, zero, suc, ◌+◌, ◌-◌, ◌*◌, ◌/◌, ◌%◌, ◌^◌, ◌≤◌}
use Prim.Native.Char.{code}
use Prim.Native.String.{String}
use mathlib.Core.Path.{◌≡◌, refl}
use mathlib.Core.Logic.{◌↔◌, inl, inr}
use mathlib.Core.Bool.{Bool, true, false, ◌&&◌, ◌||◌}
use mathlib.Core.List.{List, [], ◌∷◌, ◌++◌, map}
use native.Mathlib.Omega.{arith}
use pincher_mcp.Prelude.Tests.{◌==◌, leb, ltb, if◌then◌else◌, Bool-cases, ==_refl}
use pincher_mcp.Prelude.Lists.{length}

abbrev pub Bytes : Type 0
Bytes = List ℕ

-- The bytes of an ASCII literal.
abbrev pub codes : String → Bytes
codes String.[] = []
codes (String.◌∷◌ c s) = code c ∷ codes s

-- Equality of Go strings.
unfoldable pub str_eq : Bytes → Bytes → Bool
str_eq [] [] = true
str_eq [] (b ∷ t) = false
str_eq (a ∷ s) [] = false
str_eq (a ∷ s) (b ∷ t) = a == b && str_eq s t

-- Equality with a literal.
abbrev pub is : Bytes → String → Bool
is v s = str_eq v (codes s)

pub str_eq_refl : (s : Bytes) → str_eq s s ≡ true
unfolding str_eq
str_eq_refl [] = refl
str_eq_refl (a ∷ s) = ground (arith, str_eq_refl s, ==_refl a)

pub str_eq→eq : (s t : Bytes) → str_eq s t ≡ true → s ≡ t
unfolding str_eq
str_eq→eq [] [] h = refl
str_eq→eq [] (b ∷ t) h = ground arith
str_eq→eq (a ∷ s) [] h = ground arith
str_eq→eq (a ∷ s) (b ∷ t) h = ground (arith, str_eq→eq s t)

-- A text is equal to itself and to no other.
pub str_eq_iff : (s t : Bytes) → (str_eq s t ≡ true) ↔ (s ≡ t)
str_eq_iff s t = (
  str_eq→eq s t,
  λ e. elim (Bool-cases (str_eq s t)) [ inl h ↦ h | inr h ↦ ground (arith, e, str_eq_refl t) ],
)

-- One of a list of literals, as in a Go `case`.
unfoldable pub one_of : Bytes → List String → Bool
unfolding str_eq
one_of v [] = false
one_of v (s ∷ ss) = is v s || one_of v ss

-- `s == ""`
abbrev pub is_empty : Bytes → Bool
is_empty [] = true
is_empty (c ∷ s) = false

-- The order of Go's `<` on texts, and of SQLite's ORDER BY: byte by byte.
unfoldable pub text_less : Bytes → Bytes → Bool
text_less [] [] = false
text_less [] (c ∷ t) = true
text_less (b ∷ s) [] = false
text_less (b ∷ s) (c ∷ t) = ltb b c || b == c && text_less s t

pub text_less_asymm : (s t : Bytes) → text_less s t ≡ true → text_less t s ≡ false
unfolding text_less
text_less_asymm [] [] h = ground arith
text_less_asymm [] (c ∷ t) h = refl
text_less_asymm (b ∷ s) [] h = ground arith
text_less_asymm (b ∷ s) (c ∷ t) h = ground (arith, text_less_asymm s t)

pub text_less_cotrans :
    (s t u : Bytes) → text_less s u ≡ true → (text_less s t || text_less t u) ≡ true
unfolding text_less
text_less_cotrans [] [] u h = ground arith
text_less_cotrans [] (c ∷ t) u h = refl
text_less_cotrans (b ∷ s) t [] h = ground arith
text_less_cotrans (b ∷ s) [] (d ∷ u) h = ground arith
text_less_cotrans (b ∷ s) (c ∷ t) (d ∷ u) h = ground (arith, text_less_cotrans s t u)

pub text_less_total : (s t : Bytes) → (str_eq s t || (text_less s t || text_less t s)) ≡ true
unfolding str_eq text_less
text_less_total [] [] = refl
text_less_total [] (c ∷ t) = refl
text_less_total (b ∷ s) [] = refl
text_less_total (b ∷ s) (c ∷ t) = ground (arith, text_less_total s t)

pub str_eq_sym : (s t : Bytes) → str_eq s t ≡ str_eq t s
unfolding str_eq
str_eq_sym [] [] = refl
str_eq_sym [] (d ∷ t) = refl
str_eq_sym (c ∷ s) [] = refl
str_eq_sym (c ∷ s) (d ∷ t) = ground (arith, str_eq_sym s t)

-- `strings.HasPrefix`
unfoldable pub has_prefix : Bytes → Bytes → Bool
has_prefix s [] = true
has_prefix [] (p ∷ ps) = false
has_prefix (c ∷ s) (p ∷ ps) = c == p && has_prefix s ps

pub has_prefix-append : (p s : Bytes) → has_prefix (p ++ s) p ≡ true
unfolding has_prefix
has_prefix-append [] [] = refl
has_prefix-append [] (c ∷ s) = refl
has_prefix-append (x ∷ p) s = rw ==_refl (has_prefix-append p s)

-- `strings.Contains`
unfoldable pub contains : Bytes → Bytes → Bool
unfolding has_prefix
contains [] p = has_prefix [] p
contains (c ∷ s) p = has_prefix (c ∷ s) p || contains s p

-- `strings.HasSuffix`
unfoldable pub has_suffix : Bytes → Bytes → Bool
unfolding str_eq
has_suffix [] p = str_eq [] p
has_suffix (c ∷ s) p = str_eq (c ∷ s) p || has_suffix s p

-- `strings.ContainsAny` and `strings.ContainsRune`, for ASCII bytes
unfoldable pub has_byte : ℕ → Bytes → Bool
has_byte b [] = false
has_byte b (c ∷ s) = b == c || has_byte b s

-- The first bytes that pass a test, and what follows them.
unfoldable pub span : (ℕ → Bool) → Bytes → Bytes × Bytes
span p [] = ([], [])
span p (c ∷ s) = let (a, b) = span p s in if p c then (c ∷ a, b) else ([], c ∷ s)

pub length-span : (p : ℕ → Bool) (s : Bytes) → length (span p s).1 ≤ length s
unfolding span
length-span p [] = omega arith
length-span p (c ∷ s) = ground (arith, length-span p s)

abbrev pub is_digit : ℕ → Bool
is_digit c = leb b'0' c && leb c b'9'

abbrev pub is_lower : ℕ → Bool
is_lower c = leb b'a' c && leb c b'z'

abbrev pub is_capital : ℕ → Bool
is_capital c = leb b'A' c && leb c b'Z'

-- `strings.ToUpper` and `strings.ToLower`, for ASCII bytes
unfoldable pub to_upper : Bytes → Bytes
to_upper = map (λ c. if is_lower c then c - 32 else c)

unfoldable pub to_lower : Bytes → Bytes
to_lower = map (λ c. if is_capital c then c + 32 else c)

-- `fmt.Sprint` of a number that is not negative; `n + 1` digits are enough.
unfoldable pub digits_of : ℕ → ℕ → Bytes → Bytes
digits_of zero n out = out
digits_of (suc f) n out =
    let next = (b'0' + n % 10) ∷ out in
    let more = digits_of f (n / 10) next in if ltb n 10 then next else more

unfoldable pub itoa : ℕ → Bytes
unfolding digits_of
itoa n = digits_of (suc n) n []

-- The results of `strconv.Atoi` on a text without a sign. Beside a range error Go returns the
-- greatest int, beside a syntax error 0.
pub data Atoi : Type 0 where
  number : ℕ → Atoi
  syntax range : Atoi

abbrev pub max_int : ℕ
max_int = 2 ^ 63 - 1

abbrev max_uint : ℕ
max_uint = 2 ^ 64 - 1

atoi_from : ℕ → Bytes → Atoi
atoi_from n [] = if leb n max_int then number n else range
atoi_from n (c ∷ s) =
    let n' = n * 10 + (c - b'0') in
    let rest = atoi_from n' s in
    if is_digit c then (if leb n' max_uint then rest else range) else syntax

unfoldable pub atoi : Bytes → Atoi
unfolding atoi_from
atoi [] = syntax
atoi (c ∷ s) = atoi_from 0 (c ∷ s)

-- The number that `n, _ := strconv.Atoi(s)` leaves in `n`.
abbrev pub atoi_value : Atoi → ℕ
atoi_value (number n) = n
atoi_value syntax = 0
atoi_value range = max_int

itoa_300 : itoa 300 ≡ codes "300"
unfolding itoa
itoa_300 = refl

atoi_limits :
    (atoi (codes "9223372036854775807") ≡ number max_int)
    × (atoi (codes "9223372036854775808") ≡ range)
    × (atoi (codes "1.5") ≡ syntax)
unfolding atoi
atoi_limits = (refl, refl, refl)
