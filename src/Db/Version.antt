-- ===== src/Db/Version.antt =====
-- `CompareBinaryVersion` and `parseBinaryVersion` of internal/db/db.go.
pub mod Order
use pincher_mcp.Prelude.{
  ℕ, suc, ◌+◌, ◌-◌, ◌*◌, ◌^◌, Bool, true, false, ◌||◌, not, List, [], ◌∷◌, Option, none, some,
  if◌then◌else◌, ltb, leb, ◌==◌, Bytes, String, codes, is, str_eq, text_less, has_byte, is_digit,
  max_int, span,
}

-- Go's int; `negsuc n` is -1 - n.
pub data ℤ : Type 0 where
  pos negsuc : ℕ → ℤ

unfoldable pub int_less : ℤ → ℤ → Bool
int_less (pos m) (pos n) = ltb m n
int_less (pos m) (negsuc n) = false
int_less (negsuc m) (pos n) = true
int_less (negsuc m) (negsuc n) = ltb n m

-- The number that digits stand for, after the number of those before.
digits : ℕ → Bytes → Option ℕ
digits n [] = some n
digits n (c ∷ s) = let rest = digits (n * 10 + (c - b'0')) s in if is_digit c then rest else none

number_of : Bytes → Option ℕ
unfolding digits
number_of [] = none
number_of (c ∷ s) = digits 0 (c ∷ s)

positive : Option ℕ → Option ℤ
positive none = none
positive (some n) = if leb n max_int then some (pos n) else none

negative : Option ℕ → Option ℤ
negative none = none
negative (some n) =
    if n == 0 then some (pos 0) else if leb n (suc max_int) then some (negsuc (n - 1)) else none

-- `strconv.Atoi` with its signs; `none` is an error.
unfoldable pub atoi_int : Bytes → Option ℤ
unfolding number_of positive negative
atoi_int [] = none
atoi_int (c ∷ s) =
    if c == b'+'
    then positive (number_of s)
    else if c == b'-'
    then negative (number_of s)
    else positive (number_of (c ∷ s))

-- The four numbers that `parseBinaryVersion` fills in.
pub record BinaryVersion : Type 0 where
  pub major : ℤ
  pub minor : ℤ
  pub patch : ℤ
  pub commits : ℤ

infixl 1 ◌>>=◌
◌>>=◌ : {A B : Type 0} → Option A → (A → Option B) → Option B
none >>= f = none
some x >>= f = f x

-- What stands before the first such byte, and after it.
unfoldable pub cut : ℕ → Bytes → Option (Bytes × Bytes)
cut b [] = none
cut b (c ∷ s) =
    let rest : Option (Bytes × Bytes) = elim (cut b s) [
      | none ↦ none
      | some (u, v) ↦ some (c ∷ u, v)
    ] in
    if b == c then some ([], s) else rest

-- `rest[:dash2]`, for a dash that is not the first byte
unfoldable pub leading : Bytes → Bytes
unfolding cut
leading s = elim (cut b'-' s) [ none ↦ s | some ([], v) ↦ s | some (c ∷ u, v) ↦ c ∷ u ]

unfoldable pub trim_v : Bytes → Bytes
trim_v [] = []
trim_v (c ∷ s) = if c == b'v' then s else c ∷ s

-- The three parts of a text at its first two dots.
unfoldable pub three_parts : Bytes → Option (Bytes × (Bytes × Bytes))
unfolding cut ◌>>=◌
three_parts s = do (a, s2) ← cut b'.' s; (b, c) ← cut b'.' s2; some (a, (b, c))

unfoldable pub parse_core : Bytes → ℤ → Option BinaryVersion
unfolding three_parts atoi_int ◌>>=◌
parse_core core commits = do
  (a, (b, c)) ← three_parts core
  major ← atoi_int a
  minor ← atoi_int b
  patch ← atoi_int c
  some (record { major = major; minor = minor; patch = patch; commits = commits })

unfoldable pub parse_binary_version : Bytes → Option BinaryVersion
unfolding trim_v leading parse_core
parse_binary_version s = elim (cut b'-' (trim_v s)) [
  | none ↦ parse_core (trim_v s) (pos 0)
  | some (core, rest) ↦ elim (atoi_int (leading rest)) [ none ↦ none | some n ↦ parse_core core n ]
]

-- The results -1, 0 and 1.
pub data Comparison : Type 0 where
  before same after : Comparison

-- One round of the loop, and what the later ones give.
unfoldable pub compare_then : ℤ → ℤ → Comparison → Comparison
unfolding int_less
compare_then x y later = if int_less x y then before else if int_less y x then after else later

unfoldable pub compare_numbers : BinaryVersion → BinaryVersion → Comparison
unfolding compare_then
compare_numbers u v = compare_then u.major v.major (
    compare_then u.minor v.minor
      (compare_then u.patch v.patch (compare_then u.commits v.commits same)))

unfoldable pub compare_strings : Bytes → Bytes → Comparison
compare_strings a b = if text_less a b then before else if text_less b a then after else same

unfoldable pub compare_parsed :
    Bytes → Bytes → Option BinaryVersion → Option BinaryVersion → Comparison
unfolding compare_numbers compare_strings
compare_parsed a b (some u) (some v) = compare_numbers u v
compare_parsed a b (some u) none = compare_strings a b
compare_parsed a b none q = compare_strings a b

unfoldable pub compare_binary_version : Bytes → Bytes → Comparison
unfolding compare_parsed parse_binary_version
compare_binary_version a b =
    if str_eq a b
    then same
    else if is a "dev"
    then before
    else if is b "dev"
    then after
    else compare_parsed a b (parse_binary_version a) (parse_binary_version b)
