-- ===== src/Db/Version/Order.antt =====
-- The order of `CompareBinaryVersion` of internal/db/db.go.
use pincher_mcp.Prelude.{
  ◌≡◌, refl, sym, ap, ◌∙◌, true, false, Option, none, some, arith, Bytes, codes, is, str_eq,
  str_eq_refl, str_eq→eq, text_less, text_less_asymm, Bool-cases, inl, inr,
}
use pincher_mcp.Db.Version.{
  ℤ, pos, negsuc, int_less, BinaryVersion, parse_binary_version, Comparison, before, same, after,
  compare_then, compare_numbers, compare_strings, compare_parsed, compare_binary_version,
}

-- The comparison the other way round.
abbrev pub flip : Comparison → Comparison
flip before = after
flip same = same
flip after = before

int_less_asymm : (x y : ℤ) → int_less x y ≡ true → int_less y x ≡ false
unfolding int_less
int_less_asymm (pos m) (pos n) h = ground arith
int_less_asymm (pos m) (negsuc n) h = ground arith
int_less_asymm (negsuc m) (pos n) h = refl
int_less_asymm (negsuc m) (negsuc n) h = ground arith

compare_then-flip :
    (x y : ℤ) (r s : Comparison) → r ≡ flip s → compare_then y x r ≡ flip (compare_then x y s)
unfolding compare_then
compare_then-flip x y r s h = elim (Bool-cases (int_less x y)) [
  | inl e ↦ rw (e, int_less_asymm x y e) refl
  | inr e ↦ rw e (elim (Bool-cases (int_less y x)) [ inl f ↦ rw f refl | inr f ↦ rw f h ])
]

compare_numbers-flip : (u v : BinaryVersion) → compare_numbers v u ≡ flip (compare_numbers u v)
unfolding compare_numbers
compare_numbers-flip u v = compare_then-flip u.major v.major _ _ (
    compare_then-flip u.minor v.minor _ _ (
      compare_then-flip u.patch v.patch _ _ (compare_then-flip u.commits v.commits same same refl)))

compare_strings-flip : (a b : Bytes) → compare_strings b a ≡ flip (compare_strings a b)
unfolding compare_strings
compare_strings-flip a b = elim (Bool-cases (text_less a b)) [
  | inl e ↦ rw (e, text_less_asymm a b e) refl
  | inr e ↦ rw e (elim (Bool-cases (text_less b a)) [ inl f ↦ rw f refl | inr f ↦ rw f refl ])
]

compare_parsed-flip :
    (a b : Bytes) (p q : Option BinaryVersion)
    → compare_parsed b a q p ≡ flip (compare_parsed a b p q)
unfolding compare_parsed
compare_parsed-flip a b (some u) (some v) = compare_numbers-flip u v
compare_parsed-flip a b (some u) none = compare_strings-flip a b
compare_parsed-flip a b none none = compare_strings-flip a b
compare_parsed-flip a b none (some v) = compare_strings-flip a b

compare_then_trans :
    (x y z : ℤ) (r s t : Comparison)
    → (r ≡ before → s ≡ before → t ≡ before)
    → compare_then x y r ≡ before
    → compare_then y z s ≡ before
    → compare_then x z t ≡ before
unfolding compare_then int_less
compare_then_trans (pos l) (pos m) (pos n) r s t f h k = ground (arith, f)
compare_then_trans (pos l) (pos m) (negsuc n) r s t f h k = ground arith
compare_then_trans (pos l) (negsuc m) z r s t f h k = ground arith
compare_then_trans (negsuc l) (pos m) (pos n) r s t f h k = refl
compare_then_trans (negsuc l) (pos m) (negsuc n) r s t f h k = ground arith
compare_then_trans (negsuc l) (negsuc m) (pos n) r s t f h k = refl
compare_then_trans (negsuc l) (negsuc m) (negsuc n) r s t f h k = ground (arith, f)

compare_numbers_trans :
    (u v w : BinaryVersion)
    → compare_numbers u v ≡ before
    → compare_numbers v w ≡ before
    → compare_numbers u w ≡ before
unfolding compare_numbers
compare_numbers_trans u v w = compare_then_trans u.major v.major w.major _ _ _ (
    compare_then_trans u.minor v.minor w.minor _ _ _ (
      compare_then_trans u.patch v.patch w.patch _ _ _
        (compare_then_trans u.commits v.commits w.commits same same same (λ h k. h))))

str_eq-false-sym : (a b : Bytes) → str_eq a b ≡ false → str_eq b a ≡ false
str_eq-false-sym a b h = elim (Bool-cases (str_eq b a)) [
  | inl e ↦ ground (arith, h, str_eq→eq b a e, str_eq_refl a)
  | inr e ↦ e
]

-- Two texts that differ are not both dev.
not_both : (a b : Bytes) → str_eq a b ≡ false → is a "dev" ≡ true → is b "dev" ≡ true → true ≡ false
not_both a b h f g =
    let e : a ≡ b = str_eq→eq a (codes "dev") f ∙ sym (str_eq→eq b (codes "dev") g) in
    sym (str_eq_refl a) ∙ ap (str_eq a) e ∙ h

-- CompareBinaryVersion with its arguments exchanged gives the opposite number, for any two texts.
compare_binary_version-flip :
    (a b : Bytes) → compare_binary_version b a ≡ flip (compare_binary_version a b)
unfolding compare_binary_version
compare_binary_version-flip a b = elim (Bool-cases (str_eq a b)) [
  | inl e ↦ rw (str_eq→eq a b e, str_eq_refl b) refl
  | inr e ↦
      rw (e, str_eq-false-sym a b e)
        (elim (Bool-cases (is a "dev")) [
          | inl f ↦ rw f (elim (Bool-cases (is b "dev")) [
            | inl g ↦ ground (arith, not_both a b e f g)
            | inr g ↦ rw g refl
          ])
          | inr f ↦ rw f (elim (Bool-cases (is b "dev")) [
            | inl g ↦ rw g refl
            | inr g ↦
                rw g (compare_parsed-flip a b (parse_binary_version a) (parse_binary_version b))
          ])
        ])
]

-- The numbers that are read from a text.
abbrev pub IsVersion : Bytes → BinaryVersion → Type 0
IsVersion s v = parse_binary_version s ≡ some v

compare_then-same : (x : ℤ) (r : Comparison) → compare_then x x r ≡ r
unfolding compare_then int_less
compare_then-same (pos n) r = ground arith
compare_then-same (negsuc n) r = ground arith

compare_numbers-same : (u : BinaryVersion) → compare_numbers u u ≡ same
unfolding compare_numbers
compare_numbers-same u =
    compare_then-same u.major _
    ∙ compare_then-same u.minor _
    ∙ compare_then-same u.patch _
    ∙ compare_then-same u.commits same

dev_no_version : parse_binary_version (codes "dev") ≡ none
unfolding parse_binary_version
dev_no_version = refl

not_dev : (s : Bytes) (v : BinaryVersion) → IsVersion s v → is s "dev" ≡ false
not_dev s v p = elim (Bool-cases (is s "dev")) [
  | inl e ↦
      let h : none ≡ some v =
        sym dev_no_version ∙ ap parse_binary_version (sym (str_eq→eq s (codes "dev") e)) ∙ p in
      ground (arith, h)
  | inr e ↦ e
]

abbrev or_else : BinaryVersion → Option BinaryVersion → BinaryVersion
or_else u none = u
or_else u (some v) = v

compare_binary_version-numbers :
    (a b : Bytes) (u v : BinaryVersion)
    → IsVersion a u
    → IsVersion b v
    → compare_binary_version a b ≡ compare_numbers u v
unfolding compare_binary_version compare_parsed
compare_binary_version-numbers a b u v p q = elim (Bool-cases (str_eq a b)) [
  | inl e ↦
      let h : u ≡ v = ap (or_else u) (sym p ∙ ap parse_binary_version (str_eq→eq a b e) ∙ q) in
      rw e (sym (compare_numbers-same v) ∙ ap (λ w. compare_numbers w v) (sym h))
  | inr e ↦ rw (e, not_dev a u p, not_dev b v q, p, q) refl
]

-- Among texts that parseBinaryVersion reads, the order of CompareBinaryVersion is transitive: if a is
-- older than b and b older than c, then a is older than c.
pub compare_binary_version_trans :
    (a b c : Bytes) (u v w : BinaryVersion)
    → IsVersion a u
    → IsVersion b v
    → IsVersion c w
    → compare_binary_version a b ≡ before
    → compare_binary_version b c ≡ before
    → compare_binary_version a c ≡ before
compare_binary_version_trans a b c u v w p q r h k =
    compare_binary_version-numbers a c u w p r
    ∙ compare_numbers_trans u v w (sym (compare_binary_version-numbers a b u v p q) ∙ h)
        (sym (compare_binary_version-numbers b c v w q r) ∙ k)
