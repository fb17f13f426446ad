-- ===== src/Prelude/Sorting.antt =====
-- A stable sort, as `sort.SliceStable` and ORDER BY make it, and what it keeps.
use Prim.Native.Nat.{ℕ, zero, suc, ◌≤◌}
use mathlib.Core.Path.{◌≡◌, refl, sym, ap, ap₂, ◌∙◌}
use mathlib.Core.Bool.{Bool, true, false, ◌||◌}
use mathlib.Core.List.{List, [], ◌∷◌, ◌++◌, Perm}
use mathlib.Core.List.Perm
use native.Mathlib.Omega.{arith}
use pincher_mcp.Prelude.Tests.{if◌then◌else◌, Bool-cases}
use pincher_mcp.Prelude.Lists.{length, any, All}
use mathlib.Core.Logic.{◌⊎◌, inl, inr}

module _ {ℓ} {A : Type ℓ} where
  -- The first members, no more than `n`.
  abbrev pub take : ℕ → List A → List A
  take zero xs = []
  take (suc n) [] = []
  take (suc n) (x ∷ xs) = x ∷ take n xs

  abbrev pub drop : ℕ → List A → List A
  drop zero xs = xs
  drop (suc n) [] = []
  drop (suc n) (x ∷ xs) = drop n xs

  pub length-take : (n : ℕ) (xs : List A) → length (take n xs) ≤ n
  length-take zero xs = omega arith
  length-take (suc n) [] = omega arith
  length-take (suc n) (x ∷ xs) = omega (arith, length-take n xs)

  pub length-take_less : (n : ℕ) (xs : List A) → n ≤ length xs → length (take n xs) ≡ n
  length-take_less zero xs h = refl
  length-take_less (suc n) [] h = absurd (omega arith)
  length-take_less (suc n) (x ∷ xs) h = omega (arith, length-take_less n xs)

  -- The members after the first `n`, of which there are none where the first are fewer.
  pub split_take :
      (n : ℕ) (xs : List A)
      → (rest : List A) × (xs ≡ take n xs ++ rest) × ((length (take n xs) ≡ n) ⊎ (rest ≡ []))
  split_take zero xs = (xs, refl, inl refl)
  split_take (suc n) [] = ([], refl, inr refl)
  split_take (suc n) (x ∷ xs) =
      let (rest, e, full) = split_take n xs in
      (rest, ap (◌∷◌ x) e, elim full [ inl h ↦ inl (ap suc h) | inr h ↦ inr h ])

  pub take-all : (n : ℕ) (xs : List A) → length xs ≤ n → take n xs ≡ xs
  take-all zero [] h = refl
  take-all zero (x ∷ xs) h = absurd (omega arith)
  take-all (suc n) [] h = refl
  take-all (suc n) (x ∷ xs) h = ap (◌∷◌ x) (take-all n xs (omega arith))

module _ {ℓ} {A : Type ℓ} (less : A → A → Bool) where
  -- Before the first member that is not less.
  unfoldable pub place : A → List A → List A
  place x [] = x ∷ []
  place x (y ∷ ys) = if less y x then y ∷ place x ys else x ∷ y ∷ ys

  unfoldable pub sort_by : List A → List A
  unfolding place
  sort_by [] = []
  sort_by (x ∷ xs) = place x (sort_by xs)

  -- No member is less than the one before it.
  abbrev pub IsOrdered : List A → Type 0
  IsOrdered [] = Unit
  IsOrdered (x ∷ []) = Unit
  IsOrdered (x ∷ y ∷ ys) = (less y x ≡ false) × IsOrdered (y ∷ ys)

  any-place : (p : A → Bool) (x : A) (xs : List A) → any p (place x xs) ≡ (p x || any p xs)
  unfolding place
  any-place p x [] = refl
  any-place p x (y ∷ ys) = ground (arith, any-place p x ys)

  pub any-sort_by : (p : A → Bool) (xs : List A) → any p (sort_by xs) ≡ any p xs
  unfolding sort_by
  any-sort_by p [] = refl
  any-sort_by p (x ∷ xs) = ground (arith, any-place p x (sort_by xs), any-sort_by p xs)

  place-perm : (x : A) (xs : List A) → Perm (place x xs) (x ∷ xs)
  unfolding place
  place-perm x [] = Perm.rfl
  place-perm x (y ∷ ys) = elim (Bool-cases (less y x)) [
    | inl e ↦ rw e (Perm.trans (Perm.cons y (place-perm x ys)) (Perm.swap x y ys))
    | inr e ↦ rw e Perm.rfl
  ]

  pub sort_by-perm : (xs : List A) → Perm (sort_by xs) xs
  unfolding sort_by
  sort_by-perm [] = Perm.rfl
  sort_by-perm (x ∷ xs) = Perm.trans (place-perm x (sort_by xs)) (Perm.cons x (sort_by-perm xs))

  length-place : (x : A) (xs : List A) → length (place x xs) ≡ suc (length xs)
  unfolding place
  length-place x [] = refl
  length-place x (y ∷ ys) = ground (arith, length-place x ys)

  pub length-sort_by : (xs : List A) → length (sort_by xs) ≡ length xs
  unfolding sort_by
  length-sort_by [] = refl
  length-sort_by (x ∷ xs) = omega (arith, length-place x (sort_by xs), length-sort_by xs)

  module _ (asym : (x y : A) → less x y ≡ true → less y x ≡ false) where
    place-IsOrdered : (x : A) (xs : List A) → IsOrdered xs → IsOrdered (place x xs)
    unfolding place
    place-IsOrdered x [] h = tt
    place-IsOrdered x (y ∷ []) h = ground (arith, asym y x)
    place-IsOrdered x (y ∷ z ∷ ys) (h, k) = ground (arith, asym y x, place-IsOrdered x (z ∷ ys) k)

    pub sort_by-IsOrdered : (xs : List A) → IsOrdered (sort_by xs)
    unfolding sort_by
    sort_by-IsOrdered [] = tt
    sort_by-IsOrdered (x ∷ xs) = place-IsOrdered x (sort_by xs) (sort_by-IsOrdered xs)

-- No two members are alike.
abbrev pub Once {ℓ} : {A : Type ℓ} → (A → A → Bool) → List A → Type 0
Once alike [] = Unit
Once alike (x ∷ xs) = (any (alike x) xs ≡ false) × Once alike xs

module _ {ℓ} {A : Type ℓ} (alike : A → A → Bool) where
  any-take : (p : A → Bool) (n : ℕ) (xs : List A) → any p xs ≡ false → any p (take n xs) ≡ false
  any-take p zero xs h = refl
  any-take p (suc n) [] h = refl
  any-take p (suc n) (x ∷ xs) h = ground (arith, any-take p n xs)

  pub take-Once : (n : ℕ) (xs : List A) → Once alike xs → Once alike (take n xs)
  take-Once zero xs h = tt
  take-Once (suc n) [] h = tt
  take-Once (suc n) (x ∷ xs) (new, h) = (any-take (alike x) n xs new, take-Once n xs h)

  module _ (less : A → A → Bool) (symm : (x y : A) → alike x y ≡ alike y x) where
    place-Once :
        (x : A) (xs : List A)
        → any (alike x) xs ≡ false
        → Once alike xs
        → Once alike (place less x xs)
    unfolding place
    place-Once x [] new h = (refl, tt)
    place-Once x (y ∷ ys) new (new_y, h) = elim (Bool-cases (less y x)) [
      | inl e ↦ rw e (
        ground (arith, any-place less (alike y) x ys, symm x y),
        place-Once x ys (ground arith) h,
      )
      | inr e ↦ rw e (new, (new_y, h))
    ]

    pub sort_by-Once : (xs : List A) → Once alike xs → Once alike (sort_by less xs)
    unfolding sort_by
    sort_by-Once [] h = tt
    sort_by-Once (x ∷ xs) (new, h) =
        place-Once x (sort_by less xs) (any-sort_by less (alike x) xs ∙ new) (sort_by-Once xs h)

-- No member is less than one before it.
abbrev pub IsSortedBy {ℓ} : {A : Type ℓ} → (A → A → Bool) → List A → Type 0
IsSortedBy less [] = Unit
IsSortedBy less (x ∷ xs) = (any (λ y. less y x) xs ≡ false) × IsSortedBy less xs

-- Where `less` is a strict weak order on the values with the property, the sort orders them.
module _ {ℓ} {A : Type ℓ} (less : A → A → Bool) (P : A → Type 0)
    (asym : (x y : A) → P x → P y → less x y ≡ true → less y x ≡ false)
    (cotrans : (x y z : A)
      → P x
      → P y
      → P z
      → less x z ≡ true
      → (less x y || less y z) ≡ true) where
  none_less :
      (x y : A) (ys : List A)
      → P x
      → P y
      → All P ys
      → less y x ≡ false
      → any (λ z. less z y) ys ≡ false
      → any (λ z. less z x) ys ≡ false
  none_less x y [] px py ps h k = refl
  none_less x y (z ∷ ys) px py (pz, ps) h k =
      ground (arith, none_less x y ys px py ps h, cotrans z y x pz py px)

  All-place : (x : A) (xs : List A) → P x → All P xs → All P (place less x xs)
  unfolding place
  All-place x [] px ps = (px, tt)
  All-place x (y ∷ ys) px (py, ps) = elim (Bool-cases (less y x)) [
    | inl e ↦ rw e (py, All-place x ys px ps)
    | inr e ↦ rw e (px, (py, ps))
  ]

  pub All-sort_by : (xs : List A) → All P xs → All P (sort_by less xs)
  unfolding sort_by
  All-sort_by [] ps = tt
  All-sort_by (x ∷ xs) (px, ps) = All-place x (sort_by less xs) px (All-sort_by xs ps)

  place-IsSortedBy :
      (x : A) (xs : List A)
      → P x
      → All P xs
      → IsSortedBy less xs
      → IsSortedBy less (place less x xs)
  unfolding place
  place-IsSortedBy x [] px ps h = (refl, tt)
  place-IsSortedBy x (y ∷ ys) px (py, ps) (low, h) = elim (Bool-cases (less y x)) [
    | inl e ↦ rw e (
      ground (arith, any-place less (λ z. less z y) x ys, asym y x py px e),
      place-IsSortedBy x ys px ps h,
    )
    | inr e ↦ rw e (ground (arith, none_less x y ys px py ps e low), (low, h))
  ]

  pub sort_by-IsSortedBy : (xs : List A) → All P xs → IsSortedBy less (sort_by less xs)
  unfolding sort_by
  sort_by-IsSortedBy [] ps = tt
  sort_by-IsSortedBy (x ∷ xs) (px, ps) =
      place-IsSortedBy x (sort_by less xs) px (All-sort_by xs ps) (sort_by-IsSortedBy xs ps)

-- Two comparisons that agree on the values with the property sort such lists alike.
module _ {ℓ} {A : Type ℓ} (f g : A → A → Bool) (P : A → Type 0)
    (same : (x y : A) → P x → P y → f x y ≡ g x y) where
  none_before :
      (x : A) (xs : List A)
      → P x
      → All P xs
      → any (λ y. f y x) xs ≡ false
      → any (λ y. g y x) xs ≡ false
  none_before x [] px ps h = refl
  none_before x (y ∷ ys) px (py, ps) h = ground (arith, none_before x ys px ps, same y x py px)

  pub IsSortedBy-same : (xs : List A) → All P xs → IsSortedBy f xs → IsSortedBy g xs
  IsSortedBy-same [] ps h = tt
  IsSortedBy-same (x ∷ xs) (px, ps) (low, h) = (none_before x xs px ps low, IsSortedBy-same xs ps h)

-- Each member is less than all those after it.
abbrev pub IsStrict {ℓ} : {A : Type ℓ} → (A → A → Bool) → List A → Type 0
IsStrict less [] = Unit
IsStrict less (x ∷ xs) = All (λ y. less x y ≡ true) xs × IsStrict less xs

-- Lists without repetition, in an order in which members that are not alike are comparable.
module _ {ℓ} {A : Type ℓ} (less alike : A → A → Bool)
    (comparable : (x y : A) → alike x y ≡ false → less y x ≡ false → less x y ≡ true) where
  less_every :
      (x : A) (xs : List A)
      → any (λ y. less y x) xs ≡ false
      → any (alike x) xs ≡ false
      → All (λ y. less x y ≡ true) xs
  less_every x [] h k = tt
  less_every x (y ∷ ys) h k =
      (comparable x y (ground arith) (ground arith), less_every x ys (ground arith) (ground arith))

  pub Once-IsStrict : (xs : List A) → IsSortedBy less xs → Once alike xs → IsStrict less xs
  Once-IsStrict [] h k = tt
  Once-IsStrict (x ∷ xs) (low, h) (new, k) = (less_every x xs low new, Once-IsStrict xs h k)

-- Two strict lists with the same members are the same list.
module _ {ℓ} {A : Type ℓ} (less same : A → A → Bool) (same→eq : (x y : A) → same x y ≡ true → x ≡ y)
    (same_refl : (x : A) → same x x ≡ true)
    (asym : (x y : A) → less x y ≡ true → less y x ≡ false) where
  less_member :
      (x y : A) (ys : List A)
      → All (λ z. less y z ≡ true) ys
      → any (same x) ys ≡ true
      → less y x ≡ true
  less_member x y [] h k = ground arith
  less_member x y (z ∷ zs) (hz, h) k = elim (Bool-cases (same x z)) [
    | inl e ↦ ap (less y) (same→eq x z e) ∙ hz
    | inr e ↦ less_member x y zs h (ground arith)
  ]

  not_later : (x : A) (xs : List A) → All (λ z. less x z ≡ true) xs → any (same x) xs ≡ false
  not_later x xs h = elim (Bool-cases (any (same x) xs)) [
    | inl e ↦ let l = less_member x x xs h e in ground (arith, asym x x l)
    | inr e ↦ e
  ]

  heads :
      (x y : A) (xs ys : List A)
      → IsStrict less (x ∷ xs)
      → IsStrict less (y ∷ ys)
      → ((z : A) → any (same z) (x ∷ xs) ≡ any (same z) (y ∷ ys))
      → same x y ≡ true
  heads x y xs ys (h, hs) (k, ks) e = elim (Bool-cases (same x y)) [
    | inl f ↦ f
    | inr f ↦ elim (Bool-cases (same y x)) [
      | inl g ↦ ap (same x) (same→eq y x g) ∙ same_refl x
      | inr g ↦
          let yx = less_member x y ys k (ground (arith, e x, same_refl x)) in
          let xy = less_member y x xs h (ground (arith, e y, same_refl y)) in
          ground (arith, asym x y xy)
    ]
  ]

  pub strict_ext :
      (xs ys : List A)
      → IsStrict less xs
      → IsStrict less ys
      → ((z : A) → any (same z) xs ≡ any (same z) ys)
      → xs ≡ ys
  strict_ext [] [] h k e = refl
  strict_ext [] (y ∷ ys) h k e = ground (arith, e y, same_refl y)
  strict_ext (x ∷ xs) [] h k e = ground (arith, e x, same_refl x)
  strict_ext (x ∷ xs) (y ∷ ys) h k e =
      let eq = same→eq x y (heads x y xs ys h k e) in
      ap₂ ◌∷◌ eq (strict_ext xs ys h.1 k.1 (λ z. rest z eq))
    where
      rest : (z : A) → x ≡ y → any (same z) xs ≡ any (same z) ys
      rest z eq = elim (Bool-cases (same z x)) [
        | inl f ↦
            let zx = same→eq z x f in
            ap (λ t. any (same t) xs) zx
            ∙ not_later x xs h.0
            ∙ sym (ap (λ t. any (same t) ys) (zx ∙ eq) ∙ not_later y ys k.0)
        | inr f ↦ ground (arith, f, e z, ap (same z) eq)
      ]
