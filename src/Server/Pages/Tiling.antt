-- ===== src/Server/Pages/Tiling.antt =====
-- The pages of internal/server/pagination.go, asked for one after another.
use pincher_mcp.Prelude.{
  ℕ, zero, suc, ◌+◌, ◌-◌, ◌≤◌, ◌<◌, ◌≡◌, refl, sym, ap, ◌∙◌, List, [], ◌∷◌, ◌++◌, arith,
  if◌then◌else◌, ltb, leb, Bytes, length, take, drop, Bool-cases, inl, inr, ap₂, append-nil,
  take-all,
}
use pincher_mcp.Server.Pages.{PageParams, slice_window, parse_page_params, page_limit}

module _ {ℓ} {A : Type ℓ} where
  take-append-drop : (n : ℕ) (xs : List A) → take n xs ++ drop n xs ≡ xs
  take-append-drop zero xs = refl
  take-append-drop (suc n) [] = refl
  take-append-drop (suc n) (x ∷ xs) = ap (◌∷◌ x) (take-append-drop n xs)

  drop-nil : (n : ℕ) → drop {A = A} n [] ≡ []
  drop-nil zero = refl
  drop-nil (suc n) = refl

  drop-drop : (m n : ℕ) (xs : List A) → drop n (drop m xs) ≡ drop (m + n) xs
  drop-drop zero n xs = let e : n ≡ 0 + n = omega arith in ap (λ k. drop k xs) e
  drop-drop (suc m) n [] = drop-nil n ∙ sym (drop-nil (suc m + n))
  drop-drop (suc m) n (x ∷ xs) =
      let e : suc (m + n) ≡ suc m + n = omega arith in
      drop-drop m n xs ∙ ap (λ k. drop k (x ∷ xs)) e

  drop-all : (n : ℕ) (xs : List A) → length xs ≤ n → drop n xs ≡ []
  drop-all n [] h = drop-nil n
  drop-all zero (x ∷ xs) h = absurd (omega arith)
  drop-all (suc n) (x ∷ xs) h = drop-all n xs (omega arith)

  length-drop : (n : ℕ) (xs : List A) → length (drop n xs) ≡ length xs - n
  length-drop zero xs = omega arith
  length-drop (suc n) [] = omega arith
  length-drop (suc n) (x ∷ xs) = omega (arith, length-drop n xs)

  -- The page, and the rows after it, are the rows from the offset on.
  page-append-drop :
      (rows : List A) (p : PageParams)
      → (slice_window rows p).page ++ drop (p.offset + p.limit) rows ≡ drop p.offset rows
  unfolding slice_window
  page-append-drop rows p = elim (Bool-cases (leb (length rows) p.offset)) [
    | inl e ↦ rw e (
        drop-all (p.offset + p.limit) rows (ground arith)
        ∙ sym (drop-all p.offset rows (ground arith)))
    | inr e ↦ elim (Bool-cases (ltb (length rows) (p.offset + p.limit))) [
      | inl f ↦
          let rest = drop-all (p.offset + p.limit) rows (ground arith) in
          let whole =
            take-all (length rows - p.offset) (drop p.offset rows)
              (omega (arith, length-drop p.offset rows)) in
          rw (e, f) (ap₂ ◌++◌ whole rest ∙ append-nil (drop p.offset rows))
      | inr f ↦
          let size : p.offset + p.limit - p.offset ≡ p.limit = omega arith in
          rw (e, f)
            (ap₂ ◌++◌ (ap (λ k. take k (drop p.offset rows)) size)
                (sym (drop-drop p.offset p.limit rows))
              ∙ take-append-drop p.limit (drop p.offset rows))
    ]
  ]

  -- There are more rows exactly if some are after the page.
  has_more_lem :
      (rows : List A) (p : PageParams)
      → (slice_window rows p).has_more ≡ ltb (p.offset + p.limit) (length rows)
  unfolding slice_window
  has_more_lem rows p = ground arith

  -- A client that asks for page after page, as long as there are more rows.
  abbrev pub read_pages : ℕ → List A → PageParams → List A
  read_pages zero rows p = []
  read_pages (suc fuel) rows p =
      let rest = read_pages fuel rows (record p { offset = p.offset + p.limit }) in
      (slice_window rows p).page ++ (if (slice_window rows p).has_more then rest else [])

  read_pages_lem :
      (fuel : ℕ) (rows : List A) (p : PageParams)
      → 1 ≤ p.limit
      → length rows < p.offset + fuel
      → read_pages fuel rows p ≡ drop p.offset rows
  read_pages_lem zero rows p h lt = sym (drop-all p.offset rows (omega arith))
  read_pages_lem (suc fuel) rows p h lt =
      let next = record p { offset = p.offset + p.limit } in
      let rest = read_pages_lem fuel rows next h (omega arith) in
      elim (Bool-cases (ltb (p.offset + p.limit) (length rows))) [
        | inl e ↦
            ap (λ t. (slice_window rows p).page ++ t) (rw (has_more_lem rows p, e) rest)
            ∙ page-append-drop rows p
        | inr e ↦
            ap (λ t. (slice_window rows p).page ++ t)
              (rw (has_more_lem rows p, e)
                (sym (drop-all (p.offset + p.limit) rows (ground arith))))
            ∙ page-append-drop rows p
      ]

-- Whatever limit and offset a client asks for, the parsed limit is between 1 and the greatest limit if
-- these and the default limit are at least 1; and asking for page after page from there on, as long as
-- there are more rows, gives the rows from the offset on, each once and in order.
pub slice_window-tiles {ℓ} :
    {A : Type ℓ} (rows : List A) (limit offset : Bytes) (default_limit max_limit : ℕ)
    → 1 ≤ default_limit
    → 1 ≤ max_limit
    → (1 ≤ (parse_page_params limit offset default_limit max_limit).limit)
      × ((parse_page_params limit offset default_limit max_limit).limit ≤ max_limit)
      × (read_pages
            (suc (length rows))
            rows
            (parse_page_params limit offset default_limit max_limit)
          ≡ drop (parse_page_params limit offset default_limit max_limit).offset rows)
unfolding parse_page_params page_limit
slice_window-tiles rows limit offset default_limit max_limit h k =
    let p = parse_page_params limit offset default_limit max_limit in
    let positive : 1 ≤ p.limit = ground arith in
    (positive, ground arith, read_pages_lem (suc (length rows)) rows p positive (omega arith))
