-- ===== src/Ast/Duplicates/Keys.antt =====
-- What `disambiguateDuplicates` of internal/ast/extractor.go does to the keys of a file's symbols.
use pincher_mcp.Prelude.{
  ℕ, suc, ◌+◌, ◌≤◌, ◌≡◌, refl, ap, ap₂, ◌∙◌, Bool, true, false, ◌&&◌, List, [], ◌∷◌, ◌⊎◌, arith,
  if◌then◌else◌, ltb, leb, ◌==◌, Bytes, str_eq_refl, str_eq_sym, str_eq→eq, has_byte, itoa, length,
  map, any, All, Once, Bool-cases, inl, inr,
}
use pincher_mcp.Ast.Duplicates.{
  ExtractedSymbol, FileResult, Key, symbol_key, same_key, Counts, increment, count_keys,
  put_collision, collisions_of, with_line, rename, no_counts, disambiguate_duplicates,
}
use pincher_mcp.Ast.Duplicates.Names.{
  itoa-injective, has_byte-append, str_eq-has_byte, str_eq-append,
}

abbrev pub same_symbol : ExtractedSymbol → ExtractedSymbol → Bool
same_symbol s t = same_key (symbol_key s) (symbol_key t)

-- Two symbols with one key that start on one line.
abbrev pub same_place : ExtractedSymbol → ExtractedSymbol → Bool
same_place s t = same_symbol s t && s.start_line == t.start_line

-- The name has no mark.
abbrev pub IsPlain : ExtractedSymbol → Type 0
IsPlain s = has_byte b'~' s.qualified_name ≡ false

-- How many symbols have a key.
occurrences : Key → List ExtractedSymbol → ℕ
occurrences k [] = 0
occurrences k (s ∷ ss) =
    let rest = occurrences k ss in if same_key (symbol_key s) k then suc rest else rest

count_keys-occurrences :
    (k : Key) (ss : List ExtractedSymbol) (m : Counts) → count_keys ss m k ≡ m k + occurrences k ss
unfolding count_keys increment occurrences
count_keys-occurrences k [] m = omega arith
count_keys-occurrences k (s ∷ ss) m =
    ground (arith, count_keys-occurrences k ss (increment (symbol_key s) m))

same_key_refl : (k : Key) → same_key k k ≡ true
unfolding same_key
same_key_refl k = rw (str_eq_refl k.qn, str_eq_refl k.kind) refl

same_key→eq : (j k : Key) → same_key j k ≡ true → (j.qn ≡ k.qn) × (j.kind ≡ k.kind)
unfolding same_key
same_key→eq j k h = (str_eq→eq j.qn k.qn (ground arith), str_eq→eq j.kind k.kind (ground arith))

same_key_sym : (j k : Key) → same_key j k ≡ same_key k j
unfolding same_key
same_key_sym j k = rw (str_eq_sym j.qn k.qn, str_eq_sym j.kind k.kind) refl

none_left :
    (s : ExtractedSymbol) (ss : List ExtractedSymbol)
    → occurrences (symbol_key s) ss ≡ 0
    → any (same_symbol s) ss ≡ false
unfolding occurrences
none_left s [] h = refl
none_left s (t ∷ ss) h = ground (arith, same_key_sym (symbol_key s) (symbol_key t), none_left s ss)

occurrences-Once :
    (ss : List ExtractedSymbol)
    → ((s : ExtractedSymbol) → occurrences (symbol_key s) ss ≤ 1)
    → Once same_symbol ss
unfolding occurrences
occurrences-Once [] h = tt
occurrences-Once (s ∷ ss) h = (
  none_left s ss (ground (arith, h s, same_key_refl (symbol_key s))),
  occurrences-Once ss (λ t. ground (arith, h t)),
)

key_eq : (j k : Key) → same_key j k ≡ true → j ≡ k
key_eq j k h = let (e, f) = same_key→eq j k h in ap₂ (λ q d. record { qn = q; kind = d }) e f

increment_at : (k : Key) (m : Counts) → increment k m k ≡ suc (m k)
unfolding increment
increment_at k m = rw (same_key_refl k) refl

increment-le : (j k : Key) (m : Counts) → m k ≤ increment j m k
unfolding increment
increment-le j k m = ground arith

-- No new symbol has the property, if neither the first has it, as it is left, nor the later ones.
any-rename :
    (p : ExtractedSymbol → Bool) (count seen : Counts) (t : ExtractedSymbol)
    (ss : List ExtractedSymbol)
    → ((count (symbol_key t) ≤ 1) ⊎ (seen (symbol_key t) ≡ 0) → p t ≡ false)
    → (1 ≤ seen (symbol_key t) → p (with_line t) ≡ false)
    → any p (rename count seen ss) ≡ false
    → any p (rename count (increment (symbol_key t) seen) ss) ≡ false
    → any p (rename count seen (t ∷ ss)) ≡ false
unfolding rename
any-rename p count seen t ss kept marked untouched later =
    rw (increment_at (symbol_key t) seen) (elim (Bool-cases (leb (count (symbol_key t)) 1)) [
      | inl e ↦ rw e (ground (arith, kept (inl (ground arith)), untouched))
      | inr e ↦ rw e (elim (Bool-cases (suc (seen (symbol_key t)) == 1)) [
        | inl f ↦ rw f (ground (arith, kept (inr (ground arith)), later))
        | inr f ↦ rw f (ground (arith, marked (ground arith), later))
      ])
    ])

with_line-has_byte : (s : ExtractedSymbol) → has_byte b'~' (with_line s).qualified_name ≡ true
with_line-has_byte s = has_byte-append b'~' s.qualified_name (itoa s.start_line)

plain_marked : (s t : ExtractedSymbol) → IsPlain s → same_symbol s (with_line t) ≡ false
unfolding same_key
plain_marked s t p =
    rw (str_eq-has_byte b'~' s.qualified_name (with_line t).qualified_name p (with_line-has_byte t))
      refl

both_marked :
    (s t : ExtractedSymbol)
    → IsPlain s
    → IsPlain t
    → same_place s t ≡ false
    → same_symbol (with_line s) (with_line t) ≡ false
unfolding same_key
both_marked s t p q h =
    rw
      (str_eq-append b'~' s.qualified_name t.qualified_name (itoa s.start_line) (itoa t.start_line)
        p q)
      (ground (arith, itoa-injective s.start_line t.start_line))

-- A plain name keeps its key from those of the later symbols, when these have other keys or are marked.
rename-plain :
    (count seen : Counts) (s : ExtractedSymbol) (ss : List ExtractedSymbol)
    → IsPlain s
    → ((1 ≤ seen (symbol_key s)) × (2 ≤ count (symbol_key s))) ⊎ (any (same_symbol s) ss ≡ false)
    → any (same_symbol s) (rename count seen ss) ≡ false
unfolding rename
rename-plain count seen s [] p h = refl
rename-plain count seen s (t ∷ ss) p (inl (one, two)) =
    any-rename (same_symbol s) count seen t ss
      (λ e. elim (Bool-cases (same_symbol s t)) [
        | inl f ↦
            let g = key_eq (symbol_key s) (symbol_key t) f in
            elim e [
              | inl x ↦ ground (arith, ap count g, two, x)
              | inr x ↦ ground (arith, ap seen g, one, x)
            ]
        | inr f ↦ f
      ])
      (λ e. plain_marked s t p) (rename-plain count seen s ss p (inl (one, two)))
      (rename-plain count (increment (symbol_key t) seen) s ss p
        (inl (omega (arith, one, increment-le (symbol_key t) (symbol_key s) seen), two)))
rename-plain count seen s (t ∷ ss) p (inr new) =
    let rest : any (same_symbol s) ss ≡ false = ground arith in
    any-rename (same_symbol s) count seen t ss (λ e. ground arith) (λ e. plain_marked s t p)
      (rename-plain count seen s ss p (inr rest))
      (rename-plain count (increment (symbol_key t) seen) s ss p (inr rest))

-- A marked name keeps its key from those of the later symbols, when these start on other lines.
rename-marked :
    (count seen : Counts) (s : ExtractedSymbol) (ss : List ExtractedSymbol)
    → IsPlain s
    → All IsPlain ss
    → any (same_place s) ss ≡ false
    → any (same_symbol (with_line s)) (rename count seen ss) ≡ false
unfolding rename
rename-marked count seen s [] p ps h = refl
rename-marked count seen s (t ∷ ss) p (pt, ps) h =
    let apart : same_place s t ≡ false = ground arith in
    let rest : any (same_place s) ss ≡ false = ground arith in
    any-rename (same_symbol (with_line s)) count seen t ss
      (λ e. same_key_sym (symbol_key (with_line s)) (symbol_key t) ∙ plain_marked t s pt)
      (λ e. both_marked s t p pt apart) (rename-marked count seen s ss p ps rest)
      (rename-marked count (increment (symbol_key t) seen) s ss p ps rest)

-- The keys of the new symbols are all different, where the counts are at least those of the old ones.
rename-Once :
    (count seen : Counts) (ss : List ExtractedSymbol)
    → All IsPlain ss
    → Once same_place ss
    → ((k : Key) → occurrences k ss ≤ count k)
    → Once same_symbol (rename count seen ss)
unfolding rename occurrences
rename-Once count seen [] ps h enough = tt
rename-Once count seen (s ∷ ss) (p, ps) (new, h) enough =
    let here : suc (occurrences (symbol_key s) ss) ≤ count (symbol_key s) =
      ground (arith, enough (symbol_key s), same_key_refl (symbol_key s)) in
    let fewer : (k : Key) → occurrences k ss ≤ count k = λ k. ground (arith, enough k) in
    let seen' = increment (symbol_key s) seen in
    let same_seen : 1 ≤ seen' (symbol_key s) = omega (arith, increment_at (symbol_key s) seen) in
    elim (Bool-cases (leb (count (symbol_key s)) 1)) [
      | inl e ↦ rw e (
        rename-plain count seen s ss p (inr (none_left s ss (ground (arith, here)))),
        rename-Once count seen ss ps h fewer,
      )
      | inr e ↦ rw e (elim (Bool-cases (seen' (symbol_key s) == 1)) [
        | inl f ↦ rw f (
          rename-plain count seen' s ss p (inl (same_seen, ground arith)),
          rename-Once count seen' ss ps h fewer,
        )
        | inr f ↦
            rw f (rename-marked count seen' s ss p ps new, rename-Once count seen' ss ps h fewer)
      ])
    ]

short-Once : (ss : List ExtractedSymbol) → length ss ≤ 1 → Once same_symbol ss
short-Once [] h = tt
short-Once (s ∷ []) h = (refl, tt)
short-Once (s ∷ t ∷ ss) h = absurd (omega arith)

-- Every key that occurs is one of those that the loop over the counts gets.
abbrev pub GivesAll : List Key → Counts → Type 0
GivesAll order count = (k : Key) → 1 ≤ count k → any (λ j. same_key j k) order ≡ true

occurrences-any :
    (k : Key) (ss : List ExtractedSymbol)
    → 1 ≤ occurrences k ss
    → any (λ j. same_key j k) (map symbol_key ss) ≡ true
unfolding occurrences
occurrences-any k [] h = ground arith
occurrences-any k (s ∷ ss) h = ground (arith, occurrences-any k ss)

-- An order that takes the keys as the symbols have them.
pub GivesAll-symbol_key :
    (ss : List ExtractedSymbol) → GivesAll (map symbol_key ss) (count_keys ss no_counts)
GivesAll-symbol_key ss k h =
    occurrences-any k ss (omega (arith, count_keys-occurrences k ss no_counts))

length-put_collision :
    (q : Bytes) (n : ℕ) (found : List (Bytes × ℕ)) → 1 ≤ length (put_collision q n found)
unfolding put_collision
length-put_collision q n [] = omega arith
length-put_collision q n ((r, m) ∷ found) = ground arith

length-collisions_of :
    (count : Counts) (ks : List Key) (found : List (Bytes × ℕ))
    → 1 ≤ length found
    → 1 ≤ length (collisions_of count ks found)
unfolding collisions_of
length-collisions_of count [] found h = h
length-collisions_of count (k ∷ ks) found h = ground (
  arith,
  length-collisions_of count ks found,
  length-collisions_of count ks (put_collision k.qn (count k) found),
  length-put_collision k.qn (count k) found,
)

-- Without a collision no key was counted twice.
collisions_of-none :
    (count : Counts) (ks : List Key) (k : Key)
    → any (λ j. same_key j k) ks ≡ true
    → length (collisions_of count ks []) ≡ 0
    → count k ≤ 1
unfolding collisions_of
collisions_of-none count [] k h e = ground arith
collisions_of-none count (j ∷ ks) k h e = elim (Bool-cases (ltb 1 (count j))) [
  | inl f ↦ ground (
    arith,
    f,
    length-collisions_of count ks (put_collision j.qn (count j) []),
    length-put_collision j.qn (count j) [],
  )
  | inr f ↦ elim (Bool-cases (same_key j k)) [
    | inl g ↦ ground (arith, ap count (key_eq j k g))
    | inr g ↦ ground (arith, collisions_of-none count ks k)
  ]
]

-- Where no qualified name has a ~, no two symbols of one name and kind start on one line, and Go's
-- iteration over the counts gives all their keys: after disambiguateDuplicates no two symbols have the
-- same qualified name and kind.
pub disambiguate_duplicates-Once :
    (order : List Key) (result : FileResult)
    → All IsPlain result.symbols
    → Once same_place result.symbols
    → GivesAll order (count_keys result.symbols no_counts)
    → Once same_symbol (disambiguate_duplicates order result).symbols
unfolding disambiguate_duplicates
disambiguate_duplicates-Once order result ps places gives =
    let count = count_keys result.symbols no_counts in
    let counted : (k : Key) → occurrences k result.symbols ≤ count k =
      λ k. omega (arith, count_keys-occurrences k result.symbols no_counts) in
    elim (Bool-cases (leb (length result.symbols) 1)) [
      | inl e ↦ rw e (short-Once result.symbols (ground arith))
      | inr e ↦ rw e (elim (Bool-cases (length (collisions_of count order []) == 0)) [
        | inl f ↦ rw f (occurrences-Once result.symbols (λ s. at_most_one s (ground arith)))
        | inr f ↦ rw f (rename-Once count no_counts result.symbols ps places counted)
      ])
    ]
  where
    at_most_one :
        (s : ExtractedSymbol)
        → length (collisions_of (count_keys result.symbols no_counts) order []) ≡ 0
        → occurrences (symbol_key s) result.symbols ≤ 1
    at_most_one s h =
        let same = count_keys-occurrences (symbol_key s) result.symbols no_counts in
        elim (Bool-cases (leb 1 (count_keys result.symbols no_counts (symbol_key s)))) [
          | inl e ↦ omega (
            arith,
            same,
            collisions_of-none (count_keys result.symbols no_counts) order (symbol_key s)
                (gives (symbol_key s) (ground arith)) h,
          )
          | inr e ↦ ground (arith, same)
        ]
