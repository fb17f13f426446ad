-- ===== src/Ast/Duplicates.antt =====
-- `disambiguateDuplicates` of internal/ast/extractor.go, which every extractor's result goes through. A
-- map from keys to counts is a function, with 0 for a missing key.
pub mod Names
pub mod Keys
use pincher_mcp.Prelude.{
  ℕ, suc, ◌+◌, Bool, true, false, ◌&&◌, List, [], ◌∷◌, ◌++◌, if◌then◌else◌, ltb, leb, ◌==◌, Bytes,
  str_eq, itoa, length,
}

-- `ExtractedSymbol`, without the fields that are neither read nor changed.
pub record ExtractedSymbol : Type 0 where
  pub qualified_name : Bytes
  pub kind : Bytes
  pub start_line : ℕ

pub record FileResult : Type 0 where
  pub symbols : List ExtractedSymbol
  pub qn_collisions : List (Bytes × ℕ)

pub record Key : Type 0 where
  pub qn : Bytes
  pub kind : Bytes

abbrev pub symbol_key : ExtractedSymbol → Key
symbol_key s = record { qn = s.qualified_name; kind = s.kind }

unfoldable pub same_key : Key → Key → Bool
same_key j k = str_eq j.qn k.qn && str_eq j.kind k.kind

abbrev pub Counts : Type 0
Counts = Key → ℕ

unfoldable pub increment : Key → Counts → Counts
increment k m j = if same_key k j then suc (m j) else m j

-- The first loop.
unfoldable pub count_keys : List ExtractedSymbol → Counts → Counts
count_keys [] m = m
count_keys (s ∷ ss) m = count_keys ss (increment (symbol_key s) m)

-- `collisions[qn] = n`
unfoldable pub put_collision : Bytes → ℕ → List (Bytes × ℕ) → List (Bytes × ℕ)
put_collision qn n [] = (qn, n) ∷ []
put_collision qn n ((q, m) ∷ later) =
    let rest = put_collision qn n later in if str_eq q qn then (q, n) ∷ later else (q, m) ∷ rest

-- The second loop, over the keys in the order in which Go gives them.
unfoldable pub collisions_of : Counts → List Key → List (Bytes × ℕ) → List (Bytes × ℕ)
unfolding put_collision
collisions_of count [] found = found
collisions_of count (k ∷ ks) found =
    let more = collisions_of count ks (put_collision k.qn (count k) found) in
    let same = collisions_of count ks found in if ltb 1 (count k) then more else same

abbrev pub with_line : ExtractedSymbol → ExtractedSymbol
with_line s = record s { qualified_name = s.qualified_name ++ b'~' ∷ itoa s.start_line }

-- The third loop.
unfoldable pub rename : Counts → Counts → List ExtractedSymbol → List ExtractedSymbol
rename count seen [] = []
rename count seen (s ∷ ss) =
    let k = symbol_key s in
    let seen' = increment k seen in
    let untouched = rename count seen ss in
    let later = rename count seen' ss in
    if leb (count k) 1
    then s ∷ untouched
    else if seen' k == 1
    then s ∷ later
    else with_line s ∷ later

abbrev pub no_counts : Counts
no_counts k = 0

unfoldable pub disambiguate_duplicates : List Key → FileResult → FileResult
unfolding count_keys collisions_of rename
disambiguate_duplicates order result =
    let count = count_keys result.symbols no_counts in
    let collisions = collisions_of count order [] in
    let renamed : FileResult = record {
      symbols = rename count no_counts result.symbols;
      qn_collisions = collisions;
    } in
    if leb (length result.symbols) 1
    then result
    else if length collisions == 0
    then result
    else renamed
