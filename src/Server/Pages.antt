-- ===== src/Server/Pages.antt =====
-- Paging in internal/server/pagination.go.
pub mod Tiling
use pincher_mcp.Prelude.{
  ℕ, ◌+◌, ◌-◌, Bool, true, false, List, [], ◌∷◌, Option, none, some, if◌then◌else◌, ltb, leb, ◌==◌,
  Bytes, length, take, drop, Atoi, number, syntax, range, atoi,
}

pub record PageParams : Type 0 where
  pub limit : ℕ
  pub offset : ℕ

not_negative : Atoi → Option ℕ
not_negative (number n) = some n
not_negative syntax = none
not_negative range = none

-- `strconv.Atoi`, where it gives a number that is not negative. It reads a sign; -0 is left out, which
-- both callers treat like their default.
unfoldable pub natural_of : Bytes → Option ℕ
unfolding not_negative atoi
natural_of [] = none
natural_of (c ∷ s) =
    if c == b'+'
    then not_negative (atoi s)
    else if c == b'-'
    then none
    else not_negative (atoi (c ∷ s))

unfoldable pub page_limit : ℕ → Option ℕ → ℕ
page_limit default_limit none = default_limit
page_limit default_limit (some n) = if ltb 0 n then n else default_limit

unfoldable pub page_offset : Option ℕ → ℕ
page_offset none = 0
page_offset (some n) = n

-- `parsePageParams`, on the values of the parameters limit and offset; a missing one is empty.
unfoldable pub parse_page_params : Bytes → Bytes → ℕ → ℕ → PageParams
unfolding natural_of page_limit page_offset
parse_page_params limit offset default_limit max_limit =
    let wanted = page_limit default_limit (natural_of limit) in
    record {
      limit = if ltb max_limit wanted then max_limit else wanted;
      offset = page_offset (natural_of offset);
    }

pub record Window {ℓ} (A : Type ℓ) : Type ℓ where
  pub page : List A
  pub total : ℕ
  pub has_more : Bool

-- `sliceWindow`. The sum does not overflow, since the offset is below the length of a slice.
unfoldable pub slice_window {ℓ} : {A : Type ℓ} → List A → PageParams → Window A
slice_window rows p =
    let total = length rows in
    let wanted = p.offset + p.limit in
    let end = if ltb total wanted then total else wanted in
    if leb total p.offset then record { page = []; total = total; has_more = false } else record {
      page = take (end - p.offset) (drop p.offset rows);
      total = total;
      has_more = ltb end total;
    }
