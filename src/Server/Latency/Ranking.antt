-- ===== src/Server/Latency/Ranking.antt =====
-- The ranking of tools in internal/server/tool_latency.go.
use pincher_mcp.Prelude.{
  ℕ, zero, suc, ◌≤◌, ◌<◌, ◌≡◌, ◌⊎◌, inl, inr, Bool-cases, ◌++◌, subst, text_less, refl, sym, ap,
  ◌∙◌, Bool, true, false, ◌&&◌, ◌||◌, List, [], ◌∷◌, arith, ◌==◌, str_eq, str_eq→eq, str_eq_refl,
  str_eq_sym, text_less_asymm, text_less_total, text_less_cotrans, any, any-sort_by, All, Once,
  IsStrict, Once-IsStrict, strict_ext, sort_by, sort_by-Once, sort_by-IsSortedBy, take, length,
  length-take, split_take,
}
use pincher_mcp.Server.Latency.{LatencyRow, row_before, top_tools_by_total_time}

-- The keys of a `sync.Map` are different.
abbrev pub same_tool : LatencyRow → LatencyRow → Bool
same_tool x y = str_eq x.tool y.tool

abbrev pub same_row : LatencyRow → LatencyRow → Bool
same_row x y =
    str_eq x.tool y.tool
    && x.row_count == y.row_count
    && x.row_total == y.row_total
    && x.row_max == y.row_max

row_before_asymm : (x y : LatencyRow) → row_before x y ≡ true → row_before y x ≡ false
unfolding row_before
row_before_asymm x y h = ground (arith, text_less_asymm x.tool y.tool)

row_before_cotrans :
    (x y z : LatencyRow) → row_before x z ≡ true → (row_before x y || row_before y z) ≡ true
unfolding row_before
row_before_cotrans x y z h = ground (arith, text_less_cotrans x.tool y.tool z.tool)

row_before_total :
    (x y : LatencyRow) → same_tool x y ≡ false → row_before y x ≡ false → row_before x y ≡ true
unfolding row_before
row_before_total x y h k = ground (arith, text_less_total x.tool y.tool)

same_row→eq : (x y : LatencyRow) → same_row x y ≡ true → x ≡ y
same_row→eq x y h =
    let tools = str_eq→eq x.tool y.tool (ground arith) in
    let counts : x.row_count ≡ y.row_count = ground arith in
    let totals : x.row_total ≡ y.row_total = ground arith in
    let highs : x.row_max ≡ y.row_max = ground arith in
    λ i. record { tool = tools i; row_count = counts i; row_total = totals i; row_max = highs i }

same_row_refl : (x : LatencyRow) → same_row x x ≡ true
same_row_refl x = ground (arith, str_eq_refl x.tool)

All-unit : (xs : List LatencyRow) → All (λ (x : LatencyRow). Unit {0}) xs
All-unit [] = tt
All-unit (x ∷ xs) = (tt, All-unit xs)

sort_by-IsStrict :
    (rows : List LatencyRow) → Once same_tool rows → IsStrict row_before (sort_by row_before rows)
sort_by-IsStrict rows h =
    Once-IsStrict row_before same_tool row_before_total (sort_by row_before rows)
      (sort_by-IsSortedBy row_before (λ x. Unit {0}) (λ x y p q. row_before_asymm x y)
        (λ x y z p q r. row_before_cotrans x y z) rows (All-unit rows))
      (sort_by-Once same_tool row_before (λ x y. str_eq_sym x.tool y.tool) rows h)

-- Which of two tools comes first: the one with more time, with equal times the one with more calls, and with
-- both equal the one with the lesser name.
pub data RanksBefore (x y : LatencyRow) : Type 0 where
  by_total : y.row_total < x.row_total → RanksBefore x y
  by_count : y.row_total ≡ x.row_total → y.row_count < x.row_count → RanksBefore x y
  by_name :
      y.row_total ≡ x.row_total
      → y.row_count ≡ x.row_count
      → text_less x.tool y.tool ≡ true
      → RanksBefore x y

-- Each row ranks before all those after it.
abbrev pub IsRanked : List LatencyRow → Type 0
IsRanked [] = Unit
IsRanked (x ∷ rows) = All (RanksBefore x) rows × IsRanked rows

row_before-RanksBefore : (x y : LatencyRow) → row_before x y ≡ true → RanksBefore x y
unfolding row_before
row_before-RanksBefore x y h = elim (Bool-cases (x.row_total == y.row_total)) [
  | inl e ↦ elim (Bool-cases (x.row_count == y.row_count)) [
    | inl f ↦ by_name (ground arith) (ground arith) (ground arith)
    | inr f ↦ by_count (ground arith) (ground arith)
  ]
  | inr e ↦ by_total (ground arith)
]

All-RanksBefore :
    (x : LatencyRow) (rows : List LatencyRow)
    → All (λ y. row_before x y ≡ true) rows
    → All (RanksBefore x) rows
All-RanksBefore x [] h = tt
All-RanksBefore x (y ∷ rows) (h, hs) = (row_before-RanksBefore x y h, All-RanksBefore x rows hs)

IsStrict-IsRanked : (rows : List LatencyRow) → IsStrict row_before rows → IsRanked rows
IsStrict-IsRanked [] h = tt
IsStrict-IsRanked (x ∷ rows) (low, h) = (All-RanksBefore x rows low, IsStrict-IsRanked rows h)

top_tools-take :
    (n : ℕ) (rows : List LatencyRow)
    → top_tools_by_total_time n rows ≡ take n (sort_by row_before rows)
unfolding top_tools_by_total_time
top_tools-take zero rows = refl
top_tools-take (suc n) rows = refl

-- Take rows of different tools. The ranking and the rows left out of it hold together exactly the given
-- rows, and in one list, the ranking first, each row ranks before all those after it: by more time, then by
-- more calls, then by the name. The ranking has n rows, or fewer with none left out; and it does not depend
-- on the order in which Range gives the rows.
pub top_tools_by_total_time-IsRanked :
    (n : ℕ) (rows rows' : List LatencyRow)
    → Once same_tool rows
    → Once same_tool rows'
    → ((r : LatencyRow) → any (same_row r) rows ≡ any (same_row r) rows')
    → (rest : List LatencyRow) × IsRanked (top_tools_by_total_time n rows ++ rest)
      × ((r : LatencyRow)
          → any (same_row r) (top_tools_by_total_time n rows ++ rest) ≡ any (same_row r) rows)
      × (length (top_tools_by_total_time n rows) ≤ n)
      × ((length (top_tools_by_total_time n rows) ≡ n) ⊎ (rest ≡ []))
      × (top_tools_by_total_time n rows ≡ top_tools_by_total_time n rows')
top_tools_by_total_time-IsRanked n rows rows' h k e =
    let ordered = sort_by row_before rows in
    let sorted = sort_by-IsStrict rows h in
    let (rest, split, full) = split_take n ordered in
    let same : ordered ≡ sort_by row_before rows' =
      strict_ext row_before same_row same_row→eq same_row_refl row_before_asymm ordered
        (sort_by row_before rows') sorted (sort_by-IsStrict rows' k)
        (λ r.
          any-sort_by row_before (same_row r) rows
          ∙ e r
          ∙ sym (any-sort_by row_before (same_row r) rows')) in
    rw (top_tools-take n rows, top_tools-take n rows')
      (
        rest,
        subst IsRanked split (IsStrict-IsRanked ordered sorted),
        λ r. ap (any (same_row r)) (sym split) ∙ any-sort_by row_before (same_row r) rows,
        length-take n ordered,
        full,
        ap (take n) same,
      )
