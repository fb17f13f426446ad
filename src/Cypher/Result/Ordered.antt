-- ===== src/Cypher/Result/Ordered.antt =====
-- ORDER BY in `buildResult` of internal/cypher/engine.go.
use pincher_mcp.Prelude.{
  text_less, refl, if◌then◌else◌, sort_by, ◌≡◌, Bool, true, false, ◌||◌, List, [], none, some,
  arith, Bytes, is, is_empty, text_less_asymm, text_less_cotrans, All, sort_by-perm,
  sort_by-IsSortedBy, IsSortedBy, IsSortedBy-same, All-sort_by,
}
use mathlib.Core.List.{Perm}
use pincher_mcp.Cypher.Ast.{QueryAst}
use pincher_mcp.Cypher.Result.{
  Fields, OutRow, Numbers, get_cell, sprint_cell, to_float_for_order_by, compare_texts,
  cypher_less_than,
}
use pincher_mcp.Cypher.Result.Build.{
  project_all, order_rows, order_key, limit_rows, has_aggregation, projected, build_result,
}

-- The order of floats that are not NaN: a strict weak order.
pub record IsFloatOrder (numbers : Numbers) : Type 0 where
  pub asymm : (x y : numbers.Float) → numbers.less x y ≡ true → numbers.less y x ≡ false
  pub cotrans :
      (x y z : numbers.Float)
      → numbers.less x z ≡ true
      → (numbers.less x y || numbers.less y z) ≡ true

module _ (numbers : Numbers) where
  abbrev pub IsNumeric : Bytes → OutRow → Type 0
  IsNumeric key r = (x : numbers.Float) × (to_float_for_order_by numbers (get_cell key r) ≡ some x)

  abbrev pub IsTextual : Bytes → OutRow → Type 0
  IsTextual key r = to_float_for_order_by numbers (get_cell key r) ≡ none

  abbrev pub less_at : Bytes → Bool → OutRow → OutRow → Bool
  less_at key desc r s = cypher_less_than numbers (get_cell key r) (get_cell key s) desc

  numeric_asymm :
      IsFloatOrder numbers
      → (key : Bytes) (desc : Bool) (r s : OutRow) → IsNumeric key r
      → IsNumeric key s
      → less_at key desc r s ≡ true
      → less_at key desc s r ≡ false
  unfolding cypher_less_than
  numeric_asymm o key desc r s (x, p) (y, q) h = ground (arith, o.asymm x y, o.asymm y x)

  numeric_cotrans :
      IsFloatOrder numbers
      → (key : Bytes) (desc : Bool) (r s t : OutRow) → IsNumeric key r
      → IsNumeric key s
      → IsNumeric key t
      → less_at key desc r t ≡ true
      → (less_at key desc r s || less_at key desc s t) ≡ true
  unfolding cypher_less_than
  numeric_cotrans o key desc r s t (x, p) (y, q) (z, w) h =
      ground (arith, o.cotrans x y z, o.cotrans z y x)

  textual_asymm :
      (key : Bytes) (desc : Bool) (r s : OutRow)
      → IsTextual key r
      → IsTextual key s
      → less_at key desc r s ≡ true
      → less_at key desc s r ≡ false
  unfolding cypher_less_than compare_texts
  textual_asymm key desc r s p q h =
      let a = sprint_cell (get_cell key r) in
      let b = sprint_cell (get_cell key s) in
      ground (arith, text_less_asymm a b, text_less_asymm b a)

  textual_cotrans :
      (key : Bytes) (desc : Bool) (r s t : OutRow)
      → IsTextual key r
      → IsTextual key s
      → IsTextual key t
      → less_at key desc r t ≡ true
      → (less_at key desc r s || less_at key desc s t) ≡ true
  unfolding cypher_less_than compare_texts
  textual_cotrans key desc r s t p q w h =
      let a = sprint_cell (get_cell key r) in
      let b = sprint_cell (get_cell key s) in
      let c = sprint_cell (get_cell key t) in
      ground (arith, text_less_cotrans a b c, text_less_cotrans c b a)

  -- The order of the numbers at a key, and of the texts; backwards if `desc` says so.
  abbrev pub smaller : Bytes → Bool → OutRow → OutRow → Bool
  smaller key desc r s = elim (to_float_for_order_by numbers (get_cell key r)) [
    | none ↦ false
    | some x ↦ elim (to_float_for_order_by numbers (get_cell key s)) [
      | none ↦ false
      | some y ↦ if desc then numbers.less y x else numbers.less x y
    ]
  ]

  abbrev pub earlier_text : Bytes → Bool → OutRow → OutRow → Bool
  earlier_text key desc r s =
      if desc
      then text_less (sprint_cell (get_cell key s)) (sprint_cell (get_cell key r))
      else text_less (sprint_cell (get_cell key r)) (sprint_cell (get_cell key s))

  numeric_same :
      (key : Bytes) (desc : Bool) (r s : OutRow)
      → IsNumeric key r
      → IsNumeric key s
      → less_at key desc r s ≡ smaller key desc r s
  unfolding cypher_less_than
  numeric_same key desc r s (x, p) (y, q) = ground arith

  textual_same :
      (key : Bytes) (desc : Bool) (r s : OutRow)
      → IsTextual key r
      → IsTextual key s
      → less_at key desc r s ≡ earlier_text key desc r s
  unfolding cypher_less_than compare_texts
  textual_same key desc r s p q = ground arith

  module _ (o : IsFloatOrder numbers) (key : Bytes) (desc : Bool) (rows : List OutRow) where
    numbers-IsSortedBy :
        All (IsNumeric key) rows → IsSortedBy (smaller key desc) (sort_by (less_at key desc) rows)
    numbers-IsSortedBy h =
        let less = less_at key desc in
        let asym = numeric_asymm o key desc in
        let cotrans = numeric_cotrans o key desc in
        IsSortedBy-same less (smaller key desc) (IsNumeric key) (numeric_same key desc)
          (sort_by less rows) (All-sort_by less (IsNumeric key) asym cotrans rows h)
          (sort_by-IsSortedBy less (IsNumeric key) asym cotrans rows h)

    texts-IsSortedBy :
        All (IsTextual key) rows
        → IsSortedBy (earlier_text key desc) (sort_by (less_at key desc) rows)
    texts-IsSortedBy h =
        let less = less_at key desc in
        let asym = textual_asymm key desc in
        let cotrans = textual_cotrans key desc in
        IsSortedBy-same less (earlier_text key desc) (IsTextual key) (textual_same key desc)
          (sort_by less rows) (All-sort_by less (IsTextual key) asym cotrans rows h)
          (sort_by-IsSortedBy less (IsTextual key) asym cotrans rows h)

  order_rows_lem :
      (key : Bytes) (q : QueryAst) (rows : List OutRow)
      → is_empty q.order_by ≡ false
      → order_rows numbers key q rows ≡ sort_by (less_at key (is q.order_dir "DESC")) rows
  unfolding order_rows
  order_rows_lem key q rows named = rw named refl

  -- Where floats are ordered strictly and weakly, a query without an aggregate and with ORDER BY returns
  -- the first rows, as LIMIT or 200 admits, of a rearrangement of the projected rows. If the cells at the
  -- order key are all numbers, no row of it has a smaller number than a row before it; if none is a
  -- number, no row prints there as an earlier text than a row before it; for DESC no greater and no
  -- later.
  pub build_result-IsSortedBy :
      IsFloatOrder numbers
      → (all_rows : List Fields) (q : QueryAst) → has_aggregation q ≡ false
      → is_empty q.order_by ≡ false
      → (ordered : List OutRow) × Perm ordered (project_all q.distinct q.return_vars all_rows [])
        × ((build_result numbers all_rows q).rows ≡ limit_rows q.limit ordered)
        × (All (IsNumeric (order_key q)) (project_all q.distinct q.return_vars all_rows [])
            → IsSortedBy (smaller (order_key q) (is q.order_dir "DESC")) ordered)
        × (All (IsTextual (order_key q)) (project_all q.distinct q.return_vars all_rows [])
            → IsSortedBy (earlier_text (order_key q) (is q.order_dir "DESC")) ordered)
  unfolding build_result projected
  build_result-IsSortedBy o all_rows q plain named =
      let desc = is q.order_dir "DESC" in
      let rows = project_all q.distinct q.return_vars all_rows [] in
      (
        sort_by (less_at (order_key q) desc) rows,
        sort_by-perm (less_at (order_key q) desc) rows,
        ground (arith, order_rows_lem (order_key q) q rows named),
        numbers-IsSortedBy o (order_key q) desc rows,
        texts-IsSortedBy o (order_key q) desc rows,
      )
