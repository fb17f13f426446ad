-- ===== src/Cypher/Warnings/Unique.antt =====
-- The warnings on unknown properties of internal/cypher/engine.go, each once and in the order of their
-- names, whatever the order in which Go iterates over its maps.
use pincher_mcp.Prelude.{
  ◌≡◌, refl, sym, ap, ap₂, ◌∙◌, Bool, true, false, not, ◌&&◌, ◌||◌, List, [], ◌∷◌, map, Option,
  none, some, arith, Bytes, is_empty, str_eq, str_eq→eq, str_eq_sym, str_eq_refl, text_less,
  text_less_asymm, text_less_total, text_less_cotrans, any, All, Once, IsStrict, Once-IsStrict,
  strict_ext, sort_by, any-sort_by, sort_by-Once, sort_by-IsSortedBy, if◌then◌else◌, Bool-cases,
  inl, inr,
}
use pincher_mcp.Cypher.Ast.{
  Condition, WhereExpr, cond_expr, binary_expr, not_expr, Props, ReturnVar, QueryAst,
}
use pincher_mcp.Cypher.Warnings.{Warning, unknown_property, each, walk_where, each_condition}
use pincher_mcp.Cypher.Warnings.Names.{
  Unknown, mark_unknown, edge_variables, is_edge_var, is_known_property, name_less, check_property,
  check_props, check_pattern, unknown_properties, collect_unknown_property_warnings,
}
use pincher_mcp.Cypher.Warnings.Reported.{
  mentions, is_unknown, names, marks, names-mark_unknown, unknown_properties-names,
  unknown_properties-marks,
}

abbrev same_name : Bytes × Bool → Bytes × Bool → Bool
same_name x y = str_eq y.0 x.0

-- What every round of a loop keeps holds after the loop.
module _ {S : Type 0} (P : S → Type 0) where
  each_keeps :
      {A : Type 0} (check : A → S → S)
      → ((x : A) (s : S) → P s → P (check x s))
      → (xs : List A) (s : S) → P s
      → P (each check xs s)
  unfolding each
  each_keeps check h [] s p = p
  each_keeps check h (x ∷ xs) s p = each_keeps check h xs (check x s) (h x s p)

  module _ (check : Condition → S → S) (h : (c : Condition) (s : S) → P s → P (check c s)) where
    walk_where_keeps : (w : WhereExpr) (s : S) → P s → P (walk_where check w s)
    unfolding walk_where
    walk_where_keeps (cond_expr c) s p = h c s p
    walk_where_keeps (binary_expr op left right) s p =
        walk_where_keeps right (walk_where check left s) (walk_where_keeps left s p)
    walk_where_keeps (not_expr inner) s p = walk_where_keeps inner s p

    each_condition_keeps : (q : QueryAst) (s : S) → P s → P (each_condition check q s)
    unfolding each_condition
    each_condition_keeps q s p = go q.where_expr
      where
        go :
            (o : Option WhereExpr)
            → P (elim o [
              | none ↦ each check q.conditions s
              | some w ↦ walk_where check w (each check q.conditions s)
            ])
        go none = each_keeps check h q.conditions s p
        go (some w) =
            walk_where_keeps w (each check q.conditions s) (each_keeps check h q.conditions s p)

mark_unknown-Once :
    (p : Bytes) (e : Bool) (found : Unknown)
    → Once same_name found
    → Once same_name (mark_unknown p e found)
unfolding mark_unknown
mark_unknown-Once p e [] h = (refl, tt)
mark_unknown-Once p e ((q, f) ∷ found) (new, h) = elim (Bool-cases (str_eq q p)) [
  | inl g ↦ rw g (new, h)
  | inr g ↦ rw g (
    ground (arith, names-mark_unknown q p e found, str_eq_sym q p),
    mark_unknown-Once p e found h,
  )
]

module _ (edges : List Bytes) where
  check_property-Once :
      (v p : Bytes) (s : Unknown) → Once same_name s → Once same_name (check_property edges v p s)
  unfolding check_property
  check_property-Once v p s h =
      elim (Bool-cases (is_empty p || is_known_property (is_edge_var edges v) p)) [
        | inl e ↦ rw e h
        | inr e ↦ rw e (mark_unknown-Once p (is_edge_var edges v) s h)
      ]

  check_props-Once :
      (v : Bytes) (props : Props) (s : Unknown)
      → Once same_name s
      → Once same_name (check_props edges v props s)
  unfolding check_props
  check_props-Once v props s h =
      each_keeps (Once same_name) (λ (p : Bytes × Bytes). check_property edges v p.0)
        (λ p. check_property-Once v p.0) props s h

unknown_properties-Once : (q : QueryAst) → Once same_name (unknown_properties q)
unfolding unknown_properties
unknown_properties-Once q =
    let edges = edge_variables q.patterns in
    each_keeps (Once same_name) _
      (λ (rv : ReturnVar). check_property-Once edges rv.variable rv.property) q.return_vars _
      (each_keeps (Once same_name) (check_pattern edges)
        (λ pat s h.
          check_props-Once edges pat.to_var pat.to_props _
            (check_props-Once edges pat.from_var pat.from_props s h))
        q.patterns _
        (each_condition_keeps (Once same_name) _
          (λ c. check_property-Once edges c.variable c.property) q [] tt))

-- The entries in the order of their names.
abbrev sorted_unknown : QueryAst → Unknown
sorted_unknown q = sort_by name_less (unknown_properties q)

All-unit : (xs : Unknown) → All (λ (x : Bytes × Bool). Unit {0}) xs
All-unit [] = tt
All-unit (x ∷ xs) = (tt, All-unit xs)

sorted_unknown-Once : (q : QueryAst) → Once same_name (sorted_unknown q)
sorted_unknown-Once q =
    sort_by-Once same_name name_less (λ x y. str_eq_sym y.0 x.0) (unknown_properties q)
      (unknown_properties-Once q)

sorted_unknown-IsStrict : (q : QueryAst) → IsStrict name_less (sorted_unknown q)
sorted_unknown-IsStrict q =
    Once-IsStrict name_less same_name
      (λ x y h k. ground (arith, text_less_total x.0 y.0, str_eq_sym x.0 y.0)) (sorted_unknown q)
      (sort_by-IsSortedBy name_less (λ x. Unit {0}) (λ x y p r. text_less_asymm x.0 y.0)
        (λ x y z p r s. text_less_cotrans x.0 y.0 z.0) (unknown_properties q)
        (All-unit (unknown_properties q)))
      (sorted_unknown-Once q)

-- Whether a warning is on a property, and on an edge's.
abbrev pub is_on : Bytes → Warning → Bool
is_on n (unknown_property p e) = str_eq p n
is_on n w = false

abbrev pub is_on_edge : Bytes → Warning → Bool
is_on_edge n (unknown_property p e) = str_eq p n && e
is_on_edge n w = false

abbrev to_warning : Bytes × Bool → Warning
to_warning x = unknown_property x.0 x.1

names-map : (n : Bytes) (found : Unknown) → any (is_on n) (map to_warning found) ≡ names n found
names-map n [] = refl
names-map n (x ∷ found) = ground (arith, names-map n found)

marks-map :
    (n : Bytes) (found : Unknown) → any (is_on_edge n) (map to_warning found) ≡ marks n found
marks-map n [] = refl
marks-map n (x ∷ found) = ground (arith, marks-map n found)

names-sorted :
    (q : QueryAst) (n : Bytes) → names n (sorted_unknown q) ≡ names n (unknown_properties q)
names-sorted q n = any-sort_by name_less (λ (x : Bytes × Bool). str_eq x.0 n) (unknown_properties q)

marks-sorted :
    (q : QueryAst) (n : Bytes) → marks n (sorted_unknown q) ≡ marks n (unknown_properties q)
marks-sorted q n =
    any-sort_by name_less (λ (x : Bytes × Bool). str_eq x.0 n && x.1) (unknown_properties q)

-- The order of warnings by the names of their properties.
abbrev pub warning_less : Warning → Warning → Bool
warning_less (unknown_property m e) (unknown_property n f) = text_less m n
warning_less v w = false

map-All :
    (x : Bytes × Bool) (found : Unknown)
    → All (λ y. name_less x y ≡ true) found
    → All (λ w. warning_less (to_warning x) w ≡ true) (map to_warning found)
map-All x [] h = tt
map-All x (y ∷ found) (h, hs) = (h, map-All x found hs)

map-IsStrict :
    (found : Unknown) → IsStrict name_less found → IsStrict warning_less (map to_warning found)
map-IsStrict [] h = tt
map-IsStrict (x ∷ found) (h, hs) = (map-All x found h, map-IsStrict found hs)

-- For every query and every name: there is a warning on an unknown property of that name exactly when
-- some reference in WHERE, in a pattern's inline properties or in RETURN is to a property of that name,
-- which is neither known on an edge, for a variable of an edge, nor a column, for any other; the warning
-- is on an edge exactly when such a reference is. The warnings are strictly in the order of their names.
pub collect_unknown_property_warnings-reported :
    (q : QueryAst)
    → ((n : Bytes)
        → (any (is_on n) (collect_unknown_property_warnings q)
            ≡ mentions (λ v p. is_unknown (edge_variables q.patterns) v p && str_eq p n) q)
          × (any (is_on_edge n) (collect_unknown_property_warnings q)
              ≡ mentions
                  (λ v p.
                    is_unknown (edge_variables q.patterns) v p
                    && is_edge_var (edge_variables q.patterns) v
                    && str_eq p n)
                  q))
      × IsStrict warning_less (collect_unknown_property_warnings q)
unfolding collect_unknown_property_warnings
collect_unknown_property_warnings-reported q = (
  λ n. (
    names-map n (sorted_unknown q) ∙ names-sorted q n ∙ unknown_properties-names q n,
    marks-map n (sorted_unknown q) ∙ marks-sorted q n ∙ unknown_properties-marks q n,
  ),
  map-IsStrict (sorted_unknown q) (sorted_unknown-IsStrict q),
)

-- Two queries with the same variables of edges and the same references, in whatever order and however
-- often.
pub record SameReferences (q q' : QueryAst) : Type 0 where
  pub edges :
      (v : Bytes)
      → is_edge_var (edge_variables q.patterns) v ≡ is_edge_var (edge_variables q'.patterns) v
  pub references : (t : Bytes → Bytes → Bool) → mentions t q ≡ mentions t q'

abbrev same_entry : Bytes × Bool → Bytes × Bool → Bool
same_entry x y = str_eq x.0 y.0 && (if x.1 then y.1 else not y.1)

same_entry→eq : (x y : Bytes × Bool) → same_entry x y ≡ true → x ≡ y
same_entry→eq (m, true) (n, true) h = ap (λ s. (s, true)) (str_eq→eq m n (ground arith))
same_entry→eq (m, true) (n, false) h = ground arith
same_entry→eq (m, false) (n, true) h = ground arith
same_entry→eq (m, false) (n, false) h = ap (λ s. (s, false)) (str_eq→eq m n (ground arith))

same_entry_refl : (x : Bytes × Bool) → same_entry x x ≡ true
same_entry_refl (m, true) = ground (arith, str_eq_refl m)
same_entry_refl (m, false) = ground (arith, str_eq_refl m)

no_name-no_mark : (n : Bytes) (found : Unknown) → names n found ≡ false → marks n found ≡ false
no_name-no_mark n [] h = refl
no_name-no_mark n (x ∷ found) h = ground (arith, no_name-no_mark n found)

-- With each name once, the members are told by the names and the marks.
entry_in :
    (z : Bytes × Bool) (found : Unknown)
    → Once same_name found
    → any (same_entry z) found
      ≡ (names z.0 found && (if z.1 then marks z.0 found else not (marks z.0 found)))
entry_in (n, true) [] h = refl
entry_in (n, false) [] h = refl
entry_in (n, b) ((p, e) ∷ found) (new, h) = elim (Bool-cases (str_eq p n)) [
  | inl g ↦
      let absent : names n found ≡ false = sym (ap (λ t. names t found) (str_eq→eq p n g)) ∙ new in
      ground
        (arith, g, str_eq_sym n p, absent, no_name-no_mark n found absent, entry_in (n, b) found h)
  | inr g ↦ ground (arith, g, str_eq_sym n p, entry_in (n, b) found h)
]

module _ (q q' : QueryAst) (h : SameReferences q q') where
  names-same : (n : Bytes) → names n (sorted_unknown q) ≡ names n (sorted_unknown q')
  names-same n =
      names-sorted q n
      ∙ unknown_properties-names q n
      ∙ h.references (λ v p. is_unknown (edge_variables q.patterns) v p && str_eq p n)
      ∙ ap (λ t. mentions t q')
          (λ i v p. not (is_empty p) && not (is_known_property (h.edges v i) p) && str_eq p n)
      ∙ sym (names-sorted q' n ∙ unknown_properties-names q' n)

  marks-same : (n : Bytes) → marks n (sorted_unknown q) ≡ marks n (sorted_unknown q')
  marks-same n =
      marks-sorted q n
      ∙ unknown_properties-marks q n
      ∙ h.references (λ v p.
        is_unknown (edge_variables q.patterns) v p
        && is_edge_var (edge_variables q.patterns) v
        && str_eq p n)
      ∙ ap (λ t. mentions t q')
          (λ i v p.
            not (is_empty p)
            && not (is_known_property (h.edges v i) p)
            && h.edges v i
            && str_eq p n)
      ∙ sym (marks-sorted q' n ∙ unknown_properties-marks q' n)

  sorted_unknown-same : sorted_unknown q ≡ sorted_unknown q'
  sorted_unknown-same =
      strict_ext name_less same_entry same_entry→eq same_entry_refl (λ x y. text_less_asymm x.0 y.0)
        (sorted_unknown q) (sorted_unknown q') (sorted_unknown-IsStrict q)
        (sorted_unknown-IsStrict q')
        (λ z.
          entry_in z (sorted_unknown q) (sorted_unknown-Once q)
          ∙ ap₂ (λ a b. a && (if z.1 then b else not b)) (names-same z.0) (marks-same z.0)
          ∙ sym (entry_in z (sorted_unknown q') (sorted_unknown-Once q')))

-- Two queries with the same variables of edges and the same references to properties, in whatever order
-- and however often, get the same list of warnings on unknown properties: so do the runs of one query,
-- where Go iterates over the inline properties in one order or another.
pub collect_unknown_property_warnings-same :
    (q q' : QueryAst)
    → SameReferences q q'
    → collect_unknown_property_warnings q ≡ collect_unknown_property_warnings q'
unfolding collect_unknown_property_warnings
collect_unknown_property_warnings-same q q' h = ap (map to_warning) (sorted_unknown-same q q' h)
