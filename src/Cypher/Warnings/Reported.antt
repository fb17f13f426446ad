-- ===== src/Cypher/Warnings/Reported.antt =====
-- What the collectors of internal/cypher/engine.go find, told without their loops.
use pincher_mcp.Prelude.{
  ◌≡◌, refl, ap, ◌∙◌, Bool, not, ◌&&◌, ◌||◌, List, [], ◌∷◌, ◌++◌, Option, none, some, arith, Bytes,
  is_empty, str_eq, str_eq→eq, any, Bool-cases, inl, inr,
}
use pincher_mcp.Cypher.Ast.{
  Condition, WhereExpr, cond_expr, binary_expr, not_expr, Pattern, Props, ReturnVar, QueryAst,
}
use pincher_mcp.Cypher.Warnings.{each, walk_where, each_condition}
use pincher_mcp.Cypher.Warnings.Names.{
  Unknown, mark_unknown, edge_variables, is_edge_var, is_known_property, check_property,
  check_props, check_pattern, unknown_properties,
}

-- The leaves of a WHERE tree.
unfoldable pub leaves_of : WhereExpr → List Condition
leaves_of (cond_expr c) = c ∷ []
leaves_of (binary_expr op left right) = leaves_of left ++ leaves_of right
leaves_of (not_expr inner) = leaves_of inner

-- Some condition of a query, in its flat form or in its tree, passes the test.
abbrev pub any_condition : (Condition → Bool) → QueryAst → Bool
any_condition t q = elim q.where_expr [
  | none ↦ any t q.conditions
  | some w ↦ any t q.conditions || any t (leaves_of w)
]

any-append :
    {A : Type 0} (p : A → Bool) (xs ys : List A) → any p (xs ++ ys) ≡ (any p xs || any p ys)
any-append p [] ys = refl
any-append p (x ∷ xs) ys = ground (arith, any-append p xs ys)

or_assoc_comm : (a b c : Bool) → (a || (b || c)) ≡ ((b || a) || c)
or_assoc_comm a b c = ground arith

-- A test of the state that each round makes true where a test of its member does.
module _ {S : Type 0} (m : S → Bool) where
  pub each-any :
      {A : Type 0} (check : A → S → S) (hit : A → Bool)
      → ((x : A) (s : S) → m (check x s) ≡ (hit x || m s))
      → (xs : List A) (s : S) → m (each check xs s) ≡ (any hit xs || m s)
  unfolding each
  each-any check hit h [] s = refl
  each-any check hit h (x ∷ xs) s = ground (arith, each-any check hit h xs (check x s), h x s)

  module _ (check : Condition → S → S) (hit : Condition → Bool)
      (h : (c : Condition) (s : S) → m (check c s) ≡ (hit c || m s)) where
    walk_where-any :
        (w : WhereExpr) (s : S) → m (walk_where check w s) ≡ (any hit (leaves_of w) || m s)
    unfolding walk_where leaves_of
    walk_where-any (cond_expr c) s = ground (arith, h c s)
    walk_where-any (binary_expr op left right) s = ground (
      arith,
      walk_where-any right (walk_where check left s),
      walk_where-any left s,
      any-append hit (leaves_of left) (leaves_of right),
    )
    walk_where-any (not_expr inner) s = walk_where-any inner s

    pub each_condition-any :
        (q : QueryAst) (s : S) → m (each_condition check q s) ≡ (any_condition hit q || m s)
    unfolding each_condition
    each_condition-any q s = go q.where_expr
      where
        go :
            (o : Option WhereExpr)
            → m (elim o [
              | none ↦ each check q.conditions s
              | some w ↦ walk_where check w (each check q.conditions s)
            ])
              ≡ (elim o [
                | none ↦ any hit q.conditions
                | some w ↦ any hit q.conditions || any hit (leaves_of w)
              ]
                  || m s)
        go none = each-any check hit h q.conditions s
        go (some w) = ground (
          arith,
          walk_where-any w (each check q.conditions s),
          each-any check hit h q.conditions s,
        )

-- Some reference of the query to a property of a variable passes the test: in WHERE, in the inline
-- properties of a pattern, or in RETURN.
abbrev pub any_prop : (Bytes → Bytes → Bool) → Bytes → Props → Bool
any_prop t v props = any (λ (p : Bytes × Bytes). t v p.0) props

abbrev pub mentions : (Bytes → Bytes → Bool) → QueryAst → Bool
mentions t q =
    any (λ (rv : ReturnVar). t rv.variable rv.property) q.return_vars
    || (any
          (λ (pat : Pattern).
            any_prop t pat.to_var pat.to_props || any_prop t pat.from_var pat.from_props)
          q.patterns
        || any_condition (λ c. t c.variable c.property) q)

-- A reference that is not known.
abbrev pub is_unknown : List Bytes → Bytes → Bytes → Bool
is_unknown edges v p = not (is_empty p) && not (is_known_property (is_edge_var edges v) p)

-- The entry of a name, and the mark of its entry.
abbrev pub names : Bytes → Unknown → Bool
names n found = any (λ (x : Bytes × Bool). str_eq x.0 n) found

abbrev pub marks : Bytes → Unknown → Bool
marks n found = any (λ (x : Bytes × Bool). str_eq x.0 n && x.1) found

pub names-mark_unknown :
    (n p : Bytes) (e : Bool) (found : Unknown)
    → names n (mark_unknown p e found) ≡ (str_eq p n || names n found)
unfolding mark_unknown
names-mark_unknown n p e [] = refl
names-mark_unknown n p e ((q, f) ∷ found) = elim (Bool-cases (str_eq q p)) [
  | inl h ↦ rw h (ground (arith, ap (λ t. str_eq t n) (str_eq→eq q p h)))
  | inr h ↦ rw h (ground (arith, names-mark_unknown n p e found))
]

marks-mark_unknown :
    (n p : Bytes) (e : Bool) (found : Unknown)
    → marks n (mark_unknown p e found) ≡ ((str_eq p n && e) || marks n found)
unfolding mark_unknown
marks-mark_unknown n p e [] = ground arith
marks-mark_unknown n p e ((q, f) ∷ found) = elim (Bool-cases (str_eq q p)) [
  | inl h ↦ rw h (ground (arith, ap (λ t. str_eq t n) (str_eq→eq q p h)))
  | inr h ↦ rw h (ground (arith, marks-mark_unknown n p e found))
]

module _ (m : Unknown → Bool) (hit : Bytes → Bytes → Bool) (edges : List Bytes)
    (law : (v p : Bytes) (s : Unknown) → m (check_property edges v p s) ≡ (hit v p || m s)) where
  check_props-any :
      (v : Bytes) (props : Props) (s : Unknown)
      → m (check_props edges v props s) ≡ (any_prop hit v props || m s)
  unfolding check_props
  check_props-any v props s =
      each-any m _ (λ (p : Bytes × Bytes). hit v p.0) (λ p. law v p.0) props s

  check_pattern-any :
      (pat : Pattern) (s : Unknown)
      → m (check_pattern edges pat s) ≡ (
          (any_prop hit pat.to_var pat.to_props || any_prop hit pat.from_var pat.from_props) || m s)
  check_pattern-any pat s = ground (
    arith,
    check_props-any pat.to_var pat.to_props (check_props edges pat.from_var pat.from_props s),
    check_props-any pat.from_var pat.from_props s,
  )

module _ (m : Unknown → Bool) (hit : Bytes → Bytes → Bool) (q : QueryAst)
    (law : (v p : Bytes) (s : Unknown)
      → m (check_property (edge_variables q.patterns) v p s) ≡ (hit v p || m s)) where
  pub unknown_properties-any : m (unknown_properties q) ≡ (mentions hit q || m [])
  unfolding unknown_properties
  unknown_properties-any =
      let edges = edge_variables q.patterns in
      let conds = each_condition (λ c. check_property edges c.variable c.property) q [] in
      let pats = each (check_pattern edges) q.patterns conds in
      ground (
        arith,
        each-any m (λ (rv : ReturnVar). check_property edges rv.variable rv.property)
            (λ rv. hit rv.variable rv.property) (λ rv. law rv.variable rv.property) q.return_vars
            pats,
        each-any m (check_pattern edges) _ (check_pattern-any m hit edges law) q.patterns conds,
        each_condition-any m (λ c. check_property edges c.variable c.property)
            (λ c. hit c.variable c.property) (λ c. law c.variable c.property) q [],
      )

-- The names that are found are those of the references that are not known.
pub unknown_properties-names :
    (q : QueryAst) (n : Bytes)
    → names n (unknown_properties q)
      ≡ mentions (λ v p. is_unknown (edge_variables q.patterns) v p && str_eq p n) q
unfolding check_property
unknown_properties-names q n =
    let edges = edge_variables q.patterns in
    unknown_properties-any (names n) (λ v p. is_unknown edges v p && str_eq p n) q
      (λ v p s. ground (arith, names-mark_unknown n p (is_edge_var edges v) s))
    ∙ ground arith

-- A name is marked where such a reference is to an edge.
pub unknown_properties-marks :
    (q : QueryAst) (n : Bytes)
    → marks n (unknown_properties q)
      ≡ mentions
          (λ v p.
            is_unknown (edge_variables q.patterns) v p
            && is_edge_var (edge_variables q.patterns) v
            && str_eq p n)
          q
unfolding check_property
unknown_properties-marks q n =
    let edges = edge_variables q.patterns in
    unknown_properties-any (marks n)
      (λ v p. is_unknown edges v p && is_edge_var edges v && str_eq p n) q
      (λ v p s. ground (arith, marks-mark_unknown n p (is_edge_var edges v) s))
    ∙ ground arith
