-- ===== src/Db/Closure/Table.antt =====
-- The statements of internal/db/closure.go on the table `closure`, by the depth that the table has for
-- a pair of ids.
use pincher_mcp.Prelude.{
  ◌≡◌, refl, ◌∙◌, true, not, List, [], ◌∷◌, none, some, arith, if◌then◌else◌, Bytes, str_eq,
  str_eq_iff, any, Bool-cases, inl, inr, ap,
}
use pincher_mcp.Db.Closure.{ClosureRow, is_none}
use pincher_mcp.Db.Closure.Build.{row_is, insert_or_ignore, delete_project, insert_rows, Faults}
use pincher_mcp.Db.Closure.Rounds.{or_else, when, depth_of, depth_of-append}

any-row_is :
    (p a b : Bytes) (table : List ClosureRow)
    → any (row_is p a b) table ≡ not (is_none (depth_of p a b table))
unfolding depth_of
any-row_is p a b [] = refl
any-row_is p a b (r ∷ table) = ground (arith, any-row_is p a b table)

row_is→eq :
    (p a b : Bytes) (r : ClosureRow)
    → row_is p a b r ≡ true
    → (r.project_id ≡ p) × (r.from_id ≡ a) × (r.to_id ≡ b)
unfolding row_is
row_is→eq p a b r h =
    ground (arith, str_eq_iff r.project_id p, str_eq_iff r.from_id a, str_eq_iff r.to_id b)

-- The test for the key of a row that stands for the pair is the test for the pair.
pub any-like_row :
    (p a b : Bytes) (r : ClosureRow) (table : List ClosureRow)
    → row_is p a b r ≡ true
    → any (row_is r.project_id r.from_id r.to_id) table ≡ any (row_is p a b) table
any-like_row p a b r table h =
    let (ep, ea, eb) = row_is→eq p a b r h in
    ap (λ x. any (row_is x r.from_id r.to_id) table) ep
    ∙ ap (λ x. any (row_is p x r.to_id) table) ea
    ∙ ap (λ x. any (row_is p a x) table) eb

depth_of-insert_or_ignore :
    (p a b : Bytes) (r : ClosureRow) (table : List ClosureRow)
    → depth_of p a b (insert_or_ignore r table)
      ≡ or_else (depth_of p a b table) (when (row_is p a b r) r.depth)
unfolding insert_or_ignore depth_of
depth_of-insert_or_ignore p a b r table = elim (Bool-cases (row_is p a b r)) [
  | inl e ↦
      let same = any-like_row p a b r table e in
      ground (arith, same, e, any-row_is p a b table, depth_of-append p a b table (r ∷ []))
  | inr e ↦ ground (arith, depth_of-append p a b table (r ∷ []))
]

pub depth_of-insert_rows :
    (faults : Faults) (p a b : Bytes) (rs table t : List ClosureRow)
    → insert_rows faults rs table ≡ some t
    → depth_of p a b t ≡ or_else (depth_of p a b table) (depth_of p a b rs)
unfolding insert_rows depth_of
depth_of-insert_rows faults p a b [] table t h = ground arith
depth_of-insert_rows faults p a b (r ∷ rs) table t h = ground (
  arith,
  depth_of-insert_rows faults p a b rs (insert_or_ignore r table) t,
  depth_of-insert_or_ignore p a b r table,
)

pub depth_of-delete_project :
    (p q a b : Bytes) (table : List ClosureRow)
    → depth_of q a b (delete_project p table) ≡ (if str_eq p q then none else depth_of q a b table)
unfolding delete_project depth_of row_is
depth_of-delete_project p q a b [] = ground arith
depth_of-delete_project p q a b (r ∷ table) = ground (
  arith,
  depth_of-delete_project p q a b table,
  str_eq_iff r.project_id p,
  str_eq_iff r.project_id q,
  str_eq_iff p q,
)
