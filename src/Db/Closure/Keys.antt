-- ===== src/Db/Closure/Keys.antt =====
-- The primary key of the table `closure` under the statements of internal/db/closure.go.
use pincher_mcp.Prelude.{
  ℕ, ◌≡◌, refl, Bool, true, false, ◌&&◌, ◌||◌, List, [], ◌∷◌, ◌++◌, some, arith, Bytes, str_eq_iff,
  any, ok, leb, ◌==◌, subst, some-injective, ◌≤◌, ◌↔◌, sym, ◌∙◌, Bool-cases, inl, inr,
}
use pincher_mcp.Db.Closure.{Edge, ClosureRow, Adjacency, read_edges}
use pincher_mcp.Db.Closure.Build.{
  Faults, row_is, insert_or_ignore, delete_project, insert_rows, all_inserts, build_closure,
}
use pincher_mcp.Db.Closure.Rounds.{depth_of}
use pincher_mcp.Db.Closure.Table.{any-like_row}
use pincher_mcp.Db.Closure.Distances.{build_closure-ok}

-- A row for the same pair of ids in the same project.
abbrev pub like_row : ClosureRow → ClosureRow → Bool
like_row r = row_is r.project_id r.from_id r.to_id

-- No two rows have the same key.
abbrev pub IsKeyed : List ClosureRow → Type 0
IsKeyed [] = Unit
IsKeyed (r ∷ table) = (any (like_row r) table ≡ false) × IsKeyed table

like_row_symm : (q r : ClosureRow) → like_row q r ≡ like_row r q
unfolding row_is
like_row_symm q r = ground (
  arith,
  str_eq_iff q.project_id r.project_id,
  str_eq_iff r.project_id q.project_id,
  str_eq_iff q.from_id r.from_id,
  str_eq_iff r.from_id q.from_id,
  str_eq_iff q.to_id r.to_id,
  str_eq_iff r.to_id q.to_id,
)

any-append {ℓ} :
    {A : Type ℓ} (p : A → Bool) (xs ys : List A) → any p (xs ++ ys) ≡ (any p xs || any p ys)
any-append p [] ys = refl
any-append p (x ∷ xs) ys = ground (arith, any-append p xs ys)

append-IsKeyed :
    (r : ClosureRow) (table : List ClosureRow)
    → IsKeyed table
    → any (like_row r) table ≡ false
    → IsKeyed (table ++ r ∷ [])
append-IsKeyed r [] k h = (refl, tt)
append-IsKeyed r (q ∷ table) (new, k) h = (
  ground (arith, any-append (like_row q) table (r ∷ []), like_row_symm q r),
  append-IsKeyed r table k (ground arith),
)

insert_or_ignore-IsKeyed :
    (r : ClosureRow) (table : List ClosureRow) → IsKeyed table → IsKeyed (insert_or_ignore r table)
unfolding insert_or_ignore
insert_or_ignore-IsKeyed r table k = ground (arith, append-IsKeyed r table k)

insert_rows-IsKeyed :
    (faults : Faults) (rs table t : List ClosureRow)
    → IsKeyed table
    → insert_rows faults rs table ≡ some t
    → IsKeyed t
unfolding insert_rows
insert_rows-IsKeyed faults [] table t k h = subst IsKeyed (some-injective _ _ h) k
insert_rows-IsKeyed faults (r ∷ rs) table t k h =
    insert_rows-IsKeyed faults rs (insert_or_ignore r table) t (insert_or_ignore-IsKeyed r table k)
      (ground arith)

any-delete_project :
    (p : ClosureRow → Bool) (project : Bytes) (table : List ClosureRow)
    → any p table ≡ false
    → any p (delete_project project table) ≡ false
unfolding delete_project
any-delete_project p project [] h = refl
any-delete_project p project (r ∷ table) h = ground (arith, any-delete_project p project table)

delete_project-IsKeyed :
    (project : Bytes) (table : List ClosureRow)
    → IsKeyed table
    → IsKeyed (delete_project project table)
unfolding delete_project
delete_project-IsKeyed project [] k = tt
delete_project-IsKeyed project (r ∷ table) (new, k) = ground (
  arith,
  delete_project-IsKeyed project table k,
  any-delete_project (like_row r) project table new,
)

-- A committed build keeps the key of the table: if no two rows had the same project, source and
-- target before, none have after.
pub build_closure-IsKeyed :
    (faults : Faults) (order : Adjacency → List Bytes) (p : Bytes) (m : ℕ) (edges : List Edge)
    (table t : List ClosureRow)
    → IsKeyed table
    → build_closure faults order p m edges table ≡ ok t
    → IsKeyed t
build_closure-IsKeyed faults order p m edges table t k h =
    insert_rows-IsKeyed faults
      (all_inserts p (read_edges p edges []) m (order (read_edges p edges [])))
      (delete_project p table) t (delete_project-IsKeyed p table k)
      (build_closure-ok faults order p m edges table t h)

any-and {ℓ} :
    {A : Type ℓ} (p q : A → Bool) (xs : List A)
    → any p xs ≡ false
    → any (λ x. p x && q x) xs ≡ false
any-and p q [] h = refl
any-and p q (x ∷ xs) h = ground (arith, any-and p q xs)

-- With the key, the depth for a pair is that of the only row for it.
pub any-depth_of :
    (p a b : Bytes) (d k : ℕ) (table : List ClosureRow)
    → IsKeyed table
    → (any (λ r. row_is p a b r && leb r.depth d && r.depth == k) table ≡ true)
      ↔ (depth_of p a b table ≡ some k) × (k ≤ d)
unfolding depth_of
any-depth_of p a b d k [] h = ground arith
any-depth_of p a b d k (r ∷ table) (new, h) = elim (Bool-cases (row_is p a b r)) [
  | inl e ↦
      let alone : any (row_is p a b) table ≡ false = sym (any-like_row p a b r table e) ∙ new in
      ground (arith, any-and (row_is p a b) (λ q. leb q.depth d && q.depth == k) table alone)
  | inr e ↦ ground (arith, any-depth_of p a b d k table h)
]
