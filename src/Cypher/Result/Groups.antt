-- ===== src/Cypher/Result/Groups.antt =====
-- The implicit GROUP BY of `buildResult` in internal/cypher/engine.go: each row is in one group, that
-- of its key.
use pincher_mcp.Prelude.{
  ℕ, suc, ◌+◌, ◌≡◌, refl, sym, ap, ◌∙◌, Bool, false, ◌||◌, List, [], ◌∷◌, ◌++◌, arith,
  if◌then◌else◌, Bytes, str_eq, str_eq_iff, length, length-append, append_assoc, Bool-cases, inl,
  inr, append-nil,
}
use pincher_mcp.Cypher.Ast.{ReturnVar}
use pincher_mcp.Cypher.Result.{Fields, OutRow, sprint_row}
use pincher_mcp.Cypher.Result.Build.{GroupBucket, add_to_group, group_values, group_rows}

-- The group key of a row.
abbrev pub key_of : List ReturnVar → Fields → Bytes
key_of rvs row = sprint_row (group_values rvs row [])

-- The rows with a group key, in their order.
abbrev pub with_key : List ReturnVar → Bytes → List Fields → List Fields
with_key rvs key [] = []
with_key rvs key (row ∷ rows) =
    if str_eq (key_of rvs row) key then row ∷ with_key rvs key rows else with_key rvs key rows

-- The rows of the first bucket with the key.
abbrev pub rows_for : Bytes → List GroupBucket → List Fields
rows_for key [] = []
rows_for key (b ∷ bs) = if str_eq b.key key then b.rows else rows_for key bs

abbrev pub has_key : Bytes → List GroupBucket → Bool
has_key key [] = false
has_key key (b ∷ bs) = str_eq b.key key || has_key key bs

-- No two buckets have the same key.
abbrev pub HasKeysOnce : List GroupBucket → Type 0
HasKeysOnce [] = Unit
HasKeysOnce (b ∷ bs) = (has_key b.key bs ≡ false) × HasKeysOnce bs

abbrev pub gathered : List GroupBucket → ℕ
gathered [] = 0
gathered (b ∷ bs) = length b.rows + gathered bs

module _ (k : Bytes) (values : OutRow) (row : Fields) where
  rows_for-add_to_group :
      (key : Bytes) (bs : List GroupBucket)
      → rows_for key (add_to_group k values row bs)
        ≡ rows_for key bs ++ (if str_eq k key then row ∷ [] else [])
  unfolding add_to_group
  rows_for-add_to_group key [] = ground arith
  rows_for-add_to_group key (b ∷ bs) = ground (
    arith,
    rows_for-add_to_group key bs,
    str_eq_iff b.key k,
    str_eq_iff b.key key,
    str_eq_iff k key,
    append-nil b.rows,
    append-nil (rows_for key bs),
  )

  has_key-add_to_group :
      (key : Bytes) (bs : List GroupBucket)
      → has_key key (add_to_group k values row bs) ≡ (str_eq k key || has_key key bs)
  unfolding add_to_group
  has_key-add_to_group key [] = ground arith
  has_key-add_to_group key (b ∷ bs) =
      ground (arith, has_key-add_to_group key bs, str_eq_iff b.key k)

  add_to_group-HasKeysOnce :
      (bs : List GroupBucket) → HasKeysOnce bs → HasKeysOnce (add_to_group k values row bs)
  unfolding add_to_group
  add_to_group-HasKeysOnce [] h = (refl, tt)
  add_to_group-HasKeysOnce (b ∷ bs) (new, h) = ground (
    arith,
    add_to_group-HasKeysOnce bs h,
    has_key-add_to_group b.key bs,
    str_eq_iff k b.key,
    str_eq_iff b.key k,
  )

  gathered-add_to_group :
      (bs : List GroupBucket) → gathered (add_to_group k values row bs) ≡ suc (gathered bs)
  unfolding add_to_group
  gathered-add_to_group [] = omega arith
  gathered-add_to_group (b ∷ bs) =
      ground (arith, gathered-add_to_group bs, length-append b.rows (row ∷ []))

module _ (rvs : List ReturnVar) where
  rows_for-group_rows :
      (key : Bytes) (rows : List Fields) (bs : List GroupBucket)
      → rows_for key (group_rows rvs rows bs) ≡ rows_for key bs ++ with_key rvs key rows
  unfolding group_rows
  rows_for-group_rows key [] bs = sym (append-nil (rows_for key bs))
  rows_for-group_rows key (row ∷ rows) bs =
      let added = add_to_group (key_of rvs row) (group_values rvs row []) row bs in
      let step = rows_for-add_to_group (key_of rvs row) (group_values rvs row []) row key bs in
      let rest = rows_for-group_rows key rows added in
      elim (Bool-cases (str_eq (key_of rvs row) key)) [
        | inl e ↦
            rest
            ∙ ap (λ t. t ++ with_key rvs key rows) (rw e at step)
            ∙ rw e (append_assoc (rows_for key bs) (row ∷ []) (with_key rvs key rows))
        | inr e ↦
            rest
            ∙ ap (λ t. t ++ with_key rvs key rows) (rw e at step ∙ append-nil (rows_for key bs))
            ∙ rw e refl
      ]

  group_rows-HasKeysOnce :
      (rows : List Fields) (bs : List GroupBucket)
      → HasKeysOnce bs
      → HasKeysOnce (group_rows rvs rows bs)
  unfolding group_rows
  group_rows-HasKeysOnce [] bs h = h
  group_rows-HasKeysOnce (row ∷ rows) bs h =
      group_rows-HasKeysOnce rows (add_to_group (key_of rvs row) (group_values rvs row []) row bs)
        (add_to_group-HasKeysOnce (key_of rvs row) (group_values rvs row []) row bs h)

  gathered-group_rows :
      (rows : List Fields) (bs : List GroupBucket)
      → gathered (group_rows rvs rows bs) ≡ length rows + gathered bs
  unfolding group_rows
  gathered-group_rows [] bs = omega arith
  gathered-group_rows (row ∷ rows) bs =
      let values = group_values rvs row [] in
      omega (
        arith,
        gathered-group_rows rows (add_to_group (key_of rvs row) values row bs),
        gathered-add_to_group (key_of rvs row) values row bs,
      )

  -- The implicit GROUP BY makes one group for each key that the rows have, the printed values of the
  -- columns to group by: the group of a key holds exactly the rows with that key, in the order of the
  -- scan, no two groups have the same key, and the groups together hold as many rows as there are.
  pub group_rows-with_key :
      (rows : List Fields)
      → ((key : Bytes) → rows_for key (group_rows rvs rows []) ≡ with_key rvs key rows)
        × HasKeysOnce (group_rows rvs rows [])
        × (gathered (group_rows rvs rows []) ≡ length rows)
  group_rows-with_key rows = (
    λ key. rows_for-group_rows key rows [],
    group_rows-HasKeysOnce rows [] tt,
    omega (arith, gathered-group_rows rows []),
  )
