-- ===== src/Db/Closure/Build.antt =====
-- `BuildClosure` of internal/db/closure.go: the transaction that replaces the rows of a project.
use pincher_mcp.Prelude.{
  ℕ, Bool, true, false, ◌&&◌, ◌||◌, List, [], ◌∷◌, ◌++◌, Option, none, some, if◌then◌else◌, ltb,
  Bytes, str_eq, any, error, Result, ok, fail,
}
use pincher_mcp.Db.Closure.{Edge, ClosureRow, Adjacency, read_edges, search_from, is_traced}

-- Where `BuildClosure` ends with an error.
pub data ClosureError : Type 0 where
  bad_depth : ℕ → ClosureError
  read_failed scan_failed iter_failed begin_failed delete_failed : ClosureError
  prepare_failed insert_failed close_failed commit_failed : ClosureError

-- Which calls of the database driver fail.
pub record Faults : Type 0 where
  pub query : Bool
  pub scan : Edge → Bool
  pub iter : Bool
  pub begin : Bool
  pub delete : Bool
  pub prepare : Bool
  pub insert : ClosureRow → Bool
  pub close : Bool
  pub commit : Bool

-- Whether a row stands for the pair of ids, in the project: the primary key of the table.
unfoldable pub row_is : Bytes → Bytes → Bytes → ClosureRow → Bool
unfolding str_eq
row_is project from to r = str_eq r.project_id project && str_eq r.from_id from && str_eq r.to_id to

-- `INSERT OR IGNORE`
unfoldable pub insert_or_ignore : ClosureRow → List ClosureRow → List ClosureRow
unfolding row_is
insert_or_ignore r table =
    if any (row_is r.project_id r.from_id r.to_id) table then table else table ++ r ∷ []

-- `DELETE FROM closure WHERE project_id = ?`
unfoldable pub delete_project : Bytes → List ClosureRow → List ClosureRow
delete_project project [] = []
delete_project project (r ∷ table) =
    let rest = delete_project project table in
    if str_eq r.project_id project then rest else r ∷ rest

-- The INSERT statements in their order, up to the first that fails.
unfoldable pub insert_rows : Faults → List ClosureRow → List ClosureRow → Option (List ClosureRow)
unfolding insert_or_ignore
insert_rows faults [] table = some table
insert_rows faults (r ∷ rs) table =
    let rest = insert_rows faults rs (insert_or_ignore r table) in
    if faults.insert r then none else rest

-- The loop over the sources. Beside the errors of its INSERT statements, nothing that a search reads
-- depends on the table.
unfoldable pub all_inserts : Bytes → Adjacency → ℕ → List Bytes → List ClosureRow
unfolding search_from
all_inserts project adj max_depth [] = []
all_inserts project adj max_depth (from ∷ sources) =
    (search_from project from adj max_depth).inserts ++ all_inserts project adj max_depth sources

unfoldable pub check :
    {A : Type 0} → Bool → ClosureError → Result ClosureError A → Result ClosureError A
check true e r = fail (error e)
check false e r = r

-- `commit` after the last INSERT statement; any error before it rolls the transaction back.
unfoldable pub commit_table :
    Faults → Option (List ClosureRow) → Result ClosureError (List ClosureRow)
unfolding check
commit_table faults none = fail (error insert_failed)
commit_table faults (some table) =
    check faults.close close_failed (check faults.commit commit_failed (ok table))

-- The row iteration ends with the first row that cannot be scanned.
unfoldable pub scan_fails : Faults → Bytes → List Edge → Bool
scan_fails faults project [] = false
scan_fails faults project (e ∷ es) =
    is_traced project e && faults.scan e || scan_fails faults project es

-- `BuildClosure` on the edges and on the table `closure`: the table that is committed. `order` is the
-- order in which Go's map iteration gives the sources of the adjacency lists.
unfoldable pub build_closure :
    Faults
    → (Adjacency → List Bytes)
    → Bytes
    → ℕ
    → List Edge
    → List ClosureRow
    → Result ClosureError (List ClosureRow)
unfolding read_edges is_traced check commit_table scan_fails insert_rows delete_project all_inserts
build_closure faults order project max_depth edges table =
    let adj = read_edges project edges [] in
    check (ltb max_depth 1) (bad_depth max_depth) (
      check faults.query read_failed (
        check (scan_fails faults project edges) scan_failed (
          check faults.iter iter_failed (
            check faults.begin begin_failed (
              check faults.delete delete_failed (
                check faults.prepare prepare_failed (
                  commit_table faults (
                    insert_rows faults (all_inserts project adj max_depth (order adj))
                      (delete_project project table)))))))))
