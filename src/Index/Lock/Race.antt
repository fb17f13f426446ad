-- ===== src/Index/Lock/Race.antt =====
-- A file of internal/index/lockfile.go that is created but not yet written.
use pincher_mcp.Prelude.{ℕ, ◌≡◌, ◌≢◌, refl, Bool, true, false, ◌&&◌, arith}
use pincher_mcp.Index.Lock.{
  held, Locks, LockMove, create, create_fails, exists_first, exists_again, gone, fresh, stale,
  remove, write, write_fails, release, remove_fails, write_fails_twice, release_fails, call, die,
  age, LockReach, idle, after, is_stale_lockfile,
}

-- Whether the call of the file system did what it was asked.
abbrev pub succeeds : {s : Locks} {p : ℕ} {t : Locks} → LockMove s p t → Bool
succeeds (create n at empty) = true
succeeds (create_fails n at) = false
succeeds (exists_first f at there) = true
succeeds (exists_again f at there) = true
succeeds (gone at empty) = true
succeeds (fresh f at there ok) = true
succeeds (stale f at there bad) = true
succeeds (remove at) = true
succeeds (write n at) = true
succeeds (write_fails n at) = false
succeeds (release at) = true
succeeds (remove_fails at) = false
succeeds (write_fails_twice n at) = false
succeeds (release_fails at) = false

-- A run in which no process dies, no file grows old, and no call fails.
unfoldable pub is_calm : {s : Locks} → LockReach s → Bool
is_calm idle = true
is_calm (after r (call p alive m)) = succeeds m && is_calm r
is_calm (after r (die p)) = false
is_calm (after r (age f there)) = false

-- Any two processes that ask for the lock of a project with no lockfile can both come to hold it, in a
-- run in which no process dies, no file grows old and no call fails. One file was judged stale in it.
pub both_hold :
    (p q : ℕ)
    → p ≢ q
    → (s : Locks) × ((r : LockReach s) × (is_calm r ≡ true))
      × (s.phases p ≡ held)
      × (s.phases q ≡ held)
      × ((i : ℕ) → s.dead i ≡ false)
      × (s.reclaims ≡ 1)
unfolding is_stale_lockfile is_calm
both_hold p q apart =
    let r1 = after idle (call p refl (create 0 refl refl)) in
    let r2 = after r1 (call q refl (exists_first _ (ground (arith, apart)) refl)) in
    let r3 = after r2 (call q refl (stale _ (ground (arith, apart)) refl refl)) in
    let r4 = after r3 (call q refl (remove (ground (arith, apart)))) in
    let r5 = after r4 (call q refl (create 1 (ground (arith, apart)) refl)) in
    let r6 = after r5 (call q refl (write 1 (ground (arith, apart)))) in
    let r7 = after r6 (call p refl (write 0 (ground (arith, apart)))) in
    (_, (r7, refl), ground (arith, apart), ground (arith, apart), λ i. refl, refl)
