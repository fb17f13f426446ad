-- ===== src/Index/Examples/Locks.antt =====
-- The project lock of internal/index/lockfile.go at concrete inputs.
use pincher_mcp.Prelude.{ℕ, ◌≡◌, refl, arith, true, false}
use pincher_mcp.Index.Lock.{
  held, Locks, create, create_fails, write, call, LockReach, idle, after, is_inside,
}
use pincher_mcp.Index.Lock.Exclusion.{LockReach-excludes}
use pincher_mcp.Index.Lock.Race.{is_calm, both_hold}

both_hold_example :
    (s : Locks) × ((r : LockReach s) × (is_calm r ≡ true))
    × (s.phases 3 ≡ held)
    × (s.phases 5 ≡ held)
    × ((i : ℕ) → s.dead i ≡ false)
    × (s.reclaims ≡ 1)
both_hold_example = both_hold 3 5 (omega arith)

reached : (s : Locks) × LockReach s × (s.reclaims ≡ 0) × (is_inside (s.phases 4) ≡ true)
reached =
    let r1 = after idle (call 4 refl (create 0 refl refl)) in
    let r2 = after r1 (call 7 refl (create_fails 0 refl)) in
    let r3 = after r2 (call 4 refl (write 0 refl)) in (_, r3, refl, refl)

LockReach-excludes_example : ◌≡◌ {A = ℕ} 4 4
LockReach-excludes_example = LockReach-excludes reached.1 reached.2 4 4 reached.3 reached.3
