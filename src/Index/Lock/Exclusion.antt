-- ===== src/Index/Lock/Exclusion.antt =====
-- When the lock of internal/index/lockfile.go excludes.
use pincher_mcp.Prelude.{ℕ, ◌≡◌, refl, ap, ◌∙◌, Bool, true, false, Option, none, some, arith}
use pincher_mcp.Index.Lock.{
  Lockfile, Phase, checking, removing, held, refused, released, Locks, go_to, filled, LockMove,
  create, create_fails, exists_first, exists_again, gone, fresh, stale, remove, write, write_fails,
  release, remove_fails, write_fails_twice, release_fails, call, die, age, LockReach, idle, after,
  is_inside,
}

abbrev is_there : Option Lockfile → Bool
is_there none = false
is_there (some f) = true

abbrev is_removing : Phase → Bool
is_removing removing = true
is_removing phase = false

-- While no file was judged stale: at most one process is inside, the file is there while one is, and none is
-- about to remove it.
record Inv (s : Locks) : Type 0 where
  one_inside : (p q : ℕ) → is_inside (s.phases p) ≡ true → is_inside (s.phases q) ≡ true → p ≡ q
  covered : (p : ℕ) → is_inside (s.phases p) ≡ true → is_there s.file ≡ true
  kept : (p : ℕ) → is_removing (s.phases p) ≡ false

module _ (s : Locks) (p : ℕ) (inv : Inv s) where
  -- The process goes somewhere outside, and the file stays.
  goes_out : (a : Phase) → is_inside a ≡ false → is_removing a ≡ false → Inv (go_to p a s)
  goes_out a out quiet = record {
    one_inside = λ i j h k. ground (arith, out, inv.one_inside i j);
    covered = λ i h. ground (arith, out, inv.covered i);
    kept = λ i. ground (arith, quiet, inv.kept i);
  }

  -- The process inside leaves, and the file is removed.
  leaves_with :
      (a : Phase)
      → is_inside a ≡ false
      → is_removing a ≡ false
      → is_inside (s.phases p) ≡ true
      → Inv (record (go_to p a s) { file = none })
  leaves_with a out quiet was = record {
    one_inside = λ i j h k. ground (arith, out, inv.one_inside i j);
    covered = λ i h. ground (arith, out, inv.one_inside p i was);
    kept = λ i. ground (arith, quiet, inv.kept i);
  }

  -- A process that finds no file comes in with one, or the one inside stays there with it.
  comes_in :
      (a : Phase) (file : Option Lockfile) (n : ℕ)
      → is_removing a ≡ false
      → is_there file ≡ true
      → ((i : ℕ) → is_inside (s.phases i) ≡ true → p ≡ i)
      → Inv (record (go_to p a s) { file = file; next_inode = n })
  comes_in a file n quiet there alone = record {
    one_inside = λ i j h k. ground (arith, alone i, alone j);
    covered = λ i h. there;
    kept = λ i. ground (arith, quiet, inv.kept i);
  }

filled-is_there : (n p : ℕ) (o : Option Lockfile) → is_there (filled n p o) ≡ is_there o
filled-is_there n p none = refl
filled-is_there n p (some f) = refl

Move-Inv : {s : Locks} {p : ℕ} {t : Locks} → LockMove s p t → t.reclaims ≡ 0 → Inv s → Inv t
Move-Inv {s} {p} (create n at empty) z inv =
    comes_in s p inv _ _ _ refl refl (λ i h. ground (arith, inv.covered i h, ap is_there empty))
Move-Inv {s} {p} (create_fails n at) z inv = goes_out s p inv refused refl refl
Move-Inv {s} {p} (exists_first f at there) z inv = goes_out s p inv checking refl refl
Move-Inv {s} {p} (exists_again f at there) z inv = goes_out s p inv refused refl refl
Move-Inv {s} {p} (gone at empty) z inv = goes_out s p inv refused refl refl
Move-Inv {s} {p} (fresh f at there ok) z inv = goes_out s p inv refused refl refl
Move-Inv {s} {p} (stale f at there bad) z inv = absurd (omega (arith, z))
Move-Inv {s} {p} (remove at) z inv = absurd (ground (arith, ap is_removing at, inv.kept p))
Move-Inv {s} {p} (write n at) z inv =
    let was : is_inside (s.phases p) ≡ true = ap is_inside at in
    comes_in s p inv held (filled n p s.file) s.next_inode refl
      (filled-is_there n p s.file ∙ inv.covered p was) (λ i h. inv.one_inside p i was h)
Move-Inv {s} {p} (write_fails n at) z inv = leaves_with s p inv refused refl refl (ap is_inside at)
Move-Inv {s} {p} (release at) z inv = leaves_with s p inv released refl refl (ap is_inside at)
Move-Inv {s} {p} (remove_fails at) z inv = absurd (ground (arith, ap is_removing at, inv.kept p))
Move-Inv {s} {p} (write_fails_twice n at) z inv = goes_out s p inv refused refl refl
Move-Inv {s} {p} (release_fails at) z inv = goes_out s p inv released refl refl

-- The count of stale files does not go down.
Move-reclaims : {s : Locks} {p : ℕ} {t : Locks} → LockMove s p t → t.reclaims ≡ 0 → s.reclaims ≡ 0
Move-reclaims (create n at empty) z = z
Move-reclaims (create_fails n at) z = z
Move-reclaims (exists_first f at there) z = z
Move-reclaims (exists_again f at there) z = z
Move-reclaims (gone at empty) z = z
Move-reclaims (fresh f at there ok) z = z
Move-reclaims (stale f at there bad) z = absurd (omega (arith, z))
Move-reclaims (remove at) z = z
Move-reclaims (write n at) z = z
Move-reclaims (write_fails n at) z = z
Move-reclaims (release at) z = z
Move-reclaims (remove_fails at) z = z
Move-reclaims (write_fails_twice n at) z = z
Move-reclaims (release_fails at) z = z

Reach-Inv : {s : Locks} → LockReach s → s.reclaims ≡ 0 → Inv s
Reach-Inv idle z = record {
  one_inside = λ p q h k. absurd (ground (arith, h));
  covered = λ p h. ground (arith, h);
  kept = λ p. refl;
}
Reach-Inv (after r (call p alive m)) z = Move-Inv m z (Reach-Inv r (Move-reclaims m z))
Reach-Inv (after r (die p)) z =
    let inv = Reach-Inv r z in
    record { one_inside = inv.one_inside; covered = inv.covered; kept = inv.kept }
Reach-Inv (after r (age f there)) z =
    let inv = Reach-Inv r z in
    record { one_inside = inv.one_inside; covered = λ p h. refl; kept = inv.kept }

-- As long as no lockfile was judged stale, at most one process is inside: it has created its lockfile and
-- is about to write it, or it holds the lock. The processes take their steps in any order, may die at any
-- point, and their calls of the file system may fail.
pub LockReach-excludes :
    {s : Locks}
    → LockReach s
    → s.reclaims ≡ 0
    → (p q : ℕ) → is_inside (s.phases p) ≡ true
    → is_inside (s.phases q) ≡ true
    → p ≡ q
LockReach-excludes r z p q h k = (Reach-Inv r z).one_inside p q h k
