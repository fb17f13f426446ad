-- ===== src/Index/Lock.antt =====
-- The lock of a project between processes: `acquireProjectLock`, `isStaleLockfile` and the release
-- function of internal/index/lockfile.go, for one lockfile. A create, a write or a remove is a step of a
-- process, and so is the check of a lockfile, whose reads come one after the other. Every process asks
-- for the lock once, and no PID is given to two processes.
pub mod Exclusion
pub mod Race
use pincher_mcp.Prelude.{
  ℕ, zero, suc, ◌≡◌, Bool, true, false, not, ◌||◌, List, [], ◌∷◌, Option, none, some, if◌then◌else◌,
  ◌==◌,
}

-- The lockfile: the number of its inode, the PID in its payload, which is missing until it is written, and
-- whether it is older than `lockStaleAge`.
pub record Lockfile : Type 0 where
  pub inode : ℕ
  pub payload : Option ℕ
  pub old : Bool

-- Where a process is. `trying n` is before the exclusive create of attempt n, and `writing n` has created
-- the inode n.
pub data Phase : Type 0 where
  trying writing : ℕ → Phase
  checking removing held refused released : Phase

pub record Locks : Type 0 where
  pub file : Option Lockfile
  pub next_inode : ℕ
  pub phases : ℕ → Phase
  pub dead : ℕ → Bool
  -- How often a file was judged stale.
  pub reclaims : ℕ

-- `isStaleLockfile`; an empty payload is not JSON.
unfoldable pub is_stale_lockfile : (ℕ → Bool) → Lockfile → Bool
is_stale_lockfile dead f = f.old || elim f.payload [ none ↦ true | some pid ↦ dead pid ]

abbrev pub update : (ℕ → Phase) → ℕ → Phase → ℕ → Phase
update f i a j = if i == j then a else f j

abbrev pub go_to : ℕ → Phase → Locks → Locks
go_to p a s = record s { phases = update s.phases p a }

abbrev pub fresh_file : ℕ → Lockfile
fresh_file n = record { inode = n; payload = none; old = false }

-- A write to an inode that is not at the path any more leaves the path as it is.
abbrev pub filled : ℕ → ℕ → Option Lockfile → Option Lockfile
filled n p none = none
filled n p (some f) = some (if f.inode == n then record f { payload = some p } else f)

-- A call of the file system by process `p`, with what the code does after it.
pub data LockMove (s : Locks) (p : ℕ) : Locks → Type 0 where
  create :
      (n : ℕ)
      → s.phases p ≡ trying n
      → s.file ≡ none
      → LockMove s p (record (go_to p (writing s.next_inode) s) {
        file = some (fresh_file s.next_inode);
        next_inode = suc s.next_inode;
      })
  create_fails : (n : ℕ) → s.phases p ≡ trying n → LockMove s p (go_to p refused s)
  exists_first :
      (f : Lockfile) → s.phases p ≡ trying 0 → s.file ≡ some f → LockMove s p (go_to p checking s)
  exists_again :
      (f : Lockfile) → s.phases p ≡ trying 1 → s.file ≡ some f → LockMove s p (go_to p refused s)
  gone : s.phases p ≡ checking → s.file ≡ none → LockMove s p (go_to p refused s)
  fresh :
      (f : Lockfile)
      → s.phases p ≡ checking
      → s.file ≡ some f
      → is_stale_lockfile s.dead f ≡ false
      → LockMove s p (go_to p refused s)
  stale :
      (f : Lockfile)
      → s.phases p ≡ checking
      → s.file ≡ some f
      → is_stale_lockfile s.dead f ≡ true
      → LockMove s p (record (go_to p removing s) { reclaims = suc s.reclaims })
  remove : s.phases p ≡ removing → LockMove s p (record (go_to p (trying 1) s) { file = none })
  write :
      (n : ℕ)
      → s.phases p ≡ writing n
      → LockMove s p (record (go_to p held s) { file = filled n p s.file })
  write_fails :
      (n : ℕ) → s.phases p ≡ writing n → LockMove s p (record (go_to p refused s) { file = none })
  release : s.phases p ≡ held → LockMove s p (record (go_to p released s) { file = none })
  -- The error of `os.Remove` is dropped in each of its three calls.
  remove_fails : s.phases p ≡ removing → LockMove s p (go_to p (trying 1) s)
  write_fails_twice : (n : ℕ) → s.phases p ≡ writing n → LockMove s p (go_to p refused s)
  release_fails : s.phases p ≡ held → LockMove s p (go_to p released s)

-- A process that dies stays where it is, and a file grows old.
pub data LockStep (s : Locks) : Locks → Type 0 where
  call : (p : ℕ) {t : Locks} → s.dead p ≡ false → LockMove s p t → LockStep s t
  die : (p : ℕ) → LockStep s (record s { dead = λ q. if p == q then true else s.dead q })
  age :
      (f : Lockfile)
      → s.file ≡ some f
      → LockStep s (record s { file = some (record f { old = true }) })

-- No lockfile, and every process about to ask for the lock.
abbrev pub no_locks : Locks
no_locks = record {
  file = none;
  next_inode = 0;
  phases = λ p. trying 0;
  dead = λ p. false;
  reclaims = 0;
}

pub data LockReach : Locks → Type 0 where
  idle : LockReach no_locks
  after : {s t : Locks} → LockReach s → LockStep s t → LockReach t

-- A process that has created its file, or holds the lock.
abbrev pub is_inside : Phase → Bool
is_inside (writing n) = true
is_inside held = true
is_inside phase = false
