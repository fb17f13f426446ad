-- ===== src/Supervisor/Breaker/Window.antt =====
-- The circuit breaker of internal/supervisor/supervisor.go against the whole past of a session.
use pincher_mcp.Prelude.{
  ℕ, ◌+◌, ◌≤◌, ◌≡◌, refl, sym, ap, ◌∙◌, Bool, true, false, ◌||◌, List, [], ◌∷◌, ◌++◌, arith, ltb,
  length,
}
use pincher_mcp.Supervisor.Breaker.{
  Breaker, limit_of, window_of, recent, record_restart, stop_or, pump,
}

-- Instants that do not go back, from one on.
abbrev pub Ascending : ℕ → List ℕ → Type 0
Ascending from [] = Unit
Ascending from (t ∷ ts) = (from ≤ t) × Ascending t ts

window_of-positive : (b : Breaker) → 1 ≤ window_of b
unfolding window_of
window_of-positive b = ground arith

recent-recent :
    (w last now : ℕ) (ts : List ℕ) → last ≤ now → recent now w (recent last w ts) ≡ recent now w ts
unfolding recent
recent-recent w last now [] h = refl
recent-recent w last now (t ∷ ts) h = ground (arith, recent-recent w last now ts h)

recent-append :
    (w now : ℕ) (xs ys : List ℕ) → recent now w (xs ++ ys) ≡ recent now w xs ++ recent now w ys
unfolding recent
recent-append w now [] ys = refl
recent-append w now (x ∷ xs) ys = ground (arith, recent-append w now xs ys)

recent_self : (w now : ℕ) → 1 ≤ w → recent now w (now ∷ []) ≡ now ∷ []
unfolding recent
recent_self w now h = ground arith

-- All restarts so far that lie in the window which ends at the last of them, without any trimming
-- in between.
abbrev pub in_window : Breaker → List ℕ → ℕ → List ℕ
in_window b past now = recent now (window_of b) (past ++ now ∷ [])

-- The specification: some restart has more than the limit of all restarts up to it in its window.
abbrev pub crowded : Breaker → List ℕ → List ℕ → Bool
crowded b past [] = false
crowded b past (now ∷ later) =
    ltb (limit_of b) (length (in_window b past now)) || crowded b (past ++ now ∷ []) later

keep-in_window :
    (b : Breaker) (past : List ℕ) (last now : ℕ)
    → last ≤ now
    → recent now (window_of b) (recent last (window_of b) past) ++ now ∷ [] ≡ in_window b past now
keep-in_window b past last now h =
    ap (λ t. t ++ now ∷ []) (recent-recent (window_of b) last now past h)
    ∙ ap (λ t. recent now (window_of b) past ++ t)
        (sym (recent_self (window_of b) now (window_of-positive b)))
    ∙ sym (recent-append (window_of b) now past (now ∷ []))

abbrev with_history : Breaker → List ℕ → Breaker
with_history b ts = record b { restart_history = ts }

record_restart-in_window :
    (b : Breaker) (past : List ℕ) (last now : ℕ)
    → last ≤ now
    → record_restart now (with_history b (recent last (window_of b) past))
      ≡ (ltb (limit_of b) (length (in_window b past now)), with_history b (in_window b past now))
unfolding record_restart window_of limit_of
record_restart-in_window b past last now h =
    ap (λ k. (ltb (limit_of b) (length k), with_history b k)) (keep-in_window b past last now h)

stop_or-tripped :
    (x : Bool) (b : Breaker) (more : Bool × Breaker) → (stop_or (x, b) more).0 ≡ (x || more.0)
stop_or-tripped true b more = refl
stop_or-tripped false b more = refl

pump-crowded_from :
    (b : Breaker) (past : List ℕ) (last : ℕ) (ts : List ℕ)
    → Ascending last ts
    → (pump ts (with_history b (recent last (window_of b) past))).0 ≡ crowded b past ts
unfolding pump
pump-crowded_from b past last [] h = refl
pump-crowded_from b past last (now ∷ later) (h, k) =
    let tripped = ltb (limit_of b) (length (in_window b past now)) in
    let kept = with_history b (in_window b past now) in
    rw (record_restart-in_window b past last now h) (
      stop_or-tripped tripped kept (pump later kept)
      ∙ ap (λ m. tripped || m) (pump-crowded_from b (past ++ now ∷ []) now later k))

-- From an empty history, and with a clock that does not go back, the breaker trips exactly when some
-- restart has, among all restarts up to it, more than the limit in the window that ends at it: the
-- trimming of the history loses nothing.
pub pump-crowded :
    (b : Breaker) (first : ℕ) (ts : List ℕ)
    → Ascending first ts
    → (pump ts (record b { restart_history = [] })).0 ≡ crowded b [] ts
unfolding recent
pump-crowded b first ts h = pump-crowded_from b [] first ts h

-- How far apart the restarts are: each at least the window after the one before.
abbrev pub Spaced : Breaker → ℕ → List ℕ → Type 0
Spaced b last [] = Unit
Spaced b last (t ∷ ts) = (last + window_of b ≤ t) × Spaced b t ts

limit_of-positive : (b : Breaker) → 1 ≤ limit_of b
unfolding limit_of
limit_of-positive b = ground arith

record_restart-alone :
    (b : Breaker) (now : ℕ)
    → recent now (window_of b) b.restart_history ≡ []
    → record_restart now b ≡ (false, with_history b (now ∷ []))
unfolding record_restart
record_restart-alone b now e =
    let one : ltb (limit_of b) 1 ≡ false = ground (arith, limit_of-positive b) in
    ap (λ k. (ltb (limit_of b) (length (k ++ now ∷ [])), with_history b (k ++ now ∷ []))) e
    ∙ ap (λ x. (x, with_history b (now ∷ []))) one

recent-last : (w last now : ℕ) → last + w ≤ now → recent now w (last ∷ []) ≡ []
unfolding recent
recent-last w last now h = ground arith

pump-alone :
    (b : Breaker) (last : ℕ) (ts : List ℕ)
    → Spaced b last ts
    → (pump ts (with_history b (last ∷ []))).0 ≡ false
unfolding pump window_of
pump-alone b last [] h = refl
pump-alone b last (now ∷ later) (h, k) =
    rw
      (record_restart-alone (with_history b (last ∷ [])) now (recent-last (window_of b) last now h))
      (pump-alone b now later k)

-- Restarts that are the window apart from one another never trip the breaker.
pub pump-Spaced :
    (b : Breaker) (first : ℕ) (ts : List ℕ)
    → Spaced b first ts
    → (pump (first ∷ ts) (record b { restart_history = [] })).0 ≡ false
unfolding pump recent
pump-Spaced b first ts h =
    rw (record_restart-alone (with_history b []) first refl) (pump-alone b first ts h)
