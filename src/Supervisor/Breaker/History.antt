-- ===== src/Supervisor/Breaker/History.antt =====
-- The length of the restart history in internal/supervisor/supervisor.go.
use pincher_mcp.Prelude.{
  ℕ, suc, ◌≤◌, ◌≡◌, refl, sym, subst, Bool, true, false, List, [], ◌∷◌, arith, length,
  length-append,
}
use pincher_mcp.Supervisor.Breaker.{
  Breaker, limit_of, window_of, recent, record_restart, stop_or, pump,
}

length-recent : (now w : ℕ) (ts : List ℕ) → length (recent now w ts) ≤ length ts
unfolding recent
length-recent now w [] = omega arith
length-recent now w (t ∷ ts) = ground (arith, length-recent now w ts)

record_restart-bound :
    (now : ℕ) (b : Breaker)
    → length b.restart_history ≤ limit_of b
    → length (record_restart now b).1.restart_history ≤ suc (limit_of b)
unfolding record_restart
record_restart-bound now b h = omega (
  arith,
  h,
  length-recent now (window_of b) b.restart_history,
  length-append (recent now (window_of b) b.restart_history) (now ∷ []),
)

record_restart-untripped :
    (now : ℕ) (b : Breaker)
    → (record_restart now b).0 ≡ false
    → length (record_restart now b).1.restart_history ≤ limit_of b
unfolding record_restart
record_restart-untripped now b h = ground (arith, h)

record_restart-limit_of : (now : ℕ) (b : Breaker) → limit_of (record_restart now b).1 ≡ limit_of b
unfolding record_restart limit_of
record_restart-limit_of now b = refl

stop_or-bound :
    (n : ℕ) (step more : Bool × Breaker)
    → length step.1.restart_history ≤ n
    → (step.0 ≡ false → length more.1.restart_history ≤ n)
    → length (stop_or step more).1.restart_history ≤ n
stop_or-bound n (true, kept) more h k = h
stop_or-bound n (false, kept) more h k = k refl

-- However long a session is, its history holds at most one entry more than the limit.
pump-bound :
    (ts : List ℕ) (b : Breaker)
    → length b.restart_history ≤ limit_of b
    → length (pump ts b).1.restart_history ≤ suc (limit_of b)
unfolding pump
pump-bound [] b h = omega (arith, h)
pump-bound (now ∷ later) b h =
    stop_or-bound (suc (limit_of b)) (record_restart now b) (pump later (record_restart now b).1)
      (record_restart-bound now b h)
      (λ e.
        subst (λ n. length (pump later (record_restart now b).1).1.restart_history ≤ suc n)
          (record_restart-limit_of now b)
          (pump-bound later (record_restart now b).1 (
            subst (λ n. length (record_restart now b).1.restart_history ≤ n)
              (sym (record_restart-limit_of now b)) (record_restart-untripped now b e))))
