-- ===== src/Supervisor/Breaker.antt =====
-- The circuit breaker: `recordRestart` and the loop of `pumpInnerToClient` in
-- internal/supervisor/supervisor.go. An instant and a duration are nanoseconds.
pub mod Window
pub mod History
use pincher_mcp.Prelude.{
  ℕ, ◌+◌, Bool, true, false, List, [], ◌∷◌, ◌++◌, if◌then◌else◌, ltb, ◌==◌, length,
}

-- The fields of `Supervisor` that the breaker uses.
pub record Breaker : Type 0 where
  pub max_restarts : ℕ
  pub restart_window : ℕ
  pub restart_history : List ℕ

abbrev pub default_max_restarts : ℕ
default_max_restarts = 5

abbrev pub default_restart_window : ℕ
default_restart_window = 60000000000

-- A tunable of zero stands for its default.
unfoldable pub limit_of : Breaker → ℕ
limit_of b = if b.max_restarts == 0 then default_max_restarts else b.max_restarts

unfoldable pub window_of : Breaker → ℕ
window_of b = if b.restart_window == 0 then default_restart_window else b.restart_window

-- The loop that keeps the entries after the cutoff `now - window`.
unfoldable pub recent : ℕ → ℕ → List ℕ → List ℕ
recent now window [] = []
recent now window (t ∷ ts) =
    let rest = recent now window ts in if ltb now (t + window) then t ∷ rest else rest

-- Whether the breaker trips, and the breaker with the new history.
unfoldable pub record_restart : ℕ → Breaker → Bool × Breaker
record_restart now b =
    let keep = recent now (window_of b) b.restart_history ++ now ∷ [] in
    (ltb (limit_of b) (length keep), record b { restart_history = keep })

abbrev pub stop_or : Bool × Breaker → Bool × Breaker → Bool × Breaker
stop_or (true, b) more = (true, b)
stop_or (false, b) more = more

-- The rounds of the pump, each with the instant of its respawn: it ends when the breaker trips.
unfoldable pub pump : List ℕ → Breaker → Bool × Breaker
pump [] b = (false, b)
pump (now ∷ later) b =
    let step = record_restart now b in let more = pump later step.1 in stop_or step more
