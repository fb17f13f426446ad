-- ===== src/Supervisor/Examples.antt =====
-- The theorems on internal/supervisor/supervisor.go at concrete inputs, and runs of its breaker.
mod Sessions
use pincher_mcp.Prelude.{suc, ◌≡◌, refl, true, false, [], ◌∷◌, none, some, arith, codes, has_prefix}
use pincher_mcp.Supervisor.Breaker.{Breaker, pump, limit_of, window_of, record_restart, recent}
use pincher_mcp.Supervisor.Breaker.Window.{crowded, pump-crowded}
use pincher_mcp.Supervisor.Probe.{
  Watchdog, resting, writing, started, send_probe, probe_id, init_id, text_id, forward_line, send,
  quiet, start_quiet_window, replace, Reach, here, step_on, at_first, another,
}
use pincher_mcp.Supervisor.Probe.Watch.{IsSound, Reach-IsSound}
use pincher_mcp.Supervisor.Probe.Kills.{timeouts, writing-spares}
use pincher_mcp.Supervisor.Probe.Sentinels.{forward_line-sentinels}

-- At most two restarts in ten nanoseconds.
abbrev small : Breaker
small = record { max_restarts = 2; restart_window = 10; restart_history = [] }

trips : (pump (1 ∷ 2 ∷ 3 ∷ []) small).0 ≡ true
unfolding pump record_restart recent limit_of window_of
trips = refl

ages_out : (pump (1 ∷ 2 ∷ 12 ∷ 13 ∷ []) small).0 ≡ false
unfolding pump record_restart recent limit_of window_of
ages_out = refl

pump-crowded_example : (pump (1 ∷ 2 ∷ 3 ∷ []) small).0 ≡ crowded small [] (1 ∷ 2 ∷ 3 ∷ [])
pump-crowded_example = pump-crowded small 0 (1 ∷ 2 ∷ 3 ∷ []) (omega arith)

abbrev in_write : Watchdog
in_write = record started { sender = writing 1; pending_probe = some 1; probe_id_counter = 1 }

in_write-Reach : Reach started in_write
unfolding send_probe
in_write-Reach = step_on (step_on here (send true)) (send true)

-- A probe that was sent to inner 0, which has exited; the inner is now 1.
abbrev respawned : Watchdog
respawned = record in_write { sender = resting; timers = 1 ∷ []; inner = some 1; probes_sent = 1 }

respawned-Reach : Reach started respawned
unfolding send_probe
respawned-Reach =
    step_on (step_on (step_on (step_on in_write-Reach (send true)) (send true)) (send true))
      (replace (some 1) refl)

Reach-IsSound_example : IsSound respawned
Reach-IsSound_example = Reach-IsSound respawned-Reach

writing-spares_example : timeouts (start_quiet_window 5 9 in_write) ≡ timeouts in_write
unfolding start_quiet_window
writing-spares_example = writing-spares 1 in_write-Reach refl (another at_first (quiet 5 9) refl)

forward_line-sentinels_example :
    (forward_line 0 (some (record { id = text_id (probe_id 7); method = [] })) in_write
      ≡ (false, record in_write { pending_probe = none; probes_answered = 1 }))
    × (forward_line 0 (some (record { id = text_id (init_id 2); method = [] })) in_write
        ≡ (false, in_write))
    × (forward_line 0 (some (record { id = text_id (codes "abc"); method = [] })) in_write
        ≡ (true, in_write))
unfolding has_prefix
forward_line-sentinels_example = forward_line-sentinels 0 in_write [] 7 2 (codes "abc") refl refl
