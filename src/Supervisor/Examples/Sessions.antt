-- ===== src/Supervisor/Examples/Sessions.antt =====
-- A session of internal/supervisor/supervisor.go at concrete inputs.
use pincher_mcp.Prelude.{
  ℕ, ◌≡◌, refl, true, false, [], ◌∷◌, ◌++◌, List, none, some, if◌then◌else◌, codes, is, str_eq,
  value_or, ok, fail, error, length,
}
use pincher_mcp.Supervisor.Breaker.{Breaker, pump, record_restart, recent, limit_of, window_of}
use pincher_mcp.Supervisor.Session.{
  Codec, Session, first_session, newest, replay_line, probe_line, RespawnFaults, replay_initialize,
  Event, from_client, probe, probe_timed_out, exited, run_session,
}
use pincher_mcp.Supervisor.Session.Restarts.{exit_times, IsFaultless}
use pincher_mcp.Supervisor.Session.Writes.{last_of, params_of, notification_of, all_written}
use pincher_mcp.Supervisor.Session.Replay.{unless_empty, run_session-replays}

-- Lines that are one word.
abbrev words : Codec
words = record {
  init_head = λ line.
      if is line "init"
      then some (codes "initialize", [])
      else if is line "ready"
      then some (codes "notifications/initialized", [])
      else none;
  call_head = λ line.
      if is line "status"
      then some (codes "tools/call", codes "pincher.supervisor.status")
      else none;
}

abbrev breaker : Breaker
breaker = record { max_restarts = 2; restart_window = 10; restart_history = [] }

abbrev all_well : RespawnFaults
all_well = record { spawn = false; initialize = false; initialized = false; notify = false }

abbrev before_exit : List Event
before_exit =
    from_client false (codes "init")
    ∷ from_client false (codes "ready")
    ∷ from_client false (codes "ask")
    ∷ probe_timed_out
    ∷ []

abbrev after_exit : List Event
after_exit =
    from_client false (codes "call")
    ∷ from_client false (codes "status")
    ∷ probe false 4
    ∷ from_client true (codes "lost")
    ∷ []

abbrev whole : List Event
whole = before_exit ++ exited (codes "1") 100 0 all_well ∷ after_exit

new_input :
    (value_or (first_session breaker) (run_session words whole (first_session breaker))).inner
    ≡ some (replay_line 1 (codes "{}") ∷ codes "ready" ∷ codes "call" ∷ probe_line 4 ∷ [])
unfolding run_session record_restart recent limit_of window_of str_eq
new_input = refl

reason_of_exit :
    (value_or
      (first_session breaker)
      (run_session words whole (first_session breaker))).last_restart_reason
    ≡ codes "probe timeout (inner unresponsive)"
unfolding run_session record_restart recent limit_of window_of str_eq
reason_of_exit = refl

-- An initialize that cannot be replayed ends the session.
replay_fails :
    run_session words
      (from_client false (codes "init")
        ∷ exited (codes "1") 5 0 (record all_well { initialize = true })
        ∷ [])
      (first_session breaker)
    ≡ fail (error replay_initialize)
unfolding run_session str_eq
replay_fails = refl

run_session-replays_example :
    (t : Session) × (run_session words whole (first_session breaker) ≡ ok t)
    × ((n : ℕ) × (t.inner
          ≡ some (
              unless_empty
                (newest (last_of (params_of words) before_exit) [])
                (replay_line n (newest (last_of (params_of words) before_exit) []))
              ++ unless_empty
                  (newest (last_of (notification_of words) before_exit) [])
                  (newest (last_of (notification_of words) before_exit) [])
              ++ all_written words after_exit)))
    × (t.restarts ≡ length (exit_times whole))
unfolding exit_times IsFaultless pump record_restart recent limit_of window_of
run_session-replays_example =
    run_session-replays words breaker before_exit after_exit (codes "1") 100 0 all_well
      (tt, (tt, (tt, (tt, ((refl, refl, refl), (tt, (tt, (tt, (tt, tt))))))))) refl refl
