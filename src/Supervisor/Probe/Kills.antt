-- ===== src/Supervisor/Probe/Kills.antt =====
-- When a probe of internal/supervisor/supervisor.go leads to a kill, and when it cannot.
use pincher_mcp.Prelude.{ℕ, ◌+◌, ◌≡◌, refl, ap, ◌∙◌, Bool, true, false, arith}
use pincher_mcp.Supervisor.Probe.{
  Sender, resting, named, writing, written, tallied, giving_up, Watchdog, started, send_from,
  send_probe, timeout, LineKind, forward, probe_response, init_replay_response,
  quiet_window_notification, classify_inner_line, filtered, forward_line, holds_lock,
  start_quiet_window, Step, send, expire, count, kill, line, quiet, replace, Reach, ReachBlocked,
  at_first, another,
}
use pincher_mcp.Supervisor.Probe.Watch.{IsSound, Step-IsSound, Reach-IsSound, not_sent, fitted_at}

-- The step of the probe loop after its write.
send_from-leaves :
    (s : Sender) (b : Bool) (w : Watchdog)
    → holds_lock s ≡ true
    → holds_lock (send_from s b w).sender ≡ false
send_from-leaves (writing n) true w h = refl
send_from-leaves (writing n) false w h = refl
send_from-leaves resting b w h = ground (arith, h)
send_from-leaves (named n) b w h = ground (arith, h)
send_from-leaves (written n) b w h = ground (arith, h)
send_from-leaves (tallied n) b w h = ground (arith, h)
send_from-leaves (giving_up n) b w h = ground (arith, h)

abbrev pub timeouts : Watchdog → ℕ
timeouts w = w.won + w.probes_timed_out

filtered-timeouts : (k : LineKind) (w : Watchdog) → timeouts (filtered k w).1 ≡ timeouts w
filtered-timeouts probe_response w = refl
filtered-timeouts forward w = refl
filtered-timeouts init_replay_response w = refl
filtered-timeouts quiet_window_notification w = refl

-- While a probe is being written, its timer is not there and no other probe is pending.
Step-timeouts :
    {w v : Watchdog} (n : ℕ)
    → Step w v
    → IsSound w
    → w.sender ≡ writing n
    → v.sender ≡ w.sender
    → timeouts v ≡ timeouts w
unfolding send_probe timeout forward_line start_quiet_window
Step-timeouts {w} n (send b) h at same =
    let was : holds_lock w.sender ≡ true = ap holds_lock at in
    absurd (ground (arith, send_from-leaves w.sender b w was, ap holds_lock same, was))
Step-timeouts {w} n (expire m left) h at same =
    let (only, new, le) = fitted_at w h at in
    rw (not_sent m n w.pending_probe w.timers left only new) refl
Step-timeouts n (count k e) h at same = omega (arith, e)
Step-timeouts n (kill k e) h at same = refl
Step-timeouts {w} n (line now head) h at same = filtered-timeouts (classify_inner_line now w head) w
Step-timeouts n (quiet now window) h at same = refl
Step-timeouts n (replace i free) h at same = refl

Blocked-IsSound :
    {w v : Watchdog} → IsSound w → ReachBlocked w v → IsSound v × (v.sender ≡ w.sender)
Blocked-IsSound h at_first = (h, refl)
Blocked-IsSound h (another r s same) =
    let (k, e) = Blocked-IsSound h r in (Step-IsSound s k, same ∙ e)

-- As long as the write of a probe blocks, no probe times out: whatever steps the timers and the pumps
-- take from a state that the supervisor reaches with the probe loop in a write, until the loop goes
-- on, the timeouts, those under way included, are as many as before.
pub writing-spares :
    {w v : Watchdog} (n : ℕ)
    → Reach started w
    → w.sender ≡ writing n
    → ReachBlocked w v
    → timeouts v ≡ timeouts w
writing-spares n r at at_first = refl
writing-spares n r at (another b s same) =
    let (k, e) = Blocked-IsSound (Reach-IsSound r) b in
    Step-timeouts n s k (e ∙ at) same ∙ writing-spares n r at b
