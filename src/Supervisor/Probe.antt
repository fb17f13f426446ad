-- ===== src/Supervisor/Probe.antt =====
-- Liveness probes and the filter of the inner's lines: `sendProbe` with its timer, `killInner`,
-- `classifyInnerLine`, `forwardInnerStdoutWithProbeFilter` and the parts of `respawn` that they see, in
-- internal/supervisor/supervisor.go. The probe loop and each timer take a step for every access to a
-- shared field and for the write; a line of the inner is one step.
pub mod Watch
pub mod Kills
pub mod Sentinels
use pincher_mcp.Prelude.{
  ℕ, suc, ◌+◌, ◌≡◌, Bool, true, false, not, ◌&&◌, ◌||◌, List, [], ◌∷◌, ◌++◌, Option, none, some,
  if◌then◌else◌, ltb, ◌==◌, Bytes, codes, has_prefix, is_empty, itoa,
}

-- Where the probe loop is in `sendProbe`, with the number of its probe: at rest; with a number; in the
-- write, the probe being pending; after the write; after the count, before the timer starts; or after a
-- write that failed.
pub data Sender : Type 0 where
  resting : Sender
  named writing written tallied giving_up : ℕ → Sender

-- The fields of `Supervisor` that the probes use. A `probeState` is known by its number, since each
-- has a fresh one. `timers` are the numbers whose timer is still to run; `won` counts the timers that have
-- swapped the pending probe and not yet counted it, and `killers` those that are yet to call `killInner`.
-- Each inner has a number, and one with no process counts as none; `killed` are the inners that a call of
-- `killInner` has killed.
pub record Watchdog : Type 0 where
  pub sender : Sender
  pub pending_probe : Option ℕ
  pub probe_id_counter : ℕ
  pub timers : List ℕ
  pub won : ℕ
  pub killers : ℕ
  pub inner : Option ℕ
  pub killed : List ℕ
  pub quiet_until : Option ℕ
  pub probes_sent : ℕ
  pub probes_answered : ℕ
  pub probes_timed_out : ℕ

abbrev pub started : Watchdog
started = record {
  sender = resting;
  pending_probe = none;
  probe_id_counter = 0;
  timers = [];
  won = 0;
  killers = 0;
  inner = some 0;
  killed = [];
  quiet_until = none;
  probes_sent = 0;
  probes_answered = 0;
  probes_timed_out = 0;
}

unfoldable pub probe_id : ℕ → Bytes
unfolding itoa
probe_id n = codes "__pincher_supervisor_probe_" ++ itoa n

unfoldable pub init_id : ℕ → Bytes
unfolding itoa
init_id n = codes "__pincher_supervisor_init_" ++ itoa n

unfoldable pub is_pending : ℕ → Option ℕ → Bool
is_pending n none = false
is_pending n (some m) = m == n

-- `pendingProbe.CompareAndSwap(state, nil)`
abbrev pub cleared : ℕ → Option ℕ → Option ℕ
cleared n p = if is_pending n p then none else p

abbrev pub probe_unless : Option ℕ → Watchdog → Watchdog
probe_unless (some n) w = w
probe_unless none w = record w {
  sender = named (suc w.probe_id_counter);
  probe_id_counter = suc w.probe_id_counter;
}

-- The next step of `sendProbe`; `succeeds` says whether the write does, where it returns.
abbrev pub send_from : Sender → Bool → Watchdog → Watchdog
send_from resting succeeds w = probe_unless w.pending_probe w
send_from (named n) succeeds w = record w { sender = writing n; pending_probe = some n }
send_from (writing n) succeeds w = record w { sender = if succeeds then written n else giving_up n }
send_from (written n) succeeds w = record w { sender = tallied n; probes_sent = suc w.probes_sent }
send_from (tallied n) succeeds w = record w { sender = resting; timers = n ∷ w.timers }
send_from (giving_up n) succeeds w = record w {
  sender = resting;
  pending_probe = cleared n w.pending_probe;
}

unfoldable pub send_probe : Bool → Watchdog → Watchdog
unfolding is_pending
send_probe succeeds w = send_from w.sender succeeds w

-- Whether the timer of a probe is still to run.
unfoldable pub scheduled : ℕ → List ℕ → Bool
scheduled n [] = false
scheduled n (m ∷ ms) = m == n || scheduled n ms

unfoldable pub unschedule : ℕ → List ℕ → List ℕ
unschedule n [] = []
unschedule n (m ∷ ms) = let rest = unschedule n ms in if m == n then rest else m ∷ rest

-- The closure of the timer for one probe: its swap, its count and its call of `killInner`.
unfoldable pub timeout : ℕ → Watchdog → Watchdog
unfolding is_pending unschedule
timeout n w = record w {
  pending_probe = cleared n w.pending_probe;
  timers = unschedule n w.timers;
  won = if is_pending n w.pending_probe then suc w.won else w.won;
}

abbrev pub count_timeout : ℕ → Watchdog → Watchdog
count_timeout k w = record w {
  won = k;
  killers = suc w.killers;
  probes_timed_out = suc w.probes_timed_out;
}

abbrev pub add_inner : Option ℕ → List ℕ → List ℕ
add_inner none killed = killed
add_inner (some i) killed = i ∷ killed

abbrev pub kill_inner : ℕ → Watchdog → Watchdog
kill_inner k w = record w { killers = k; killed = add_inner w.inner w.killed }

-- The `id` of a line: absent, a string, or other JSON.
pub data LineId : Type 0 where
  no_id other_id : LineId
  text_id : Bytes → LineId

pub record Head : Type 0 where
  pub id : LineId
  pub method : Bytes

pub data LineKind : Type 0 where
  forward probe_response init_replay_response quiet_window_notification : LineKind

unfoldable pub in_quiet_window : ℕ → Option ℕ → Bool
in_quiet_window now none = false
in_quiet_window now (some until) = ltb now until

unfoldable pub sentinel_kind : Bytes → LineKind
sentinel_kind id =
    if has_prefix id (codes "__pincher_supervisor_probe_")
    then probe_response
    else if has_prefix id (codes "__pincher_supervisor_init_")
    then init_replay_response
    else forward

unfoldable pub head_kind : ℕ → Option ℕ → LineId → Bytes → LineKind
unfolding sentinel_kind in_quiet_window
head_kind now quiet no_id method =
    if not (is_empty method) && in_quiet_window now quiet
    then quiet_window_notification
    else forward
head_kind now quiet other_id method = forward
head_kind now quiet (text_id id) method = sentinel_kind id

-- `none` is a line that is no JSON object.
unfoldable pub classify_inner_line : ℕ → Watchdog → Option Head → LineKind
unfolding head_kind
classify_inner_line now w none = forward
classify_inner_line now w (some h) = head_kind now w.quiet_until h.id h.method

-- Whether a line of that kind is written to the client, and the state after it.
abbrev pub filtered : LineKind → Watchdog → Bool × Watchdog
filtered forward w = (true, w)
filtered probe_response w =
    (false, record w { pending_probe = none; probes_answered = suc w.probes_answered })
filtered init_replay_response w = (false, w)
filtered quiet_window_notification w = (false, w)

unfoldable pub forward_line : ℕ → Option Head → Watchdog → Bool × Watchdog
unfolding classify_inner_line
forward_line now h w = filtered (classify_inner_line now w h) w

-- The end of the quiet window that a respawn sets.
unfoldable pub start_quiet_window : ℕ → ℕ → Watchdog → Watchdog
start_quiet_window now window w = record w {
  quiet_until = some (now + (if window == 0 then 500000000 else window));
}

-- A respawn, or the shutdown, sets another inner or none.
abbrev pub set_inner : Option ℕ → Watchdog → Watchdog
set_inner i w = record w { inner = i }

-- `writeToInner` holds the lock that a respawn has to take.
abbrev pub holds_lock : Sender → Bool
holds_lock (writing n) = true
holds_lock sender = false

-- The steps of the probe loop, the timers and the pumps, in any interleaving. A timer runs once.
pub data Step (w : Watchdog) : Watchdog → Type 0 where
  send : (succeeds : Bool) → Step w (send_probe succeeds w)
  expire : (n : ℕ) → scheduled n w.timers ≡ true → Step w (timeout n w)
  count : (k : ℕ) → w.won ≡ suc k → Step w (count_timeout k w)
  kill : (k : ℕ) → w.killers ≡ suc k → Step w (kill_inner k w)
  line : (now : ℕ) (h : Option Head) → Step w (forward_line now h w).1
  quiet : (now window : ℕ) → Step w (start_quiet_window now window w)
  replace : (i : Option ℕ) → holds_lock w.sender ≡ false → Step w (set_inner i w)

pub data Reach (w : Watchdog) : Watchdog → Type 0 where
  here : Reach w w
  step_on : {v u : Watchdog} → Reach w v → Step v u → Reach w u

-- A run in which the probe loop takes no step, as while its write blocks.
pub data ReachBlocked (w : Watchdog) : Watchdog → Type 0 where
  at_first : ReachBlocked w w
  another : {v u : Watchdog} → ReachBlocked w v → Step v u → u.sender ≡ v.sender → ReachBlocked w u
