-- ===== src/Supervisor/Session.antt =====
-- The session that the supervisor keeps for its client: `pumpClientToInner`, `maybeCaptureInit`,
-- `handleStatusToolCall`, `writeToInner`, `respawn`, `Status` and the rounds of `pumpInnerToClient` in
-- internal/supervisor/supervisor.go. A client's line is one step, and so is an exit of the inner with the
-- respawn after it.
pub mod Restarts
pub mod Writes
pub mod Replay
use pincher_mcp.Prelude.{
  ℕ, suc, ◌+◌, Bool, true, false, not, ◌&&◌, List, [], ◌∷◌, ◌++◌, Option, none, some, if◌then◌else◌,
  ◌==◌, Bytes, codes, is, is_empty, one_of, Result, ok, fail, error,
}
use pincher_mcp.Supervisor.Breaker.{Breaker, record_restart}
use pincher_mcp.Supervisor.Probe.{init_id, probe_id}

-- `json.Unmarshal` of a line: its method with the raw `params`, which are empty if they are missing, and
-- its method with the name of the tool; `none` is an error.
pub record Codec : Type 0 where
  pub init_head : Bytes → Option (Bytes × Bytes)
  pub call_head : Bytes → Option (Bytes × Bytes)

-- The answer of the status tool, without its times and the counts of the probes.
pub record Status : Type 0 where
  pub alive : Bool
  pub restarts : ℕ
  pub last_restart_reason : Bytes
  pub emitted : ℕ
  pub emit_failed : ℕ

-- The fields of `Supervisor` that the session uses. `inner` is what was written to the stdin of the
-- current inner, line by line, and `replies` are the answers of the status tool.
pub record Session : Type 0 where
  pub init_params : Bytes
  pub initialized_line : Bytes
  pub init_replay_counter : ℕ
  pub inner : Option (List Bytes)
  pub next_restart_reason : Bytes
  pub last_restart_reason : Bytes
  pub quiet_until : Option ℕ
  pub restarts : ℕ
  pub emitted : ℕ
  pub emit_failed : ℕ
  pub breaker : Breaker
  pub replies : List Status

-- After `Run` has spawned the first inner.
abbrev pub first_session : Breaker → Session
first_session b = record {
  init_params = [];
  initialized_line = [];
  init_replay_counter = 0;
  inner = some [];
  next_restart_reason = [];
  last_restart_reason = [];
  quiet_until = none;
  restarts = 0;
  emitted = 0;
  emit_failed = 0;
  breaker = b;
  replies = [];
}

abbrev is_some {ℓ} : {A : Type ℓ} → Option A → Bool
is_some none = false
is_some (some a) = true

abbrev pub newest {ℓ} : {A : Type ℓ} → Option A → A → A
newest none old = old
newest (some new) old = new

unfoldable pub status : Session → Status
status s = record {
  alive = is_some s.inner;
  restarts = s.restarts;
  last_restart_reason = s.last_restart_reason;
  emitted = s.emitted;
  emit_failed = s.emit_failed;
}

-- `writeToInner`; a write that fails is logged, and the line lost.
unfoldable pub write_to_inner : Bool → Bytes → Session → Session
write_to_inner fails line s = elim s.inner [
  | none ↦ s
  | some lines ↦ if fails then s else record s { inner = some (lines ++ line ∷ []) }
]

module _ (codec : Codec) where
  -- What a line says of `initialize`: its params, or that it is the notification that follows.
  unfoldable pub captured_params : Bytes → Option Bytes
  captured_params line = elim (codec.init_head line) [
    | none ↦ none
    | some (method, params) ↦
        if is method "initialize"
        then some (if is_empty params then codes "{}" else params)
        else none
  ]

  unfoldable pub captured_notification : Bytes → Option Bytes
  unfolding one_of
  captured_notification line = elim (codec.init_head line) [
    | none ↦ none
    | some (method, params) ↦
        if one_of method ("notifications/initialized" ∷ "initialized" ∷ []) then some line else none
  ]

  unfoldable pub maybe_capture_init : Bytes → Session → Session
  unfolding captured_params captured_notification
  maybe_capture_init line s = record s {
    init_params = newest (captured_params line) s.init_params;
    initialized_line = newest (captured_notification line) s.initialized_line;
  }

  unfoldable pub is_status_call : Bytes → Bool
  is_status_call line = elim (codec.call_head line) [
    | none ↦ false
    | some (method, tool) ↦ is method "tools/call" && is tool "pincher.supervisor.status"
  ]

  -- A round of `pumpClientToInner`.
  unfoldable pub client_line : Bool → Bytes → Session → Session
  unfolding maybe_capture_init is_status_call write_to_inner status
  client_line fails line s =
      let t = maybe_capture_init line s in
      if is_status_call line
      then record t { replies = t.replies ++ status t ∷ [] }
      else write_to_inner fails line t

-- What fails in a respawn.
pub record RespawnFaults : Type 0 where
  pub spawn : Bool
  pub initialize : Bool
  pub initialized : Bool
  pub notify : Bool

pub data SessionError : Type 0 where
  spawn_failed replay_initialize replay_initialized breaker_tripped : SessionError

abbrev quote : ℕ
quote = 34

abbrev quoted : Bytes → Bytes
quoted s = quote ∷ (s ++ quote ∷ [])

-- A request of the supervisor's own, a line of JSON.
unfoldable pub request_line : Bytes → Bytes → Bytes → Bytes
request_line id method params =
    b'{' ∷ quoted (codes "jsonrpc")
    ++ b':' ∷ quoted (codes "2.0")
    ++ b',' ∷ quoted (codes "id")
    ++ b':' ∷ quoted id
    ++ b',' ∷ quoted (codes "method")
    ++ b':' ∷ quoted method
    ++ b',' ∷ quoted (codes "params")
    ++ b':' ∷ params
    ++ b'}' ∷ 10 ∷ []

unfoldable pub replay_line : ℕ → Bytes → Bytes
unfolding request_line init_id
replay_line n params = request_line (init_id n) (codes "initialize") params

unfoldable pub probe_line : ℕ → Bytes
unfolding request_line probe_id
probe_line n = request_line (probe_id n) (codes "tools/list") (codes "{}")

-- What a respawn writes to the new inner: the request, if one was captured, and the notification.
unfoldable pub handshake : ℕ → Bytes → Bytes → List Bytes
unfolding replay_line
handshake n params line =
    let notification = if is_empty line then [] else line ∷ [] in
    if is_empty params then notification else replay_line n params ∷ notification

unfoldable pub next_replay : Session → ℕ
next_replay s = if is_empty s.init_params then s.init_replay_counter else suc s.init_replay_counter

-- The session with the new inner, its quiet window and the notice to the client.
abbrev pub swapped : ℕ → ℕ → Bool → Session → Session
swapped now window notify_fails s = record s {
  init_replay_counter = next_replay s;
  quiet_until = some (now + (if window == 0 then 500000000 else window));
  inner = some (handshake (next_replay s) s.init_params s.initialized_line);
  emitted = if notify_fails then s.emitted else suc s.emitted;
  emit_failed = if notify_fails then suc s.emit_failed else s.emit_failed;
}

unfoldable pub respawn_inner : ℕ → ℕ → RespawnFaults → Session → Result SessionError Session
unfolding handshake next_replay
respawn_inner now window f s =
    if f.spawn
    then fail (error spawn_failed)
    else if not (is_empty s.init_params) && f.initialize
    then fail (error replay_initialize)
    else if not (is_empty s.initialized_line) && f.initialized
    then fail (error replay_initialized)
    else ok (swapped now window f.notify s)

abbrev pub counted : Bool × Breaker → Session → Result SessionError Session
counted (true, b) s = fail (error breaker_tripped)
counted (false, b) s = ok (record s { restarts = suc s.restarts; breaker = b })

-- The session with the reason for the restart, which a probe's timer may have left.
abbrev pub with_reason : Bytes → Session → Session
with_reason code s = record s {
  next_restart_reason = [];
  last_restart_reason =
      if is_empty s.next_restart_reason
      then codes "inner exited (code=" ++ code ++ codes ")"
      else s.next_restart_reason;
}

-- A round of `pumpInnerToClient`; `code` is the text of the exit code.
unfoldable pub inner_exit : Bytes → ℕ → ℕ → RespawnFaults → Session → Result SessionError Session
unfolding respawn_inner
inner_exit code now window f s = elim (respawn_inner now window f (with_reason code s)) [
  | fail e ↦ fail e
  | ok u ↦ counted (record_restart now u.breaker) u
]

pub data Event : Type 0 where
  from_client : Bool → Bytes → Event
  probe : Bool → ℕ → Event
  probe_timed_out : Event
  exited : Bytes → ℕ → ℕ → RespawnFaults → Event

module _ (codec : Codec) where
  -- A probe's timer leaves the reason for the restart that it causes.
  unfoldable pub session_step : Event → Session → Result SessionError Session
  unfolding client_line inner_exit write_to_inner
  session_step (from_client fails line) s = ok (client_line codec fails line s)
  session_step (probe fails n) s = ok (write_to_inner fails (probe_line n) s)
  session_step probe_timed_out s =
      ok (record s { next_restart_reason = codes "probe timeout (inner unresponsive)" })
  session_step (exited code now window f) s = inner_exit code now window f s

  -- Events one after another; an error ends the session.
  unfoldable pub run_session : List Event → Session → Result SessionError Session
  unfolding session_step
  run_session [] s = ok s
  run_session (e ∷ es) s = elim (session_step e s) [ fail x ↦ fail x | ok t ↦ run_session es t ]
