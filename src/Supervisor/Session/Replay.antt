-- ===== src/Supervisor/Session/Replay.antt =====
-- What the current inner of internal/supervisor/supervisor.go has read, over a whole session.
use pincher_mcp.Prelude.{
  ℕ, ◌≡◌, refl, sym, ap, ap₂, ◌∙◌, false, List, [], ◌∷◌, ◌++◌, append-nil, is_empty, if◌then◌else◌,
  Bool-cases, inl, inr, some, arith, Bytes, Result, ok, fail, value_or, All, All-parts,
  length-append, codes, length,
}
use pincher_mcp.Supervisor.Breaker.{Breaker, pump}
use pincher_mcp.Supervisor.Session.{
  newest, Codec, Session, first_session, write_to_inner, client_line, RespawnFaults, SessionError,
  handshake, replay_line, inner_exit, Event, from_client, probe, probe_timed_out, exited,
  probe_line, session_step, run_session,
}
use pincher_mcp.Supervisor.Session.Restarts.{
  IsFaultless, exit_times, exit_times-append, pump_step, pump-append, inner_exit-Respawned,
}
use pincher_mcp.Supervisor.Session.Writes.{
  last_of, params_of, notification_of, all_written, Ran, client_line-Adds, probe-Adds, Ran-cons,
  Ran-exit,
}

module _ (codec : Codec) where
  run_session-step :
      (e : Event) (es : List Event) (s u : Session)
      → session_step codec e s ≡ ok u
      → run_session codec (e ∷ es) s ≡ run_session codec es u
  unfolding run_session
  run_session-step e es s u h = cases (session_step codec e s) h
    where
      cases :
          (r : Result SessionError Session)
          → r ≡ ok u
          → (elim r [ fail x ↦ fail x | ok v ↦ run_session codec es v ]) ≡ run_session codec es u
      cases (fail x) k = ground (arith, k)
      cases (ok v) k = ap (run_session codec es) (ap (value_or u) k)

  -- With no fault, and no instant at which the breaker trips, a session goes on.
  run_session-Ran :
      (es : List Event) (s : Session)
      → All IsFaultless es
      → (pump (exit_times es) s.breaker).0 ≡ false
      → (t : Session) × (run_session codec es s ≡ ok t) × Ran codec es s t
  unfolding run_session all_written last_of exit_times pump IsFaultless
  run_session-Ran [] s good h = (
    s,
    refl,
    record {
      params = refl;
      notification = refl;
      input = λ old e k. k ∙ ap some (sym (append-nil old));
      trips = refl;
      count = omega arith;
    },
  )
  run_session-Ran (from_client fails line ∷ es) s (g, good) h =
      let u = client_line codec fails line s in
      let a = client_line-Adds codec fails line s in
      let (t, e, r) =
        run_session-Ran es u good (ap (λ b. (pump (exit_times es) b).0) a.trips ∙ h) in
      (t, e, Ran-cons codec (from_client fails line) es s u t refl a r)
  run_session-Ran (probe fails n ∷ es) s (g, good) h =
      let u = write_to_inner fails (probe_line n) s in
      let a = probe-Adds codec fails n s in
      let (t, e, r) =
        run_session-Ran es u good (ap (λ b. (pump (exit_times es) b).0) a.trips ∙ h) in
      (t, e, Ran-cons codec (probe fails n) es s u t refl a r)
  run_session-Ran (probe_timed_out ∷ es) s (g, good) h =
      let u : Session = record s {
        next_restart_reason = codes "probe timeout (inner unresponsive)";
      } in
      let (t, e, r) = run_session-Ran es u good h in
      (
        t,
        e,
        Ran-cons codec probe_timed_out es s u t refl
            (record {
              params = refl;
              notification = refl;
              input = λ old k. k ∙ ap some (sym (append-nil old));
              trips = refl;
              count = refl;
            })
            r,
      )
  run_session-Ran (exited code now window f ∷ es) s (g, good) h =
      let (one, rest, x) = pump_step now (exit_times es) s.breaker h in
      let (u, e, a) = inner_exit-Respawned code now window f s g one in
      let (t, k, r) =
        run_session-Ran es u good (ap (λ b. (pump (exit_times es) b).0) a.trips ∙ rest) in
      (
        t,
        run_session-step (exited code now window f) es s u e ∙ k,
        Ran-exit codec code now window f es s u t h a r,
      )

  run_session-append :
      (es ds : List Event) (s t : Session)
      → run_session codec es s ≡ ok t
      → run_session codec (es ++ ds) s ≡ run_session codec ds t
  unfolding run_session
  run_session-append [] ds s t h = ap (λ r. run_session codec ds (value_or s r)) h
  run_session-append (e ∷ es) ds s t h = go (session_step codec e s) h (run_session-append es ds)
    where
      go :
          (r : Result SessionError Session)
          → (elim r [ fail x ↦ fail x | ok u ↦ run_session codec es u ]) ≡ ok t
          → ((u v : Session)
              → run_session codec es u ≡ ok v
              → run_session codec (es ++ ds) u ≡ run_session codec ds v)
          → (elim r [ fail x ↦ fail x | ok u ↦ run_session codec (es ++ ds) u ])
            ≡ run_session codec ds t
      go (fail x) k ih = ground (arith, k)
      go (ok u) k ih = ih u t k

-- The line, if `x` has a byte.
abbrev pub unless_empty : Bytes → Bytes → List Bytes
unless_empty x line = if is_empty x then [] else line ∷ []

handshake-unless_empty :
    (n : ℕ) (p l : Bytes) → handshake n p l ≡ unless_empty p (replay_line n p) ++ unless_empty l l
unfolding handshake
handshake-unless_empty n p l = elim (Bool-cases (is_empty p)) [
  | inl h ↦ rw h refl
  | inr h ↦ rw h refl
]

-- Take a session of any events that ends with an exit of the inner and then lines that are no exits. If
-- no respawn fails and the breaker does not trip at the instants of the exits, the session goes on, and
-- the new inner has read: a synthesized initialize with the params of the client's last initialize before
-- the exit, if there was one; the client's last initialized notification, if there was one with a byte;
-- and then, in their order, the probes and the client's lines since the exit, without the calls of the
-- status tool and the lines whose write failed. The restarts are as many as the exits.
pub run_session-replays :
    (codec : Codec) (b : Breaker) (earlier later : List Event) (code : Bytes) (now window : ℕ)
    (f : RespawnFaults)
    → All IsFaultless (earlier ++ exited code now window f ∷ later)
    → (pump (exit_times (earlier ++ exited code now window f ∷ later)) b).0 ≡ false
    → exit_times later ≡ []
    → (t : Session) × (run_session codec
          (earlier ++ exited code now window f ∷ later)
          (first_session b)
        ≡ ok t)
      × ((n : ℕ) × (t.inner
            ≡ some (
                unless_empty
                  (newest (last_of (params_of codec) earlier) [])
                  (replay_line n (newest (last_of (params_of codec) earlier) []))
                ++ unless_empty
                    (newest (last_of (notification_of codec) earlier) [])
                    (newest (last_of (notification_of codec) earlier) [])
                ++ all_written codec later)))
      × (t.restarts ≡ length (exit_times (earlier ++ exited code now window f ∷ later)))
unfolding IsFaultless exit_times session_step inner_exit
run_session-replays codec b earlier later code now window f good h quiet =
    let x = exited code now window f in
    let (good1, (g, good2)) = All-parts IsFaultless earlier (x ∷ later) good in
    let times = exit_times-append earlier (x ∷ later) in
    let (p1, p2) =
      pump-append (exit_times earlier) (now ∷ exit_times later) b
        (ap (λ ts. (pump ts b).0) (sym times) ∙ h) in
    let (s, e1, r1) = run_session-Ran codec earlier (first_session b) good1 p1 in
    let (one, rest, k) =
      pump_step now (exit_times later) s.breaker
        (ap (λ c. (pump (now ∷ exit_times later) c).0) r1.trips ∙ p2) in
    let (u, e2, a) = inner_exit-Respawned code now window f s g one in
    let (t, e3, r3) =
      run_session-Ran codec later u good2
        (ap (λ c. (pump (exit_times later) c).0) a.trips ∙ rest) in
    (
      t,
      run_session-append codec earlier (x ∷ later) (first_session b) s e1
          ∙ run_session-step codec x later s u e2
          ∙ e3,
      (
        u.init_replay_counter,
        r3.input (handshake u.init_replay_counter s.init_params s.initialized_line) quiet a.input
            ∙ ap₂ (λ p l. some (handshake u.init_replay_counter p l ++ all_written codec later))
                r1.params r1.notification
            ∙ ap (λ ls. some (ls ++ all_written codec later))
                (handshake-unless_empty u.init_replay_counter _ _),
      ),
      omega (
        arith,
        r3.count,
        a.count,
        r1.count,
        ap length times,
        length-append (exit_times earlier) (now ∷ exit_times later),
      ),
    )
