-- ===== src/Supervisor/Session/Restarts.antt =====
-- The exits of the inner in a session of internal/supervisor/supervisor.go, and the breaker over them.
use pincher_mcp.Prelude.{
  ℕ, suc, ◌≡◌, refl, ap, Bool, true, false, List, [], ◌∷◌, ◌++◌, some, arith, Bytes, ok,
}
use pincher_mcp.Supervisor.Breaker.{Breaker, record_restart, stop_or, pump}
use pincher_mcp.Supervisor.Session.{
  Session, RespawnFaults, handshake, respawn_inner, swapped, with_reason, inner_exit, counted,
  Event, from_client, probe, probe_timed_out, exited,
}

abbrev pub NoFault : RespawnFaults → Type 0
NoFault f = (f.spawn ≡ false) × (f.initialize ≡ false) × (f.initialized ≡ false)

-- The instants of the exits, and that no respawn fails.
unfoldable pub exit_times : List Event → List ℕ
exit_times [] = []
exit_times (from_client fails line ∷ es) = exit_times es
exit_times (probe fails n ∷ es) = exit_times es
exit_times (probe_timed_out ∷ es) = exit_times es
exit_times (exited code now window f ∷ es) = now ∷ exit_times es

unfoldable pub IsFaultless : Event → Type 0
IsFaultless (from_client fails line) = Unit
IsFaultless (probe fails n) = Unit
IsFaultless probe_timed_out = Unit
IsFaultless (exited code now window f) = NoFault f

pub exit_times-append :
    (es ds : List Event) → exit_times (es ++ ds) ≡ exit_times es ++ exit_times ds
unfolding exit_times
exit_times-append [] ds = refl
exit_times-append (from_client fails line ∷ es) ds = exit_times-append es ds
exit_times-append (probe fails n ∷ es) ds = exit_times-append es ds
exit_times-append (probe_timed_out ∷ es) ds = exit_times-append es ds
exit_times-append (exited code now window f ∷ es) ds = ap (◌∷◌ now) (exit_times-append es ds)

-- A pump that does not trip over all instants does not trip over the first, nor over the rest after them.
pub pump_step :
    (now : ℕ) (later : List ℕ) (b : Breaker)
    → (pump (now ∷ later) b).0 ≡ false
    → ((record_restart now b).0 ≡ false)
      × ((pump later (record_restart now b).1).0 ≡ false)
      × ((pump (now ∷ later) b).1 ≡ (pump later (record_restart now b).1).1)
unfolding pump
pump_step now later b h = go (record_restart now b) h
  where
    go :
        (r : Bool × Breaker)
        → (stop_or r (pump later r.1)).0 ≡ false
        → (r.0 ≡ false)
          × ((pump later r.1).0 ≡ false)
          × ((stop_or r (pump later r.1)).1 ≡ (pump later r.1).1)
    go (true, c) k = ground (arith, k)
    go (false, c) k = (refl, k, refl)

pub pump-append :
    (xs ys : List ℕ) (b : Breaker)
    → (pump (xs ++ ys) b).0 ≡ false
    → ((pump xs b).0 ≡ false) × ((pump ys (pump xs b).1).0 ≡ false)
unfolding pump
pump-append [] ys b h = (refl, h)
pump-append (x ∷ xs) ys b h =
    let (one, rest, e) = pump_step x (xs ++ ys) b h in
    let (l, r) = pump-append xs ys (record_restart x b).1 rest in go (record_restart x b) one l r
  where
    go :
        (r : Bool × Breaker)
        → r.0 ≡ false
        → (pump xs r.1).0 ≡ false
        → (pump ys (pump xs r.1).1).0 ≡ false
        → ((stop_or r (pump xs r.1)).0 ≡ false) × ((pump ys (stop_or r (pump xs r.1)).1).0 ≡ false)
    go (true, c) h k l = ground (arith, h)
    go (false, c) h k l = (k, l)

-- What a respawn makes of a session.
pub record Respawned (s u : Session) (now : ℕ) : Type 0 where
  pub params : u.init_params ≡ s.init_params
  pub notification : u.initialized_line ≡ s.initialized_line
  pub input : u.inner ≡ some (handshake u.init_replay_counter s.init_params s.initialized_line)
  pub trips : u.breaker ≡ (record_restart now s.breaker).1
  pub count : u.restarts ≡ suc s.restarts

respawn_inner-ok :
    (now window : ℕ) (f : RespawnFaults) (s : Session)
    → NoFault f
    → respawn_inner now window f s ≡ ok (swapped now window f.notify s)
unfolding respawn_inner
respawn_inner-ok now window f s (spawned, replayed, notified) =
    rw (spawned, replayed, notified) (ground arith)

pub inner_exit-Respawned :
    (code : Bytes) (now window : ℕ) (f : RespawnFaults) (s : Session)
    → NoFault f
    → (record_restart now s.breaker).0 ≡ false
    → (u : Session) × (inner_exit code now window f s ≡ ok u) × Respawned s u now
unfolding inner_exit
inner_exit-Respawned code now window f s good h =
    rw (respawn_inner-ok now window f (with_reason code s) good, inner_exit)
      (go (record_restart now s.breaker) h refl)
  where
    go :
        (r : Bool × Breaker)
        → r.0 ≡ false
        → r ≡ record_restart now s.breaker
        → (u : Session) × (counted r (swapped now window f.notify (with_reason code s)) ≡ ok u)
          × Respawned s u now
    go (true, c) k e = ground (arith, k)
    go (false, c) k e = (
      record (swapped now window f.notify (with_reason code s)) {
        restarts = suc s.restarts;
        breaker = c;
      },
      refl,
      record {
        params = refl;
        notification = refl;
        input = refl;
        trips = ap (λ x. x.1) e;
        count = refl;
      },
    )
