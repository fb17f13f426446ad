-- ===== src/Supervisor/Probe/Sentinels.antt =====
-- Which answers of the inner reach the client in internal/supervisor/supervisor.go.
use pincher_mcp.Prelude.{
  ℕ, ◌≡◌, refl, ap, true, false, none, suc, some, ◌++◌, Bytes, codes, has_prefix, has_prefix-append,
  itoa,
}
use pincher_mcp.Supervisor.Probe.{
  Watchdog, probe_id, init_id, text_id, probe_response, init_replay_response, sentinel_kind,
  head_kind, classify_inner_line, filtered, forward_line,
}

sentinel_kind-probe :
    (s : Bytes) → sentinel_kind (codes "__pincher_supervisor_probe_" ++ s) ≡ probe_response
unfolding sentinel_kind
sentinel_kind-probe s = rw (has_prefix-append (codes "__pincher_supervisor_probe_") s) refl

init_prefix :
    (s : Bytes)
    → has_prefix (codes "__pincher_supervisor_init_" ++ s) (codes "__pincher_supervisor_probe_")
      ≡ false
unfolding has_prefix
init_prefix s = refl

sentinel_kind-init :
    (s : Bytes) → sentinel_kind (codes "__pincher_supervisor_init_" ++ s) ≡ init_replay_response
unfolding sentinel_kind
sentinel_kind-init s =
    rw (init_prefix s) (rw (has_prefix-append (codes "__pincher_supervisor_init_") s) refl)

module _ (now : ℕ) (w : Watchdog) (method : Bytes) where
  -- An answer whose string id has neither sentinel prefix reaches the client, and changes nothing.
  forward_line-client :
      (id : Bytes)
      → has_prefix id (codes "__pincher_supervisor_probe_") ≡ false
      → has_prefix id (codes "__pincher_supervisor_init_") ≡ false
      → forward_line now (some (record { id = text_id id; method = method })) w ≡ (true, w)
  unfolding forward_line classify_inner_line head_kind sentinel_kind
  forward_line-client id h k = rw (h, k) refl

  -- Whatever the quiet window: the answer to a request of the supervisor's own, a probe or a replayed
  -- initialize, does not reach the client, and an answer with any other string id does. The answer to a probe
  -- leaves no probe pending and is counted, and nothing else changes.
  pub forward_line-sentinels :
      (n m : ℕ) (id : Bytes)
      → has_prefix id (codes "__pincher_supervisor_probe_") ≡ false
      → has_prefix id (codes "__pincher_supervisor_init_") ≡ false
      → (forward_line now (some (record { id = text_id (probe_id n); method = method })) w
          ≡ (false, record w { pending_probe = none; probes_answered = suc w.probes_answered }))
        × (forward_line now (some (record { id = text_id (init_id m); method = method })) w
            ≡ (false, w))
        × (forward_line now (some (record { id = text_id id; method = method })) w ≡ (true, w))
  unfolding forward_line classify_inner_line head_kind probe_id init_id
  forward_line-sentinels n m id h k = (
    ap (λ kind. filtered kind w) (sentinel_kind-probe (itoa n)),
    ap (λ kind. filtered kind w) (sentinel_kind-init (itoa m)),
    forward_line-client id h k,
  )
