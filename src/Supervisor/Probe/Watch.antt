-- ===== src/Supervisor/Probe/Watch.antt =====
-- The liveness probes of internal/supervisor/supervisor.go in every interleaving of their steps.
use pincher_mcp.Prelude.{
  ℕ, suc, ◌+◌, ◌≤◌, ◌<◌, ◌≡◌, refl, sym, ap, ◌∙◌, Bool, true, false, ◌||◌, List, [], ◌∷◌, Option,
  none, some, arith, ◌==◌, ==_refl, Bool-cases, inl, inr, length, subst,
}
use pincher_mcp.Supervisor.Probe.{
  Sender, resting, named, writing, written, tallied, giving_up, Watchdog, started, cleared,
  probe_unless, send_from, send_probe, scheduled, unschedule, is_pending, timeout, add_inner,
  LineKind, forward, probe_response, init_replay_response, quiet_window_notification,
  classify_inner_line, filtered, forward_line, start_quiet_window, Step, send, expire, count, kill,
  line, quiet, replace, Reach, here, step_on,
}

-- Whether the probe loop is in the send of a probe, from its store on.
abbrev pub in_send : ℕ → Sender → Bool
in_send n resting = false
in_send n (named m) = false
in_send n (writing m) = m == n
in_send n (written m) = m == n
in_send n (tallied m) = m == n
in_send n (giving_up m) = m == n

-- Whether a timer is left for the pending probe, if there is one, or the probe loop is in its send.
abbrev pub watched : Option ℕ → Sender → List ℕ → Bool
watched none sender timers = true
watched (some n) sender timers = in_send n sender || scheduled n timers

-- No probe but `n` is pending.
abbrev pub none_but : ℕ → Option ℕ → Bool
none_but n none = true
none_but n (some m) = m == n

-- The probe that is sent has no timer yet, and no other is pending.
abbrev pub Sends : ℕ → Option ℕ → List ℕ → ℕ → Type 0
Sends n pending timers counter =
    (none_but n pending ≡ true) × (scheduled n timers ≡ false) × (n ≤ counter)

abbrev pub Fits : Sender → Option ℕ → List ℕ → ℕ → Type 0
Fits resting p ts c = Unit
Fits (named n) p ts c = (p ≡ none) × (scheduled n ts ≡ false) × (n ≤ c)
Fits (writing n) p ts c = Sends n p ts c
Fits (written n) p ts c = Sends n p ts c
Fits (tallied n) p ts c = Sends n p ts c
Fits (giving_up n) p ts c = Sends n p ts c

abbrev pub pending_count : Option ℕ → ℕ
pending_count none = 0
pending_count (some n) = 1

-- The pending probe, unless its send is not counted yet.
abbrev pub sent_pending : Sender → Option ℕ → ℕ
sent_pending resting p = pending_count p
sent_pending (named n) p = pending_count p
sent_pending (writing n) p = 0
sent_pending (written n) p = 0
sent_pending (tallied n) p = pending_count p
sent_pending (giving_up n) p = 0

-- The pending probe is watched; a probe in its send has no timer, no other probe is then pending, and no
-- number is in use that was not given out; the timeouts and the pending probe are among the probes sent;
-- and there are no more kills than timeouts.
pub record IsSound (w : Watchdog) : Type 0 where
  pub watch : watched w.pending_probe w.sender w.timers ≡ true
  pub fits : Fits w.sender w.pending_probe w.timers w.probe_id_counter
  pub given : (n : ℕ) → w.probe_id_counter < n → scheduled n w.timers ≡ false
  pub sent : w.probes_timed_out + w.won + sent_pending w.sender w.pending_probe ≤ w.probes_sent
  pub kills : length w.killed + w.killers ≤ w.probes_timed_out

scheduled-unschedule :
    (n m : ℕ) (ms : List ℕ) → (n == m) ≡ false → scheduled m (unschedule n ms) ≡ scheduled m ms
unfolding scheduled unschedule
scheduled-unschedule n m [] h = refl
scheduled-unschedule n m (k ∷ ms) h = ground (arith, scheduled-unschedule n m ms h)

unschedule-scheduled :
    (n m : ℕ) (ms : List ℕ) → scheduled m ms ≡ false → scheduled m (unschedule n ms) ≡ false
unfolding scheduled unschedule
unschedule-scheduled n m [] h = refl
unschedule-scheduled n m (k ∷ ms) h = ground (arith, unschedule-scheduled n m ms)

cleared-same : (n : ℕ) (p : Option ℕ) → none_but n p ≡ true → cleared n p ≡ none
unfolding is_pending
cleared-same n none h = refl
cleared-same n (some m) h = rw h refl

pending_count_le : (p : Option ℕ) → pending_count p ≤ 1
pending_count_le none = omega arith
pending_count_le (some n) = omega arith

watched-timer :
    (n : ℕ) (p : Option ℕ) (ms : List ℕ)
    → watched p (tallied n) ms ≡ true
    → watched p resting (n ∷ ms) ≡ true
unfolding scheduled
watched-timer n none ms h = refl
watched-timer n (some m) ms h = h

-- A later place in the same send.
watched-moved :
    (s s' : Sender) (p : Option ℕ) (ms : List ℕ)
    → ((n : ℕ) → in_send n s ≡ in_send n s')
    → watched p s ms ≡ true
    → watched p s' ms ≡ true
watched-moved s s' none ms same h = h
watched-moved s s' (some n) ms same h = ground (arith, same n)

scheduled-timer :
    (n c : ℕ) (ms : List ℕ)
    → n ≤ c
    → ((m : ℕ) → c < m → scheduled m ms ≡ false)
    → (m : ℕ) → c < m
    → scheduled m (n ∷ ms) ≡ false
unfolding scheduled
scheduled-timer n c ms le h m lt = ground (arith, h m lt)

module _ (w : Watchdog) (h : IsSound w) where
  probe_unless-IsSound :
      (p : Option ℕ) → w.pending_probe ≡ p → w.sender ≡ resting → IsSound (probe_unless p w)
  probe_unless-IsSound (some n) e at = h
  probe_unless-IsSound none e at = record {
    watch = ground (arith, e);
    fits = (e, h.given (suc w.probe_id_counter) (omega arith), omega arith);
    given = λ n lt. h.given n (omega (arith, lt));
    sent = omega (arith, h.sent, ap (λ s. sent_pending s w.pending_probe) at);
    kills = h.kills;
  }

  pub fitted_at : {s : Sender} → w.sender ≡ s → Fits s w.pending_probe w.timers w.probe_id_counter
  fitted_at e = subst (λ s. Fits s w.pending_probe w.timers w.probe_id_counter) e h.fits

  watch_at : {s : Sender} → w.sender ≡ s → watched w.pending_probe s w.timers ≡ true
  watch_at e = subst (λ s. watched w.pending_probe s w.timers ≡ true) e h.watch

  sent_at :
      {s : Sender}
      → w.sender ≡ s
      → w.probes_timed_out + w.won + sent_pending s w.pending_probe ≤ w.probes_sent
  sent_at e =
      subst (λ s. w.probes_timed_out + w.won + sent_pending s w.pending_probe ≤ w.probes_sent) e
        h.sent

  send_from-IsSound :
      (s : Sender) (succeeds : Bool) → w.sender ≡ s → IsSound (send_from s succeeds w)
  send_from-IsSound resting b e = probe_unless-IsSound w.pending_probe refl e
  send_from-IsSound (named n) b e =
      let (empty, new, le) = fitted_at e in
      record {
        watch = ground (arith, ==_refl n);
        fits = (==_refl n, new, le);
        given = h.given;
        sent = omega (arith, sent_at e);
        kills = h.kills;
      }
  send_from-IsSound (writing n) true e = record {
    watch = watched-moved (writing n) (written n) w.pending_probe w.timers (λ m. refl) (watch_at e);
    fits = fitted_at e;
    given = h.given;
    sent = sent_at e;
    kills = h.kills;
  }
  send_from-IsSound (writing n) false e = record {
    watch =
        watched-moved (writing n) (giving_up n) w.pending_probe w.timers (λ m. refl) (watch_at e);
    fits = fitted_at e;
    given = h.given;
    sent = sent_at e;
    kills = h.kills;
  }
  send_from-IsSound (written n) b e = record {
    watch = watched-moved (written n) (tallied n) w.pending_probe w.timers (λ m. refl) (watch_at e);
    fits = fitted_at e;
    given = h.given;
    sent = omega (arith, sent_at e, pending_count_le w.pending_probe);
    kills = h.kills;
  }
  send_from-IsSound (tallied n) b e =
      let (only, new, le) = fitted_at e in
      record {
        watch = watched-timer n w.pending_probe w.timers (watch_at e);
        fits = tt;
        given = scheduled-timer n w.probe_id_counter w.timers le h.given;
        sent = sent_at e;
        kills = h.kills;
      }
  send_from-IsSound (giving_up n) b e =
      let (only, new, le) = fitted_at e in
      let none_left = cleared-same n w.pending_probe only in
      record {
        watch = rw none_left refl;
        fits = tt;
        given = h.given;
        sent = rw none_left (omega (arith, sent_at e));
        kills = h.kills;
      }

pending_count-is_pending : (n : ℕ) (p : Option ℕ) → is_pending n p ≡ true → pending_count p ≡ 1
unfolding is_pending
pending_count-is_pending n none h = cc
pending_count-is_pending n (some m) h = refl

-- A probe with a timer left is not in its send, where no other is pending.
pub not_sent :
    (n m : ℕ) (p : Option ℕ) (ms : List ℕ)
    → scheduled n ms ≡ true
    → none_but m p ≡ true
    → scheduled m ms ≡ false
    → is_pending n p ≡ false
unfolding is_pending
not_sent n m none ms at only new = refl
not_sent n m (some k) ms at only new = elim (Bool-cases (k == n)) [
  | inl e ↦
      let same : m ≡ n = ground (arith, only, e) in
      let clash : scheduled n ms ≡ false = ap (λ k. scheduled k ms) (sym same) ∙ new in
      ground (arith, clash, at)
  | inr e ↦ e
]

watched-unschedule :
    (n : ℕ) (p : Option ℕ) (s : Sender) (ms : List ℕ)
    → is_pending n p ≡ false
    → watched p s ms ≡ true
    → watched p s (unschedule n ms) ≡ true
unfolding is_pending
watched-unschedule n none s ms h k = refl
watched-unschedule n (some m) s ms h k = ground (arith, scheduled-unschedule n m ms)

none_but-cleared : (m n : ℕ) (p : Option ℕ) → none_but m p ≡ true → none_but m (cleared n p) ≡ true
unfolding is_pending
none_but-cleared m n none h = refl
none_but-cleared m n (some k) h = ground (arith, h)

cleared-none : (n : ℕ) (p : Option ℕ) → p ≡ none → cleared n p ≡ none
unfolding is_pending
cleared-none n none h = refl
cleared-none n (some k) h = ground (arith, h)

module _ (n : ℕ) (p : Option ℕ) (ms : List ℕ) (c : ℕ) where
  Sends-timeout : (m : ℕ) → Sends m p ms c → Sends m (cleared n p) (unschedule n ms) c
  Sends-timeout m (only, new, le) =
      (none_but-cleared m n p only, unschedule-scheduled n m ms new, le)

  Fits-timeout : (s : Sender) → Fits s p ms c → Fits s (cleared n p) (unschedule n ms) c
  Fits-timeout resting h = tt
  Fits-timeout (named m) (e, new, le) = (cleared-none n p e, unschedule-scheduled n m ms new, le)
  Fits-timeout (writing m) h = Sends-timeout m h
  Fits-timeout (written m) h = Sends-timeout m h
  Fits-timeout (tallied m) h = Sends-timeout m h
  Fits-timeout (giving_up m) h = Sends-timeout m h

  -- A probe whose timer swaps it was counted.
  sent_pending-timeout :
      (s : Sender)
      → Fits s p ms c
      → scheduled n ms ≡ true
      → is_pending n p ≡ true
      → sent_pending s p ≡ 1
  sent_pending-timeout resting f at e = pending_count-is_pending n p e
  sent_pending-timeout (named m) f at e = pending_count-is_pending n p e
  sent_pending-timeout (writing m) (only, new, le) at e =
      absurd (ground (arith, not_sent n m p ms at only new, e))
  sent_pending-timeout (written m) (only, new, le) at e =
      absurd (ground (arith, not_sent n m p ms at only new, e))
  sent_pending-timeout (tallied m) f at e = pending_count-is_pending n p e
  sent_pending-timeout (giving_up m) (only, new, le) at e =
      absurd (ground (arith, not_sent n m p ms at only new, e))

sent_pending-none : (s : Sender) → sent_pending s none ≡ 0
sent_pending-none resting = refl
sent_pending-none (named n) = refl
sent_pending-none (writing n) = refl
sent_pending-none (written n) = refl
sent_pending-none (tallied n) = refl
sent_pending-none (giving_up n) = refl

timeout-IsSound :
    (n : ℕ) (w : Watchdog) → scheduled n w.timers ≡ true → IsSound w → IsSound (timeout n w)
unfolding timeout
timeout-IsSound n w at h =
    let fits = Fits-timeout n w.pending_probe w.timers w.probe_id_counter w.sender h.fits in
    elim (Bool-cases (is_pending n w.pending_probe)) [
      | inl e ↦
          let one =
            sent_pending-timeout n w.pending_probe w.timers w.probe_id_counter w.sender h.fits at
              e in
          let zero = sent_pending-none w.sender in
          rw e (record {
            watch = refl;
            fits = rw e at fits;
            given = λ m lt. unschedule-scheduled n m w.timers (h.given m lt);
            sent = omega (arith, h.sent, one, zero);
            kills = h.kills;
          })
      | inr e ↦ rw e (record {
        watch = watched-unschedule n w.pending_probe w.sender w.timers e h.watch;
        fits = rw e at fits;
        given = λ m lt. unschedule-scheduled n m w.timers (h.given m lt);
        sent = h.sent;
        kills = h.kills;
      })
    ]

length-add_inner : (i : Option ℕ) (ks : List ℕ) → length (add_inner i ks) ≤ suc (length ks)
length-add_inner none ks = omega arith
length-add_inner (some i) ks = omega arith

Fits-answered : (s : Sender) (p : Option ℕ) (ms : List ℕ) (c : ℕ) → Fits s p ms c → Fits s none ms c
Fits-answered resting p ms c h = tt
Fits-answered (named n) p ms c (e, new, le) = (refl, new, le)
Fits-answered (writing n) p ms c (e, new, le) = (refl, new, le)
Fits-answered (written n) p ms c (e, new, le) = (refl, new, le)
Fits-answered (tallied n) p ms c (e, new, le) = (refl, new, le)
Fits-answered (giving_up n) p ms c (e, new, le) = (refl, new, le)

filtered-IsSound : (k : LineKind) (w : Watchdog) → IsSound w → IsSound (filtered k w).1
filtered-IsSound probe_response w h = record {
  watch = refl;
  fits = Fits-answered w.sender w.pending_probe w.timers w.probe_id_counter h.fits;
  given = h.given;
  sent = omega (arith, h.sent, sent_pending-none w.sender);
  kills = h.kills;
}
filtered-IsSound forward w h = h
filtered-IsSound init_replay_response w h = h
filtered-IsSound quiet_window_notification w h = h

pub Step-IsSound : {w v : Watchdog} → Step w v → IsSound w → IsSound v
unfolding send_probe forward_line start_quiet_window
Step-IsSound {w} (send succeeds) h = send_from-IsSound w h w.sender succeeds refl
Step-IsSound {w} (expire n at) h = timeout-IsSound n w at h
Step-IsSound {w} (count k e) h = record {
  watch = h.watch;
  fits = h.fits;
  given = h.given;
  sent = omega (arith, h.sent, e);
  kills = omega (arith, h.kills);
}
Step-IsSound {w} (kill k e) h = record {
  watch = h.watch;
  fits = h.fits;
  given = h.given;
  sent = h.sent;
  kills = omega (arith, h.kills, e, length-add_inner w.inner w.killed);
}
Step-IsSound {w} (line now head) h = filtered-IsSound (classify_inner_line now w head) w h
Step-IsSound (quiet now window) h = record {
  watch = h.watch;
  fits = h.fits;
  given = h.given;
  sent = h.sent;
  kills = h.kills;
}
Step-IsSound (replace i free) h = record {
  watch = h.watch;
  fits = h.fits;
  given = h.given;
  sent = h.sent;
  kills = h.kills;
}

-- In every state that the supervisor reaches from its start: a pending probe has a timer left, or the
-- probe loop is still in its send; a probe in its send has no timer yet, and no other is pending; the
-- timers are of numbers that were given out; the probes that timed out, with the pending one unless its
-- send is not counted yet, are no more than those sent; and `killInner` has killed no more often than
-- probes timed out.
pub Reach-IsSound : {w : Watchdog} → Reach started w → IsSound w
unfolding scheduled
Reach-IsSound here = record {
  watch = refl;
  fits = tt;
  given = λ n lt. refl;
  sent = omega arith;
  kills = omega arith;
}
Reach-IsSound (step_on r s) = Step-IsSound s (Reach-IsSound r)
