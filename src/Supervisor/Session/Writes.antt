-- ===== src/Supervisor/Session/Writes.antt =====
-- What the events of a session of internal/supervisor/supervisor.go add to it.
use pincher_mcp.Prelude.{
  ℕ, ◌+◌, ◌≡◌, refl, sym, ap, ◌∙◌, Bool, true, false, ◌||◌, List, [], ◌∷◌, ◌++◌, append_assoc,
  append-nil, Option, none, some, if◌then◌else◌, arith, Bytes, Bool-cases, inl, inr, length,
}
use pincher_mcp.Supervisor.Breaker.{pump}
use pincher_mcp.Supervisor.Session.{
  newest, Codec, Session, captured_params, captured_notification, maybe_capture_init,
  is_status_call, write_to_inner, client_line, RespawnFaults, Event, from_client, probe,
  probe_timed_out, exited, probe_line,
}
use pincher_mcp.Supervisor.Session.Restarts.{exit_times, Respawned, pump_step}

-- The last value that a function finds in a list.
unfoldable pub last_of : {A B : Type 0} → (A → Option B) → List A → Option B
last_of f [] = none
last_of f (x ∷ xs) = elim (last_of f xs) [ none ↦ f x | some y ↦ some y ]

module _ (codec : Codec) where
  abbrev pub params_of : Event → Option Bytes
  params_of (from_client fails line) = captured_params codec line
  params_of (probe fails n) = none
  params_of probe_timed_out = none
  params_of (exited code now window f) = none

  abbrev pub notification_of : Event → Option Bytes
  notification_of (from_client fails line) = captured_notification codec line
  notification_of (probe fails n) = none
  notification_of probe_timed_out = none
  notification_of (exited code now window f) = none

  -- The lines that reach the inner between two exits: the probes and the client's lines but for the calls
  -- of the status tool, those whose write fails left out.
  abbrev pub written : Event → List Bytes
  written (from_client fails line) = if is_status_call codec line || fails then [] else line ∷ []
  written (probe fails n) = if fails then [] else probe_line n ∷ []
  written probe_timed_out = []
  written (exited code now window f) = []

  unfoldable pub all_written : List Event → List Bytes
  all_written [] = []
  all_written (e ∷ es) = written e ++ all_written es

module _ (codec : Codec) where
  pub record Ran (es : List Event) (s t : Session) : Type 0 where
    pub params : t.init_params ≡ newest (last_of (params_of codec) es) s.init_params
    pub notification :
        t.initialized_line ≡ newest (last_of (notification_of codec) es) s.initialized_line
    pub input :
        (old : List Bytes)
        → exit_times es ≡ []
        → s.inner ≡ some old
        → t.inner ≡ some (old ++ all_written codec es)
    pub trips : t.breaker ≡ (pump (exit_times es) s.breaker).1
    pub count : t.restarts ≡ s.restarts + length (exit_times es)

  -- What an event but an exit adds to the session.
  last_of-newest :
      {A B : Type 0} (f : A → Option B) (x : A) (xs : List A) (d : B)
      → newest (last_of f (x ∷ xs)) d ≡ newest (last_of f xs) (newest (f x) d)
  unfolding last_of
  last_of-newest {A} {B} f x xs d = go (last_of f xs)
    where
      go :
          (o : Option B)
          → newest (elim o [ none ↦ f x | some y ↦ some y ]) d ≡ newest o (newest (f x) d)
      go none = refl
      go (some y) = refl

  pub record Adds (e : Event) (s u : Session) : Type 0 where
    pub params : u.init_params ≡ newest (params_of codec e) s.init_params
    pub notification : u.initialized_line ≡ newest (notification_of codec e) s.initialized_line
    pub input : (old : List Bytes) → s.inner ≡ some old → u.inner ≡ some (old ++ written codec e)
    pub trips : u.breaker ≡ s.breaker
    pub count : u.restarts ≡ s.restarts

  write_to_inner-some :
      (fails : Bool) (line : Bytes) (s : Session) (old : List Bytes)
      → s.inner ≡ some old
      → (write_to_inner fails line s).inner ≡ some (old ++ (if fails then [] else line ∷ []))
  unfolding write_to_inner
  write_to_inner-some true line s old h =
      rw (h, write_to_inner) (h ∙ ap some (sym (append-nil old)))
  write_to_inner-some false line s old h = rw (h, write_to_inner) refl

  -- Everything else stays.
  write_to_inner-rest :
      (fails : Bool) (line : Bytes) (s : Session)
      → ((write_to_inner fails line s).init_params ≡ s.init_params)
        × ((write_to_inner fails line s).initialized_line ≡ s.initialized_line)
        × ((write_to_inner fails line s).breaker ≡ s.breaker)
        × ((write_to_inner fails line s).restarts ≡ s.restarts)
  unfolding write_to_inner
  write_to_inner-rest fails line s = go s.inner fails
    where
      written_to : Option (List Bytes) → Bool → Session
      written_to o b = elim o [
        | none ↦ s
        | some lines ↦ if b then s else record s { inner = some (lines ++ line ∷ []) }
      ]

      go :
          (o : Option (List Bytes)) (b : Bool)
          → ((written_to o b).init_params ≡ s.init_params)
            × ((written_to o b).initialized_line ≡ s.initialized_line)
            × ((written_to o b).breaker ≡ s.breaker)
            × ((written_to o b).restarts ≡ s.restarts)
      go none b = (refl, refl, refl, refl)
      go (some lines) true = (refl, refl, refl, refl)
      go (some lines) false = (refl, refl, refl, refl)

  pub client_line-Adds :
      (fails : Bool) (line : Bytes) (s : Session)
      → Adds (from_client fails line) s (client_line codec fails line s)
  unfolding client_line maybe_capture_init
  client_line-Adds fails line s =
      let t = maybe_capture_init codec line s in
      let (params, notification, trips, count) = write_to_inner-rest fails line t in
      elim (Bool-cases (is_status_call codec line)) [
        | inl e ↦ rw e (record {
          params = refl;
          notification = refl;
          input = λ old h. rw e (h ∙ ap some (sym (append-nil old)));
          trips = refl;
          count = refl;
        })
        | inr e ↦ rw e (record {
          params = params;
          notification = notification;
          input = λ old h. rw e (write_to_inner-some fails line t old h);
          trips = trips;
          count = count;
        })
      ]

  pub probe-Adds :
      (fails : Bool) (n : ℕ) (s : Session)
      → Adds (probe fails n) s (write_to_inner fails (probe_line n) s)
  probe-Adds fails n s =
      let (params, notification, trips, count) = write_to_inner-rest fails (probe_line n) s in
      record {
        params = params;
        notification = notification;
        input = write_to_inner-some fails (probe_line n) s;
        trips = trips;
        count = count;
      }

  pub Ran-cons :
      (e : Event) (es : List Event) (s u t : Session)
      → exit_times (e ∷ es) ≡ exit_times es
      → Adds e s u
      → Ran es u t
      → Ran (e ∷ es) s t
  unfolding all_written
  Ran-cons e es s u t same a r = record {
    params =
        r.params
        ∙ ap (newest (last_of (params_of codec) es)) a.params
        ∙ sym (last_of-newest (params_of codec) e es s.init_params);
    notification =
        r.notification
        ∙ ap (newest (last_of (notification_of codec) es)) a.notification
        ∙ sym (last_of-newest (notification_of codec) e es s.initialized_line);
    input = λ old none_left h.
        r.input (old ++ written codec e) (sym same ∙ none_left) (a.input old h)
        ∙ ap some (append_assoc old (written codec e) (all_written codec es));
    trips =
        r.trips
        ∙ ap (λ b. (pump (exit_times es) b).1) a.trips
        ∙ ap (λ ts. (pump ts s.breaker).1) (sym same);
    count = omega (arith, r.count, a.count, ap length same);
  }

  pub Ran-exit :
      (code : Bytes) (now window : ℕ) (f : RespawnFaults) (es : List Event) (s u t : Session)
      → (pump (exit_times (exited code now window f ∷ es)) s.breaker).0 ≡ false
      → Respawned s u now
      → Ran es u t
      → Ran (exited code now window f ∷ es) s t
  unfolding exit_times
  Ran-exit code now window f es s u t h a r =
      let (one, rest, e) = pump_step now (exit_times es) s.breaker h in
      record {
        params =
            r.params
            ∙ ap (newest (last_of (params_of codec) es)) a.params
            ∙ sym (last_of-newest (params_of codec) (exited code now window f) es s.init_params);
        notification =
            r.notification
            ∙ ap (newest (last_of (notification_of codec) es)) a.notification
            ∙ sym (
                last_of-newest (notification_of codec) (exited code now window f) es
                  s.initialized_line);
        input = λ old none_left k. ground (arith, none_left);
        trips = r.trips ∙ ap (λ b. (pump (exit_times es) b).1) a.trips ∙ sym e;
        count = omega (arith, r.count, a.count);
      }
