-- ===== src/Server/Events/Safety.antt =====
-- No call on the event bus of internal/server/eventbus.go panics, and no buffer overflows.
use pincher_mcp.Prelude.{
  ℕ, zero, suc, ◌≤◌, ◌≡◌, refl, sym, ap, Bool, true, false, List, [], ◌∷◌, ◌++◌, Option, some,
  arith, if◌then◌else◌, ltb, ◌==◌, length, length-append, All, All-append, Bool-cases, List-cases,
  inl, inr,
}
use pincher_mcp.Server.Events.{
  SseEvent, Chan, EventBus, new_event_bus, buffer_size, subscribe, offer, at_chan, publish_to,
  publish, delete_sub, close_chan, is_done, unsubscribe, take_event, Action, subscribing,
  publishing, unsubscribing, receiving, act, run,
}

-- A channel is closed exactly when its unsubscribe function has run, and holds at most 32 events.
abbrev pub IsChanSound : Chan → Type 0
IsChanSound c = (c.closed ≡ c.done) × (length c.buffer ≤ buffer_size)

-- All channels are sound, and those of the subscribers are open.
pub record IsSound (b : EventBus) : Type 0 where
  pub channels : All IsChanSound b.chans
  pub open_subs : All (λ n. is_done n b.chans ≡ false) b.subs

-- What a change of one channel leaves: `v` says whether the channel is done, and the others are as before.
abbrev Changed : ℕ → Bool → List Chan → Option (List Chan) → Type 0
Changed n v cs r =
    (ds : List Chan) × (r ≡ some ds)
    × All IsChanSound ds
    × ((k : ℕ) → is_done k ds ≡ (if k == n then v else is_done k cs))

module _ (f : Chan → Option Chan) (w v : Bool)
    (change : (c : Chan)
      → IsChanSound c
      → c.done ≡ w
      → (d : Chan) × (f c ≡ some d) × IsChanSound d × (d.done ≡ v))
    (outside : w ≡ true → v ≡ true) where
  at_chan-Changed :
      (n : ℕ) (cs : List Chan)
      → All IsChanSound cs
      → is_done n cs ≡ w
      → Changed n v cs (at_chan n f cs)
  unfolding at_chan
  at_chan-Changed n [] h e = ([], refl, tt, λ k. ground (arith, outside (sym e)))
  at_chan-Changed zero (c ∷ cs) (hc, h) e =
      let (d, fd, hd, vd) = change c hc e in (d ∷ cs, simp (fd, at_chan), (hd, h), at_head d vd)
    where
      at_head :
          (d : Chan)
          → d.done ≡ v
          → (k : ℕ) → is_done k (d ∷ cs) ≡ (if k == 0 then v else is_done k (c ∷ cs))
      at_head d vd zero = vd
      at_head d vd (suc k) = ground arith
  at_chan-Changed (suc n) (c ∷ cs) (hc, h) e =
      let (ds, fd, hd, same) = at_chan-Changed n cs h e in
      (c ∷ ds, simp (fd, at_chan), (hc, hd), later ds same)
    where
      later :
          (ds : List Chan)
          → ((k : ℕ) → is_done k ds ≡ (if k == n then v else is_done k cs))
          → (k : ℕ) → is_done k (c ∷ ds) ≡ (if k == suc n then v else is_done k (c ∷ cs))
      later ds same zero = ground arith
      later ds same (suc k) = ground (arith, same k)

offer-change :
    (ev : SseEvent) (c : Chan)
    → IsChanSound c
    → c.done ≡ false
    → (d : Chan) × (offer ev c ≡ some d) × IsChanSound d × (d.done ≡ false)
unfolding offer
offer-change ev c (e, h) open_c = elim (Bool-cases (ltb (length c.buffer) buffer_size)) [
  | inl lt ↦ (
    record c { buffer = c.buffer ++ ev ∷ [] },
    ground arith,
    (e, ground (arith, length-append c.buffer (ev ∷ []))),
    open_c,
  )
  | inr ge ↦ (c, ground arith, (e, h), open_c)
]

close_chan-change :
    (c : Chan)
    → IsChanSound c
    → c.done ≡ false
    → (d : Chan) × (close_chan c ≡ some d) × IsChanSound d × (d.done ≡ true)
unfolding close_chan
close_chan-change c (e, h) open_c =
    (record c { closed = true; done = true }, ground arith, (refl, h), refl)

take_event-change :
    (w : Bool) (c : Chan)
    → IsChanSound c
    → c.done ≡ w
    → (d : Chan) × (take_event c ≡ some d) × IsChanSound d × (d.done ≡ w)
unfolding take_event
take_event-change w c (e, h) hw = elim (List-cases c.buffer) [
  | inl none_left ↦ (c, simp (none_left, take_event), (e, h), hw)
  | inr (ev, evs, filled) ↦ (
    record c { buffer = evs },
    simp (filled, take_event),
    (e, omega (arith, ap length filled)),
    hw,
  )
]

All-same :
    (cs ds : List Chan) (ns : List ℕ)
    → ((k : ℕ) → is_done k cs ≡ false → is_done k ds ≡ false)
    → All (λ n. is_done n cs ≡ false) ns
    → All (λ n. is_done n ds ≡ false) ns
All-same cs ds [] same h = tt
All-same cs ds (n ∷ ns) same (e, h) = (same n e, All-same cs ds ns same h)

publish_to_sound :
    (ev : SseEvent) (ns subs : List ℕ) (cs : List Chan)
    → All IsChanSound cs
    → All (λ n. is_done n cs ≡ false) ns
    → All (λ n. is_done n cs ≡ false) subs
    → (ds : List Chan) × (publish_to ev ns cs ≡ some ds)
      × All IsChanSound ds
      × All (λ n. is_done n ds ≡ false) subs
unfolding publish_to
publish_to_sound ev [] subs cs h hn hs = (cs, refl, h, hs)
publish_to_sound ev (n ∷ ns) subs cs h (e, hn) hs =
    let (ds, fd, hd, same) =
      at_chan-Changed (offer ev) false false (offer-change ev) (λ x. x) n cs h e in
    let kept : (k : ℕ) → is_done k cs ≡ false → is_done k ds ≡ false =
      λ k o. ground (arith, same k) in
    let (es, fe, he, hes) =
      publish_to_sound ev ns subs ds hd (All-same cs ds ns kept hn) (All-same cs ds subs kept hs) in
    (es, rw (fd, publish_to) fe, he, hes)

-- The steps of the bus.
abbrev Goes : Option EventBus → Type 0
Goes r = (b : EventBus) × (r ≡ some b) × IsSound b

publish-Goes : (ev : SseEvent) (b : EventBus) → IsSound b → Goes (publish ev b)
unfolding publish
publish-Goes ev b h =
    let (cs, e, hc, hs) =
      publish_to_sound ev b.subs b.subs b.chans h.channels h.open_subs h.open_subs in
    (record b { chans = cs }, simp (e, publish), record { channels = hc; open_subs = hs })

delete_sub-open :
    (n : ℕ) (cs ds : List Chan) (ns : List ℕ)
    → ((k : ℕ) → is_done k ds ≡ (if k == n then true else is_done k cs))
    → All (λ k. is_done k cs ≡ false) ns
    → All (λ k. is_done k ds ≡ false) (delete_sub n ns)
unfolding delete_sub
delete_sub-open n cs ds [] same h = tt
delete_sub-open n cs ds (k ∷ ns) same (e, h) = elim (Bool-cases (k == n)) [
  | inl hit ↦ rw hit (delete_sub-open n cs ds ns same h)
  | inr miss ↦ rw miss (ground (arith, same k), delete_sub-open n cs ds ns same h)
]

unsubscribe-Goes : (n : ℕ) (b : EventBus) → IsSound b → Goes (unsubscribe n b)
unfolding unsubscribe
unsubscribe-Goes n b h = elim (Bool-cases (is_done n b.chans)) [
  | inl e ↦ (b, rw e refl, h)
  | inr e ↦
      let (ds, fd, hd, same) =
        at_chan-Changed close_chan false true close_chan-change (λ x. refl) n b.chans h.channels
          e in
      (
        record { chans = ds; subs = delete_sub n b.subs },
        simp (e, fd),
        record { channels = hd; open_subs = delete_sub-open n b.chans ds b.subs same h.open_subs },
      )
]

receive-Goes : (n : ℕ) (b : EventBus) → IsSound b → Goes (act (receiving n) b)
unfolding act
receive-Goes n b h =
    let w = is_done n b.chans in
    let (ds, fd, hd, same) =
      at_chan-Changed take_event w w (take_event-change w) (λ x. x) n b.chans h.channels refl in
    (
      record b { chans = ds },
      simp (fd, act),
      record {
        channels = hd;
        open_subs = All-same b.chans ds b.subs (λ k o. ground (arith, same k)) h.open_subs;
      },
    )

is_done-append :
    (n : ℕ) (cs : List Chan) (c : Chan) → is_done n cs ≡ false → is_done n (cs ++ c ∷ []) ≡ false
is_done-append n [] c h = cc
is_done-append zero (d ∷ cs) c h = h
is_done-append (suc n) (d ∷ cs) c h = is_done-append n cs c h

is_done-length : (cs : List Chan) (c : Chan) → is_done (length cs) (cs ++ c ∷ []) ≡ c.done
is_done-length [] c = refl
is_done-length (d ∷ cs) c = is_done-length cs c

subscribe-IsSound : (b : EventBus) → IsSound b → IsSound (subscribe b)
unfolding subscribe
subscribe-IsSound b h =
    let c : Chan = record { buffer = []; closed = false; done = false } in
    record {
      channels = All-append IsChanSound b.chans (c ∷ []) h.channels ((refl, omega arith), tt);
      open_subs =
          All-append (λ n. is_done n (b.chans ++ c ∷ []) ≡ false) b.subs (length b.chans ∷ [])
            (All-same b.chans (b.chans ++ c ∷ []) b.subs (λ k. is_done-append k b.chans c)
              h.open_subs)
            (is_done-length b.chans c, tt);
    }

act-Goes : (a : Action) (b : EventBus) → IsSound b → Goes (act a b)
unfolding act
act-Goes subscribing b h = (subscribe b, refl, subscribe-IsSound b h)
act-Goes (publishing ev) b h = publish-Goes ev b h
act-Goes (unsubscribing n) b h = unsubscribe-Goes n b h
act-Goes (receiving n) b h = receive-Goes n b h

run-Goes : (actions : List Action) (b : EventBus) → IsSound b → Goes (run actions b)
unfolding run
run-Goes [] b h = (b, refl, h)
run-Goes (a ∷ later) b h =
    let (c, e, hc) = act-Goes a b h in
    let (d, f, hd) = run-Goes later c hc in (d, simp (e, run) (f), hd)

-- In every order of subscribing, publishing, unsubscribing and receiving, no call panics by a send on
-- or a close of a closed channel, every buffer holds at most 32 events, a channel is closed exactly when
-- its unsubscribe function has run, and the channels of the subscribers are open.
pub run-IsSound :
    (actions : List Action) → (b : EventBus) × (run actions new_event_bus ≡ some b) × IsSound b
run-IsSound actions = run-Goes actions new_event_bus (record { channels = tt; open_subs = tt })
