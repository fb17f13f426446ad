-- ===== src/Server/Events.antt =====
-- The event bus of internal/server/eventbus.go. A channel is its place in the list of all channels that
-- were made. The mutex makes a call one step; a reader takes one event in a step.
pub mod Safety
use pincher_mcp.Prelude.{
  ℕ, zero, suc, Bool, true, false, not, List, [], ◌∷◌, ◌++◌, Option, none, some, if◌then◌else◌, ltb,
  ◌==◌, Bytes, length,
}

-- `sseEvent`, without its payload
pub record SseEvent : Type 0 where
  pub kind : Bytes
  pub project_id : Bytes

-- A channel with the `sync.Once` of its unsubscribe function.
pub record Chan : Type 0 where
  pub buffer : List SseEvent
  pub closed : Bool
  pub done : Bool

-- `subs`, the keys of the map, and all channels made so far.
pub record EventBus : Type 0 where
  pub chans : List Chan
  pub subs : List ℕ

abbrev pub new_event_bus : EventBus
new_event_bus = record { chans = []; subs = [] }

abbrev pub buffer_size : ℕ
buffer_size = 32

unfoldable pub subscribe : EventBus → EventBus
subscribe b = record {
  chans = b.chans ++ record { buffer = []; closed = false; done = false } ∷ [];
  subs = b.subs ++ length b.chans ∷ [];
}

-- A send in a `select` with a default: a full channel is left as it is. `none` is the panic of a send
-- on a closed channel.
unfoldable pub offer : SseEvent → Chan → Option Chan
offer ev c =
    if c.closed
    then none
    else if ltb (length c.buffer) buffer_size
    then some (record c { buffer = c.buffer ++ ev ∷ [] })
    else some c

-- Change one channel; `none` is a panic.
unfoldable pub at_chan : ℕ → (Chan → Option Chan) → List Chan → Option (List Chan)
at_chan n f [] = some []
at_chan zero f (c ∷ cs) = elim (f c) [ none ↦ none | some d ↦ some (d ∷ cs) ]
at_chan (suc n) f (c ∷ cs) = elim (at_chan n f cs) [ none ↦ none | some ds ↦ some (c ∷ ds) ]

unfoldable pub publish_to : SseEvent → List ℕ → List Chan → Option (List Chan)
unfolding offer at_chan
publish_to ev [] cs = some cs
publish_to ev (n ∷ ns) cs = elim (at_chan n (offer ev) cs) [
  | none ↦ none
  | some ds ↦ publish_to ev ns ds
]

unfoldable pub publish : SseEvent → EventBus → Option EventBus
unfolding publish_to
publish ev b = elim (publish_to ev b.subs b.chans) [
  | none ↦ none
  | some cs ↦ some (record b { chans = cs })
]

-- `delete(b.subs, ch)`
unfoldable pub delete_sub : ℕ → List ℕ → List ℕ
delete_sub n [] = []
delete_sub n (k ∷ ks) = let rest = delete_sub n ks in if k == n then rest else k ∷ rest

-- `close(ch)`, which panics on a closed channel; the `Once` is done.
unfoldable pub close_chan : Chan → Option Chan
close_chan c = if c.closed then none else some (record c { closed = true; done = true })

abbrev pub is_done : ℕ → List Chan → Bool
is_done n [] = true
is_done zero (c ∷ cs) = c.done
is_done (suc n) (c ∷ cs) = is_done n cs

-- The unsubscribe function of a channel.
unfoldable pub unsubscribe : ℕ → EventBus → Option EventBus
unfolding at_chan close_chan delete_sub
unsubscribe n b =
    let closing : Option EventBus = elim (at_chan n close_chan b.chans) [
      | none ↦ none
      | some cs ↦ some (record { chans = cs; subs = delete_sub n b.subs })
    ] in
    if is_done n b.chans then some b else closing

-- A reader takes the oldest event.
unfoldable pub take_event : Chan → Option Chan
take_event c = elim c.buffer [ [] ↦ some c | ev ∷ evs ↦ some (record c { buffer = evs }) ]

pub data Action : Type 0 where
  subscribing : Action
  publishing : SseEvent → Action
  unsubscribing : ℕ → Action
  receiving : ℕ → Action

unfoldable pub act : Action → EventBus → Option EventBus
unfolding subscribe publish unsubscribe at_chan take_event
act subscribing b = some (subscribe b)
act (publishing ev) b = publish ev b
act (unsubscribing n) b = unsubscribe n b
act (receiving n) b = elim (at_chan n take_event b.chans) [
  | none ↦ none
  | some cs ↦ some (record b { chans = cs })
]

-- Actions one after another, in any order in which the mutex lets them happen.
unfoldable pub run : List Action → EventBus → Option EventBus
unfolding act
run [] b = some b
run (a ∷ later) b = elim (act a b) [ none ↦ none | some b2 ↦ run later b2 ]
