-- ===== src/Server/Examples.antt =====
-- Parts of internal/server at concrete inputs.
mod Latencies
use pincher_mcp.Prelude.{ℕ, ◌≤◌, ◌≡◌, refl, arith, true, false, List, [], ◌∷◌, some, codes, drop}
use pincher_mcp.Server.Pages.{slice_window, parse_page_params}
use pincher_mcp.Server.Pages.Tiling.{read_pages, slice_window-tiles}
use pincher_mcp.Server.Events.{
  SseEvent, EventBus, new_event_bus, Action, subscribing, publishing, unsubscribing, receiving, run,
}
use pincher_mcp.Server.Events.Safety.{IsSound, run-IsSound}

-- A limit above the greatest one is clamped, and a bad offset is the default.
params_clamped :
    (parse_page_params (codes "99999") (codes "-3") 50 200 ≡ record { limit = 200; offset = 0 })
    × (parse_page_params (codes "+7") (codes "12") 50 200 ≡ record { limit = 7; offset = 12 })
unfolding parse_page_params
params_clamped = (refl, refl)

abbrev five : List ℕ
five = 10 ∷ 11 ∷ 12 ∷ 13 ∷ 14 ∷ []

last_page :
    slice_window five (record { limit = 2; offset = 4 })
    ≡ record { page = 14 ∷ []; total = 5; has_more = false }
unfolding slice_window
last_page = refl

slice_window-tiles_example :
    (1 ≤ (parse_page_params (codes "2") (codes "1") 50 200).limit)
    × ((parse_page_params (codes "2") (codes "1") 50 200).limit ≤ 200)
    × (read_pages 6 five (parse_page_params (codes "2") (codes "1") 50 200)
        ≡ drop (parse_page_params (codes "2") (codes "1") 50 200).offset five)
slice_window-tiles_example =
    slice_window-tiles five (codes "2") (codes "1") 50 200 (omega arith) (omega arith)

abbrev index_started : SseEvent
index_started = record { kind = codes "index_started"; project_id = codes "p" }

-- The second subscriber leaves twice, and the first receives what was published.
abbrev session : List Action
session =
    subscribing
    ∷ subscribing
    ∷ publishing index_started
    ∷ unsubscribing 1
    ∷ unsubscribing 1
    ∷ publishing index_started
    ∷ receiving 0
    ∷ []

session_left :
    run session new_event_bus
    ≡ some (record {
      chans =
          record { buffer = index_started ∷ []; closed = false; done = false }
          ∷ record { buffer = index_started ∷ []; closed = true; done = true }
          ∷ [];
      subs = 0 ∷ [];
    })
unfolding run
session_left = refl

run-IsSound_example : (b : EventBus) × (run session new_event_bus ≡ some b) × IsSound b
run-IsSound_example = run-IsSound session
