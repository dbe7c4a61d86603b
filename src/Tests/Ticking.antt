-- ===== src/Tests/Ticking.antt =====
-- The websocket producer of Binance over a wrapped message, one that is no JSON, and a plain one, in
-- batches of two.
use deepfeeder.EventStore.Codec.{arrow_to_ticks, ticks_to_arrow}
use deepfeeder.EventStore.DuckDb.{append}
use deepfeeder.Base.{
  ℕ, ◌≡◌, refl, String, true, false, Option, none, some, List, [], ◌∷◌, ◌++◌, map, str_eq,
  if◌then◌else◌,
}
use deepfeeder.Base.Dict.{lookup}
use deepfeeder.Contracts.{Tick}
use deepfeeder.EventStore.Interface.{EventStore}
use deepfeeder.EventStore.Laws.{duckdb_event_store}
use deepfeeder.EventBus.{new_bus, publish}
use deepfeeder.EventBus.Rows.{all_rows}
use deepfeeder.EventBus.Delivery.{IsHot}
use deepfeeder.EventBus.Backlog.{new_bus-IsHot}
use deepfeeder.Json.{Json, text, num, Object}
use deepfeeder.Binance.{
  TradeReadings, TradePayload, Loaded, wrapped, plain, LiveConfig, Incoming, Closing, Live,
  live_turn, read_trade,
}
use deepfeeder.Binance.Published.{trades_of, live_turn-stores}
use deepfeeder.Tests.Storing.{columns_of, empty_db_of, empty_db_of-IsValid}

abbrev number_of : Json ℕ → Option ℕ
number_of (num n) = some n
number_of other = none

abbrev text_of : Option (Json ℕ) → String
text_of (some (text s)) = s
text_of other = ""

abbrev readings : TradeReadings ℕ ℕ
readings = record { int = number_of; float = number_of; nonzero = λ n. true; symbol = text_of }

abbrev trade_of : ℕ → Object ℕ
trade_of id =
    ("s", some (text "BTCUSDT"))
    ∷ ("T", some (num 7))
    ∷ ("t", some (num id))
    ∷ ("p", some (num 100))
    ∷ ("q", some (num 1))
    ∷ []

abbrev json_loads : String → Option (Loaded ℕ)
json_loads s =
    if str_eq s "wrapped"
    then some (wrapped (some (trade_of 5)))
    else if str_eq s "plain"
    then some (plain (trade_of 6))
    else none

abbrev incoming : String → Incoming
incoming s = record { message = s; at = 1; refused = false }

abbrev messages : List Incoming
messages = incoming "wrapped" ∷ incoming "noise" ∷ incoming "plain" ∷ incoming "wrapped" ∷ []

abbrev closing : Closing
closing = record { ended_at = 2; loop_raised = true; stop_set = false; last_refused = false }

abbrev store : EventStore (TradePayload ℕ)
store = duckdb_event_store (columns_of (TradePayload ℕ))

abbrev live : Live store
live = record {
  live_bus = new_bus store (empty_db_of (TradePayload ℕ)) 8;
  live_batch = [];
  last_flush_at = 0;
  live_count = 0;
  last_error = none;
  live_backoff = 8;
  running = true;
}

abbrev config : LiveConfig
config = record { live_batch_size = 2; live_interval = 1000 }

abbrev turned : Live store
turned = live_turn store readings json_loads config messages closing live

-- Three ticks in two envelopes, and a backoff of 15 seconds after 8.
stored_trades :
    (map
        (λ (t : Tick (TradePayload ℕ)). t.seq)
        (all_rows (store.stored turned.live_bus.event_store))
      ≡ some 5 ∷ some 6 ∷ some 5 ∷ [])
    × (turned.live_backoff ≡ 15)
    × (turned.live_count ≡ 3)
unfolding live_turn read_trade lookup publish append new_bus arrow_to_ticks ticks_to_arrow
stored_trades = (refl, refl, refl)

live_turn-stores_example :
    IsHot store turned.live_bus
    × (turned.live_batch ≡ [])
    × (all_rows (store.stored turned.live_bus.event_store)
        ≡ (all_rows (store.stored live.live_bus.event_store) ++ live.live_batch)
          ++ trades_of readings json_loads messages)
live_turn-stores_example =
    live_turn-stores store readings json_loads config messages closing live
      (refl, (refl, (refl, (refl, tt)))) refl
      (new_bus-IsHot store (empty_db_of (TradePayload ℕ)) 8 (empty_db_of-IsValid (TradePayload ℕ))
        refl)
