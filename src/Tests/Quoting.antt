-- ===== src/Tests/Quoting.antt =====
-- The websocket producer over two messages of one symbol, published one by one.
use deepfeeder.EventBus.Rows.{all_rows}
use deepfeeder.EventStore.Codec.{arrow_to_ticks, ticks_to_arrow}
use deepfeeder.EventStore.DuckDb.{append}
use deepfeeder.Base.{
  ℕ, ◌<◌, ◌≡◌, refl, Option, none, some, List, [], ◌∷◌, ◌++◌, map, All, inl, arith, ◌==◌,
  if◌then◌else◌, Any, ◌-◌, ltb, false,
}
use deepfeeder.Base.Dict.{lookup, insert}
use deepfeeder.Contracts.{Tick, Envelope}
use deepfeeder.EventStore.Interface.{EventStore}
use deepfeeder.EventStore.Laws.{duckdb_event_store}
use deepfeeder.EventBus.{new_bus, look, publish, evict}
use deepfeeder.TradingView.Frames.{Text, frame, iter_frames}
use deepfeeder.TradingView.RoundTrip.{frames, iter_frames-frames}
use deepfeeder.TradingView.{
  Floats, Update, Quote, add_symbols, FeedConfig, Message, qsd, Feed, run_turn, seen, quote_one,
}
use deepfeeder.TradingView.Kept.{text_quotes}
use deepfeeder.TradingView.Turns.{run_turn-stores, run_turn-empties}
use deepfeeder.Tests.Storing.{columns_of, empty_db_of, empty_db_of-IsValid}

abbrev same : Text → Text
same s = s

-- A text that holds the marker.
abbrev texts : List Text
texts = (b'~' ∷ b'm' ∷ b'~' ∷ b'7' ∷ []) ∷ (b'{' ∷ b'}' ∷ []) ∷ []

iter_frames-frames_example :
    iter_frames (frames same texts ++ b'!' ∷ []) ≡ map same texts ++ iter_frames (b'!' ∷ [])
iter_frames-frames_example = iter_frames-frames same texts (b'!' ∷ [])

read_back : iter_frames (frames same texts) ≡ texts
unfolding iter_frames frame
read_back = refl

abbrev floats : Floats ℕ ℕ
floats = record {
  price = some;
  zero_float = 0;
  sub = λ a b. a - b;
  positive = λ a. ltb 0 a;
  nanos = some;
}

abbrev update : ℕ → ℕ → Update ℕ
update at volume = record {
  at = at;
  n = "NASDAQ:AAPL";
  lp_time = none;
  lp = some 100;
  bid = none;
  ask = none;
  volume = some volume;
  ch = none;
  chp = none;
}

abbrev store : EventStore (Quote ℕ)
store = duckdb_event_store (columns_of (Quote ℕ))

abbrev feed : Feed store
feed = record {
  bus = new_bus store (empty_db_of (Quote ℕ)) 8;
  shared = [];
  symbols = add_symbols ((some "NASDAQ", "AAPL") ∷ []) [];
  batch = [];
  last_flush = 0;
  msg_count = 0;
}

abbrev cfg : FeedConfig
cfg = record { batch_size = 1; flush_interval = 1000; refused_at = λ now. false }

-- The message "1" updates the volume to 5, another one to 8.
abbrev loads : Text → Option (Message ℕ)
loads [] = none
loads (c ∷ s) = some (qsd ((if c == b'1' then update 10 5 else update 20 8) ∷ []))

abbrev raws : List Text
raws = frames same ((b'1' ∷ []) ∷ (b'2' ∷ []) ∷ []) ∷ []

abbrev turned : Feed store
turned = run_turn store floats cfg loads raws 30 feed

-- Both changes of volume are stored; both envelopes of the ring are empty.
stored_volumes :
    map
      (λ (t : Tick (Quote ℕ)). t.payload.vol_delta)
      (all_rows (store.stored turned.bus.event_store))
    ≡ 0 ∷ 3 ∷ []
unfolding run_turn iter_frames frame quote_one lookup add_symbols insert publish append new_bus
    arrow_to_ticks ticks_to_arrow
stored_volumes = refl

run_turn-stores_example :
    all_rows (store.stored turned.bus.event_store)
    ≡ ([] ++ []) ++ (text_quotes floats loads raws feed.symbols).1
unfolding new_bus
run_turn-stores_example =
    run_turn-stores store floats cfg (λ now. refl) loads raws 30 feed
      (empty_db_of-IsValid (Quote ℕ), tt)

turned_newer : Any (λ (e : Envelope (Quote ℕ)). 0 < e.batch_id) turned.bus.buf
unfolding run_turn iter_frames frame quote_one lookup add_symbols insert publish evict new_bus
    append
turned_newer = inl (omega arith)

run_turn-empties_example :
    (out : List (Envelope (Quote ℕ))) × (look store 0 8 (seen store turned) ≡ some out)
    × All (λ (e : Envelope (Quote ℕ)). e.rows ≡ []) out
unfolding new_bus
run_turn-empties_example =
    run_turn-empties store floats cfg (λ now. refl) loads raws 30 feed 0 8 (omega arith)
      (empty_db_of-IsValid (Quote ℕ), tt) turned_newer
