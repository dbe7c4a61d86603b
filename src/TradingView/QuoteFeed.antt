-- ===== src/TradingView/QuoteFeed.antt =====
-- feeder_server/data/app.d/providers/tradingview/producer_ws.py: messages, batches and turns of the
-- websocket loop. `self._batch` is one list object that `publish` puts in its envelope and that is then
-- cleared: `shared` has the ids of the envelopes whose rows are that object, and the bus keeps each as
-- it was published. json.loads is a parameter. What the callers do with an exception of a
-- publish, which is a note, or the end of the thread after the last flush, is left out.
use deepfeeder.Base.{
  ℕ, ◌+◌, ◌*◌, min, Bool, true, false, ◌||◌, Option, none, some, List, [], ◌∷◌, ◌++◌, map, length,
  leb, ◌==◌, if◌then◌else◌,
}
use deepfeeder.Base.Dict.{Dict}
use deepfeeder.Contracts.{Tick, Envelope}
use deepfeeder.EventStore.Interface.{EventStore}
use deepfeeder.EventBus.{Bus, publish}
use deepfeeder.TradingView.Frames.{Text, starts_with, iter_frames}
use deepfeeder.TradingView.Quotes.{Floats, Symbol, Update, Quote, quote_one}

-- `refused_at` is whether a publish at a time raises, which is before the event store has the batch.
pub record FeedConfig : Type 0 where
  pub batch_size : ℕ
  pub flush_interval : ℕ
  pub refused_at : ℕ → Bool

-- A message that json.loads takes: "qsd" with the second entry of p as a list of updates, which is empty
-- where p is shorter, or another message.
pub data Message (R : Type 0) : Type 0 where
  qsd : List (Update R) → Message R
  other : Message R

abbrev pub member : ℕ → List ℕ → Bool
member x [] = false
member x (y ∷ ys) = x == y || member x ys

abbrev pub is_empty : {A : Type 0} → List A → Bool
is_empty [] = true
is_empty (x ∷ xs) = false

-- `backoff` in seconds, without the random part of a sleep, and the sleep itself.
unfoldable pub next_backoff : Bool → ℕ → ℕ × ℕ
next_backoff raised backoff =
    let slept = if raised then backoff else 1 in (slept, min (slept * 2) 15)

module _ {F : Type 0} (st : EventStore (Quote F)) where
  pub record Feed : Type 0 where
    pub bus : Bus st
    pub shared : List ℕ
    pub symbols : Dict (Symbol F)
    pub batch : List (Tick (Quote F))
    pub last_flush : ℕ
    pub msg_count : ℕ

  -- `self.bus.publish(self._batch)`, and the clearing of the list also where that raises.
  unfoldable pub publish_batch_object : FeedConfig → ℕ → Feed → Feed
  publish_batch_object cfg now s =
      if cfg.refused_at now
      then record s { batch = []; last_flush = now }
      else let (bus, id) = publish st now s.batch s.bus in
        record s { bus = bus; shared = id ∷ s.shared; batch = []; last_flush = now }

  abbrev pub due : FeedConfig → Bool → ℕ → Feed → Bool
  due cfg force now s =
      force || (leb cfg.batch_size (length s.batch) || leb (s.last_flush + cfg.flush_interval) now)

  -- `_flush_if_needed`
  unfoldable pub flush_if_needed : FeedConfig → Bool → ℕ → Feed → Feed
  unfolding publish_batch_object
  flush_if_needed cfg force now s =
      if is_empty s.batch
      then s
      else if due cfg force now s
      then publish_batch_object cfg now s
      else s

  unfoldable pub take_tick : FeedConfig → ℕ → Option (Tick (Quote F)) → Feed → Feed
  unfolding flush_if_needed
  take_tick cfg now none s = s
  take_tick cfg now (some t) s =
      flush_if_needed cfg false now
        (record s { batch = s.batch ++ t ∷ []; msg_count = s.msg_count + 1 })

  abbrev pub seen_envelope : Feed → Envelope (Quote F) → Envelope (Quote F)
  seen_envelope s e =
      if member e.batch_id s.shared
      then record { batch_id = e.batch_id; draft = record e.draft { rows = s.batch } }
      else e

  -- The bus as its consumers find it: the rows of an envelope that holds the batch's list are what the
  -- list has now.
  unfoldable pub seen : Feed → Bus st
  seen s = record s.bus { buf = map (seen_envelope s) s.bus.buf }

module _ {R F : Type 0} (st : EventStore (Quote F)) (floats : Floats R F) where
  -- `_handle_qsd`
  unfoldable pub handle_qsd : FeedConfig → List (Update R) → Feed st → Feed st
  unfolding take_tick
  handle_qsd cfg [] s = s
  handle_qsd cfg (u ∷ us) s =
      let (symbols, out) = quote_one floats u s.symbols in
      handle_qsd cfg us (take_tick st cfg u.at out (record s { symbols = symbols }))

  unfoldable pub handle_message : FeedConfig → Message R → Feed st → Feed st
  unfolding handle_qsd
  handle_message cfg (qsd us) s = handle_qsd cfg us s
  handle_message cfg other s = s

  -- The body of `_on_message`: heartbeats and what json.loads refuses are passed over.
  unfoldable pub handle_frame : FeedConfig → (Text → Option (Message R)) → Text → Feed st → Feed st
  unfolding handle_message
  handle_frame cfg loads fr s =
      if starts_with fr (b'~' ∷ b'h' ∷ b'~' ∷ [])
      then s
      else elim (loads fr) [ none ↦ s | some msg ↦ handle_message cfg msg s ]

  unfoldable pub handle_frames :
      FeedConfig → (Text → Option (Message R)) → List Text → Feed st → Feed st
  unfolding handle_frame
  handle_frames cfg loads [] s = s
  handle_frames cfg loads (fr ∷ frs) s = handle_frames cfg loads frs (handle_frame cfg loads fr s)

  -- `_on_message`
  unfoldable pub on_message : FeedConfig → (Text → Option (Message R)) → Text → Feed st → Feed st
  unfolding handle_frames
  on_message cfg loads raw s = handle_frames cfg loads (iter_frames raw) s

  unfoldable pub on_messages :
      FeedConfig → (Text → Option (Message R)) → List Text → Feed st → Feed st
  unfolding on_message
  on_messages cfg loads [] s = s
  on_messages cfg loads (raw ∷ raws) s = on_messages cfg loads raws (on_message cfg loads raw s)

  -- A turn of `_run`: the messages of a connection, its end, and the forced flush.
  unfoldable pub run_turn :
      FeedConfig → (Text → Option (Message R)) → List Text → ℕ → Feed st → Feed st
  unfolding on_messages flush_if_needed
  run_turn cfg loads raws ended s = flush_if_needed st cfg true ended (on_messages cfg loads raws s)
