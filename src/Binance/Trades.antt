-- ===== src/Binance/Trades.antt =====
-- Messages, batches and turns of the websocket loop. `publish` gets a copy of the batch. What json.loads
-- and the readings of values answer is from outside, and so is whether a publish raises, which is before
-- the event store has the batch.
use deepfeeder.Base.{
  ℕ, ◌+◌, ◌*◌, min, String, Bool, true, false, ◌||◌, Option, none, some, List, [], ◌∷◌, ◌++◌,
  length, leb, if◌then◌else◌,
}
use deepfeeder.Base.Options.{◌>>=◌}
use deepfeeder.Base.Dict.{lookup}
use deepfeeder.Contracts.{Tick}
use deepfeeder.EventStore.Interface.{EventStore}
use deepfeeder.EventBus.{Bus, publish}
use deepfeeder.Json.{Json, Object, get, joined, truthy_json}

-- `int` and `float` of a value, which may raise; `nonzero` is the truth of a number, and `symbol` the
-- value under "s" as a text.
pub record TradeReadings (N F : Type 0) : Type 0 where
  pub int : Json N → Option ℕ
  pub float : Json N → Option F
  pub nonzero : N → Bool
  pub symbol : Option (Json N) → String

pub record TradePayload (F : Type 0) : Type 0 where
  pub price : F
  pub quantity : F
  pub buyer_id : ℕ
  pub seller_id : ℕ
  pub is_buyer_maker : Bool

-- What json.loads answers: an object with a "data", which may be no object, or one without.
pub data Loaded (N : Type 0) : Type 0 where
  wrapped : Option (Object N) → Loaded N
  plain : Object N → Loaded N

-- `m.get("data", m)`
abbrev pub data_of : {N : Type 0} → Loaded N → Option (Object N)
data_of (wrapped d) = d
data_of (plain m) = some m

module _ {N F : Type 0} (rd : TradeReadings N F) where
  -- `int(d.get(k, 0))`
  abbrev pub int_or_zero : Option (Option (Json N)) → Option ℕ
  int_or_zero none = some 0
  int_or_zero (some v) = v >>= rd.int

  -- `trade_json_to_tick`; `none` is an exception.
  unfoldable pub trade_json_to_tick : Object N → Option (Tick (TradePayload F))
  trade_json_to_tick msg = do
    s ← lookup "s" msg
    ms ← get "T" msg >>= rd.int
    t ← get "t" msg >>= rd.int
    p ← get "p" msg >>= rd.float
    q ← get "q" msg >>= rd.float
    b ← int_or_zero (lookup "b" msg)
    a ← int_or_zero (lookup "a" msg)
    some (record {
      provider = "binance";
      stream = "trades";
      symbol = rd.symbol s;
      ts_ns = ms * 1000000;
      seq = some t;
      payload = record {
        price = p;
        quantity = q;
        buyer_id = b;
        seller_id = a;
        is_buyer_maker = truthy_json rd.nonzero (joined (lookup "m" msg));
      };
      is_final = true;
    })

  -- The tick of a message, where nothing raises.
  unfoldable pub read_trade : (String → Option (Loaded N)) → String → Option (Tick (TradePayload F))
  unfolding trade_json_to_tick
  read_trade loads message = do m ← loads message; d ← data_of m; trade_json_to_tick d

pub record LiveConfig : Type 0 where
  pub live_batch_size : ℕ
  pub live_interval : ℕ

-- What `_last_error` is the text of.
pub data LiveError : Type 0 where
  message_error publish_error loop_error : LiveError

-- A message, its time, and whether the publish that it may cause raises.
pub record Incoming : Type 0 where
  pub message : String
  pub at : ℕ
  pub refused : Bool

-- The end of a connection: its time, whether run_forever raised, whether the stop event is set, and
-- whether the publish of the forced flush raises.
pub record Closing : Type 0 where
  pub ended_at : ℕ
  pub loop_raised : Bool
  pub stop_set : Bool
  pub last_refused : Bool

module _ {F : Type 0} (st : EventStore (TradePayload F)) where
  -- `running` is that the loop of `_run` goes on.
  pub record Live : Type 0 where
    pub live_bus : Bus st
    pub live_batch : List (Tick (TradePayload F))
    pub last_flush_at : ℕ
    pub live_count : ℕ
    pub last_error : Option LiveError
    pub live_backoff : ℕ
    pub running : Bool

  abbrev pub published : Bool → ℕ → Live → Live
  published true now s = record s { live_batch = []; last_flush_at = now }
  published false now s = record s {
    live_bus = (publish st now s.live_batch s.live_bus).0;
    live_batch = [];
    last_flush_at = now;
  }

  abbrev pub flush_due : LiveConfig → Bool → ℕ → Live → Bool
  flush_due cfg force now s =
      force
      || (leb cfg.live_batch_size (length s.live_batch)
          || leb (s.last_flush_at + cfg.live_interval) now)

  abbrev pub flush_filled :
      LiveConfig → Bool → Bool → ℕ → Live → List (Tick (TradePayload F)) → Live × Bool
  flush_filled cfg refused force now s [] = (s, false)
  flush_filled cfg refused force now s (t ∷ ts) =
      if flush_due cfg force now s then (published refused now s, refused) else (s, false)

  -- `_flush_if_needed`, and whether it raises.
  unfoldable pub flush_live : LiveConfig → Bool → Bool → ℕ → Live → Live × Bool
  flush_live cfg refused force now s = flush_filled cfg refused force now s s.live_batch

  abbrev pub noted : Live × Bool → Live
  noted (s, false) = s
  noted (s, true) = record s { last_error = some publish_error }

  unfoldable pub take_trade : LiveConfig → Incoming → Option (Tick (TradePayload F)) → Live → Live
  unfolding flush_live
  take_trade cfg m none s = record s { last_error = some message_error }
  take_trade cfg m (some t) s = noted (
      flush_live cfg m.refused false m.at
        (record s { live_batch = s.live_batch ++ t ∷ []; live_count = s.live_count + 1 }))

  -- How a turn of the loop ends after its flush.
  abbrev pub loop_on : Closing → Live × Bool → Live
  loop_on c (s, true) = record s { running = false }
  loop_on c (s, false) =
      if c.stop_set
      then record s { running = false }
      else record s { live_backoff = min (s.live_backoff * 2) 15 }

  -- The connection has ended, by itself or by an exception.
  abbrev pub disconnected : Closing → Live → Live
  disconnected c s =
      if c.loop_raised
      then record s { last_error = some loop_error }
      else record s { live_backoff = 1 }

module _ {N F : Type 0} (st : EventStore (TradePayload F)) (rd : TradeReadings N F)
    (loads : String → Option (Loaded N)) (cfg : LiveConfig) where
  -- `_on_message`
  unfoldable pub on_trade : Incoming → Live st → Live st
  unfolding read_trade take_trade
  on_trade m s = take_trade st cfg m (read_trade rd loads m.message) s

  unfoldable pub on_trades : List Incoming → Live st → Live st
  unfolding on_trade
  on_trades [] s = s
  on_trades (m ∷ ms) s = on_trades ms (on_trade m s)

  -- A turn of `_run`: the messages of a connection, its end, the forced flush and the next backoff.
  unfoldable pub live_turn : List Incoming → Closing → Live st → Live st
  unfolding on_trades flush_live
  live_turn ms c s =
      loop_on st c
        (flush_live st cfg c.last_refused true c.ended_at (disconnected st c (on_trades ms s)))
