-- ===== src/Tests/Fanning.antt =====
-- A connection whose client goes, and the rows that a client is sent.
use deepfeeder.Base.{
  ℕ, String, ◌≡◌, refl, true, false, ◌||◌, Option, none, some, List, [], ◌∷◌, ◌++◌, map, str_eq,
}
use deepfeeder.Base.Dict.{lookup, insert}
use deepfeeder.Json.{Json, text, bool, num, Object, get, put, split_after, strip_prefix}
use deepfeeder.MarketFeeder.{Feeder}
use deepfeeder.MarketFeeder.Calls.{new_feeder}
use deepfeeder.Fanout.{
  send, web_socket_disconnect, runtime_error, cancelled_error, Step, emits, runs, receives,
  after_steps, attached, adapt_bar_row, ts_to_iso, as_text, res_from_schema,
}
use deepfeeder.Fanout.Held.{emitted, after_steps-serving}
use deepfeeder.Fanout.Released.{IsTidy, after_steps-IsTidy}
use deepfeeder.Client.{Readings, ClientBar, bar_from_row, through, time_or_now}
use deepfeeder.Client.Rows.{when, bar_from_row-adapt_bar_row}

abbrev feeder : Feeder ℕ
feeder = new_feeder

-- The client goes after the first envelope; a listener goes on.
abbrev gone : List (Step ℕ)
gone =
    runs true
    ∷ receives (some web_socket_disconnect)
    ∷ emits 2
    ∷ receives (some runtime_error)
    ∷ runs true
    ∷ emits 3
    ∷ []

after_steps-serving_example :
    let c = after_steps gone (attached "k:7" (1 ∷ []) feeder) in
    (waiting : List ℕ) × (c.serving ≡ true)
    × (c.feeder ≡ feeder)
    × (c.jobs ≡ map send waiting)
    × (c.sent ++ waiting ≡ (1 ∷ []) ++ emitted gone)
after_steps-serving_example = after_steps-serving gone "k:7" (1 ∷ []) feeder tt

-- A failed send releases the handle once, also when the handler is cancelled.
abbrev failing : List (Step ℕ)
failing = runs false ∷ emits 2 ∷ runs true ∷ receives (some cancelled_error) ∷ []

released_once : (after_steps failing (attached "k:7" (1 ∷ []) feeder)).unsub_done ≡ true
unfolding after_steps attached
released_once = refl

after_steps-IsTidy_example :
    IsTidy "k:7" feeder (after_steps failing (attached "k:7" (1 ∷ []) feeder))
after_steps-IsTidy_example = after_steps-IsTidy "k:7" feeder failing (1 ∷ [])

abbrev readings : Readings ℕ ℕ ℕ
readings = record {
  coerce_float = number;
  coerce_int = number;
  parse_ts = number;
  str = λ v. "BTCUSDT";
  nonzero = λ n. true;
  now = 99;
}
  where
    number : Json ℕ → Option ℕ
    number (num n) = some n
    number (text s) = none
    number (bool b) = none

abbrev iso : Json ℕ → String
iso v = "1970-01-01T00:00:00Z"

abbrev bar_row : Object ℕ
bar_row = ("Symbol", some (text "BTCUSDT")) ∷ ("Open", some (num 7)) ∷ ("Close", some (num 8)) ∷ []

abbrev open_only : Option (List String)
open_only = some ("Open" ∷ [])

abbrev expected : ClientBar ℕ ℕ ℕ
expected = record {
  provider = "binance";
  symbol = "BTCUSDT";
  timestamp = 99;
  open_ = some 7;
  high = none;
  low = none;
  close = none;
  volume = none;
  exchange = none;
  bar_id = none;
  res = some (text "5m");
  closed = some true;
}

bar_arrives :
    bar_from_row readings "binance"
      (adapt_bar_row iso "binance" "ohlcv_5m" "completed" open_only bar_row)
    ≡ expected
unfolding bar_from_row adapt_bar_row lookup insert put split_after strip_prefix
bar_arrives = refl

bar_from_row-adapt_bar_row_example :
    bar_from_row readings "binance"
      (adapt_bar_row iso "binance" "ohlcv_5m" "completed" open_only bar_row)
    ≡ record {
      provider = "binance";
      symbol = readings.str (get "Symbol" bar_row);
      timestamp = time_or_now readings (ts_to_iso iso (get "Timestamp" bar_row));
      open_ = through readings.coerce_float (when open_only "Open" bar_row);
      high = through readings.coerce_float (when open_only "High" bar_row);
      low = through readings.coerce_float (when open_only "Low" bar_row);
      close = through readings.coerce_float (when open_only "Close" bar_row);
      volume = through readings.coerce_float (when open_only "Volume" bar_row);
      exchange = when open_only "Exchange" bar_row;
      bar_id = through readings.coerce_int (when open_only "BarId" bar_row);
      res = as_text (res_from_schema "ohlcv_5m");
      closed = some (str_eq "completed" "completed" || str_eq "completed" "snapshot");
    }
bar_from_row-adapt_bar_row_example =
    bar_from_row-adapt_bar_row readings iso "binance" "ohlcv_5m" "completed" open_only bar_row
