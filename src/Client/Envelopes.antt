-- ===== src/Client/Envelopes.antt =====
-- feeder_client/src/feeder_client/models.py, protocol.py and stream.py: what a client makes of an
-- envelope, and the configuration of a stream. The readings of numbers and times are parameters.
use deepfeeder.Base.{
  ℕ, String, Bool, true, false, Option, none, some, List, [], ◌∷◌, map, ltb, prefixed, str_eq,
  if◌then◌else◌,
}
use deepfeeder.Json.{Json, Object, get, strip_prefix, truthy_json, or_else}

-- `_coerce_float`, `_coerce_int`, `_parse_ts` on a value, str on what `get` gives, the truth of a
-- number, and the time of the clock.
pub record Readings (N F T : Type 0) : Type 0 where
  pub coerce_float : Json N → Option F
  pub coerce_int : Json N → Option ℕ
  pub parse_ts : Json N → Option T
  pub str : Option (Json N) → String
  pub nonzero : N → Bool
  pub now : T

pub record ClientBar (N F T : Type 0) : Type 0 where
  pub provider : String
  pub symbol : String
  pub timestamp : T
  pub open_ : Option F
  pub high : Option F
  pub low : Option F
  pub close : Option F
  pub volume : Option F
  pub exchange : Option (Json N)
  pub bar_id : Option ℕ
  pub res : Option (Json N)
  pub closed : Option Bool

pub record ClientTrade (N F T : Type 0) : Type 0 where
  pub provider : String
  pub symbol : String
  pub timestamp : T
  pub price : Option F
  pub quantity : Option F
  pub trade_id : Option (Json N)
  pub exchange : Option (Json N)
  pub is_buyer_maker : Option Bool
  pub buyer_id : Option (Json N)
  pub seller_id : Option (Json N)

abbrev pub through : {A B : Type 0} → (A → Option B) → Option A → Option B
through f none = none
through f (some a) = f a

abbrev pub else_now : {T : Type 0} → T → Option T → T
else_now now none = now
else_now now (some t) = t

module _ {N F T : Type 0} (rd : Readings N F T) where
  abbrev pub truth : Option (Json N) → Option Bool
  truth none = none
  truth (some v) = some (truthy_json rd.nonzero (some v))

  abbrev pub time_or_now : Option (Json N) → T
  time_or_now v = else_now rd.now (through rd.parse_ts v)

  -- `Bar.from_row`
  unfoldable pub bar_from_row : String → Object N → ClientBar N F T
  bar_from_row provider row = record {
    provider = provider;
    symbol = rd.str (get "Symbol" row);
    timestamp = time_or_now (get "Timestamp" row);
    open_ = through rd.coerce_float (get "Open" row);
    high = through rd.coerce_float (get "High" row);
    low = through rd.coerce_float (get "Low" row);
    close = through rd.coerce_float (get "Close" row);
    volume = through rd.coerce_float (get "Volume" row);
    exchange = get "Exchange" row;
    bar_id = through rd.coerce_int (get "BarId" row);
    res = get "Res" row;
    closed = truth (get "Closed" row);
  }

  -- `Trade.from_row`
  unfoldable pub trade_from_row : String → Object N → ClientTrade N F T
  trade_from_row provider row = record {
    provider = provider;
    symbol = rd.str (get "Symbol" row);
    timestamp = time_or_now (or_else rd.nonzero (get "Timestamp" row) (get "Ts" row));
    price = through rd.coerce_float (get "Price" row);
    quantity = through rd.coerce_float (get "Quantity" row);
    trade_id = get "TradeID" row;
    exchange = get "Exchange" row;
    is_buyer_maker = truth (get "IsBuyerMaker" row);
    buyer_id = get "BuyerID" row;
    seller_id = get "SellerID" row;
  }

-- An envelope as it comes, with none for what is missing or null; the texts of phase, part and
-- row_type are not empty, and `seq` is that of `meta`.
pub record RawEnvelope (N : Type 0) : Type 0 where
  pub version : Option ℕ
  pub phase : Option String
  pub part : Option String
  pub provider : String
  pub data_schema : Option String
  pub symbol : String
  pub rows : List (Object N)
  pub row_type : Option String
  pub seq : Option (Json N)
  pub watermark_ns : Option (Json N)

pub data Rows (N F T : Type 0) : Type 0 where
  bars : List (ClientBar N F T) → Rows N F T
  trades : List (ClientTrade N F T) → Rows N F T

pub record ClientEnvelope (N F T : Type 0) : Type 0 where
  pub version : ℕ
  pub phase : String
  pub part : Option String
  pub provider : String
  pub schema : Option String
  pub symbol : String
  pub rows : Rows N F T
  pub row_type : String
  pub seq : Option ℕ
  pub watermark_ns : Option ℕ

abbrev pub or_text : String → Option String → String
or_text d none = d
or_text d (some s) = s

abbrev pub or_one : Option ℕ → ℕ
or_one none = 1
or_one (some n) = n

abbrev pub inferred : Option String → String
inferred schema = elim (strip_prefix "ohlcv_" (or_text "" schema)) [
  | none ↦ "trade"
  | some rest ↦ "bar"
]

-- `ensure_compat`, true unless it raises.
unfoldable pub ensure_compat : ℕ → Bool
ensure_compat version = if ltb version 1 then false else true

module _ {N F T : Type 0} (rd : Readings N F T) where
  abbrev pub rows_parsed : String → String → List (Object N) → Rows N F T
  rows_parsed rt provider rows =
      if str_eq rt "bar"
      then bars (map (bar_from_row rd provider) rows)
      else trades (map (trade_from_row rd provider) rows)

  -- `adapt_envelope`; none is a ProtocolVersionError.
  unfoldable pub adapt_envelope : RawEnvelope N → Option (ClientEnvelope N F T)
  unfolding bar_from_row trade_from_row ensure_compat strip_prefix
  adapt_envelope env =
      let version = or_one env.version in
      let rt = or_text (inferred env.data_schema) env.row_type in
      if ensure_compat version
      then some (record {
        version = version;
        phase = or_text "live" env.phase;
        part = env.part;
        provider = env.provider;
        schema = env.data_schema;
        symbol = env.symbol;
        rows = rows_parsed rt env.provider env.rows;
        row_type = rt;
        seq = through rd.coerce_int env.seq;
        watermark_ns = through rd.coerce_int env.watermark_ns;
      })
      else none

-- `Stream`, and its configurations for bars and trades.
pub record Stream : Type 0 where
  pub provider : String
  pub schema : String
  pub symbol : String
  pub exchange : Option String
  pub fields : List String
  pub only_completed : Option Bool

abbrev pub bars_fields : List String
bars_fields = "Timestamp" ∷ "Open" ∷ "High" ∷ "Low" ∷ "Close" ∷ "Volume" ∷ "BarId" ∷ []

abbrev pub trades_fields : List String
trades_fields = "ts" ∷ "price" ∷ "qty" ∷ "trade_id" ∷ []

-- `Stream.bars` and `Stream.trades` with their default fields.
unfoldable pub stream_bars : String → String → String → Option String → Option Bool → Stream
stream_bars provider schema symbol exchange only_completed = record {
  provider = provider;
  schema = schema;
  symbol = symbol;
  exchange = exchange;
  fields = bars_fields;
  only_completed = only_completed;
}

unfoldable pub stream_trades : String → String → Option String → Stream
stream_trades provider symbol exchange = record {
  provider = provider;
  schema = "trades";
  symbol = symbol;
  exchange = exchange;
  fields = trades_fields;
  only_completed = none;
}

abbrev pub at_suffix : Option String → String
at_suffix none = ""
at_suffix (some e) = if str_eq e "" then "" else prefixed "@" e

-- `key`
unfoldable pub stream_key : Stream → String
stream_key s =
    prefixed s.provider
      (prefixed "/" (prefixed s.schema (prefixed ":" (prefixed s.symbol (at_suffix s.exchange)))))

-- The fields of `to_subscribe_kwargs` as the service splits them; none of them has a comma.
unfoldable pub requested_fields : Stream → Option (List String)
requested_fields s = elim s.fields [ [] ↦ none | f ∷ fs ↦ some (f ∷ fs) ]
