-- ===== src/TradingView/Quotes.antt =====
-- feeder_server/data/app.d/providers/tradingview/producer_ws.py: the quotes that a message updates,
-- the batch and its publication. Times are nanoseconds of the clock. `R` is a JSON value and `F` a
-- float. The names of symbols are in upper case, as `__init__` makes them.
use deepfeeder.Base.{
  ℕ, String, Bool, true, false, ◌||◌, Option, none, some, List, [], ◌∷◌, str_eq, prefixed,
  if◌then◌else◌,
}
use deepfeeder.Base.Dict.{Dict, lookup, insert}
use deepfeeder.Contracts.{Tick}

-- What Python's float makes of a JSON value, with none for an exception; `nanos` is
-- int(float(x) * 1_000_000_000). `sub` and `positive` are the subtraction of floats and the test `> 0`.
pub record Floats (R F : Type 0) : Type 0 where
  pub price : R → Option F
  pub zero_float : F
  pub sub : F → F → F
  pub positive : F → Bool
  pub nanos : R → Option ℕ

-- `_SymState`
pub record SymState (F : Type 0) : Type 0 where
  pub lp_time_ns : Option ℕ
  pub last_price : Option F
  pub bid : Option F
  pub ask : Option F
  pub volume : Option F
  pub change : Option F
  pub change_pct : Option F
  pub last_volume : Option F

-- An entry of p[1]: its name, and v's values with none for a key that is missing or None. `at` is the
-- time at which it is handled.
pub record Update (R : Type 0) : Type 0 where
  pub at : ℕ
  pub n : String
  pub lp_time : Option R
  pub lp : Option R
  pub bid : Option R
  pub ask : Option R
  pub volume : Option R
  pub ch : Option R
  pub chp : Option R

-- The payload of `tv_quote_ws_to_tick`.
pub record Quote (F : Type 0) : Type 0 where
  pub exchange : String
  pub last_price : Option F
  pub bid : Option F
  pub ask : Option F
  pub volume : Option F
  pub change : Option F
  pub change_pct : Option F
  pub vol_delta : F

abbrev pub fresh : {F : Type 0} → SymState F
fresh = record {
  lp_time_ns = none;
  last_price = none;
  bid = none;
  ask = none;
  volume = none;
  change = none;
  change_pct = none;
  last_volume = none;
}

-- Each key of `_sym_meta` with the exchange and the symbol, and its state.
pub record Symbol (F : Type 0) : Type 0 where
  pub exchange : Option String
  pub symbol : String
  pub state : SymState F

abbrev pub subscribe_key : Option String → String → String
subscribe_key none sym = sym
subscribe_key (some exch) sym = if str_eq exch "" then sym else prefixed exch (prefixed ":" sym)

-- The loop of `__init__` on what `_split_exchange_symbol` gives for each symbol.
unfoldable pub add_symbols :
    {F : Type 0} → List (Option String × String) → Dict (Symbol F) → Dict (Symbol F)
add_symbols [] symbols = symbols
add_symbols ((exch, sym) ∷ subs) symbols = add_symbols subs (
    insert (subscribe_key exch sym) (record { exchange = exch; symbol = sym; state = fresh })
      symbols)

-- A remembered value after a field that is not None and that float takes.
abbrev pub taken : {R A : Type 0} → (R → Option A) → Option R → Option A → Option A
taken float none old = old
taken float (some r) old = elim (float r) [ none ↦ old | some a ↦ some a ]

abbrev pub quote_time : {R : Type 0} → (R → Option ℕ) → ℕ → Option R → Option ℕ → Option ℕ
quote_time nanos now (some r) old = nanos r
quote_time nanos now none none = some now
quote_time nanos now none (some t) = some t

abbrev pub is_some : {A : Type 0} → Option A → Bool
is_some none = false
is_some (some a) = true

abbrev pub or_empty : Option String → String
or_empty none = ""
or_empty (some s) = s

-- `tv_quote_ws_to_tick`, which raises on a time of None.
unfoldable pub tv_quote : {F : Type 0} → Symbol F → Option ℕ → F → Option (Tick (Quote F))
tv_quote s none delta = none
tv_quote s (some ts) delta = some (record {
  provider = "tradingview";
  stream = "quotes";
  symbol = s.symbol;
  ts_ns = ts;
  seq = none;
  is_final = false;
  payload = record {
    exchange = or_empty s.exchange;
    last_price = s.state.last_price;
    bid = s.state.bid;
    ask = s.state.ask;
    volume = s.state.volume;
    change = s.state.change;
    change_pct = s.state.change_pct;
    vol_delta = delta;
  };
})

module _ {R F : Type 0} (floats : Floats R F) where
  -- `vol_delta`
  abbrev pub delta_of : Option F → Option F → Option F
  delta_of none last = none
  delta_of (some v) none = some floats.zero_float
  delta_of (some v) (some last) =
      let d = floats.sub v last in some (if floats.positive d then d else floats.zero_float)

  abbrev pub or_zero : Option F → F
  or_zero none = floats.zero_float
  or_zero (some d) = d

  abbrev pub is_rise : Option F → Bool
  is_rise none = false
  is_rise (some d) = floats.positive d

  -- The state after an update, and its `vol_delta`.
  unfoldable pub updated : Update R → SymState F → SymState F × Option F
  updated u st =
      let volume = taken floats.price u.volume st.volume in
      (
        record {
          lp_time_ns = quote_time floats.nanos u.at u.lp_time st.lp_time_ns;
          last_price = taken floats.price u.lp st.last_price;
          bid = taken floats.price u.bid st.bid;
          ask = taken floats.price u.ask st.ask;
          volume = volume;
          change = taken floats.price u.ch st.change;
          change_pct = taken floats.price u.chp st.change_pct;
          last_volume = elim volume [ none ↦ st.last_volume | some v ↦ some v ];
        },
        delta_of volume st.last_volume,
      )

  abbrev pub material : SymState F → Option F → Bool
  material st delta = is_some st.last_price || (is_some st.bid || (is_some st.ask || is_rise delta))

  -- One symbol's part of `_handle_qsd`: what it remembers, and the tick, if there is one.
  unfoldable pub quote : Update R → Symbol F → Symbol F × Option (Tick (Quote F))
  unfolding updated tv_quote
  quote u s =
      let (st, delta) = updated u s.state in
      let s' : Symbol F = record s { state = st } in
      (s', if material st delta then tv_quote s' st.lp_time_ns (or_zero delta) else none)

  abbrev pub quote_known :
      Update R → Dict (Symbol F) → Option (Symbol F) → Dict (Symbol F) × Option (Tick (Quote F))
  quote_known u symbols none = (symbols, none)
  quote_known u symbols (some s) = let (s', out) = quote u s in (insert u.n s' symbols, out)

  -- A name that is empty or not subscribed is passed over.
  unfoldable pub quote_one : Update R → Dict (Symbol F) → Dict (Symbol F) × Option (Tick (Quote F))
  unfolding quote
  quote_one u symbols =
      if str_eq u.n "" then (symbols, none) else quote_known u symbols (lookup u.n symbols)
