-- ===== src/TradingView/Batches.antt =====
-- One scheduled run of `TradingViewApiProducer`. Times are nanoseconds; the answers of the API are a
-- parameter, and so is whether the bus takes a batch. The append to the event store, whose
-- exceptions are dropped, and the events of the event log are left out.
use Prim.Native.Nat.{◌/◌}
use deepfeeder.Base.{
  ℕ, zero, suc, ◌-◌, ◌*◌, min, max, String, Bool, true, ◌&&◌, Option, none, some, List, [], ◌∷◌,
  ◌++◌, map, filter, length, ltb, leb, str_eq, prefixed, if◌then◌else◌,
}
use deepfeeder.Base.Dict.{Dict, lookup, insert}
use deepfeeder.Base.Sort.{order_by}
use deepfeeder.Contracts.{Tick}

-- A row of the data frame.
pub record TvRow (P : Type 0) : Type 0 where
  pub datetime : ℕ
  pub values : P

pub record TvConfig : Type 0 where
  pub symbols : List (String × String)
  pub batch_size : ℕ
  pub overlap_bars : ℕ
  pub days_back_full : ℕ

-- `wm` without the symbols whose watermark is None; `published` is what the bus took, oldest first.
pub record TvProducer (P : Type 0) : Type 0 where
  pub wm : Dict ℕ
  pub published : List (List (Tick P))

-- What a run takes from outside: the answer of the API for an exchange, a symbol and a number of bars,
-- with `none` for None and for an exception, whether the bus takes a batch, and the time.
pub record TvRun (P : Type 0) : Type 0 where
  pub fetch : String → String → ℕ → Option (List (TvRow P))
  pub accepts : List (Tick P) → Bool
  pub now : ℕ

abbrev pub minute : ℕ
minute = 60000000000

abbrev pub day : ℕ
day = 86400000000000

module _ (cfg : TvConfig) where
  abbrev pub window_start : ℕ → Option ℕ → ℕ
  window_start now none = now - cfg.days_back_full * day
  window_start now (some wm) = wm - cfg.overlap_bars * minute

  -- `_calc_window`: the start and the number of bars; the end is the time.
  unfoldable pub calc_window : ℕ → Option ℕ → ℕ × ℕ
  calc_window now wm =
      let start = window_start now wm in
      (start, min (max 1 ((now - start) / minute)) cfg.batch_size)

abbrev pub tv_symbol : String → String → String
tv_symbol exchange symbol =
    if str_eq exchange "" then symbol else prefixed exchange (prefixed ":" symbol)

abbrev pub later : Option ℕ → ℕ → ℕ
later none t = t
later (some l) t = if ltb l t then t else l

-- The last but `n` of a list, and the first for an `n` of 0: `iloc[-n]`.
abbrev pub at_or : ℕ → List ℕ → ℕ → ℕ
at_or d [] n = d
at_or d (x ∷ xs) zero = x
at_or d (x ∷ xs) (suc n) = at_or d xs n

abbrev pub iloc_back : ℕ → List ℕ → ℕ
iloc_back zero xs = at_or 0 xs 0
iloc_back (suc n) xs = at_or 0 xs (length xs - suc n)

abbrev pub set_watermark_of : String → Option ℕ → Dict ℕ → Dict ℕ
set_watermark_of symbol none wm = wm
set_watermark_of symbol (some t) wm = insert symbol t wm

module _ {P : Type 0} where
  abbrev pub datetimes : List (TvRow P) → List ℕ
  datetimes rows = order_by (λ t. t) (map (λ r. r.datetime) rows)

  -- `recent_cutoff`
  unfoldable pub recent_cutoff : TvConfig → Option ℕ → List (TvRow P) → ℕ
  recent_cutoff cfg none rows = iloc_back 0 (datetimes rows)
  recent_cutoff cfg (some wm) rows =
      if ltb cfg.overlap_bars (length rows)
      then iloc_back cfg.overlap_bars (datetimes rows)
      else iloc_back 0 (datetimes rows)

  unfoldable pub tv_tick : String → String → TvRow P → Tick P
  tv_tick exchange symbol r = record {
    provider = "tradingview";
    stream = "bars";
    symbol = tv_symbol exchange symbol;
    ts_ns = r.datetime;
    seq = none;
    payload = r.values;
    is_final = true;
  }

  -- `_to_ticks`
  unfoldable pub to_ticks :
      String → String → ℕ → List (TvRow P) → Option ℕ → List (Tick P) × Option ℕ
  unfolding tv_tick
  to_ticks exchange symbol cutoff [] latest = ([], latest)
  to_ticks exchange symbol cutoff (r ∷ rows) latest =
      if ltb r.datetime cutoff
      then to_ticks exchange symbol cutoff rows latest
      else let (ticks, last) =
          to_ticks exchange symbol cutoff rows (some (later latest r.datetime)) in
        (tv_tick exchange symbol r ∷ ticks, last)

  abbrev pub in_window : ℕ → ℕ → TvRow P → Bool
  in_window start end r = leb start r.datetime && leb r.datetime end

  -- The batch is published, and the watermark goes on, unless the bus raises.
  abbrev pub publish_batch :
      (List (Tick P) → Bool) → String → List (Tick P) × Option ℕ → TvProducer P → TvProducer P
  publish_batch accepts symbol ([], latest) s = s
  publish_batch accepts symbol (t ∷ ticks, latest) s =
      if accepts (t ∷ ticks)
      then record {
        wm = set_watermark_of symbol latest s.wm;
        published = s.published ++ (t ∷ ticks) ∷ [];
      }
      else s

  -- What follows the window's rows for a symbol.
  abbrev pub emit_window :
      TvConfig
      → (List (Tick P) → Bool)
      → String
      → String
      → List (TvRow P)
      → TvProducer P
      → TvProducer P
  emit_window cfg accepts exchange symbol [] s = s
  emit_window cfg accepts exchange symbol (r ∷ rows) s =
      let wm = lookup symbol s.wm in
      publish_batch accepts symbol
        (to_ticks exchange symbol (recent_cutoff cfg wm (r ∷ rows)) (r ∷ rows) wm) s

  unfoldable pub run_symbol : TvConfig → TvRun P → String × String → TvProducer P → TvProducer P
  unfolding calc_window recent_cutoff to_ticks
  run_symbol cfg run (exchange, symbol) s =
      let (start, n_req) = calc_window cfg run.now (lookup symbol s.wm) in
      elim (run.fetch exchange symbol n_req) [
        | none ↦ s
        | some df ↦
            emit_window cfg run.accepts exchange symbol (filter (in_window start run.now) df) s
      ]

  unfoldable pub run_symbols :
      TvConfig → TvRun P → List (String × String) → TvProducer P → TvProducer P
  unfolding run_symbol
  run_symbols cfg run [] s = s
  run_symbols cfg run (x ∷ xs) s = run_symbols cfg run xs (run_symbol cfg run x s)

  -- `_run_once_batch`
  unfoldable pub run_once_batch : TvConfig → TvRun P → TvProducer P → TvProducer P
  unfolding run_symbols
  run_once_batch cfg run s = run_symbols cfg run cfg.symbols s

  -- The loop of `_run`.
  unfoldable pub run_batches : TvConfig → List (TvRun P) → TvProducer P → TvProducer P
  unfolding run_once_batch
  run_batches cfg [] s = s
  run_batches cfg (run ∷ runs) s = run_batches cfg runs (run_once_batch cfg run s)
