-- ===== src/GapMonitor/Scan.antt =====
-- `BinanceGapMonitor`: the cached and persisted last ids, the scan of a row, and one round of `_run`.
use deepfeeder.Base.{
  ℕ, ◌+◌, ◌-◌, String, ◌&&◌, Option, none, some, List, [], ◌∷◌, ltb, leb, str_eq, prefixed,
  if◌then◌else◌,
}
use deepfeeder.Base.Options.{◌>>=◌}
use deepfeeder.Base.Dict.{Dict, lookup, insert}
use deepfeeder.Contracts.{Tick, Envelope}
use deepfeeder.Planner.{Planner, Supply, add_gap}
use deepfeeder.Watermarks.{Watermarks}

-- `_WM_BATCH_SCOPE`, `_WM_LASTSEQ_SCOPE_PREFIX` and `_BOOTSTRAP_LOOKBACK_IDS`.
abbrev pub wm_batch_scope : String
wm_batch_scope = "gapmon:binance:batch"

abbrev pub wm_lastseq_scope : String → String
wm_lastseq_scope symbol = prefixed "gapmon:binance:last_seq:" symbol

abbrev pub bootstrap_lookback_ids : ℕ
bootstrap_lookback_ids = 0

-- The id of a row that the monitor looks at.
unfoldable pub trade_id : {P : Type 0} → Tick P → Option ℕ
trade_id t = if str_eq t.provider "binance" && str_eq t.stream "trades" then t.seq else none

module _ (w : Watermarks) where
  open w use {Store, get_watermark, set_watermark}

  -- The cache `_last_seq` may hold None for a symbol.
  pub record Monitor : Type 0 where
    pub last_seq : Dict (Option ℕ)
    pub journal : Store
    pub planner : Planner

  abbrev positive : ℕ → Option ℕ
  positive v = if ltb 0 v then some v else none

  unfoldable pub get_last_seq : String → Monitor → Monitor × Option ℕ
  get_last_seq symbol m = elim (lookup symbol m.last_seq) [
    | some v ↦ (m, v)
    | none ↦ elim (get_watermark (wm_lastseq_scope symbol) m.journal) [
      | none ↦ (m, none)
      | some v ↦ (record m { last_seq = insert symbol (positive v) m.last_seq }, positive v)
    ]
  ]

  -- A failed write of the watermark is ignored.
  abbrev pub set_or_keep : ℕ → String → Store → Store
  set_or_keep v scope s = elim (set_watermark v scope s) [ none ↦ s | some s' ↦ s' ]

  unfoldable pub set_last_seq : String → ℕ → Monitor → Monitor
  set_last_seq symbol seq m = record m {
    last_seq = insert symbol (some seq) m.last_seq;
    journal = set_or_keep seq (wm_lastseq_scope symbol) m.journal;
  }

  module _ (supply : Supply) where
    unfoldable pub report : String → ℕ → ℕ → ℕ → Monitor → Option Monitor
    report symbol first last ts m = do
      (p, _) ←
          add_gap supply
            (record {
              provider = "binance";
              symbol = symbol;
              start_id = first;
              end_id = last;
              discovered_at_ns = ts;
              priority = 0;
            })
            m.planner
      some (record m { planner = p })

    -- The first row of a symbol, with the optional slice of ids before it.
    unfoldable pub first_sighting : String → ℕ → ℕ → Monitor → Option Monitor
    first_sighting symbol seq ts m = do
      m' ←
          if ltb 0 bootstrap_lookback_ids && ltb bootstrap_lookback_ids seq
          then report symbol (seq - bootstrap_lookback_ids) (seq - 1) ts m
          else some m
      some (set_last_seq symbol seq m')

    -- A later row: a jump past `last + 1` is a gap, and the last id never goes back.
    unfoldable pub next_sighting : String → ℕ → ℕ → ℕ → Monitor → Option Monitor
    next_sighting symbol last seq ts m = do
      m' ←
          if ltb (last + 1) seq && leb (last + 1) (seq - 1)
          then report symbol (last + 1) (seq - 1) ts m
          else some m
      some (if ltb last seq then set_last_seq symbol seq m' else m')

    unfoldable pub sighting : String → Option ℕ → ℕ → ℕ → Monitor → Option Monitor
    unfolding first_sighting next_sighting
    sighting symbol none seq ts m = first_sighting symbol seq ts m
    sighting symbol (some last) seq ts m = next_sighting symbol last seq ts m

    module _ {P : Type 0} where
      unfoldable pub scan_row : Tick P → Monitor → Option Monitor
      unfolding trade_id sighting get_last_seq
      scan_row t m = elim (trade_id t) [
        | none ↦ some m
        | some seq ↦
            let (m', last) = get_last_seq t.symbol m in sighting t.symbol last seq t.ts_ns m'
      ]

      unfoldable pub scan_rows : List (Tick P) → Monitor → Option Monitor
      unfolding scan_row
      scan_rows [] m = some m
      scan_rows (t ∷ ts) m = do m' ← scan_row t m; scan_rows ts m'

      -- The loop over the fetched envelopes, with the id of the last one.
      unfoldable pub scan_envelopes :
          List (Envelope P) → Option ℕ → Monitor → Option (Monitor × Option ℕ)
      unfolding scan_rows
      scan_envelopes [] last_bid m = some (m, last_bid)
      scan_envelopes (env ∷ envs) last_bid m = do
        m' ← scan_rows env.rows m
        scan_envelopes envs (some env.batch_id) m'

      -- One round of the loop of `_run` over what `_fetch_envs` returned: the monitor and the next
      -- batch to fetch. An empty answer is a sleep.
      unfoldable pub poll : List (Envelope P) → Monitor × ℕ → Option (Monitor × ℕ)
      unfolding scan_envelopes
      poll envs (m, next_batch) = do
        (m', last_bid) ← scan_envelopes envs none m
        some (elim last_bid [
          | none ↦ (m', next_batch)
          | some bid ↦ (record m' { journal = set_or_keep bid wm_batch_scope m'.journal }, bid + 1)
        ])

  -- Where `_run` begins: the batch after the persisted one.
  unfoldable pub resume_batch : Store → ℕ
  resume_batch s = elim (get_watermark wm_batch_scope s) [ none ↦ 1 | some last ↦ last + 1 ]
