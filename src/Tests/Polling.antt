-- ===== src/Tests/Polling.antt =====
-- The producer of TradingView bars over a symbol whose API answers seven bars.
use deepfeeder.Base.{ℕ, ◌*◌, ◌<◌, ◌≡◌, refl, true, some, List, [], ◌∷◌, map, filter, length, arith}
use deepfeeder.Base.Dict.{lookup, insert}
use deepfeeder.Base.Sort.{insert_by, order_by}
use deepfeeder.Contracts.{Tick}
use deepfeeder.TradingView.{
  TvRow, TvConfig, TvProducer, TvRun, minute, calc_window, in_window, run_batches,
}

abbrev config : TvConfig
config = record {
  symbols = ("B3", "INDV") ∷ [];
  batch_size = 100;
  overlap_bars = 2;
  days_back_full = 1;
}

abbrev row_at : ℕ → TvRow ℕ
row_at m = record { datetime = m * minute; values = m }

-- The bars of the minutes from 100 to 106.
abbrev answer : List (TvRow ℕ)
answer = map row_at (100 ∷ 101 ∷ 102 ∷ 103 ∷ 104 ∷ 105 ∷ 106 ∷ [])

abbrev run : TvRun ℕ
run = record { fetch = λ e s n. some answer; accepts = λ b. true; now = 106 * minute }

abbrev at_100 : TvProducer ℕ
at_100 = record { wm = ("INDV", 100 * minute) ∷ []; published = [] }

-- The bars of the minutes 101 to 104 are after the watermark and are not published.
last_two :
    map
      (λ b. map (λ (t : Tick ℕ). t.payload) b)
      (run_batches config (run ∷ run ∷ []) at_100).published
    ≡ (105 ∷ 106 ∷ []) ∷ (105 ∷ 106 ∷ []) ∷ []
unfolding run_batches lookup order_by insert_by insert
last_two = refl

abbrev window : List (TvRow ℕ)
window = filter (in_window (calc_window config run.now (lookup "INDV" at_100.wm)).0 run.now) answer

many_rows : 2 < length window
unfolding calc_window lookup
many_rows = omega arith
