-- ===== src/GapMonitor/Rows.antt =====
-- The rows of a scan.
use deepfeeder.Base.{
  ℕ, ◌<◌, String, ◌≡◌, refl, ap, inl, inr, Option, none, some, List, [], ◌∷◌, ◌++◌, arith,
  Option-cases,
}
use deepfeeder.Contracts.{Tick}
use deepfeeder.Planner.{Planner, Supply}
use deepfeeder.Watermarks.{Watermarks}
use deepfeeder.GapMonitor.Scan.{Monitor, get_last_seq, trade_id, scan_row, scan_rows}
use deepfeeder.GapMonitor.Known.{known, known-get_last_seq, planner-get_last_seq}
use deepfeeder.GapMonitor.Complete.{Scanned, Scanned-append}
use deepfeeder.GapMonitor.Sightings.{Scanned-quiet, sighting-Scanned}

-- The trades that the monitor looks at among rows, as symbols with ids.
abbrev pub trade_of : Option ℕ → String → List (String × ℕ)
trade_of none symbol = []
trade_of (some seq) symbol = (symbol, seq) ∷ []

abbrev pub trades : {P : Type 0} → List (Tick P) → List (String × ℕ)
trades [] = []
trades (t ∷ ts) = trade_of (trade_id t) t.symbol ++ trades ts

module _ (w : Watermarks) (supply : Supply) {P : Type 0} where
  pub scan_row-Scanned :
      (t : Tick P) (m : Monitor w)
      → 0 < m.planner.max_ids_per_task
      → (m' : Monitor w) × (scan_row w supply t m ≡ some m')
        × Scanned w (trade_of (trade_id t) t.symbol) m m'
  unfolding scan_row
  scan_row-Scanned t m room = elim (Option-cases (trade_id t)) [
    | inl other ↦
        (m, rw (other, scan_row) refl, rw other (Scanned-quiet w m m refl (λ symbol. refl)))
    | inr (seq, trade) ↦
        let m₁ = (get_last_seq w t.symbol m).0 in
        let (m', done, sc) =
          sighting-Scanned w supply t.symbol seq t.ts_ns m₁
            (omega
              (arith, ap (λ (p : Planner). p.max_ids_per_task) (planner-get_last_seq w t.symbol m)))
            (known w t.symbol m) (known-get_last_seq w t.symbol t.symbol m) in
        (
          m',
          rw (trade, scan_row) done,
          rw trade (
              Scanned-append w [] ((t.symbol, seq) ∷ []) m m₁ m'
                (Scanned-quiet w m m₁ (planner-get_last_seq w t.symbol m)
                  (λ symbol. known-get_last_seq w t.symbol symbol m))
                sc),
        )
  ]

  -- If a task may hold an id, a scan of rows ends. Each trade id above what was known of a symbol
  -- before and up to what is known after was seen in the scan, or is in a new task of that symbol;
  -- each new task lies strictly between those two ids; older tasks are unchanged; and the last
  -- known id of a symbol is the largest of those known and seen.
  pub scan_rows-Scanned :
      (ts : List (Tick P)) (m : Monitor w)
      → 0 < m.planner.max_ids_per_task
      → (m' : Monitor w) × (scan_rows w supply ts m ≡ some m') × Scanned w (trades ts) m m'
  unfolding scan_rows
  scan_rows-Scanned [] m room = (m, refl, Scanned-quiet w m m refl (λ symbol. refl))
  scan_rows-Scanned (t ∷ ts) m room =
      let (m', one, a) = scan_row-Scanned t m room in
      let (m'', more, b) = scan_rows-Scanned ts m' (omega (arith, a.limit)) in
      (m'', rw one more, Scanned-append w _ (trades ts) m m' m'' a b)
