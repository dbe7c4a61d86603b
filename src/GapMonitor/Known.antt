-- ===== src/GapMonitor/Known.antt =====
-- The last id that the monitor knows of a symbol, from its cache or from the journal.
use deepfeeder.Base.{
  ℕ, String, ◌≡◌, refl, Option, none, some, arith, ltb, str_eq, eq_iff, if◌then◌else◌, Option-cases,
  inl, inr, str_eq-prefixed, false,
}
use deepfeeder.Base.Dict.{lookup, lookup-insert}
use deepfeeder.Watermarks.{Watermarks}
use deepfeeder.GapMonitor.Scan.{Monitor, wm_lastseq_scope, get_last_seq, set_last_seq, set_or_keep}

module _ (w : Watermarks) where
  open w use {get_watermark, set_watermark, get-set}

  abbrev pub known : String → Monitor w → Option ℕ
  known symbol m = (get_last_seq w symbol m).1

  pub planner-get_last_seq :
      (symbol : String) (m : Monitor w) → (get_last_seq w symbol m).0.planner ≡ m.planner
  unfolding get_last_seq
  planner-get_last_seq symbol m = ground arith

  -- Filling the cache changes nothing that is known.
  pub known-get_last_seq :
      (symbol other : String) (m : Monitor w)
      → known other (get_last_seq w symbol m).0 ≡ known other m
  unfolding get_last_seq
  known-get_last_seq symbol other m = elim (Option-cases (lookup symbol m.last_seq)) [
    | inr (v, cached) ↦ rw (cached, get_last_seq) refl
    | inl missing ↦ elim (Option-cases (get_watermark (wm_lastseq_scope symbol) m.journal)) [
      | inl raised ↦ ground arith
      | inr (v, read) ↦ ground (
        arith,
        lookup-insert symbol other (if ltb 0 v then some v else none) m.last_seq,
        eq_iff symbol other,
      )
    ]
  ]

  get-set_or_keep :
      (v : ℕ) (symbol other : String) (s : w.Store)
      → str_eq symbol other ≡ false
      → get_watermark (wm_lastseq_scope other) (set_or_keep w v (wm_lastseq_scope symbol) s)
        ≡ get_watermark (wm_lastseq_scope other) s
  get-set_or_keep v symbol other s differs =
      elim (Option-cases (set_watermark v (wm_lastseq_scope symbol) s)) [
        | inl raised ↦ ground arith
        | inr (s', written) ↦ ground (
          arith,
          get-set v (wm_lastseq_scope symbol) (wm_lastseq_scope other) s s',
          str_eq-prefixed "gapmon:binance:last_seq:" symbol other,
        )
      ]

  pub known-set_last_seq :
      (symbol other : String) (v : ℕ) (m : Monitor w)
      → known other (set_last_seq w symbol v m)
        ≡ (if str_eq symbol other then some v else known other m)
  unfolding get_last_seq set_last_seq
  known-set_last_seq symbol other v m = ground (
    arith,
    lookup-insert symbol other (some v) m.last_seq,
    get-set_or_keep v symbol other m.journal,
  )
