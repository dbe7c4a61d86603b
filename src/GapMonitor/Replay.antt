-- ===== src/GapMonitor/Replay.antt =====
-- A whole round of the monitor, and a round that is run again after a crash.
use Prim.Native.Char.{char, code}
use text.Mathlib.TextLemmas.{append_assoc, cons-append, head-eq_of_cons-eq}
use deepfeeder.Base.{
  str_eq-prefixed, ℕ, ◌≤◌, ◌<◌, String, ◌≡◌, refl, ap, ◌∙◌, inl, inr, false, Option, some, List, [],
  ◌∷◌, ◌++◌, arith, str_eq, eq_iff, Option-cases, All, prefixed, subst,
}
use deepfeeder.Contracts.{Tick}
use deepfeeder.Planner.{Supply}
use deepfeeder.Watermarks.{Watermarks}
use deepfeeder.GapMonitor.Scan.{
  Monitor, get_last_seq, next_sighting, sighting, trade_id, scan_row, scan_rows, wm_batch_scope,
  wm_lastseq_scope,
}
use deepfeeder.GapMonitor.Known.{known, known-get_last_seq, planner-get_last_seq}
use deepfeeder.GapMonitor.Complete.{Scanned, learns, learn, learns-some, bump}
use deepfeeder.GapMonitor.Rows.{trade_of, trades, scan_rows-Scanned}

heads_differ : (s : String) → "batch" ≡ prefixed "last_seq:" s → ⊥
heads_differ s e =
    omega (arith, ap code (head-eq_of_cons-eq (e ∙ cons-append (char 108 tt) "ast_seq:" s)))

-- The scope of the batch cursor is that of no symbol.
pub scopes_differ : (s : String) → str_eq wm_batch_scope (wm_lastseq_scope s) ≡ false
scopes_differ s = ground (
  arith,
  append_assoc "gapmon:binance:" "last_seq:" s,
  str_eq-prefixed "gapmon:binance:" "batch" (prefixed "last_seq:" s),
  eq_iff "batch" (prefixed "last_seq:" s),
  heads_differ s,
)

-- After a scan every trade that it saw is stale, whatever was known before.
learns_stale :
    (es : List (String × ℕ)) (o : String → Option ℕ)
    → All (λ e. (l : ℕ) × (learns e.0 es (o e.0) ≡ some l) × (e.1 ≤ l)) es
learns_stale [] o = tt
learns_stale (e ∷ es) o = (
  let (l, more, le) = learns-some e.0 es (bump (o e.0) e.1) in
      (l, ap (learns e.0 es) (ground (arith, eq_iff e.0 e.0)) ∙ more, ground arith),
  learns_stale es (λ s. learn s e (o s)),
)

-- The trade is no news to a monitor that knows `l` of its symbol.
module _ (w : Watermarks) where
  abbrev pub Stale : Monitor w → String × ℕ → Type 0
  Stale m e = (l : ℕ) × (known w e.0 m ≡ some l) × (e.1 ≤ l)

  All-Stale-keep :
      (es : List (String × ℕ)) (m m' : Monitor w)
      → ((symbol : String) → known w symbol m' ≡ known w symbol m)
      → All (Stale m) es
      → All (Stale m') es
  All-Stale-keep [] m m' same stale = tt
  All-Stale-keep (e ∷ es) m m' same ((l, k, le), stale) =
      ((l, same e.0 ∙ k, le), All-Stale-keep es m m' same stale)

  All-split :
      (m : Monitor w) (es fs : List (String × ℕ))
      → All (Stale m) (es ++ fs)
      → All (Stale m) es × All (Stale m) fs
  All-split m [] fs a = (tt, a)
  All-split m (e ∷ es) fs (h, a) = let (x, y) = All-split m es fs a in ((h, x), y)

  Scanned-Stale :
      (es : List (String × ℕ)) (m m' : Monitor w)
      → Scanned w es m m'
      → All (λ e. (l : ℕ) × (learns e.0 es (known w e.0 m) ≡ some l) × (e.1 ≤ l)) es
      → All (Stale m') es
  Scanned-Stale es m m' sc = go es
    where
      go :
          (fs : List (String × ℕ))
          → All (λ e. (l : ℕ) × (learns e.0 es (known w e.0 m) ≡ some l) × (e.1 ≤ l)) fs
          → All (Stale m') fs
      go [] a = tt
      go (f ∷ fs) ((l, k, le), a) = ((l, sc.learned f.0 ∙ k, le), go fs a)

module _ (w : Watermarks) (supply : Supply) {P : Type 0} where
  -- A scan of rows without news.
  Stale-row :
      (t : Tick P) (m : Monitor w)
      → All (Stale w m) (trade_of (trade_id t) t.symbol)
      → (m' : Monitor w) × (scan_row w supply t m ≡ some m')
        × (m'.planner ≡ m.planner)
        × ((symbol : String) → known w symbol m' ≡ known w symbol m)
  unfolding scan_row
  Stale-row t m stale = elim (Option-cases (trade_id t)) [
    | inl other ↦ (m, rw (other, scan_row) refl, refl, λ symbol. refl)
    | inr (seq, trade) ↦
        let (l, e, le) = (subst (λ i. All (Stale w m) (trade_of i t.symbol)) trade stale).0 in
        (
          (get_last_seq w t.symbol m).0,
          rw (trade, scan_row) (rw (e, sighting) (unfold next_sighting in ground arith)),
          planner-get_last_seq w t.symbol m,
          λ symbol. known-get_last_seq w t.symbol symbol m,
        )
  ]

  Stale-rows :
      (ts : List (Tick P)) (m : Monitor w)
      → All (Stale w m) (trades ts)
      → (m' : Monitor w) × (scan_rows w supply ts m ≡ some m')
        × (m'.planner ≡ m.planner)
        × ((symbol : String) → known w symbol m' ≡ known w symbol m)
  unfolding scan_rows
  Stale-rows [] m stale = (m, refl, refl, λ symbol. refl)
  Stale-rows (t ∷ ts) m stale =
      let (now, later) = All-split w m (trade_of (trade_id t) t.symbol) (trades ts) stale in
      let (m', one, same, knows) = Stale-row t m now in
      let (m'', more, same', knows') =
        Stale-rows ts m' (All-Stale-keep w (trades ts) m m' knows later) in
      (m'', rw one more, same' ∙ same, λ symbol. knows' symbol ∙ knows symbol)

  -- If a task may hold an id, scanning rows a second time, as after a crash between the scan and the
  -- write of the batch cursor, ends, leaves the planner as it is and changes no last known id.
  scan_rows_again :
      (ts : List (Tick P)) (m : Monitor w)
      → 0 < m.planner.max_ids_per_task
      → (m' : Monitor w) × (m'' : Monitor w) × (scan_rows w supply ts m ≡ some m')
        × (scan_rows w supply ts m' ≡ some m'')
        × (m''.planner ≡ m'.planner)
        × ((symbol : String) → known w symbol m'' ≡ known w symbol m')
  scan_rows_again ts m room =
      let (m', once, sc) = scan_rows-Scanned w supply ts m room in
      let (m'', twice, same, knows) =
        Stale-rows ts m'
          (Scanned-Stale w (trades ts) m m' sc (learns_stale (trades ts) (λ s. known w s m))) in
      (m', m'', once, twice, same, knows)
