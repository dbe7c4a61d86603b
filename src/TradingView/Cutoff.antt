-- ===== src/TradingView/Cutoff.antt =====
-- What a run leaves out, and what it publishes in whole.
use deepfeeder.Base.{
  ℕ, zero, suc, ◌-◌, ◌≤◌, ◌<◌, String, ◌≡◌, refl, ◌∙◌, subst, Bool, true, Option, none, some, List,
  [], ◌∷◌, ◌++◌, map, filter, length, ltb, arith, All, Bool-cases, inl, inr,
}
use deepfeeder.Base.Dict.{lookup, lookup-insert, str_eq_refl}
use deepfeeder.Base.Sort.{insert_by, order_by, All-order_by}
use deepfeeder.Contracts.{Tick}
use deepfeeder.TradingView.Batches.{
  TvRow, TvConfig, TvProducer, TvRun, calc_window, at_or, iloc_back, datetimes, recent_cutoff,
  to_ticks, in_window, publish_batch, emit_window, run_symbol,
}
use deepfeeder.TradingView.Progress.{Ticked, to_ticks-Ticked}

length-insert_by :
    {A : Type 0} (key : A → ℕ) (a : A) (xs : List A) → length (insert_by key a xs) ≡ suc (length xs)
unfolding insert_by
length-insert_by key a [] = refl
length-insert_by key a (x ∷ xs) = ground (arith, length-insert_by key a xs)

length-order_by : {A : Type 0} (key : A → ℕ) (xs : List A) → length (order_by key xs) ≡ length xs
unfolding order_by
length-order_by key [] = refl
length-order_by key (x ∷ xs) =
    omega (arith, length-insert_by key x (order_by key xs), length-order_by key xs)

All-at_or : (Q : ℕ → Type 0) (d n : ℕ) (xs : List ℕ) → n < length xs → All Q xs → Q (at_or d xs n)
All-at_or Q d n [] less all = absurd (omega (arith, less))
All-at_or Q d zero (x ∷ xs) less all = all.0
All-at_or Q d (suc n) (x ∷ xs) less all = All-at_or Q d n xs (omega (arith, less)) all.1

All-iloc_back :
    (Q : ℕ → Type 0) (n : ℕ) (xs : List ℕ) → 0 < length xs → All Q xs → Q (iloc_back n xs)
All-iloc_back Q zero xs some_x all = All-at_or Q 0 0 xs some_x all
All-iloc_back Q (suc n) xs some_x all =
    All-at_or Q 0 (length xs - suc n) xs (omega (arith, some_x)) all

module _ {P : Type 0} where
  length-datetimes : (rows : List (TvRow P)) → length (datetimes rows) ≡ length rows
  length-datetimes rows = length-order_by (λ t. t) (map (λ r. r.datetime) rows) ∙ go rows
    where
      go : (rows : List (TvRow P)) → length (map (λ (r : TvRow P). r.datetime) rows) ≡ length rows
      go [] = refl
      go (r ∷ rows) = omega (arith, go rows)

  All-datetimes :
      (Q : ℕ → Type 0) (rows : List (TvRow P))
      → All (λ r. Q r.datetime) rows
      → All Q (datetimes rows)
  All-datetimes Q rows all = All-order_by (λ t. t) Q (map (λ r. r.datetime) rows) (go rows all)
    where
      go :
          (rows : List (TvRow P))
          → All (λ r. Q r.datetime) rows
          → All Q (map (λ r. r.datetime) rows)
      go [] all = tt
      go (r ∷ rows) all = (all.0, go rows all.1)

  -- No ticks come of rows only if all of them are before the cutoff.
  nothing_recent :
      (exchange symbol : String) (cutoff : ℕ) (rows : List (TvRow P)) (latest : Option ℕ)
      → (to_ticks exchange symbol cutoff rows latest).0 ≡ []
      → All (λ r. r.datetime < cutoff) rows
  unfolding to_ticks
  nothing_recent exchange symbol cutoff [] latest e = tt
  nothing_recent exchange symbol cutoff (r ∷ rows) latest e =
      elim (Bool-cases (ltb r.datetime cutoff)) [
        | inl old ↦ (
          ground (arith, old),
          nothing_recent exchange symbol cutoff rows latest (rw (old, to_ticks) at e),
        )
        | inr recent ↦ cc (rw (recent, to_ticks) at e)
      ]

  published_batch :
      (accepts : List (Tick P) → Bool) (symbol : String) (l : ℕ) (batch : List (Tick P))
      (latest : Option ℕ) (s : TvProducer P)
      → ((b : List (Tick P)) → accepts b ≡ true)
      → (batch ≡ [] → ⊥)
      → latest ≡ some l
      → ((publish_batch accepts symbol (batch, latest) s).published ≡ s.published ++ batch ∷ [])
        × (lookup symbol (publish_batch accepts symbol (batch, latest) s).wm ≡ some l)
  published_batch accepts symbol l [] latest s takes full e = absurd (full refl)
  published_batch accepts symbol l (t ∷ batch) latest s takes full e =
      rw (takes (t ∷ batch), e)
        (refl, lookup-insert symbol symbol l s.wm ∙ rw (str_eq_refl symbol) refl)

  -- The latest time is not before the cutoff if there is a tick.
  latest_tick :
      (cutoff : ℕ) (batch : List (Tick P)) (latest : Option ℕ)
      → (batch ≡ [] → ⊥)
      → Ticked cutoff latest batch
      → (l : ℕ) × (latest ≡ some l) × (cutoff ≤ l)
  latest_tick cutoff [] latest full ticked = absurd (full refl)
  latest_tick cutoff (t ∷ batch) none full ticked = absurd ticked.0.1
  latest_tick cutoff (t ∷ batch) (some l) full ticked = (l, refl, omega (arith, ticked.0))

  All-Ticked :
      (cutoff : ℕ) (latest : Option ℕ) (batch : List (Tick P))
      → Ticked cutoff latest batch
      → All (λ t. cutoff ≤ t.ts_ns) batch
  All-Ticked cutoff latest [] ticked = tt
  All-Ticked cutoff latest (t ∷ batch) ticked =
      (ticked.0.0, All-Ticked cutoff latest batch ticked.1)

  -- What a window that has a row at the cutoff or after it publishes.
  emit_at :
      (accepts : List (Tick P) → Bool) (exchange symbol : String) (cutoff : ℕ)
      (rows : List (TvRow P)) (s : TvProducer P)
      → ((b : List (Tick P)) → accepts b ≡ true)
      → (All (λ r. r.datetime < cutoff) rows → ⊥)
      → let sent =
          publish_batch accepts symbol
            (to_ticks exchange symbol cutoff rows (lookup symbol s.wm))
            s in
        (batch : List (Tick P)) × (l : ℕ) × (sent.published ≡ s.published ++ batch ∷ [])
        × All (λ t. cutoff ≤ t.ts_ns) batch
        × (lookup symbol sent.wm ≡ some l)
        × (cutoff ≤ l)
  emit_at accepts exchange symbol cutoff rows s takes recent =
      let (batch, latest) = to_ticks exchange symbol cutoff rows (lookup symbol s.wm) in
      let ticked = (to_ticks-Ticked exchange symbol cutoff rows (lookup symbol s.wm)).0 in
      let full : batch ≡ [] → ⊥ =
        λ e. recent (nothing_recent exchange symbol cutoff rows (lookup symbol s.wm) e) in
      let (l, e, over) = latest_tick cutoff batch latest full ticked in
      let (done, at) = published_batch accepts symbol l batch latest s takes full e in
      (batch, l, done, All-Ticked cutoff latest batch ticked, at, over)

  cut :
      (cfg : TvConfig) (w : ℕ) (rows : List (TvRow P)) (wm : Option ℕ)
      → wm ≡ some w
      → cfg.overlap_bars < length rows
      → recent_cutoff cfg wm rows ≡ iloc_back cfg.overlap_bars (datetimes rows)
  unfolding recent_cutoff
  cut cfg w rows none e many = cc e
  cut cfg w rows (some v) e many =
      let more : ltb cfg.overlap_bars (length rows) ≡ true = ground (arith, many) in rw more refl

  some_recent :
      (n : ℕ) (rows : List (TvRow P))
      → 0 < length rows
      → (c : ℕ) → c ≡ iloc_back n (datetimes rows)
      → All (λ r. r.datetime < c) rows
      → ⊥
  some_recent n rows some_row c e old =
      let less =
        All-iloc_back (λ t. t < c) n (datetimes rows)
          (omega (arith, length-datetimes rows, some_row)) (All-datetimes (λ t. t < c) rows old) in
      omega (arith, less, e)

  -- The watermark of a symbol is set, the window has more than `overlap_bars` bars, and the bus takes
  -- what it is given: then bars before the last `overlap_bars` of the window are not published, also
  -- those that are after the watermark, and the new watermark is behind them.
  run_symbol-skips :
      (cfg : TvConfig) (run : TvRun P) (exchange symbol : String) (w : ℕ) (df : List (TvRow P))
      (s : TvProducer P)
      → lookup symbol s.wm ≡ some w
      → run.fetch exchange symbol (calc_window cfg run.now (lookup symbol s.wm)).1 ≡ some df
      → ((b : List (Tick P)) → run.accepts b ≡ true)
      → let rows = filter (in_window (calc_window cfg run.now (lookup symbol s.wm)).0 run.now) df in
        let cutoff = iloc_back cfg.overlap_bars (datetimes rows) in
        cfg.overlap_bars < length rows
        → (batch : List (Tick P)) × (l : ℕ) × ((run_symbol cfg run (exchange, symbol) s).published
            ≡ s.published ++ batch ∷ [])
          × All (λ t. cutoff ≤ t.ts_ns) batch
          × (lookup symbol (run_symbol cfg run (exchange, symbol) s).wm ≡ some l)
          × (cutoff ≤ l)
  unfolding run_symbol
  run_symbol-skips cfg run exchange symbol w df s set found takes many =
      let rows = filter (in_window (calc_window cfg run.now (lookup symbol s.wm)).0 run.now) df in
      rw (found, run_symbol) (emitted rows many)
    where
      emitted :
          (rows : List (TvRow P))
          → cfg.overlap_bars < length rows
          → (batch : List (Tick P)) × (l : ℕ) × ((emit_window cfg run.accepts exchange symbol rows
                s).published
              ≡ s.published ++ batch ∷ [])
            × All (λ t. iloc_back cfg.overlap_bars (datetimes rows) ≤ t.ts_ns) batch
            × (lookup symbol (emit_window cfg run.accepts exchange symbol rows s).wm ≡ some l)
            × (iloc_back cfg.overlap_bars (datetimes rows) ≤ l)
      emitted [] many = absurd (omega (arith, many))
      emitted (r ∷ rows) many =
          let c = recent_cutoff cfg (lookup symbol s.wm) (r ∷ rows) in
          let eq = cut cfg w (r ∷ rows) (lookup symbol s.wm) set many in
          let (batch, l, done, all, at, over) =
            emit_at run.accepts exchange symbol c (r ∷ rows) s takes
              (λ old. some_recent cfg.overlap_bars (r ∷ rows) (omega (arith, many)) c eq old) in
          (
            batch,
            l,
            done,
            subst (λ x. All (λ t. x ≤ t.ts_ns) batch) eq all,
            at,
            omega (arith, eq, over),
          )
