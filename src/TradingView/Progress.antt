-- ===== src/TradingView/Progress.antt =====
-- Which bars are published, and how the watermarks go on.
use deepfeeder.Base.{
  ℕ, ◌≤◌, String, ◌≡◌, refl, ap, ◌∙◌, subst, Bool, Option, none, some, List, [], ◌∷◌, filter, ltb,
  arith, All, Bool-cases, Option-cases, inl, inr, str_eq, eq_iff,
}
use deepfeeder.Base.Dict.{lookup, lookup-insert}
use deepfeeder.Contracts.{Tick}
use deepfeeder.TradingView.Batches.{
  TvRow, TvConfig, TvProducer, TvRun, calc_window, later, recent_cutoff, tv_tick, to_ticks,
  in_window, set_watermark_of, publish_batch, emit_window, run_symbol, run_symbols, run_once_batch,
  run_batches,
}

-- A watermark that is set is set afterwards, and is not lower.
abbrev pub Forward : {P : Type 0} → TvProducer P → TvProducer P → Type 0
Forward s s' =
    (k : String) (v : ℕ) → lookup k s.wm ≡ some v → (v' : ℕ) × (lookup k s'.wm ≡ some v') × (v ≤ v')

-- The latest time that follows on `l`.
abbrev pub From : Option ℕ → Option ℕ → Type 0
From none r = Unit
From (some l) none = ⊥
From (some l) (some r) = l ≤ r

later-le : (o : Option ℕ) (t : ℕ) → From o (some (later o t)) × (t ≤ later o t)
later-le none t = (tt, omega arith)
later-le (some l) t = ground arith

pub From-trans :
    (o : Option ℕ) (l : ℕ) (r : Option ℕ) → From o (some l) → From (some l) r → From o r
From-trans none l r h k = tt
From-trans (some a) l none h k = k
From-trans (some a) l (some r) h k = omega (arith, h, k)

module _ {P : Type 0} where
  -- The ticks have the times of rows from the cutoff on, and none is later than the latest.
  abbrev pub Ticked : ℕ → Option ℕ → List (Tick P) → Type 0
  Ticked cutoff r ticks = All (λ t. (cutoff ≤ t.ts_ns) × From (some t.ts_ns) r) ticks

  pub to_ticks-Ticked :
      (exchange symbol : String) (cutoff : ℕ) (rows : List (TvRow P)) (latest : Option ℕ)
      → let (ticks, last) = to_ticks exchange symbol cutoff rows latest in
        Ticked cutoff last ticks × From latest last
  unfolding to_ticks tv_tick
  to_ticks-Ticked exchange symbol cutoff [] none = (tt, tt)
  to_ticks-Ticked exchange symbol cutoff [] (some l) = (tt, omega arith)
  to_ticks-Ticked exchange symbol cutoff (r ∷ rows) latest =
      elim (Bool-cases (ltb r.datetime cutoff)) [
        | inl old ↦ rw old (to_ticks-Ticked exchange symbol cutoff rows latest)
        | inr recent ↦
            let (ticked, from) =
              to_ticks-Ticked exchange symbol cutoff rows (some (later latest r.datetime)) in
            let (up, over) = later-le latest r.datetime in
            rw recent (
              (
                (
                  ground (arith, recent),
                  From-trans (some r.datetime) (later latest r.datetime) _ over from,
                ),
                ticked,
              ),
              From-trans latest (later latest r.datetime) _ up from,
            )
      ]

  publish_batch-Forward :
      (accepts : List (Tick P) → Bool) (symbol : String) (batch : List (Tick P)) (latest : Option ℕ)
      (s : TvProducer P)
      → From (lookup symbol s.wm) latest
      → Forward s (publish_batch accepts symbol (batch, latest) s)
  publish_batch-Forward accepts symbol [] latest s from k v e = (v, e, omega arith)
  publish_batch-Forward accepts symbol (t ∷ batch) latest s from k v e =
      elim (Bool-cases (accepts (t ∷ batch))) [
        | inr raised ↦ rw raised (v, e, omega arith)
        | inl taken ↦ rw taken (go latest from)
      ]
    where
      go :
          (latest : Option ℕ)
          → From (lookup symbol s.wm) latest
          → (v' : ℕ) × (lookup k (set_watermark_of symbol latest s.wm) ≡ some v') × (v ≤ v')
      go none from = (v, e, omega arith)
      go (some l) from = elim (Bool-cases (str_eq symbol k)) [
        | inl same ↦ (
          l,
          lookup-insert symbol k l s.wm ∙ rw same refl,
          subst (λ o. From o (some l)) (ap (λ j. lookup j s.wm) ((eq_iff symbol k).0 same) ∙ e)
              from,
        )
        | inr other ↦ (v, lookup-insert symbol k l s.wm ∙ rw other e, omega arith)
      ]

  Forward-refl : (s : TvProducer P) → Forward s s
  Forward-refl s k v e = (v, e, omega arith)

  emit_window-Forward :
      (cfg : TvConfig) (accepts : List (Tick P) → Bool) (exchange symbol : String)
      (rows : List (TvRow P)) (s : TvProducer P)
      → Forward s (emit_window cfg accepts exchange symbol rows s)
  emit_window-Forward cfg accepts exchange symbol [] s = Forward-refl s
  emit_window-Forward cfg accepts exchange symbol (r ∷ rows) s =
      let wm = lookup symbol s.wm in
      let cutoff = recent_cutoff cfg wm (r ∷ rows) in
      let (batch, latest) = to_ticks exchange symbol cutoff (r ∷ rows) wm in
      publish_batch-Forward accepts symbol batch latest s
        (to_ticks-Ticked exchange symbol cutoff (r ∷ rows) wm).1

  Forward-trans : (s s' s'' : TvProducer P) → Forward s s' → Forward s' s'' → Forward s s''
  Forward-trans s s' s'' f g k v e =
      let (v', e', le) = f k v e in
      let (v'', e'', le') = g k v' e' in (v'', e'', omega (arith, le, le'))

  run_symbol-Forward :
      (cfg : TvConfig) (run : TvRun P) (x : String × String) (s : TvProducer P)
      → Forward s (run_symbol cfg run x s)
  unfolding run_symbol
  run_symbol-Forward cfg run (exchange, symbol) s =
      let (start, n_req) = calc_window cfg run.now (lookup symbol s.wm) in
      elim (Option-cases (run.fetch exchange symbol n_req)) [
        | inl nothing ↦ rw (nothing, run_symbol) (Forward-refl s)
        | inr (df, found) ↦
            rw (found, run_symbol)
              (emit_window-Forward cfg run.accepts exchange symbol
                (filter (in_window start run.now) df) s)
      ]

  run_symbols-Forward :
      (cfg : TvConfig) (run : TvRun P) (xs : List (String × String)) (s : TvProducer P)
      → Forward s (run_symbols cfg run xs s)
  unfolding run_symbols
  run_symbols-Forward cfg run [] s = Forward-refl s
  run_symbols-Forward cfg run (x ∷ xs) s =
      Forward-trans s (run_symbol cfg run x s) (run_symbols cfg run xs (run_symbol cfg run x s))
        (run_symbol-Forward cfg run x s) (run_symbols-Forward cfg run xs (run_symbol cfg run x s))

  -- Over any runs of the loop, whatever the API answers, at whatever times, and whatever the bus
  -- refuses, a watermark that is set stays set and never goes back.
  run_batches-Forward :
      (cfg : TvConfig) (runs : List (TvRun P)) (s : TvProducer P)
      → Forward s (run_batches cfg runs s)
  unfolding run_batches run_once_batch
  run_batches-Forward cfg [] s = Forward-refl s
  run_batches-Forward cfg (run ∷ runs) s =
      Forward-trans s (run_once_batch cfg run s) (run_batches cfg runs (run_once_batch cfg run s))
        (run_symbols-Forward cfg run cfg.symbols s)
        (run_batches-Forward cfg runs (run_once_batch cfg run s))
