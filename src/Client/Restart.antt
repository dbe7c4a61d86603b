-- ===== src/Client/Restart.antt =====
-- A bot that is started again after it was stopped.
use deepfeeder.Base.{
  ℕ, ◌<◌, ◌≡◌, refl, ◌∙◌, sym, true, false, Option, none, some, List, [], ◌∷◌, ◌++◌, length, map,
  arith, append_assoc, append-nil, subst,
}
use deepfeeder.Client.Trading.{
  ended, getting, holding, Bot, put_nowait, run_step, start, stop, Step, runs, starts, stops,
  after_step, after_steps, put_or,
}

module _ {E : Type 0} where
  -- A bot that runs and is about to dispatch `e`, with `es` in its queue.
  abbrev pub busy : ℕ → List E → E → List E → Bot E
  busy maxsize log e es = record {
    q = map some es;
    maxsize = maxsize;
    stop_set = false;
    paused = false;
    point = holding e;
    subscribed = true;
    dispatched = log;
  }

  abbrev reading : ℕ → List E → List E → Bot E
  reading maxsize log es = record {
    q = map some es ++ none ∷ [];
    maxsize = maxsize;
    stop_set = false;
    paused = false;
    point = getting;
    subscribed = true;
    dispatched = log;
  }

  -- Four steps for each envelope, and one for the sentinel.
  abbrev pub draining : List E → List (Step E)
  draining [] = runs true ∷ []
  draining (e ∷ es) = runs true ∷ runs true ∷ runs true ∷ runs true ∷ draining es

  reading-ends :
      (maxsize : ℕ) (log es : List E)
      → ((after_steps (draining es) (reading maxsize log es)).point ≡ ended)
        × ((after_steps (draining es) (reading maxsize log es)).stop_set ≡ false)
        × ((after_steps (draining es) (reading maxsize log es)).dispatched ≡ log ++ es)
  unfolding after_steps after_step run_step
  reading-ends maxsize log [] = (refl, refl, sym (append-nil log))
  reading-ends maxsize log (e ∷ es) =
      let (end, quiet, all) = reading-ends maxsize (log ++ e ∷ []) es in
      (end, quiet, all ∙ append_assoc log (e ∷ []) es)

  length-map : (es : List E) → length (map {B = Option E} some es) ≡ length es
  length-map [] = refl
  length-map (e ∷ es) = omega (arith, length-map es)

  queued :
      (maxsize : ℕ) (es : List E)
      → length es < maxsize
      → put_or (map some es) (put_nowait maxsize none (map some es)) ≡ map some es ++ none ∷ []
  queued maxsize es room = ground (arith, length-map es)

  -- A bot that is stopped while it dispatches an envelope ends after it, and leaves the sentinel in
  -- its queue, behind the envelopes that are there. Started again, the bot dispatches those and ends
  -- at the old sentinel, though `stop` was not called again.
  restart-ends :
      (maxsize : ℕ) (log es : List E) (e : E)
      → length es < maxsize
      → let b =
          after_steps
            (stops
              ∷ runs true
              ∷ runs true
              ∷ starts
              ∷ runs true
              ∷ runs true
              ∷ runs true
              ∷ draining es)
            (busy maxsize log e es) in
        (b.point ≡ ended) × (b.stop_set ≡ false) × (b.dispatched ≡ log ++ e ∷ es)
  unfolding after_steps after_step run_step start stop
  restart-ends maxsize log es e room =
      let (end, quiet, all) =
        subst
          (λ q.
            let b =
              after_steps (draining es) (record (reading maxsize (log ++ e ∷ []) es) { q = q }) in
            (b.point ≡ ended) × (b.stop_set ≡ false) × (b.dispatched ≡ (log ++ e ∷ []) ++ es))
          (sym (queued maxsize es room)) (reading-ends maxsize (log ++ e ∷ []) es) in
      (end, quiet, all ∙ append_assoc log (e ∷ []) es)
