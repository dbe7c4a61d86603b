-- ===== src/TradingView/Turns.antt =====
-- What a turn of the websocket loop leaves: every tick in the event store, and envelopes in the ring
-- that have lost their rows.
use deepfeeder.EventBus.Rows.{all_rows}
use deepfeeder.Base.{
  ℕ, zero, suc, ◌<◌, ◌≡◌, refl, sym, ap, ◌∙◌, subst, true, Option, some, List, [], ◌∷◌, ◌++◌,
  append-nil, map, filter, take, ltb, if◌then◌else◌, All, Any, All-take, All-filter, Any-filter,
  inl, inr, arith, Bool-cases,
}
use deepfeeder.Contracts.{Tick, Envelope}
use deepfeeder.EventStore.Interface.{EventStore}
use deepfeeder.EventBus.{Bus, look, or_store}
use deepfeeder.TradingView.Frames.{Text}
use deepfeeder.TradingView.{
  Floats, Quote, FeedConfig, Message, member, Feed, publish_batch_object, is_empty, flush_if_needed,
  on_messages, run_turn, seen, seen_envelope,
}
use deepfeeder.TradingView.Kept.{IsQuiet, text_quotes, IsOwn, kept, flush-Gains, on_messages-Gains}

module _ {F : Type 0} (st : EventStore (Quote F)) where
  -- An envelope of the ring as a drain finds it.
  seen-rows :
      (s : Feed st) (buf : List (Envelope (Quote F)))
      → All (λ (e : Envelope (Quote F)). member e.batch_id s.shared ≡ true) buf
      → All (λ (e : Envelope (Quote F)). e.rows ≡ s.batch) (map (seen_envelope st s) buf)
  seen-rows s [] own = tt
  seen-rows s (e ∷ buf) (h, own) = (rw h refl, seen-rows s buf own)

  flush-batch :
      (cfg : FeedConfig) (now : ℕ) (s : Feed st) → (flush_if_needed st cfg true now s).batch ≡ []
  unfolding flush_if_needed publish_batch_object
  flush-batch cfg now s = by_batch s.batch refl
    where
      by_batch :
          (b : List (Tick (Quote F)))
          → s.batch ≡ b
          → (if is_empty s.batch then s else publish_batch_object st cfg now s).batch ≡ []
      by_batch [] e = rw (e, is_empty) refl
      by_batch (t ∷ ts) e = rw e (elim (Bool-cases (cfg.refused_at now)) [
        | inl refused ↦ simp refused
        | inr accepted ↦ simp accepted
      ])

  seen-Newer :
      (last_id : ℕ) (s : Feed st) (buf : List (Envelope (Quote F)))
      → Any (λ (e : Envelope (Quote F)). last_id < e.batch_id) buf
      → Any (λ (e : Envelope (Quote F)). last_id < e.batch_id) (map (seen_envelope st s) buf)
  seen-Newer last_id s [] newer = elim newer [ ]
  seen-Newer last_id s (e ∷ buf) (inl h) = inl (ground (arith, h))
  seen-Newer last_id s (e ∷ buf) (inr newer) = inr (seen-Newer last_id s buf newer)

  -- A look answers from the ring when that has something.
  look-ring :
      (Q : Envelope (Quote F) → Type 0) (last_id max_n : ℕ) (b : Bus st)
      (es : List (Envelope (Quote F)))
      → 0 < max_n
      → Any (λ (e : Envelope (Quote F)). last_id < e.batch_id) es
      → All Q es
      → (out : List (Envelope (Quote F))) × (or_store st (take max_n es) last_id max_n b ≡ some out)
        × All Q out
  unfolding or_store
  look-ring Q last_id zero b es pos newer all = absurd (omega (arith, pos))
  look-ring Q last_id (suc n) b [] pos newer all = elim newer [ ]
  look-ring Q last_id (suc n) b (e ∷ es) pos newer all =
      (e ∷ take n es, refl, (all.0, All-take Q n es all.1))

module _ {R F : Type 0} (st : EventStore (Quote F)) (floats : Floats R F) (cfg : FeedConfig)
    (quiet : IsQuiet st cfg) (loads : Text → Option (Message R)) (raws : List Text) (ended : ℕ)
    (s : Feed st) where
  abbrev turned : Feed st
  turned = run_turn st floats cfg loads raws ended s

  -- The turn up to its flush, and what it gains.
  abbrev read : Feed st
  read = on_messages st floats cfg loads raws s

  run_turn-batch : turned.batch ≡ []
  unfolding run_turn
  run_turn-batch = flush-batch st cfg ended read

  run_turn-Gains :
      IsOwn st s
      → IsOwn st turned
        × (kept st turned ≡ kept st s ++ (text_quotes floats loads raws s.symbols).1)
  unfolding run_turn
  run_turn-Gains own =
      let g = on_messages-Gains st floats cfg quiet loads raws s own in
      let f = flush-Gains st cfg true ended read quiet g.0 in
      (f.0, f.2 ∙ append-nil (kept st read) ∙ g.2)

  -- Where no publish raises, the store is valid and the ring holds envelopes of this producer alone, after a turn of the loop the event store holds what it held, the batch that was waiting and the ticks of the turn's messages, in order, whatever the sizes and times that cut them into batches.
  pub run_turn-stores :
      IsOwn st s
      → all_rows (st.stored turned.bus.event_store)
        ≡ (all_rows (st.stored s.bus.event_store) ++ s.batch)
          ++ (text_quotes floats loads raws s.symbols).1
  run_turn-stores own =
      let rows = all_rows (st.stored turned.bus.event_store) in
      sym (append-nil rows) ∙ ap (λ b. rows ++ b) (sym run_turn-batch) ∙ (run_turn-Gains own).1

  -- Where no publish raises, the store is valid and the ring before the turn holds envelopes of this producer alone, after the turn a drain whose cursor is behind the ring gets envelopes without rows, since the list that was published is the one that was cleared.
  pub run_turn-empties :
      (last_id max_n : ℕ)
      → 0 < max_n
      → IsOwn st s
      → Any (λ (e : Envelope (Quote F)). last_id < e.batch_id) turned.bus.buf
      → (out : List (Envelope (Quote F))) × (look st last_id max_n (seen st turned) ≡ some out)
        × All (λ (e : Envelope (Quote F)). e.rows ≡ []) out
  unfolding look seen
  run_turn-empties last_id max_n positive own newer =
      let ring = map (seen_envelope st turned) turned.bus.buf in
      look-ring st (λ (e : Envelope (Quote F)). e.rows ≡ []) last_id max_n (seen st turned)
        (filter (λ (e : Envelope (Quote F)). ltb last_id e.batch_id) ring) positive
        (Any-filter _ _ ring (λ e h. ground (arith, h))
          (seen-Newer st last_id turned turned.bus.buf newer))
        (All-filter _ _ ring (
          subst (λ b. All (λ (e : Envelope (Quote F)). e.rows ≡ b) ring) run_turn-batch
            (seen-rows st turned turned.bus.buf (run_turn-Gains own).0.1)))
