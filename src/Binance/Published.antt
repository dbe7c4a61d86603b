-- ===== src/Binance/Published.antt =====
-- The ticks of a turn of the websocket loop: where no publish raises all of them are in the event store,
-- and the drains find them there or in the ring.
use deepfeeder.Base.{
  ℕ, ◌≡◌, refl, sym, ap, ◌∙◌, String, Bool, true, false, Option, none, some, List, [], ◌∷◌, ◌++◌,
  append-nil, append_assoc, All, Bool-cases, inl, inr, arith, ◌+◌,
}
use deepfeeder.Contracts.{Tick, Draft}
use deepfeeder.EventStore.Interface.{EventStore}
use deepfeeder.EventBus.{Bus, publish}
use deepfeeder.EventBus.Rows.{all_rows, all_rows-append}
use deepfeeder.EventBus.Delivery.{IsHot, publish-IsHot}
use deepfeeder.Binance.{
  TradeReadings, TradePayload, Loaded, read_trade, LiveConfig, Incoming, Closing, Live, flush_due,
  flush_filled, flush_live, published, noted, take_trade, on_trade, on_trades, loop_on,
  disconnected, live_turn,
}

abbrev listed : {A : Type 0} → Option A → List A
listed none = []
listed (some t) = t ∷ []

-- The ticks of some messages.
abbrev pub trades_of :
    {N F : Type 0}
    → TradeReadings N F
    → (String → Option (Loaded N))
    → List Incoming
    → List (Tick (TradePayload F))
trades_of rd loads [] = []
trades_of rd loads (m ∷ ms) = listed (read_trade rd loads m.message) ++ trades_of rd loads ms

module _ {P : Type 0} (st : EventStore P) where
  publish-rows :
      (now : ℕ) (rows : List (Tick P)) (b : Bus st)
      → IsHot st b
      → all_rows (st.stored (publish st now rows b).0.event_store)
        ≡ all_rows (st.stored b.event_store) ++ rows
  unfolding publish
  publish-rows now rows b hot =
      let draft : Draft P = record {
        produced_at_ns = now;
        first_offset = none;
        last_offset = none;
        rows = rows;
      } in
      let (e, appended, same_id, same_rows, below) =
        st.stored-append draft b.event_store hot.valid in
      ap all_rows appended
      ∙ all_rows-append (st.stored b.event_store) (e ∷ [])
      ∙ ap (λ l. all_rows (st.stored b.event_store) ++ l) (append-nil e.rows ∙ same_rows)

module _ {F : Type 0} (st : EventStore (TradePayload F)) where
  abbrev held : Live st → List (Tick (TradePayload F))
  held s = all_rows (st.stored s.live_bus.event_store) ++ s.live_batch

  -- From `s` to `s'` the store and the batch gain the ticks `ts`, and the bus stays hot.
  abbrev Grows : Live st → Live st → List (Tick (TradePayload F)) → Type 0
  Grows s s' ts = IsHot st s'.live_bus × (held s' ≡ held s ++ ts)

  Grows-none : (s : Live st) → IsHot st s.live_bus → Grows s s []
  Grows-none s hot = (hot, sym (append-nil (held s)))

  published-Grows :
      (now : ℕ) (s : Live st) → IsHot st s.live_bus → Grows s (published st false now s) []
  published-Grows now s hot = (
    publish-IsHot st now s.live_batch s.live_bus hot,
    ap (λ l. l ++ []) (publish-rows st now s.live_batch s.live_bus hot),
  )

  -- A flush whose publish does not raise does not raise, and loses nothing.
  flush-Grows :
      (cfg : LiveConfig) (force : Bool) (now : ℕ) (s : Live st)
      → IsHot st s.live_bus
      → ((flush_live st cfg false force now s).1 ≡ false)
        × Grows s (flush_live st cfg false force now s).0 []
  unfolding flush_live
  flush-Grows cfg force now s hot = by_batch s.live_batch
    where
      by_batch :
          (b : List (Tick (TradePayload F)))
          → ((flush_filled st cfg false force now s b).1 ≡ false)
            × Grows s (flush_filled st cfg false force now s b).0 []
      by_batch [] = (refl, Grows-none s hot)
      by_batch (t ∷ ts) = elim (Bool-cases (flush_due st cfg force now s)) [
        | inl yes_now ↦ rw yes_now (refl, published-Grows now s hot)
        | inr later ↦ rw later (refl, Grows-none s hot)
      ]

  flush-batch :
      (cfg : LiveConfig) (refused : Bool) (now : ℕ) (s : Live st)
      → (flush_live st cfg refused true now s).0.live_batch ≡ []
  unfolding flush_live
  flush-batch cfg refused now s = by_batch s.live_batch refl
    where
      by_batch :
          (b : List (Tick (TradePayload F)))
          → s.live_batch ≡ b
          → (flush_filled st cfg refused true now s b).0.live_batch ≡ []
      by_batch [] e = e
      by_batch (t ∷ ts) e = cleared refused
        where
          cleared : (r : Bool) → (published st r now s).live_batch ≡ []
          cleared true = refl
          cleared false = refl

  Grows-then :
      (a b c : Live st) (ts us : List (Tick (TradePayload F)))
      → Grows a b ts
      → Grows b c us
      → Grows a c (ts ++ us)
  Grows-then a b c ts us g h = (h.0, h.1 ∙ ap (λ l. l ++ us) g.1 ∙ append_assoc (held a) ts us)

  noted-Grows :
      (s : Live st) (flushed : Live st × Bool) (ts : List (Tick (TradePayload F)))
      → flushed.1 ≡ false
      → Grows s flushed.0 ts
      → Grows s (noted st flushed) ts
  noted-Grows s (s', false) ts e g = g
  noted-Grows s (s', true) ts e g = absurd (ground (arith, e))

  take-Grows :
      (cfg : LiveConfig) (m : Incoming) (out : Option (Tick (TradePayload F))) (s : Live st)
      → m.refused ≡ false
      → IsHot st s.live_bus
      → Grows s (take_trade st cfg m out s) (listed out)
  unfolding take_trade
  take-Grows cfg m none s quiet hot = Grows-none s hot
  take-Grows cfg m (some t) s quiet hot =
      let s' : Live st = record s {
        live_batch = s.live_batch ++ t ∷ [];
        live_count = s.live_count + 1;
      } in
      let (calm, g) = flush-Grows cfg false m.at s' hot in
      noted-Grows s (flush_live st cfg m.refused false m.at s') (t ∷ []) (rw quiet calm) (
        rw quiet (
          g.0,
          g.1
              ∙ append-nil (held s')
              ∙ sym (
                  append_assoc (all_rows (st.stored s.live_bus.event_store)) s.live_batch (t ∷ [])),
        ))

  loop_on-kept :
      (c : Closing) (s : Live st) (flushed : Live st × Bool) (ts : List (Tick (TradePayload F)))
      → Grows s flushed.0 ts
      → Grows s (loop_on st c flushed) ts
  loop_on-kept c s (s', true) ts g = g
  loop_on-kept c s (s', false) ts g = elim (Bool-cases c.stop_set) [
    | inl stops ↦ rw stops g
    | inr goes ↦ rw goes g
  ]

  loop_on-batch :
      (c : Closing) (flushed : Live st × Bool)
      → (loop_on st c flushed).live_batch ≡ flushed.0.live_batch
  loop_on-batch c (s, true) = refl
  loop_on-batch c (s, false) = elim (Bool-cases c.stop_set) [
    | inl stops ↦ rw stops refl
    | inr goes ↦ rw goes refl
  ]

  disconnected-Grows :
      (c : Closing) (s : Live st) → IsHot st s.live_bus → Grows s (disconnected st c s) []
  disconnected-Grows c s hot = elim (Bool-cases c.loop_raised) [
    | inl failed ↦ rw failed (Grows-none s hot)
    | inr closed ↦ rw closed (Grows-none s hot)
  ]

module _ {N F : Type 0} (st : EventStore (TradePayload F)) (rd : TradeReadings N F)
    (loads : String → Option (Loaded N)) (cfg : LiveConfig) where
  on_trades-Grows :
      (ms : List Incoming) (s : Live st)
      → All (λ (m : Incoming). m.refused ≡ false) ms
      → IsHot st s.live_bus
      → Grows st s (on_trades st rd loads cfg ms s) (trades_of rd loads ms)
  unfolding on_trades on_trade
  on_trades-Grows [] s quiet hot = Grows-none st s hot
  on_trades-Grows (m ∷ ms) s (h, quiet) hot =
      let s' = on_trade st rd loads cfg m s in
      let g = take-Grows st cfg m (read_trade rd loads m.message) s h hot in
      Grows-then st s s' (on_trades st rd loads cfg ms s') _ _ g (on_trades-Grows ms s' quiet g.0)

  -- On a hot bus, where no publish raises, a turn of the loop leaves the bus hot, its batch empty, and in the event store what it held, the batch that was waiting and the ticks of the turn's readable messages, in order.
  pub live_turn-stores :
      (ms : List Incoming) (c : Closing) (s : Live st)
      → All (λ (m : Incoming). m.refused ≡ false) ms
      → c.last_refused ≡ false
      → IsHot st s.live_bus
      → IsHot st (live_turn st rd loads cfg ms c s).live_bus
        × ((live_turn st rd loads cfg ms c s).live_batch ≡ [])
        × (all_rows (st.stored (live_turn st rd loads cfg ms c s).live_bus.event_store)
            ≡ (all_rows (st.stored s.live_bus.event_store) ++ s.live_batch)
              ++ trades_of rd loads ms)
  unfolding live_turn
  live_turn-stores ms c s quiet calm hot =
      let read = on_trades st rd loads cfg ms s in
      let gone = disconnected st c read in
      let g = on_trades-Grows ms s quiet hot in
      let d = disconnected-Grows st c read g.0 in
      let f = (flush-Grows st cfg true c.ended_at gone d.0).1 in
      let flushed = flush_live st cfg c.last_refused true c.ended_at gone in
      let turned = loop_on st c flushed in
      let all = Grows-then st s read gone _ _ g d in
      let whole =
        loop_on-kept st c s flushed _ (Grows-then st s gone flushed.0 _ [] all (rw calm f)) in
      let empty = loop_on-batch st c flushed ∙ flush-batch st cfg c.last_refused c.ended_at gone in
      let rows = all_rows (st.stored turned.live_bus.event_store) in
      (
        whole.0,
        empty,
        sym (append-nil rows)
            ∙ ap (λ b. rows ++ b) (sym empty)
            ∙ whole.1
            ∙ ap (λ ts. held st s ++ ts)
                (append-nil (trades_of rd loads ms ++ []) ∙ append-nil (trades_of rd loads ms)),
      )
