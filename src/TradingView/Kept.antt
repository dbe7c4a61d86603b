-- ===== src/TradingView/Kept.antt =====
-- The ticks of a turn of the websocket loop: all in the event store, none where the drains look first.
use deepfeeder.EventBus.Rows.{all_rows, all_rows-append}
use deepfeeder.Base.{
  ℕ, ◌+◌, ◌≡◌, refl, sym, ap, ◌∙◌, subst, Bool, true, false, ◌&&◌, Option, none, some, List, [],
  ◌∷◌, ◌++◌, append-nil, append_assoc, length, ltb, leb, if◌then◌else◌, All, All-append, Bool-cases,
  inl, inr, arith,
}
use deepfeeder.Base.Dict.{Dict}
use deepfeeder.Contracts.{Tick, Draft, Envelope}
use deepfeeder.EventStore.Interface.{EventStore}
use deepfeeder.EventBus.{publish, evict}
use deepfeeder.TradingView.Frames.{Text, starts_with, iter_frames}
use deepfeeder.TradingView.{
  Floats, Symbol, Update, Quote, quote_one, FeedConfig, Message, qsd, other, member, Feed,
  publish_batch_object, is_empty, due, flush_if_needed, take_tick, handle_qsd, handle_message,
  handle_frames, handle_frame, on_message, on_messages,
}

All-evict :
    {P : Type 0} (Q : Envelope P → Type 0) (limit dh jr : ℕ) (buf : List (Envelope P))
    → All Q buf
    → All Q (evict limit dh jr buf)
unfolding evict
All-evict Q limit dh jr [] all = tt
All-evict Q limit dh jr (e ∷ buf) all =
    elim (Bool-cases (ltb limit (length (e ∷ buf)) && (leb e.batch_id dh && leb e.batch_id jr))) [
      | inl gone ↦ rw gone (All-evict Q limit dh jr buf all.1)
      | inr stays ↦ rw stays all
    ]

abbrev listed : {F : Type 0} → Option (Tick (Quote F)) → List (Tick (Quote F))
listed none = []
listed (some t) = t ∷ []

abbrev frame_message : {R : Type 0} → (Text → Option (Message R)) → Text → Option (Message R)
frame_message loads fr = if starts_with fr (b'~' ∷ b'h' ∷ b'~' ∷ []) then none else loads fr

module _ {R F : Type 0} (floats : Floats R F) where
  -- The symbols after some updates, and the ticks that they give.
  abbrev quotes : List (Update R) → Dict (Symbol F) → Dict (Symbol F) × List (Tick (Quote F))
  quotes [] d = (d, [])
  quotes (u ∷ us) d =
      let (d', out) = quote_one floats u d in
      let (d'', ts) = quotes us d' in (d'', listed out ++ ts)

  abbrev message_quotes :
      Option (Message R) → Dict (Symbol F) → Dict (Symbol F) × List (Tick (Quote F))
  message_quotes none d = (d, [])
  message_quotes (some (qsd us)) d = quotes us d
  message_quotes (some other) d = (d, [])

  module _ (loads : Text → Option (Message R)) where
    abbrev frame_quotes : List Text → Dict (Symbol F) → Dict (Symbol F) × List (Tick (Quote F))
    frame_quotes [] d = (d, [])
    frame_quotes (fr ∷ frs) d =
        let (d', ts) = message_quotes (frame_message loads fr) d in
        let (d'', more) = frame_quotes frs d' in (d'', ts ++ more)

    -- The ticks of some messages.
    abbrev pub text_quotes : List Text → Dict (Symbol F) → Dict (Symbol F) × List (Tick (Quote F))
    text_quotes [] d = (d, [])
    text_quotes (raw ∷ raws) d =
        let (d', ts) = frame_quotes (iter_frames raw) d in
        let (d'', more) = text_quotes raws d' in (d'', ts ++ more)

module _ {F : Type 0} (st : EventStore (Quote F)) where
  -- The store is valid, and every envelope of the ring is this producer's.
  abbrev pub IsOwn : Feed st → Type 0
  IsOwn s =
      st.IsValid s.bus.event_store
      × All (λ (e : Envelope (Quote F)). member e.batch_id s.shared ≡ true) s.bus.buf

  abbrev pub kept : Feed st → List (Tick (Quote F))
  kept s = all_rows (st.stored s.bus.event_store) ++ s.batch

  -- From `s` to `s'` the store and the batch gain the ticks `ts`.
  abbrev pub Gains : Feed st → Feed st → Dict (Symbol F) × List (Tick (Quote F)) → Type 0
  Gains s s' q = IsOwn s' × (s'.symbols ≡ q.0) × (kept s' ≡ kept s ++ q.1)

  Gains-none : (s : Feed st) → IsOwn s → Gains s s (s.symbols, [])
  Gains-none s own = (own, refl, sym (append-nil (kept s)))

  member_later : (x y : ℕ) (ys : List ℕ) → member x ys ≡ true → member x (y ∷ ys) ≡ true
  member_later x y ys h = ground (arith, h)

  All-member_later :
      (y : ℕ) (ys : List ℕ) (es : List (Envelope (Quote F)))
      → All (λ (e : Envelope (Quote F)). member e.batch_id ys ≡ true) es
      → All (λ (e : Envelope (Quote F)). member e.batch_id (y ∷ ys) ≡ true) es
  All-member_later y ys [] all = tt
  All-member_later y ys (e ∷ es) (h, all) =
      (member_later e.batch_id y ys h, All-member_later y ys es all)

  -- No publish raises.
  abbrev pub IsQuiet : FeedConfig → Type 0
  IsQuiet cfg = (now : ℕ) → cfg.refused_at now ≡ false

  publish-Gains :
      (cfg : FeedConfig) (now : ℕ) (s : Feed st)
      → IsQuiet cfg
      → IsOwn s
      → Gains s (publish_batch_object st cfg now s) (s.symbols, [])
  unfolding publish_batch_object publish
  publish-Gains cfg now s quiet own =
      let draft : Draft (Quote F) = record {
        produced_at_ns = now;
        first_offset = none;
        last_offset = none;
        rows = s.batch;
      } in
      let id = (st.append draft s.bus.event_store).1 in
      let (e, appended, same_id, same_rows, below) =
        st.stored-append draft s.bus.event_store own.0 in
      rw (quiet now) (
        (
          st.append-IsValid draft s.bus.event_store own.0,
          All-evict _ s.bus.max_envelopes s.bus.dh_cursor s.bus.jr_cursor _ (
              All-append _ s.bus.buf _ (All-member_later id s.shared s.bus.buf own.1)
                (ground arith, tt)),
        ),
        refl,
        ap (λ l. all_rows l ++ []) appended
            ∙ append-nil _
            ∙ all_rows-append (st.stored s.bus.event_store) (e ∷ [])
            ∙ ap (λ l. all_rows (st.stored s.bus.event_store) ++ l) (append-nil e.rows ∙ same_rows)
            ∙ sym (append-nil (kept s)),
      )

  pub flush-Gains :
      (cfg : FeedConfig) (force : Bool) (now : ℕ) (s : Feed st)
      → IsQuiet cfg
      → IsOwn s
      → Gains s (flush_if_needed st cfg force now s) (s.symbols, [])
  unfolding flush_if_needed
  flush-Gains cfg force now s quiet own = elim (Bool-cases (is_empty s.batch)) [
    | inl empty ↦ rw empty (Gains-none s own)
    | inr filled ↦ elim (Bool-cases (due st cfg force now s)) [
      | inl yes_now ↦ rw (filled, yes_now) (publish-Gains cfg now s quiet own)
      | inr later ↦ rw (filled, later) (Gains-none s own)
    ]
  ]

  Gains-then :
      (a b c : Feed st) (q : Dict (Symbol F) × List (Tick (Quote F)))
      (rest : Dict (Symbol F) → Dict (Symbol F) × List (Tick (Quote F)))
      → Gains a b q
      → Gains b c (rest b.symbols)
      → Gains a c ((rest q.0).0, q.1 ++ (rest q.0).1)
  Gains-then a b c q rest g h =
      let h' = subst (λ d. Gains b c (rest d)) g.1 h in
      (h'.0, h'.1, h'.2 ∙ ap (λ l. l ++ (rest q.0).1) g.2 ∙ append_assoc (kept a) q.1 (rest q.0).1)

  take-Gains :
      (cfg : FeedConfig) (now : ℕ) (out : Option (Tick (Quote F))) (s : Feed st)
      → IsQuiet cfg
      → IsOwn s
      → Gains s (take_tick st cfg now out s) (s.symbols, listed out)
  unfolding take_tick
  take-Gains cfg now none s quiet own = Gains-none s own
  take-Gains cfg now (some t) s quiet own =
      let s' : Feed st = record s { batch = s.batch ++ t ∷ []; msg_count = s.msg_count + 1 } in
      let g = flush-Gains cfg false now s' quiet own in
      (
        g.0,
        g.1,
        g.2
            ∙ append-nil (kept s')
            ∙ sym (append_assoc (all_rows (st.stored s.bus.event_store)) s.batch (t ∷ [])),
      )

module _ {R F : Type 0} (st : EventStore (Quote F)) (floats : Floats R F) (cfg : FeedConfig)
    (quiet : IsQuiet st cfg) where
  handle_qsd-Gains :
      (us : List (Update R)) (s : Feed st)
      → IsOwn st s
      → Gains st s (handle_qsd st floats cfg us s) (quotes floats us s.symbols)
  unfolding handle_qsd
  handle_qsd-Gains [] s own = Gains-none st s own
  handle_qsd-Gains (u ∷ us) s own =
      let (symbols, out) = quote_one floats u s.symbols in
      let s' : Feed st = record s { symbols = symbols } in
      let g = take-Gains st cfg u.at out s' quiet own in
      Gains-then st s (take_tick st cfg u.at out s')
        (handle_qsd st floats cfg us (take_tick st cfg u.at out s')) (symbols, listed out)
        (quotes floats us) g (handle_qsd-Gains us (take_tick st cfg u.at out s') g.0)

  module _ (loads : Text → Option (Message R)) where
    message-Gains :
        (fr : Text) (s : Feed st)
        → IsOwn st s
        → Gains st s
            (handle_frame st floats cfg loads fr s)
            (message_quotes floats (frame_message loads fr) s.symbols)
    unfolding handle_frame handle_message
    message-Gains fr s own = elim (Bool-cases (starts_with fr (b'~' ∷ b'h' ∷ b'~' ∷ []))) [
      | inl heartbeat ↦ rw heartbeat (Gains-none st s own)
      | inr text ↦ rw text (read (loads fr))
    ]
      where
        read :
            (m : Option (Message R))
            → Gains st s
                (elim m [ none ↦ s | some msg ↦ handle_message st floats cfg msg s ])
                (message_quotes floats m s.symbols)
        read none = Gains-none st s own
        read (some (qsd us)) = handle_qsd-Gains us s own
        read (some other) = Gains-none st s own

    handle_frames-Gains :
        (frs : List Text) (s : Feed st)
        → IsOwn st s
        → Gains st s
            (handle_frames st floats cfg loads frs s)
            (frame_quotes floats loads frs s.symbols)
    unfolding handle_frames
    handle_frames-Gains [] s own = Gains-none st s own
    handle_frames-Gains (fr ∷ frs) s own =
        let g = message-Gains fr s own in
        Gains-then st s (handle_frame st floats cfg loads fr s)
          (handle_frames st floats cfg loads frs (handle_frame st floats cfg loads fr s))
          (message_quotes floats (frame_message loads fr) s.symbols) (frame_quotes floats loads frs)
          g (handle_frames-Gains frs (handle_frame st floats cfg loads fr s) g.0)

    pub on_messages-Gains :
        (raws : List Text) (s : Feed st)
        → IsOwn st s
        → Gains st s
            (on_messages st floats cfg loads raws s)
            (text_quotes floats loads raws s.symbols)
    unfolding on_messages
    on_messages-Gains [] s own = Gains-none st s own
    on_messages-Gains (raw ∷ raws) s own =
        let g = handle_frames-Gains (iter_frames raw) s own in
        Gains-then st s (on_message st floats cfg loads raw s)
          (on_messages st floats cfg loads raws (on_message st floats cfg loads raw s))
          (frame_quotes floats loads (iter_frames raw) s.symbols) (text_quotes floats loads raws) g
          (on_messages-Gains raws (on_message st floats cfg loads raw s) g.0)
