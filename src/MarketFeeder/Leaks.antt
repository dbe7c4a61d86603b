-- ===== src/MarketFeeder/Leaks.antt =====
-- One callback that is subscribed twice to a key has one handle and two references.
use deepfeeder.Base.{
  ℕ, ◌+◌, ◌-◌, String, ◌≡◌, refl, sym, ap, ◌∙◌, inl, inr, Bool, true, Option, none, some, List,
  arith, Option-cases, ltb, ◌≢◌,
}
use deepfeeder.Base.Dict.{lookup, insert, lookup-insert, lookup-remove, str_eq_refl}
use deepfeeder.Listener.{SchemaSpec}
use deepfeeder.MarketFeeder.Subscriptions.{
  Handle, Feeder, Request, Setup, or_zero, feed_key, handle_of, ensure_listener, add_handle,
  subscribe, destroy_listener_if_unused, unsubscribe,
}
use deepfeeder.MarketFeeder.Counts.{ensured, is_some}

unsubscribe_missing :
    {F : Type 0} (h : String) (f : Feeder F) → lookup h f.handles ≡ none → unsubscribe h f ≡ f
unfolding unsubscribe
unsubscribe_missing h f e = rw (e, unsubscribe) refl

-- Releasing one of several references of a key keeps the key's listener.
released :
    {F : Type 0} (h : String) (i : Handle) (n : ℕ) (f : Feeder F)
    → lookup h f.handles ≡ some i
    → or_zero (lookup i.key f.refs) ≡ n + 2
    → (lookup h (unsubscribe h f).handles ≡ none)
      × (or_zero (lookup i.key (unsubscribe h f).refs) ≡ n + 1)
      × ((unsubscribe h f).lsn ≡ f.lsn)
unfolding unsubscribe destroy_listener_if_unused
released h i n f found several =
    let counted =
      ap or_zero (lookup-insert i.key i.key (or_zero (lookup i.key f.refs) - 1) f.refs)
      ∙ rw (str_eq_refl i.key) (omega (arith, several)) in
    let used : ltb 0
          (or_zero (lookup i.key (insert i.key (or_zero (lookup i.key f.refs) - 1) f.refs)))
        ≡ true =
      ground (arith, counted) in
    rw (found, unsubscribe, used)
      (lookup-remove h h f.handles ∙ rw (str_eq_refl h) refl, counted, refl)

module _ (setup : Setup) {F : Type 0} (r : Request) (spec : SchemaSpec)
    (known : setup.schemas r.provider r.data_schema ≡ some spec)
    (opens : setup.opens (feed_key setup r) ≡ true) where
  ensure_listener-known : (f : Feeder F) → ensure_listener setup r f ≢ none
  unfolding ensure_listener
  ensure_listener-known f raised = elim (Option-cases (lookup (feed_key setup r) f.lsn)) [
    | inr (l, there) ↦ cc (rw (there, ensure_listener) at raised)
    | inl new ↦ cc (rw (new, known, opens, ensure_listener) at raised)
  ]

  -- A subscription that succeeds.
  pub record Taken (cb : ℕ) (f f' : Feeder F) : Type 0 where
    pub info : Handle
    pub on_key : info.key ≡ feed_key setup r
    pub held : lookup (handle_of setup (feed_key setup r) cb) f'.handles ≡ some info
    pub refs :
        or_zero (lookup (feed_key setup r) f'.refs) ≡ or_zero (lookup (feed_key setup r) f.refs) + 1
    pub listening : is_some (lookup (feed_key setup r) f'.lsn) ≡ true

  subscribe-Taken :
      (cb : ℕ) (fields : Option (List String)) (only : Bool) (f : Feeder F)
      → Taken cb f (subscribe setup r cb fields only f).0
  unfolding subscribe add_handle
  subscribe-Taken cb fields only f = elim (ensured setup r counted) [
    | inl raised ↦ absurd (ensure_listener-known counted raised)
    | inr (f', done, same, refs, listens) ↦
        rw (done, subscribe)
          (record {
            info = record { key = key; callback = cb; fields = fields; only_completed = only };
            on_key = refl;
            held =
                lookup-insert handle handle
                  (record { key = key; callback = cb; fields = fields; only_completed = only })
                  f'.handles
                ∙ rw (str_eq_refl handle) refl;
            refs =
                ap (λ d. or_zero (lookup key d)) refs
                ∙ ap or_zero (lookup-insert key key (or_zero (lookup key f.refs) + 1) f.refs)
                ∙ rw (str_eq_refl key) refl;
            listening = listens key ∙ rw (str_eq_refl key) refl;
          })
  ]
    where
      key : String
      key = feed_key setup r

      handle : String
      handle = handle_of setup key cb

      counted : Feeder F
      counted = record f { refs = insert key (or_zero (lookup key f.refs) + 1) f.refs }

  -- If a callback is subscribed to a key a second time and then unsubscribed by the handle that both
  -- calls answer, the handle is gone, but the key has one reference more than before the two calls
  -- and keeps its listener; the handle cannot be unsubscribed again.
  subscribe_twice-leaks :
      (cb : ℕ) (fields fields' : Option (List String)) (only only' : Bool) (f : Feeder F)
      → let twice = (subscribe setup r cb fields' only' (subscribe setup r cb fields only f).0).0 in
        let after = unsubscribe (handle_of setup (feed_key setup r) cb) twice in
        (lookup (handle_of setup (feed_key setup r) cb) after.handles ≡ none)
        × (or_zero (lookup (feed_key setup r) after.refs)
            ≡ or_zero (lookup (feed_key setup r) f.refs) + 1)
        × (is_some (lookup (feed_key setup r) after.lsn) ≡ true)
        × (unsubscribe (handle_of setup (feed_key setup r) cb) after ≡ after)
  subscribe_twice-leaks cb fields fields' only only' f =
      let key = feed_key setup r in
      let h = handle_of setup key cb in
      let one = subscribe-Taken cb fields only f in
      let f1 = (subscribe setup r cb fields only f).0 in
      let two = subscribe-Taken cb fields' only' f1 in
      let f2 = (subscribe setup r cb fields' only' f1).0 in
      let refs : or_zero (lookup two.info.key f2.refs) ≡ or_zero (lookup key f.refs) + 2 =
        ap (λ k. or_zero (lookup k f2.refs)) two.on_key ∙ omega (arith, one.refs, two.refs) in
      let (gone, left, same) = released h two.info (or_zero (lookup key f.refs)) f2 two.held refs in
      (
        gone,
        ap (λ k. or_zero (lookup k (unsubscribe h f2).refs)) (sym two.on_key) ∙ left,
        ap (λ d. is_some (lookup key d)) same ∙ two.listening,
        unsubscribe_missing h (unsubscribe h f2) gone,
      )
