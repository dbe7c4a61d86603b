-- ===== src/MarketFeeder/Counts.antt =====
-- How many handles a key has, and what that says of the references and the listener of the key.
use deepfeeder.Base.{
  ℕ, ◌+◌, ◌-◌, ◌≤◌, ◌<◌, String, ◌≡◌, refl, ap, ◌⊎◌, inl, inr, Bool, true, false, Option, none,
  some, List, [], ◌∷◌, arith, str_eq, eq_iff, if◌then◌else◌, Bool-cases, Option-cases, ltb,
}
use deepfeeder.Base.Dict.{Dict, lookup, insert, remove, lookup-insert, lookup-remove, str_eq_refl}
use deepfeeder.MarketFeeder.Subscriptions.{
  Handle, Feeder, Request, Setup, or_zero, feed_key, handle_of, ensure_listener, add_handle,
  subscribe, destroy_listener_if_unused, unsubscribe, unsubscribe_each, drop_callback, new_listener,
  with_listener,
}

-- The number of handles on a key.
abbrev pub count : String → Dict Handle → ℕ
count k [] = 0
count k ((h, i) ∷ d) = (if str_eq i.key k then 1 else 0) + count k d

count-remove-le : (k h : String) (d : Dict Handle) → count k (remove h d) ≤ count k d
unfolding remove
count-remove-le k h [] = omega arith
count-remove-le k h ((j, i) ∷ d) = ground (arith, count-remove-le k h d)

count-remove :
    (h : String) (i : Handle) (d : Dict Handle)
    → lookup h d ≡ some i
    → count i.key (remove h d) + 1 ≤ count i.key d
unfolding remove lookup
count-remove h i [] e = cc e
count-remove h i ((j, i') ∷ d) e = elim (Bool-cases (str_eq j h)) [
  | inl here ↦
      let same : i' ≡ i = ground arith in
      rw (here, ap (λ (x : Handle). str_eq x.key i.key) same, str_eq_refl i.key)
        (omega (arith, count-remove-le i.key h d))
  | inr later ↦ rw later (omega (arith, count-remove h i d (ground arith)))
]

count-insert-le :
    (k h : String) (i : Handle) (d : Dict Handle)
    → count k (insert h i d) ≤ count k d + (if str_eq i.key k then 1 else 0)
unfolding insert
count-insert-le k h i [] = omega arith
count-insert-le k h i ((j, i') ∷ d) = ground (arith, count-insert-le k h i d)

abbrev pub is_some {ℓ} : {A : Type ℓ} → Option A → Bool
is_some none = false
is_some (some a) = true

module _ {F : Type 0} where
  -- References cover the handles of each key, and a key with a handle has a listener.
  pub record IsCounted (f : Feeder F) : Type 0 where
    pub counted : (k : String) → count k f.handles ≤ or_zero (lookup k f.refs)
    pub listening : (k : String) → 0 < count k f.handles → is_some (lookup k f.lsn) ≡ true

  destroy-IsCounted :
      (key : String) (f : Feeder F) → IsCounted f → IsCounted (destroy_listener_if_unused key f)
  unfolding destroy_listener_if_unused
  destroy-IsCounted key f v = elim (Bool-cases (ltb 0 (or_zero (lookup key f.refs)))) [
    | inl used ↦ rw used v
    | inr unused ↦ rw unused (record {
      counted = v.counted;
      listening = λ k h.
          ground (arith, lookup-remove key k f.lsn, v.counted k, v.listening k, eq_iff key k);
    })
  ]

  -- The feeder without a handle, before its listener is looked at.
  released-IsCounted :
      (h : String) (i : Handle) (subs : Dict (List ℕ)) (f : Feeder F)
      → lookup h f.handles ≡ some i
      → IsCounted f
      → IsCounted (record f {
        handles = remove h f.handles;
        subs = subs;
        refs = insert i.key (or_zero (lookup i.key f.refs) - 1) f.refs;
      })
  released-IsCounted h i subs f found v = record {
    counted = λ k. ground (
      arith,
      lookup-insert i.key k (or_zero (lookup i.key f.refs) - 1) f.refs,
      count-remove h i f.handles found,
      count-remove-le k h f.handles,
      v.counted k,
      v.counted i.key,
      eq_iff i.key k,
    );
    listening =
        λ k some_handle. v.listening k (omega (arith, count-remove-le k h f.handles, some_handle));
  }

  pub unsubscribe-IsCounted :
      (h : String) (f : Feeder F) → IsCounted f → IsCounted (unsubscribe h f)
  unfolding unsubscribe
  unsubscribe-IsCounted h f v = elim (Option-cases (lookup h f.handles)) [
    | inl missing ↦ rw (missing, unsubscribe) v
    | inr (i, found) ↦
        rw (found, unsubscribe)
          (destroy-IsCounted i.key _
            (released-IsCounted h i (drop_callback i.callback i.key f.subs) f found v))
  ]

  pub unsubscribe_each-IsCounted :
      (hs : List String) (f : Feeder F) → IsCounted f → IsCounted (unsubscribe_each hs f)
  unfolding unsubscribe_each
  unsubscribe_each-IsCounted [] f v = v
  unsubscribe_each-IsCounted (h ∷ hs) f v =
      unsubscribe_each-IsCounted hs (unsubscribe h f) (unsubscribe-IsCounted h f v)

  -- Unsubscribing every handle of a list leaves none of them.
  pub lookup-unsubscribe :
      (h j : String) (f : Feeder F)
      → lookup j (unsubscribe h f).handles ≡ (if str_eq h j then none else lookup j f.handles)
  unfolding unsubscribe destroy_listener_if_unused
  lookup-unsubscribe h j f = ground (arith, lookup-remove h j f.handles, eq_iff h j)

  module _ (setup : Setup) where
    -- What a listener that is ensured leaves: one more key with a listener, if it was not there.
    pub ensured :
        (r : Request) (f : Feeder F)
        → (ensure_listener setup r f ≡ none)
          ⊎ ((f' : Feeder F) × (ensure_listener setup r f ≡ some f')
              × (f'.handles ≡ f.handles)
              × (f'.refs ≡ f.refs)
              × ((k : String)
                  → is_some (lookup k f'.lsn)
                    ≡ (if str_eq (feed_key setup r) k then true else is_some (lookup k f.lsn))))
    unfolding ensure_listener
    ensured r f = elim (Option-cases (lookup (feed_key setup r) f.lsn)) [
      | inr (l, there) ↦ inr (
        f,
        rw (there, ensure_listener) refl,
        refl,
        refl,
        λ k. ground (
          arith,
          eq_iff (feed_key setup r) k,
          λ (e : feed_key setup r ≡ k). ap (λ j. lookup j f.lsn) e,
        ),
      )
      | inl new ↦ elim (Option-cases (setup.schemas r.provider r.data_schema)) [
        | inl unknown ↦ inl (rw (new, unknown, ensure_listener) refl)
        | inr (spec, known) ↦ elim (Bool-cases (setup.opens (feed_key setup r))) [
          | inr closed ↦ inl (rw (new, known, closed, ensure_listener) refl)
          | inl open_ ↦ inr (
            with_listener setup (feed_key setup r) spec f,
            rw (new, known, open_, ensure_listener) refl,
            refl,
            refl,
            λ k.
                ground (
                  arith,
                  lookup-insert (feed_key setup r) k (new_listener spec setup.buf_len) f.lsn,
                ),
          )
        ]
      ]
    ]

    referenced-IsCounted :
        (key : String) (f : Feeder F)
        → IsCounted f
        → IsCounted (record f { refs = insert key (or_zero (lookup key f.refs) + 1) f.refs })
    referenced-IsCounted key f v = record {
      counted = λ k. ground (
        arith,
        lookup-insert key k (or_zero (lookup key f.refs) + 1) f.refs,
        v.counted k,
        eq_iff key k,
        λ (e : key ≡ k). ap (λ j. lookup j f.refs) e,
      );
      listening = v.listening;
    }

    pub subscribe-IsCounted :
        (r : Request) (cb : ℕ) (fields : Option (List String)) (only : Bool) (f : Feeder F)
        → IsCounted f
        → IsCounted (subscribe setup r cb fields only f).0
    unfolding subscribe add_handle
    subscribe-IsCounted r cb fields only f v =
        let key = feed_key setup r in
        let counted = record f { refs = insert key (or_zero (lookup key f.refs) + 1) f.refs } in
        elim (ensured r counted) [
          | inl raised ↦ rw raised (referenced-IsCounted key f v)
          | inr (f', done, same, refs, listens) ↦ rw done (record {
            counted = λ k. ground (
              arith,
              same,
              refs,
              lookup-insert key k (or_zero (lookup key f.refs) + 1) f.refs,
              count-insert-le k (handle_of setup key cb)
                  (record { key = key; callback = cb; fields = fields; only_completed = only })
                  f'.handles,
              v.counted k,
              eq_iff key k,
              λ (e : key ≡ k). ap (λ j. lookup j f.refs) e,
            );
            listening = λ k some_handle. ground (
              arith,
              listens k,
              ap (count k) same,
              count-insert-le k (handle_of setup key cb)
                  (record { key = key; callback = cb; fields = fields; only_completed = only })
                  f'.handles,
              v.listening k,
            );
          })
        ]
