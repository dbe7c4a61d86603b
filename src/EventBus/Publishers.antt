-- ===== src/EventBus/Publishers.antt =====
-- Publishers whose two steps come in any order with each other and with the acknowledgements.
use deepfeeder.Base.{
  ℕ, zero, suc, ◌<◌, ◌≡◌, sym, subst, inl, inr, ◌⊎◌, Option, none, some, List, [], ◌∷◌, ◌++◌, arith,
  All, Any, Bool-cases, ltb, leb, length, ◌&&◌, All-append, append_assoc,
}
use deepfeeder.Contracts.{Tick, Envelope}
use deepfeeder.EventStore.Interface.{EventStore}
use deepfeeder.EventBus.Ring.{Bus, persist, enqueue, evict, ack_dh, ack_journal}

abbrev pub take_out : {A : Type 0} → ℕ → List A → Option (A × List A)
take_out n [] = none
take_out zero (x ∷ xs) = some (x, xs)
take_out (suc n) (x ∷ xs) = elim (take_out n xs) [ none ↦ none | some (y, ys) ↦ some (y, x ∷ ys) ]

-- A step of a publisher, where the n-th of the persisted envelopes goes into the ring, or of a drain.
pub data BusStep (P : Type 0) : Type 0 where
  persists : ℕ → List (Tick P) → BusStep P
  enqueues : ℕ → BusStep P
  acks_dh acks_journal : ℕ → BusStep P

Any-left : {A : Type 0} (Q : A → Type 0) (xs ys : List A) → Any Q xs → Any Q (xs ++ ys)
Any-left Q [] ys h = elim h [ ]
Any-left Q (x ∷ xs) ys (inl h) = inl h
Any-left Q (x ∷ xs) ys (inr h) = inr (Any-left Q xs ys h)

Any-right : {A : Type 0} (Q : A → Type 0) (xs ys : List A) → Any Q ys → Any Q (xs ++ ys)
Any-right Q [] ys h = h
Any-right Q (x ∷ xs) ys h = inr (Any-right Q xs ys h)

Any-either : {A : Type 0} (Q : A → Type 0) (xs ys : List A) → Any Q (xs ++ ys) → Any Q xs ⊎ Any Q ys
Any-either Q [] ys h = inr h
Any-either Q (x ∷ xs) ys (inl h) = inl (inl h)
Any-either Q (x ∷ xs) ys (inr h) = elim (Any-either Q xs ys h) [
  | inl old ↦ inl (inr old)
  | inr new ↦ inr new
]

-- What was in a list is the element that was taken out, or in the rest.
abbrev Splits : {A : Type 0} → (A → Type 0) → List A → Option (A × List A) → Type 0
Splits Q xs none = Unit
Splits Q xs (some (y, ys)) = Any Q xs → Q y ⊎ Any Q ys

Splits-later :
    {A : Type 0} (Q : A → Type 0) (x : A) (xs : List A) (o : Option (A × List A))
    → Splits Q xs o
    → Splits Q (x ∷ xs) (elim o [ none ↦ none | some (y, ys) ↦ some (y, x ∷ ys) ])
Splits-later Q x xs none h = tt
Splits-later Q x xs (some (y, ys)) h = λ found. elim found [
  | inl here ↦ inr (inl here)
  | inr later ↦ elim (h later) [ inl it ↦ inl it | inr rest ↦ inr (inr rest) ]
]

take_out-Splits : {A : Type 0} (Q : A → Type 0) (n : ℕ) (xs : List A) → Splits Q xs (take_out n xs)
take_out-Splits Q n [] = tt
take_out-Splits Q zero (x ∷ xs) = λ h. h
take_out-Splits Q (suc n) (x ∷ xs) = Splits-later Q x xs (take_out n xs) (take_out-Splits Q n xs)

-- Eviction keeps what a drain has not passed.
Any-evict :
    {P : Type 0} (Q : Envelope P → Type 0) (limit dh jr : ℕ) (buf : List (Envelope P))
    → ((e : Envelope P) → Q e → (dh < e.batch_id) ⊎ (jr < e.batch_id))
    → Any Q buf
    → Any Q (evict limit dh jr buf)
unfolding evict
Any-evict Q limit dh jr [] ahead h = h
Any-evict Q limit dh jr (e ∷ buf) ahead h =
    elim (Bool-cases (ltb limit (length (e ∷ buf)) && (leb e.batch_id dh && leb e.batch_id jr))) [
      | inr stays ↦ rw stays h
      | inl gone ↦ rw gone (elim h [
        | inl here ↦ absurd (ground (arith, ahead e here, gone))
        | inr later ↦ Any-evict Q limit dh jr buf ahead later
      ])
    ]

All-turn :
    {A : Type 0} (P Q : A → Type 0) (xs : List A) → ((x : A) → P x → Q x) → All P xs → All Q xs
All-turn P Q [] h all = tt
All-turn P Q (x ∷ xs) h all = (h x all.0, All-turn P Q xs h all.1)

module _ {P : Type 0} (st : EventStore P) where
  -- A bus, and the envelopes that are persisted and not yet in the ring.
  pub record Shared : Type 0 where
    pub bus : Bus st
    pub in_flight : List (Envelope P)

  abbrev pub put_in : Shared → Option (Envelope P × List (Envelope P)) → Shared
  put_in s none = s
  put_in s (some (env, rest)) = record { bus = enqueue st env s.bus; in_flight = rest }

  unfoldable pub after_bus_step : BusStep P → Shared → Shared
  unfolding ack_dh ack_journal
  after_bus_step (persists now rows) s =
      let (b, env) = persist st now rows s.bus in
      record { bus = b; in_flight = s.in_flight ++ env ∷ [] }
  after_bus_step (enqueues n) s = put_in s (take_out n s.in_flight)
  after_bus_step (acks_dh id) s = record s { bus = ack_dh st id s.bus }
  after_bus_step (acks_journal id) s = record s { bus = ack_journal st id s.bus }

  unfoldable pub after_bus_steps : List (BusStep P) → Shared → Shared
  unfolding after_bus_step
  after_bus_steps [] s = s
  after_bus_steps (x ∷ xs) s = after_bus_steps xs (after_bus_step x s)

  -- An envelope of the same id and rows that one of the drains has not passed.
  abbrev pub IsCopy : Envelope P → Envelope P → Type 0
  IsCopy e x = (x.batch_id ≡ e.batch_id) × (x.rows ≡ e.rows)

  abbrev pub IsAhead : Bus st → Envelope P → Type 0
  IsAhead b e = (b.dh_cursor < e.batch_id) ⊎ (b.jr_cursor < e.batch_id)

  -- The store is valid, and what it holds after either cursor is in the ring or on its way there.
  abbrev pub IsHeld : Shared → Type 0
  IsHeld s =
      st.IsValid s.bus.event_store
      × All (λ (e : Envelope P). IsAhead s.bus e → Any (IsCopy e) (s.bus.buf ++ s.in_flight))
          (st.stored s.bus.event_store)

  persists-IsHeld :
      (now : ℕ) (rows : List (Tick P)) (s : Shared)
      → IsHeld s
      → IsHeld (after_bus_step (persists now rows) s)
  unfolding after_bus_step
  persists-IsHeld now rows s (valid, held) =
      let (b, env) = persist st now rows s.bus in
      let (e, appended, same_id, same_rows, below) =
        st.stored-append env.draft s.bus.event_store valid in
      (
        st.append-IsValid env.draft s.bus.event_store valid,
        subst
            (All (λ (x : Envelope P).
              IsAhead s.bus x → Any (IsCopy x) (s.bus.buf ++ (s.in_flight ++ env ∷ []))))
            (sym appended)
            (All-append _ (st.stored s.bus.event_store) (e ∷ [])
              (All-turn _ _ (st.stored s.bus.event_store)
                (λ x old ahead.
                  subst (Any (IsCopy x)) (append_assoc s.bus.buf s.in_flight (env ∷ []))
                    (Any-left (IsCopy x) (s.bus.buf ++ s.in_flight) (env ∷ []) (old ahead)))
                held)
              (
                λ ahead. Any-right (IsCopy e) s.bus.buf (s.in_flight ++ env ∷ []) (
                    Any-right (IsCopy e) s.in_flight (env ∷ []) (inl (sym same_id, sym same_rows))),
                tt,
              )),
      )

  put_in-IsHeld :
      (s : Shared) (o : Option (Envelope P × List (Envelope P)))
      → ((e : Envelope P) → Splits (IsCopy e) s.in_flight o)
      → IsHeld s
      → IsHeld (put_in s o)
  put_in-IsHeld s none splits held = held
  put_in-IsHeld s (some (env, rest)) splits (valid, held) = (
    valid,
    All-turn _ _ (st.stored s.bus.event_store)
        (λ e old ahead.
          let kept : Any (IsCopy e) (s.bus.buf ++ env ∷ [])
              → Any (IsCopy e) (enqueue st env s.bus).buf =
            Any-evict (IsCopy e) s.bus.max_envelopes s.bus.dh_cursor s.bus.jr_cursor
              (s.bus.buf ++ env ∷ [])
              (λ x copy. elim ahead [
                | inl dh ↦ inl (omega (arith, dh, copy.0))
                | inr jr ↦ inr (omega (arith, jr, copy.0))
              ]) in
          let ring = (enqueue st env s.bus).buf in
          elim (Any-either (IsCopy e) s.bus.buf s.in_flight (old ahead)) [
            | inl there ↦
                Any-left (IsCopy e) ring rest
                  (kept (Any-left (IsCopy e) s.bus.buf (env ∷ []) there))
            | inr flying ↦ elim (splits e flying) [
              | inl it ↦
                  Any-left (IsCopy e) ring rest
                    (kept (Any-right (IsCopy e) s.bus.buf (env ∷ []) (inl it)))
              | inr other ↦ Any-right (IsCopy e) ring rest other
            ]
          ])
        held,
  )

  after_bus_step-IsHeld : (x : BusStep P) (s : Shared) → IsHeld s → IsHeld (after_bus_step x s)
  unfolding after_bus_step ack_dh ack_journal
  after_bus_step-IsHeld (persists now rows) s held = persists-IsHeld now rows s held
  after_bus_step-IsHeld (enqueues n) s held =
      put_in-IsHeld s (take_out n s.in_flight) (λ e. take_out-Splits (IsCopy e) n s.in_flight) held
  after_bus_step-IsHeld (acks_dh id) s (valid, held) = (
    valid,
    All-turn _ _ (st.stored s.bus.event_store)
        (λ e old ahead. old (elim ahead [ inl dh ↦ inl (omega (arith, dh)) | inr jr ↦ inr jr ]))
        held,
  )
  after_bus_step-IsHeld (acks_journal id) s (valid, held) = (
    valid,
    All-turn _ _ (st.stored s.bus.event_store)
        (λ e old ahead. old (elim ahead [ inl dh ↦ inl dh | inr jr ↦ inr (omega (arith, jr)) ]))
        held,
  )

  -- In whatever order several publishers persist and enqueue their envelopes and the drains acknowledge, if at first the store is valid and holds nothing after either cursor that is not in the ring or on its way there, then that stays so: eviction drops only what both drains have passed.
  pub after_bus_steps-IsHeld :
      (xs : List (BusStep P)) (s : Shared) → IsHeld s → IsHeld (after_bus_steps xs s)
  unfolding after_bus_steps
  after_bus_steps-IsHeld [] s held = held
  after_bus_steps-IsHeld (x ∷ xs) s held =
      after_bus_steps-IsHeld xs (after_bus_step x s) (after_bus_step-IsHeld x s held)
