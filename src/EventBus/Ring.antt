-- ===== src/EventBus/Ring.antt =====
-- `EventBus`. `publish` is two steps, as it persists before it takes the lock; the lock makes the other
-- methods one step. A drain that waits looks at the bus again each time it wakes.
use deepfeeder.Base.{
  ℕ, ◌+◌, max, ◌&&◌, Option, none, some, List, [], ◌∷◌, ◌++◌, length, take, filter, leb, ltb,
  if◌then◌else◌,
}
use deepfeeder.Contracts.{Tick, Draft, Envelope}
use deepfeeder.EventStore.Interface.{EventStore}

module _ {P : Type 0} where
  -- The eviction loop of `publish`: the oldest envelopes go while the ring is over its limit and
  -- both drains have passed them.
  unfoldable pub evict : ℕ → ℕ → ℕ → List (Envelope P) → List (Envelope P)
  evict limit dh jr [] = []
  evict limit dh jr (e ∷ buf) =
      if ltb limit (length (e ∷ buf)) && (leb e.batch_id dh && leb e.batch_id jr)
      then evict limit dh jr buf
      else e ∷ buf

module _ {P : Type 0} (st : EventStore P) where
  pub record Bus : Type 0 where
    pub event_store : st.Store
    pub buf : List (Envelope P)
    pub max_envelopes : ℕ
    pub jr_cursor : ℕ
    pub dh_cursor : ℕ

  -- `__init__`
  unfoldable pub new_bus : st.Store → ℕ → Bus
  new_bus s limit = record {
    event_store = s;
    buf = [];
    max_envelopes = limit;
    jr_cursor = st.last_committed s;
    dh_cursor = st.last_committed s;
  }

  unfoldable pub set_dh_cursor : ℕ → Bus → Bus
  set_dh_cursor batch_id b = record b { dh_cursor = batch_id }

  -- The first step of `publish` at the time `now`: the envelope is persisted under a new id.
  abbrev pub persist : ℕ → List (Tick P) → Bus → Bus × Envelope P
  persist now rows b =
      let draft : Draft P = record {
        produced_at_ns = now;
        first_offset = none;
        last_offset = none;
        rows = rows;
      } in
      let (s, batch_id) = st.append draft b.event_store in
      (record b { event_store = s }, record { batch_id = batch_id; draft = draft })

  -- Its second step, under the lock.
  abbrev pub enqueue : Envelope P → Bus → Bus
  enqueue env b = record b {
    buf = evict b.max_envelopes b.dh_cursor b.jr_cursor (b.buf ++ env ∷ []);
  }

  -- `publish`, with the id that it returns, where no other publish comes between its steps.
  unfoldable pub publish : ℕ → List (Tick P) → Bus → Bus × ℕ
  publish now rows b = let (b', env) = persist now rows b in (enqueue env b', env.batch_id)

  unfoldable pub or_store : List (Envelope P) → ℕ → ℕ → Bus → Option (List (Envelope P))
  or_store [] last_id max_n b = st.next_from (last_id + 1) max_n b.event_store
  or_store (e ∷ out) last_id max_n b = some (e ∷ out)

  -- One look of `_drain` at the bus: the buffer first, then the durable store.
  unfoldable pub look : ℕ → ℕ → Bus → Option (List (Envelope P))
  unfolding or_store
  look last_id max_n b =
      or_store (take max_n (filter (λ e. ltb last_id e.batch_id) b.buf)) last_id max_n b

  -- `_drain`: a look at the bus as it is at each wake-up, until one finds something or the time is
  -- up.
  unfoldable pub drain : ℕ → ℕ → List Bus → Option (List (Envelope P))
  drain last_id max_n [] = some []
  drain last_id max_n (b ∷ bs) =
      let rest = drain last_id max_n bs in
      elim (look last_id max_n b) [
        | none ↦ none
        | some out ↦ elim out [ [] ↦ rest | e ∷ es ↦ some (e ∷ es) ]
      ]

  unfoldable pub ack_dh : ℕ → Bus → Bus
  ack_dh last_batch_id b = record b { dh_cursor = max b.dh_cursor last_batch_id }

  unfoldable pub ack_journal : ℕ → Bus → Bus
  ack_journal last_batch_id b = record b { jr_cursor = max b.jr_cursor last_batch_id }
