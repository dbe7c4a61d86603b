-- ===== src/EventBus/Delivery.antt =====
-- What a drain delivers, and what the ring keeps for it.
use deepfeeder.Base.{
  ℕ, ◌+◌, ◌≤◌, max, ◌≡◌, refl, sym, ap, ap₂, ◌∙◌, none, some, List, [], ◌∷◌, ◌++◌, map, arith, take,
  map-take, map-append, inl, inr, ◌⊎◌,
}
use deepfeeder.Contracts.{Tick, Draft, Envelope}
use deepfeeder.EventStore.Interface.{EventStore, page}
use deepfeeder.EventBus.Ring.{Bus, publish, or_store, look, ack_dh, ack_journal}
use deepfeeder.EventBus.Owed.{
  brief, after, after-append, after-evict, later, after-later, one_brief, page-after, top, le-top,
  page_split, Rising-after,
}

module _ {P : Type 0} (st : EventStore P) where
  -- The buffer holds what the store holds after the cursor.
  abbrev pub Caught : ℕ → Bus st → Type 0
  Caught c b = map brief (after c b.buf) ≡ map brief (after c (st.stored b.event_store))

  -- What a drain whose cursor is `c` is still owed.
  abbrev pub pending : ℕ → Bus st → List (ℕ × List (Tick P))
  pending c b = map brief (after c (st.stored b.event_store))

  pub record IsHot (b : Bus st) : Type 0 where
    pub valid : st.IsValid b.event_store
    pub dh : Caught b.dh_cursor b
    pub jr : Caught b.jr_cursor b

  Caught-later : (c d : ℕ) (b : Bus st) → c ≤ d → Caught c b → Caught d b
  Caught-later c d b h e =
      after-later c d b.buf h ∙ ap (later d) e ∙ sym (after-later c d (st.stored b.event_store) h)

  publish-Caught :
      (c now : ℕ) (rows : List (Tick P)) (b : Bus st)
      → st.IsValid b.event_store
      → (b.dh_cursor ≤ c) ⊎ (b.jr_cursor ≤ c)
      → Caught c b
      → Caught c (publish st now rows b).0
  unfolding publish
  publish-Caught c now rows b v passed e =
      let d : Draft P = record {
        produced_at_ns = now;
        first_offset = none;
        last_offset = none;
        rows = rows;
      } in
      let (new, kept, numbered, same, _) = st.stored-append d b.event_store v in
      let env : Envelope P = record { batch_id = (st.append d b.event_store).1; draft = d } in
      ap (map brief) (
        after-evict b.max_envelopes b.dh_cursor b.jr_cursor c (b.buf ++ env ∷ []) passed
        ∙ after-append c b.buf (env ∷ []))
      ∙ map-append brief (after c b.buf) (after c (env ∷ []))
      ∙ ap₂ (λ x y. x ++ y) e (one_brief c env new (sym numbered) (sym same))
      ∙ sym (map-append brief (after c (st.stored b.event_store)) (after c (new ∷ [])))
      ∙ sym
          (ap (map brief) (ap (after c) kept ∙ after-append c (st.stored b.event_store) (new ∷ [])))

  -- A bus is hot when its buffer holds all that the store holds after each of the two cursors. A publish
  -- whose steps nothing comes between keeps a hot bus hot, what the ring evicts included.
  pub publish-IsHot :
      (now : ℕ) (rows : List (Tick P)) (b : Bus st) → IsHot b → IsHot (publish st now rows b).0
  publish-IsHot now rows b h = record {
    valid = unfold publish in st.append-IsValid _ b.event_store h.valid;
    dh = unfold publish in publish-Caught b.dh_cursor now rows b h.valid (inl (omega arith)) h.dh;
    jr = unfold publish in publish-Caught b.jr_cursor now rows b h.valid (inr (omega arith)) h.jr;
  }

  ack_dh-IsHot : (id : ℕ) (b : Bus st) → IsHot b → IsHot (ack_dh st id b)
  unfolding ack_dh
  ack_dh-IsHot id b h = record {
    valid = h.valid;
    dh = Caught-later b.dh_cursor (max b.dh_cursor id) b (omega arith) h.dh;
    jr = h.jr;
  }

  ack_journal-IsHot : (id : ℕ) (b : Bus st) → IsHot b → IsHot (ack_journal st id b)
  unfolding ack_journal
  ack_journal-IsHot id b h = record {
    valid = h.valid;
    dh = h.dh;
    jr = Caught-later b.jr_cursor (max b.jr_cursor id) b (omega arith) h.jr;
  }

  look-Caught :
      (c max_n : ℕ) (b : Bus st)
      → st.IsValid b.event_store
      → Caught c b
      → (out : List (Envelope P)) × (look st c max_n b ≡ some out)
        × (map brief out ≡ take max_n (pending c b))
  unfolding look
  look-Caught c max_n b v e = go (take max_n (after c b.buf)) refl
    where
      go :
          (found : List (Envelope P))
          → take max_n (after c b.buf) ≡ found
          → (out : List (Envelope P)) × (or_store st found c max_n b ≡ some out)
            × (map brief out ≡ take max_n (pending c b))
      go [] f = (
        page (c + 1) max_n (st.stored b.event_store),
        st.next_from_lem (c + 1) max_n b.event_store v,
        map-take brief max_n _
            ∙ ap (λ es. take max_n (map brief es)) (page-after c (st.stored b.event_store)),
      )
      go (x ∷ out) f = (
        x ∷ out,
        refl,
        ap (map brief) (sym f) ∙ map-take brief max_n (after c b.buf) ∙ ap (take max_n) e,
      )

  -- If the store is valid and the buffer holds what the store holds after `c`, a look of the drain from `c` finds at most `max_n` envelopes; they and what is owed
  -- after the last of them are together exactly what was owed, in order.
  pub look_delivers :
      (c max_n : ℕ) (b : Bus st)
      → st.IsValid b.event_store
      → Caught c b
      → (out : List (Envelope P)) × (look st c max_n b ≡ some out)
        × (map brief out ≡ take max_n (pending c b))
        × (map brief out ++ pending (top c (map brief out)) b ≡ pending c b)
  look_delivers c max_n b v e =
      let (out, found, exact) = look-Caught c max_n b v e in
      let r = Rising-after c 0 (st.stored b.event_store) (st.stored-Rising b.event_store v) in
      (
        out,
        found,
        exact,
        rw exact (
            ap (λ l. take max_n (pending c b) ++ l)
              (after-later c (top c (take max_n (pending c b))) (st.stored b.event_store)
                (le-top c max_n (pending c b) r))
            ∙ page_split c max_n (pending c b) r),
      )
