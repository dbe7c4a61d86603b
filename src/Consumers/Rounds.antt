-- ===== src/Consumers/Rounds.antt =====
-- `dh_consumer_loop` and `journal_consumer_loop`, over a sink, a journal and a store that may raise.
use deepfeeder.Base.{ℕ, ◌+◌, Option, none, some, List, [], ◌∷◌, length, Bool, if◌then◌else◌}
use deepfeeder.Base.Options.{◌>>=◌}
use deepfeeder.Contracts.{Envelope}
use deepfeeder.EventStore.Interface.{EventStore}
use deepfeeder.EventBus.{Bus, look, ack_dh, ack_journal}

module _ {P : Type 0} (st : EventStore P) {Sink : Type 0}
    (write_envelope : Envelope P → Sink → Sink × Bool) where
  -- `write_envelope` answers the sink after it and whether it raised. `last` is the id of the last envelope that was written, `none` for the source's -1.
  pub record DhLoop : Type 0 where
    pub bus : Bus st
    pub sink : Sink
    pub last : Option ℕ
    pub envs_total : ℕ
    pub rows_total : ℕ

  -- The inner loop: an envelope on which the sink raises is passed over, and what was written of it stays.
  unfoldable pub write_all : List (Envelope P) → DhLoop → DhLoop
  write_all [] s = s
  write_all (env ∷ envs) s =
      let (sink, raised) = write_envelope env s.sink in
      write_all envs (
        if raised then record s { sink = sink } else record s {
          sink = sink;
          last = some env.batch_id;
          envs_total = s.envs_total + 1;
          rows_total = s.rows_total + length env.rows;
        })

  unfoldable pub ack_last : Option ℕ → DhLoop → DhLoop
  ack_last none s = s
  ack_last (some last) s = record s { bus = ack_dh st last s.bus }

  unfoldable pub write_round : List (Envelope P) → DhLoop → DhLoop
  unfolding ack_last write_all
  write_round [] s = s
  write_round (env ∷ envs) s = let s' = write_all (env ∷ envs) s in ack_last s'.last s'

  -- A round over what `drain_for_dh` found; an exception in the drain ends the round.
  unfoldable pub dh_round : DhLoop → Option DhLoop
  unfolding write_round
  dh_round s = do envs ← look st s.bus.dh_cursor 1024 s.bus; some (write_round envs s)

module _ {P : Type 0} (st : EventStore P) {Journal : Type 0}
    (append_envelope : Envelope P → Journal → Option (Journal × ℕ))
    (mark_committed : ℕ → st.Store → Option st.Store) where
  -- The bus holds the event store, which is one object for both. `last_bid` is that of the round.
  pub record JournalLoop : Type 0 where
    pub bus : Bus st
    pub journal : Journal
    pub next_id : ℕ
    pub last_committed : Option ℕ
    pub last_bid : Option ℕ
    pub envs_total : ℕ
    pub rows_total : ℕ

  -- The start position of the loop.
  unfoldable pub start_journal : Bus st → Journal → JournalLoop
  start_journal b j = record {
    bus = b;
    journal = j;
    next_id = st.last_committed b.event_store + 1;
    last_committed = some (st.last_committed b.event_store);
    last_bid = none;
    envs_total = 0;
    rows_total = 0;
  }

  -- The inner loop: a failed append goes on with the next envelope, a failed mark ends the loop.
  unfoldable pub commit_all : List (Envelope P) → JournalLoop → JournalLoop
  commit_all [] s = s
  commit_all (env ∷ envs) s = elim (append_envelope env s.journal) [
    | none ↦ commit_all envs s
    | some (journal, added) ↦
        let appended : JournalLoop = record s {
          journal = journal;
          rows_total = s.rows_total + added;
        } in
        elim (mark_committed env.batch_id s.bus.event_store) [
          | none ↦ appended
          | some store ↦ commit_all envs (record appended {
            bus = record s.bus { event_store = store };
            last_committed = some env.batch_id;
            next_id = env.batch_id + 1;
            last_bid = some env.batch_id;
            envs_total = s.envs_total + 1;
          })
        ]
  ]

  unfoldable pub ack_bid : Option ℕ → JournalLoop → JournalLoop
  ack_bid none s = s
  ack_bid (some bid) s = record s { bus = ack_journal st bid s.bus }

  unfoldable pub commit_round : List (Envelope P) → JournalLoop → JournalLoop
  unfolding ack_bid commit_all
  commit_round envs s =
      let s' = commit_all envs (record s { last_bid = none }) in ack_bid s'.last_bid s'

  -- The pending envelopes of the store, and those of the bus if there are none.
  unfoldable pub fetch : JournalLoop → Option (List (Envelope P))
  fetch s = do
    envs ← st.next_from s.next_id 256 s.bus.event_store
    elim envs [ [] ↦ look st s.bus.jr_cursor 1024 s.bus | env ∷ rest ↦ some (env ∷ rest) ]

  unfoldable pub journal_round : JournalLoop → Option JournalLoop
  unfolding fetch commit_round
  journal_round s = do envs ← fetch s; some (commit_round envs s)
