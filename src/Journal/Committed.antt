-- ===== src/Journal/Committed.antt =====
-- `next_committed_from`: the batches of the append-only table as envelopes. Rows of a batch with equal
-- times come in the order of the table.
use deepfeeder.Base.{
  ℕ, zero, suc, ◌+◌, ◌==◌, none, List, [], ◌∷◌, ◌++◌, map, filter, take, ltb, leb, if◌then◌else◌,
}
use deepfeeder.Base.Sort.{order_by}
use deepfeeder.Contracts.{Tick, Envelope}
use deepfeeder.EventStore.Codec.{seq_to_cell, cell_to_seq}
use deepfeeder.Journal.Tables.{Hot, Journal}

-- DISTINCT and ORDER BY batch_id ASC.
unfoldable pub add_id : ℕ → List ℕ → List ℕ
add_id b [] = b ∷ []
add_id b (i ∷ is) = if ltb b i then b ∷ i ∷ is else if b == i then i ∷ is else i ∷ add_id b is

module _ {P : Type 0} where
  unfoldable pub ids_from : ℕ → List (Hot P) → List ℕ
  unfolding add_id
  ids_from start [] = []
  ids_from start (h ∷ hs) =
      if leb start h.batch_id then add_id h.batch_id (ids_from start hs) else ids_from start hs

  unfoldable pub read_back : Hot P → Tick P
  read_back h = record h.tick { seq = cell_to_seq (seq_to_cell h.tick.seq) }

  abbrev pub hot_ts : Hot P → ℕ
  hot_ts h = h.tick.ts_ns

  unfoldable pub batch_rows : ℕ → List (Hot P) → List (Hot P)
  batch_rows b hs = order_by hot_ts (filter (λ h. h.batch_id == b) hs)

  -- The time of the last row.
  abbrev pub last_ts_of : ℕ → List (Hot P) → ℕ
  last_ts_of t [] = t
  last_ts_of t (h ∷ hs) = last_ts_of (hot_ts h) hs

  abbrev pub envelope_of : ℕ → List (Hot P) → Envelope P
  envelope_of b rs = record {
    batch_id = b;
    draft = record {
      produced_at_ns = last_ts_of 0 rs;
      first_offset = none;
      last_offset = none;
      rows = map read_back rs;
    };
  }

  abbrev pub or_skip : ℕ → List (Hot P) → List (Envelope P) → List (Envelope P)
  or_skip b [] envs = envs
  or_skip b (r ∷ rs) envs = envelope_of b (r ∷ rs) ∷ envs

  -- The envelope of each batch that has rows.
  unfoldable pub envelopes : List (Hot P) → List ℕ → List (Envelope P)
  unfolding batch_rows read_back
  envelopes hs [] = []
  envelopes hs (b ∷ bs) = or_skip b (batch_rows b hs) (envelopes hs bs)

  unfoldable pub next_committed_from : ℕ → ℕ → Journal P → List (Envelope P)
  unfolding ids_from envelopes
  next_committed_from start limit j =
      envelopes j.journal_hot (take limit (ids_from start j.journal_hot))

  abbrev pub last_id_or : ℕ → List (Envelope P) → ℕ
  last_id_or b [] = b
  last_id_or b (e ∷ es) = last_id_or e.batch_id es

  -- Where a reader goes on after an answer: behind its last batch.
  abbrev pub go_on : ℕ → List (Envelope P) → ℕ
  go_on start [] = start
  go_on start (e ∷ es) = last_id_or e.batch_id es + 1

  -- What a reader gets in `n` fetches, each of which goes on behind the one before.
  unfoldable pub fetches : ℕ → ℕ → ℕ → Journal P → List (Envelope P)
  unfolding next_committed_from
  fetches zero start limit j = []
  fetches (suc n) start limit j =
      let envs = next_committed_from start limit j in envs ++ fetches n (go_on start envs) limit j
