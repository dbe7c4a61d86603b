-- ===== src/EventStore/DuckDb.antt =====
-- `DuckDbEventStore`: the tables `event_store` and `acks`, the id sequence, and pruning.
-- Locks, the event log and CHECKPOINT, which change no row, are left out.
use deepfeeder.Base.{
  ℕ, zero, suc, ◌+◌, ◌-◌, max, ◌≡◌, Option, none, some, List, [], ◌∷◌, ◌++◌, length, take, filter,
  leb, ltb, not, ◌||◌, ◌==◌, if◌then◌else◌, ◌%◌, ℤ, pos, negsuc,
}
use deepfeeder.Base.Options.{◌>>=◌}
use deepfeeder.Base.Sort.{order_by}
use deepfeeder.Contracts.{Draft, Envelope}
use deepfeeder.EventStore.Codec.{Structs, ArrowTable, ticks_to_arrow, arrow_to_ticks}

-- What the store takes from pyarrow and duckdb: `_table_to_ipc_bytes` and its inverse, and what is
-- left of a time in nanoseconds after a TIMESTAMP column.
pub record Formats (P : Type 0) : Type 1 where
  pub structs : Structs P
  pub Blob : Type 0
  pub to_ipc : ArrowTable structs.Struct → Blob
  pub from_ipc : Blob → ArrowTable structs.Struct
  pub from_ipc-to_ipc : (tbl : ArrowTable structs.Struct) → from_ipc (to_ipc tbl) ≡ tbl
  pub timestamp : ℕ → ℕ

-- `x or -1`: an offset of 0 is written as -1, like a missing one.
abbrev pub or_minus_one : Option ℕ → ℤ
or_minus_one none = negsuc 0
or_minus_one (some zero) = negsuc 0
or_minus_one (some (suc n)) = pos (suc n)

-- `None if int(x) < 0 else int(x)`
abbrev pub none_if_negative : ℤ → Option ℕ
none_if_negative (pos n) = some n
none_if_negative (negsuc n) = none

module _ {P : Type 0} (formats : Formats P) where
  pub record Row : Type 0 where
    pub batch_id : ℕ
    pub produced_at : ℕ
    pub first_off : ℤ
    pub last_off : ℤ
    pub row_count : ℕ
    pub payload : formats.Blob

  -- `event_store` in the order of insertion. Times are whole numbers of one unit.
  pub record Db : Type 0 where
    pub event_store : List Row
    pub next_value : ℕ
    pub last_committed : ℕ
    pub prune_interval : ℕ
    pub prune_safety_batches : ℕ
    pub vacuum_every_n_prunes : ℕ
    pub last_prune_ts : ℕ
    pub last_pruned_batch : ℕ
    pub prune_count : ℕ
    pub vacuums : ℕ

  abbrev pub row_id : Row → ℕ
  row_id r = r.batch_id

  -- `max_batch_id`, and COALESCE(MAX(batch_id), 0)
  unfoldable pub max_batch_id : List Row → ℕ
  max_batch_id [] = 0
  max_batch_id (r ∷ rows) = max r.batch_id (max_batch_id rows)

  -- `__init__` over the file of a store that was closed: the sequence begins after the last row.
  unfoldable pub reopen : Db → Db
  unfolding max_batch_id
  reopen s = record s {
    next_value = max_batch_id s.event_store + 1;
    last_prune_ts = 0;
    last_pruned_batch = 0;
    prune_count = 0;
  }

  unfoldable pub append : Draft P → Db → Db × ℕ
  append d s = (
    record s {
      event_store =
          s.event_store
          ++ record {
            batch_id = s.next_value;
            produced_at = formats.timestamp d.produced_at_ns;
            first_off = or_minus_one d.first_offset;
            last_off = or_minus_one d.last_offset;
            row_count = length d.rows;
            payload = formats.to_ipc (ticks_to_arrow formats.structs d.rows);
          }
            ∷ [];
      next_value = s.next_value + 1;
    },
    s.next_value,
  )

  unfoldable pub read_row : Row → Option (Envelope P)
  read_row r = do
    rows ← arrow_to_ticks formats.structs (formats.from_ipc r.payload)
    some (record {
      batch_id = r.batch_id;
      draft = record {
        produced_at_ns = r.produced_at;
        first_offset = none_if_negative r.first_off;
        last_offset = none_if_negative r.last_off;
        rows = rows;
      };
    })

  unfoldable pub read_rows : List Row → Option (List (Envelope P))
  unfolding read_row
  read_rows [] = some []
  read_rows (r ∷ rows) = do e ← read_row r; es ← read_rows rows; some (e ∷ es)

  -- WHERE batch_id >= ? ORDER BY batch_id LIMIT ?
  unfoldable pub next_from : ℕ → ℕ → Db → Option (List (Envelope P))
  unfolding read_rows
  next_from next_batch_id max_n s =
      read_rows
        (take max_n (order_by row_id (filter (λ r. leb next_batch_id r.batch_id) s.event_store)))

  -- `_prune_upto_locked`, with the number of rows that it deletes.
  unfoldable pub prune_upto : ℕ → Db → Db × ℕ
  prune_upto cutoff s =
      let n = length (filter (λ r. leb r.batch_id cutoff) s.event_store) in
      if n == 0
      then (s, 0)
      else (record s { event_store = filter (λ r. not (leb r.batch_id cutoff)) s.event_store }, n)

  -- `force_vacuum` runs after every n-th prune, for an n above 0.
  unfoldable pub maybe_vacuum : Db → Db
  maybe_vacuum s =
      if s.prune_count % s.vacuum_every_n_prunes == 0
      then record s { vacuums = s.vacuums + 1 }
      else s

  -- `_maybe_prune_locked` at the time `now`. Where the source's cutoff is negative or 0, so is this.
  unfoldable pub maybe_prune : ℕ → Db → Db
  unfolding prune_upto maybe_vacuum
  maybe_prune now s =
      let cutoff = s.last_committed - s.prune_safety_batches in
      let (pruned, deleted) = prune_upto cutoff s in
      if s.prune_interval == 0 || ltb (now - s.last_prune_ts) s.prune_interval
      then s
      else if cutoff == 0 || leb cutoff s.last_pruned_batch
      then record s { last_prune_ts = now }
      else maybe_vacuum (record pruned {
        last_pruned_batch = cutoff;
        last_prune_ts = now;
        prune_count = s.prune_count + 1;
      })

  unfoldable pub mark_committed : ℕ → ℕ → Db → Db
  unfolding maybe_prune
  mark_committed now batch_id s = maybe_prune now (record s { last_committed = batch_id })
