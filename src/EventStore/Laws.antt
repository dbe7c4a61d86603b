-- ===== src/EventStore/Laws.antt =====
-- The DuckDB store keeps what `EventStore` promises, and never deletes what is not committed.
use deepfeeder.Base.{
  ℕ, ◌+◌, ◌-◌, ◌<◌, ◌≡◌, refl, ap, ◌∙◌, Option, none, some, List, [], ◌∷◌, ◌++◌, map, arith, take,
  filter, leb, All, All-filter, All-take, All-append, map-take, map-filter, map-append,
}
use deepfeeder.Base.Sort.{
  order_by-Rising, Rising, Below, Rising-filter, Rising-append, Below-append, Below-weaken,
}
use deepfeeder.Contracts.{Tick, Draft, Envelope}
use deepfeeder.EventStore.Interface.{EventStore, id_of, page}
use deepfeeder.EventStore.Codec.{ticks_to_arrow, arrow_to_ticks, arrow_round_trip}
use deepfeeder.EventStore.DuckDb.{
  Formats, Row, Db, row_id, none_if_negative, append, read_rows, next_from,
}

module _ {P : Type 0} (formats : Formats P) where
  abbrev pub rows_or_none : Option (List (Tick P)) → List (Tick P)
  rows_or_none none = []
  rows_or_none (some rows) = rows

  abbrev pub envelope_of : Row formats → Envelope P
  envelope_of r = record {
    batch_id = r.batch_id;
    draft = record {
      produced_at_ns = r.produced_at;
      first_offset = none_if_negative r.first_off;
      last_offset = none_if_negative r.last_off;
      rows = rows_or_none (arrow_to_ticks formats.structs (formats.from_ipc r.payload));
    };
  }

  abbrev pub Readable : Row formats → Type 0
  Readable r =
      (ticks : List (Tick P)) × (arrow_to_ticks formats.structs (formats.from_ipc r.payload)
        ≡ some ticks)

  abbrev pub stored : Db formats → List (Envelope P)
  stored s = map envelope_of s.event_store

  pub record IsValid (s : Db formats) : Type 0 where
    pub rising : Rising (row_id formats) 0 s.event_store
    pub below : Below (row_id formats) (s.next_value - 1) s.event_store
    pub positive : 0 < s.next_value
    pub readable : All Readable s.event_store

  pub append-IsValid : (d : Draft P) (s : Db formats) → IsValid s → IsValid (append formats d s).0
  unfolding append
  append-IsValid d s v = record {
    rising =
        Rising-append (row_id formats) 0 (s.next_value - 1) s.event_store _ v.rising v.below
          (omega arith) (omega (arith, v.positive));
    below =
        Below-append (row_id formats) (s.next_value + 1 - 1) s.event_store _
          (Below-weaken (row_id formats) (s.next_value - 1) (s.next_value + 1 - 1) s.event_store
            (omega arith) v.below)
          (omega arith);
    positive = omega arith;
    readable = All-append Readable s.event_store _ v.readable (
      (
        d.rows,
        ap (arrow_to_ticks formats.structs)
              (formats.from_ipc-to_ipc (ticks_to_arrow formats.structs d.rows))
            ∙ arrow_round_trip formats.structs d.rows,
      ),
      tt,
    );
  }

  pub append-stored :
      (d : Draft P) (s : Db formats)
      → IsValid s
      → (e : Envelope P) × (stored (append formats d s).0 ≡ stored s ++ e ∷ [])
        × (e.batch_id ≡ (append formats d s).1)
        × (e.rows ≡ d.rows)
        × Below id_of ((append formats d s).1 - 1) (stored s)
  unfolding append
  append-stored d s v = (
    _,
    map-append envelope_of s.event_store _,
    refl,
    ap rows_or_none (
        ap (arrow_to_ticks formats.structs)
          (formats.from_ipc-to_ipc (ticks_to_arrow formats.structs d.rows))
        ∙ arrow_round_trip formats.structs d.rows),
    Below-envelopes s.event_store v.below,
  )
    where
      Below-envelopes :
          (rows : List (Row formats))
          → Below (row_id formats) (s.next_value - 1) rows
          → Below id_of (s.next_value - 1) (map envelope_of rows)
      Below-envelopes [] b = tt
      Below-envelopes (r ∷ rows) b = (b.0, Below-envelopes rows b.1)

  read_rows-map :
      (rows : List (Row formats))
      → All Readable rows
      → read_rows formats rows ≡ some (map envelope_of rows)
  unfolding read_rows
  read_rows-map [] a = refl
  read_rows-map (r ∷ rows) ((ticks, e), a) = rw (e, read_rows-map rows a) refl

  -- On a valid store `next_from` answers the stored envelopes from the id on, in order, at most `max_n` of them.
  pub next_from-page :
      (from max_n : ℕ) (s : Db formats)
      → IsValid s
      → next_from formats from max_n s ≡ some (page from max_n (stored s))
  unfolding next_from
  next_from-page from max_n s v =
      let p = λ (r : Row formats). leb from r.batch_id in
      rw
        (order_by-Rising (row_id formats) 0 (filter p s.event_store)
          (Rising-filter (row_id formats) 0 p s.event_store v.rising))
        (read_rows-map (take max_n (filter p s.event_store))
            (All-take Readable max_n _ (All-filter Readable p s.event_store v.readable))
          ∙ ap some (
              map-take envelope_of max_n (filter p s.event_store)
              ∙ ap (take max_n)
                  (map-filter envelope_of (λ (e : Envelope P). leb from e.batch_id) s.event_store)))

  pub stored-Rising :
      (lo : ℕ) (rows : List (Row formats))
      → Rising (row_id formats) lo rows
      → Rising id_of lo (map envelope_of rows)
  stored-Rising lo [] r = tt
  stored-Rising lo (x ∷ rows) r = (r.0, stored-Rising x.batch_id rows r.1)

  -- The DuckDB store is an event store.
  abbrev pub duckdb_event_store : EventStore P
  duckdb_event_store = record {
    Store = Db formats;
    IsValid = IsValid;
    stored = stored;
    append = append formats;
    next_from = next_from formats;
    last_committed = λ s. s.last_committed;
    append-IsValid = append-IsValid;
    stored-append = append-stored;
    stored-Rising = λ s v. stored-Rising 0 s.event_store v.rising;
    next_from_lem = next_from-page;
  }
