-- ===== src/Tests/Storing.antt =====
-- The event store at three batches, with columns as their own bytes and whole times.
use deepfeeder.Base.{
  ℕ, ◌<◌, String, ◌≡◌, refl, false, none, some, [], ◌∷◌, map, filter, arith, ltb, inl, inr, Any,
  List,
}
use deepfeeder.Contracts.{Tick, Draft}
use deepfeeder.EventStore.Interface.{page}
use deepfeeder.EventStore.Codec.{
  Structs, ArrowTable, ticks_to_arrow, arrow_to_ticks, arrow_round_trip,
}
use deepfeeder.EventStore.DuckDb.{
  Formats, Row, Db, append, next_from, reopen, mark_committed, maybe_prune, prune_upto,
  maybe_vacuum,
}
use deepfeeder.EventStore.Laws.{IsValid, stored, append-IsValid, next_from-page}
use deepfeeder.EventStore.Retention.{mark_committed-keeps, reopen-above_committed}

abbrev pub structs_of : (P : Type 0) → Structs P
structs_of P = record {
  Struct = List P;
  to_struct = λ ps. ps;
  to_pylist = λ ps. ps;
  to_pylist-to_struct = λ ps. refl;
}

abbrev pub columns_of : (P : Type 0) → Formats P
columns_of P = record {
  structs = structs_of P;
  Blob = ArrowTable (List P);
  to_ipc = λ tbl. tbl;
  from_ipc = λ tbl. tbl;
  from_ipc-to_ipc = λ tbl. refl;
  timestamp = λ t. t;
}

abbrev pub columns : Formats String
columns = columns_of String

abbrev pub quote : ℕ → Tick String
quote ts = record {
  provider = "tradingview";
  stream = "quotes";
  symbol = "AAPL";
  ts_ns = ts;
  seq = none;
  payload = "{}";
  is_final = false;
}

abbrev pub draft : Draft String
draft = record {
  produced_at_ns = 1;
  first_offset = none;
  last_offset = none;
  rows = quote 1 ∷ quote 2 ∷ [];
}

abbrev pub empty_db_of : (P : Type 0) → Db (columns_of P)
empty_db_of P = record {
  event_store = [];
  next_value = 1;
  last_committed = 0;
  prune_interval = 10;
  prune_safety_batches = 1;
  vacuum_every_n_prunes = 1;
  last_prune_ts = 0;
  last_pruned_batch = 0;
  prune_count = 0;
  vacuums = 0;
}

abbrev pub empty_db : Db columns
empty_db = empty_db_of String

abbrev three : Db columns
three = (append columns draft (append columns draft (append columns draft empty_db).0).0).0

pub empty_db_of-IsValid : (P : Type 0) → IsValid (columns_of P) (empty_db_of P)
empty_db_of-IsValid P = record { rising = tt; below = tt; positive = omega arith; readable = tt }

pub empty_db-IsValid : IsValid columns empty_db
empty_db-IsValid = empty_db_of-IsValid String

three-IsValid : IsValid columns three
three-IsValid =
    append-IsValid columns draft _
      (append-IsValid columns draft _ (append-IsValid columns draft empty_db empty_db-IsValid))

-- Marking batch 3 prunes up to batch 2.
pruned : map (λ r. r.batch_id) (mark_committed columns 50 3 three).event_store ≡ 3 ∷ []
unfolding append mark_committed maybe_prune prune_upto maybe_vacuum
pruned = refl

arrow_round_trip_example :
    arrow_to_ticks (structs_of String) (ticks_to_arrow (structs_of String) draft.rows)
    ≡ some draft.rows
arrow_round_trip_example = arrow_round_trip (structs_of String) draft.rows

next_from-page_example : next_from columns 2 1 three ≡ some (page 2 1 (stored columns three))
next_from-page_example = next_from-page columns 2 1 three three-IsValid

mark_committed-keeps_example :
    IsValid columns (mark_committed columns 50 3 three)
    × ((mark_committed columns 50 3 three).last_committed ≡ 3)
    × (filter (λ e. ltb 2 e.batch_id) (stored columns (mark_committed columns 50 3 three))
        ≡ filter (λ e. ltb 2 e.batch_id) (stored columns three))
unfolding append
mark_committed-keeps_example = mark_committed-keeps columns 50 3 three three-IsValid

three-has_third : Any (λ (r : Row columns). r.batch_id ≡ 3) three.event_store
unfolding append
three-has_third = inr (inr (inl refl))

three-window : 0 < three.prune_safety_batches
unfolding append
three-window = omega arith

reopen-above_committed_example :
    IsValid columns (reopen columns (mark_committed columns 50 3 three))
    × (3 < (reopen columns (mark_committed columns 50 3 three)).next_value)
reopen-above_committed_example =
    reopen-above_committed columns 50 3 three three-IsValid three-window (omega arith)
      three-has_third
