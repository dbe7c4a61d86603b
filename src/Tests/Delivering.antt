-- ===== src/Tests/Delivering.antt =====
-- The bus over the event store, and the consumers with a sink and a journal that keep ids.
use deepfeeder.Sinks.Delivered.{dh_sink, all_written, last_whole, acked, write_round-written}
use deepfeeder.Sinks.Columns.{columns_by}
use deepfeeder.Sinks.{resolve, zip_rows, PairDict, WriterSpec, add, write_envelope}
use deepfeeder.EventBus.Owed.{brief, top}
use deepfeeder.Base.{
  ℕ, ◌<◌, String, ◌≡◌, refl, Option, none, some, List, [], ◌∷◌, ◌++◌, map, length, arith, ◌==◌,
  take, if◌then◌else◌, Bool, true, false, str_eq,
}
use deepfeeder.Contracts.{Tick, Envelope}
use deepfeeder.EventStore.Interface.{EventStore}
use deepfeeder.EventStore.Codec.{arrow_to_ticks, ticks_to_arrow}
use deepfeeder.EventStore.DuckDb.{Db, append}
use deepfeeder.EventStore.Laws.{duckdb_event_store}
use deepfeeder.EventBus.{Bus, new_bus, publish, look, evict}
use deepfeeder.EventBus.Delivery.{Caught, pending, IsHot, publish-IsHot, look_delivers}
use deepfeeder.EventBus.Publishers.{
  Shared, persists, enqueues, IsHeld, after_bus_steps, after_bus_steps-IsHeld,
}
use deepfeeder.EventBus.Backlog.{new_bus-IsHot, look-publish_backlog}
use deepfeeder.Consumers.{DhLoop, JournalLoop, start_journal, write_round}
use deepfeeder.Tests.Storing.{columns, quote, draft, empty_db, empty_db-IsValid}

abbrev st : EventStore String
st = duckdb_event_store columns

abbrev bus : Bus st
bus = new_bus st empty_db 1

bus-IsHot : IsHot st bus
bus-IsHot = new_bus-IsHot st empty_db 1 empty_db-IsValid refl

abbrev first : Bus st
first = (publish st 5 (quote 1 ∷ []) bus).0

first-IsHot : IsHot st first
first-IsHot = publish-IsHot st 5 (quote 1 ∷ []) bus bus-IsHot

-- Two publishers persist 1 and 2 and enqueue 2 first.
abbrev crossed : Shared st
crossed =
    after_bus_steps st (persists 5 (quote 1 ∷ []) ∷ persists 6 (quote 2 ∷ []) ∷ enqueues 1 ∷ [])
      (record { bus = bus; in_flight = [] })

after_bus_steps-IsHeld_example : IsHeld st crossed
unfolding new_bus
after_bus_steps-IsHeld_example =
    after_bus_steps-IsHeld st
      (persists 5 (quote 1 ∷ []) ∷ persists 6 (quote 2 ∷ []) ∷ enqueues 1 ∷ [])
      (record { bus = bus; in_flight = [] }) (empty_db-IsValid, tt)

-- A drain that looks now finds 2 alone, and once it has acknowledged that it never finds 1.
passes_over : map (λ (e : Envelope String). e.batch_id) crossed.bus.buf ≡ 2 ∷ []
unfolding after_bus_steps publish append new_bus evict arrow_to_ticks ticks_to_arrow
passes_over = refl

first-Caught : Caught st 0 first
unfolding publish append new_bus evict arrow_to_ticks ticks_to_arrow
first-Caught = refl

look_delivers_example :
    (out : List (Envelope String)) × (look st 0 8 first ≡ some out)
    × (map brief out ≡ take 8 (pending st 0 first))
    × (map brief out ++ pending st (top 0 (map brief out)) first ≡ pending st 0 first)
look_delivers_example = look_delivers st 0 8 first first-IsHot.valid first-Caught

-- A bus after a restart with one batch that was not committed.
abbrev restarted : Bus st
restarted = record {
  event_store = (append columns draft empty_db).0;
  buf = [];
  max_envelopes = 4;
  jr_cursor = 0;
  dh_cursor = 0;
}

restarted-owed : 0 < (publish st 9 (quote 3 ∷ []) restarted).1
unfolding publish append
restarted-owed = omega arith

look-publish_backlog_example :
    (env : Envelope String) × (look st 0 8 (publish st 9 (quote 3 ∷ []) restarted).0
      ≡ some (env ∷ []))
    × (env.batch_id ≡ (publish st 9 (quote 3 ∷ []) restarted).1)
    × (env.rows ≡ quote 3 ∷ [])
look-publish_backlog_example =
    look-publish_backlog st 9 0 7 (quote 3 ∷ []) restarted refl (omega arith) restarted-owed

abbrev envelope : ℕ → List (Tick String) → Envelope String
envelope id rows = record { batch_id = id; draft = record draft { rows = rows } }

abbrev envelopes : List (Envelope String)
envelopes = envelope 1 (quote 1 ∷ []) ∷ envelope 2 (quote 2 ∷ []) ∷ envelope 3 [] ∷ []

abbrev write_any : Envelope String → List ℕ → Option (List ℕ × ℕ)
write_any env ids = some (ids ++ env.batch_id ∷ [], length env.rows)

-- A journal that refuses an empty batch, and a sink like it.
abbrev write_some : Envelope String → List ℕ → Option (List ℕ × ℕ)
write_some env ids =
    if length env.rows == 0 then none else some (ids ++ env.batch_id ∷ [], length env.rows)

abbrev sink_some : Envelope String → List ℕ → List ℕ × Bool
sink_some env ids = if length env.rows == 0 then (ids, true) else (ids ++ env.batch_id ∷ [], false)

abbrev mark : ℕ → Db columns → Option (Db columns)
mark id s = some (record s { last_committed = id })

-- A store that cannot mark batch 2.
abbrev mark_but_two : ℕ → Db columns → Option (Db columns)
mark_but_two id s = if id == 2 then none else mark id s

abbrev loop : JournalLoop st write_any mark
loop = start_journal st write_any mark bus []

abbrev careful : JournalLoop st write_any mark_but_two
careful = start_journal st write_any mark_but_two bus []

abbrev lossy : JournalLoop st write_some mark
lossy = start_journal st write_some mark bus []

abbrev drain_loop : DhLoop st sink_some
drain_loop = record { bus = bus; sink = []; last = none; envs_total = 0; rows_total = 0 }

-- A registry with a writer for quotes, and an envelope with a tick of another stream in between.
abbrev quotes_only : PairDict (WriterSpec String String)
quotes_only =
    add (some "tradingview") "quotes"
      (λ ts. some (columns_by (("Payload", λ t. t.payload) ∷ []) ts)) "quotes" []

abbrev bar_tick : Tick String
bar_tick = record (quote 2) { stream = "bars" }

abbrev mixed : Envelope String
mixed = envelope 1 (quote 1 ∷ bar_tick ∷ quote 3 ∷ [])

-- A writer that raises on the payload "bad", and an envelope with such a tick.
abbrev no_third : String × List String → Bool
no_third (w, row) = elim row [ [] ↦ false | cell ∷ cells ↦ str_eq cell "bad" ]

abbrev third : Envelope String
third = envelope 2 (quote 4 ∷ record (quote 5) { payload = "bad" } ∷ [])

abbrev table_loop : DhLoop st (dh_sink st quotes_only no_third)
table_loop = record { bus = bus; sink = []; last = none; envs_total = 0; rows_total = 0 }

two_rows :
    write_envelope quotes_only mixed.rows
    ≡ some ("quotes", "{}" ∷ []) ∷ some ("quotes", "{}" ∷ []) ∷ []
unfolding write_envelope add
two_rows = refl

write_round-written_example :
    ((write_round st (dh_sink st quotes_only no_third) (mixed ∷ third ∷ []) table_loop).sink
      ≡ [] ++ all_written st quotes_only no_third (mixed ∷ third ∷ []))
    × ((write_round st (dh_sink st quotes_only no_third) (mixed ∷ third ∷ []) table_loop).bus
        ≡ acked st quotes_only no_third
            (last_whole st quotes_only no_third none (mixed ∷ third ∷ []))
            bus)
write_round-written_example =
    write_round-written st quotes_only no_third mixed (third ∷ []) table_loop

-- The second envelope stops at its second row and is not acknowledged.
stops_at_bad :
    (last_whole st quotes_only no_third none (mixed ∷ third ∷ []) ≡ some 1)
    × (length (all_written st quotes_only no_third (mixed ∷ third ∷ [])) ≡ 3)
unfolding add resolve zip_rows
stops_at_bad = (refl, refl)
