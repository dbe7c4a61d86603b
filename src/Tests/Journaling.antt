-- ===== src/Tests/Journaling.antt =====
-- The journal at bars that come provisional, final and provisional again.
use deepfeeder.Journal.Batches.{IsRead, IsBatch, fetches-whole}
use deepfeeder.Journal.Ids.{Up}
use deepfeeder.Journal.Committed.{
  fetches, next_committed_from, ids_from, add_id, envelopes, batch_rows,
}
use deepfeeder.Base.Sort.{order_by, insert_by}
use deepfeeder.Journal.Pages.{stream_hot-whole}
use deepfeeder.Journal.Chains.{concat}
use deepfeeder.Journal.HotStream.{
  HotQuery, stream_hot, hot_pages, fetch_hot, hot_cursor, hot_tick, numbered, row_before, row_ts,
}
use deepfeeder.Journal.Upsert.{row_key}
use deepfeeder.Base.{
  ℕ, String, ◌≡◌, refl, Bool, true, false, none, some, List, [], ◌∷◌, map, Any, inl, arith, not,
  str_eq, filter, leb, ◌&&◌, All, length, ◌≤◌, ◌⊎◌, ◌≢◌,
}
use deepfeeder.Contracts.{Tick, Envelope, NaturalKey, natural_key}
use deepfeeder.Journal.{
  Key, Journal, find, append_envelope, candidate, merge, collapse, keep_best, upsert, update_row,
  precedes, wins, Hot, Candidate,
}
use deepfeeder.Journal.Best.{key_at, IsBest, entered, find-append_envelope}
use deepfeeder.Journal.Merge.{appends, HasFinal, appends-HasFinal}
use deepfeeder.Journal.Streams.{
  Query, Cursor, fetch_page, stream_pages, is_nil, Timed, stream_pages-endless, sort_by,
  insert_before,
}

-- Of two rows that ORDER BY leaves equal the first has the lower number.
abbrev first : Candidate String → Candidate String → Bool
first a b = false

-- Each of the keys below has its symbol as text.
abbrev text : NaturalKey → String
text k = k.symbol

abbrev bar : Bool → String → Tick String
bar is_final payload = record {
  provider = "tradingview";
  stream = "ohlcv_1m";
  symbol = "AAPL";
  ts_ns = 60;
  seq = none;
  payload = payload;
  is_final = is_final;
}

abbrev envelope : ℕ → List (Tick String) → Envelope String
envelope id rows = record {
  batch_id = id;
  draft = record { produced_at_ns = id; first_offset = none; last_offset = none; rows = rows };
}

abbrev key : Key
key = record { provider = "tradingview"; stream = "ohlcv_1m"; symbol = "AAPL"; nat_key = "AAPL" }

abbrev blank : Journal String
blank = record { journal_hot = []; journal_canonical = []; watermarks = [] }

abbrev opening : Envelope String
opening = envelope 1 (bar false "open" ∷ bar true "close" ∷ [])

abbrev closed : Journal String
closed = (append_envelope first text 7 opening blank).0

abbrev late : Envelope String
late = envelope 2 (bar false "late" ∷ [])

-- The final bar is kept, and its row was written once.
kept :
    map {B = String × ℕ}
      (λ c. (c.payload, c.updated_at_ns))
      (append_envelope first text 8 late closed).0.journal_canonical
    ≡ ("close", 7) ∷ []
unfolding append_envelope candidate merge collapse keep_best upsert update_row precedes wins find
    natural_key
kept = refl

find-append_envelope_example :
    let stored = find row_key key closed.journal_canonical in
    let after = find row_key key (append_envelope first text 8 late closed).0.journal_canonical in
    (All (λ u. key_at text u ≢ key) late.rows × (after ≡ stored))
    ⊎ ((t : Tick String) × IsBest text key late.rows t × (after ≡ some (entered text 8 t stored)))
find-append_envelope_example = find-append_envelope text first 8 late closed key

closed-HasFinal : HasFinal first text key closed
unfolding append_envelope candidate merge collapse keep_best upsert update_row precedes wins find
    natural_key
closed-HasFinal = (_, refl, refl)

appends-HasFinal_example :
    HasFinal first text key (appends first text ((8, late) ∷ (9, late) ∷ []) closed)
appends-HasFinal_example =
    appends-HasFinal first text ((8, late) ∷ (9, late) ∷ []) closed key closed-HasFinal

late-present : Any (λ b. b.key ≡ key) (map (candidate text) late.rows)
unfolding candidate natural_key
late-present = inl refl

abbrev by_time : Query String
by_time = record {
  by_updated = false;
  page_rows = 100;
  nat_after = λ a b. false;
  wanted = λ c. true;
}

abbrev first_cursor : Cursor
first_cursor = record { last_t = 0; last_nat = "" }

closed-read : is_nil (fetch_page by_time closed.journal_canonical first_cursor) ≡ false
unfolding fetch_page append_envelope candidate merge collapse keep_best upsert update_row precedes
    wins find natural_key
closed-read = refl

closed-Timed : Timed by_time closed.journal_canonical
unfolding append_envelope candidate merge collapse keep_best upsert update_row precedes wins find
    natural_key
closed-Timed = (omega arith, tt)

stream_pages-endless_example :
    stream_pages by_time 1000 closed.journal_canonical first_cursor ≡ none
stream_pages-endless_example =
    stream_pages-endless by_time 1000 closed.journal_canonical first_cursor (omega arith)
      closed-Timed closed-read

abbrev hot_query : HotQuery String
hot_query = record { page_rows = 2; wanted = λ t. not (str_eq t.payload "b") }

abbrev hot_journal : Journal String
hot_journal = record {
  journal_hot = map (λ p. record { tick = bar true p; batch_id = 1 }) ("a" ∷ "b" ∷ "c" ∷ "d" ∷ []);
  journal_canonical = [];
  watermarks = [];
}

stream_hot_pages :
    stream_hot 3 hot_query 60 hot_journal
    ≡ some ((bar true "a" ∷ bar true "c" ∷ []) ∷ (bar true "d" ∷ []) ∷ [])
unfolding stream_hot hot_pages fetch_hot hot_cursor hot_tick numbered sort_by insert_before
stream_hot_pages = refl

stream_hot-whole_example :
    (pages : List (List (Tick String))) × (stream_hot 5 hot_query 60 hot_journal ≡ some pages)
    × (concat pages
        ≡ map hot_tick (
            sort_by row_before (
              filter
                (λ r. leb 60 (row_ts r) && hot_query.wanted r.hot.tick)
                (numbered 0 hot_journal.journal_hot))))
stream_hot-whole_example = stream_hot-whole hot_query 60 hot_journal (omega arith)

abbrev in_batch : ℕ → String → Hot String
in_batch b payload = record { tick = bar true payload; batch_id = b }

abbrev batches_journal : Journal String
batches_journal = record hot_journal {
  journal_hot = in_batch 5 "a" ∷ in_batch 3 "b" ∷ in_batch 5 "c" ∷ in_batch 9 "d" ∷ [];
}

fetched_batches :
    map {B = ℕ × ℕ}
      (λ (e : Envelope String). (e.batch_id, length e.rows))
      (fetches 3 4 1 batches_journal)
    ≡ (5, 2) ∷ (9, 1) ∷ []
unfolding fetches next_committed_from ids_from add_id envelopes batch_rows order_by insert_by
fetched_batches = refl

fetches-whole_example :
    let envs = fetches 4 4 1 batches_journal in
    Up 4 (map (λ (e : Envelope String). e.batch_id) envs)
    × All (IsRead batches_journal.journal_hot) envs
    × All
        (λ b. IsBatch b batches_journal.journal_hot)
        (map (λ (e : Envelope String). e.batch_id) envs)
    × ((b : ℕ)
        → 4 ≤ b
        → IsBatch b batches_journal.journal_hot
        → Any (λ i. i ≡ b) (map (λ (e : Envelope String). e.batch_id) envs))
fetches-whole_example = fetches-whole 4 1 batches_journal (omega arith)
