-- ===== src/Tests/Feeding.antt =====
-- A feeder with one schema of minute bars, and clients that come and go.
use deepfeeder.MarketFeeder.Phases.{Closed}
use Prim.Native.Nat.{◌/◌}
use deepfeeder.Base.{
  ℕ, String, ◌≡◌, refl, true, false, none, some, List, [], ◌∷◌, arith, map, filter, Any, All, ◌*◌,
}
use deepfeeder.Base.Dict.{lookup, insert, remove}
use deepfeeder.Base.Sort.{Ordered}
use deepfeeder.Listener.{Row, SchemaSpec, TableUpdate, Listener}
use deepfeeder.Listener.Buffer.{after, batches}
use deepfeeder.MarketFeeder.{
  Feeder, Request, Setup, feed_key, subscribe, unsubscribe, new_listener, Tables, Event,
  catchup_since_ns, attach_gapless, snapshot_range, is_newer,
}
use deepfeeder.MarketFeeder.Calls.{
  Call, subscribes, unsubscribes, new_feeder, after_calls, after_calls-IsCounted,
}
use deepfeeder.MarketFeeder.Numbering.{Numbers, attach_gapless-Numbers}
use deepfeeder.MarketFeeder.Snapshots.{IsAsked, snapshot_range-bounds}
use deepfeeder.MarketFeeder.Catchup.{carried, live_cbs, catchup_since_ns-live}
use deepfeeder.MarketFeeder.Counts.{IsCounted}

abbrev minutes : SchemaSpec
minutes = record { bin_period_minutes = some 1; has_is_empty = true }

abbrev setup : Setup
setup = record {
  schemas = λ p s. some minutes;
  opens = λ k. true;
  upper = λ s. s;
  text = λ n. "7";
  buf_len = 3;
  second_of = λ n. n / 1000000000 * 1000000000;
}

abbrev btc : Request
btc = record { provider = "binance"; data_schema = "ohlcv_1m"; symbol = "BTCUSDT"; exchange = none }

abbrev calls : List Call
calls =
    subscribes btc 7 none false
    ∷ subscribes btc 7 none false
    ∷ unsubscribes "binance|ohlcv_1m|BTCUSDT:7"
    ∷ []

abbrev two_clients : Feeder ℕ
two_clients = record {
  lsn = ("a", new_listener minutes 3) ∷ [];
  refs = ("a", 2) ∷ [];
  subs = ("a", 1 ∷ 2 ∷ []) ∷ [];
  handles =
      ("a:1", record { key = "a"; callback = 1; fields = none; only_completed = true })
      ∷ ("a:2", record { key = "a"; callback = 2; fields = none; only_completed = false })
      ∷ [];
  seqs = [];
  stopped = [];
}

-- The first client's handle is given again, and one call of `unsubscribe` leaves a reference.
left_over :
    (map (λ e. e.1) (after_calls setup {F = ℕ} calls new_feeder).refs ≡ 1 ∷ [])
    × ((after_calls setup {F = ℕ} calls new_feeder).handles ≡ [])
unfolding after_calls subscribe unsubscribe lookup insert remove
left_over = (refl, refl)

after_calls-IsCounted_example : IsCounted (after_calls setup {F = ℕ} calls new_feeder)
after_calls-IsCounted_example = after_calls-IsCounted setup calls

abbrev bar : ℕ → Row ℕ
bar ts = record { ts = ts; symbol = "BTCUSDT"; is_empty = false; fields = ts }

abbrev tables : Tables ℕ
tables = record {
  base = λ p s. bar 3000000000 ∷ bar 2000000000 ∷ [];
  has_exchange = λ p s. false;
  exchange_of = λ r. "";
  marked_final = λ r. false;
}

attach_gapless-Numbers_example :
    (h : String) × (es : List (Event ℕ)) × ((attach_gapless tables setup btc 7 true false 0
        new_feeder).1
      ≡ some (h, es))
    × Closed es
    × Numbers
        (feed_key setup btc)
        0
        ((attach_gapless tables setup btc 7 true false 0 new_feeder).0, es)
attach_gapless-Numbers_example =
    attach_gapless-Numbers tables setup btc minutes 7 true false 0 new_feeder refl refl refl

snapshot_range-bounds_example :
    (rows : List (Row ℕ)) × (snapshot_range tables setup btc (some 2500000000) (some 3500000000)
      ≡ some rows)
    × Ordered (λ row. row.ts) 0 rows
    × All (λ row. IsAsked minutes btc 1499999000 3500001000 row) rows
    × ((row : Row ℕ)
        → IsAsked minutes btc 2500001000 2499999000 row
        → Any (λ x. x ≡ row) (bar 3000000000 ∷ bar 2000000000 ∷ [])
        → Any (λ x. x ≡ row) rows)
snapshot_range-bounds_example =
    snapshot_range-bounds tables setup btc minutes 2500000000 3500000000 refl refl
      (omega arith, omega arith) (omega arith, omega arith)

abbrev updates : List (ℕ × TableUpdate ℕ)
updates =
    (1, record { added = bar 20 ∷ bar 30 ∷ []; modified = [] })
    ∷ (2, record { added = bar 40 ∷ []; modified = bar 30 ∷ [] })
    ∷ []

abbrev fresh : Listener ℕ
fresh = new_listener minutes 3

abbrev listening : Feeder ℕ
listening = record new_feeder { lsn = ("a", after updates fresh) ∷ [] }

catchup_since_ns-live_example :
    map carried (catchup_since_ns "a" true (some 1) false listening).1
    ≡ map carried
        (live_cbs "a" true (filter (is_newer (some 1)) (batches updates fresh)) new_feeder).1
unfolding lookup
catchup_since_ns-live_example =
    catchup_since_ns-live "a" true (some 1) updates fresh listening new_feeder refl (omega arith)
      refl
