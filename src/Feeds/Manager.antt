-- ===== src/Feeds/Manager.antt =====
-- ingest/feed_manager.py: `FeedManager`, with its status rows. A producer is whether it runs; the names
-- of producers whose `start` raises are a parameter.
use deepfeeder.Base.{
  String, Bool, true, false, ◌&&◌, not, Option, none, some, List, [], ◌∷◌, ◌++◌, if◌then◌else◌,
}
use deepfeeder.Base.Options.{◌>>=◌}
use deepfeeder.Base.Dict.{Dict, lookup, insert}
use deepfeeder.Feeds.Specs.{FeederSpec, producer_name, seen_in}

pub record FeedManager : Type 0 where
  pub has_sink : Bool
  pub has_journal : Bool
  pub threads : List String
  pub producers : Dict Bool
  pub status : List (String × Bool)

abbrev pub start_thread : Bool → String → List String → List String
start_thread wanted key threads =
    if wanted && not (seen_in key threads) then threads ++ key ∷ [] else threads

unfoldable pub start_consumers : FeedManager → FeedManager
start_consumers m = record m {
  threads =
      start_thread m.has_journal "journal_consumer"
        (start_thread m.has_sink "dh_consumer" m.threads);
}

unfoldable pub stop_consumers : FeedManager → FeedManager
stop_consumers m = record m { threads = [] }

unfoldable pub register_producer : String → FeedManager → FeedManager
register_producer name m = record m {
  producers = insert name false m.producers;
  status = m.status ++ (name, false) ∷ [];
}

-- Whether a producer is registered and runs.
abbrev pub runs_now : String → FeedManager → Bool
runs_now name m = elim (lookup name m.producers) [ none ↦ false | some r ↦ r ]

unfoldable pub stop_producer : String → FeedManager → Option FeedManager
stop_producer name m = do
  p ← lookup name m.producers
  some (record m {
    producers = insert name false m.producers;
    status = m.status ++ (name, false) ∷ [];
  })

-- `stop_all_producers` writes no status.
unfoldable pub stop_all_producers : List String → FeedManager → Option FeedManager
stop_all_producers [] m = some m
stop_all_producers (name ∷ names) m = do
  p ← lookup name m.producers
  stop_all_producers names (record m { producers = insert name false m.producers })

module _ (refuses : String → Bool) where
  -- `none` is a KeyError, or what the producer raises.
  unfoldable pub start_producer : String → FeedManager → Option FeedManager
  start_producer name m = do
    p ← lookup name m.producers
    if refuses name
        then none
        else some (record m {
          producers = insert name true m.producers;
          status = m.status ++ (name, true) ∷ [];
        })

  unfoldable pub start_all_producers : List String → FeedManager → Option FeedManager
  unfolding start_producer
  start_all_producers [] m = some m
  start_all_producers (name ∷ names) m = do m' ← start_producer name m; start_all_producers names m'

  abbrev pub or_same : FeedManager → Option FeedManager → FeedManager
  or_same m none = m
  or_same m (some m') = m'

  -- The inner loop of `start_autostart`, which goes on after an exception.
  unfoldable pub start_streams : FeederSpec → List String → FeedManager → FeedManager
  unfolding start_producer
  start_streams spec [] m = m
  start_streams spec (st ∷ sts) m =
      start_streams spec sts (or_same m (start_producer (producer_name spec st) m))

  unfoldable pub start_autostart : List FeederSpec → FeedManager → FeedManager
  unfolding start_streams
  start_autostart [] m = m
  start_autostart (spec ∷ specs) m =
      start_autostart specs (if spec.autostart then start_streams spec spec.streams m else m)
