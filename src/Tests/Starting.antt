-- ===== src/Tests/Starting.antt =====
-- A manager whose producer of trades raises when it is started.
use deepfeeder.Base.{
  String, ◌≡◌, refl, Bool, true, false, some, [], ◌∷◌, inl, inr, str_eq, if◌then◌else◌,
}
use deepfeeder.Base.Dict.{lookup}
use deepfeeder.Feeds.{FeederSpec, FeedManager, Texts, load_spec, normalize_symbols, start_autostart}
use deepfeeder.Feeds.Autostart.{start_autostart-starts}

abbrev spot : FeederSpec
spot = record {
  provider = "binance";
  name = "spot";
  streams = "trades" ∷ "backfill" ∷ [];
  symbols = "BTCUSDT" ∷ [];
  autostart = true;
}

abbrev texts : Texts
texts = record {
  upper = λ s. if str_eq s "btcusdt" then "BTCUSDT" else s;
  lower = λ s. s;
  strip = λ s. s;
}

-- One symbol is given twice.
spot_loaded :
    load_spec texts (record {
      provider = "binance";
      name = "spot";
      streams = "trades" ∷ "backfill" ∷ [];
      symbols = "btcusdt" ∷ "BTCUSDT" ∷ [];
      autostart = true;
    })
    ≡ some spot
unfolding load_spec normalize_symbols
spot_loaded = refl

abbrev refuses : String → Bool
refuses name = str_eq name "binance:trades:spot"

abbrev manager : FeedManager
manager = record {
  has_sink = true;
  has_journal = true;
  threads = [];
  producers = ("binance:trades:spot", false) ∷ ("binance:backfill:spot", false) ∷ [];
  status = [];
}

start_autostart-starts_example :
    lookup "binance:backfill:spot" (start_autostart refuses (spot ∷ []) manager).producers
    ≡ some true
unfolding lookup
start_autostart-starts_example =
    start_autostart-starts refuses (spot ∷ []) spot "backfill" false manager (inl refl) refl
      (inr (inl refl)) refl refl
