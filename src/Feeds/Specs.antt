-- ===== src/Feeds/Specs.antt =====
-- ingest/feeder_specs.py: the specifications of feeders. An item of the JSON file is its fields as
-- texts; `str.strip`, `str.lower` and `str.upper` are parameters.
use deepfeeder.Base.{
  String, Bool, true, false, ◌||◌, Option, none, some, List, [], ◌∷◌, ◌++◌, map, str_eq, prefixed,
  if◌then◌else◌,
}
use deepfeeder.Base.Options.{◌>>=◌}

pub record FeederSpec : Type 0 where
  pub provider : String
  pub name : String
  pub streams : List String
  pub symbols : List String
  pub autostart : Bool

-- A missing field is empty.
pub record Item : Type 0 where
  pub provider : String
  pub name : String
  pub streams : List String
  pub symbols : List String
  pub autostart : Bool

pub record Texts : Type 0 where
  pub upper : String → String
  pub lower : String → String
  pub strip : String → String

abbrev pub seen_in : String → List String → Bool
seen_in s [] = false
seen_in s (x ∷ xs) = str_eq x s || seen_in s xs

-- The loop of `_normalize_symbols`: `seen` and `out` hold the same symbols.
unfoldable pub normalize : (String → String) → List String → List String → List String
normalize shown out [] = out
normalize shown out (s ∷ ss) =
    normalize shown (if seen_in (shown s) out then out else out ++ shown s ∷ []) ss

abbrev pub shown_as : Texts → String → String → String
shown_as texts provider s = if str_eq provider "binance" then texts.upper s else s

unfoldable pub normalize_symbols : Texts → String → List String → List String
unfolding normalize
normalize_symbols texts provider symbols = normalize (shown_as texts provider) [] symbols

abbrev pub is_empty_list : List String → Bool
is_empty_list [] = true
is_empty_list (x ∷ xs) = false

-- One turn of the loop of `load_feeder_specs`; `none` is a ValueError.
unfoldable pub load_spec : Texts → Item → Option FeederSpec
unfolding normalize_symbols
load_spec texts item =
    let provider = texts.lower (texts.strip item.provider) in
    let name = texts.strip item.name in
    if str_eq provider "" || (str_eq name "" || is_empty_list item.streams)
    then none
    else some (record {
      provider = provider;
      name = name;
      streams = map (λ s. texts.lower (texts.strip s)) item.streams;
      symbols = normalize_symbols texts provider item.symbols;
      autostart = item.autostart;
    })

unfoldable pub load_feeder_specs : Texts → List Item → Option (List FeederSpec)
unfolding load_spec
load_feeder_specs texts [] = some []
load_feeder_specs texts (item ∷ items) = do
  spec ← load_spec texts item
  specs ← load_feeder_specs texts items
  some (spec ∷ specs)

-- f"{s.provider}:{st}:{s.name}"
abbrev pub producer_name : FeederSpec → String → String
producer_name spec stream =
    prefixed spec.provider (prefixed ":" (prefixed stream (prefixed ":" spec.name)))
