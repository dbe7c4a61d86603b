-- ===== src/Tests/Serving.antt =====
-- A container of a journal and a bus, which need a store, and of two services that need each other.
use deepfeeder.Base.{String, ◌≡◌, refl, false, List, [], ◌∷◌, str_eq, if◌then◌else◌}
use deepfeeder.Base.Dict.{Dict, lookup}
use deepfeeder.Services.{Factory, failed, get, get_each, shutdown, Service, close_each, close_by}
use deepfeeder.Services.Ending.{new_container, after_gets}

abbrev of_needs : List String → Factory
of_needs ks = record { needs = ks; raises = false }

abbrev factories : Dict Factory
factories =
    ("journal", of_needs ("store" ∷ []))
    ∷ ("bus", of_needs ("store" ∷ "journal" ∷ []))
    ∷ ("store", of_needs [])
    ∷ ("chicken", of_needs ("egg" ∷ []))
    ∷ ("egg", of_needs ("chicken" ∷ []))
    ∷ []

abbrev asked : List String
asked = "bus" ∷ "egg" ∷ []

-- The store has no closing method.
abbrev objects : String → Service
objects k = record {
  is_none = false;
  methods =
      if str_eq k "bus"
      then "stop" ∷ "close" ∷ []
      else if str_eq k "journal"
      then "stop" ∷ []
      else [];
  raising = [];
}

closes_bus_first :
    (shutdown false objects (after_gets 6 asked (new_container factories))).1
    ≡ ("bus", "close") ∷ ("journal", "stop") ∷ []
unfolding shutdown close_each close_by after_gets get get_each lookup
closes_bus_first = refl

cycle_fails : (get 6 "egg" (new_container factories)).1 ≡ failed
unfolding get get_each lookup
cycle_fails = refl
