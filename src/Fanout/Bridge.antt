-- ===== src/Fanout/Bridge.antt =====
-- `adapt_bar_row` and `adapt_trade_row`. The text of a time is a parameter; a BarId is a whole number,
-- which int keeps.
use deepfeeder.Base.{
  String, Bool, true, ◌||◌, Option, none, some, List, [], ◌∷◌, str_eq, if◌then◌else◌,
}
use deepfeeder.Base.Dict.{lookup}
use deepfeeder.Json.{Json, text, bool, Object, get, default_to, put, contains, split_after, or_else}

-- `_phase_from_part`
unfoldable pub phase_from_part : String → String
phase_from_part part =
    if str_eq part "added"
    then "open"
    else if str_eq part "updated"
    then "update"
    else if str_eq part "completed"
    then "close"
    else if str_eq part "snapshot"
    then "snapshot"
    else if str_eq part "trade"
    then "trade"
    else "update"

abbrev pub as_text : {N : Type 0} → Option String → Option (Json N)
as_text none = none
as_text (some s) = some (text s)

-- `_res_from_schema`
unfoldable pub res_from_schema : String → Option String
unfolding split_after
res_from_schema schema = split_after "ohlcv_" schema

-- `fields_list is None or field in fields_list`
abbrev pub wants : Option (List String) → String → Bool
wants none field = true
wants (some fields) field = contains field fields

module _ {N : Type 0} where
  abbrev pub header : String → String → String → Object N → Option (Json N) → Object N
  header type provider part row timestamp =
      ("Type", some (text type))
      ∷ ("Phase", some (text (phase_from_part part)))
      ∷ ("Provider", default_to (some (text provider)) (lookup "Provider" row))
      ∷ ("Symbol", get "Symbol" row)
      ∷ ("Timestamp", timestamp)
      ∷ []

  abbrev pub copy : Option (List String) → String → Object N → Object N → Object N
  copy fields field row resp = put (wants fields field) field (get field row) resp

  abbrev pub bar_fields : Option (List String) → Object N → Object N → Object N
  bar_fields fields row resp = copy fields "Volume" row (
      copy fields "Close" row (
        copy fields "Low" row (
          copy fields "High" row
            (copy fields "Open" row (copy fields "BarId" row (copy fields "Exchange" row resp))))))

module _ {N : Type 0} (iso : Json N → String) where
  -- `_ts_to_iso`
  abbrev pub ts_to_iso : Option (Json N) → Option (Json N)
  ts_to_iso none = none
  ts_to_iso (some v) = some (text (iso v))

  unfoldable pub adapt_bar_row :
      String → String → String → Option (List String) → Object N → Object N
  unfolding phase_from_part res_from_schema put
  adapt_bar_row provider schema part fields row =
      put true "Closed" (some (bool (str_eq part "completed" || str_eq part "snapshot"))) (
        put true "Res" (as_text (res_from_schema schema)) (
          bar_fields fields row (header "bar" provider part row (ts_to_iso (get "Timestamp" row)))))

  unfoldable pub adapt_trade_row :
      (N → Bool) → String → String → Option (List String) → Object N → Object N
  unfolding phase_from_part put
  adapt_trade_row nonzero provider part fields row = copy fields "IsBuyerMaker" row (
      copy fields "SellerID" row (
        copy fields "BuyerID" row (
          copy fields "Quantity" row (
            copy fields "Price" row (
              copy fields "TradeID" row (
                copy fields "Exchange" row (
                  header "trade" provider part row
                    (ts_to_iso (or_else nonzero (get "Timestamp" row) (get "Ts" row))))))))))
