-- ===== src/Fanout/Requests.antt =====
-- The other requests of api.py, and the rows of an envelope on their way to a client.
use deepfeeder.Base.{
  String, Bool, true, false, Option, none, some, List, map, filter, str_eq, if◌then◌else◌,
}
use deepfeeder.Json.{Json, Object, contains}
use deepfeeder.Fanout.Bridge.{adapt_bar_row, adapt_trade_row}

-- `list_schemas` over the keys of `SCHEMAS`.
unfoldable pub list_schemas : Option String → List (String × String) → List (String × String)
list_schemas none keys = keys
list_schemas (some provider) keys = filter (λ k. str_eq k.0 provider) keys

-- The exchange that `range_snapshot` passes on, for the columns of the schema.
unfoldable pub exchange_arg : Option String → List String → Option String
exchange_arg none cols = none
exchange_arg (some e) cols =
    if str_eq e "" then none else if contains "Exchange" cols then some e else none

-- The part that rows are adapted with: a snapshot's is "snapshot".
unfoldable pub part_of : String → Option String → String
part_of phase part =
    if str_eq phase "snapshot"
    then "snapshot"
    else elim part [ none ↦ "completed" | some p ↦ if str_eq p "" then "completed" else p ]

module _ {N : Type 0} (iso : Json N → String) (nonzero : N → Bool) where
  -- The rows of `emit_event_sync` and of `range_snapshot`.
  unfoldable pub adapt_rows :
      Bool → String → String → String → Option (List String) → List (Object N) → List (Object N)
  adapt_rows true provider schema part fields rows =
      map (adapt_bar_row iso provider schema part fields) rows
  adapt_rows false provider schema part fields rows =
      map (adapt_trade_row iso nonzero provider part fields) rows

  -- The lines of `range_snapshot`, as rows.
  unfoldable pub range_rows :
      Bool → String → String → Option (List String) → List (Object N) → List (Object N)
  unfolding adapt_rows
  range_rows is_bars provider schema fields rows =
      adapt_rows is_bars provider schema "snapshot" fields rows
