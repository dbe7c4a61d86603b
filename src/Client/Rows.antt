-- ===== src/Client/Rows.antt =====
-- What arrives at a client of the rows that the fanout service adapts.
use deepfeeder.Base.{
  String, ◌≡◌, refl, Bool, true, false, ◌||◌, ◌&&◌, ◌∙◌, Option, none, some, List, str_eq,
  if◌then◌else◌, arith,
}
use deepfeeder.Base.Dict.{lookup, lookup-insert}
use deepfeeder.Json.{Json, Object, get, joined, put, or_else}
use deepfeeder.Fanout.{adapt_bar_row, adapt_trade_row, wants, ts_to_iso, as_text, res_from_schema}
use deepfeeder.Client.Envelopes.{
  Readings, bar_from_row, trade_from_row, through, time_or_now, truth, stream_trades,
  requested_fields, trades_fields,
}

module _ {N : Type 0} where
  lookup-put :
      (j : String) (wanted : Bool) (k : String) (v : Option (Json N)) (row : Object N)
      → lookup j (put wanted k v row) ≡ (if str_eq k j && wanted then some v else lookup j row)
  unfolding put
  lookup-put j true k v row = lookup-insert k j v row ∙ ground arith
  lookup-put j false k v row = ground arith

  joined-when :
      (wanted : Bool) (v : Option (Json N))
      → joined (if wanted then some v else none) ≡ (if wanted then v else none)
  joined-when true v = refl
  joined-when false v = refl

  -- A field of a row, if it was asked for.
  abbrev pub when : Option (List String) → String → Object N → Option (Json N)
  when fields field row = if wants fields field then get field row else none

module _ {N F T : Type 0} (rd : Readings N F T) (iso : Json N → String) where
  -- The time of a trade, from `Timestamp` or `Ts`, by way of its text and back.
  abbrev pub sent_time : Object N → T
  sent_time row = time_or_now rd (
      or_else rd.nonzero (ts_to_iso iso (or_else rd.nonzero (get "Timestamp" row) (get "Ts" row)))
        none)

  -- A bar of the service read by the client: the fields that were asked for and its symbol, the time by way of its text, the resolution that the schema names, and closed for a completed or snapshot row; nothing else of the row matters.
  pub bar_from_row-adapt_bar_row :
      (provider schema part : String) (fields : Option (List String)) (row : Object N)
      → bar_from_row rd provider (adapt_bar_row iso provider schema part fields row) ≡ record {
        provider = provider;
        symbol = rd.str (get "Symbol" row);
        timestamp = time_or_now rd (ts_to_iso iso (get "Timestamp" row));
        open_ = through rd.coerce_float (when fields "Open" row);
        high = through rd.coerce_float (when fields "High" row);
        low = through rd.coerce_float (when fields "Low" row);
        close = through rd.coerce_float (when fields "Close" row);
        volume = through rd.coerce_float (when fields "Volume" row);
        exchange = when fields "Exchange" row;
        bar_id = through rd.coerce_int (when fields "BarId" row);
        res = as_text (res_from_schema schema);
        closed = some (str_eq part "completed" || str_eq part "snapshot");
      }
  unfolding bar_from_row adapt_bar_row lookup
  bar_from_row-adapt_bar_row provider schema part fields row = simp (lookup-put, joined-when)

  trade_from_row-adapt_trade_row :
      (provider part : String) (fields : Option (List String)) (row : Object N)
      → trade_from_row rd provider (adapt_trade_row iso rd.nonzero provider part fields row)
        ≡ record {
          provider = provider;
          symbol = rd.str (get "Symbol" row);
          timestamp = sent_time row;
          price = through rd.coerce_float (when fields "Price" row);
          quantity = through rd.coerce_float (when fields "Quantity" row);
          trade_id = when fields "TradeID" row;
          exchange = when fields "Exchange" row;
          is_buyer_maker = truth rd (when fields "IsBuyerMaker" row);
          buyer_id = when fields "BuyerID" row;
          seller_id = when fields "SellerID" row;
        }
  unfolding trade_from_row adapt_trade_row lookup
  trade_from_row-adapt_trade_row provider part fields row = simp (lookup-put, joined-when)

  -- With the fields that `Stream.trades` asks for by default a trade arrives with its symbol and time alone, whatever its row holds: the names of the fields are not those of the service.
  trade_from_row-blank :
      (provider symbol part : String) (exchange : Option String) (row : Object N)
      → trade_from_row rd provider (
          adapt_trade_row iso rd.nonzero provider part
            (requested_fields (stream_trades provider symbol exchange))
            row)
        ≡ record {
          provider = provider;
          symbol = rd.str (get "Symbol" row);
          timestamp = sent_time row;
          price = none;
          quantity = none;
          trade_id = none;
          exchange = none;
          is_buyer_maker = none;
          buyer_id = none;
          seller_id = none;
        }
  unfolding requested_fields stream_trades
  trade_from_row-blank provider symbol part exchange row =
      trade_from_row-adapt_trade_row provider part (some trades_fields) row
