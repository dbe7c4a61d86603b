-- ===== src/Sinks/Columns.antt =====
-- `flatten_trades` of providers/binance/adapter.py, and `flatten_quotes` and `flatten_bar` of
-- providers/tradingview/adapter.py. A payload is a JSON object whose numbers int and float keep; a trade
-- has a seq. The instant of a time is a parameter.
use deepfeeder.Base.{
  ℕ, ◌<◌, length, arith, String, ◌≡◌, refl, ap, ◌∙◌, false, Option, some, List, [], ◌∷◌, map,
}
use deepfeeder.Base.Dict.{lookup}
use deepfeeder.Contracts.{Tick, seq_or}
use deepfeeder.Json.{Json, text, bool, num, Object, get, default_to}
use deepfeeder.Sinks.Registry.{Columns, zip_onto, zip_rows}

-- A column is its name and its cell for a tick.
abbrev pub Cells : Type 0 → Type 0 → Type 0
Cells P V = List (String × (Tick P → V))

module _ {P V : Type 0} where
  abbrev pub columns_by : Cells P V → List (Tick P) → Columns V
  columns_by [] ticks = []
  columns_by ((c, cell) ∷ cells) ticks = (c, map cell ticks) ∷ columns_by cells ticks

  abbrev pub row_by : Cells P V → Tick P → List V
  row_by [] t = []
  row_by ((c, cell) ∷ cells) t = cell t ∷ row_by cells t

module _ {N : Type 0} (instant : ℕ → Option (Json N)) (of_nat : ℕ → N) where
  abbrev cell : String → Option (Json N) → Tick (Object N) → Option (Json N)
  cell k d t = default_to d (lookup k t.payload)

  abbrev zero_cell : Option (Json N)
  zero_cell = some (num (of_nat 0))

  abbrev pub trade_cells : Cells (Object N) (Option (Json N))
  trade_cells =
      ("EventType", λ t. some (text "trade"))
      ∷ ("EventTime", λ t. instant t.ts_ns)
      ∷ ("Symbol", λ t. some (text t.symbol))
      ∷ ("TradeID", λ t. some (num (of_nat (seq_or t.seq 0))))
      ∷ ("Price", cell "Price" zero_cell)
      ∷ ("Quantity", cell "Quantity" zero_cell)
      ∷ ("BuyerID", cell "b" zero_cell)
      ∷ ("SellerID", cell "a" zero_cell)
      ∷ ("Timestamp", λ t. instant t.ts_ns)
      ∷ ("IsBuyerMaker", cell "IsBuyerMaker" (some (bool false)))
      ∷ []

  -- `flatten_trades`
  unfoldable pub flatten_trades : List (Tick (Object N)) → Columns (Option (Json N))
  flatten_trades ticks = columns_by trade_cells ticks

  abbrev pub quote_cells : Cells (Object N) (Option (Json N))
  quote_cells =
      ("Exchange", cell "exchange" (some (text "")))
      ∷ ("Symbol", λ t. some (text t.symbol))
      ∷ ("LpTime", λ t. instant t.ts_ns)
      ∷ ("LastPrice", λ t. get "last_price" t.payload)
      ∷ ("Bid", λ t. get "bid" t.payload)
      ∷ ("Ask", λ t. get "ask" t.payload)
      ∷ ("Volume", λ t. get "volume" t.payload)
      ∷ ("Change", λ t. get "change" t.payload)
      ∷ ("ChangePct", λ t. get "change_pct" t.payload)
      ∷ ("VolDelta", λ t. get "vol_delta" t.payload)
      ∷ []

  -- `flatten_quotes`
  unfoldable pub flatten_quotes : List (Tick (Object N)) → Columns (Option (Json N))
  flatten_quotes ticks = columns_by quote_cells ticks

  abbrev pub bar_cells : Cells (Object N) (Option (Json N))
  bar_cells =
      ("Exchange", cell "exchange" (some (text "")))
      ∷ ("Symbol", cell "symbol" (some (text "")))
      ∷ ("Timestamp", λ t. instant t.ts_ns)
      ∷ ("Open", λ t. get "open" t.payload)
      ∷ ("High", λ t. get "high" t.payload)
      ∷ ("Low", λ t. get "low" t.payload)
      ∷ ("Close", λ t. get "close" t.payload)
      ∷ ("Volume", λ t. get "volume" t.payload)
      ∷ ("IsFinal", λ t. some (bool t.is_final))
      ∷ []

  -- `flatten_bar`
  unfoldable pub flatten_bar : List (Tick (Object N)) → Columns (Option (Json N))
  flatten_bar ticks = columns_by bar_cells ticks

module _ {P V : Type 0} where
  zip_onto-map :
      (f : Tick P → V) (g : Tick P → List V) (ticks : List (Tick P))
      → zip_onto (map f ticks) (map g ticks) ≡ map (λ t. f t ∷ g t) ticks
  zip_onto-map f g [] = refl
  zip_onto-map f g (t ∷ ticks) = ap (◌∷◌ (f t ∷ g t)) (zip_onto-map f g ticks)

  map-singles :
      (f : Tick P → V) (ticks : List (Tick P))
      → map (λ x. x ∷ []) (map f ticks) ≡ map (λ t. f t ∷ []) ticks
  map-singles f [] = refl
  map-singles f (t ∷ ticks) = ap (◌∷◌ (f t ∷ [])) (map-singles f ticks)

  zip_rows-cells :
      (c : String × (Tick P → V)) (cells : Cells P V) (ticks : List (Tick P))
      → zip_rows (columns_by (c ∷ cells) ticks) ≡ map (row_by (c ∷ cells)) ticks
  unfolding zip_rows
  zip_rows-cells (c, f) [] ticks = map-singles f ticks
  zip_rows-cells (c, f) (d ∷ cells) ticks =
      ap (zip_onto (map f ticks)) (zip_rows-cells d cells ticks)
      ∙ zip_onto-map f (row_by (d ∷ cells)) ticks

  -- The rows of columns that have a value for each tick are those of the ticks, one by one.
  pub zip_rows-columns_by :
      (cells : Cells P V) (ticks : List (Tick P))
      → 0 < length cells
      → zip_rows (columns_by cells ticks) ≡ map (row_by cells) ticks
  zip_rows-columns_by [] ticks some_cell = absurd (omega (arith, some_cell))
  zip_rows-columns_by (c ∷ cells) ticks some_cell = zip_rows-cells c cells ticks
