-- ===== src/Client/Strategy.antt =====
-- feeder_client/src/feeder_client/trading_bot.py: `_dispatch`, as the hooks of a strategy that it asks
-- for, in order. A strategy is whether a call of a hook returns; a missing hook and one that raises are
-- alike, as the rest of the envelope is passed over.
use deepfeeder.Base.{
  String, Bool, true, some, List, [], ◌∷◌, map, str_eq, if◌then◌else◌, ◌≡◌, refl, ap,
}
use deepfeeder.Json.{Object}
use deepfeeder.Client.Connection.{listed}
use deepfeeder.Client.Envelopes.{
  Readings, RawEnvelope, ClientEnvelope, ClientBar, ClientTrade, Rows, bars, trades, adapt_envelope,
  bar_from_row, or_one, ensure_compat,
}

-- A row of an envelope.
pub data AnyRow (N F T : Type 0) : Type 0 where
  a_bar : ClientBar N F T → AnyRow N F T
  a_trade : ClientTrade N F T → AnyRow N F T

pub data Hook (N F T : Type 0) : Type 0 where
  on_snapshot on_event : ClientEnvelope N F T → Hook N F T
  on_snapshot_boundary : Hook N F T
  on_bar on_trade : AnyRow N F T → Hook N F T

module _ {N F T : Type 0} where
  abbrev pub rows_of : Rows N F T → List (AnyRow N F T)
  rows_of (bars bs) = map a_bar bs
  rows_of (trades ts) = map a_trade ts

  module _ (strategy : Hook N F T → Bool) where
    -- A hook, and what comes after it where it returns.
    abbrev pub then_hooks : Hook N F T → List (Hook N F T) → List (Hook N F T)
    then_hooks h more = h ∷ (if strategy h then more else [])

    unfoldable pub each_row : (AnyRow N F T → Hook N F T) → List (AnyRow N F T) → List (Hook N F T)
    each_row hook [] = []
    each_row hook (r ∷ rs) = let more = each_row hook rs in then_hooks (hook r) more

    abbrev pub catch_all : ClientEnvelope N F T → List (AnyRow N F T) → List (Hook N F T)
    catch_all env [] = []
    catch_all env (r ∷ rs) = on_event env ∷ []

    abbrev pub row_hooks : ClientEnvelope N F T → List (Hook N F T)
    row_hooks env =
        if str_eq env.row_type "bar"
        then each_row on_bar (rows_of env.rows)
        else if str_eq env.row_type "trade"
        then each_row on_trade (rows_of env.rows)
        else catch_all env (rows_of env.rows)

    -- `_dispatch`
    unfoldable pub dispatch_hooks : ClientEnvelope N F T → List (Hook N F T)
    unfolding each_row
    dispatch_hooks env =
        if str_eq env.phase "snapshot"
        then on_snapshot env ∷ []
        else if str_eq env.phase "snapshot_boundary"
        then then_hooks on_snapshot_boundary (row_hooks env)
        else row_hooks env

    -- A list through its first call that does not return.
    abbrev pub through_first : List (Hook N F T) → List (Hook N F T)
    through_first [] = []
    through_first (h ∷ hs) = h ∷ (if strategy h then through_first hs else [])

module _ {N F T : Type 0} (rd : Readings N F T) where
  abbrev pub bar_hook : String → Object N → Hook N F T
  bar_hook provider row = on_bar (a_bar (bar_from_row rd provider row))

module _ {N F T : Type 0} (rd : Readings N F T) (strategy : Hook N F T → Bool) where
  each_row-bars :
      (provider : String) (rows : List (Object N))
      → each_row strategy on_bar (map a_bar (map (bar_from_row rd provider) rows))
        ≡ through_first strategy (map (bar_hook rd provider) rows)
  unfolding each_row
  each_row-bars provider [] = refl
  each_row-bars provider (row ∷ rows) =
      ap
        (λ more.
          bar_hook rd provider row ∷ (if strategy (bar_hook rd provider row) then more else []))
        (each_row-bars provider rows)

  -- A live envelope of bars of a version that the client takes reaches the strategy as one on_bar for each row, in order and read from that row, through the first that does not return.
  pub dispatch_hooks-adapt_envelope :
      (raw : RawEnvelope N)
      → ensure_compat (or_one raw.version) ≡ true
      → raw.phase ≡ some "live"
      → raw.row_type ≡ some "bar"
      → map (dispatch_hooks strategy) (listed (adapt_envelope rd raw))
        ≡ through_first strategy (map (bar_hook rd raw.provider) raw.rows) ∷ []
  unfolding dispatch_hooks adapt_envelope
  dispatch_hooks-adapt_envelope raw compatible live bar =
      rw (compatible, live, bar) (ap (λ hs. hs ∷ []) (each_row-bars raw.provider raw.rows))
