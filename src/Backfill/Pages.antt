-- ===== src/Backfill/Pages.antt =====
-- `_process_task` over the pages that the REST client answers. `next` is the source's
-- `last_id + 1`. The limiter, which only sleeps, and the event log are left out.
use deepfeeder.Base.{
  ℕ, zero, suc, ◌+◌, ◌-◌, ◌*◌, min, String, Bool, true, Option, none, some, List, [], ◌∷◌, ◌++◌,
  leb, ltb, ◌==◌, if◌then◌else◌,
}
use deepfeeder.Base.Options.{◌>>=◌}
use deepfeeder.Contracts.{Tick}

-- What `d.get` answers: nothing, a number, or what `int` raises on.
pub data Cell : Type 0 where
  missing : Cell
  number : ℕ → Cell
  unreadable : Cell

-- `a or b`
abbrev pub or_cell : Cell → Cell → Cell
or_cell missing b = b
or_cell (number n) b = if n == 0 then b else number n
or_cell unreadable b = unreadable

abbrev pub int_cell : Cell → Option ℕ
int_cell missing = none
int_cell (number n) = some n
int_cell unreadable = none

-- A row of the answer. `time` is the first of the four names for it; `payload` is none where the price, the quantity or an order id is no number.
pub record RestRow (P : Type 0) : Type 0 where
  pub id : Cell
  pub t : Cell
  pub trade_id : Cell
  pub time : Cell
  pub payload : Option P

abbrev pub time_cell : Cell → Option ℕ
time_cell missing = some 0
time_cell (number n) = some (n * 1000000)
time_cell unreadable = none

-- How a task ends. A raised exception marks it as failed.
pub data Outcome : Type 0 where
  finished raised out_of_fuel : Outcome

-- The answers of `get_trades` and of `stop_event.is_set()` at the n-th look, and the page size.
pub record Outside (P : Type 0) : Type 0 where
  pub get_trades : ℕ → ℕ → ℕ → List (RestRow P)
  pub is_set : ℕ → Bool
  pub page_size : ℕ

module _ {P : Type 0} where
  -- The id by which the producer selects a row.
  unfoldable pub row_tid : RestRow P → Option ℕ
  row_tid r = int_cell (or_cell (or_cell r.id (or_cell r.t r.trade_id)) (number 0))

  -- `rest_trade_json_to_tick` for a symbol that is given and in upper case already, as those of Binance
  -- trades are; `none` is an exception.
  unfoldable pub rest_trade_json_to_tick : String → RestRow P → Option (Tick P)
  rest_trade_json_to_tick symbol r = do
    tid ← int_cell (or_cell r.id (or_cell r.trade_id r.t))
    ts ← time_cell r.time
    payload ← r.payload
    some (record {
      provider = "binance";
      stream = "trades";
      symbol = symbol;
      ts_ns = ts;
      seq = some tid;
      payload = payload;
      is_final = true;
    })

  -- The loop over a page from `next` on: the ticks of the page and the next id.
  unfoldable pub read_page : String → ℕ → List (RestRow P) → ℕ → Option (List (Tick P) × ℕ)
  unfolding row_tid rest_trade_json_to_tick
  read_page symbol end [] next = some ([], next)
  read_page symbol end (r ∷ rows) next = elim (row_tid r) [
    | none ↦ read_page symbol end rows next
    | some tid ↦
        let rest = read_page symbol end rows in
        if ltb tid next then rest next else if ltb end tid then some ([], next) else do
          tick ← rest_trade_json_to_tick symbol r
          (ticks, next') ← rest (tid + 1)
          some (tick ∷ ticks, next')
  ]

  module _ (o : Outside P) (symbol : String) (end : ℕ) where
    abbrev pub limit_at : ℕ → ℕ
    limit_at cur = min o.page_size (end - cur + 1)

    -- Where the loop goes on: after the last id, or past a page with nothing new.
    abbrev pub advance : List (Tick P) → ℕ → ℕ → ℕ
    advance [] cur next = min (cur + limit_at cur) (end + 1)
    advance (t ∷ ticks) cur next = next

    abbrev pub published_before : List (Tick P) → List (Tick P) × Outcome → List (Tick P) × Outcome
    published_before ticks (later, out) = (ticks ++ later, out)

    -- What is done with a page, where `more` is the rest of the loop.
    abbrev pub after_read :
        (ℕ → ℕ → List (Tick P) × Outcome) → ℕ → Option (List (Tick P) × ℕ) → List (Tick P) × Outcome
    after_read more cur none = ([], raised)
    after_read more cur (some (ticks, next')) =
        if ltb end next'
        then (ticks, finished)
        else published_before ticks (more (advance ticks cur next') next')

    -- What is done with an answer; an empty one ends the task.
    abbrev pub after_answer :
        (ℕ → ℕ → List (Tick P) × Outcome) → ℕ → ℕ → List (RestRow P) → List (Tick P) × Outcome
    after_answer more cur next [] = ([], finished)
    after_answer more cur next (r ∷ rows) =
        after_read more cur (read_page symbol end (r ∷ rows) next)

    -- The loop of `_process_task` on fuel: the ticks that it publishes, page after page, and how it
    -- ends.
    unfoldable pub pages : ℕ → ℕ → ℕ → ℕ → List (Tick P) × Outcome
    unfolding read_page
    pages zero n cur next = ([], out_of_fuel)
    pages (suc fuel) n cur next =
        let more = pages fuel (n + 1) in
        if leb cur end
        then if o.is_set n
          then ([], finished)
          else after_answer more cur next (o.get_trades n cur (limit_at cur))
        else ([], finished)

    unfoldable pub process_task : ℕ → List (Tick P) × Outcome
    unfolding pages
    process_task start = pages (end + 2) 0 start start
