-- ===== src/Client/Trading.antt =====
-- feeder_client/src/feeder_client/trading_bot.py: `TradingBot` as the supervisor thread at one of its
-- points, and the calls of other threads between its steps.
use deepfeeder.Base.{
  ℕ, Bool, true, false, ◌&&◌, Option, none, some, List, [], ◌∷◌, ◌++◌, length, ltb, leb,
  if◌then◌else◌,
}

-- Where the thread is: not running, before `on_start`, at the test of the loop, before it subscribes,
-- at `_q.get`, with an envelope before the test of the pause, or after it at `_paused.wait`.
pub data Point (E : Type 0) : Type 0 where
  ended starting checking opening getting : Point E
  holding waiting : E → Point E

-- A queued `none` is the sentinel; `subscribed` is that there is a stream handle; `dispatched` is what
-- `_dispatch` was called on, oldest first.
pub record Bot (E : Type 0) : Type 0 where
  pub q : List (Option E)
  pub maxsize : ℕ
  pub stop_set : Bool
  pub paused : Bool
  pub point : Point E
  pub subscribed : Bool
  pub dispatched : List E

module _ {E : Type 0} where
  abbrev pub is_alive : Point E → Bool
  is_alive ended = false
  is_alive starting = true
  is_alive checking = true
  is_alive opening = true
  is_alive getting = true
  is_alive (holding e) = true
  is_alive (waiting e) = true

  -- `Queue.put_nowait`; `none` is `Full`, and a `maxsize` of 0 has no bound.
  abbrev pub put_nowait : ℕ → Option E → List (Option E) → Option (List (Option E))
  put_nowait maxsize x q =
      if ltb 0 maxsize && leb maxsize (length q) then none else some (q ++ x ∷ [])

  abbrev pub put_or : List (Option E) → Option (List (Option E)) → List (Option E)
  put_or q none = q
  put_or q (some q') = q'

  -- The queue of `_on_data` when it is full: the oldest item goes.
  abbrev pub replace_oldest : ℕ → E → List (Option E) → List (Option E)
  replace_oldest maxsize e [] = []
  replace_oldest maxsize e (x ∷ q) = put_or q (put_nowait maxsize (some e) q)

  -- `_on_data`
  unfoldable pub on_data : E → Bot E → Bot E
  on_data e b = record b {
    q = elim (put_nowait b.maxsize (some e) b.q) [
      | none ↦ replace_oldest b.maxsize e b.q
      | some q ↦ q
    ];
  }

  unfoldable pub start : Bot E → Bot E
  start b =
      if is_alive b.point
      then b
      else record b { stop_set = false; paused = false; point = starting }

  -- `stop` without its join.
  unfoldable pub stop : Bot E → Bot E
  stop b = record b {
    stop_set = true;
    paused = false;
    subscribed = false;
    q = put_or b.q (put_nowait b.maxsize none b.q);
  }

  unfoldable pub pause : Bot E → Bot E
  pause b = record b { paused = true }

  unfoldable pub resume : Bot E → Bot E
  resume b = record b { paused = false }

  unfoldable pub is_running : Bot E → Bool
  is_running b = is_alive b.point && (if b.stop_set then false else true)

  abbrev pub finish : Bot E → Bot E
  finish b = record b { point = ended; subscribed = false }

  abbrev pub dispatch : E → Bot E → Bot E
  dispatch e b = record b { point = checking; dispatched = b.dispatched ++ e ∷ [] }

  -- What `_q.get` answers; an empty queue blocks.
  abbrev pub take_item : List (Option E) → Bot E → Bot E
  take_item [] b = b
  take_item (none ∷ q) b = finish (record b { q = q })
  take_item (some e ∷ q) b = record b { q = q; point = holding e }

  -- `subscribes` is whether `_subscribe` succeeds; if not, the loop starts again after its sleep.
  abbrev pub enter : Bool → Bot E → Bot E
  enter subscribes b =
      if b.subscribed
      then record b { point = getting }
      else if subscribes
      then record b { point = getting; subscribed = true }
      else record b { point = checking }

  abbrev pub run_from : Point E → Bool → Bot E → Bot E
  run_from ended subscribes b = b
  run_from starting subscribes b = record b { point = checking }
  run_from checking subscribes b = if b.stop_set then finish b else record b { point = opening }
  run_from opening subscribes b = enter subscribes b
  run_from getting subscribes b = take_item b.q b
  run_from (holding e) subscribes b =
      if b.paused then record b { point = waiting e } else dispatch e b
  run_from (waiting e) subscribes b = if b.paused then dispatch e b else b

  -- A step of `_run`. `Event.wait` returns when the event is set, and blocks until then.
  unfoldable pub run_step : Bool → Bot E → Bot E
  run_step subscribes b = run_from b.point subscribes b

-- A step of the thread or a call of another one.
pub data Step (E : Type 0) : Type 0 where
  runs : Bool → Step E
  receives : E → Step E
  starts stops pauses resumes : Step E

module _ {E : Type 0} where
  unfoldable pub after_step : Step E → Bot E → Bot E
  unfolding run_step on_data start stop pause resume
  after_step (runs subscribes) b = run_step subscribes b
  after_step (receives e) b = on_data e b
  after_step starts b = start b
  after_step stops b = stop b
  after_step pauses b = pause b
  after_step resumes b = resume b

  unfoldable pub after_steps : List (Step E) → Bot E → Bot E
  unfolding after_step
  after_steps [] b = b
  after_steps (s ∷ ss) b = after_steps ss (after_step s b)
