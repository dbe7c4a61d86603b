-- ===== src/Fanout/Socket.antt =====
-- The connection of `ws_stream` in api.py, step by step: listeners emit from their threads, the event
-- loop runs what was scheduled, and the handler waits for the client. `E` is an envelope with its rows
-- adapted, and a send is one step. Other connections do not change the feeder between the steps.
use deepfeeder.Base.{
  ℕ, ◌+◌, String, Bool, true, false, Option, none, some, List, [], ◌∷◌, ◌++◌, map, str_eq,
  if◌then◌else◌,
}
use deepfeeder.MarketFeeder.{Feeder, unsubscribe}

-- What the event loop has to run: `send_event` on an envelope, or `_do_unsubscribe`.
pub data Job (E : Type 0) : Type 0 where
  send : E → Job E
  release : Job E

-- `serving` is that the handler is in its loop; `sent` is what the client was sent, oldest first.
pub record Connection (F E : Type 0) : Type 0 where
  pub feeder : Feeder F
  pub handle : Option String
  pub closed : Bool
  pub unsub_done : Bool
  pub send_err_count : ℕ
  pub jobs : List (Job E)
  pub sent : List E
  pub serving : Bool

-- What `receive_text` or the sleep behind it raises.
pub data Raised : Type 0 where
  web_socket_disconnect runtime_error cancelled_error : Raised

-- A listener emits; the event loop runs a job, where the flag is whether a send succeeds; the handler's
-- wait for the client ends, with what it raises.
pub data Step (E : Type 0) : Type 0 where
  emits : E → Step E
  runs : Bool → Step E
  receives : Option Raised → Step E

-- The classes under Exception: a CancelledError is a BaseException only.
abbrev pub is_exception : Raised → Bool
is_exception web_socket_disconnect = true
is_exception runtime_error = true
is_exception cancelled_error = false

abbrev pub released : {F : Type 0} → Option String → Feeder F → Feeder F
released none f = f
released (some h) f = if str_eq h "" then f else unsubscribe h f

module _ {F E : Type 0} where
  -- `_do_unsubscribe`
  unfoldable pub do_unsubscribe : Connection F E → Connection F E
  do_unsubscribe c =
      if c.unsub_done
      then c
      else record c { feeder = released c.handle c.feeder; unsub_done = true }

  -- `send_event`
  unfoldable pub send_event : E → Bool → Connection F E → Connection F E
  send_event env sends c =
      if c.closed then c else if sends then record c { sent = c.sent ++ env ∷ [] } else record c {
        send_err_count = c.send_err_count + 1;
        closed = true;
        jobs = c.jobs ++ release ∷ [];
      }

  -- `emit_event_sync`
  unfoldable pub emit_event_sync : E → Connection F E → Connection F E
  emit_event_sync env c = if c.closed then c else record c { jobs = c.jobs ++ send env ∷ [] }

  unfoldable pub run_job : Bool → Connection F E → Connection F E
  unfolding send_event do_unsubscribe
  run_job sends c = elim c.jobs [
    | [] ↦ c
    | j ∷ js ↦ elim j [
      | send env ↦ send_event env sends (record c { jobs = js })
      | release ↦ do_unsubscribe (record c { jobs = js })
    ]
  ]

  -- What is left to do when the loop is left: `finally`, also after `except WebSocketDisconnect`.
  unfoldable pub leave : Connection F E → Connection F E
  unfolding do_unsubscribe
  leave c = record (do_unsubscribe c) { serving = false }

  -- One turn of the handler's loop, whose inner `except Exception` goes on.
  unfoldable pub receive : Option Raised → Connection F E → Connection F E
  unfolding leave
  receive none c = c
  receive (some raised) c = if is_exception raised then c else leave c

  unfoldable pub step : Step E → Connection F E → Connection F E
  unfolding emit_event_sync run_job receive
  step (emits env) c = emit_event_sync env c
  step (runs sends) c = run_job sends c
  step (receives raised) c = if c.serving then receive raised c else c

  unfoldable pub after_steps : List (Step E) → Connection F E → Connection F E
  unfolding step
  after_steps [] c = c
  after_steps (s ∷ ss) c = after_steps ss (step s c)

  -- The connection once `attach_gapless` has answered a handle, with the envelopes that it emitted.
  unfoldable pub attached : String → List E → Feeder F → Connection F E
  attached handle envs f = record {
    feeder = f;
    handle = some handle;
    closed = false;
    unsub_done = false;
    send_err_count = 0;
    jobs = map send envs;
    sent = [];
    serving = true;
  }

  -- `ws_stream` up to its loop: whether the acknowledgement is sent, then the answer of
  -- `attach_gapless`, where none is an exception.
  unfoldable pub open_connection :
      Bool
      → (Feeder F → Feeder F × Option (String × List E))
      → Feeder F
      → Feeder F × Option (Connection F E)
  unfolding attached
  open_connection false attach f = (f, none)
  open_connection true attach f =
      let (f', answer) = attach f in
      elim answer [ none ↦ (f', none) | some (handle, envs) ↦ (f', some (attached handle envs f')) ]
