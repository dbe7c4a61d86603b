-- ===== src/Client/Connection.antt =====
-- feeder_client/src/feeder_client/client.py: the loop of a stream, `_run`, over what its connections
-- answer. create_connection, recv and json.loads are outside, and times are in seconds. A sleep, whose
-- random part is left out, changes nothing, and what the callback raises is passed over.
use deepfeeder.Base.{
  ℕ, ◌+◌, ◌*◌, min, String, Bool, true, false, ◌&&◌, Option, none, some, List, [], ◌∷◌, ◌++◌, ltb,
  if◌then◌else◌,
}
use deepfeeder.Json.{Json}
use deepfeeder.Client.Registry.{or_kept}
use deepfeeder.Client.Envelopes.{through, Readings, RawEnvelope, ClientEnvelope, adapt_envelope}

-- What recv answers: a timeout, the end of the connection or another exception, nothing, a text that is
-- no UTF-8 or no JSON, JSON that is no object, or an envelope.
pub data Recv (N : Type 0) : Type 0 where
  timed_out ended blank garbled no_object : Recv N
  envelope : RawEnvelope N → Recv N

-- A turn of the inner loop: whether the stop event is set, the time of the idle test, what recv answers,
-- and the time when that is handled.
pub record Look (N : Type 0) : Type 0 where
  pub stops : Bool
  pub looked_at : ℕ
  pub recv : Recv N
  pub handled_at : ℕ

-- create_connection raises, with the text of its exception, or answers at a time; the connection has
-- ended after its looks.
pub data Attempt (N : Type 0) : Type 0 where
  refused : String → Attempt N
  accepted : ℕ → List (Look N) → Attempt N

-- `heard` is what `on_data`, which is set, was called on, oldest first.
pub record StreamRun (N F T : Type 0) : Type 0 where
  pub backoff : ℕ
  pub reconnects : ℕ
  pub last_frame_ts : ℕ
  pub last_watermark_ns : Option ℕ
  pub last_seq : Option ℕ
  pub heard : List (ClientEnvelope N F T)

pub record StreamOf : Type 0 where
  pub provider : String
  pub schema : String
  pub symbol : String
  pub idle_timeout : ℕ

-- The envelope of a failed connection, without the text of the exception in its meta, which the typed
-- envelope keeps as it is.
abbrev pub error_envelope : {N : Type 0} → StreamOf → RawEnvelope N
error_envelope o = record {
  version = some 1;
  phase = some "error";
  part = none;
  provider = o.provider;
  data_schema = some o.schema;
  symbol = o.symbol;
  rows = [];
  row_type = none;
  seq = none;
  watermark_ns = none;
}

abbrev pub listed : {A : Type 0} → Option A → List A
listed none = []
listed (some a) = a ∷ []

module _ {N F T : Type 0} (rd : Readings N F T) where
  unfoldable pub deliver : RawEnvelope N → StreamRun N F T → StreamRun N F T
  unfolding adapt_envelope
  deliver env s = record s { heard = s.heard ++ listed (adapt_envelope rd env) }

module _ {N F T : Type 0} (rd : Readings N F T) (int : Json N → Option ℕ) where
  abbrev pub is_unreadable : Option (Json N) → Bool
  is_unreadable none = false
  is_unreadable (some v) = elim (int v) [ none ↦ true | some n ↦ false ]

  -- The resume hints. A watermark that is no number ends their reading.
  abbrev pub keep_hints : Option (Json N) → Option (Json N) → StreamRun N F T → StreamRun N F T
  keep_hints wm seq s = record s {
    last_watermark_ns = or_kept (through int wm) s.last_watermark_ns;
    last_seq = if is_unreadable wm then s.last_seq else or_kept (through int seq) s.last_seq;
  }

  -- `_handle_envelope`
  unfoldable pub handle_raw : ℕ → RawEnvelope N → StreamRun N F T → StreamRun N F T
  unfolding deliver
  handle_raw now env s =
      deliver rd env (record (keep_hints env.watermark_ns env.seq s) { last_frame_ts = now })

  abbrev pub is_idle : StreamOf → ℕ → StreamRun N F T → Bool
  is_idle o now s = ltb 0 o.idle_timeout && ltb (s.last_frame_ts + o.idle_timeout) now

  -- What a turn does with what recv answered, where `more` is the rest of the inner loop.
  abbrev pub received :
      (StreamRun N F T → StreamRun N F T) → ℕ → Recv N → StreamRun N F T → StreamRun N F T
  received more now timed_out s = more s
  received more now ended s = s
  received more now blank s = more s
  received more now garbled s = more s
  received more now no_object s = more (record s { last_frame_ts = now })
  received more now (envelope env) s = more (handle_raw now env s)

  -- The inner loop.
  unfoldable pub read_looks : StreamOf → List (Look N) → StreamRun N F T → StreamRun N F T
  unfolding handle_raw
  read_looks o [] s = s
  read_looks o (l ∷ ls) s =
      let more = read_looks o ls in
      if l.stops
      then s
      else if is_idle o l.looked_at s
      then s
      else received more l.handled_at l.recv s

  unfoldable pub connect : StreamOf → Attempt N → StreamRun N F T → StreamRun N F T
  unfolding deliver read_looks
  connect o (refused message) s =
      let s' = deliver rd (error_envelope o) s in record s' { backoff = min (s'.backoff * 2) 30 }
  connect o (accepted now ls) s =
      read_looks o ls (record s { reconnects = s.reconnects + 1; backoff = 1; last_frame_ts = now })

  -- `_run` over attempts, each with whether the stop event is set at the test before it.
  unfoldable pub run_stream : StreamOf → List (Bool × Attempt N) → StreamRun N F T → StreamRun N F T
  unfolding connect
  run_stream o [] s = s
  run_stream o ((stops, a) ∷ later) s =
      let rest = run_stream o later (connect o a s) in if stops then s else rest
