-- ===== src/Tests/Hearing.antt =====
-- A stream of a client over a failed attempt, and a connection with an answer that is no JSON between two
-- envelopes.
use deepfeeder.Base.{
  ℕ, ◌≡◌, refl, String, Bool, true, false, Option, none, some, List, [], ◌∷◌, ◌++◌, map, arith,
}
use deepfeeder.Json.{Json, num, strip_prefix}
use deepfeeder.Client.{Readings, RawEnvelope, ClientEnvelope, adapt_envelope, ensure_compat}
use deepfeeder.Client.Connection.{
  Recv, garbled, timed_out, envelope, Look, Attempt, refused, accepted, StreamRun, StreamOf,
  run_stream, listed,
}
use deepfeeder.Client.Heard.{sent_in, run_stream-hears}
use deepfeeder.Client.Strategy.{
  Hook, on_bar, dispatch_hooks, through_first, bar_hook, dispatch_hooks-adapt_envelope,
}

abbrev number_of : Json ℕ → Option ℕ
number_of (num n) = some n
number_of other = none

abbrev readings : Readings ℕ ℕ ℕ
readings = record {
  coerce_float = number_of;
  coerce_int = number_of;
  parse_ts = number_of;
  str = λ v. "BTCUSDT";
  nonzero = λ n. true;
  now = 99;
}

abbrev sent : ℕ → RawEnvelope ℕ
sent seq = record {
  version = none;
  phase = some "live";
  part = some "added";
  provider = "binance";
  data_schema = some "trades";
  symbol = "BTCUSDT";
  rows = [];
  row_type = none;
  seq = some (num seq);
  watermark_ns = some (num 100);
}

abbrev look : ℕ → Recv ℕ → Look ℕ
look now r = record { stops = false; looked_at = now; recv = r; handled_at = now }

abbrev attempts : List (Bool × Attempt ℕ)
attempts =
    (false, refused "unreachable")
    ∷ (
      false,
      accepted 10
          (look 20 (envelope (sent 1)) ∷ look 30 garbled ∷ look 60 (envelope (sent 2)) ∷ []),
    )
    ∷ []

abbrev stream : StreamOf
stream = record { provider = "binance"; schema = "trades"; symbol = "BTCUSDT"; idle_timeout = 45 }

abbrev fresh_run : StreamRun ℕ ℕ ℕ
fresh_run = record {
  backoff = 1;
  reconnects = 0;
  last_frame_ts = 0;
  last_watermark_ns = none;
  last_seq = none;
  heard = [];
}

abbrev phases : List (ClientEnvelope ℕ ℕ ℕ) → List String
phases es = map (λ (e : ClientEnvelope ℕ ℕ ℕ). e.phase) es

heard_phases :
    (phases (run_stream readings number_of stream attempts fresh_run).heard
      ≡ "error" ∷ "live" ∷ "live" ∷ [])
    × ((run_stream readings number_of stream attempts fresh_run).last_seq ≡ some 2)
unfolding run_stream adapt_envelope ensure_compat strip_prefix
heard_phases = (refl, refl)

-- At 60 a frame of 10 is too old: the second envelope is not read.
abbrev idle_attempts : List (Bool × Attempt ℕ)
idle_attempts = (false, accepted 10 (look 50 timed_out ∷ look 60 (envelope (sent 2)) ∷ [])) ∷ []

idle_ends : (run_stream readings number_of stream idle_attempts fresh_run).heard ≡ []
unfolding run_stream
idle_ends = refl

run_stream-hears_example :
    (run_stream readings number_of stream attempts fresh_run).heard
    ≡ [] ++ sent_in readings stream attempts
run_stream-hears_example = run_stream-hears readings number_of stream attempts fresh_run (
  refl,
  (refl, (refl, omega arith, refl, (refl, omega arith, refl, (refl, omega arith, refl, tt))), tt),
)

-- Two bars for a strategy that knows no hook but on_bar.
abbrev sent_bars : RawEnvelope ℕ
sent_bars = record (sent 3) {
  data_schema = some "ohlcv_1m";
  row_type = some "bar";
  rows = (("Open", some (num 7)) ∷ []) ∷ (("Open", some (num 8)) ∷ []) ∷ [];
}

abbrev knows_bars : Hook ℕ ℕ ℕ → Bool
knows_bars (on_bar r) = true
knows_bars other = false

dispatch_hooks-adapt_envelope_example :
    map (dispatch_hooks knows_bars) (listed (adapt_envelope readings sent_bars))
    ≡ through_first knows_bars (map (bar_hook readings "binance") sent_bars.rows) ∷ []
unfolding ensure_compat
dispatch_hooks-adapt_envelope_example =
    dispatch_hooks-adapt_envelope readings knows_bars sent_bars refl refl refl
