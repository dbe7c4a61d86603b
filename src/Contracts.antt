-- ===== src/Contracts.antt =====
-- feeder_server/data/app.d/core/contracts.py: ticks, envelopes and the natural key of a tick.
-- `P` is the type of a tick's payload, a JSON dictionary that this code passes on unread.
use deepfeeder.Base.{ℕ, String, Option, none, some, Bool, List}

pub record Tick (P : Type 0) : Type 0 where
  pub provider : String
  pub stream : String
  pub symbol : String
  pub ts_ns : ℕ
  pub seq : Option ℕ
  pub payload : P
  pub is_final : Bool

-- An envelope as a caller hands it to the event store, whose `batch_id` of -1 nothing reads.
pub record Draft (P : Type 0) : Type 0 where
  pub produced_at_ns : ℕ
  pub first_offset : Option ℕ
  pub last_offset : Option ℕ
  pub rows : List (Tick P)

pub record Envelope (P : Type 0) : Type 0 where
  pub batch_id : ℕ
  pub draft : Draft P
  pub open draft use *

-- `natural_key`: the tuple (provider, stream, symbol, seq or ts_ns).
pub record NaturalKey : Type 0 where
  pub provider : String
  pub stream : String
  pub symbol : String
  pub number : ℕ

abbrev pub seq_or : Option ℕ → ℕ → ℕ
seq_or none ts = ts
seq_or (some s) ts = s

unfoldable pub natural_key : {P : Type 0} → Tick P → NaturalKey
natural_key t = record {
  provider = t.provider;
  stream = t.stream;
  symbol = t.symbol;
  number = seq_or t.seq t.ts_ns;
}
