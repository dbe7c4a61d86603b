-- ===== src/Tests/Planning.antt =====
-- The planner and the gap monitor at small inputs: two ids in a task, watermarks in a dictionary.
use deepfeeder.Base.{
  ℕ, zero, suc, ◌<◌, String, ◌≡◌, refl, true, Option, none, some, List, [], ◌∷◌, map, length,
  filter, arith, str_eq, prefixed, if◌then◌else◌, ◌⊎◌,
}
use deepfeeder.Base.Dict.{Dict, lookup, insert, lookup-insert}
use deepfeeder.Contracts.{Tick, Envelope}
use deepfeeder.Planner.{
  Gap, Status, Task, Planner, Supply, queue_of, add_gap, slice, enqueue_task, make_task, mirror_gap,
  mirror_task,
}
use deepfeeder.Planner.Slices.{Sliced}
use deepfeeder.Planner.Gaps.{add_gap-Sliced, holds, add_gap_once}
use deepfeeder.Planner.Once.{ClaimedOnce, Call, after_calls, after_calls-ClaimedOnce}
use deepfeeder.Watermarks.{Watermarks}
use deepfeeder.GapMonitor.{Monitor, scan_rows, poll, wm_batch_scope, resume_batch}
use deepfeeder.GapMonitor.Complete.{Scanned}
use deepfeeder.GapMonitor.Rows.{trades, scan_rows-Scanned}
use deepfeeder.GapMonitor.Rounds.{env_trades, poll-Scanned}

abbrev name : ℕ → String
name zero = "task"
name (suc n) = prefixed "t" (name n)

abbrev counter : Supply
counter = record { uuid = name; time_ns = λ n. n }

abbrev no_task : Task
no_task = record {
  task_id = "";
  provider = "";
  symbol = "";
  start_id = 0;
  end_id = 0;
  created_at_ns = 0;
  status = Status.pending;
  try_count = 0;
  last_error = "";
}

abbrev idle : Planner
idle = record {
  max_ids_per_task = 2;
  gap_merge_distance = 1000;
  queues = [];
  tasks = [];
  heap = λ r. no_task;
  next = 0;
  has_writers = true;
  gap_rows = [];
  task_rows = [];
}

abbrev five_ids : Gap
five_ids = record {
  provider = "binance";
  symbol = "BTCUSDT";
  start_id = 10;
  end_id = 14;
  discovered_at_ns = 1;
  priority = 0;
}

room : 0 < idle.max_ids_per_task
room = omega arith

idle-ClaimedOnce : ClaimedOnce idle
unfolding lookup
idle-ClaimedOnce = record { waiting = λ provider. tt; tried = λ r h. omega (arith, h) }

abbrev start_and_end : Option (Planner × List ℕ) → List (ℕ × ℕ)
start_and_end none = []
start_and_end (some (p, rs)) = map (λ r. ((p.heap r).start_id, (p.heap r).end_id)) rs

-- Five ids make three tasks, the last of one id.
five_ids_cut : start_and_end (add_gap counter five_ids idle) ≡ (10, 11) ∷ (12, 13) ∷ (14, 14) ∷ []
unfolding add_gap slice make_task enqueue_task mirror_gap mirror_task insert lookup
five_ids_cut = refl

add_gap-Sliced_example :
    (p' : Planner) × (rs : List ℕ) × (add_gap counter five_ids idle ≡ some (p', rs))
    × Sliced five_ids 10 idle p' rs
add_gap-Sliced_example = add_gap-Sliced counter five_ids idle room

add_gap_once_example :
    (p' : Planner) × (rs : List ℕ) × (add_gap counter five_ids idle ≡ some (p', rs))
    × (length (filter (holds p' 12) rs) ≡ 1)
add_gap_once_example = add_gap_once counter five_ids idle room 12

idle-queue : queue_of idle "binance" ≡ []
unfolding lookup
idle-queue = refl

abbrev calls : List Call
calls =
    Call.adds five_ids
    ∷ Call.claims "binance"
    ∷ Call.finishes "task"
    ∷ Call.claims "binance"
    ∷ Call.fails "ttask" "timeout"
    ∷ []

after_calls-ClaimedOnce_example :
    (p' : Planner) × (after_calls counter idle calls ≡ some p') × ClaimedOnce p'
after_calls-ClaimedOnce_example = after_calls-ClaimedOnce counter calls idle room idle-ClaimedOnce

-- `COALESCE` makes a missing watermark 0.
abbrev or_zero : Option ℕ → ℕ
or_zero none = 0
or_zero (some v) = v

lookup-written :
    (v : ℕ) (scope other : String) (s s' : Dict ℕ)
    → some (insert scope v s) ≡ some s'
    → some (or_zero (lookup other s'))
      ≡ (if str_eq scope other then some v else some (or_zero (lookup other s)))
lookup-written v scope other s s' e = ground (arith, lookup-insert scope other v s)

abbrev dictionary : Watermarks
dictionary = record {
  Store = Dict ℕ;
  get_watermark = λ scope s. some (or_zero (lookup scope s));
  set_watermark = λ v scope s. some (insert scope v s);
  get-set = lookup-written;
}

abbrev monitor : Monitor dictionary
monitor = record { last_seq = []; journal = []; planner = idle }

abbrev trade : ℕ → Tick String
trade seq = record {
  provider = "binance";
  stream = "trades";
  symbol = "BTCUSDT";
  ts_ns = seq;
  seq = some seq;
  payload = "";
  is_final = true;
}

-- A jump from 5 to 9, and an id that comes late.
abbrev rows : List (Tick String)
rows = trade 5 ∷ trade 9 ∷ trade 7 ∷ []

scan_rows-Scanned_example :
    (m' : Monitor dictionary) × (scan_rows dictionary counter rows monitor ≡ some m')
    × Scanned dictionary (trades rows) monitor m'
scan_rows-Scanned_example = scan_rows-Scanned dictionary counter rows monitor room

abbrev envelope : Envelope String
envelope = record {
  batch_id = 4;
  draft = record { produced_at_ns = 0; first_offset = none; last_offset = none; rows = rows };
}

poll-Scanned_example :
    (m' : Monitor dictionary) × (poll dictionary counter (envelope ∷ []) (monitor, 1)
      ≡ some (m', 5))
    × Scanned dictionary (env_trades (envelope ∷ [])) monitor m'
    × ((resume_batch dictionary m'.journal ≡ 5)
        ⊎ ((s : Dict ℕ) × (dictionary.set_watermark 4 wm_batch_scope s ≡ none)))
poll-Scanned_example = poll-Scanned dictionary counter envelope [] monitor 1 room
