-- ===== src/Tests/Fetching.antt =====
-- A task of five ids, fetched in pages of two.
use deepfeeder.Backfill.Rest.{Response, responds, request, first_rows, request-first_rows}
use deepfeeder.Backfill.Drained.{IsReady, HasEnded, ticks_of, worker_turns-Drained}
use deepfeeder.Planner.{Status, Task, Planner, queue_of}
use deepfeeder.Base.Dict.{lookup}
use deepfeeder.Base.{
  ℕ, zero, suc, ◌+◌, ◌-◌, ◌≤◌, ◌≡◌, refl, false, some, List, [], ◌∷◌, map, All, arith, String, ◌==◌,
  if◌then◌else◌, ◌<◌, ◌*◌,
}
use deepfeeder.Backfill.{
  Cell, RestRow, Outside, Outcome, process_task, pages, read_page, row_tid, rest_trade_json_to_tick,
  worker_turns,
}
use deepfeeder.Backfill.Range.{seq_of, Documented, Ended, process_task-Ended}

abbrev trade : ℕ → RestRow ℕ
trade id = record {
  id = Cell.number (suc (id - 1));
  t = Cell.missing;
  trade_id = Cell.missing;
  time = Cell.number id;
  payload = some id;
}

abbrev trades : ℕ → ℕ → List (RestRow ℕ)
trades zero id = []
trades (suc n) id = trade id ∷ trades n (id + 1)

abbrev exchange : Outside ℕ
exchange = record {
  get_trades = λ n from limit. trades limit from;
  is_set = λ n. false;
  page_size = 2;
}

trades-Documented : (n from id : ℕ) → from ≤ id → All (Documented {P = ℕ} from) (trades n id)
trades-Documented zero from id h = tt
trades-Documented (suc n) from id h =
    ((id - 1, refl, omega (arith, h)), trades-Documented n from (id + 1) (omega (arith, h)))

fetched :
    (map seq_of (process_task exchange "BTCUSDT" 14 10).0 ≡ 10 ∷ 11 ∷ 12 ∷ 13 ∷ 14 ∷ [])
    × ((process_task exchange "BTCUSDT" 14 10).1 ≡ Outcome.finished)
unfolding process_task pages read_page row_tid rest_trade_json_to_tick
fetched = (refl, refl)

process_task-Ended_example : Ended 14 10 (process_task exchange "BTCUSDT" 14 10)
process_task-Ended_example =
    process_task-Ended exchange "BTCUSDT" 14
      (λ n from limit. trades-Documented limit from from (omega arith)) (omega arith) 10
      (omega arith)

-- Two tasks of one symbol.
abbrev counted : ℕ → Task
counted r = record {
  task_id = if r == 0 then "t0" else "t1";
  provider = "binance";
  symbol = "BTCUSDT";
  start_id = 10 + r * 2;
  end_id = 11 + r * 2;
  created_at_ns = 0;
  status = Status.pending;
  try_count = 0;
  last_error = "";
}

abbrev two_tasks : Planner
two_tasks = record {
  max_ids_per_task = 2;
  gap_merge_distance = 0;
  queues = ("binance", 0 ∷ 1 ∷ []) ∷ [];
  tasks = ("t0", 0) ∷ ("t1", 1) ∷ [];
  heap = counted;
  next = 2;
  has_writers = false;
  gap_rows = [];
  task_rows = [];
}

abbrev answers : String → Outside ℕ
answers id = exchange

counted-IsReady :
    (r : ℕ) → lookup (counted r).task_id two_tasks.tasks ≡ some r → IsReady answers "" two_tasks r
counted-IsReady r named = (
  named,
  (process_task-Ended exchange "BTCUSDT" (11 + r * 2)
      (λ n from limit. trades-Documented limit from from (omega arith)) (omega arith) (10 + r * 2)
      (omega arith)).0,
)

worker_turns-Drained_example :
    let (p', ticks) = worker_turns answers 2 "" two_tasks in
    (queue_of p' "binance" ≡ [])
    × All (HasEnded answers "" two_tasks.heap p'.heap) (0 ∷ 1 ∷ [])
    × (ticks ≡ ticks_of answers "" two_tasks.heap (0 ∷ 1 ∷ []))
    × ((r : ℕ) → r < 0 → p'.heap r ≡ two_tasks.heap r)
unfolding lookup
worker_turns-Drained_example =
    worker_turns-Drained answers "" (0 ∷ 1 ∷ []) 0 two_tasks refl (omega arith, (omega arith, tt))
      (counted-IsReady 0 refl, (counted-IsReady 1 refl, tt))

-- A status that is retried, one that is not but raises, and rows.
abbrev responses : List (Response ℕ)
responses = responds 503 [] ∷ responds 404 [] ∷ responds 200 (7 ∷ []) ∷ []

request-first_rows_example :
    ((request responses).0 ≡ first_rows 5 responses) × ((request responses).1 ≤ 942755)
request-first_rows_example = request-first_rows responses

slept_twice : request responses ≡ (7 ∷ [], 135000)
unfolding request
slept_twice = refl
