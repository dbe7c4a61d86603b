-- ===== src/Backfill/Worker.antt =====
-- The loop of `_run`: tasks are claimed from the planner, processed, and marked. `is_set` of a task's
-- `Outside`, which is named by the task's id, is the stop event during the task; a sleep changes
-- nothing here.
use deepfeeder.Base.{ℕ, zero, suc, String, Option, none, some, List, [], ◌++◌}
use deepfeeder.Contracts.{Tick}
use deepfeeder.Planner.{Task, Planner, claim_task, mark_done, mark_failed}
use deepfeeder.Backfill.Pages.{Outcome, finished, raised, out_of_fuel, Outside, process_task}

-- What follows `_process_task`, with the text of the exception.
unfoldable pub mark_ended : String → Outcome → String → Planner → Planner
mark_ended error finished task_id p = mark_done task_id p
mark_ended error raised task_id p = mark_failed task_id error p
mark_ended error out_of_fuel task_id p = p

module _ {P : Type 0} (outside : String → Outside P) where
  -- `_process_task` on a task.
  abbrev pub processed : Task → List (Tick P) × Outcome
  processed t = process_task (outside t.task_id) t.symbol t.end_id t.start_id

  -- What is done with the answer of `claim_task`.
  unfoldable pub after_claim : String → Planner × Option ℕ → Planner × List (Tick P)
  unfolding mark_ended
  after_claim error (p, none) = (p, [])
  after_claim error (p, some r) =
      let (ticks, out) = processed (p.heap r) in (mark_ended error out (p.heap r).task_id p, ticks)

  -- A turn of the loop, with the ticks that it publishes.
  unfoldable pub worker_turn : String → Planner → Planner × List (Tick P)
  unfolding after_claim
  worker_turn error p = after_claim error (claim_task "binance" p)

  unfoldable pub worker_turns : ℕ → String → Planner → Planner × List (Tick P)
  unfolding worker_turn
  worker_turns zero error p = (p, [])
  worker_turns (suc n) error p =
      let (p', ticks) = worker_turn error p in
      let (p'', more) = worker_turns n error p' in (p'', ticks ++ more)
