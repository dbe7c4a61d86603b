-- ===== src/Planner/Enqueue.antt =====
-- The data of the planner, and the operations of `BackfillPlanner`.
use deepfeeder.Base.{
  ℕ, zero, suc, ◌+◌, ◌-◌, min, String, Bool, Option, none, some, List, [], ◌∷◌, ◌++◌, leb, ◌==◌,
  if◌then◌else◌,
}
use deepfeeder.Base.Dict.{Dict, lookup, insert}

pub record Gap : Type 0 where
  pub provider : String
  pub symbol : String
  pub start_id : ℕ
  pub end_id : ℕ
  pub discovered_at_ns : ℕ
  pub priority : ℕ

pub data Status : Type 0 where
  pending running done failed : Status

pub record Task : Type 0 where
  pub task_id : String
  pub provider : String
  pub symbol : String
  pub start_id : ℕ
  pub end_id : ℕ
  pub created_at_ns : ℕ
  pub status : Status
  pub try_count : ℕ
  pub last_error : String

-- `gap_rows` and `task_rows` are what the UI tables have been sent, oldest first; `has_writers`
-- says whether those tables could be opened.
pub record Planner : Type 0 where
  pub max_ids_per_task : ℕ
  pub gap_merge_distance : ℕ
  pub queues : Dict (List ℕ)
  pub tasks : Dict ℕ
  pub heap : ℕ → Task
  pub next : ℕ
  pub has_writers : Bool
  pub gap_rows : List Gap
  pub task_rows : List Task

-- `uuid.uuid4()` and `time.time_ns()`, at the creation of the n-th task.
pub record Supply : Type 0 where
  pub uuid : ℕ → String
  pub time_ns : ℕ → ℕ

abbrev pub update : (ℕ → Task) → ℕ → Task → ℕ → Task
update h r t q = if r == q then t else h q

-- `d.get(k)` of a dictionary of queues, where a missing queue is as good as an empty one.
abbrev pub or_empty : Option (List ℕ) → List ℕ
or_empty none = []
or_empty (some q) = q

abbrev pub queue_of : Planner → String → List ℕ
queue_of p provider = or_empty (lookup provider p.queues)

unfoldable pub mirror_task : ℕ → Planner → Planner
mirror_task r p = record p {
  task_rows = if p.has_writers then p.task_rows ++ p.heap r ∷ [] else p.task_rows;
}

-- `_enqueue_task`, for the object that is being created at the address `p.next`.
unfoldable pub enqueue_task : Task → Planner → Planner
unfolding mirror_task
enqueue_task t p = mirror_task p.next (record p {
  queues = insert t.provider (queue_of p t.provider ++ p.next ∷ []) p.queues;
  tasks = insert t.task_id p.next p.tasks;
  heap = update p.heap p.next t;
  next = p.next + 1;
})

unfoldable pub mirror_gap : Gap → Planner → Planner
mirror_gap gap p = record p {
  gap_rows = if p.has_writers then p.gap_rows ++ gap ∷ [] else p.gap_rows;
}

module _ (supply : Supply) where
  -- The task that starts at `cur` and ends before `stop`.
  unfoldable pub make_task : Gap → ℕ → ℕ → ℕ → Task
  make_task gap cur stop r = record {
    task_id = supply.uuid r;
    provider = gap.provider;
    symbol = gap.symbol;
    start_id = cur;
    end_id = stop - 1;
    created_at_ns = supply.time_ns r;
    status = pending;
    try_count = 0;
    last_error = "";
  }

  -- The loop of `add_gap`, on fuel. `stop` is the source's `end + 1`, the next `cur`; a task
  -- whose `end` were -1 has no model, and the loop that would make one never ends.
  unfoldable pub slice : ℕ → Gap → ℕ → Planner → List ℕ → Option (Planner × List ℕ)
  unfolding make_task enqueue_task
  slice zero gap cur p made = none
  slice (suc fuel) gap cur p made =
      let stop = min (cur + p.max_ids_per_task) (gap.end_id + 1) in
      let rest =
        slice fuel gap stop (enqueue_task (make_task gap cur stop p.next) p)
          (made ++ p.next ∷ []) in
      if leb cur gap.end_id then rest else some (p, made)

  -- `add_gap`, with the addresses of the tasks that it returns. The fuel is enough for every gap
  -- if a task may hold an id.
  unfoldable pub add_gap : Gap → Planner → Option (Planner × List ℕ)
  unfolding slice mirror_gap
  add_gap gap p = slice (gap.end_id + 2) gap gap.start_id (mirror_gap gap p) []

-- The task at `r` is mutated, and its row is sent to the UI.
abbrev write_task : ℕ → Task → Planner → Planner
write_task r t p = mirror_task r (record p { heap = update p.heap r t })

unfoldable pub claim_first : String → List ℕ → Planner → Planner × Option ℕ
claim_first provider [] p = (p, none)
claim_first provider (r ∷ q) p =
    let t = p.heap r in
    (
      write_task r (record t { status = running; try_count = t.try_count + 1 })
          (record p { queues = insert provider q p.queues }),
      some r,
    )

-- `claim_task`, with the address of the task that it returns.
unfoldable pub claim_task : String → Planner → Planner × Option ℕ
unfolding claim_first mirror_task
claim_task provider p = claim_first provider (queue_of p provider) p

unfoldable pub mark_done : String → Planner → Planner
unfolding mirror_task
mark_done task_id p = elim (lookup task_id p.tasks) [
  | none ↦ p
  | some r ↦ write_task r (record (p.heap r) { status = done }) p
]

unfoldable pub mark_failed : String → String → Planner → Planner
unfolding mirror_task
mark_failed task_id error p = elim (lookup task_id p.tasks) [
  | none ↦ p
  | some r ↦ write_task r (record (p.heap r) { status = failed; last_error = error }) p
]
