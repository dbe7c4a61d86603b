-- ===== src/Backfill/Drained.antt =====
-- The worker ends every task that waits for it.
use deepfeeder.Base.{
  ℕ, ◌+◌, ◌≤◌, ◌<◌, String, ◌≡◌, ◌≢◌, refl, sym, ap, ap₂, ◌∙◌, subst, ◌⊎◌, inl, inr, some, List, [],
  ◌∷◌, ◌++◌, length, All, arith,
}
use deepfeeder.Base.Dict.{lookup, lookup-insert}
use deepfeeder.Contracts.{Tick}
use deepfeeder.Planner.{
  Status, or_empty, running, done, failed, Task, Planner, update, queue_of, claim_task, claim_first,
  mirror_task, mark_done, mark_failed,
}
use deepfeeder.Backfill.Pages.{Outcome, finished, raised, out_of_fuel, Outside}
use deepfeeder.Backfill.Worker.{processed, mark_ended, after_claim, worker_turn, worker_turns}

module _ {P : Type 0} (outside : String → Outside P) (error : String) where
  abbrev Ends : Task → Type 0
  Ends t = ((processed outside t).1 ≡ finished) ⊎ ((processed outside t).1 ≡ raised)

  abbrev pub status_of : Outcome → Status
  status_of finished = done
  status_of raised = failed
  status_of out_of_fuel = running

  -- What a turn on the first task of the queue leaves.
  record Turned (r : ℕ) (q : List ℕ) (p p' : Planner) : Type 0 where
    rest : queue_of p' "binance" ≡ q
    tasks : p'.tasks ≡ p.tasks
    others : (s : ℕ) → s ≢ r → p'.heap s ≡ p.heap s
    ended : (p'.heap r).status ≡ status_of (processed outside (p.heap r)).1

  -- The planner that has handed out the task at `r`.
  abbrev handed : ℕ → List ℕ → Planner → Planner
  handed r q p = (claim_first "binance" (r ∷ q) p).0

  handed-task :
      (r : ℕ) (q : List ℕ) (p : Planner)
      → (handed r q p).heap r
        ≡ record (p.heap r) { status = running; try_count = (p.heap r).try_count + 1 }
  unfolding claim_first mirror_task
  handed-task r q p = ground arith

  handed-others :
      (r : ℕ) (q : List ℕ) (p : Planner) (s : ℕ) → s ≢ r → (handed r q p).heap s ≡ p.heap s
  unfolding claim_first mirror_task
  handed-others r q p s other = ground (arith, other)

  handed-queue : (r : ℕ) (q : List ℕ) (p : Planner) → queue_of (handed r q p) "binance" ≡ q
  unfolding claim_first mirror_task
  handed-queue r q p = ap or_empty (lookup-insert "binance" "binance" q p.queues)

  -- A write of the task at `r`.
  written-Turned :
      (r : ℕ) (q : List ℕ) (p c : Planner) (t : Task)
      → c.tasks ≡ p.tasks
      → queue_of c "binance" ≡ q
      → ((s : ℕ) → s ≢ r → c.heap s ≡ p.heap s)
      → t.status ≡ status_of (processed outside (p.heap r)).1
      → Turned r q p (mirror_task r (record c { heap = update c.heap r t }))
  unfolding mirror_task
  written-Turned r q p c t tasks queued others ended = record {
    rest = queued;
    tasks = tasks;
    others = λ s other. ground (arith, other, others s other);
    ended = ground (arith, ended);
  }

  -- Marking the task at `r`.
  marked-Turned :
      (r : ℕ) (q : List ℕ) (p c : Planner) (out : Outcome)
      → lookup (p.heap r).task_id c.tasks ≡ some r
      → c.tasks ≡ p.tasks
      → queue_of c "binance" ≡ q
      → ((s : ℕ) → s ≢ r → c.heap s ≡ p.heap s)
      → (out ≡ finished) ⊎ (out ≡ raised)
      → out ≡ (processed outside (p.heap r)).1
      → Turned r q p (mark_ended error out (p.heap r).task_id c)
  unfolding mark_ended mark_done mark_failed
  marked-Turned r q p c finished registered tasks queued others ends same =
      subst (Turned r q p) (sym (rw (registered, mark_done) refl)) (
        written-Turned r q p c (record (c.heap r) { status = done }) tasks queued others
          (ap status_of same))
  marked-Turned r q p c raised registered tasks queued others ends same =
      subst (Turned r q p) (sym (rw (registered, mark_failed) refl)) (
        written-Turned r q p c (record (c.heap r) { status = failed; last_error = error }) tasks
          queued others (ap status_of same))
  marked-Turned r q p c out_of_fuel registered tasks queued others (inl e) same = cc e
  marked-Turned r q p c out_of_fuel registered tasks queued others (inr e) same = cc e

  turn_on :
      (r : ℕ) (q : List ℕ) (p : Planner)
      → queue_of p "binance" ≡ r ∷ q
      → worker_turn outside error p ≡ (
        mark_ended error (processed outside (p.heap r)).1 (p.heap r).task_id (handed r q p),
        (processed outside (p.heap r)).0,
      )
  unfolding worker_turn claim_task claim_first
  turn_on r q p queued =
      ap (λ l. after_claim outside error (claim_first "binance" l p)) queued
      ∙ ap
          (λ (t : Task). (
            mark_ended error (processed outside t).1 t.task_id (handed r q p),
            (processed outside t).0,
          ))
          (handed-task r q p)

  handed-tasks : (r : ℕ) (q : List ℕ) (p : Planner) → (handed r q p).tasks ≡ p.tasks
  unfolding claim_first mirror_task
  handed-tasks r q p = refl

  turn-Turned :
      (r : ℕ) (q : List ℕ) (p : Planner)
      → queue_of p "binance" ≡ r ∷ q
      → lookup (p.heap r).task_id p.tasks ≡ some r
      → Ends (p.heap r)
      → Turned r q p (worker_turn outside error p).0
        × ((worker_turn outside error p).1 ≡ (processed outside (p.heap r)).0)
  turn-Turned r q p queued registered ends =
      subst
        (λ (x : Planner × List (Tick P)).
          Turned r q p x.0 × (x.1 ≡ (processed outside (p.heap r)).0))
        (sym (turn_on r q p queued))
        (
          marked-Turned r q p (handed r q p) (processed outside (p.heap r)).1
              (ap (lookup (p.heap r).task_id) (handed-tasks r q p) ∙ registered)
              (handed-tasks r q p) (handed-queue r q p) (handed-others r q p) ends refl,
          refl,
        )

  -- The ticks of the tasks, one task after the other.
  abbrev pub ticks_of : (ℕ → Task) → List ℕ → List (Tick P)
  ticks_of heap [] = []
  ticks_of heap (r ∷ q) = (processed outside (heap r)).0 ++ ticks_of heap q

  -- A waiting task is the one that its id names, and its processing ends.
  abbrev pub IsReady : Planner → ℕ → Type 0
  IsReady p r = (lookup (p.heap r).task_id p.tasks ≡ some r) × Ends (p.heap r)

  -- Addresses from `lo` on, each above the one before.
  abbrev pub Climbs : ℕ → List ℕ → Type 0
  Climbs lo [] = Unit
  Climbs lo (r ∷ q) = (lo ≤ r) × Climbs (r + 1) q

  -- What a turn on a lower address keeps of the tasks that still wait.
  kept-IsReady :
      (r lo : ℕ) (rest q : List ℕ) (p p' : Planner)
      → Turned r rest p p'
      → r < lo
      → Climbs lo q
      → All (IsReady p) q
      → All (IsReady p') q
  kept-IsReady r lo rest [] p p' turned above up ready = tt
  kept-IsReady r lo rest (s ∷ q) p p' turned above up ((named, ends), ready) =
      let same = turned.others s (λ e. omega (arith, e, above, up.0)) in
      (
        (
          ap (λ (t : Task). lookup t.task_id p'.tasks) same
              ∙ ap (lookup (p.heap s).task_id) turned.tasks
              ∙ named,
          subst Ends (sym same) ends,
        ),
        kept-IsReady r (s + 1) rest q p p' turned (omega (arith, above, up.0)) up.1 ready,
      )

  kept-ticks :
      (r lo : ℕ) (rest q : List ℕ) (p p' : Planner)
      → Turned r rest p p'
      → r < lo
      → Climbs lo q
      → ticks_of p'.heap q ≡ ticks_of p.heap q
  kept-ticks r lo rest [] p p' turned above up = refl
  kept-ticks r lo rest (s ∷ q) p p' turned above up =
      ap₂ (◌++◌)
        (ap (λ t. (processed outside t).0) (turned.others s (λ e. omega (arith, e, above, up.0))))
        (kept-ticks r (s + 1) rest q p p' turned (omega (arith, above, up.0)) up.1)

  abbrev pub HasEnded : (ℕ → Task) → (ℕ → Task) → ℕ → Type 0
  HasEnded heap heap' r = (heap' r).status ≡ status_of (processed outside (heap r)).1

  kept-HasEnded :
      (r lo : ℕ) (rest q : List ℕ) (p p' : Planner) (heap' : ℕ → Task)
      → Turned r rest p p'
      → r < lo
      → Climbs lo q
      → All (HasEnded p'.heap heap') q
      → All (HasEnded p.heap heap') q
  kept-HasEnded r lo rest [] p p' heap' turned above up all = tt
  kept-HasEnded r lo rest (s ∷ q) p p' heap' turned above up (h, all) = (
    h
        ∙ ap (λ t. status_of (processed outside t).1)
            (turned.others s (λ e. omega (arith, e, above, up.0))),
    kept-HasEnded r (s + 1) rest q p p' heap' turned (omega (arith, above, up.0)) up.1 all,
  )

  -- If each task that waits is the one that its id names, and its processing finishes or raises, then after a turn for each of them none waits; each is done, or failed if its processing raised, what was published is the ticks of one after the other, and no task at a lower address was changed.
  pub worker_turns-Drained :
      (q : List ℕ) (lo : ℕ) (p : Planner)
      → queue_of p "binance" ≡ q
      → Climbs lo q
      → All (IsReady p) q
      → let (p', ticks) = worker_turns outside (length q) error p in
        (queue_of p' "binance" ≡ [])
        × All (HasEnded p.heap p'.heap) q
        × (ticks ≡ ticks_of p.heap q)
        × ((r : ℕ) → r < lo → p'.heap r ≡ p.heap r)
  unfolding worker_turns
  worker_turns-Drained [] lo p queued up ready = (queued, tt, refl, λ r below. refl)
  worker_turns-Drained (r ∷ q) lo p queued (low, up) (first, ready) =
      let (turned, sent) = turn-Turned r q p queued first.0 first.1 in
      let p' = (worker_turn outside error p).0 in
      let (none_waits, ended, ticks, below) =
        worker_turns-Drained q (r + 1) p' turned.rest up
          (kept-IsReady r (r + 1) q q p p' turned (omega arith) up ready) in
      (
        none_waits,
        (
          ap (λ (t : Task). t.status) (below r (omega arith)) ∙ turned.ended,
          kept-HasEnded r (r + 1) q q p p' (worker_turns outside (length q) error p').0.heap turned
              (omega arith) up ended,
        ),
        ap₂ (◌++◌) sent (ticks ∙ kept-ticks r (r + 1) q q p p' turned (omega arith) up),
        λ s under.
            below s (omega (arith, under, low))
            ∙ turned.others s (λ e. omega (arith, e, under, low)),
      )
