-- ===== src/Planner/Claims.antt =====
-- Claiming: each provider's queue is first in, first out, and no task is ever claimed twice.
use deepfeeder.Base.{
  ℕ, zero, suc, ◌<◌, String, ◌≡◌, refl, ◌∙◌, Option, none, some, List, [], ◌∷◌, ◌++◌, arith, length,
  ap, ap₂,
}
use deepfeeder.Base.Dict.{lookup-insert, str_eq_refl}
use deepfeeder.Planner.Enqueue.{Gap, Planner, Supply, queue_of, add_gap, claim_first, claim_task}
use deepfeeder.Planner.Slices.{Tiles}
use deepfeeder.Planner.Gaps.{add_gap-Sliced}

abbrev prepend : Option ℕ → List ℕ → List ℕ
prepend none rs = rs
prepend (some r) rs = r ∷ rs

-- A producer that claims `n` tasks in a row.
abbrev pub claims : ℕ → String → Planner → Planner × List ℕ
claims zero provider p = (p, [])
claims (suc n) provider p =
    let (p', got) = claim_task provider p in
    let (p'', later) = claims n provider p' in (p'', prepend got later)

queue_of-claim :
    (provider : String) (p : Planner) (r : ℕ) (q : List ℕ)
    → queue_of p provider ≡ r ∷ q
    → (queue_of (claim_task provider p).0 provider ≡ q) × ((claim_task provider p).1 ≡ some r)
unfolding claim_task
queue_of-claim provider p r q h =
    ground (arith, lookup-insert provider provider q p.queues, str_eq_refl provider)

claim-empty :
    (provider : String) (p : Planner) → queue_of p provider ≡ [] → claim_task provider p ≡ (p, none)
unfolding claim_task
claim-empty provider p h = rw (h, claim_first)

claims-queue :
    (provider : String) (rs : List ℕ) (p : Planner)
    → queue_of p provider ≡ rs
    → ((claims (length rs) provider p).1 ≡ rs)
      × (queue_of (claims (length rs) provider p).0 provider ≡ [])
claims-queue provider [] p h = (refl, h)
claims-queue provider (r ∷ rs) p h =
    let (left, got) = queue_of-claim provider p r rs h in
    let (later, none_left) = claims-queue provider rs (claim_task provider p).0 left in
    (ap₂ prepend got later, none_left)

-- If a task may hold an id, cutting a gap for a provider with an empty queue and then claiming once for each task hands out
-- exactly the tasks of the gap, in the order of their ids, and then nothing more.
claims-add_gap :
    (supply : Supply) (gap : Gap) (p : Planner)
    → 0 < p.max_ids_per_task
    → queue_of p gap.provider ≡ []
    → (p' : Planner) × (rs : List ℕ) × (add_gap supply gap p ≡ some (p', rs))
      × Tiles p'.heap p.max_ids_per_task gap.start_id gap.end_id rs
      × ((claims (length rs) gap.provider p').1 ≡ rs)
      × (claim_task gap.provider (claims (length rs) gap.provider p').0
          ≡ ((claims (length rs) gap.provider p').0, none))
claims-add_gap supply gap p room idle =
    let (p', rs, made, s) = add_gap-Sliced supply gap p room in
    let (got, nothing) = claims-queue gap.provider rs p' (s.queued ∙ ap (λ q. q ++ rs) idle) in
    (p', rs, made, s.tiles, got, claim-empty gap.provider _ nothing)
