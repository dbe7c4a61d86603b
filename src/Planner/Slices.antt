-- ===== src/Planner/Slices.antt =====
-- The tasks of a gap: they tile it, and they wait in order at the back of the provider's queue.
use native.Mathlib.Decide.{ℕ_discrete}
use deepfeeder.Base.{
  sym, ◌∙◌, Bool-cases, inl, inr, subst, ap, ℕ, zero, suc, ◌+◌, ◌-◌, ◌≤◌, ◌<◌, min, String, ◌≡◌,
  ◌≢◌, refl, some, List, [], ◌∷◌, ◌++◌, arith, leb, ◌==◌, if◌then◌else◌, append_assoc, eq_iff,
  append-nil,
}
use deepfeeder.Base.Dict.{lookup-insert, str_eq_refl}
use deepfeeder.Planner.Enqueue.{
  Gap, Task, pending, Planner, Supply, queue_of, enqueue_task, make_task, slice,
}

-- The tasks at the addresses `rs` cover the ids from `lo` to `hi`, one after the other, each with
-- at least one id and at most `cap`.
abbrev pub Tiles : (ℕ → Task) → ℕ → ℕ → ℕ → List ℕ → Type 0
Tiles heap cap lo hi [] = hi < lo
Tiles heap cap lo hi (r ∷ rs) =
    ((heap r).start_id ≡ lo)
    × (lo ≤ (heap r).end_id)
    × ((heap r).end_id ≤ hi)
    × ((heap r).end_id < lo + cap)
    × Tiles heap cap ((heap r).end_id + 1) hi rs

-- A pending task of the gap, never claimed, with ids from `lo` on.
abbrev pub Fresh : Gap → ℕ → Task → Type 0
Fresh gap lo t =
    (t.symbol ≡ gap.symbol)
    × (t.provider ≡ gap.provider)
    × (t.status ≡ pending)
    × (t.try_count ≡ 0)
    × (lo ≤ t.start_id)
    × (t.end_id ≤ gap.end_id)

-- Addresses from `lo` on and below `hi`, each above the one before.
abbrev pub Upward : ℕ → ℕ → List ℕ → Type 0
Upward lo hi [] = Unit
Upward lo hi (r ∷ rs) = (lo ≤ r) × (r < hi) × Upward (r + 1) hi rs

-- What `slice` does to a planner: it creates tasks of the gap and changes nothing else.
pub record Sliced (gap : Gap) (lo : ℕ) (p p' : Planner) (rs : List ℕ) : Type 0 where
  pub limit : p'.max_ids_per_task ≡ p.max_ids_per_task
  pub grows : p.next ≤ p'.next
  pub keeps : (r : ℕ) → r < p.next → p'.heap r ≡ p.heap r
  pub fresh : (r : ℕ) → p.next ≤ r → r < p'.next → Fresh gap lo (p'.heap r)
  pub addresses : Upward p.next p'.next rs
  pub tiles : Tiles p'.heap p.max_ids_per_task lo gap.end_id rs
  pub queued : queue_of p' gap.provider ≡ queue_of p gap.provider ++ rs
  pub others :
      (provider : String) → provider ≢ gap.provider → queue_of p' provider ≡ queue_of p provider

module _ (supply : Supply) (gap : Gap) where
  abbrev stop_at : ℕ → Planner → ℕ
  stop_at cur p = min (cur + p.max_ids_per_task) (gap.end_id + 1)

  -- The planner after one round of the loop.
  round : ℕ → Planner → Planner
  round cur p = enqueue_task (make_task supply gap cur (stop_at cur p) p.next) p

  limit-round : (cur : ℕ) (p : Planner) → (round cur p).max_ids_per_task ≡ p.max_ids_per_task
  unfolding round enqueue_task
  limit-round cur p = ground arith

  next-round : (cur : ℕ) (p : Planner) → (round cur p).next ≡ p.next + 1
  unfolding round enqueue_task
  next-round cur p = ground arith

  heap-round :
      (cur : ℕ) (p : Planner) (r : ℕ)
      → (round cur p).heap r
        ≡ (if p.next == r then make_task supply gap cur (stop_at cur p) p.next else p.heap r)
  unfolding round enqueue_task
  heap-round cur p r = ground arith

  queue-round :
      (cur : ℕ) (p : Planner)
      → queue_of (round cur p) gap.provider ≡ queue_of p gap.provider ++ p.next ∷ []
  unfolding round enqueue_task make_task
  queue-round cur p = ground (
    arith,
    lookup-insert gap.provider gap.provider (queue_of p gap.provider ++ p.next ∷ []) p.queues,
    str_eq_refl gap.provider,
  )

  others-round :
      (cur : ℕ) (p : Planner) (provider : String)
      → provider ≢ gap.provider
      → queue_of (round cur p) provider ≡ queue_of p provider
  unfolding round enqueue_task make_task
  others-round cur p provider h = ground (
    arith,
    lookup-insert gap.provider provider (queue_of p gap.provider ++ p.next ∷ []) p.queues,
    eq_iff gap.provider provider,
  )

  Sliced-stop : (cur : ℕ) (p : Planner) → gap.end_id < cur → Sliced gap cur p p []
  Sliced-stop cur p past = record {
    limit = refl;
    grows = omega arith;
    keeps = λ r h. refl;
    fresh = λ r h k. absurd (omega arith);
    addresses = tt;
    tiles = past;
    queued = sym (append-nil _);
    others = λ provider h. refl;
  }

  module _ (cur : ℕ) (p p' : Planner) (rs : List ℕ) (more : cur ≤ gap.end_id)
      (room : 0 < p.max_ids_per_task) (later : Sliced gap (stop_at cur p) (round cur p) p' rs) where
    first-kept : p'.heap p.next ≡ make_task supply gap cur (stop_at cur p) p.next
    first-kept =
        later.keeps p.next (omega (arith, next-round cur p))
        ∙ ground (arith, heap-round cur p p.next)

    Fresh-round : (r : ℕ) → p.next ≤ r → r < p'.next → Fresh gap cur (p'.heap r)
    unfolding make_task
    Fresh-round r h k = elim (ℕ_discrete p.next r) [
      | yes e ↦ rw (← e, first-kept) (refl, refl, refl, refl, omega arith, omega arith)
      | no n ↦
          let f = later.fresh r (omega (arith, next-round cur p)) k in
          (f.0, f.1, f.2, f.3, omega (arith, f.4), f.5)
    ]

    Tiles-round : Tiles p'.heap p.max_ids_per_task cur gap.end_id (p.next ∷ rs)
    unfolding make_task
    Tiles-round = rw first-kept (
      refl,
      omega arith,
      omega arith,
      omega arith,
      let e : stop_at cur p - 1 + 1 ≡ stop_at cur p = omega arith in
          rw e (
            subst (λ m. Tiles p'.heap m (stop_at cur p) gap.end_id rs) (limit-round cur p)
              later.tiles),
    )

    Sliced-round : Sliced gap cur p p' (p.next ∷ rs)
    Sliced-round = record {
      limit = later.limit ∙ limit-round cur p;
      grows = omega (arith, later.grows, next-round cur p);
      keeps = λ r h.
          later.keeps r (omega (arith, next-round cur p)) ∙ ground (arith, heap-round cur p r);
      fresh = Fresh-round;
      addresses = (
        omega arith,
        omega (arith, later.grows, next-round cur p),
        subst (λ n. Upward n p'.next rs) (next-round cur p) later.addresses,
      );
      tiles = Tiles-round;
      queued =
          later.queued
          ∙ rw (queue-round cur p) (append_assoc (queue_of p gap.provider) (p.next ∷ []) rs);
      others = λ provider h. later.others provider h ∙ others-round cur p provider h;
    }

  pub slice-Sliced :
      (fuel cur : ℕ) (p : Planner) (made : List ℕ)
      → 0 < p.max_ids_per_task
      → gap.end_id + 2 ≤ fuel + cur
      → 0 < fuel
      → (p' : Planner) × (rs : List ℕ) × (slice supply fuel gap cur p made ≡ some (p', made ++ rs))
        × Sliced gap cur p p' rs
  unfolding slice round
  slice-Sliced zero cur p made room enough some_fuel = absurd (omega arith)
  slice-Sliced (suc fuel) cur p made room enough some_fuel =
      elim (Bool-cases (leb cur gap.end_id)) [
        | inr past ↦ (p, [], rw (past, append-nil made), Sliced-stop cur p (ground arith))
        | inl more ↦
            let (p', rs, made', later) =
              slice-Sliced fuel (stop_at cur p) (round cur p) (made ++ p.next ∷ [])
                (omega (arith, limit-round cur p)) (ground arith) (ground arith) in
            (
              p',
              p.next ∷ rs,
              rw more (made' ∙ ap (λ l. some (p', l)) (append_assoc made (p.next ∷ []) rs)),
              Sliced-round cur p p' rs (ground arith) room later,
            )
      ]
