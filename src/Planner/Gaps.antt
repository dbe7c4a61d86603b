-- ===== src/Planner/Gaps.antt =====
-- What `add_gap` gives to its caller: a tiling of the gap in which each id has one task.
use native.Mathlib.Decide.{dec_le}
use deepfeeder.Base.{
  ℕ, zero, suc, ◌+◌, ◌≤◌, ◌<◌, ◌≡◌, refl, Bool, ◌&&◌, none, some, List, [], ◌∷◌, arith, leb, length,
  filter, if◌then◌else◌, min, ◌++◌,
}
use deepfeeder.Planner.Enqueue.{
  Gap, Task, Planner, Supply, slice, mirror_gap, add_gap, enqueue_task, make_task,
}
use deepfeeder.Planner.Slices.{Tiles, Sliced, slice-Sliced, Upward}

abbrev pub holds : Planner → ℕ → ℕ → Bool
holds p id r = leb (p.heap r).start_id id && leb id (p.heap r).end_id

Tiles-once :
    (p : Planner) (cap lo hi id : ℕ) (rs : List ℕ)
    → Tiles p.heap cap lo hi rs
    → length (filter (holds p id) rs) ≡ (if leb lo id && leb id hi then 1 else 0)
Tiles-once p cap lo hi id [] t = ground arith
Tiles-once p cap lo hi id (r ∷ rs) t =
    ground (arith, Tiles-once p cap ((p.heap r).end_id + 1) hi id rs t.4)

module _ (supply : Supply) (gap : Gap) (p : Planner) where
  -- If a task may hold at least one id, `add_gap` ends. The tasks that it creates tile the gap in
  -- order, at most `max_ids_per_task` ids each, they are pending, belong to the gap's symbol and
  -- provider and wait, in order, behind what that provider's queue held; the tasks of before, and
  -- the queues of the other providers, are unchanged.
  pub add_gap-Sliced :
      0 < p.max_ids_per_task
      → (p' : Planner) × (rs : List ℕ) × (add_gap supply gap p ≡ some (p', rs))
        × Sliced gap gap.start_id p p' rs
  unfolding add_gap mirror_gap
  add_gap-Sliced room =
      let (p', rs, made, s) =
        slice-Sliced supply gap (gap.end_id + 2) gap.start_id (mirror_gap gap p) [] room
          (omega arith) (omega arith) in
      (
        p',
        rs,
        made,
        record {
          limit = s.limit;
          grows = s.grows;
          keeps = s.keeps;
          fresh = s.fresh;
          addresses = s.addresses;
          tiles = s.tiles;
          queued = s.queued;
          others = s.others;
        },
      )

  -- If a task may hold an id, every id of the gap is in exactly one of the tasks that `add_gap` creates, and no other id is
  -- in any of them.
  pub add_gap_once :
      0 < p.max_ids_per_task
      → (id : ℕ)
      → (p' : Planner) × (rs : List ℕ) × (add_gap supply gap p ≡ some (p', rs))
        × (length (filter (holds p' id) rs)
            ≡ (if leb gap.start_id id && leb id gap.end_id then 1 else 0))
  add_gap_once room id =
      let (p', rs, made, s) = add_gap-Sliced room in
      (p', rs, made, Tiles-once p' p.max_ids_per_task gap.start_id gap.end_id id rs s.tiles)

-- With `max_ids_per_task` 0 the loop of `add_gap`, at an id that is not past the gap's end, returns
-- for no fuel.
slice_stuck :
    (supply : Supply) (fuel : ℕ) (gap : Gap) (cur : ℕ) (p : Planner) (made : List ℕ)
    → p.max_ids_per_task ≡ 0
    → cur ≤ gap.end_id
    → slice supply fuel gap cur p made ≡ none
unfolding slice
slice_stuck supply zero gap cur p made nothing more = refl
slice_stuck supply (suc fuel) gap cur p made nothing more =
    let stop = min (cur + p.max_ids_per_task) (gap.end_id + 1) in
    ground (
      arith,
      slice_stuck supply fuel gap stop (enqueue_task (make_task supply gap cur stop p.next) p)
          (made ++ p.next ∷ []),
    )

-- An id between the ends of a tiling is in one of its tasks.
pub Tiles-cover :
    (heap : ℕ → Task) (cap lo hi from to id : ℕ) (rs : List ℕ)
    → Upward from to rs
    → Tiles heap cap lo hi rs
    → lo ≤ id
    → id ≤ hi
    → (r : ℕ) × (from ≤ r) × (r < to) × ((heap r).start_id ≤ id) × (id ≤ (heap r).end_id)
Tiles-cover heap cap lo hi from to id [] up t low high = absurd (omega arith)
Tiles-cover heap cap lo hi from to id (r ∷ rs) up t low high = elim (dec_le id (heap r).end_id) [
  | yes here ↦ (r, up.0, up.1, omega arith, here)
  | no later ↦
      let (s, a, b, c, d) =
        Tiles-cover heap cap ((heap r).end_id + 1) hi (r + 1) to id rs up.2 t.4 (omega arith)
          high in
      (s, omega arith, b, c, d)
]
