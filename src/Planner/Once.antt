-- ===== src/Planner/Once.antt =====
-- No task is ever claimed twice, whatever the calls.
use mathlib.Core.Option
use native.Mathlib.Decide.{ℕ_discrete, dec_lt}
use deepfeeder.Base.Dict.{string_discrete}
use deepfeeder.Base.{
  sym, ℕ, ◌+◌, ◌≤◌, ◌<◌, String, ◌≡◌, ◌≢◌, refl, ◌∙◌, Option, none, some, List, [], ◌∷◌, ◌++◌,
  arith, eq_iff, Option-cases, inl, inr, subst, ap,
}
use deepfeeder.Base.Dict.{Dict, lookup, insert, lookup-insert, str_eq_refl}
use deepfeeder.Planner.Enqueue.{
  Gap, running, Task, Planner, Supply, update, queue_of, mirror_task, add_gap, claim_first,
  claim_task, mark_done, mark_failed,
}
use deepfeeder.Planner.Slices.{Sliced, Upward}
use deepfeeder.Planner.Gaps.{add_gap-Sliced}

-- The tasks of a queue are the provider's, in the order of creation, and were never claimed.
abbrev pub Waiting : (ℕ → Task) → ℕ → String → ℕ → List ℕ → Type 0
Waiting heap next provider lo [] = Unit
Waiting heap next provider lo (r ∷ q) =
    (lo ≤ r)
    × (r < next)
    × ((heap r).provider ≡ provider)
    × ((heap r).try_count ≡ 0)
    × Waiting heap next provider (r + 1) q

pub record ClaimedOnce (p : Planner) : Type 0 where
  pub waiting : (provider : String) → Waiting p.heap p.next provider 0 (queue_of p provider)
  pub tried : (r : ℕ) → r < p.next → (p.heap r).try_count ≤ 1

-- A change that keeps provider and count of the tasks from `lo` on keeps a queue of them waiting.
Waiting-keep :
    (h h' : ℕ → Task) (next next' : ℕ) (provider : String)
    → next ≤ next'
    → (lo : ℕ) (q : List ℕ)
    → ((r : ℕ)
        → lo ≤ r
        → r < next
        → (h r).provider ≡ provider
        → ((h' r).provider ≡ (h r).provider) × ((h' r).try_count ≡ (h r).try_count))
    → Waiting h next provider lo q
    → Waiting h' next' provider lo q
Waiting-keep h h' next next' provider grows lo [] same w = tt
Waiting-keep h h' next next' provider grows lo (r ∷ q) same w =
    let (ep, et) = same r w.0 w.1 w.2 in
    (
      w.0,
      omega (arith, w.1),
      ep ∙ w.2,
      et ∙ w.3,
      Waiting-keep h h' next next' provider grows (r + 1) q (λ s k. same s (omega (arith, w.0)))
          w.4,
    )

-- The first task of a queue may stand at any address.
Waiting-below :
    (heap : ℕ → Task) (provider : String) (next lo : ℕ) (q : List ℕ)
    → Waiting heap next provider lo q
    → Waiting heap next provider 0 q
Waiting-below heap provider next lo [] w = tt
Waiting-below heap provider next lo (r ∷ q) w = (omega arith, w.1, w.2, w.3, w.4)

-- The tasks of a new gap, behind those that waited.
Waiting-append :
    (gap : Gap) (p p' : Planner) (lo : ℕ) (q rs : List ℕ)
    → Sliced gap gap.start_id p p' rs
    → lo ≤ p.next
    → Waiting p.heap p.next gap.provider lo q
    → Waiting p'.heap p'.next gap.provider lo (q ++ rs)
Waiting-append gap p p' lo [] rs s low w = go lo p.next rs low (omega arith) s.addresses
  where
    go :
        (lo mid : ℕ) (rs : List ℕ)
        → lo ≤ mid
        → p.next ≤ mid
        → Upward mid p'.next rs
        → Waiting p'.heap p'.next gap.provider lo rs
    go lo mid [] low old up = tt
    go lo mid (r ∷ rs) low old up =
        let f = s.fresh r (omega (arith, up.0)) up.1 in
        (
          omega (arith, up.0),
          up.1,
          f.1,
          f.3,
          go (r + 1) (r + 1) rs (omega arith) (omega (arith, up.0)) up.2,
        )
Waiting-append gap p p' lo (r ∷ q) rs s low w =
    let e = s.keeps r w.1 in
    (
      w.0,
      omega (arith, w.1, s.grows),
      ap (λ t. t.provider) e ∙ w.2,
      ap (λ t. t.try_count) e ∙ w.3,
      Waiting-append gap p p' (r + 1) q rs s (omega (arith, w.1)) w.4,
    )

add_gap-ClaimedOnce :
    (gap : Gap) (p p' : Planner) (rs : List ℕ)
    → Sliced gap gap.start_id p p' rs
    → ClaimedOnce p
    → ClaimedOnce p'
add_gap-ClaimedOnce gap p p' rs s c = record {
  waiting = λ provider. elim (string_discrete provider gap.provider) [
    | yes same ↦
        rw (same, s.queued)
          (Waiting-append gap p p' 0 (queue_of p gap.provider) rs s (omega arith)
            (c.waiting gap.provider))
    | no other ↦ rw (s.others provider other) (
        Waiting-keep p.heap p'.heap p.next p'.next provider s.grows 0 (queue_of p provider)
          (λ r _ old _.
            (ap (λ t. t.provider) (s.keeps r old), ap (λ t. t.try_count) (s.keeps r old)))
          (c.waiting provider))
  ];
  tried = λ r below. elim (dec_lt r p.next) [
    | yes old ↦ omega (arith, ap (λ t. t.try_count) (s.keeps r old), c.tried r old)
    | no new ↦ omega (arith, (s.fresh r (omega arith) below).3)
  ];
}

lookup_ne :
    (k j : String) (q : List ℕ) (d : Dict (List ℕ)) → j ≢ k → lookup j (insert k q d) ≡ lookup j d
lookup_ne k j q d h = lookup-insert k j q d ∙ ground (arith, eq_iff k j)

claim_first-ClaimedOnce :
    (provider : String) (p : Planner) (queue : List ℕ)
    → queue_of p provider ≡ queue
    → ClaimedOnce p
    → ClaimedOnce (claim_first provider queue p).0
unfolding claim_first mirror_task
claim_first-ClaimedOnce provider p [] e c = c
claim_first-ClaimedOnce provider p (r ∷ q) e c =
    let t = p.heap r in
    let heap' : ℕ → Task =
      update p.heap r (record t { status = running; try_count = t.try_count + 1 }) in
    let w = subst (Waiting p.heap p.next provider 0) e (c.waiting provider) in
    record {
      waiting = λ other. elim (string_discrete other provider) [
        | yes same ↦
            rw (same, lookup-insert provider provider q p.queues, str_eq_refl provider)
              (Waiting-below heap' provider p.next (r + 1) q (
                Waiting-keep p.heap heap' p.next p.next provider (omega arith) (r + 1) q
                  (λ s above _ _. (ground arith, ground arith)) w.4))
        | no differs ↦ rw (lookup_ne provider other q p.queues differs) (
            Waiting-keep p.heap heap' p.next p.next other (omega arith) 0 (queue_of p other)
              (λ s _ _ owner. elim (ℕ_discrete r s) [
                | yes hit ↦
                    absurd (differs (sym owner ∙ ap (λ n. (p.heap n).provider) (sym hit) ∙ w.2))
                | no miss ↦ (ground arith, ground arith)
              ])
              (c.waiting other))
      ];
      tried = λ s below. ground (arith, c.tried s below, w.3);
    }

claim_task-ClaimedOnce :
    (provider : String) (p : Planner) → ClaimedOnce p → ClaimedOnce (claim_task provider p).0
unfolding claim_task
claim_task-ClaimedOnce provider p c =
    claim_first-ClaimedOnce provider p (queue_of p provider) refl c

-- A write that leaves provider and count of a task alone.
write-ClaimedOnce :
    (p : Planner) (r : ℕ) (t : Task)
    → t.provider ≡ (p.heap r).provider
    → t.try_count ≡ (p.heap r).try_count
    → ClaimedOnce p
    → ClaimedOnce (mirror_task r (record p { heap = update p.heap r t }))
unfolding mirror_task
write-ClaimedOnce p r t owner tries c = record {
  waiting = λ provider.
      Waiting-keep p.heap (update p.heap r t) p.next p.next provider (omega arith) 0
        (queue_of p provider) (λ s _ _ _. (ground arith, ground arith)) (c.waiting provider);
  tried = λ s below. ground (arith, c.tried s below);
}

mark_done-ClaimedOnce : (id : String) (p : Planner) → ClaimedOnce p → ClaimedOnce (mark_done id p)
unfolding mark_done
mark_done-ClaimedOnce id p c = elim (Option-cases (lookup id p.tasks)) [
  | inl missing ↦ rw (missing, mark_done) c
  | inr (r, found) ↦ rw (found, mark_done) (write-ClaimedOnce p r _ refl refl c)
]

mark_failed-ClaimedOnce :
    (id error : String) (p : Planner) → ClaimedOnce p → ClaimedOnce (mark_failed id error p)
unfolding mark_failed
mark_failed-ClaimedOnce id error p c = elim (Option-cases (lookup id p.tasks)) [
  | inl missing ↦ rw (missing, mark_failed) c
  | inr (r, found) ↦ rw (found, mark_failed) (write-ClaimedOnce p r _ refl refl c)
]

-- The calls that a monitor or a producer makes, with any arguments and in any order.
pub data Call : Type 0 where
  adds : Gap → Call
  claims : String → Call
  finishes : String → Call
  fails : String → String → Call

unfoldable pub after_call : Supply → Planner → Call → Option Planner
after_call supply p (adds gap) = Option.map (λ r. r.0) (add_gap supply gap p)
after_call supply p (claims provider) = some (claim_task provider p).0
after_call supply p (finishes id) = some (mark_done id p)
after_call supply p (fails id error) = some (mark_failed id error p)

unfoldable pub after_calls : Supply → Planner → List Call → Option Planner
after_calls supply p [] = some p
after_calls supply p (c ∷ cs) = elim (after_call supply p c) [
  | none ↦ none
  | some p' ↦ after_calls supply p' cs
]

after_call-ClaimedOnce :
    (supply : Supply) (call : Call) (p : Planner)
    → 0 < p.max_ids_per_task
    → ClaimedOnce p
    → (p' : Planner) × (after_call supply p call ≡ some p')
      × (0 < p'.max_ids_per_task)
      × ClaimedOnce p'
unfolding after_call
after_call-ClaimedOnce supply (adds gap) p room c =
    let (p', rs, made, s) = add_gap-Sliced supply gap p room in
    (p', rw made, omega (arith, s.limit), add_gap-ClaimedOnce gap p p' rs s c)
after_call-ClaimedOnce supply (claims provider) p room c = (
  _,
  refl,
  unfold claim_task claim_first mirror_task in ground arith,
  claim_task-ClaimedOnce provider p c,
)
after_call-ClaimedOnce supply (finishes id) p room c =
    (_, refl, unfold mark_done mirror_task in ground arith, mark_done-ClaimedOnce id p c)
after_call-ClaimedOnce supply (fails id error) p room c =
    (_, refl, unfold mark_failed mirror_task in ground arith, mark_failed-ClaimedOnce id error p c)

-- If a task may hold an id, and what follows holds at the start, the planner answers whatever
-- sequence of calls its clients make. After it every task was claimed at most once, and the tasks that wait in a provider's queue are that
-- provider's, were never claimed, and stand in the order of creation.
pub after_calls-ClaimedOnce :
    (supply : Supply) (cs : List Call) (p : Planner)
    → 0 < p.max_ids_per_task
    → ClaimedOnce p
    → (p' : Planner) × (after_calls supply p cs ≡ some p') × ClaimedOnce p'
unfolding after_calls
after_calls-ClaimedOnce supply [] p room c = (p, refl, c)
after_calls-ClaimedOnce supply (call ∷ cs) p room c =
    let (p', one, room', c') = after_call-ClaimedOnce supply call p room c in
    let (p'', more, c'') = after_calls-ClaimedOnce supply cs p' room' c' in
    (p'', rw (one, after_calls) more, c'')
