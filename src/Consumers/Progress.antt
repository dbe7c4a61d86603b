-- ===== src/Consumers/Progress.antt =====
-- How far the loops get: what is acknowledged was handled, unless an append or a write raised.
use deepfeeder.Base.{
  ℕ, ◌+◌, ◌≤◌, ◌<◌, ◌≡◌, refl, ap, ◌∙◌, inl, inr, Option, none, some, List, [], ◌∷◌, arith, Any,
  Option-cases,
}
use deepfeeder.Base.Sort.{Rising}
use deepfeeder.Contracts.{Envelope}
use deepfeeder.EventStore.Interface.{EventStore, id_of}
use deepfeeder.Consumers.Rounds.{JournalLoop, commit_all}

module _ {P : Type 0} (st : EventStore P) {Journal : Type 0}
    (append_envelope : Envelope P → Journal → Option (Journal × ℕ))
    (mark_committed : ℕ → st.Store → Option st.Store) where
  abbrev Loop : Type 0
  Loop = JournalLoop st append_envelope mark_committed

  abbrev commit : List (Envelope P) → Loop → Loop
  commit = commit_all st append_envelope mark_committed

  -- The journal after the appends of the envelopes one after the other.
  abbrev pub appends : List (Envelope P) → Journal → Option Journal
  appends [] j = some j
  appends (env ∷ envs) j = elim (append_envelope env j) [
    | none ↦ none
    | some (j', _) ↦ appends envs j'
  ]

  abbrev pub next_after : List (Envelope P) → ℕ → ℕ
  next_after [] next = next
  next_after (env ∷ envs) next = next_after envs (env.batch_id + 1)

  -- The loop after an envelope that was appended and marked.
  abbrev advanced : Envelope P → Journal → ℕ → st.Store → Loop → Loop
  advanced env journal added store s = record s {
    bus = record s.bus { event_store = store };
    journal = journal;
    last_committed = some env.batch_id;
    next_id = env.batch_id + 1;
    last_bid = some env.batch_id;
    envs_total = s.envs_total + 1;
    rows_total = s.rows_total + added;
  }

  commit-advanced :
      (env : Envelope P) (envs : List (Envelope P)) (s : Loop) (j : Journal) (n : ℕ)
      (store : st.Store)
      → append_envelope env s.journal ≡ some (j, n)
      → mark_committed env.batch_id s.bus.event_store ≡ some store
      → commit (env ∷ envs) s ≡ commit envs (advanced env j n store s)
  unfolding commit_all
  commit-advanced env envs s j n store taken marked = ground arith

  next-stopped :
      (env : Envelope P) (envs : List (Envelope P)) (s : Loop) (j : Journal) (n : ℕ)
      → append_envelope env s.journal ≡ some (j, n)
      → mark_committed env.batch_id s.bus.event_store ≡ none
      → (commit (env ∷ envs) s).next_id ≡ s.next_id
  unfolding commit_all
  next-stopped env envs s j n taken raised = ground arith

  -- If no append and no mark ever raises, the journal takes every envelope of the round in order, and
  -- the loop goes on after the last one.
  commit_all-appends :
      ((env : Envelope P) (j : Journal)
        → (j' : Journal) × (n : ℕ) × (append_envelope env j ≡ some (j', n)))
      → ((id : ℕ) (s : st.Store) → (s' : st.Store) × (mark_committed id s ≡ some s'))
      → (envs : List (Envelope P)) (s : Loop)
      → (appends envs s.journal ≡ some (commit envs s).journal)
        × ((commit envs s).next_id ≡ next_after envs s.next_id)
  unfolding commit_all
  commit_all-appends takes marks [] s = (refl, refl)
  commit_all-appends takes marks (env ∷ envs) s =
      let (j, n, taken) = takes env s.journal in
      let (store, marked) = marks env.batch_id s.bus.event_store in
      let s' : Loop = advanced env j n store s in
      let (all, next) = commit_all-appends takes marks envs s' in
      let e = commit-advanced env envs s j n store taken marked in
      (rw (e, taken, appends) all, ap (λ l. l.next_id) e ∙ next)

  above :
      (lo id : ℕ) (envs : List (Envelope P))
      → Rising id_of lo envs
      → Any (λ env. env.batch_id ≡ id) envs
      → lo + 1 ≤ id
  above lo id [] r found = elim found [ ]
  above lo id (env ∷ envs) r (inl here) = omega (arith, r.0)
  above lo id (env ∷ envs) r (inr later) = omega (arith, r.0, above env.batch_id id envs r.1 later)

  -- Where no append raises, a batch whose mark always raises is never passed: over envelopes in
  -- order with it among them, the next id to fetch stays at or below it, if it was before.
  commit_all-mark_raises :
      (id : ℕ)
      → ((env : Envelope P) (j : Journal)
          → (j' : Journal) × (n : ℕ) × (append_envelope env j ≡ some (j', n)))
      → ((s : st.Store) → mark_committed id s ≡ none)
      → (lo : ℕ) (envs : List (Envelope P)) (s : Loop) → Rising id_of lo envs
      → Any (λ env. env.batch_id ≡ id) envs
      → s.next_id ≤ id
      → (commit envs s).next_id ≤ id
  unfolding commit_all
  commit_all-mark_raises id takes raises lo [] s r found le = le
  commit_all-mark_raises id takes raises lo (env ∷ envs) s r (inl here) le =
      let (j, n, taken) = takes env s.journal in
      omega (
        arith,
        next-stopped env envs s j n taken
            (ap (λ b. mark_committed b s.bus.event_store) here ∙ raises s.bus.event_store),
      )
  commit_all-mark_raises id takes raises lo (env ∷ envs) s r (inr later) le =
      let (j, n, taken) = takes env s.journal in
      elim (Option-cases (mark_committed env.batch_id s.bus.event_store)) [
        | inl raised ↦ omega (arith, next-stopped env envs s j n taken raised)
        | inr (store, marked) ↦
            let s' : Loop = advanced env j n store s in
            rw (commit-advanced env envs s j n store taken marked) (
              commit_all-mark_raises id takes raises env.batch_id envs s' r.1 later
                (above env.batch_id id envs r.1 later))
      ]

  -- A batch whose append raises is passed as soon as a later one is appended and marked: the journal
  -- is what the later one alone makes of it, and the loop commits and fetches past both.
  commit_all-append_raises :
      (x env : Envelope P) (s : Loop) (j : Journal) (n : ℕ) (store : st.Store)
      → x.batch_id < env.batch_id
      → append_envelope x s.journal ≡ none
      → append_envelope env s.journal ≡ some (j, n)
      → mark_committed env.batch_id s.bus.event_store ≡ some store
      → ((commit (x ∷ env ∷ []) s).journal ≡ j)
        × ((commit (x ∷ env ∷ []) s).last_committed ≡ some env.batch_id)
        × (x.batch_id < (commit (x ∷ env ∷ []) s).next_id)
  unfolding commit_all
  commit_all-append_raises x env s j n store order raised taken marked = ground arith
