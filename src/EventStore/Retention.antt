-- ===== src/EventStore/Retention.antt =====
-- Pruning and restarts: what is not committed stays, and ids are never given out twice.
use deepfeeder.Base.{
  ℕ, ◌-◌, ◌≤◌, ◌<◌, ◌≡◌, refl, sym, ap, ◌∙◌, not, ◌||◌, List, [], ◌∷◌, map, arith, filter, length,
  leb, ltb, ◌==◌, Any, Any-filter, All-filter, filter-filter, map-filter, Bool-cases, inl, inr,
  subst, All,
}
use deepfeeder.Base.Sort.{Rising, Below, Rising-filter, Below-filter, Below-weaken}
use deepfeeder.Contracts.{Envelope}
use deepfeeder.EventStore.DuckDb.{
  Formats, Row, Db, row_id, max_batch_id, reopen, prune_upto, maybe_vacuum, maybe_prune,
  mark_committed,
}
use deepfeeder.EventStore.Laws.{IsValid, stored, envelope_of, Readable}

module _ {P : Type 0} (formats : Formats P) where
  -- What a pruned store is: the rows above the cutoff, and everything else but counters unchanged.
  pub record Pruned (s s' : Db formats) : Type 0 where
    pub cutoff : ℕ
    pub bounded : cutoff ≤ s.last_committed - s.prune_safety_batches
    pub rows : s'.event_store ≡ filter (λ r. not (leb r.batch_id cutoff)) s.event_store
    pub sequence : s'.next_value ≡ s.next_value
    pub committed : s'.last_committed ≡ s.last_committed

  none_below :
      (cutoff : ℕ) (rows : List (Row formats))
      → length (filter (λ r. leb r.batch_id cutoff) rows) ≡ 0
      → filter (λ r. not (leb r.batch_id cutoff)) rows ≡ rows
  none_below cutoff [] h = refl
  none_below cutoff (r ∷ rows) h = ground (arith, none_below cutoff rows)

  -- A row that was kept whole: no id is 0.
  all_above :
      (lo : ℕ) (rows : List (Row formats))
      → Rising (row_id formats) lo rows
      → filter (λ r. not (leb r.batch_id 0)) rows ≡ rows
  all_above lo [] r = refl
  all_above lo (x ∷ rows) r = ground (arith, all_above x.batch_id rows r.1)

  prune_upto-rows :
      (cutoff : ℕ) (s : Db formats)
      → (prune_upto formats cutoff s).0.event_store
        ≡ filter (λ r. not (leb r.batch_id cutoff)) s.event_store
  unfolding prune_upto
  prune_upto-rows cutoff s = ground (arith, none_below cutoff s.event_store)

  maybe_prune-Pruned :
      (now : ℕ) (s : Db formats)
      → Rising (row_id formats) 0 s.event_store
      → Pruned s (maybe_prune formats now s)
  unfolding maybe_prune maybe_vacuum
  maybe_prune-Pruned now s rising =
      let cutoff = s.last_committed - s.prune_safety_batches in
      elim (Bool-cases (s.prune_interval == 0 || ltb (now - s.last_prune_ts) s.prune_interval)) [
        | inl early ↦ rw (early, maybe_prune) (kept s refl refl refl)
        | inr due ↦ elim (Bool-cases (cutoff == 0 || leb cutoff s.last_pruned_batch)) [
          | inl nothing ↦ rw (due, nothing, maybe_prune) (kept _ refl refl refl)
          | inr something ↦
              rw (due, something, maybe_prune)
                (record {
                  cutoff = cutoff;
                  bounded = omega arith;
                  rows = ground (arith, prune_upto-rows cutoff s);
                  sequence = unfold prune_upto in ground arith;
                  committed = unfold prune_upto in ground arith;
                })
        ]
      ]
    where
      kept :
          (s' : Db formats)
          → s'.event_store ≡ s.event_store
          → s'.next_value ≡ s.next_value
          → s'.last_committed ≡ s.last_committed
          → Pruned s s'
      kept s' e n c = record {
        cutoff = 0;
        bounded = omega arith;
        rows = e ∙ sym (all_above 0 s.event_store rising);
        sequence = n;
        committed = c;
      }

  module _ (s s' : Db formats) (pr : Pruned s s') (v : IsValid formats s) where
    Pruned-IsValid : IsValid formats s'
    Pruned-IsValid = record {
      rising =
          subst (Rising (row_id formats) 0) (sym pr.rows)
            (Rising-filter (row_id formats) 0 _ s.event_store v.rising);
      below =
          subst (λ n. Below (row_id formats) (n - 1) s'.event_store) (sym pr.sequence)
            (subst (Below (row_id formats) (s.next_value - 1)) (sym pr.rows)
              (Below-filter (row_id formats) (s.next_value - 1) _ s.event_store v.below));
      positive = omega (arith, pr.sequence, v.positive);
      readable =
          subst (All (Readable formats)) (sym pr.rows)
            (All-filter (Readable formats) _ s.event_store v.readable);
    }

    Pruned-stored :
        filter (λ e. ltb (s.last_committed - s.prune_safety_batches) e.batch_id) (stored formats s')
        ≡ filter
            (λ e. ltb (s.last_committed - s.prune_safety_batches) e.batch_id)
            (stored formats s)
    Pruned-stored =
        let floor = s.last_committed - s.prune_safety_batches in
        let p = λ (e : Envelope P). ltb floor e.batch_id in
        ap (λ rows. filter p (map (envelope_of formats) rows)) pr.rows
        ∙ sym (
            map-filter (envelope_of formats) p
              (filter (λ r. not (leb r.batch_id pr.cutoff)) s.event_store))
        ∙ ap (map (envelope_of formats)) (
            filter-filter (λ (r : Row formats). ltb floor r.batch_id)
              (λ r. not (leb r.batch_id pr.cutoff)) s.event_store
              (λ r h. ground (arith, pr.bounded)))
        ∙ map-filter (envelope_of formats) p s.event_store

  -- On a valid store, marking a batch as committed makes it the last committed one, keeps the store valid, and keeps
  -- every envelope whose id is above the batch's less the safety window.
  pub mark_committed-keeps :
      (now bid : ℕ) (s : Db formats)
      → IsValid formats s
      → IsValid formats (mark_committed formats now bid s)
        × ((mark_committed formats now bid s).last_committed ≡ bid)
        × (filter
              (λ e. ltb (bid - s.prune_safety_batches) e.batch_id)
              (stored formats (mark_committed formats now bid s))
            ≡ filter (λ e. ltb (bid - s.prune_safety_batches) e.batch_id) (stored formats s))
  unfolding mark_committed
  mark_committed-keeps now bid s v =
      let s₁ : Db formats = record s { last_committed = bid } in
      let v₁ : IsValid formats s₁ = record {
        rising = v.rising;
        below = v.below;
        positive = v.positive;
        readable = v.readable;
      } in
      let pr = maybe_prune-Pruned now s₁ v.rising in
      (Pruned-IsValid s₁ _ pr v₁, pr.committed, Pruned-stored s₁ _ pr v₁)

  le-max_batch_id :
      (bid : ℕ) (rows : List (Row formats))
      → Any (λ r. r.batch_id ≡ bid) rows
      → bid ≤ max_batch_id formats rows
  unfolding max_batch_id
  le-max_batch_id bid (r ∷ rows) (inl here) = omega arith
  le-max_batch_id bid (r ∷ rows) (inr later) = omega (arith, le-max_batch_id bid rows later)
  le-max_batch_id bid [] h = elim h [ ]

  max_batch_id-Below :
      (rows : List (Row formats)) → Below (row_id formats) (max_batch_id formats rows) rows
  unfolding max_batch_id
  max_batch_id-Below [] = tt
  max_batch_id-Below (r ∷ rows) = (
    omega arith,
    Below-weaken (row_id formats) (max_batch_id formats rows) _ rows (omega arith)
        (max_batch_id-Below rows),
  )

  -- After a stored batch is marked as committed, whatever is pruned by that, a restart leaves a
  -- valid store whose next id is above the committed one, if the safety window is not 0: no id is
  -- given out a second time.
  pub reopen-above_committed :
      (now bid : ℕ) (s : Db formats)
      → IsValid formats s
      → 0 < s.prune_safety_batches
      → 0 < bid
      → Any (λ r. r.batch_id ≡ bid) s.event_store
      → IsValid formats (reopen formats (mark_committed formats now bid s))
        × (bid < (reopen formats (mark_committed formats now bid s)).next_value)
  unfolding reopen mark_committed
  reopen-above_committed now bid s v window positive present =
      let s₁ : Db formats = record s { last_committed = bid } in
      let pr = maybe_prune-Pruned now s₁ v.rising in
      let s₂ = maybe_prune formats now s₁ in
      let v₂ = (mark_committed-keeps now bid s v).0 in
      let still = subst (Any (λ (r : Row formats). r.batch_id ≡ bid)) (sym pr.rows) (
        Any-filter (λ (r : Row formats). r.batch_id ≡ bid) _ s.event_store
          (λ r e. ground (arith, pr.bounded)) present) in
      (
        record {
          rising = v₂.rising;
          below =
              Below-weaken (row_id formats) (max_batch_id formats s₂.event_store) _ s₂.event_store
                (omega arith) (max_batch_id-Below s₂.event_store);
          positive = omega arith;
          readable = v₂.readable;
        },
        omega (arith, le-max_batch_id bid s₂.event_store still),
      )
