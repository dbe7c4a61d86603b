-- ===== src/Journal/Batches.antt =====
-- A reader that fetches committed batches misses none.
use deepfeeder.Base.{
  ℕ, zero, suc, ◌+◌, ◌*◌, ◌==◌, ◌≤◌, ◌<◌, ◌≡◌, refl, sym, ap, ap₂, ◌∙◌, subst, List, [], ◌∷◌, ◌++◌,
  map, map-append, filter, take, length, leb, All, Any, arith, Bool-cases, inl, inr, Any-filter,
  All-take, All-append, drop,
}
use deepfeeder.Base.Sort.{order_by, Any-order_by}
use deepfeeder.Contracts.{Envelope}
use deepfeeder.Journal.Tables.{Hot, Journal}
use deepfeeder.Journal.Committed.{
  ids_from, read_back, batch_rows, hot_ts, envelopes, next_committed_from, last_id_or, go_on,
  fetches,
}
use deepfeeder.Journal.Ids.{
  Up, add_id-Up, filter-add_id, All-add_id, Any-add_id, last_from, last_from-le, after_ids,
  take_more, go_on_ids, some_of, take_whole, length-add_id-le,
}

module _ {P : Type 0} where
  ids_from-Up : (start : ℕ) (hs : List (Hot P)) → Up start (ids_from start hs)
  unfolding ids_from
  ids_from-Up start [] = tt
  ids_from-Up start (h ∷ hs) = elim (Bool-cases (leb start h.batch_id)) [
    | inl in_ ↦ rw in_ (
        add_id-Up start h.batch_id (ids_from start hs) (ground (arith, in_)) (ids_from-Up start hs))
    | inr out ↦ rw out (ids_from-Up start hs)
  ]

  ids_from-later :
      (start from : ℕ) (hs : List (Hot P))
      → start ≤ from
      → ids_from from hs ≡ filter (leb from) (ids_from start hs)
  unfolding ids_from
  ids_from-later start from [] h = refl
  ids_from-later start from (x ∷ hs) h =
      ground
        (arith, ids_from-later start from hs h, filter-add_id from x.batch_id (ids_from start hs))

  abbrev pub IsBatch : ℕ → List (Hot P) → Type 0
  IsBatch b hs = Any (λ h. h.batch_id ≡ b) hs

  weaken-IsBatch :
      (h : Hot P) (hs : List (Hot P)) (is : List ℕ)
      → All (λ b. IsBatch b hs) is
      → All (λ b. IsBatch b (h ∷ hs)) is
  weaken-IsBatch h hs [] all = tt
  weaken-IsBatch h hs (i ∷ is) all = (inr all.0, weaken-IsBatch h hs is all.1)

  ids_from-IsBatch : (start : ℕ) (hs : List (Hot P)) → All (λ b. IsBatch b hs) (ids_from start hs)
  unfolding ids_from
  ids_from-IsBatch start [] = tt
  ids_from-IsBatch start (h ∷ hs) =
      let rest = weaken-IsBatch h hs (ids_from start hs) (ids_from-IsBatch start hs) in
      elim (Bool-cases (leb start h.batch_id)) [
        | inl in_ ↦
            rw in_
              (All-add_id (λ b. IsBatch b (h ∷ hs)) h.batch_id (ids_from start hs) (inl refl) rest)
        | inr out ↦ rw out rest
      ]

  ids_from-all :
      (start b : ℕ) (hs : List (Hot P))
      → start ≤ b
      → IsBatch b hs
      → Any (λ i. i ≡ b) (ids_from start hs)
  unfolding ids_from
  ids_from-all start b [] h any = any
  ids_from-all start b (x ∷ hs) h any = elim (Bool-cases (leb start x.batch_id)) [
    | inl in_ ↦ rw in_ (
        Any-add_id b x.batch_id (ids_from start hs)
          (elim any [ inl here ↦ inl here | inr there ↦ inr (ids_from-all start b hs h there) ]))
    | inr out ↦ rw out (elim any [
      | inl here ↦ absurd (ground (arith, out, here, h))
      | inr there ↦ ids_from-all start b hs h there
    ])
  ]

  -- The rows of a batch, as `next_committed_from` answers them.
  abbrev pub IsRead : List (Hot P) → Envelope P → Type 0
  IsRead hs e = e.rows ≡ map read_back (order_by hot_ts (filter (λ h. h.batch_id == e.batch_id) hs))

  some_rows :
      (b : ℕ) (hs : List (Hot P))
      → IsBatch b hs
      → (r : Hot P) × (rs : List (Hot P)) × (batch_rows b hs ≡ r ∷ rs)
  unfolding batch_rows
  some_rows b hs any =
      some_of (λ h. h.batch_id ≡ b) (batch_rows b hs)
        (Any-order_by hot_ts (λ h. h.batch_id ≡ b) (filter (λ h. h.batch_id == b) hs)
          (Any-filter (λ h. h.batch_id ≡ b) (λ h. h.batch_id == b) hs (λ h e. ground (arith, e))
            any))

  envelopes-ids :
      (hs : List (Hot P)) (bs : List ℕ)
      → All (λ b. IsBatch b hs) bs
      → (map (λ (e : Envelope P). e.batch_id) (envelopes hs bs) ≡ bs)
        × All (IsRead hs) (envelopes hs bs)
  unfolding envelopes
  envelopes-ids hs [] all = (refl, tt)
  envelopes-ids hs (b ∷ bs) all =
      let (r, rs, e) = some_rows b hs all.0 in
      let (ids, read) = envelopes-ids hs bs all.1 in
      rw e (ap (◌∷◌ b) ids, (ap (map read_back) (sym e), read))

  go_on-ids :
      (start : ℕ) (envs : List (Envelope P))
      → go_on start envs ≡ go_on_ids start (map (λ (e : Envelope P). e.batch_id) envs)
  go_on-ids start [] = refl
  go_on-ids start (e ∷ es) = ap (λ n. n + 1) (go es e.batch_id)
    where
      go :
          (es : List (Envelope P)) (b : ℕ)
          → last_id_or b es ≡ last_from b (map (λ (e : Envelope P). e.batch_id) es)
      go [] b = refl
      go (e ∷ es) b = go es e.batch_id

  -- What `n` fetches of `limit` batches give.
  abbrev pub Fetched : List (Hot P) → List ℕ → List (Envelope P) → Type 0
  Fetched hs is envs = (map (λ (e : Envelope P). e.batch_id) envs ≡ is) × All (IsRead hs) envs

  next_committed_from-Fetched :
      (start limit : ℕ) (j : Journal P)
      → Fetched j.journal_hot
          (take limit (ids_from start j.journal_hot))
          (next_committed_from start limit j)
  unfolding next_committed_from
  next_committed_from-Fetched start limit j =
      envelopes-ids j.journal_hot (take limit (ids_from start j.journal_hot))
        (All-take _ limit (ids_from start j.journal_hot) (ids_from-IsBatch start j.journal_hot))

  -- Behind the first `limit` ids are the others.
  ids_from-next :
      (start m : ℕ) (hs : List (Hot P))
      → ids_from (go_on_ids start (take (suc m) (ids_from start hs))) hs
        ≡ drop (suc m) (ids_from start hs)
  ids_from-next start m hs = go (ids_from start hs) refl
    where
      go :
          (is : List ℕ)
          → ids_from start hs ≡ is
          → ids_from (go_on_ids start (take (suc m) is)) hs ≡ drop (suc m) is
      go [] e = e
      go (i ∷ is) e =
          let up = subst (Up start) e (ids_from-Up start hs) in
          ids_from-later start (last_from i (take m is) + 1) hs
            (omega (arith, up.0, last_from-le i m is up.1))
          ∙ ap (filter (leb (last_from i (take m is) + 1))) e
          ∙ after_ids m i is up.1

  fetches-Fetched :
      (n start m : ℕ) (j : Journal P)
      → Fetched j.journal_hot
          (take (n * suc m) (ids_from start j.journal_hot))
          (fetches n start (suc m) j)
  unfolding fetches
  fetches-Fetched zero start m j = (ap (λ k. take k (ids_from start j.journal_hot)) (none_of m), tt)
    where
      none_of : (m : ℕ) → 0 ≡ 0 * suc m
      none_of m = omega arith
  fetches-Fetched (suc n) start m j =
      let ids = ids_from start j.journal_hot in
      let envs = next_committed_from start (suc m) j in
      let (here, read) = next_committed_from-Fetched start (suc m) j in
      let (rest, more) = fetches-Fetched n (go_on start envs) m j in
      let behind =
        ap (λ s. ids_from s j.journal_hot) (go_on-ids start envs ∙ ap (go_on_ids start) here)
        ∙ ids_from-next start m j.journal_hot in
      let times : suc m + n * suc m ≡ suc n * suc m = omega arith in
      (
        map-append (λ (e : Envelope P). e.batch_id) envs (fetches n (go_on start envs) (suc m) j)
            ∙ ap₂ ◌++◌ here (rest ∙ ap (take (n * suc m)) behind)
            ∙ sym (take_more (suc m) (n * suc m) ids)
            ∙ ap (λ k. take k ids) times,
        All-append (IsRead j.journal_hot) envs (fetches n (go_on start envs) (suc m) j) read more,
      )

  length-ids_from-le : (start : ℕ) (hs : List (Hot P)) → length (ids_from start hs) ≤ length hs
  unfolding ids_from
  length-ids_from-le start [] = omega arith
  length-ids_from-le start (h ∷ hs) =
      ground (arith, length-ids_from-le start hs, length-add_id-le h.batch_id (ids_from start hs))

  -- A reader that fetches at least one batch at a time, and goes on behind the last batch of each
  -- answer, has after as many fetches as the table has rows one envelope for each batch from `start`
  -- on that has rows, and no others: their ids strictly rise, and each holds all the rows of its
  -- batch in the order of time.
  pub fetches-whole :
      (start limit : ℕ) (j : Journal P)
      → 0 < limit
      → let envs = fetches (length j.journal_hot) start limit j in
        Up start (map (λ (e : Envelope P). e.batch_id) envs)
        × All (IsRead j.journal_hot) envs
        × All (λ b. IsBatch b j.journal_hot) (map (λ (e : Envelope P). e.batch_id) envs)
        × ((b : ℕ)
            → start ≤ b
            → IsBatch b j.journal_hot
            → Any (λ i. i ≡ b) (map (λ (e : Envelope P). e.batch_id) envs))
  fetches-whole start zero j room = absurd (omega (arith, room))
  fetches-whole start (suc m) j room =
      let hs = j.journal_hot in
      let (ids, read) = fetches-Fetched (length hs) start m j in
      let many : length (ids_from start hs) ≤ length hs * suc m =
        omega (arith, length-ids_from-le start hs) in
      let whole = ids ∙ take_whole (length hs * suc m) (ids_from start hs) many in
      (
        subst (Up start) (sym whole) (ids_from-Up start hs),
        read,
        subst (All (λ b. IsBatch b hs)) (sym whole) (ids_from-IsBatch start hs),
        λ b from any. subst (Any (λ i. i ≡ b)) (sym whole) (ids_from-all start b hs from any),
      )
