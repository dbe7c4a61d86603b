-- ===== src/Journal/Pages.antt =====
-- The stream of the append-only table ends and is complete.
use deepfeeder.Base.{
  ℕ, zero, suc, ◌+◌, ◌-◌, ◌<◌, ◌≡◌, refl, sym, ap, ◌∙◌, subst, Bool, true, ◌&&◌, some, List, [],
  ◌∷◌, ◌++◌, map, map-append, filter, take, length, leb, All, arith, Bool-cases, inl, inr,
  All-filter, All-take, ◌⊎◌, length-filter-le, drop, take-drop, length-drop-le,
}
use deepfeeder.Contracts.{Tick}
use deepfeeder.Journal.Tables.{Hot, Journal}
use deepfeeder.Journal.Streams.{sort_by, insert_before}
use deepfeeder.Journal.HotStream.{
  HotRow, HotCursor, HotQuery, numbered, row_ts, row_before, row_after, hot_tick, selected,
  fetch_hot, hot_cursor, hot_pages, stream_hot,
}
use deepfeeder.Journal.Chains.{
  Chain, Apart, filter-sort, sort-Chain, hot_cursor-row, after-page, concat, All-sort,
  after-cursor_at,
}

module _ {P : Type 0} where
  Apart-filter : (p : HotRow P → Bool) (rs : List (HotRow P)) → Apart rs → Apart (filter p rs)
  Apart-filter p [] apart = tt
  Apart-filter p (r ∷ rs) apart = elim (Bool-cases (p r)) [
    | inl keep ↦ rw keep (All-filter _ p rs apart.0, Apart-filter p rs apart.1)
    | inr drop ↦ rw drop (Apart-filter p rs apart.1)
  ]

  numbered-above : (n m : ℕ) (hs : List (Hot P)) → n < m → All (λ s. n < s.rowid) (numbered m hs)
  unfolding numbered
  numbered-above n m [] h = tt
  numbered-above n m (x ∷ hs) h = (h, numbered-above n (m + 1) hs (omega (arith, h)))

  numbered-Apart : (n : ℕ) (hs : List (Hot P)) → Apart (numbered n hs)
  unfolding numbered
  numbered-Apart n [] = tt
  numbered-Apart n (h ∷ hs) = (numbered-above n (n + 1) hs (omega arith), numbered-Apart (n + 1) hs)

  -- Behind a row that is behind a cursor, rows are behind the cursor.
  row_after_trans :
      (cur : HotCursor) (x r : HotRow P)
      → row_after cur x ≡ true
      → row_before x r ≡ true
      → row_after cur r ≡ true
  row_after_trans cur x r h k = ground arith

  module _ (q : HotQuery P) where
    selected-kept :
        (cur : HotCursor) (rows : List (HotRow P))
        → All (λ r. row_after cur r ≡ true) (filter (selected q cur) rows)
    selected-kept cur [] = tt
    selected-kept cur (r ∷ rows) = elim (Bool-cases (selected q cur r)) [
      | inl keep ↦ rw keep (ground arith, selected-kept cur rows)
      | inr drop ↦ rw drop (selected-kept cur rows)
    ]

    -- What a later cursor selects is what is behind it of what an earlier one selects.
    filter-selected :
        (cur next : HotCursor) (rows : List (HotRow P))
        → ((r : HotRow P) → row_after next r ≡ true → row_after cur r ≡ true)
        → filter (row_after next) (filter (selected q cur) rows) ≡ filter (selected q next) rows
    filter-selected cur next [] h = refl
    filter-selected cur next (r ∷ rows) h = ground (arith, filter-selected cur next rows h, h r)

    abbrev pending : List (HotRow P) → HotCursor → List (HotRow P)
    pending rows cur = sort_by row_before (filter (selected q cur) rows)

    pending-next :
        (rows : List (HotRow P)) (cur : HotCursor) (m : ℕ) (t : HotRow P) (ts : List (HotRow P))
        → Apart rows
        → pending rows cur ≡ t ∷ ts
        → pending rows (hot_cursor t (take m ts)) ≡ drop m ts
    pending-next rows cur m t ts apart e =
        let seen =
          subst (All (λ r. row_after cur r ≡ true)) e
            (All-sort _ (filter (selected q cur) rows) (selected-kept cur rows)) in
        let (x, after, at) =
          hot_cursor-row (λ r. row_after cur r ≡ true) t (take m ts) seen.0
            (All-take _ m ts seen.1) in
        let next = hot_cursor t (take m ts) in
        let onward : (r : HotRow P) → row_after next r ≡ true → row_after cur r ≡ true = λ r h.
          row_after_trans cur x r after
            (sym (after-cursor_at x r) ∙ ap (λ c. row_after c r) (sym at) ∙ h) in
        ap (sort_by row_before) (sym (filter-selected cur next rows onward))
        ∙ sym (
            filter-sort (row_after next) (filter (selected q cur) rows) (Apart-filter _ rows apart))
        ∙ ap (filter (row_after next)) e
        ∙ after-page m t ts
            (subst Chain e (sort-Chain (filter (selected q cur) rows) (Apart-filter _ rows apart)))

    List-cases : {A : Type 0} (xs : List A) → (xs ≡ []) ⊎ ((x : A) × (ys : List A) × (xs ≡ x ∷ ys))
    List-cases [] = inl refl
    List-cases (x ∷ xs) = inr (x, xs, refl)

    hot_pages-more :
        (fuel : ℕ) (rows : List (HotRow P)) (cur : HotCursor) (t : HotRow P)
        (page : List (HotRow P)) (pages : List (List (Tick P)))
        → fetch_hot q rows cur ≡ t ∷ page
        → hot_pages fuel q rows (hot_cursor t page) ≡ some pages
        → hot_pages (suc fuel) q rows cur ≡ some (map hot_tick (t ∷ page) ∷ pages)
    unfolding hot_pages
    hot_pages-more fuel rows cur t page pages e done = rw (e, done, hot_pages) refl

    hot_pages-over :
        (fuel : ℕ) (rows : List (HotRow P)) (cur : HotCursor)
        → fetch_hot q rows cur ≡ []
        → hot_pages (suc fuel) q rows cur ≡ some []
    unfolding hot_pages
    hot_pages-over fuel rows cur e = rw (e, hot_pages) refl

    hot_pages-whole :
        (fuel m : ℕ) (rows : List (HotRow P)) (cur : HotCursor)
        → q.page_rows ≡ suc m
        → Apart rows
        → length (pending rows cur) < fuel
        → (pages : List (List (Tick P))) × (hot_pages fuel q rows cur ≡ some pages)
          × (concat pages ≡ map hot_tick (pending rows cur))
    unfolding fetch_hot
    hot_pages-whole zero m rows cur size apart enough = absurd (omega (arith, enough))
    hot_pages-whole (suc fuel) m rows cur size apart enough = elim (List-cases (pending rows cur)) [
      | inl over ↦ (
        [],
        hot_pages-over fuel rows cur (ap (take q.page_rows) over ∙ ap (λ n. take n []) size),
        rw over refl,
      )
      | inr (t, ts, e) ↦
          let next = hot_cursor t (take m ts) in
          let rest = pending-next rows cur m t ts apart e in
          let (pages, done, all) =
            hot_pages-whole fuel m rows next size apart
              (omega (arith, enough, ap length e, ap length rest, length-drop-le m ts)) in
          (
            map hot_tick (t ∷ take m ts) ∷ pages,
            hot_pages-more fuel rows cur t (take m ts) pages
                (ap (take q.page_rows) e ∙ ap (λ n. take n (t ∷ ts)) size) done,
            ap (λ xs. map hot_tick (t ∷ take m ts) ++ xs) (all ∙ ap (map hot_tick) rest)
                ∙ sym (map-append hot_tick (t ∷ take m ts) (drop m ts))
                ∙ ap (λ xs. map hot_tick (t ∷ xs)) (take-drop m ts)
                ∙ sym (ap (map hot_tick) e),
          )
    ]

  sort-length : (rs : List (HotRow P)) → length (sort_by row_before rs) ≡ length rs
  unfolding sort_by insert_before
  sort-length [] = refl
  sort-length (r ∷ rs) = insert-length r (sort_by row_before rs) ∙ ap suc (sort-length rs)
    where
      insert-length :
          (a : HotRow P) (rs : List (HotRow P))
          → length (insert_before row_before a rs) ≡ suc (length rs)
      insert-length a [] = refl
      insert-length a (r ∷ rs) = ground (arith, insert-length a rs)

  length-numbered : (n : ℕ) (hs : List (Hot P)) → length (numbered n hs) ≡ length hs
  unfolding numbered
  length-numbered n [] = refl
  length-numbered n (h ∷ hs) = omega (arith, length-numbered (n + 1) hs)

  -- With pages of at least one row and one turn of fuel more than the table has rows, the stream of
  -- the append-only table ends, and its pages hold together, once each, the wanted ticks of the
  -- table from the time on, in the order of time and then of insertion.
  pub stream_hot-whole :
      (q : HotQuery P) (since : ℕ) (j : Journal P)
      → 0 < q.page_rows
      → (pages : List (List (Tick P))) × (stream_hot (suc (length j.journal_hot)) q since j
          ≡ some pages)
        × (concat pages
            ≡ map hot_tick (
                sort_by row_before (
                  filter
                    (λ r. leb since (row_ts r) && q.wanted r.hot.tick)
                    (numbered 0 j.journal_hot))))
  unfolding stream_hot
  stream_hot-whole q since j room =
      let rows = numbered 0 j.journal_hot in
      let start : HotCursor = record { last_ts = since; from_rowid = 0 } in
      let few : length (sort_by row_before (filter (selected q start) rows))
          < suc (length j.journal_hot) =
        omega (
          arith,
          sort-length (filter (selected q start) rows),
          length-filter-le (selected q start) rows,
          length-numbered 0 j.journal_hot,
        ) in
      let (pages, done, all) =
        hot_pages-whole q (suc (length j.journal_hot)) (q.page_rows - 1) rows start
          (omega (arith, room)) (numbered-Apart 0 j.journal_hot) few in
      (pages, done, all ∙ ap (λ rs. map hot_tick (sort_by row_before rs)) (from_start q since rows))
    where
      from_start :
          (q : HotQuery P) (since : ℕ) (rows : List (HotRow P))
          → filter (selected q (record { last_ts = since; from_rowid = 0 })) rows
            ≡ filter (λ r. leb since (row_ts r) && q.wanted r.hot.tick) rows
      from_start q since [] = refl
      from_start q since (r ∷ rows) = ground (arith, from_start q since rows)
