-- ===== src/Journal/Chains.antt =====
-- Rows of the append-only table in the order of times and row numbers, and what is behind a page.
use deepfeeder.Base.{
  ℕ, zero, suc, ◌<◌, ◌≡◌, refl, sym, ap, ◌∙◌, Bool, true, false, List, [], ◌∷◌, ◌++◌, filter, take,
  if◌then◌else◌, All, arith, Bool-cases, inl, inr, All-filter, All-take, drop,
}
use deepfeeder.Journal.Streams.{insert_before, sort_by}
use deepfeeder.Journal.HotStream.{HotRow, row_before, row_after, cursor_at, hot_cursor}

-- Pairs of rows of a list are in the order, the earlier row first.
abbrev pub Chain : {P : Type 0} → List (HotRow P) → Type 0
Chain [] = Unit
Chain (r ∷ rs) = All (λ s. row_before r s ≡ true) rs × Chain rs

-- Pairs of rows of a list have different numbers.
abbrev pub Apart : {P : Type 0} → List (HotRow P) → Type 0
Apart [] = Unit
Apart (r ∷ rs) = All (λ s. r.rowid < s.rowid) rs × Apart rs

module _ {P : Type 0} where
  pub row_before_trans :
      (a b c : HotRow P) → row_before a b ≡ true → row_before b c ≡ true → row_before a c ≡ true
  row_before_trans a b c h k = ground arith

  All-before :
      (a b : HotRow P) (rs : List (HotRow P))
      → row_before a b ≡ true
      → All (λ s. row_before b s ≡ true) rs
      → All (λ s. row_before a s ≡ true) rs
  All-before a b [] h all = tt
  All-before a b (s ∷ rs) h all = (row_before_trans a b s h all.0, All-before a b rs h all.1)

  All-insert :
      (Q : HotRow P → Type 0) (a : HotRow P) (rs : List (HotRow P))
      → Q a
      → All Q rs
      → All Q (insert_before row_before a rs)
  unfolding insert_before
  All-insert Q a [] q all = (q, tt)
  All-insert Q a (r ∷ rs) q all = elim (Bool-cases (row_before r a)) [
    | inl later ↦ rw later (all.0, All-insert Q a rs q all.1)
    | inr first ↦ rw first (q, all)
  ]

  pub All-sort :
      (Q : HotRow P → Type 0) (rs : List (HotRow P)) → All Q rs → All Q (sort_by row_before rs)
  unfolding sort_by
  All-sort Q [] all = tt
  All-sort Q (r ∷ rs) all = All-insert Q r (sort_by row_before rs) all.0 (All-sort Q rs all.1)

  insert-Chain :
      (a : HotRow P) (rs : List (HotRow P))
      → All (λ s. a.rowid < s.rowid) rs
      → Chain rs
      → Chain (insert_before row_before a rs)
  unfolding insert_before
  insert-Chain a [] apart c = (tt, tt)
  insert-Chain a (r ∷ rs) apart c = elim (Bool-cases (row_before r a)) [
    | inl later ↦
        rw later
          (All-insert (λ s. row_before r s ≡ true) a rs later c.0, insert-Chain a rs apart.1 c.1)
    | inr first ↦
        let less : row_before a r ≡ true = ground (arith, apart.0) in
        rw first ((less, All-before a r rs less c.0), c)
  ]

  pub sort-Chain : (rs : List (HotRow P)) → Apart rs → Chain (sort_by row_before rs)
  unfolding sort_by
  sort-Chain [] apart = tt
  sort-Chain (r ∷ rs) apart =
      insert-Chain r (sort_by row_before rs) (All-sort (λ s. r.rowid < s.rowid) rs apart.0)
        (sort-Chain rs apart.1)

  -- A row that is in no order with the first of a chain stands before all of it.
  skip-insert :
      (a r : HotRow P) (rs : List (HotRow P))
      → row_before r a ≡ false
      → All (λ s. row_before r s ≡ true) rs
      → insert_before row_before a rs ≡ a ∷ rs
  unfolding insert_before
  skip-insert a r [] h all = refl
  skip-insert a r (s ∷ rs) h all = elim (Bool-cases (row_before s a)) [
    | inl later ↦ absurd (clash (row_before_trans r s a all.0 later))
    | inr first ↦ rw first refl
  ]
    where
      clash : row_before r a ≡ true → ⊥
      clash e = cc (h, e)

  filter-insert :
      (p : HotRow P → Bool) (a : HotRow P) (rs : List (HotRow P))
      → Chain rs
      → filter p (insert_before row_before a rs)
        ≡ (if p a then insert_before row_before a (filter p rs) else filter p rs)
  unfolding insert_before
  filter-insert p a [] c = refl
  filter-insert p a (r ∷ rs) c = elim (Bool-cases (row_before r a)) [
    | inl later ↦ elim (Bool-cases (p r)) [
      | inl keep ↦ elim (Bool-cases (p a)) [
        | inl here ↦
            rw (later, keep, here, later) (ap (◌∷◌ r) (filter-insert p a rs c.1 ∙ rw here refl))
        | inr gone ↦ rw (later, keep, gone) (ap (◌∷◌ r) (filter-insert p a rs c.1 ∙ rw gone refl))
      ]
      | inr drop ↦ rw (later, drop) (filter-insert p a rs c.1)
    ]
    | inr first ↦ elim (Bool-cases (p r)) [
      | inl keep ↦ rw (first, keep, first) refl
      | inr drop ↦
          rw (first, drop)
            (ap (λ xs. if p a then xs else filter p rs)
              (sym (skip-insert a r (filter p rs) first (All-filter _ p rs c.0))))
    ]
  ]

  pub filter-sort :
      (p : HotRow P → Bool) (rs : List (HotRow P))
      → Apart rs
      → filter p (sort_by row_before rs) ≡ sort_by row_before (filter p rs)
  unfolding sort_by
  filter-sort p [] apart = refl
  filter-sort p (r ∷ rs) apart = elim (Bool-cases (p r)) [
    | inl keep ↦
        filter-insert p r (sort_by row_before rs) (sort-Chain rs apart.1)
        ∙ rw keep (ap (insert_before row_before r) (filter-sort p rs apart.1))
    | inr drop ↦
        filter-insert p r (sort_by row_before rs) (sort-Chain rs apart.1)
        ∙ rw drop (filter-sort p rs apart.1)
  ]

abbrev pub concat : {A : Type 0} → List (List A) → List A
concat [] = []
concat (xs ∷ xss) = xs ++ concat xss

pub filter-All :
    {A : Type 0} (p : A → Bool) (xs : List A) → All (λ x. p x ≡ true) xs → filter p xs ≡ xs
filter-All p [] all = refl
filter-All p (x ∷ xs) all = rw all.0 (ap (◌∷◌ x) (filter-All p xs all.1))

module _ {P : Type 0} where
  pub after-cursor_at : (r s : HotRow P) → row_after (cursor_at r) s ≡ row_before r s
  after-cursor_at r s = ground arith

  -- The cursor behind a page is that at one of its rows.
  pub hot_cursor-row :
      (Q : HotRow P → Type 0) (r : HotRow P) (page : List (HotRow P))
      → Q r
      → All Q page
      → (x : HotRow P) × Q x × (hot_cursor r page ≡ cursor_at x)
  unfolding hot_cursor
  hot_cursor-row Q r [] q all = (r, q, refl)
  hot_cursor-row Q r (s ∷ page) q all = hot_cursor-row Q s page all.0 all.1

  All-after :
      (r : HotRow P) (rs : List (HotRow P))
      → All (λ s. row_before r s ≡ true) rs
      → All (λ s. row_after (cursor_at r) s ≡ true) rs
  All-after r [] all = tt
  All-after r (s ∷ rs) all = (after-cursor_at r s ∙ all.0, All-after r rs all.1)

  -- What is behind a page of a chain is the rest of the chain.
  pub after-page :
      (m : ℕ) (t : HotRow P) (ts : List (HotRow P))
      → Chain (t ∷ ts)
      → filter (row_after (hot_cursor t (take m ts))) (t ∷ ts) ≡ drop m ts
  unfolding hot_cursor
  after-page zero t ts c =
      let out : row_after (cursor_at t) t ≡ false = ground arith in
      rw out (filter-All (row_after (cursor_at t)) ts (All-after t ts c.0))
  after-page (suc m) t [] c = ground arith
  after-page (suc m) t (s ∷ ss) c =
      let (x, less, at) =
        hot_cursor-row (λ y. row_before t y ≡ true) s (take m ss) c.0.0 (All-take _ m ss c.0.1) in
      let out : row_after (hot_cursor s (take m ss)) t ≡ false = rw at (ground (arith, less)) in
      rw out (after-page m s ss c.1)
