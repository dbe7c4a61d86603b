-- ===== src/Listener/Streams.antt =====
-- A stream of updates: what the listener emits over all of them.
use deepfeeder.Base.{
  ℕ, ◌≤◌, max, ◌≡◌, refl, sym, ap, ◌∙◌, subst, inl, inr, true, Option, none, some, List, [], ◌∷◌,
  ◌++◌, map, map-append, arith, leb, Bool-cases, ◌⊎◌, Any,
}
use deepfeeder.Listener.Updates.{
  Row, Bar, full, bar_ts, SchemaSpec, truthy, TableUpdate, Listener, or_none, current_of, last_row,
  refine, bar_tables, on_update,
}
use deepfeeder.Listener.Bars.{
  Between, Between-append, InTime, final, completions, add_rows-some, completions-Between,
  Between-later, completions_cover,
}

abbrev pub rows_of : {A : Type 0} → Option (List A) → List A
rows_of none = []
rows_of (some rows) = rows

rows_of-or_none : {A : Type 0} (xs : List A) → rows_of (or_none xs) ≡ xs
rows_of-or_none [] = refl
rows_of-or_none (x ∷ xs) = refl

module _ {F : Type 0} where
  -- The listener after a stream of updates, with all the bars that it completed on the way.
  abbrev pub on_updates : List (ℕ × TableUpdate F) → Listener F → Listener F × List (Bar F)
  on_updates [] l = (l, [])
  on_updates ((now, u) ∷ us) l =
      let (l', batch) = on_update now u l in
      let (l'', later) = on_updates us l' in (l'', rows_of batch.completed ++ later)

  -- The time of the current bar after added and modified rows.
  abbrev pub clock : ℕ → List (Row F) → ℕ
  clock t [] = t
  clock t (r ∷ rows) = clock r.ts rows

  abbrev pub refined : ℕ → List (Row F) → ℕ
  refined t [] = t
  refined t (r ∷ rows) = max t (last_row r rows).ts

  refined-grows : (t : ℕ) (rows : List (Row F)) → t ≤ refined t rows
  refined-grows t [] = omega arith
  refined-grows t (r ∷ rows) = omega arith

  module _ (spec : SchemaSpec) where
    -- In each update the added rows come in the order of time, from the current bar on.
    abbrev pub Ordered : ℕ → List (ℕ × TableUpdate F) → Type 0
    Ordered t [] = Unit
    Ordered t ((now, u) ∷ us) =
        InTime spec t u.added × Ordered (refined (clock t u.added) u.modified) us

    bar_ts-final :
        (rows : List (Row F)) (c : Bar F) → bar_ts (final spec c rows) ≡ clock (bar_ts c) rows
    bar_ts-final [] c = refl
    bar_ts-final (r ∷ rows) c =
        bar_ts-final rows (current_of spec r) ∙ ap (λ t. clock t rows) (ground arith)

    refine-some :
        (rows : List (Row F)) (c : Bar F)
        → (c' : Bar F) × (refine rows (some c) ≡ some c') × (bar_ts c' ≡ refined (bar_ts c) rows)
    unfolding refine
    refine-some [] c = (c, refl, refl)
    refine-some (r ∷ rows) c = elim (Bool-cases (leb (bar_ts c) (last_row r rows).ts)) [
      | inl newer ↦ (full (last_row r rows), rw (newer, refine) refl, ground arith)
      | inr older ↦ (c, rw (older, refine) refl, ground arith)
    ]

    bar_tables-some :
        (rows : List (Row F)) (c : Bar F)
        → ((bar_tables spec rows (some c)).0 ≡ some (final spec c rows))
          × (rows_of (bar_tables spec rows (some c)).2 ≡ completions spec c rows)
    unfolding bar_tables
    bar_tables-some [] c = (refl, refl)
    bar_tables-some (r ∷ rows) c =
        let e = add_rows-some spec (r ∷ rows) c [] true in
        (
          ap (λ s. s.0) e,
          ap (λ s. rows_of (or_none s.1)) e ∙ rows_of-or_none (completions spec c (r ∷ rows)),
        )

  on_update-completed :
      (now : ℕ) (u : TableUpdate F) (l : Listener F) (c : Bar F)
      → truthy l.spec.bin_period_minutes ≡ true
      → l.curr ≡ some c
      → (rows_of (on_update now u l).1.completed ≡ completions l.spec c u.added)
        × ((on_update now u l).0.curr ≡ refine u.modified (some (final l.spec c u.added)))
  unfolding on_update
  on_update-completed now u l c bars e =
      let (a, b) = bar_tables-some l.spec u.added c in
      (rw (bars, e) b, rw (bars, e) (ap (refine u.modified) a))

  spec-on_update :
      (now : ℕ) (u : TableUpdate F) (l : Listener F) → (on_update now u l).0.spec ≡ l.spec
  unfolding on_update
  spec-on_update now u l = refl

  -- Over a stream of a bar schema whose added rows come in the order of time, the completed bars
  -- have strictly rising times, from the current bar's on and below that of the bar that is current
  -- in the end: no bar is completed twice, and none while it is still open.
  pub on_updates-Between :
      (us : List (ℕ × TableUpdate F)) (l : Listener F) (c : Bar F)
      → truthy l.spec.bin_period_minutes ≡ true
      → l.curr ≡ some c
      → Ordered l.spec (bar_ts c) us
      → (c' : Bar F) × ((on_updates us l).0.curr ≡ some c')
        × Between (bar_ts c) (bar_ts c') (map bar_ts (on_updates us l).1)
  on_updates-Between [] l c bars e order = (c, e, omega arith)
  on_updates-Between ((now, u) ∷ us) l c bars e (in_time, order) =
      let l' = (on_update now u l).0 in
      let (done, left) = on_update-completed now u l c bars e in
      let (c', kept, time) = refine-some l.spec u.modified (final l.spec c u.added) in
      let same = spec-on_update now u l in
      let clocked = time ∙ ap (λ t. refined t u.modified) (bar_ts-final l.spec u.added c) in
      let (c'', current, more) =
        on_updates-Between us l' c' (ap (λ s. truthy s.bin_period_minutes) same ∙ bars)
          (left ∙ kept)
          (subst (λ t. Ordered (on_update now u l).0.spec t us) (sym clocked)
            (subst (λ sp. Ordered sp (refined (clock (bar_ts c) u.added) u.modified) us) (sym same)
              order)) in
      let first = map bar_ts (completions l.spec c u.added) in
      let fresh =
        Between-later (bar_ts c) (bar_ts c') first (completions-Between l.spec u.added c in_time) (
          subst (λ t. bar_ts (final l.spec c u.added) ≤ t) (sym time)
            (refined-grows (bar_ts (final l.spec c u.added)) u.modified)) in
      (
        c'',
        current,
        subst (Between (bar_ts c) (bar_ts c''))
            (sym (
              ap (λ rows. map bar_ts (rows ++ (on_updates us l').1)) done
              ∙ map-append bar_ts (completions l.spec c u.added) (on_updates us l').1))
            (Between-append (bar_ts c) (bar_ts c') (bar_ts c'') first
              (map bar_ts (on_updates us l').1) fresh more),
      )

  -- In a bar schema, for an update without modified rows whose added rows come in the order of time
  -- from the current bar on, each of these rows' times and the current bar's is the time of a
  -- completed bar or of the bar that is current after it: none is dropped.
  on_update-covers :
      (now : ℕ) (u : TableUpdate F) (l : Listener F) (c : Bar F) (x : ℕ)
      → truthy l.spec.bin_period_minutes ≡ true
      → l.curr ≡ some c
      → InTime l.spec (bar_ts c) u.added
      → u.modified ≡ []
      → (bar_ts c ≡ x) ⊎ Any (λ r. r.ts ≡ x) u.added
      → (c' : Bar F) × ((on_update now u l).0.curr ≡ some c')
        × ((bar_ts c' ≡ x) ⊎ Any (λ b. bar_ts b ≡ x) (rows_of (on_update now u l).1.completed))
  unfolding refine
  on_update-covers now u l c x bars e in_time unchanged found =
      let (done, left) = on_update-completed now u l c bars e in
      let last = final l.spec c u.added in
      (
        last,
        left ∙ ap (λ rows. refine rows (some last)) unchanged,
        subst (λ rows. (bar_ts last ≡ x) ⊎ Any (λ b. bar_ts b ≡ x) rows) (sym done)
            (completions_cover l.spec x u.added c in_time found),
      )
