-- ===== src/Journal/Upsert.antt =====
-- One key of the canonical table through the merge of a list of candidates.
use deepfeeder.Base.{
  ℕ, ◌≡◌, refl, ap, ◌∙◌, true, false, ◌⊎◌, inl, inr, Option, none, some, List, [], ◌∷◌, map, filter,
  arith, if◌then◌else◌, Bool-cases, Option-cases, Any, Bool,
}
use deepfeeder.Journal.Tables.{
  Key, key_eq, Candidate, Canonical, find, precedes, keep_best, collapse, wins, update_row,
  is_missing, stamp, upsert, is_none,
}
use deepfeeder.Journal.Keys.{
  key_eq_refl, key_eq_sound, map_option, or_else, find-append, find-filter, find-map, find-key,
}

module _ {P : Type 0} where
  abbrev cand_key : Candidate P → Key
  cand_key b = b.key

  abbrev pub row_key : Canonical P → Key
  row_key c = c.key

  -- What becomes of the stored row of a key when the best candidate of the key comes in.
  abbrev pub merged : ℕ → Option (Candidate P) → Option (Canonical P) → Option (Canonical P)
  merged now none stored = stored
  merged now (some b) none = some (stamp now b)
  merged now (some b) (some c) =
      some
        (if wins b c.row then record { row = record b { key = c.key }; updated_at_ns = now } else c)

  key-update_row :
      (now : ℕ) (best : List (Candidate P)) (c : Canonical P)
      → row_key (update_row now best c) ≡ row_key c
  unfolding update_row
  key-update_row now best c = ground arith

  merged-missing :
      (now : ℕ) (o : Option (Candidate P)) → map_option (stamp now) o ≡ merged now o none
  merged-missing now none = refl
  merged-missing now (some b) = refl

  update_row-merged :
      (now : ℕ) (best : List (Candidate P)) (c : Canonical P) (o : Option (Candidate P))
      → find cand_key c.key best ≡ o
      → some (update_row now best c) ≡ merged now o (some c)
  unfolding update_row
  update_row-merged now best c none e = rw (e, update_row) refl
  update_row-merged now best c (some b) e = elim (Bool-cases (wins b c.row)) [
    | inl newer ↦ rw (e, update_row, newer) refl
    | inr older ↦ rw (e, update_row, older) refl
  ]

  pub find-upsert :
      (k : Key) (now : ℕ) (best : List (Candidate P)) (rows : List (Canonical P))
      → find row_key k (upsert now best rows)
        ≡ merged now (find cand_key k best) (find row_key k rows)
  unfolding upsert
  find-upsert k now best rows =
      let updated = map (update_row now best) rows in
      let old = find-map row_key k row_key (update_row now best) rows (key-update_row now best) in
      find-append row_key k updated (map (stamp now) (filter (is_missing updated) best))
      ∙ branches updated old (Option-cases (find row_key k rows))
    where
      new :
          (updated : List (Canonical P))
          → find row_key k updated ≡ none
          → find row_key k (map (stamp now) (filter (is_missing updated) best))
            ≡ map_option (stamp now) (find cand_key k best)
      new updated missing =
          find-map cand_key k row_key (stamp now) (filter (is_missing updated) best) (λ b. refl)
          ∙ ap (map_option (stamp now)) (
              find-filter cand_key k (is_missing updated) best
                (λ b e. ap is_none (ap (λ j. find row_key j updated) e ∙ missing)))

      branches :
          (updated : List (Canonical P))
          → find row_key k updated ≡ map_option (update_row now best) (find row_key k rows)
          → (find row_key k rows ≡ none) ⊎ ((c : Canonical P) × (find row_key k rows ≡ some c))
          → or_else
              (find row_key k updated)
              (find row_key k (map (stamp now) (filter (is_missing updated) best)))
            ≡ merged now (find cand_key k best) (find row_key k rows)
      branches updated old (inl missing) =
          let gone = old ∙ ap (map_option (update_row now best)) missing in
          rw (gone, missing) (new updated gone ∙ merged-missing now (find cand_key k best))
      branches updated old (inr (c, stored)) =
          rw (old ∙ ap (map_option (update_row now best)) stored, stored)
            (update_row-merged now best c (find cand_key k best)
              (ap (λ j. find cand_key j best) (find-key row_key k rows c stored)))

  pub merged-present :
      (now : ℕ) (b : Candidate P) (stored : Option (Canonical P))
      → (c : Canonical P) × (merged now (some b) stored ≡ some c)
  merged-present now b none = (_, refl)
  merged-present now b (some c) = (_, refl)

module _ {P : Type 0} (tie : Candidate P → Candidate P → Bool) where
  -- The better of a new candidate and the one before it, if there is one.
  abbrev pub pick : Candidate P → Option (Candidate P) → Candidate P
  pick c none = c
  pick c (some b) = if precedes tie c b then c else b

  -- The best candidate of a key: one pass over all of them.
  abbrev pub best_of : Key → List (Candidate P) → Option (Candidate P) → Option (Candidate P)
  best_of k [] best = best
  best_of k (c ∷ cands) best = best_of k cands (if key_eq c.key k then some (pick c best) else best)

  find-keep_best :
      (k : Key) (c : Candidate P) (best : List (Candidate P))
      → find cand_key k (keep_best tie c best)
        ≡ (if key_eq c.key k then some (pick c (find cand_key k best)) else find cand_key k best)
  unfolding find keep_best
  find-keep_best k c [] = refl
  find-keep_best k c (b ∷ best) = elim (Bool-cases (key_eq b.key c.key)) [
    | inl same ↦
        let alike = ap (λ j. key_eq j k) (key_eq_sound b.key c.key same) in
        elim (Bool-cases (key_eq c.key k)) [
          | inl here ↦ elim (Bool-cases (precedes tie c b)) [
            | inl new ↦ rw (same, alike ∙ here, here, new) rw here refl
            | inr old ↦ rw (same, alike ∙ here, here, old) rw (alike ∙ here) refl
          ]
          | inr other ↦ elim (Bool-cases (precedes tie c b)) [
            | inl new ↦ rw (same, alike ∙ other, other, new) rw other refl
            | inr old ↦ rw (same, alike ∙ other, other, old) rw (alike ∙ other) refl
          ]
        ]
    | inr differs ↦ elim (Bool-cases (key_eq c.key k)) [
      | inl here ↦ rw (differs, here, apart differs here) (find-keep_best k c best ∙ rw here refl)
      | inr other ↦ elim (Bool-cases (key_eq b.key k)) [
        | inl first ↦ rw (differs, other, first) refl
        | inr later ↦ rw (differs, other, later) (find-keep_best k c best ∙ rw other refl)
      ]
    ]
  ]
    where
      apart : key_eq b.key c.key ≡ false → key_eq c.key k ≡ true → key_eq b.key k ≡ false
      apart differs here = elim (Bool-cases (key_eq b.key k)) [
        | inr other ↦ other
        | inl first ↦
            cc (differs, key_eq_refl k, key_eq_sound b.key k first, key_eq_sound c.key k here)
      ]

  pub find-collapse :
      (k : Key) (cands best : List (Candidate P))
      → find cand_key k (collapse tie cands best) ≡ best_of k cands (find cand_key k best)
  unfolding collapse
  find-collapse k [] best = refl
  find-collapse k (c ∷ cands) best =
      find-collapse k cands (keep_best tie c best) ∙ ap (best_of k cands) (find-keep_best k c best)

  best_of-kept :
      (k : Key) (cands : List (Candidate P)) (b : Candidate P)
      → (b' : Candidate P) × (best_of k cands (some b) ≡ some b')
  best_of-kept k [] b = (b, refl)
  best_of-kept k (c ∷ cands) b = elim (Bool-cases (key_eq c.key k)) [
    | inl here ↦ rw here (best_of-kept k cands (pick c (some b)))
    | inr other ↦ rw other (best_of-kept k cands b)
  ]

  pub best_of-present :
      (k : Key) (cands : List (Candidate P)) (best : Option (Candidate P))
      → Any (λ c. c.key ≡ k) cands
      → (b : Candidate P) × (best_of k cands best ≡ some b)
  best_of-present k [] best found = elim found [ ]
  best_of-present k (c ∷ cands) best (inl here) =
      rw (ap (λ j. key_eq j k) here ∙ key_eq_refl k) (best_of-kept k cands (pick c best))
  best_of-present k (c ∷ cands) best (inr later) =
      best_of-present k cands (if key_eq c.key k then some (pick c best) else best) later
