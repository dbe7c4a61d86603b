-- ===== src/Journal/Merge.antt =====
-- What an append leaves under each key of the canonical table.
use deepfeeder.Base.{
  ℕ, String, ◌≡◌, refl, ap, ◌∙◌, true, inl, inr, Option, none, some, List, [], ◌∷◌, map, arith,
  Bool-cases, Any, Bool,
}
use deepfeeder.Contracts.{Tick, Envelope, NaturalKey}
use deepfeeder.Journal.Tables.{
  Key, Candidate, Canonical, Journal, find, collapse, wins, candidate, merge, append_envelope,
}
use deepfeeder.Journal.Upsert.{
  row_key, best_of, merged, find-collapse, find-upsert, best_of-present, merged-present,
}

module _ {P : Type 0} (tie : Candidate P → Candidate P → Bool) (str : NaturalKey → String) where
  pub append_envelope-merged :
      (now : ℕ) (env : Envelope P) (j : Journal P) (k : Key)
      → find row_key k (append_envelope tie str now env j).0.journal_canonical
        ≡ merged now
            (best_of tie k (map (candidate str) env.rows) none)
            (find row_key k j.journal_canonical)
  unfolding append_envelope merge
  append_envelope-merged now env j k = by_rows env.rows
    where
      by_rows :
          (rows : List (Tick P))
          → find row_key k (merge tie str now rows j.journal_canonical)
            ≡ merged now
                (best_of tie k (map (candidate str) rows) none)
                (find row_key k j.journal_canonical)
      by_rows [] = refl
      by_rows (t ∷ rows) =
          find-upsert k now (collapse tie (map (candidate str) (t ∷ rows)) []) j.journal_canonical
          ∙ ap (λ o. merged now o (find row_key k j.journal_canonical))
              (find-collapse tie k (map (candidate str) (t ∷ rows)) [] ∙ refl)

  abbrev pub appends : List (ℕ × Envelope P) → Journal P → Journal P
  appends [] j = j
  appends ((now, env) ∷ envs) j = appends envs (append_envelope tie str now env j).0

  -- A row that is final.
  abbrev pub HasFinal : Key → Journal P → Type 0
  HasFinal k j =
      (c : Canonical P) × (find row_key k j.journal_canonical ≡ some c) × (c.is_final ≡ true)

  merged-final :
      (now : ℕ) (best : Option (Candidate P)) (c : Canonical P)
      → c.is_final ≡ true
      → (c' : Canonical P) × (merged now best (some c) ≡ some c') × (c'.is_final ≡ true)
  unfolding wins
  merged-final now none c final = (c, refl, final)
  merged-final now (some b) c final = elim (Bool-cases b.is_final) [
    | inl new ↦ (_, refl, ground arith)
    | inr old ↦ (_, refl, ground arith)
  ]

  -- Once a key's row is final it stays so, whatever envelopes are appended after it: no
  -- provisional tick replaces it.
  pub appends-HasFinal :
      (envs : List (ℕ × Envelope P)) (j : Journal P) (k : Key)
      → HasFinal k j
      → HasFinal k (appends envs j)
  appends-HasFinal [] j k final = final
  appends-HasFinal ((now, env) ∷ envs) j k (c, stored, final) =
      let (c', e, final') =
        merged-final now (best_of tie k (map (candidate str) env.rows) none) c final in
      appends-HasFinal envs (append_envelope tie str now env j).0 k (
        c',
        append_envelope-merged now env j k
            ∙ ap (merged now (best_of tie k (map (candidate str) env.rows) none)) stored
            ∙ e,
        final',
      )

  -- After an append every tick of the envelope has a row under its natural key.
  append_envelope-covers :
      (now : ℕ) (env : Envelope P) (j : Journal P) (k : Key)
      → Any (λ b. b.key ≡ k) (map (candidate str) env.rows)
      → (c : Canonical P) × (find row_key k (append_envelope tie str now env j).0.journal_canonical
          ≡ some c)
  append_envelope-covers now env j k found =
      let (b, best) = best_of-present tie k (map (candidate str) env.rows) none found in
      let (c, e) = merged-present now b (find row_key k j.journal_canonical) in
      (
        c,
        append_envelope-merged now env j k
            ∙ ap (λ o. merged now o (find row_key k j.journal_canonical)) best
            ∙ e,
      )
