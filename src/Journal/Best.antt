-- ===== src/Journal/Best.antt =====
-- The merge of an envelope under one key, against the order of ticks itself.
use deepfeeder.Base.{
  ℕ, suc, ◌≤◌, ◌<◌, ◌≡◌, refl, ap, ◌∙◌, Bool, true, false, ◌||◌, ◌&&◌, not, inl, inr, ◌⊎◌, Option,
  none, some, List, [], ◌∷◌, map, leb, ltb, sym, ◌≢◌, arith, Bool-cases, if◌then◌else◌, All, Any, ℤ,
  pos, negsuc, String,
}
use deepfeeder.Contracts.{Tick, Envelope, NaturalKey}
use deepfeeder.Journal.Tables.{
  is_negative, Key, key_eq, Candidate, Canonical, Journal, find, precedes, wins, at_least,
  candidate, stamp, append_envelope,
}
use deepfeeder.EventStore.Codec.{seq_to_cell}
use deepfeeder.Journal.Keys.{key_eq_refl, key_eq_sound}
use deepfeeder.Journal.Upsert.{row_key, pick, best_of, merged}
use deepfeeder.Journal.Merge.{append_envelope-merged}

abbrev final_rank : Bool → ℕ
final_rank false = 0
final_rank true = 1

-- A missing number is below every other.
abbrev seq_rank : Option ℕ → ℕ
seq_rank none = 0
seq_rank (some n) = suc n

abbrev cell_rank : ℤ → ℕ
cell_rank (pos n) = suc n
cell_rank (negsuc n) = 0

-- By final, number and time: the first is provisional and the second final, or they are alike in that
-- and the first has the lower number, or the same and is not later.
abbrev pub Lex : Bool → Option ℕ → ℕ → Bool → Option ℕ → ℕ → Type 0
Lex f s t g r u =
    (final_rank f < final_rank g)
    ⊎ ((final_rank f ≡ final_rank g)
        × ((seq_rank s < seq_rank r) ⊎ ((seq_rank s ≡ seq_rank r) × (t ≤ u))))

wins-rank :
    (s : Option ℕ) (c : ℤ) (late : Bool)
    → (at_least (seq_to_cell s) c || (is_negative (seq_to_cell s) && (is_negative c && late)))
      ≡ leb (cell_rank c) (seq_rank s)
wins-rank none (pos n) late = ground arith
wins-rank none (negsuc n) late = ground arith
wins-rank (some m) (pos n) late = ground arith
wins-rank (some m) (negsuc n) late = ground arith

-- What the order of rows says of two rows and a tie.
abbrev first_of : Bool → Option ℕ → ℕ → Bool → Option ℕ → ℕ → Bool → Bool
first_of f s t g r u tie =
    (f && not g)
    || ((f || not g)
        && (not (at_least (seq_to_cell r) (seq_to_cell s))
            || (at_least (seq_to_cell s) (seq_to_cell r) && (ltb u t || (leb u t && tie)))))

first_of-Lex :
    (f : Bool) (s : Option ℕ) (t : ℕ) (g : Bool) (r : Option ℕ) (u : ℕ) (tie : Bool)
    → (first_of f s t g r u tie ≡ true → Lex g r u f s t)
      × (first_of f s t g r u tie ≡ false → Lex f s t g r u)
first_of-Lex true s t false r u tie = (λ e. inl (omega arith), λ e. absurd (ground (arith, e)))
first_of-Lex false s t true r u tie = (λ e. absurd (ground (arith, e)), λ e. inl (omega arith))
first_of-Lex true none t true none u tie = (λ e. ground (arith, e), λ e. ground (arith, e))
first_of-Lex true none t true (some n) u tie = (λ e. ground (arith, e), λ e. ground (arith, e))
first_of-Lex true (some m) t true none u tie = (λ e. ground (arith, e), λ e. ground (arith, e))
first_of-Lex true (some m) t true (some n) u tie = (λ e. ground (arith, e), λ e. ground (arith, e))
first_of-Lex false none t false none u tie = (λ e. ground (arith, e), λ e. ground (arith, e))
first_of-Lex false none t false (some n) u tie = (λ e. ground (arith, e), λ e. ground (arith, e))
first_of-Lex false (some m) t false none u tie = (λ e. ground (arith, e), λ e. ground (arith, e))
first_of-Lex false (some m) t false (some n) u tie =
    (λ e. ground (arith, e), λ e. ground (arith, e))

module _ {P : Type 0} where
  abbrev pub AtMost : Tick P → Tick P → Type 0
  AtMost u t = Lex u.is_final u.seq u.ts_ns t.is_final t.seq t.ts_ns

  AtMost-refl : (t : Tick P) → AtMost t t
  AtMost-refl t = inr (refl, inr (refl, omega arith))

  AtMost-trans : (s t u : Tick P) → AtMost s t → AtMost t u → AtMost s u
  AtMost-trans s t u h i = ground (arith, h, i)

  -- A final tick replaces every row, and a provisional one a provisional row of no higher number.
  abbrev pub replaces : Tick P → Canonical P → Bool
  replaces t c = t.is_final || (not c.is_final && leb (cell_rank c.seq) (seq_rank t.seq))

module _ {P : Type 0} (str : NaturalKey → String) where
  abbrev pub key_at : Tick P → Key
  key_at t = (candidate str t).key

  -- A tick of the key that no other of the key is above.
  abbrev pub IsBest : Key → List (Tick P) → Tick P → Type 0
  IsBest k rows t =
      Any (λ u. u ≡ t) rows × (key_at t ≡ k) × All (λ u. key_at u ≡ k → AtMost u t) rows

  -- What a tick makes of what is stored under its key.
  abbrev pub entered : ℕ → Tick P → Option (Canonical P) → Canonical P
  entered now t none = stamp now (candidate str t)
  entered now t (some c) =
      if replaces t c
      then record { row = record (candidate str t) { key = c.key }; updated_at_ns = now }
      else c

  wins-replaces : (t : Tick P) (c : Canonical P) → wins (candidate str t) c.row ≡ replaces t c
  unfolding wins candidate
  wins-replaces t c =
      ap (λ b. t.is_final || (not c.is_final && b)) (wins-rank t.seq c.seq (leb c.ts_ns t.ts_ns))

  entered-merged :
      (now : ℕ) (t : Tick P) (stored : Option (Canonical P))
      → merged now (some (candidate str t)) stored ≡ some (entered now t stored)
  entered-merged now t none = refl
  entered-merged now t (some c) =
      ap
        (λ b. some (
          if b
          then record { row = record (candidate str t) { key = c.key }; updated_at_ns = now }
          else c))
        (wins-replaces t c)

  module _ (tie : Candidate P → Candidate P → Bool) where
    -- The best tick of a key after some rows, where one was found before.
    best_of-IsBest :
        (k : Key) (rows : List (Tick P)) (t : Tick P)
        → key_at t ≡ k
        → (b : Tick P) × (best_of tie k (map (candidate str) rows) (some (candidate str t))
            ≡ some (candidate str b))
          × ((b ≡ t) ⊎ Any (λ u. u ≡ b) rows)
          × (key_at b ≡ k)
          × AtMost t b
          × All (λ u. key_at u ≡ k → AtMost u b) rows
    unfolding precedes candidate
    best_of-IsBest k [] t same = (t, refl, inl refl, same, AtMost-refl t, tt)
    best_of-IsBest k (u ∷ rows) t same = elim (Bool-cases (key_eq (key_at u) k)) [
      | inr other ↦
          let (b, e, from, at, above, all) = best_of-IsBest k rows t same in
          (
            b,
            ap
                  (λ x. best_of tie k (map (candidate str) rows) (
                    if x
                    then some (pick tie (candidate str u) (some (candidate str t)))
                    else some (candidate str t)))
                  other
                ∙ e,
            elim from [ inl it ↦ inl it | inr later ↦ inr (inr later) ],
            at,
            above,
            (λ here. absurd (cc (other, key_eq_refl k, ap (λ j. key_eq j k) here)), all),
          )
      | inl here ↦
          let x = tie (candidate str u) (candidate str t) in
          let lex = first_of-Lex u.is_final u.seq u.ts_ns t.is_final t.seq t.ts_ns x in
          elim (Bool-cases (precedes tie (candidate str u) (candidate str t))) [
            | inl new ↦
                let (b, e, from, at, above, all) =
                  best_of-IsBest k rows u (key_eq_sound (key_at u) k here) in
                (
                  b,
                  ap
                        (λ x. best_of tie k (map (candidate str) rows) (
                          if x
                          then some (pick tie (candidate str u) (some (candidate str t)))
                          else some (candidate str t)))
                        here
                      ∙ ap
                          (λ x.
                            best_of tie k (map (candidate str) rows)
                              (some (if x then candidate str u else candidate str t)))
                          new
                      ∙ e,
                  elim from [ inl it ↦ inr (inl (sym it)) | inr later ↦ inr (inr later) ],
                  at,
                  AtMost-trans t u b (lex.0 new) above,
                  (λ alike. above, all),
                )
            | inr old ↦
                let (b, e, from, at, above, all) = best_of-IsBest k rows t same in
                (
                  b,
                  ap
                        (λ x. best_of tie k (map (candidate str) rows) (
                          if x
                          then some (pick tie (candidate str u) (some (candidate str t)))
                          else some (candidate str t)))
                        here
                      ∙ ap
                          (λ x.
                            best_of tie k (map (candidate str) rows)
                              (some (if x then candidate str u else candidate str t)))
                          old
                      ∙ e,
                  elim from [ inl it ↦ inl it | inr later ↦ inr (inr later) ],
                  at,
                  above,
                  (λ alike. AtMost-trans u t b (lex.1 old) above, all),
                )
          ]
    ]

    -- The best tick of a key among some rows, if one has it.
    best_of-first :
        (k : Key) (rows : List (Tick P))
        → (All (λ u. key_at u ≢ k) rows × (best_of tie k (map (candidate str) rows) none ≡ none))
          ⊎ ((t : Tick P) × IsBest k rows t
              × (best_of tie k (map (candidate str) rows) none ≡ some (candidate str t)))
    best_of-first k [] = inl (tt, refl)
    best_of-first k (u ∷ rows) = elim (Bool-cases (key_eq (key_at u) k)) [
      | inl here ↦
          let (b, e, from, at, above, all) =
            best_of-IsBest k rows u (key_eq_sound (key_at u) k here) in
          inr (
            b,
            (
              elim from [ inl it ↦ inl (sym it) | inr later ↦ inr later ],
              at,
              (λ alike. above, all),
            ),
            ap
                  (λ x.
                    best_of tie k (map (candidate str) rows)
                      (if x then some (candidate str u) else none))
                  here
                ∙ e,
          )
      | inr other ↦
          let away : key_at u ≢ k =
            λ here. absurd (cc (other, key_eq_refl k, ap (λ j. key_eq j k) here)) in
          elim (best_of-first k rows) [
            | inl (none_has, e) ↦ inl (
              (away, none_has),
              ap
                    (λ x.
                      best_of tie k (map (candidate str) rows)
                        (if x then some (candidate str u) else none))
                    other
                  ∙ e,
            )
            | inr (t, (among, at, all), e) ↦ inr (
              t,
              (inr among, at, (λ here. absurd (away here), all)),
              ap
                    (λ x.
                      best_of tie k (map (candidate str) rows)
                        (if x then some (candidate str u) else none))
                    other
                  ∙ e,
            )
          ]
    ]

    -- After an append a key that no tick of the envelope has keeps its row. Otherwise the row is what one tick of the key makes of it, than which no other of the key is final where it is provisional, has a higher sequence number, or the same and a later time: a missing row is entered, and a stored one is replaced by a final tick, and by a provisional tick where it is provisional and its number is not higher. Which of equal ticks that is, is left open.
    pub find-append_envelope :
        (now : ℕ) (env : Envelope P) (j : Journal P) (k : Key)
        → let stored = find row_key k j.journal_canonical in
          let after = find row_key k (append_envelope tie str now env j).0.journal_canonical in
          (All (λ u. key_at u ≢ k) env.rows × (after ≡ stored))
          ⊎ ((t : Tick P) × IsBest k env.rows t × (after ≡ some (entered now t stored)))
    find-append_envelope now env j k =
        let stored = find row_key k j.journal_canonical in
        let m = append_envelope-merged tie str now env j k in
        elim (best_of-first k env.rows) [
          | inl (none_has, e) ↦ inl (none_has, m ∙ ap (λ o. merged now o stored) e)
          | inr (t, best, e) ↦
              inr (t, best, m ∙ ap (λ o. merged now o stored) e ∙ entered-merged now t stored)
        ]
