-- ===== src/EventBus/Owed.antt =====
-- Lists of envelopes after a cursor.
use deepfeeder.Base.{
  ℕ, zero, suc, ◌+◌, ◌≤◌, ◌<◌, ◌≡◌, refl, sym, ap, ◌∙◌, true, List, [], ◌∷◌, ◌++◌, map, arith, take,
  filter, filter-filter, map-filter, leb, ltb, Bool-cases, inl, inr, ◌⊎◌,
}
use deepfeeder.Base.Sort.{Rising}
use deepfeeder.Contracts.{Tick, Envelope}
use deepfeeder.EventStore.Interface.{id_of}
use deepfeeder.EventBus.Ring.{evict}

-- What a consumer is owed of an envelope: its id and its rows.
abbrev pub brief : {P : Type 0} → Envelope P → ℕ × List (Tick P)
brief e = (e.batch_id, e.rows)

abbrev pub after : {P : Type 0} → ℕ → List (Envelope P) → List (Envelope P)
after cursor es = filter (λ e. ltb cursor e.batch_id) es

module _ {P : Type 0} where
  pub after-append :
      (c : ℕ) (xs ys : List (Envelope P)) → after c (xs ++ ys) ≡ after c xs ++ after c ys
  after-append c [] ys = refl
  after-append c (x ∷ xs) ys = ground (arith, after-append c xs ys)

  -- Eviction keeps what either drain has not passed.
  pub after-evict :
      (limit dh jr c : ℕ) (buf : List (Envelope P))
      → (dh ≤ c) ⊎ (jr ≤ c)
      → after c (evict limit dh jr buf) ≡ after c buf
  unfolding evict
  after-evict limit dh jr c [] h = refl
  after-evict limit dh jr c (e ∷ buf) h = ground (arith, after-evict limit dh jr c buf h)

  abbrev pub later : ℕ → List (ℕ × List (Tick P)) → List (ℕ × List (Tick P))
  later c bs = filter (λ b. ltb c b.0) bs

  -- What agrees after a cursor agrees after a higher one.
  pub after-later :
      (c d : ℕ) (es : List (Envelope P))
      → c ≤ d
      → map brief (after d es) ≡ later d (map brief (after c es))
  after-later c d es h =
      ap (map brief) (
        sym (
          filter-filter (λ (e : Envelope P). ltb d e.batch_id) (λ e. ltb c e.batch_id) es
            (λ e less. ground arith)))
      ∙ map-filter brief (λ (b : ℕ × List (Tick P)). ltb d b.0) (after c es)

  pub one_brief :
      (c : ℕ) (x y : Envelope P)
      → x.batch_id ≡ y.batch_id
      → x.rows ≡ y.rows
      → map brief (after c (x ∷ [])) ≡ map brief (after c (y ∷ []))
  one_brief c x y e f = ground arith

  -- `batch_id >= last_id + 1` in the store is `batch_id > last_id` in the buffer.
  pub page-after :
      (c : ℕ) (es : List (Envelope P)) → filter (λ e. leb (c + 1) e.batch_id) es ≡ after c es
  page-after c [] = refl
  page-after c (e ∷ es) = ground (arith, page-after c es)

  abbrev fst_of : ℕ × List (Tick P) → ℕ
  fst_of b = b.0

  -- The id of the last of them, or the cursor.
  abbrev pub top : ℕ → List (ℕ × List (Tick P)) → ℕ
  top c [] = c
  top c (b ∷ bs) = top b.0 bs

  pub le-top :
      (c n : ℕ) (bs : List (ℕ × List (Tick P))) → Rising fst_of c bs → c ≤ top c (take n bs)
  le-top c zero bs r = omega arith
  le-top c (suc n) [] r = omega arith
  le-top c (suc n) (b ∷ bs) r = omega (arith, r.0, le-top b.0 n bs r.1)

  later_all : (c : ℕ) (bs : List (ℕ × List (Tick P))) → Rising fst_of c bs → later c bs ≡ bs
  later_all c [] r = refl
  later_all c (b ∷ bs) r =
      rw (ltb_true c b.0 r.0)
        (ap (◌∷◌ b) (later_all c bs (weaken c b.0 bs (omega (arith, r.0)) r.1)))
    where
      ltb_true : (x y : ℕ) → x < y → ltb x y ≡ true
      ltb_true x y h = ground arith

      weaken :
          (c d : ℕ) (bs : List (ℕ × List (Tick P)))
          → c ≤ d
          → Rising fst_of d bs
          → Rising fst_of c bs
      weaken c d [] h r = tt
      weaken c d (b ∷ bs) h r = (omega (arith, r.0), r.1)

  -- A page and what is after it make up the whole.
  pub page_split :
      (c n : ℕ) (bs : List (ℕ × List (Tick P)))
      → Rising fst_of c bs
      → take n bs ++ later (top c (take n bs)) bs ≡ bs
  page_split c zero bs r = later_all c bs r
  page_split c (suc n) [] r = refl
  page_split c (suc n) (b ∷ bs) r =
      let h = le-top b.0 n bs r.1 in
      ap (◌∷◌ b) (ap (λ l. take n bs ++ l) (ground (arith, h)) ∙ page_split b.0 n bs r.1)

  pub Rising-after :
      (c lo : ℕ) (es : List (Envelope P))
      → Rising id_of lo es
      → Rising fst_of c (map brief (after c es))
  Rising-after c lo [] r = tt
  Rising-after c lo (e ∷ es) r = elim (Bool-cases (ltb c e.batch_id)) [
    | inl above ↦ rw above (ground arith, go e.batch_id es r.1)
    | inr below ↦ rw below (Rising-after c e.batch_id es r.1)
  ]
    where
      go :
          (d : ℕ) (es : List (Envelope P))
          → Rising id_of d es
          → Rising fst_of d (map brief (after c es))
      go d [] r = tt
      go d (x ∷ es) r = elim (Bool-cases (ltb c x.batch_id)) [
        | inl above ↦ rw above (r.0, go x.batch_id es r.1)
        | inr below ↦ rw below (
            lower d x.batch_id (map brief (after c es)) (omega (arith, r.0)) (go x.batch_id es r.1))
      ]
        where
          lower :
              (c d : ℕ) (bs : List (ℕ × List (Tick P)))
              → c ≤ d
              → Rising fst_of d bs
              → Rising fst_of c bs
          lower c d [] h r = tt
          lower c d (b ∷ bs) h r = (omega (arith, r.0), r.1)
