-- ===== src/Sinks/Routing.antt =====
-- The sink writes the ticks of each provider and stream together, in their order.
use deepfeeder.Base.{
  ◌≡◌, refl, sym, ap, ap₂, ◌∙◌, subst, inl, inr, Bool, true, false, ◌||◌, some, List, [], ◌∷◌, ◌++◌,
  map, filter, append-nil, append_assoc, eq_iff, arith, Bool-cases, if◌then◌else◌,
}
use deepfeeder.Contracts.{Tick}
use deepfeeder.Sinks.Registry.{
  WriterKey, key_eq, PairDict, pair_lookup, pair_insert, WriterSpec, resolve, key_of, or_no_ticks,
  bucket, written_by, write_buckets, write_envelope, WriteAttempt,
}

key_eq_sound : (k j : WriterKey) → key_eq k j ≡ true → k ≡ j
key_eq_sound (p, s) (q, t) h =
    ap₂ (λ a b. (a, b)) (ground (arith, h, eq_iff p q)) (ground (arith, h, eq_iff s t))

key_eq_refl : (k : WriterKey) → key_eq k k ≡ true
key_eq_refl (p, s) = ground (arith, eq_iff p p, eq_iff s s)

abbrev member : WriterKey → List WriterKey → Bool
member k [] = false
member k (j ∷ ks) = key_eq j k || member k ks

abbrev Distinct : List WriterKey → Type 0
Distinct [] = Unit
Distinct (k ∷ ks) = (member k ks ≡ false) × Distinct ks

-- The keys of a list of ticks behind those that were seen before, each at its first tick.
abbrev add_key : WriterKey → List WriterKey → List WriterKey
add_key k ks = if member k ks then ks else ks ++ k ∷ []

key_eq_sym : (k j : WriterKey) → key_eq k j ≡ key_eq j k
key_eq_sym (p, s) (q, t) = ground (arith, eq_iff p q, eq_iff q p, eq_iff s t, eq_iff t s)

member-snoc :
    (j k : WriterKey) (ks : List WriterKey) → member j (ks ++ k ∷ []) ≡ (member j ks || key_eq k j)
member-snoc j k [] = ground arith
member-snoc j k (i ∷ ks) = ground (arith, member-snoc j k ks)

Distinct-snoc :
    (k : WriterKey) (ks : List WriterKey)
    → member k ks ≡ false
    → Distinct ks
    → Distinct (ks ++ k ∷ [])
Distinct-snoc k [] new distinct = (refl, tt)
Distinct-snoc k (j ∷ ks) new (fresh, distinct) = (
  member-snoc j k ks ∙ ground (arith, fresh, new, key_eq_sym k j),
  Distinct-snoc k ks (ground (arith, new)) distinct,
)

Distinct-add : (k : WriterKey) (ks : List WriterKey) → Distinct ks → Distinct (add_key k ks)
Distinct-add k ks distinct = elim (Bool-cases (member k ks)) [
  | inl known ↦ rw known distinct
  | inr new ↦ rw new (Distinct-snoc k ks new distinct)
]

-- What is not among the keys with one more was not among them, and is not that one.
not-add :
    (j k : WriterKey) (ks : List WriterKey)
    → member j (add_key k ks) ≡ false
    → (member j ks ≡ false) × (key_eq j k ≡ false)
not-add j k ks h = elim (Bool-cases (member k ks)) [
  | inl known ↦
      let absent : member j ks ≡ false = ap (member j) (sym (rw known refl)) ∙ h in
      (absent, apart known absent)
  | inr new ↦
      let absent : (member j ks || key_eq k j) ≡ false =
        sym (member-snoc j k ks) ∙ ap (member j) (sym (rw new refl)) ∙ h in
      (ground (arith, absent), ground (arith, absent, key_eq_sym k j))
]
  where
    apart : member k ks ≡ true → member j ks ≡ false → key_eq j k ≡ false
    apart known absent = elim (Bool-cases (key_eq j k)) [
      | inl same ↦ cc (known, absent, ap (λ i. member i ks) (key_eq_sound j k same))
      | inr other ↦ other
    ]

module _ {P : Type 0} where
  abbrev pub seen_keys : List WriterKey → List (Tick P) → List WriterKey
  seen_keys ks [] = ks
  seen_keys ks (t ∷ ts) = seen_keys (add_key (key_of t) ks) ts

  -- The ticks of a provider and stream.
  abbrev pub ticks_under : WriterKey → List (Tick P) → List (Tick P)
  ticks_under k ts = filter (λ t. key_eq k (key_of t)) ts

  abbrev grouped : List WriterKey → List (Tick P) → PairDict (List (Tick P))
  grouped ks ts = map (λ k. (k, ticks_under k ts)) ks

  under-append :
      (k : WriterKey) (xs ys : List (Tick P))
      → ticks_under k (xs ++ ys) ≡ ticks_under k xs ++ ticks_under k ys
  under-append k [] ys = refl
  under-append k (x ∷ xs) ys = elim (Bool-cases (key_eq k (key_of x))) [
    | inl e ↦ rw e (ap (◌∷◌ x) (under-append k xs ys))
    | inr e ↦ rw e (under-append k xs ys)
  ]

  under_same :
      (k : WriterKey) (done : List (Tick P)) (t : Tick P)
      → key_eq k (key_of t) ≡ true
      → ticks_under k (done ++ t ∷ []) ≡ ticks_under k done ++ t ∷ []
  under_same k done t e = under-append k done (t ∷ []) ∙ rw e refl

  under_other :
      (k : WriterKey) (done : List (Tick P)) (t : Tick P)
      → key_eq k (key_of t) ≡ false
      → ticks_under k (done ++ t ∷ []) ≡ ticks_under k done
  under_other k done t e = under-append k done (t ∷ []) ∙ rw e (append-nil _)

  grouped_others :
      (ks : List WriterKey) (done : List (Tick P)) (t : Tick P)
      → member (key_of t) ks ≡ false
      → grouped ks done ≡ grouped ks (done ++ t ∷ [])
  grouped_others [] done t e = refl
  grouped_others (j ∷ ks) done t e =
      ap₂ (◌∷◌) (ap (λ l. (j, l)) (sym (under_other j done t (ground (arith, e)))))
        (grouped_others ks done t (ground (arith, e)))

  lookup-grouped :
      (k : WriterKey) (ks : List WriterKey) (done : List (Tick P))
      → or_no_ticks (pair_lookup k (grouped ks done))
        ≡ (if member k ks then ticks_under k done else [])
  unfolding pair_lookup
  lookup-grouped k [] done = refl
  lookup-grouped k (j ∷ ks) done = elim (Bool-cases (key_eq j k)) [
    | inl here ↦ rw here (ap (λ i. ticks_under i done) (key_eq_sound j k here))
    | inr other ↦ rw other (lookup-grouped k ks done)
  ]

  -- What the tick's key has with it.
  abbrev with_it : List (Tick P) → Tick P → List (Tick P)
  with_it done t = ticks_under (key_of t) done ++ t ∷ []

  with_it-under :
      (done : List (Tick P)) (t : Tick P) → with_it done t ≡ ticks_under (key_of t) (done ++ t ∷ [])
  with_it-under done t = sym (under_same (key_of t) done t (key_eq_refl (key_of t)))

  insert_known :
      (ks : List WriterKey) (done : List (Tick P)) (t : Tick P)
      → Distinct ks
      → member (key_of t) ks ≡ true
      → pair_insert (key_of t) (with_it done t) (grouped ks done) ≡ grouped ks (done ++ t ∷ [])
  unfolding pair_insert
  insert_known [] done t distinct known = cc
  insert_known (j ∷ ks) done t (fresh, distinct) known = elim (Bool-cases (key_eq j (key_of t))) [
    | inl here ↦ rw here (
        ap₂ (λ a b. (j, a) ∷ b)
          (with_it-under done t
            ∙ ap (λ i. ticks_under i (done ++ t ∷ [])) (sym (key_eq_sound j (key_of t) here)))
          (grouped_others ks done t
            (subst (λ k. member k ks ≡ false) (key_eq_sound j (key_of t) here) fresh)))
    | inr other ↦ rw other (
        ap₂ (λ a b. (j, a) ∷ b) (sym (under_other j done t other))
          (insert_known ks done t distinct (ground (arith, known, other))))
  ]

  insert_new :
      (ks : List WriterKey) (done : List (Tick P)) (t : Tick P)
      → member (key_of t) ks ≡ false
      → pair_insert (key_of t) (with_it done t) (grouped ks done)
        ≡ grouped (ks ++ key_of t ∷ []) (done ++ t ∷ [])
  unfolding pair_insert
  insert_new [] done t new = ap (λ l. (key_of t, l) ∷ []) (with_it-under done t)
  insert_new (j ∷ ks) done t new = elim (Bool-cases (key_eq j (key_of t))) [
    | inl here ↦ absurd (ground (arith, here, new))
    | inr other ↦ rw other (
        ap₂ (λ a b. (j, a) ∷ b) (sym (under_other j done t other))
          (insert_new ks done t (ground (arith, new))))
  ]

  -- Every tick's key is among the keys.
  abbrev Covers : List WriterKey → List (Tick P) → Type 0
  Covers ks done = (k : WriterKey) → member k ks ≡ false → ticks_under k done ≡ []

  insert_tick :
      (ks : List WriterKey) (done : List (Tick P)) (t : Tick P)
      → Distinct ks
      → Covers ks done
      → pair_insert
          (key_of t)
          (or_no_ticks (pair_lookup (key_of t) (grouped ks done)) ++ t ∷ [])
          (grouped ks done)
        ≡ grouped (add_key (key_of t) ks) (done ++ t ∷ [])
  insert_tick ks done t distinct covers = elim (Bool-cases (member (key_of t) ks)) [
    | inl known ↦
        ap (λ l. pair_insert (key_of t) (l ++ t ∷ []) (grouped ks done))
          (lookup-grouped (key_of t) ks done ∙ rw known refl)
        ∙ insert_known ks done t distinct known
        ∙ ap (λ l. grouped l (done ++ t ∷ [])) (sym (rw known refl))
    | inr new ↦
        ap (λ l. pair_insert (key_of t) (l ++ t ∷ []) (grouped ks done))
          (lookup-grouped (key_of t) ks done ∙ rw new (sym (covers (key_of t) new)))
        ∙ insert_new ks done t new
        ∙ ap (λ l. grouped l (done ++ t ∷ [])) (sym (rw new refl))
  ]

  Covers-add :
      (ks : List WriterKey) (done : List (Tick P)) (t : Tick P)
      → Covers ks done
      → Covers (add_key (key_of t) ks) (done ++ t ∷ [])
  Covers-add ks done t covers k absent =
      let (old, other) = not-add k (key_of t) ks absent in under_other k done t other ∙ covers k old

  bucket-grouped :
      (ts : List (Tick P)) (ks : List WriterKey) (done : List (Tick P))
      → Distinct ks
      → Covers ks done
      → bucket ts (grouped ks done) ≡ grouped (seen_keys ks ts) (done ++ ts)
  unfolding bucket
  bucket-grouped [] ks done distinct covers = ap (grouped ks) (sym (append-nil done))
  bucket-grouped (t ∷ ts) ks done distinct covers =
      ap (bucket ts) (insert_tick ks done t distinct covers)
      ∙ bucket-grouped ts (add_key (key_of t) ks) (done ++ t ∷ [])
          (Distinct-add (key_of t) ks distinct) (Covers-add ks done t covers)
      ∙ ap (grouped (seen_keys (add_key (key_of t) ks) ts)) (append_assoc done (t ∷ []) ts)

module _ {P V : Type 0} (reg : PairDict (WriterSpec P V)) where
  -- For each provider and stream in turn, what its writer writes for its ticks.
  abbrev pub written_under : List WriterKey → List (Tick P) → List (WriteAttempt V)
  written_under [] rows = []
  written_under (k ∷ ks) rows =
      written_by (resolve (some k.0) k.1 reg) (ticks_under k rows) ++ written_under ks rows

  buckets-written :
      (ks : List WriterKey) (rows : List (Tick P))
      → write_buckets reg (grouped ks rows) ≡ written_under ks rows
  unfolding write_buckets
  buckets-written [] rows = refl
  buckets-written (k ∷ ks) rows =
      ap (λ l. written_by (resolve (some k.0) k.1 reg) (ticks_under k rows) ++ l)
        (buckets-written ks rows)

  -- An envelope is written provider and stream by provider and stream, in the order of their first ticks, each with all its ticks in the envelope's order, and with none where no writer is registered.
  pub write_envelope-written_under :
      (rows : List (Tick P)) → write_envelope reg rows ≡ written_under (seen_keys [] rows) rows
  unfolding write_envelope
  write_envelope-written_under rows =
      ap (write_buckets reg) (bucket-grouped rows [] [] tt (λ k e. refl))
      ∙ buckets-written (seen_keys [] rows) rows
