-- ===== src/GapMonitor/Sightings.antt =====
-- One trade of a scan: what is stepped over goes to the planner.
use native.Mathlib.Decide.{dec_lt}
use deepfeeder.Base.{
  ℕ, ◌+◌, ◌-◌, ◌≤◌, ◌<◌, String, ◌≡◌, refl, ap, ◌∙◌, inl, inr, Option, none, some, List, [], ◌∷◌,
  arith, eq_iff,
}
use deepfeeder.Base.Dict.{string_discrete}
use deepfeeder.Planner.{Planner, Gap, Supply}
use deepfeeder.Planner.Slices.{Sliced}
use deepfeeder.Planner.Gaps.{add_gap-Sliced, Tiles-cover}
use deepfeeder.Watermarks.{Watermarks}
use deepfeeder.GapMonitor.Scan.{
  Monitor, get_last_seq, set_last_seq, report, first_sighting, next_sighting, sighting,
}
use deepfeeder.GapMonitor.Known.{known, known-set_last_seq}
use deepfeeder.GapMonitor.Complete.{Scanned, learn}

module _ (w : Watermarks) where
  -- Nothing is seen and the planner is as it was.
  pub Scanned-quiet :
      (m m' : Monitor w)
      → m'.planner ≡ m.planner
      → ((symbol : String) → known w symbol m' ≡ known w symbol m)
      → Scanned w [] m m'
  Scanned-quiet m m' same knows = record {
    learned = knows;
    limit = ap (λ p. p.max_ids_per_task) same;
    grows = omega (arith, ap (λ p. p.next) same);
    keeps = λ r _. ap (λ p. p.heap r) same;
    covers = λ symbol l l' id e e' low high. absurd (ground (arith, knows symbol));
    within = λ r new below. absurd (omega (arith, ap (λ p. p.next) same));
  }

  known-planner :
      (symbol : String) (m : Monitor w) (p : Planner)
      → known w symbol (record m { planner = p }) ≡ known w symbol m
  unfolding get_last_seq
  known-planner symbol m p = ground arith

  -- A trade that leaves no gap behind.
  Scanned-near :
      (m m' : Monitor w) (s : String) (seq last : ℕ)
      → m'.planner ≡ m.planner
      → ((symbol : String) → known w symbol m' ≡ learn symbol (s, seq) (known w symbol m))
      → known w s m ≡ some last
      → seq ≤ last + 1
      → Scanned w ((s, seq) ∷ []) m m'
  Scanned-near m m' s seq last same knows e near = record {
    learned = knows;
    limit = ap (λ p. p.max_ids_per_task) same;
    grows = omega (arith, ap (λ p. p.next) same);
    keeps = λ r _. ap (λ p. p.heap r) same;
    covers = λ symbol l l' id f f' low high. elim (string_discrete s symbol) [
      | yes here ↦
          inl
            (inl (here, ground (arith, knows symbol, eq_iff s symbol, ap (λ n. known w n m) here)))
      | no other ↦ absurd (ground (arith, knows symbol, eq_iff s symbol))
    ];
    within = λ r new below. absurd (omega (arith, ap (λ p. p.next) same));
  }

  -- A trade that leaves a gap behind, and the planner that has been given the gap.
  Scanned-jump :
      (m m' : Monitor w) (gap : Gap) (seq last : ℕ) (rs : List ℕ)
      → Sliced gap gap.start_id m.planner m'.planner rs
      → ((symbol : String) → known w symbol m' ≡ learn symbol (gap.symbol, seq) (known w symbol m))
      → known w gap.symbol m ≡ some last
      → last + 1 < seq
      → gap.start_id ≡ last + 1
      → gap.end_id ≡ seq - 1
      → Scanned w ((gap.symbol, seq) ∷ []) m m'
  Scanned-jump m m' gap seq last rs sl knows e jump first final = record {
    learned = knows;
    limit = sl.limit;
    grows = sl.grows;
    keeps = sl.keeps;
    covers = λ symbol l l' id f f' low high. elim (string_discrete gap.symbol symbol) [
      | no other ↦ absurd (ground (arith, knows symbol, eq_iff gap.symbol symbol))
      | yes here ↦
          let (below, above) = jump_range symbol l l' here f f' in
          elim (dec_lt id seq) [
            | no top ↦ inl (inl (here, omega arith))
            | yes inside ↦
                let (r, new, under, starts, ends) =
                  Tiles-cover m'.planner.heap m.planner.max_ids_per_task gap.start_id gap.end_id
                    m.planner.next m'.planner.next id rs sl.addresses sl.tiles (omega arith)
                    (omega arith) in
                inr (r, new, under, (sl.fresh r new under).0 ∙ here, starts, ends)
          ]
    ];
    within = λ r new below.
        let fresh = sl.fresh r new below in
        let owner = fresh.0 in
        (
          (
            seq,
            ap (λ n. known w n m') owner
                ∙ ground (arith, knows gap.symbol, eq_iff gap.symbol gap.symbol),
            omega (arith, fresh.5),
          ),
          λ l f. ground (arith, ap (λ n. known w n m) owner, fresh.4),
        );
  }
    where
      jump_range :
          (symbol : String) (l l' : ℕ)
          → gap.symbol ≡ symbol
          → known w symbol m ≡ some l
          → known w symbol m' ≡ some l'
          → (l ≡ last) × (l' ≡ seq)
      jump_range symbol l l' here f f' =
          ground (arith, knows symbol, eq_iff gap.symbol symbol, ap (λ n. known w n m) here)

  -- The first trade of a symbol.
  Scanned-first :
      (m m' : Monitor w) (s : String) (seq : ℕ)
      → m'.planner ≡ m.planner
      → ((symbol : String) → known w symbol m' ≡ learn symbol (s, seq) (known w symbol m))
      → known w s m ≡ none
      → Scanned w ((s, seq) ∷ []) m m'
  Scanned-first m m' s seq same knows e = record {
    learned = knows;
    limit = ap (λ p. p.max_ids_per_task) same;
    grows = omega (arith, ap (λ p. p.next) same);
    keeps = λ r _. ap (λ p. p.heap r) same;
    covers = λ symbol l l' id f f' low high. elim (string_discrete s symbol) [
      | yes here ↦ absurd (ground (arith, ap (λ n. known w n m) here))
      | no other ↦ absurd (ground (arith, knows symbol, eq_iff s symbol))
    ];
    within = λ r new below. absurd (omega (arith, ap (λ p. p.next) same));
  }

  module _ (supply : Supply) (s : String) (seq ts : ℕ) (m : Monitor w) where
    set_learn :
        (last : ℕ) (p : Planner) (symbol : String)
        → known w s m ≡ some last
        → last < seq
        → known w symbol (set_last_seq w s seq (record m { planner = p }))
          ≡ learn symbol (s, seq) (known w symbol m)
    set_learn last p symbol e less = ground (
      arith,
      known-set_last_seq w s symbol seq (record m { planner = p }),
      known-planner symbol m p,
      eq_iff s symbol,
      λ (h : s ≡ symbol). ap (λ n. known w n m) h,
    )

    first_sighting-Scanned :
        known w s m ≡ none
        → (m' : Monitor w) × (first_sighting w supply s seq ts m ≡ some m')
          × Scanned w ((s, seq) ∷ []) m m'
    unfolding first_sighting set_last_seq
    first_sighting-Scanned e = (
      set_last_seq w s seq m,
      refl,
      Scanned-first m (set_last_seq w s seq m) s seq refl
          (λ symbol. ground (
            arith,
            known-set_last_seq w s symbol seq m,
            eq_iff s symbol,
            λ (h : s ≡ symbol). ap (λ n. known w n m) h,
          ))
          e,
    )

    next_sighting-Scanned :
        (last : ℕ)
        → known w s m ≡ some last
        → 0 < m.planner.max_ids_per_task
        → (m' : Monitor w) × (next_sighting w supply s last seq ts m ≡ some m')
          × Scanned w ((s, seq) ∷ []) m m'
    unfolding next_sighting report set_last_seq
    next_sighting-Scanned last e room = elim (dec_lt (last + 1) seq) [
      | yes jump ↦
          let gap : Gap = record {
            provider = "binance";
            symbol = s;
            start_id = last + 1;
            end_id = seq - 1;
            discovered_at_ns = ts;
            priority = 0;
          } in
          let (p', rs, made, sl) = add_gap-Sliced supply gap m.planner room in
          (
            set_last_seq w s seq (record m { planner = p' }),
            ground (arith, made),
            Scanned-jump m _ gap seq last rs sl (λ symbol. set_learn last p' symbol e (omega arith))
                e jump refl refl,
          )
      | no near ↦ elim (dec_lt last seq) [
        | yes less ↦ (
          set_last_seq w s seq m,
          ground arith,
          Scanned-near m (set_last_seq w s seq m) s seq last refl
              (λ symbol. set_learn last m.planner symbol e less) e (omega arith),
        )
        | no old ↦ (
          m,
          ground arith,
          Scanned-near m m s seq last refl
              (λ symbol.
                ground (arith, eq_iff s symbol, λ (h : s ≡ symbol). ap (λ n. known w n m) h))
              e (omega arith),
        )
      ]
    ]

    pub sighting-Scanned :
        0 < m.planner.max_ids_per_task
        → (last : Option ℕ) → known w s m ≡ last
        → (m' : Monitor w) × (sighting w supply s last seq ts m ≡ some m')
          × Scanned w ((s, seq) ∷ []) m m'
    unfolding sighting
    sighting-Scanned room none e = first_sighting-Scanned e
    sighting-Scanned room (some last) e = next_sighting-Scanned last e room
