-- ===== src/Backfill/Range.antt =====
-- A task ends, and what it publishes is in its range, each id once.
use deepfeeder.Base.{
  ℕ, zero, suc, ◌+◌, ◌≤◌, ◌<◌, String, ◌≡◌, refl, sym, subst, ◌⊎◌, inl, inr, Option, none, some,
  List, [], ◌∷◌, map, map-append, All, arith, leb, ltb, Bool-cases, Option-cases,
}
use deepfeeder.Base.Options.{◌>>=◌}
use deepfeeder.Contracts.{Tick, seq_or}
use deepfeeder.Listener.Bars.{Between, Between-append, Between-later}
use deepfeeder.Backfill.Pages.{
  number, RestRow, row_tid, rest_trade_json_to_tick, read_page, Outcome, finished, raised, Outside,
  limit_at, advance, published_before, pages, process_task, after_read, after_answer,
}

Between-bounds : (lo hi : ℕ) (xs : List ℕ) → Between lo hi xs → lo ≤ hi
Between-bounds lo hi [] b = b
Between-bounds lo hi (x ∷ xs) b = omega (arith, b.0, Between-bounds (x + 1) hi xs b.1)

module _ {P : Type 0} where
  abbrev pub seq_of : Tick P → ℕ
  seq_of t = seq_or t.seq 0

  -- A row as the REST API documents it: an id that is not 0, and at least the one asked for.
  abbrev pub Documented : ℕ → RestRow P → Type 0
  Documented from r = (id : ℕ) × (r.id ≡ number (suc id)) × (from ≤ suc id)

  tick_of :
      (symbol : String) (r : RestRow P) (id : ℕ) (t : Tick P)
      → r.id ≡ number (suc id)
      → rest_trade_json_to_tick symbol r ≡ some t
      → seq_of t ≡ suc id
  unfolding rest_trade_json_to_tick
  tick_of symbol r id t e h = ground arith

  tid_of : (r : RestRow P) (id : ℕ) → r.id ≡ number (suc id) → row_tid r ≡ some (suc id)
  unfolding row_tid
  tid_of r id e = rw e ground arith

  -- What a page gives: ids from `next` on and below the new next id, in order.
  abbrev Read : ℕ → ℕ → ℕ → Option (List (Tick P) × ℕ) → Type 0
  Read end from next answer =
      (answer ≡ none)
      ⊎ ((ticks : List (Tick P)) × (next' : ℕ) × (answer ≡ some (ticks, next'))
          × Between next next' (map seq_of ticks)
          × (next' ≤ end + 1)
          × ((ticks ≡ []) ⊎ (from < next')))

  taken :
      (end from next tid : ℕ) (tick : Tick P) (answer : Option (List (Tick P) × ℕ))
      → seq_of tick ≡ tid
      → next ≤ tid
      → from ≤ tid
      → Read end from (tid + 1) answer
      → Read end from next (do (ticks, next') ← answer; some (tick ∷ ticks, next'))
  taken end from next tid tick answer e fresh bound (inl raises) = inl (rw raises refl)
  taken end from next tid tick answer e fresh bound (inr (ticks, next', read, b, low, more)) = inr (
    tick ∷ ticks,
    next',
    rw read refl,
    (omega (arith, e, fresh), subst (λ m. Between (m + 1) next' (map seq_of ticks)) (sym e) b),
    low,
    inr (omega (arith, bound, Between-bounds (tid + 1) next' (map seq_of ticks) b)),
  )

  read_page-Read :
      (symbol : String) (end from : ℕ) (rows : List (RestRow P)) (next : ℕ)
      → All (Documented from) rows
      → next ≤ end + 1
      → Read end from next (read_page symbol end rows next)
  unfolding read_page
  read_page-Read symbol end from [] next doc low = inr ([], next, refl, omega arith, low, inl refl)
  read_page-Read symbol end from (r ∷ rows) next ((id, e, bound), doc) low =
      elim (Bool-cases (ltb (suc id) next)) [
        | inl stale ↦
            rw (tid_of r id e, stale, read_page) (read_page-Read symbol end from rows next doc low)
        | inr fresh ↦ elim (Bool-cases (ltb end (suc id))) [
          | inl beyond ↦
              rw (tid_of r id e, fresh, beyond, read_page)
                (inr ([], next, refl, omega arith, low, inl refl))
          | inr within ↦ elim (Option-cases (rest_trade_json_to_tick symbol r)) [
            | inl raises ↦ rw (tid_of r id e, fresh, within, raises, read_page) (inl refl)
            | inr (tick, parsed) ↦
                rw (tid_of r id e, fresh, within, parsed, read_page)
                  (taken end from next (suc id) tick (read_page symbol end rows (suc id + 1))
                    (tick_of symbol r id tick e parsed) (ground arith) bound
                    (read_page-Read symbol end from rows (suc id + 1) doc (ground arith)))
          ]
        ]
      ]

  -- The task has ended, and what was published has rising ids from `next` on, up to `end`.
  abbrev pub Ended : ℕ → ℕ → List (Tick P) × Outcome → Type 0
  Ended end next (ticks, out) =
      ((out ≡ finished) ⊎ (out ≡ raised)) × Between next (end + 1) (map seq_of ticks)

  module _ (o : Outside P) (symbol : String) (end : ℕ) where
    -- Every answer has documented rows.
    abbrev pub Honest : Type 0
    Honest = (n from limit : ℕ) → All (Documented from) (o.get_trades n from limit)

    published-Ended :
        (next next' : ℕ) (ticks : List (Tick P)) (later : List (Tick P) × Outcome)
        → Between next next' (map seq_of ticks)
        → Ended end next' later
        → Ended end next (published_before o symbol end ticks later)
    published-Ended next next' ticks (later, out) b (ends, more) = (
      ends,
      subst (Between next (end + 1)) (sym (map-append seq_of ticks later))
          (Between-append next next' (end + 1) (map seq_of ticks) (map seq_of later) b more),
    )

    after_read-Ended :
        (more : ℕ → ℕ → List (Tick P) × Outcome) (cur next : ℕ)
        → 0 < o.page_size
        → cur ≤ end
        → ((cur' next' : ℕ)
            → next' ≤ end + 1
            → cur' ≤ end + 1
            → cur < cur'
            → Ended end next' (more cur' next'))
        → (answer : Option (List (Tick P) × ℕ)) → next ≤ end + 1
        → Read end cur next answer
        → Ended end next (after_read o symbol end more cur answer)
    after_read-Ended more cur next room inside goes_on answer low (inl raises) =
        rw raises (inr refl, low)
    after_read-Ended more cur next room inside goes_on answer low
          (inr (ticks, next', read, b, low', progress)) =
        rw read elim (Bool-cases (ltb end next')) [
          | inl whole ↦ rw whole (inl refl, Between-later next (end + 1) (map seq_of ticks) b low')
          | inr left ↦ rw left (
              published-Ended next next' ticks (more (advance o symbol end ticks cur next') next') b
                (stepped ticks progress))
        ]
      where
        stepped :
            (ticks : List (Tick P))
            → (ticks ≡ []) ⊎ (cur < next')
            → Ended end next' (more (advance o symbol end ticks cur next') next')
        stepped [] progress = goes_on _ next' low' (omega arith) (omega (arith, inside, room))
        stepped (t ∷ ticks) (inl empty) = cc empty
        stepped (t ∷ ticks) (inr ahead) = goes_on next' next' low' low' ahead

    pages-Ended :
        Honest
        → 0 < o.page_size
        → (fuel n cur next : ℕ) → next ≤ end + 1
        → cur ≤ end + 1
        → end + 1 < fuel + cur
        → Ended end next (pages o symbol end fuel n cur next)
    unfolding pages
    pages-Ended honest room zero n cur next low near enough = absurd (omega (arith, near, enough))
    pages-Ended honest room (suc fuel) n cur next low near enough =
        elim (Bool-cases (leb cur end)) [
          | inr over ↦ rw over (inl refl, low)
          | inl more ↦ elim (Bool-cases (o.is_set n)) [
            | inl set ↦ rw (more, set) (inl refl, low)
            | inr going ↦
                rw (more, going)
                  (answered (o.get_trades n cur (limit_at o symbol end cur))
                    (honest n cur (limit_at o symbol end cur)) (ground arith)
                    (λ cur' next' a b ahead.
                      pages-Ended honest room fuel (n + 1) cur' next' a b
                        (omega (arith, enough, ahead))))
          ]
        ]
      where
        answered :
            (page : List (RestRow P))
            → All (Documented cur) page
            → cur ≤ end
            → ((cur' next' : ℕ)
                → next' ≤ end + 1
                → cur' ≤ end + 1
                → cur < cur'
                → Ended end next' (pages o symbol end fuel (n + 1) cur' next'))
            → Ended end next
                (after_answer o symbol end (pages o symbol end fuel (n + 1)) cur next page)
        answered [] doc inside goes_on = (inl refl, low)
        answered (r ∷ rows) doc inside goes_on =
            after_read-Ended (pages o symbol end fuel (n + 1)) cur next room inside goes_on
              (read_page symbol end (r ∷ rows) next) low
              (read_page-Read symbol end cur (r ∷ rows) next doc low)

    -- If pages hold at least one row, the task begins at most one id past its end, and the REST API answers rows from the asked id on, each with an
    -- id above 0, a task ends, finished or by an exception; the trade ids that it publishes are in
    -- its range and strictly rise over all its pages, so that none is published twice.
    pub process_task-Ended :
        Honest
        → 0 < o.page_size
        → (start : ℕ) → start ≤ end + 1
        → Ended end start (process_task o symbol end start)
    unfolding process_task
    process_task-Ended honest room start near =
        pages-Ended honest room (end + 2) 0 start start near near (omega arith)
