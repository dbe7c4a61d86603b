-- ===== src/MarketFeeder/Snapshots.antt =====
-- The rows that `snapshot_range` returns.
use deepfeeder.Base.{
  ℕ, ◌≤◌, ◌≡◌, refl, Bool, true, none, some, List, arith, All, Any, filter, Any-filter, ◌&&◌, ◌+◌,
  ◌-◌, false, Bool-cases, inl, inr, eq_iff, [], ◌∷◌,
}
use deepfeeder.Base.Sort.{Ordered, order_by-Ordered, All-order_by, Any-order_by, order_by}
use deepfeeder.Listener.{Row, SchemaSpec}
use deepfeeder.MarketFeeder.Subscriptions.{Request, Setup}
use deepfeeder.MarketFeeder.Events.{Tables, in_range, snapshot_range}

All-kept : {A : Type 0} (p : A → Bool) (xs : List A) → All (λ x. p x ≡ true) (filter p xs)
All-kept p [] = tt
All-kept p (x ∷ xs) = elim (Bool-cases (p x)) [
  | inl e ↦ rw e (e, All-kept p xs)
  | inr e ↦ rw e (All-kept p xs)
]

All-weaken :
    {A : Type 0} (P Q : A → Type 0) (xs : List A) → ((x : A) → P x → Q x) → All P xs → All Q xs
All-weaken P Q [] h all = tt
All-weaken P Q (x ∷ xs) h all = (h x all.0, All-weaken P Q xs h all.1)

-- A snapshot's row is a bar with a price, of the symbol that was asked for, and from the time.
abbrev pub IsAsked : {F : Type 0} → SchemaSpec → Request → ℕ → ℕ → Row F → Type 0
IsAsked spec r start end row =
    (row.symbol ≡ r.symbol)
    × (spec.has_is_empty && row.is_empty ≡ false)
    × (start ≤ row.ts)
    × (row.ts ≤ end)

-- What the float division and the rounding to microseconds leave of a time, as long as a float holds it
-- to the microsecond: the whole second is at most 1000 ns above it, and at most a second and 1000 ns below.
abbrev pub IsNear : ℕ → ℕ → Type 0
IsNear second ns = (second ≤ ns + 1000) × (ns ≤ second + 1000001000)

module _ {F : Type 0} (tables : Tables F) (setup : Setup) where
  in_range-IsAsked :
      (spec : SchemaSpec) (r : Request) (start end : ℕ) (row : Row F)
      → in_range tables setup spec r (some start) (some end) row ≡ true
      → IsAsked spec r (setup.second_of start) (setup.second_of end) row
  in_range-IsAsked spec r start end row e = ground (arith, eq_iff row.symbol r.symbol)

  IsAsked-in_range :
      (spec : SchemaSpec) (r : Request) (start end : ℕ) (row : Row F)
      → r.exchange ≡ none
      → IsAsked spec r (setup.second_of start) (setup.second_of end) row
      → in_range tables setup spec r (some start) (some end) row ≡ true
  IsAsked-in_range spec r start end row bare (same, kept, after, before) =
      ground (arith, eq_iff row.symbol r.symbol)

  -- A snapshot from `start` to `end` of a known schema, without an exchange, where the whole second of each time is at most 1000 ns above it and at most a second and 1000 ns below, is in the order of the rows' times. Each of its rows is not a placeholder, has the symbol that was asked for, is at most a second and 1000 ns before `start` and at most 1000 ns after `end`; and each row of the table that is not a placeholder, has the symbol, is at least 1000 ns after `start` and at least a second and 1000 ns before `end`, is in it.
  pub snapshot_range-bounds :
      (r : Request) (spec : SchemaSpec) (start end : ℕ)
      → r.exchange ≡ none
      → setup.schemas r.provider r.data_schema ≡ some spec
      → IsNear (setup.second_of start) start
      → IsNear (setup.second_of end) end
      → (rows : List (Row F)) × (snapshot_range tables setup r (some start) (some end) ≡ some rows)
        × Ordered (λ row. row.ts) 0 rows
        × All (λ row. IsAsked spec r (start - 1000001000) (end + 1000) row) rows
        × ((row : Row F)
            → IsAsked spec r (start + 1000) (end - 1000001000) row
            → Any (λ x. x ≡ row) (tables.base r.provider r.data_schema)
            → Any (λ x. x ≡ row) rows)
  unfolding snapshot_range
  snapshot_range-bounds r spec start end bare known near_start near_end =
      let time : Row F → ℕ = λ row. row.ts in
      let kept =
        filter (in_range tables setup spec r (some start) (some end))
          (tables.base r.provider r.data_schema) in
      (
        order_by time kept,
        rw (known, snapshot_range) refl,
        order_by-Ordered time kept,
        All-order_by time _ kept (
            All-weaken _ _ kept
              (λ row e.
                let (same, full, after, before) = in_range-IsAsked spec r start end row e in
                (same, full, omega (arith, near_start, after), omega (arith, near_end, before)))
              (All-kept (in_range tables setup spec r (some start) (some end))
                (tables.base r.provider r.data_schema))),
        λ row (same, full, after, before) there.
            Any-order_by time (λ x. x ≡ row) kept
              (Any-filter (λ x. x ≡ row) (in_range tables setup spec r (some start) (some end))
                (tables.base r.provider r.data_schema)
                (λ x e. rw e (
                  IsAsked-in_range spec r start end row bare (
                    same,
                    full,
                    omega (arith, near_start, after),
                    omega (arith, near_end, before),
                  )))
                there),
      )
