-- ===== src/EventStore/Codec.antt =====
-- `_ticks_to_arrow` and `_arrow_to_ticks` of eventstore_duckdb.py: rows of ticks as columns.
use deepfeeder.Base.{
  ℕ, zero, suc, String, ◌≡◌, refl, ap, Bool, Option, none, some, List, [], ◌∷◌, map, length, ℤ, pos,
  negsuc, ◌∙◌,
}
use deepfeeder.Base.Options.{◌>>=◌}
use deepfeeder.Contracts.{Tick}

-- The struct column that pa.table makes of the payloads and to_pylist of it: payloads of `P` have the same
-- keys and types of values, so that they come back as they were.
pub record Structs (P : Type 0) : Type 1 where
  pub Struct : Type 0
  pub to_struct : List P → Struct
  pub to_pylist : Struct → List P
  pub to_pylist-to_struct : (ps : List P) → to_pylist (to_struct ps) ≡ ps

-- `S` is the column of the payloads.
pub record ArrowTable (S : Type 0) : Type 0 where
  pub provider : List String
  pub stream : List String
  pub symbol : List String
  pub ts_ns : List ℕ
  pub seq : List ℤ
  pub is_final : List Bool
  pub payload : S

-- A missing sequence number is written as -1, and -1 is the only negative that is written.
abbrev pub seq_to_cell : Option ℕ → ℤ
seq_to_cell none = negsuc 0
seq_to_cell (some n) = pos n

abbrev pub cell_to_seq : ℤ → Option ℕ
cell_to_seq (pos n) = some n
cell_to_seq (negsuc n) = none

cell-cell : (s : Option ℕ) → cell_to_seq (seq_to_cell s) ≡ s
cell-cell none = refl
cell-cell (some n) = refl

abbrev get_elem? {ℓ} : {A : Type ℓ} → List A → ℕ → Option A
get_elem? [] i = none
get_elem? (x ∷ xs) zero = some x
get_elem? (x ∷ xs) (suc i) = get_elem? xs i

module _ {P : Type 0} where
  -- The columns of some ticks as lists.
  unfoldable pub columns_from : List (Tick P) → ArrowTable (List P)
  columns_from ticks = record {
    provider = map (λ t. t.provider) ticks;
    stream = map (λ t. t.stream) ticks;
    symbol = map (λ t. t.symbol) ticks;
    ts_ns = map (λ t. t.ts_ns) ticks;
    seq = map (λ t. seq_to_cell t.seq) ticks;
    is_final = map (λ t. t.is_final) ticks;
    payload = map (λ t. t.payload) ticks;
  }

  -- The i-th row; `none` is an index out of range.
  row_at : ArrowTable (List P) → ℕ → Option (Tick P)
  row_at tbl i = do
    provider ← get_elem? tbl.provider i
    stream ← get_elem? tbl.stream i
    symbol ← get_elem? tbl.symbol i
    ts ← get_elem? tbl.ts_ns i
    seq ← get_elem? tbl.seq i
    payload ← get_elem? tbl.payload i
    final ← get_elem? tbl.is_final i
    some (record {
      provider = provider;
      stream = stream;
      symbol = symbol;
      ts_ns = ts;
      seq = cell_to_seq seq;
      payload = payload;
      is_final = final;
    })

  -- `for i in range(i, i + n)`
  rows_from : ArrowTable (List P) → ℕ → ℕ → Option (List (Tick P))
  unfolding row_at
  rows_from tbl i zero = some []
  rows_from tbl i (suc n) = do t ← row_at tbl i; ts ← rows_from tbl (suc i) n; some (t ∷ ts)

  -- Dropping the first row of a table moves the others up by one.
  rows_from-cons :
      (t : Tick P) (ts : List (Tick P)) (n i : ℕ)
      → rows_from (columns_from (t ∷ ts)) (suc i) n ≡ rows_from (columns_from ts) i n
  unfolding rows_from columns_from
  rows_from-cons t ts zero i = refl
  rows_from-cons t ts (suc n) i = rw (rows_from-cons t ts n (suc i)) refl

  columns_from-rows :
      (ticks : List (Tick P))
      → rows_from (columns_from ticks) 0 (length (map (λ (x : Tick P). x.provider) ticks))
        ≡ some ticks
  unfolding rows_from columns_from
  columns_from-rows [] = refl
  columns_from-rows (t ∷ ts) =
      rw
        (rows_from-cons t ts (length (map (λ (x : Tick P). x.provider) ts)) 0, columns_from-rows ts)
        (ap (λ s. some (record t { seq = s } ∷ ts)) (cell-cell t.seq))

module _ {P : Type 0} (structs : Structs P) where
  abbrev with_payload : {S S' : Type 0} → S' → ArrowTable S → ArrowTable S'
  with_payload payload tbl = record {
    provider = tbl.provider;
    stream = tbl.stream;
    symbol = tbl.symbol;
    ts_ns = tbl.ts_ns;
    seq = tbl.seq;
    is_final = tbl.is_final;
    payload = payload;
  }

  unfoldable pub ticks_to_arrow : List (Tick P) → ArrowTable structs.Struct
  unfolding columns_from
  ticks_to_arrow ticks =
      let cols = columns_from ticks in with_payload (structs.to_struct cols.payload) cols

  unfoldable pub arrow_to_ticks : ArrowTable structs.Struct → Option (List (Tick P))
  unfolding rows_from
  arrow_to_ticks tbl =
      rows_from (with_payload (structs.to_pylist tbl.payload) tbl) 0 (length tbl.provider)

  -- Where a struct column gives the payloads back as they were, as it does those with the same keys and types, reading the columns back gives the ticks that were written, a missing sequence number included.
  pub arrow_round_trip :
      (ticks : List (Tick P)) → arrow_to_ticks (ticks_to_arrow ticks) ≡ some ticks
  unfolding arrow_to_ticks ticks_to_arrow columns_from
  arrow_round_trip ticks =
      let cols : ArrowTable (List P) = columns_from ticks in
      ap (λ ps. rows_from (with_payload ps cols) 0 (length cols.provider))
        (structs.to_pylist-to_struct cols.payload)
      ∙ columns_from-rows ticks
