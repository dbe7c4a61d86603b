-- ===== src/Listener/Updates.antt =====
-- `_SymListener.on_update`. Rows are generic in what they carry beside time, symbol and `IsEmpty`.
-- A missing table and one with no rows are both the empty list of an update; in a batch a missing
-- table is `none`. Status rows, heartbeats and debug output are left out.
use deepfeeder.Base.{
  ℕ, zero, suc, ◌+◌, ◌-◌, String, Bool, true, false, ◌&&◌, not, Option, none, some, List, [], ◌∷◌,
  ◌++◌, length, ltb, leb, ◌==◌, if◌then◌else◌,
}

pub record Row (F : Type 0) : Type 0 where
  pub ts : ℕ
  pub symbol : String
  pub is_empty : Bool
  pub fields : F

-- What `curr` and the completed table hold: a whole row, or the time and symbol of a placeholder.
pub data Bar (F : Type 0) : Type 0 where
  full : Row F → Bar F
  minimal : ℕ → String → Bar F

abbrev pub bar_ts : {F : Type 0} → Bar F → ℕ
bar_ts (full r) = r.ts
bar_ts (minimal ts symbol) = ts

-- `bin_period_minutes`, and whether the schema has the column `IsEmpty`.
pub record SchemaSpec : Type 0 where
  pub bin_period_minutes : Option ℕ
  pub has_is_empty : Bool

-- Python's truth of an optional number.
abbrev pub truthy : Option ℕ → Bool
truthy none = false
truthy (some n) = not (n == 0)

pub record TableUpdate (F : Type 0) : Type 0 where
  pub added : List (Row F)
  pub modified : List (Row F)

pub record Batch (F : Type 0) : Type 0 where
  pub added : Option (List (Row F))
  pub updated : Option (List (Row F))
  pub completed : Option (List (Bar F))
  pub ts_ns : ℕ

pub record Listener (F : Type 0) : Type 0 where
  pub spec : SchemaSpec
  pub curr : Option (Bar F)
  pub buf : List (Batch F)
  pub buf_maxlen : ℕ
  pub msg_count : ℕ

abbrev pub or_none {ℓ} : {A : Type ℓ} → List A → Option (List A)
or_none [] = none
or_none (x ∷ xs) = some (x ∷ xs)

abbrev pub num_rows {ℓ} : {A : Type ℓ} → Option (List A) → ℕ
num_rows none = 0
num_rows (some rows) = length rows

-- `deque(maxlen=n).append`
abbrev pub drop_first : {A : Type 0} → ℕ → List A → List A
drop_first zero xs = xs
drop_first (suc n) [] = []
drop_first (suc n) (x ∷ xs) = drop_first n xs

abbrev pub push_bounded : {A : Type 0} → ℕ → A → List A → List A
push_bounded limit x xs = drop_first (length (xs ++ x ∷ []) - limit) (xs ++ x ∷ [])

module _ {F : Type 0} where
  abbrev pub is_placeholder : SchemaSpec → Row F → Bool
  is_placeholder spec r = spec.has_is_empty && r.is_empty

  -- What the loop over added rows appends to the completed rows.
  abbrev pub rollover : Option (Bar F) → ℕ → List (Bar F)
  rollover none ts = []
  rollover (some prev) ts = if ltb (bar_ts prev) ts then prev ∷ [] else []

  abbrev pub current_of : SchemaSpec → Row F → Bar F
  current_of spec r = if is_placeholder spec r then minimal r.ts r.symbol else full r

  -- The loop over added rows: the current bar, the completed bars and `placeholder_only`.
  unfoldable pub add_rows :
      SchemaSpec
      → List (Row F)
      → Option (Bar F) × List (Bar F) × Bool
      → Option (Bar F) × List (Bar F) × Bool
  add_rows spec [] s = s
  add_rows spec (r ∷ rows) (curr, completed, placeholder_only) = add_rows spec rows (
    some (current_of spec r),
    completed ++ rollover curr r.ts,
    placeholder_only && is_placeholder spec r,
  )

  abbrev pub last_row : Row F → List (Row F) → Row F
  last_row r [] = r
  last_row r (s ∷ rows) = last_row s rows

  -- The last modified row replaces the current bar, unless it is older.
  unfoldable pub refine : List (Row F) → Option (Bar F) → Option (Bar F)
  refine [] curr = curr
  refine (r ∷ rows) none = some (full (last_row r rows))
  refine (r ∷ rows) (some bar) =
      let last = last_row r rows in if leb (bar_ts bar) last.ts then some (full last) else some bar

  -- The three tables of a bar schema, and the current bar after the additions.
  unfoldable pub bar_tables :
      SchemaSpec
      → List (Row F)
      → Option (Bar F)
      → Option (Bar F) × Option (List (Row F)) × Option (List (Bar F))
  unfolding add_rows
  bar_tables spec [] curr = (curr, none, none)
  bar_tables spec (r ∷ rows) curr =
      let (curr', completed, placeholder_only) = add_rows spec (r ∷ rows) (curr, [], true) in
      (curr', if placeholder_only then none else some (r ∷ rows), or_none completed)

  abbrev pub all_full : List (Row F) → List (Bar F)
  all_full [] = []
  all_full (r ∷ rows) = full r ∷ all_full rows

  -- In other schemas added rows are complete events.
  abbrev pub event_tables :
      List (Row F) → Option (Bar F) → Option (Bar F) × Option (List (Row F)) × Option (List (Bar F))
  event_tables rows curr = (curr, or_none rows, or_none (all_full rows))

  -- `on_update` at the time `now`, with the batch that it emits.
  unfoldable pub on_update : ℕ → TableUpdate F → Listener F → Listener F × Batch F
  unfolding bar_tables refine
  on_update now update l =
      let bars = truthy l.spec.bin_period_minutes in
      let (curr, added, completed) =
        if bars then bar_tables l.spec update.added l.curr else event_tables update.added l.curr in
      let batch : Batch F = record {
        added = added;
        updated = or_none update.modified;
        completed = completed;
        ts_ns = now;
      } in
      (
        record l {
          curr = if bars then refine update.modified curr else curr;
          buf = push_bounded l.buf_maxlen batch l.buf;
          msg_count =
              l.msg_count
              + num_rows batch.added
              + num_rows batch.updated
              + num_rows batch.completed;
        },
        batch,
      )
