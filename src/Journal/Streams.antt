-- ===== src/Journal/Streams.antt =====
-- `stream_ticks_since` of the canonical table. The loop yields a page and asks again from a cursor.
use deepfeeder.Base.{
  ℕ, zero, suc, ◌<◌, ◌≤◌, String, ◌≡◌, refl, sym, ◌∙◌, Bool, true, false, ◌&&◌, ◌||◌, Option, none,
  some, List, [], ◌∷◌, map, filter, take, ltb, ◌==◌, if◌then◌else◌, All, arith,
}
use deepfeeder.Base.Options.{◌>>=◌}
use deepfeeder.Contracts.{Tick}
use deepfeeder.EventStore.Codec.{cell_to_seq}
use deepfeeder.Journal.Tables.{Canonical}

-- ORDER BY: an insertion sort, for the order of the text that the database compares.
unfoldable pub insert_before : {A : Type 0} → (A → A → Bool) → A → List A → List A
insert_before before a [] = a ∷ []
insert_before before a (x ∷ xs) = if before x a then x ∷ insert_before before a xs else a ∷ x ∷ xs

unfoldable pub sort_by : {A : Type 0} → (A → A → Bool) → List A → List A
unfolding insert_before
sort_by before [] = []
sort_by before (x ∷ xs) = insert_before before x (sort_by before xs)

pub record Cursor : Type 0 where
  pub last_t : ℕ
  pub last_nat : String

-- What a reader asks for. `nat_after` is `>` on TEXT, and `wanted` the two filters.
pub record Query (P : Type 0) : Type 0 where
  pub by_updated : Bool
  pub page_rows : ℕ
  pub nat_after : String → String → Bool
  pub wanted : Canonical P → Bool

module _ {P : Type 0} where
  unfoldable pub to_tick : Canonical P → Tick P
  to_tick c = record {
    provider = c.key.provider;
    stream = c.key.stream;
    symbol = c.key.symbol;
    ts_ns = c.ts_ns;
    seq = cell_to_seq c.seq;
    payload = c.payload;
    is_final = c.is_final;
  }

  module _ (q : Query P) where
    abbrev pub key_time : Canonical P → ℕ
    key_time c = if q.by_updated then c.updated_at_ns else c.ts_ns

    abbrev pub is_after : Cursor → Canonical P → Bool
    is_after cur c =
        ltb cur.last_t (key_time c)
        || (key_time c == cur.last_t && q.nat_after c.key.nat_key cur.last_nat)

    abbrev pub before : Canonical P → Canonical P → Bool
    before a b =
        ltb (key_time a) (key_time b)
        || (key_time a == key_time b && q.nat_after b.key.nat_key a.key.nat_key)

    unfoldable pub fetch_page : List (Canonical P) → Cursor → List (Canonical P)
    unfolding sort_by
    fetch_page rows cur =
        take q.page_rows (sort_by before (filter (λ c. is_after cur c && q.wanted c) rows))

    -- `rs[-1][-2]`, the `is_final` of the last row, as a number, and its `nat_key`.
    unfoldable pub advance_cursor : Canonical P → List (Canonical P) → Cursor
    advance_cursor c [] = record { last_t = if c.is_final then 1 else 0; last_nat = c.key.nat_key }
    advance_cursor c (d ∷ page) = advance_cursor d page

    -- The pages that the loop yields, on fuel, over a table that does not change.
    unfoldable pub stream_pages : ℕ → List (Canonical P) → Cursor → Option (List (List (Tick P)))
    unfolding fetch_page advance_cursor to_tick
    stream_pages zero rows cur = none
    stream_pages (suc fuel) rows cur = elim (fetch_page rows cur) [
      | [] ↦ some []
      | c ∷ page ↦ do
        pages ← stream_pages fuel rows (advance_cursor c page)
        some (map to_tick (c ∷ page) ∷ pages)
    ]

abbrev pub is_nil : {A : Type 0} → List A → Bool
is_nil [] = true
is_nil (x ∷ xs) = false

first_of :
    {A : Type 0} (xs : List A) → is_nil xs ≡ false → (x : A) × (rest : List A) × (xs ≡ x ∷ rest)
first_of [] h = cc h
first_of (x ∷ xs) h = (x, xs, refl)

is_nil-insert :
    {A : Type 0} (before : A → A → Bool) (a : A) (xs : List A)
    → is_nil (insert_before before a xs) ≡ false
unfolding insert_before
is_nil-insert before a [] = refl
is_nil-insert before a (x ∷ xs) = ground arith

is_nil-sort :
    {A : Type 0} (before : A → A → Bool) (xs : List A) → is_nil (sort_by before xs) ≡ is_nil xs
unfolding sort_by
is_nil-sort before [] = refl
is_nil-sort before (x ∷ xs) = is_nil-insert before x (sort_by before xs)

is_nil-take : {A : Type 0} (n : ℕ) (xs : List A) → 0 < n → is_nil (take n xs) ≡ is_nil xs
is_nil-take zero xs h = absurd (omega (arith, h))
is_nil-take (suc n) [] h = refl
is_nil-take (suc n) (x ∷ xs) h = refl

module _ {P : Type 0} (q : Query P) where
  -- Every row has a time above 1, so it is after a cursor with a time of at most 1.
  abbrev pub Timed : List (Canonical P) → Type 0
  Timed rows = All (λ c. 1 < key_time q c) rows

  wanted_again :
      (cur next : Cursor) (rows : List (Canonical P))
      → Timed rows
      → next.last_t ≤ 1
      → is_nil (filter (λ c. is_after q cur c && q.wanted c) rows) ≡ false
      → is_nil (filter (λ c. is_after q next c && q.wanted c) rows) ≡ false
  wanted_again cur next [] timed low h = h
  wanted_again cur next (c ∷ rows) (late, timed) low h =
      ground (arith, wanted_again cur next rows timed)

  page_again :
      (cur next : Cursor) (rows : List (Canonical P))
      → 0 < q.page_rows
      → Timed rows
      → next.last_t ≤ 1
      → is_nil (fetch_page q rows cur) ≡ false
      → is_nil (fetch_page q rows next) ≡ false
  unfolding fetch_page
  page_again cur next rows room timed low h =
      let size = λ (c : Cursor).
        is_nil-take q.page_rows
          (sort_by (before q) (filter (λ d. is_after q c d && q.wanted d) rows)) room
        ∙ is_nil-sort (before q) (filter (λ d. is_after q c d && q.wanted d) rows) in
      size next ∙ wanted_again cur next rows timed low (sym (size cur) ∙ h)

  advance_cursor-low :
      (c : Canonical P) (page : List (Canonical P)) → (advance_cursor q c page).last_t ≤ 1
  unfolding advance_cursor
  advance_cursor-low c [] = ground arith
  advance_cursor-low c (d ∷ page) = advance_cursor-low d page

  -- If pages hold at least one row and every row has a time above 1, the stream of the canonical
  -- table never ends once its first page has a row: whatever the fuel, it is still reading.
  pub stream_pages-endless :
      (fuel : ℕ) (rows : List (Canonical P)) (cur : Cursor)
      → 0 < q.page_rows
      → Timed rows
      → is_nil (fetch_page q rows cur) ≡ false
      → stream_pages q fuel rows cur ≡ none
  unfolding stream_pages
  stream_pages-endless zero rows cur room timed some_row = refl
  stream_pages-endless (suc fuel) rows cur room timed some_row =
      let (c, page, found) = first_of (fetch_page q rows cur) some_row in
      let next = advance_cursor q c page in
      let on =
        stream_pages-endless fuel rows next room timed
          (page_again cur next rows room timed (advance_cursor-low c page) some_row) in
      rw (found, on, stream_pages) refl
