-- ===== src/Journal/HotStream.antt =====
-- `stream_ticks_since` of the append-only table, and `load_recent`.
use deepfeeder.Base.{
  ℕ, zero, suc, ◌+◌, Bool, true, false, ◌&&◌, ◌||◌, Option, none, some, List, [], ◌∷◌, map, filter,
  take, ltb, leb, ◌==◌,
}
use deepfeeder.Base.Options.{◌>>=◌}
use deepfeeder.Base.Sort.{order_by}
use deepfeeder.Contracts.{Tick}
use deepfeeder.EventStore.Codec.{seq_to_cell, cell_to_seq}
use deepfeeder.Journal.Tables.{Hot, Canonical, Journal}
use deepfeeder.Journal.Streams.{sort_by, to_tick}

-- A row of `journal_hot` with its `rowid`.
pub record HotRow (P : Type 0) : Type 0 where
  pub rowid : ℕ
  pub hot : Hot P

-- `from_rowid` is one more than `last_rowid`, which begins at -1.
pub record HotCursor : Type 0 where
  pub last_ts : ℕ
  pub from_rowid : ℕ

pub record HotQuery (P : Type 0) : Type 0 where
  pub page_rows : ℕ
  pub wanted : Tick P → Bool

module _ {P : Type 0} where
  -- The rows of the table with their numbers, in the order of insertion.
  unfoldable pub numbered : ℕ → List (Hot P) → List (HotRow P)
  numbered n [] = []
  numbered n (h ∷ hs) = record { rowid = n; hot = h } ∷ numbered (n + 1) hs

  abbrev pub row_ts : HotRow P → ℕ
  row_ts r = r.hot.tick.ts_ns

  -- ORDER BY ts_ns ASC, rowid ASC
  abbrev pub row_before : HotRow P → HotRow P → Bool
  row_before a b = ltb (row_ts a) (row_ts b) || (row_ts a == row_ts b && ltb a.rowid b.rowid)

  abbrev pub row_after : HotCursor → HotRow P → Bool
  row_after cur r =
      ltb cur.last_ts (row_ts r) || (row_ts r == cur.last_ts && leb cur.from_rowid r.rowid)

  -- A tick as it is read back: a negative `seq` is missing.
  unfoldable pub hot_tick : HotRow P → Tick P
  hot_tick r = record r.hot.tick { seq = cell_to_seq (seq_to_cell r.hot.tick.seq) }

  abbrev pub selected : HotQuery P → HotCursor → HotRow P → Bool
  selected q cur r = row_after cur r && q.wanted r.hot.tick

  unfoldable pub fetch_hot : HotQuery P → List (HotRow P) → HotCursor → List (HotRow P)
  unfolding sort_by
  fetch_hot q rows cur = take q.page_rows (sort_by row_before (filter (selected q cur) rows))

  abbrev pub cursor_at : HotRow P → HotCursor
  cursor_at r = record { last_ts = row_ts r; from_rowid = r.rowid + 1 }

  -- The cursor behind the last row of a page.
  unfoldable pub hot_cursor : HotRow P → List (HotRow P) → HotCursor
  hot_cursor r [] = cursor_at r
  hot_cursor r (s ∷ page) = hot_cursor s page

  -- The pages that the loop yields, on fuel, over a table that does not change.
  unfoldable pub hot_pages :
      ℕ → HotQuery P → List (HotRow P) → HotCursor → Option (List (List (Tick P)))
  unfolding fetch_hot hot_cursor hot_tick
  hot_pages zero q rows cur = none
  hot_pages (suc fuel) q rows cur = elim (fetch_hot q rows cur) [
    | [] ↦ some []
    | r ∷ page ↦ do
      pages ← hot_pages fuel q rows (hot_cursor r page)
      some (map hot_tick (r ∷ page) ∷ pages)
  ]

  -- `stream_ticks_since` with `canonical=False`.
  unfoldable pub stream_hot : ℕ → HotQuery P → ℕ → Journal P → Option (List (List (Tick P)))
  unfolding hot_pages numbered
  stream_hot fuel q since j =
      hot_pages fuel q (numbered 0 j.journal_hot) (record { last_ts = since; from_rowid = 0 })

  -- `load_recent`; rows of equal times come in the order of the table.
  unfoldable pub load_recent : Bool → ℕ → Journal P → List (Tick P)
  unfolding to_tick hot_tick numbered
  load_recent true since j = map to_tick (
      order_by (λ (c : Canonical P). c.ts_ns) (filter (λ c. leb since c.ts_ns) j.journal_canonical))
  load_recent false since j =
      map hot_tick (order_by row_ts (filter (λ r. leb since (row_ts r)) (numbered 0 j.journal_hot)))
