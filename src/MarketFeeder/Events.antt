-- ===== src/MarketFeeder/Events.antt =====
-- The events that a client is sent, numbered for each key: `_emit_tables_as_events`,
-- `catchup_since_ns`, `snapshot_range` and `attach_gapless`. Rows keep all their columns; `emit`
-- takes every event; between the steps of an attach no other thread emits.
use deepfeeder.Base.{
  ℕ, ◌+◌, String, Bool, true, false, ◌&&◌, ◌||◌, not, Option, none, some, List, [], ◌∷◌, ◌++◌,
  filter, leb, ltb, str_eq, if◌then◌else◌,
}
use deepfeeder.Base.Options.{◌>>=◌}
use deepfeeder.Base.Dict.{lookup, insert}
use deepfeeder.Base.Sort.{order_by}
use deepfeeder.Listener.{Row, Bar, full, SchemaSpec, truthy, Batch, all_full}
use deepfeeder.Listener.Streams.{rows_of}
use deepfeeder.MarketFeeder.Subscriptions.{Feeder, Request, Setup, or_zero, feed_key, subscribe}

pub data Phase : Type 0 where
  snapshot snapshot_boundary live : Phase

pub data Part : Type 0 where
  added updated completed : Part

-- `row_type` is "bar" if `is_bar`; the names of the stream are those of the request.
pub record Event (F : Type 0) : Type 0 where
  pub phase : Phase
  pub part : Option Part
  pub is_bar : Bool
  pub rows : List (Bar F)
  pub watermark_ns : Option ℕ
  pub seq : ℕ

-- What Deephaven holds: the rows of a provider's table, whether it has the column `Exchange`, a row's
-- exchange, and whether a row of a snapshot is marked as final.
pub record Tables (F : Type 0) : Type 0 where
  pub base : String → String → List (Row F)
  pub has_exchange : String → String → Bool
  pub exchange_of : Row F → String
  pub marked_final : Row F → Bool

abbrev pub parts_of : Bool → List Part
parts_of true = completed ∷ []
parts_of false = added ∷ updated ∷ completed ∷ []

abbrev pub watermark_of : Phase → Option ℕ → Option ℕ
watermark_of snapshot wm = wm
watermark_of snapshot_boundary wm = none
watermark_of live wm = none

module _ {F : Type 0} where
  abbrev pub part_rows : Batch F → Part → List (Bar F)
  part_rows msg added = all_full (rows_of msg.added)
  part_rows msg updated = all_full (rows_of msg.updated)
  part_rows msg completed = rows_of msg.completed

  -- `_next_seq`, the number it returns in the second place.
  unfoldable pub next_seq : String → Feeder F → Feeder F × ℕ
  next_seq key f =
      let v = or_zero (lookup key f.seqs) in (record f { seqs = insert key (v + 1) f.seqs }, v)

  -- One part of a message; an empty one makes no event.
  unfoldable pub emit_part :
      Phase → String → Bool → Option ℕ → Part → List (Bar F) → Feeder F → Feeder F × List (Event F)
  unfolding next_seq
  emit_part phase key bars wm part [] f = (f, [])
  emit_part phase key bars wm part (r ∷ rows) f =
      let (f', v) = next_seq key f in
      (
        f',
        record {
          phase = phase;
          part = some part;
          is_bar = bars;
          rows = r ∷ rows;
          watermark_ns = watermark_of phase wm;
          seq = v;
        }
            ∷ [],
      )

  -- `_emit_tables_as_events`
  unfoldable pub emit_tables :
      Phase → String → Bool → Option ℕ → Batch F → List Part → Feeder F → Feeder F × List (Event F)
  unfolding emit_part
  emit_tables phase key bars wm msg [] f = (f, [])
  emit_tables phase key bars wm msg (p ∷ parts) f =
      let (f', es) = emit_part phase key bars wm p (part_rows msg p) f in
      let (f'', more) = emit_tables phase key bars wm msg parts f' in (f'', es ++ more)

  abbrev pub is_newer : Option ℕ → Batch F → Bool
  is_newer none msg = true
  is_newer (some since) msg = ltb since msg.ts_ns

  -- The loop of `catchup_since_ns` over the buffer.
  unfoldable pub catchup :
      String → Bool → Option ℕ → List Part → List (Batch F) → Feeder F → Feeder F × List (Event F)
  unfolding emit_tables
  catchup key bars since parts [] f = (f, [])
  catchup key bars since parts (msg ∷ buf) f =
      let (f', es) =
        if is_newer since msg then emit_tables snapshot key bars none msg parts f else (f, []) in
      let (f'', more) = catchup key bars since parts buf f' in (f'', es ++ more)

  unfoldable pub catchup_since_ns :
      String → Bool → Option ℕ → Bool → Feeder F → Feeder F × List (Event F)
  unfolding catchup
  catchup_since_ns key bars since only_completed f = elim (lookup key f.lsn) [
    | none ↦ (f, [])
    | some l ↦ catchup key bars since (parts_of only_completed) l.buf f
  ]

  -- `_live_cb`, on a batch that the listener delivers.
  unfoldable pub live_cb : String → Bool → Batch F → Feeder F → Feeder F × List (Event F)
  unfolding emit_tables
  live_cb key bars msg f = emit_tables live key bars none msg (parts_of false) f

  -- What the subscription of a callback passes to it; with `only_completed`, none of a batch that
  -- completes nothing.
  unfoldable pub slim : Bool → Batch F → Option (Batch F)
  slim false msg = some msg
  slim true msg = elim (rows_of msg.completed) [
    | [] ↦ none
    | b ∷ rows ↦ some (record msg { added = none; updated = none })
  ]

  module _ (tables : Tables F) (setup : Setup) where
    abbrev pub on_exchange : Request → Row F → Bool
    on_exchange r row = elim r.exchange [
      | none ↦ true
      | some e ↦
          str_eq e ""
          || not (tables.has_exchange r.provider r.data_schema)
          || str_eq (tables.exchange_of row) (setup.upper e)
    ]

    abbrev pub from_start : Option ℕ → Row F → Bool
    from_start none row = true
    from_start (some s) row = leb (setup.second_of s) row.ts

    abbrev pub to_end : Option ℕ → Row F → Bool
    to_end none row = true
    to_end (some e) row = leb row.ts (setup.second_of e)

    abbrev pub in_range : SchemaSpec → Request → Option ℕ → Option ℕ → Row F → Bool
    in_range spec r start end row =
        (str_eq row.symbol r.symbol && on_exchange r row)
        && (not (spec.has_is_empty && row.is_empty) && (from_start start row && to_end end row))

    -- `snapshot_range`; `none` is an exception.
    unfoldable pub snapshot_range : Request → Option ℕ → Option ℕ → Option (List (Row F))
    snapshot_range r start end = do
      spec ← setup.schemas r.provider r.data_schema
      some (
          order_by (λ (row : Row F). row.ts)
            (filter (in_range spec r start end) (tables.base r.provider r.data_schema)))

    -- The row whose time is the watermark: the last, or the one before it where the last is an open
    -- bar.
    unfoldable pub watermark_row : Bool → List (Row F) → Option (Row F)
    watermark_row bars [] = none
    watermark_row bars (r ∷ []) = some r
    watermark_row bars (r ∷ s ∷ []) = if bars && not (tables.marked_final s) then some r else some s
    watermark_row bars (r ∷ s ∷ t ∷ rows) = watermark_row bars (s ∷ t ∷ rows)

    abbrev pub time_of : Option (Row F) → Option ℕ
    time_of none = none
    time_of (some r) = some r.ts

    unfoldable pub watermark : Bool → List (Row F) → Option ℕ
    unfolding watermark_row
    watermark bars rows = time_of (watermark_row bars rows)

    -- One event of a snapshot, or of its boundary.
    unfoldable pub emit_rows :
        Phase
        → Option Part
        → String
        → Bool
        → Option ℕ
        → List (Bar F)
        → Feeder F
        → Feeder F × Event F
    unfolding next_seq
    emit_rows phase part key bars wm rows f =
        let (f', v) = next_seq key f in
        (
          f',
          record {
            phase = phase;
            part = part;
            is_bar = bars;
            rows = rows;
            watermark_ns = wm;
            seq = v;
          },
        )

    -- A snapshot without `snapshot_batch`: an event for each row.
    unfoldable pub emit_each :
        String → Bool → Option ℕ → List (Row F) → Feeder F → Feeder F × List (Event F)
    unfolding emit_rows
    emit_each key bars wm [] f = (f, [])
    emit_each key bars wm (r ∷ rows) f =
        let (f', e) = emit_rows snapshot (some completed) key bars wm (full r ∷ []) f in
        let (f'', es) = emit_each key bars wm rows f' in (f'', e ∷ es)

    unfoldable pub emit_snapshot :
        Bool → String → Bool → Option ℕ → List (Row F) → Feeder F → Feeder F × List (Event F)
    unfolding emit_rows emit_each
    emit_snapshot true key bars wm rows f =
        let (f', e) = emit_rows snapshot (some completed) key bars wm (all_full rows) f in
        (f', e ∷ [])
    emit_snapshot false key bars wm rows f = emit_each key bars wm rows f

    -- What `attach_gapless` emits once it has subscribed: the snapshot, what the buffer holds after
    -- the watermark, and the boundary. The buffer is looked for without the exchange.
    unfoldable pub replay :
        Request → Bool → Bool → Bool → List (Row F) → Feeder F → Feeder F × List (Event F)
    unfolding emit_snapshot catchup_since_ns emit_rows watermark
    replay r bars only_completed batch rows f =
        let key = feed_key setup r in
        let wm = watermark bars rows in
        let (f1, snaps) = emit_snapshot batch key bars wm rows f in
        let (f2, buffered) =
          catchup_since_ns (feed_key setup (record r { exchange = none })) bars wm only_completed
            f1 in
        let (f3, boundary) = emit_rows snapshot_boundary none key bars wm [] f2 in
        (f3, snaps ++ buffered ++ boundary ∷ [])

    abbrev pub rows_or_none : Option (List (Row F)) → List (Row F)
    rows_or_none none = []
    rows_or_none (some rows) = rows

    -- `attach_gapless` from `start`, with the handle and the events; `none` is an exception.
    unfoldable pub attach_gapless :
        Request → ℕ → Bool → Bool → ℕ → Feeder F → Feeder F × Option (String × List (Event F))
    unfolding replay snapshot_range
    attach_gapless r cb only_completed batch start f =
        elim (setup.schemas r.provider r.data_schema) [
          | none ↦ (f, none)
          | some spec ↦
              let (f1, handle) =
                subscribe setup r cb none only_completed
                  (record f { seqs = insert (feed_key setup r) 0 f.seqs }) in
              elim handle [
                | none ↦ (f1, none)
                | some h ↦
                    let (f2, es) =
                      replay r (truthy spec.bin_period_minutes) only_completed batch
                        (rows_or_none (snapshot_range r (some start) none)) f1 in
                    (f2, some (h, es))
              ]
        ]
