-- ===== src/MarketFeeder/Phases.antt =====
-- The phases of the events of an attach.
use deepfeeder.Base.{
  ℕ, String, ◌≡◌, refl, Bool, true, false, Option, none, List, [], ◌∷◌, ◌++◌, All, All-append,
  Bool-cases, Option-cases, inl, inr,
}
use deepfeeder.Base.Dict.{lookup}
use deepfeeder.Listener.{Row, Bar, Batch}
use deepfeeder.MarketFeeder.Subscriptions.{Feeder, Request, Setup, feed_key}
use deepfeeder.MarketFeeder.Events.{
  Phase, snapshot, snapshot_boundary, Part, Event, Tables, part_rows, emit_part, emit_tables,
  is_newer, catchup, catchup_since_ns, parts_of, emit_rows, emit_each, emit_snapshot, watermark,
  replay,
}

module _ {F : Type 0} where
  abbrev pub AllPhase : Phase → List (Event F) → Type 0
  AllPhase phase es = All (λ e. e.phase ≡ phase) es

  -- Events of a snapshot, and then the boundary.
  abbrev pub Closed : List (Event F) → Type 0
  Closed es =
      (snaps : List (Event F)) × (boundary : Event F) × (es ≡ snaps ++ boundary ∷ [])
      × AllPhase snapshot snaps
      × (boundary.phase ≡ snapshot_boundary)

  emit_part-AllPhase :
      (phase : Phase) (key : String) (bars : Bool) (wm : Option ℕ) (part : Part)
      (rows : List (Bar F)) (f : Feeder F)
      → AllPhase phase (emit_part phase key bars wm part rows f).1
  unfolding emit_part
  emit_part-AllPhase phase key bars wm part [] f = tt
  emit_part-AllPhase phase key bars wm part (r ∷ rows) f = (refl, tt)

  emit_tables-AllPhase :
      (phase : Phase) (key : String) (bars : Bool) (wm : Option ℕ) (msg : Batch F)
      (parts : List Part) (f : Feeder F)
      → AllPhase phase (emit_tables phase key bars wm msg parts f).1
  unfolding emit_tables
  emit_tables-AllPhase phase key bars wm msg [] f = tt
  emit_tables-AllPhase phase key bars wm msg (p ∷ parts) f =
      let (f', es) = emit_part phase key bars wm p (part_rows msg p) f in
      All-append _ es (emit_tables phase key bars wm msg parts f').1
        (emit_part-AllPhase phase key bars wm p (part_rows msg p) f)
        (emit_tables-AllPhase phase key bars wm msg parts f')

  catchup-AllPhase :
      (key : String) (bars : Bool) (since : Option ℕ) (parts : List Part) (buf : List (Batch F))
      (f : Feeder F)
      → AllPhase snapshot (catchup key bars since parts buf f).1
  unfolding catchup
  catchup-AllPhase key bars since parts [] f = tt
  catchup-AllPhase key bars since parts (msg ∷ buf) f = elim (Bool-cases (is_newer since msg)) [
    | inl newer ↦
        let (f', es) = emit_tables snapshot key bars none msg parts f in
        rw newer (
          All-append _ es (catchup key bars since parts buf f').1
            (emit_tables-AllPhase snapshot key bars none msg parts f)
            (catchup-AllPhase key bars since parts buf f'))
    | inr older ↦ rw older (catchup-AllPhase key bars since parts buf f)
  ]

  catchup_since_ns-AllPhase :
      (key : String) (bars : Bool) (since : Option ℕ) (only : Bool) (f : Feeder F)
      → AllPhase snapshot (catchup_since_ns key bars since only f).1
  unfolding catchup_since_ns
  catchup_since_ns-AllPhase key bars since only f = elim (Option-cases (lookup key f.lsn)) [
    | inl nobody ↦ rw (nobody, catchup_since_ns) tt
    | inr (l, there) ↦
        rw (there, catchup_since_ns) (catchup-AllPhase key bars since (parts_of only) l.buf f)
  ]

  module _ (tables : Tables F) (setup : Setup) where
    emit_each-AllPhase :
        (key : String) (bars : Bool) (wm : Option ℕ) (rows : List (Row F)) (f : Feeder F)
        → AllPhase snapshot (emit_each tables setup key bars wm rows f).1
    unfolding emit_each emit_rows
    emit_each-AllPhase key bars wm [] f = tt
    emit_each-AllPhase key bars wm (r ∷ rows) f = (refl, emit_each-AllPhase key bars wm rows _)

    emit_snapshot-AllPhase :
        (batch : Bool) (key : String) (bars : Bool) (wm : Option ℕ) (rows : List (Row F))
        (f : Feeder F)
        → AllPhase snapshot (emit_snapshot tables setup batch key bars wm rows f).1
    unfolding emit_snapshot emit_rows
    emit_snapshot-AllPhase true key bars wm rows f = (refl, tt)
    emit_snapshot-AllPhase false key bars wm rows f = emit_each-AllPhase key bars wm rows f

    pub replay-Closed :
        (r : Request) (bars only batch : Bool) (rows : List (Row F)) (f : Feeder F)
        → Closed (replay tables setup r bars only batch rows f).1
    unfolding replay emit_rows
    replay-Closed r bars only batch rows f =
        let key = feed_key setup r in
        let wm = watermark tables setup bars rows in
        let (f1, snaps) = emit_snapshot tables setup batch key bars wm rows f in
        let (f2, buffered) =
          catchup_since_ns (feed_key setup (record r { exchange = none })) bars wm only f1 in
        (
          snaps ++ buffered,
          (emit_rows tables setup snapshot_boundary none key bars wm [] f2).1,
          refl,
          All-append _ snaps buffered (emit_snapshot-AllPhase batch key bars wm rows f) (
              catchup_since_ns-AllPhase (feed_key setup (record r { exchange = none })) bars wm only
                f1),
          refl,
        )
