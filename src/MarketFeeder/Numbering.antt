-- ===== src/MarketFeeder/Numbering.antt =====
-- The sequence numbers of the events of one client.
use deepfeeder.MarketFeeder.Phases.{Closed, replay-Closed}
use deepfeeder.Base.{
  ℕ, ◌+◌, String, ◌≡◌, refl, sym, ap, ◌∙◌, subst, inl, inr, Bool, true, false, Option, none, some,
  List, [], ◌∷◌, ◌++◌, arith, Option-cases, Bool-cases, if◌then◌else◌,
}
use deepfeeder.Base.Dict.{lookup, insert, lookup-insert, str_eq_refl}
use deepfeeder.Listener.{Row, Bar, SchemaSpec, truthy, Batch}
use deepfeeder.MarketFeeder.Subscriptions.{
  Feeder, Request, Setup, feed_key, handle_of, subscribe, ensure_listener, add_handle,
}
use deepfeeder.MarketFeeder.Events.{
  Phase, snapshot, snapshot_boundary, Part, Event, Tables, part_rows, next_seq, emit_part,
  emit_tables, is_newer, catchup, catchup_since_ns, parts_of, emit_rows, emit_each, emit_snapshot,
  watermark, replay, attach_gapless, snapshot_range, rows_or_none,
}

module _ {F : Type 0} where
  -- The events have the numbers from `n` on, below `m`.
  abbrev pub Numbered : ℕ → ℕ → List (Event F) → Type 0
  Numbered n m [] = n ≡ m
  Numbered n m (e ∷ es) = (e.seq ≡ n) × Numbered (n + 1) m es

  -- The feeder's next number for the key goes on from the events'.
  abbrev pub Numbers : String → ℕ → Feeder F × List (Event F) → Type 0
  Numbers key n (f, es) = (m : ℕ) × (lookup key f.seqs ≡ some m) × Numbered n m es

  Numbered-append :
      (n m k : ℕ) (es fs : List (Event F))
      → Numbered n m es
      → Numbered m k fs
      → Numbered n k (es ++ fs)
  Numbered-append n m k [] fs a b = subst (λ x. Numbered x k fs) (sym a) b
  Numbered-append n m k (e ∷ es) fs a b = (a.0, Numbered-append (n + 1) m k es fs a.1 b)

  -- One step after another.
  Numbers-append :
      (key : String) (n : ℕ) (first : Feeder F × List (Event F))
      (then_ : Feeder F → Feeder F × List (Event F))
      → Numbers key n first
      → ((m : ℕ) → lookup key first.0.seqs ≡ some m → Numbers key m (then_ first.0))
      → Numbers key n ((then_ first.0).0, first.1 ++ (then_ first.0).1)
  Numbers-append key n (f, es) then_ (m, e, a) go =
      let (k, e', b) = go m e in (k, e', Numbered-append n m k es (then_ f).1 a b)

  next_seq-seqs :
      (key : String) (n : ℕ) (f : Feeder F)
      → lookup key f.seqs ≡ some n
      → ((next_seq key f).1 ≡ n) × (lookup key (next_seq key f).0.seqs ≡ some (n + 1))
  unfolding next_seq
  next_seq-seqs key n f e =
      rw e (refl, lookup-insert key key (n + 1) f.seqs ∙ rw (str_eq_refl key) refl)

  emit_part-Numbers :
      (phase : Phase) (key : String) (bars : Bool) (wm : Option ℕ) (part : Part)
      (rows : List (Bar F)) (n : ℕ) (f : Feeder F)
      → lookup key f.seqs ≡ some n
      → Numbers key n (emit_part phase key bars wm part rows f)
  unfolding emit_part
  emit_part-Numbers phase key bars wm part [] n f e = (n, e, refl)
  emit_part-Numbers phase key bars wm part (r ∷ rows) n f e =
      let (v, on) = next_seq-seqs key n f e in (n + 1, on, (v, refl))

  pub emit_tables-Numbers :
      (phase : Phase) (key : String) (bars : Bool) (wm : Option ℕ) (msg : Batch F)
      (parts : List Part) (n : ℕ) (f : Feeder F)
      → lookup key f.seqs ≡ some n
      → Numbers key n (emit_tables phase key bars wm msg parts f)
  unfolding emit_tables
  emit_tables-Numbers phase key bars wm msg [] n f e = (n, e, refl)
  emit_tables-Numbers phase key bars wm msg (p ∷ parts) n f e =
      Numbers-append key n (emit_part phase key bars wm p (part_rows msg p) f)
        (emit_tables phase key bars wm msg parts)
        (emit_part-Numbers phase key bars wm p (part_rows msg p) n f e)
        (λ m e'. emit_tables-Numbers phase key bars wm msg parts m _ e')

  catchup-Numbers :
      (key : String) (bars : Bool) (since : Option ℕ) (parts : List Part) (buf : List (Batch F))
      (n : ℕ) (f : Feeder F)
      → lookup key f.seqs ≡ some n
      → Numbers key n (catchup key bars since parts buf f)
  unfolding catchup
  catchup-Numbers key bars since parts [] n f e = (n, e, refl)
  catchup-Numbers key bars since parts (msg ∷ buf) n f e =
      Numbers-append key n
        (if is_newer since msg then emit_tables snapshot key bars none msg parts f else (f, []))
        (catchup key bars since parts buf)
        (elim (Bool-cases (is_newer since msg)) [
          | inl newer ↦ rw newer (emit_tables-Numbers snapshot key bars none msg parts n f e)
          | inr older ↦ rw older (n, e, refl)
        ])
        (λ m e'. catchup-Numbers key bars since parts buf m _ e')

  catchup_since_ns-Numbers :
      (key : String) (bars : Bool) (since : Option ℕ) (only : Bool) (n : ℕ) (f : Feeder F)
      → lookup key f.seqs ≡ some n
      → Numbers key n (catchup_since_ns key bars since only f)
  unfolding catchup_since_ns
  catchup_since_ns-Numbers key bars since only n f e = elim (Option-cases (lookup key f.lsn)) [
    | inl nobody ↦ rw (nobody, catchup_since_ns) (n, e, refl)
    | inr (l, there) ↦
        rw (there, catchup_since_ns) (catchup-Numbers key bars since (parts_of only) l.buf n f e)
  ]

  module _ (tables : Tables F) (setup : Setup) where
    emit_each-Numbers :
        (key : String) (bars : Bool) (wm : Option ℕ) (rows : List (Row F)) (n : ℕ) (f : Feeder F)
        → lookup key f.seqs ≡ some n
        → Numbers key n (emit_each tables setup key bars wm rows f)
    unfolding emit_each emit_rows
    emit_each-Numbers key bars wm [] n f e = (n, e, refl)
    emit_each-Numbers key bars wm (r ∷ rows) n f e =
        let (v, on) = next_seq-seqs key n f e in
        let (m, e', rest) = emit_each-Numbers key bars wm rows (n + 1) (next_seq key f).0 on in
        (m, e', (v, rest))

    emit_snapshot-Numbers :
        (batch : Bool) (key : String) (bars : Bool) (wm : Option ℕ) (rows : List (Row F)) (n : ℕ)
        (f : Feeder F)
        → lookup key f.seqs ≡ some n
        → Numbers key n (emit_snapshot tables setup batch key bars wm rows f)
    unfolding emit_snapshot emit_rows
    emit_snapshot-Numbers true key bars wm rows n f e =
        let (v, on) = next_seq-seqs key n f e in (n + 1, on, (v, refl))
    emit_snapshot-Numbers false key bars wm rows n f e = emit_each-Numbers key bars wm rows n f e

    bare_key :
        (r : Request)
        → r.exchange ≡ none
        → feed_key setup (record r { exchange = none }) ≡ feed_key setup r
    unfolding feed_key
    bare_key r bare = rw bare refl

    replay-Numbers :
        (r : Request) (bars only batch : Bool) (rows : List (Row F)) (n : ℕ) (f : Feeder F)
        → r.exchange ≡ none
        → lookup (feed_key setup r) f.seqs ≡ some n
        → Numbers (feed_key setup r) n (replay tables setup r bars only batch rows f)
    unfolding replay emit_rows
    replay-Numbers r bars only batch rows n f bare e =
        let key = feed_key setup r in
        let wm = watermark tables setup bars rows in
        let f1 = (emit_snapshot tables setup batch key bars wm rows f).0 in
        let caught : Feeder F → Feeder F × List (Event F) =
          λ g. catchup_since_ns (feed_key setup (record r { exchange = none })) bars wm only g in
        let boundary : Feeder F → Feeder F × List (Event F) = λ g. (
          (emit_rows tables setup snapshot_boundary none key bars wm [] g).0,
          (emit_rows tables setup snapshot_boundary none key bars wm [] g).1 ∷ [],
        ) in
        Numbers-append key n
          ((caught f1).0, (emit_snapshot tables setup batch key bars wm rows f).1 ++ (caught f1).1)
          boundary
          (Numbers-append key n (emit_snapshot tables setup batch key bars wm rows f) caught
            (emit_snapshot-Numbers batch key bars wm rows n f e)
            (λ m e'.
              subst (λ k. Numbers key m (catchup_since_ns k bars wm only f1))
                (sym (bare_key r bare)) (catchup_since_ns-Numbers key bars wm only m f1 e')))
          (λ k e''. let (v, on) = next_seq-seqs key k (caught f1).0 e'' in (k + 1, on, (v, refl)))

    subscribe-seqs :
        (r : Request) (cb : ℕ) (only : Bool) (f : Feeder F)
        → (subscribe setup r cb none only f).0.seqs ≡ f.seqs
    unfolding subscribe ensure_listener add_handle
    subscribe-seqs r cb only f = ground arith

    subscribe-handle :
        (r : Request) (spec : SchemaSpec) (cb : ℕ) (only : Bool) (f : Feeder F)
        → setup.schemas r.provider r.data_schema ≡ some spec
        → setup.opens (feed_key setup r) ≡ true
        → (subscribe setup r cb none only f).1 ≡ some (handle_of setup (feed_key setup r) cb)
    unfolding subscribe ensure_listener add_handle
    subscribe-handle r spec cb only f known opens = ground arith

    -- A client that attaches without an exchange is sent, if the schema is known and a listener opens
    -- or is there, events of the phase `snapshot` and then one boundary, numbered from zero without a
    -- gap. The feeder's next number for the key is the one after the boundary's, so that the live
    -- events that follow go on from it.
    pub attach_gapless-Numbers :
        (r : Request) (spec : SchemaSpec) (cb : ℕ) (only batch : Bool) (start : ℕ) (f : Feeder F)
        → r.exchange ≡ none
        → setup.schemas r.provider r.data_schema ≡ some spec
        → setup.opens (feed_key setup r) ≡ true
        → (h : String) × (es : List (Event F)) × ((attach_gapless tables setup r cb only batch start
              f).1
            ≡ some (h, es))
          × Closed es
          × Numbers
              (feed_key setup r)
              0
              ((attach_gapless tables setup r cb only batch start f).0, es)
    unfolding attach_gapless
    attach_gapless-Numbers r spec cb only batch start f bare known opens =
        let fresh : Feeder F = record f { seqs = insert (feed_key setup r) 0 f.seqs } in
        let handle = handle_of setup (feed_key setup r) cb in
        let f1 = (subscribe setup r cb none only fresh).0 in
        let rows = rows_or_none tables setup (snapshot_range tables setup r (some start) none) in
        let bars = truthy spec.bin_period_minutes in
        rw (known, subscribe-handle r spec cb only fresh known opens, attach_gapless)
          (
            handle,
            (replay tables setup r bars only batch rows f1).1,
            refl,
            replay-Closed tables setup r bars only batch rows f1,
            replay-Numbers r bars only batch rows 0 f1 bare (
                ap (lookup (feed_key setup r)) (subscribe-seqs r cb only fresh)
                ∙ lookup-insert (feed_key setup r) (feed_key setup r) 0 f.seqs
                ∙ rw (str_eq_refl (feed_key setup r)) refl),
          )
