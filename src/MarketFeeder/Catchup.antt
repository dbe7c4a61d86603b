-- ===== src/MarketFeeder/Catchup.antt =====
-- What a listener's buffer gives to a client that attaches late.
use deepfeeder.Base.{
  ℕ, ◌-◌, ◌≤◌, String, ◌≡◌, refl, sym, ap, ap₂, ◌∙◌, Bool, false, Option, none, some, List, [], ◌∷◌,
  ◌++◌, arith, map, map-append, filter, length, Bool-cases, inl, inr,
}
use deepfeeder.Base.Dict.{lookup}
use deepfeeder.Listener.{Bar, TableUpdate, Batch, Listener, drop_first}
use deepfeeder.Listener.Buffer.{after, batches, last_of, buf-is_last}
use deepfeeder.MarketFeeder.Subscriptions.{Feeder}
use deepfeeder.MarketFeeder.Events.{
  Phase, snapshot, live, Part, Event, part_rows, emit_part, emit_tables, is_newer, catchup,
  catchup_since_ns, parts_of, live_cb,
}

last_of-whole : {A : Type 0} (n : ℕ) (xs : List A) → length xs ≤ n → last_of n xs ≡ xs
last_of-whole {A} n xs h =
    let rest : length xs - n ≡ 0 = omega (arith, h) in ap (λ k. drop_first {A = A} k xs) rest

module _ {F : Type 0} where
  -- What an event carries, without its phase and its number.
  abbrev pub carried : Event F → Option Part × List (Bar F)
  carried e = (e.part, e.rows)

  -- The events of a client's callback for a list of batches.
  unfoldable pub live_cbs : String → Bool → List (Batch F) → Feeder F → Feeder F × List (Event F)
  live_cbs key bars [] f = (f, [])
  live_cbs key bars (msg ∷ msgs) f =
      let (f', es) = live_cb key bars msg f in
      let (f'', more) = live_cbs key bars msgs f' in (f'', es ++ more)

  abbrev carried_part : Part → List (Bar F) → List (Option Part × List (Bar F))
  carried_part part [] = []
  carried_part part (r ∷ rows) = (some part, r ∷ rows) ∷ []

  abbrev carried_parts : Batch F → List Part → List (Option Part × List (Bar F))
  carried_parts msg [] = []
  carried_parts msg (p ∷ parts) = carried_part p (part_rows msg p) ++ carried_parts msg parts

  abbrev carried_all : List Part → List (Batch F) → List (Option Part × List (Bar F))
  carried_all parts [] = []
  carried_all parts (msg ∷ msgs) = carried_parts msg parts ++ carried_all parts msgs

  emit_part-carried :
      (phase : Phase) (key : String) (bars : Bool) (wm : Option ℕ) (part : Part)
      (rows : List (Bar F)) (f : Feeder F)
      → map carried (emit_part phase key bars wm part rows f).1 ≡ carried_part part rows
  unfolding emit_part
  emit_part-carried phase key bars wm part [] f = refl
  emit_part-carried phase key bars wm part (r ∷ rows) f = refl

  emit_tables-carried :
      (phase : Phase) (key : String) (bars : Bool) (wm : Option ℕ) (msg : Batch F)
      (parts : List Part) (f : Feeder F)
      → map carried (emit_tables phase key bars wm msg parts f).1 ≡ carried_parts msg parts
  unfolding emit_tables
  emit_tables-carried phase key bars wm msg [] f = refl
  emit_tables-carried phase key bars wm msg (p ∷ parts) f =
      map-append carried (emit_part phase key bars wm p (part_rows msg p) f).1 _
      ∙ ap₂ ◌++◌ (emit_part-carried phase key bars wm p (part_rows msg p) f) (
          emit_tables-carried phase key bars wm msg parts
            (emit_part phase key bars wm p (part_rows msg p) f).0)

  live_cbs-carried :
      (key : String) (bars : Bool) (msgs : List (Batch F)) (f : Feeder F)
      → map carried (live_cbs key bars msgs f).1 ≡ carried_all (parts_of false) msgs
  unfolding live_cbs live_cb
  live_cbs-carried key bars [] f = refl
  live_cbs-carried key bars (msg ∷ msgs) f =
      map-append carried (live_cb key bars msg f).1 _
      ∙ ap₂ ◌++◌ (emit_tables-carried live key bars none msg (parts_of false) f)
          (live_cbs-carried key bars msgs (live_cb key bars msg f).0)

  catchup-carried :
      (key : String) (bars : Bool) (since : Option ℕ) (parts : List Part) (buf : List (Batch F))
      (f : Feeder F)
      → map carried (catchup key bars since parts buf f).1
        ≡ carried_all parts (filter (is_newer since) buf)
  unfolding catchup
  catchup-carried key bars since parts [] f = refl
  catchup-carried key bars since parts (msg ∷ buf) f = elim (Bool-cases (is_newer since msg)) [
    | inl newer ↦ rw newer (
        map-append carried (emit_tables snapshot key bars none msg parts f).1 _
        ∙ ap₂ ◌++◌ (emit_tables-carried snapshot key bars none msg parts f) (
            catchup-carried key bars since parts buf
              (emit_tables snapshot key bars none msg parts f).0))
    | inr older ↦ rw older (catchup-carried key bars since parts buf f)
  ]

  -- A client that asks for all parts of what came after a time, of a listener that has emitted no
  -- more batches than its buffer holds, is sent what a client that was there from the start was sent
  -- live of the batches after the time: the same rows of the same parts in the same order.
  pub catchup_since_ns-live :
      (key : String) (bars : Bool) (since : Option ℕ) (us : List (ℕ × TableUpdate F))
      (l : Listener F) (f g : Feeder F)
      → l.buf ≡ []
      → length (batches us l) ≤ l.buf_maxlen
      → lookup key f.lsn ≡ some (after us l)
      → map carried (catchup_since_ns key bars since false f).1
        ≡ map carried (live_cbs key bars (filter (is_newer since) (batches us l)) g).1
  unfolding catchup_since_ns
  catchup_since_ns-live key bars since us l f g empty fits there =
      rw (there, catchup_since_ns)
        (catchup-carried key bars since (parts_of false) (after us l).buf f
          ∙ ap (λ b. carried_all (parts_of false) (filter (is_newer since) b))
              (buf-is_last us l empty ∙ last_of-whole l.buf_maxlen (batches us l) fits)
          ∙ sym (live_cbs-carried key bars (filter (is_newer since) (batches us l)) g))
