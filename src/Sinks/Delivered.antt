-- ===== src/Sinks/Delivered.antt =====
-- The consumer of the live tables over the sink: every row of a round reaches its writer.
use deepfeeder.Base.{
  ℕ, ◌+◌, length, String, ◌≡◌, refl, sym, ap, ◌∙◌, Option, some, List, [], ◌∷◌, ◌++◌, append-nil,
  append_assoc, Bool, true, false, not, ◌&&◌, if◌then◌else◌, none, Bool-cases, inl, inr,
}
use deepfeeder.Contracts.{Envelope}
use deepfeeder.EventStore.Interface.{EventStore}
use deepfeeder.EventBus.{Bus, ack_dh}
use deepfeeder.Consumers.{DhLoop, write_all, write_round, ack_last}
use deepfeeder.Sinks.Registry.{PairDict, WriterSpec, WriteAttempt, attempt, write_envelope}
use deepfeeder.Sinks.Routing.{seen_keys, written_under, write_envelope-written_under}

module _ {V : Type 0} (refuses : String × List V → Bool) where
  -- Whether nothing raises, and the rows before the first exception.
  abbrev pub all_taken : List (Option (String × List V)) → Bool
  all_taken [] = true
  all_taken (none ∷ later) = false
  all_taken (some row ∷ later) = not (refuses row) && all_taken later

  abbrev pub before_raise : List (Option (String × List V)) → List (String × List V)
  before_raise [] = []
  before_raise (none ∷ later) = []
  before_raise (some row ∷ later) = if refuses row then [] else row ∷ before_raise later

  attempt-rows :
      (later : List (WriteAttempt V)) (sink : List (String × List V))
      → attempt refuses later sink ≡ (sink ++ before_raise later, not (all_taken later))
  unfolding attempt
  attempt-rows [] sink = ap (λ l. (l, false)) (sym (append-nil sink))
  attempt-rows (none ∷ later) sink = ap (λ l. (l, true)) (sym (append-nil sink))
  attempt-rows (some row ∷ later) sink = elim (Bool-cases (refuses row)) [
    | inl raised ↦ rw raised (ap (λ l. (l, true)) (sym (append-nil sink)))
    | inr taken ↦ rw taken (
        attempt-rows later (sink ++ row ∷ [])
        ∙ ap (λ l. (l, not (all_taken later))) (append_assoc sink (row ∷ []) (before_raise later)))
  ]

module _ {P V : Type 0} (st : EventStore P) (reg : PairDict (WriterSpec P V))
    (refuses : String × List V → Bool) where
  -- The sink that the loop is given: what its writers have written, oldest first.
  unfoldable pub dh_sink : Envelope P → List (String × List V) → List (String × List V) × Bool
  dh_sink env sink = attempt refuses (write_envelope reg env.rows) sink

  -- What an envelope asks for: the ticks of each provider and stream together.
  abbrev pub asked : Envelope P → List (Option (String × List V))
  asked env = written_under reg (seen_keys [] env.rows) env.rows

  abbrev pub all_written : List (Envelope P) → List (String × List V)
  all_written [] = []
  all_written (env ∷ envs) = before_raise refuses (asked env) ++ all_written envs

  -- The id of the last envelope that was written whole, or the one before.
  abbrev pub last_whole : Option ℕ → List (Envelope P) → Option ℕ
  last_whole last [] = last
  last_whole last (env ∷ envs) =
      last_whole (if all_taken refuses (asked env) then some env.batch_id else last) envs

  dh_sink-asked :
      (env : Envelope P) (sink : List (String × List V))
      → dh_sink env sink
        ≡ (sink ++ before_raise refuses (asked env), not (all_taken refuses (asked env)))
  unfolding dh_sink
  dh_sink-asked env sink =
      ap (λ l. attempt refuses l sink) (write_envelope-written_under reg env.rows)
      ∙ attempt-rows refuses (asked env) sink

  -- The loop after an envelope of which `rows` were written, whole or not.
  abbrev step_by :
      Envelope P → DhLoop st dh_sink → List (String × List V) × Bool → DhLoop st dh_sink
  step_by env s (sink, raised) = if raised then record s { sink = sink } else record s {
    sink = sink;
    last = some env.batch_id;
    envs_total = s.envs_total + 1;
    rows_total = s.rows_total + length env.rows;
  }

  step_by-fields :
      (env : Envelope P) (s : DhLoop st dh_sink) (sink : List (String × List V)) (whole : Bool)
      → ((step_by env s (sink, not whole)).sink ≡ sink)
        × ((step_by env s (sink, not whole)).last ≡ (if whole then some env.batch_id else s.last))
        × ((step_by env s (sink, not whole)).bus ≡ s.bus)
  step_by-fields env s sink true = (refl, refl, refl)
  step_by-fields env s sink false = (refl, refl, refl)

  -- A round's loop writes its envelopes and goes on behind the last one that was written whole.
  written_all :
      (envs : List (Envelope P)) (s : DhLoop st dh_sink)
      → ((write_all st dh_sink envs s).sink ≡ s.sink ++ all_written envs)
        × ((write_all st dh_sink envs s).last ≡ last_whole s.last envs)
        × ((write_all st dh_sink envs s).bus ≡ s.bus)
  unfolding write_all
  written_all [] s = (sym (append-nil s.sink), refl, refl)
  written_all (env ∷ envs) s =
      let whole = all_taken refuses (asked env) in
      let rows = s.sink ++ before_raise refuses (asked env) in
      let s' = step_by env s (rows, not whole) in
      let e : write_all st dh_sink (env ∷ envs) s ≡ write_all st dh_sink envs s' =
        ap (λ r. write_all st dh_sink envs (step_by env s r)) (dh_sink-asked env s.sink) in
      let (sink, last, bus) = written_all envs s' in
      let (sink', last', bus') = step_by-fields env s rows whole in
      (
        ap (λ (l : DhLoop st dh_sink). l.sink) e
            ∙ sink
            ∙ ap (λ l. l ++ all_written envs) sink'
            ∙ append_assoc s.sink (before_raise refuses (asked env)) (all_written envs),
        ap (λ (l : DhLoop st dh_sink). l.last) e ∙ last ∙ ap (λ o. last_whole o envs) last',
        ap (λ (l : DhLoop st dh_sink). l.bus) e ∙ bus ∙ bus',
      )

  abbrev pub acked : Option ℕ → Bus st → Bus st
  acked none b = b
  acked (some id) b = ack_dh st id b

  acked_last :
      (o : Option ℕ) (l : DhLoop st dh_sink)
      → ((ack_last st dh_sink o l).sink ≡ l.sink) × ((ack_last st dh_sink o l).bus ≡ acked o l.bus)
  unfolding ack_last
  acked_last none l = (refl, refl)
  acked_last (some id) l = (refl, refl)

  -- A round of the consumer of the live tables asks its writers for its envelopes one after the other, for each the ticks of each provider and stream together, in the order of their first ticks and in the envelope's own order. An envelope is written up to the first exception of a flattener or a writer, and the round goes on with the next one; it acknowledges the last envelope of this round, or else of an earlier one, in which nothing raised.
  pub write_round-written :
      (env : Envelope P) (envs : List (Envelope P)) (s : DhLoop st dh_sink)
      → ((write_round st dh_sink (env ∷ envs) s).sink ≡ s.sink ++ all_written (env ∷ envs))
        × ((write_round st dh_sink (env ∷ envs) s).bus
            ≡ acked (last_whole s.last (env ∷ envs)) s.bus)
  unfolding write_round
  write_round-written env envs s =
      let (sink, last, bus) = written_all (env ∷ envs) s in
      let s' = write_all st dh_sink (env ∷ envs) s in
      let (sink', bus') = acked_last s'.last s' in
      (
        sink' ∙ sink,
        bus' ∙ ap (λ o. acked o s'.bus) last ∙ ap (acked (last_whole s.last (env ∷ envs))) bus,
      )
