-- ===== src/Client/Heard.antt =====
-- What the callback of a stream hears, over failed and ended connections.
use deepfeeder.Base.{
  ℕ, ◌+◌, ◌≤◌, ◌≡◌, refl, sym, ap, ◌∙◌, Bool, true, false, Option, List, [], ◌∷◌, ◌++◌, append-nil,
  append_assoc, arith, subst,
}
use deepfeeder.Json.{Json}
use deepfeeder.Client.Envelopes.{Readings, RawEnvelope, ClientEnvelope, adapt_envelope}
use deepfeeder.Client.Connection.{
  Recv, timed_out, ended, blank, garbled, no_object, envelope, Look, Attempt, refused, accepted,
  StreamRun, StreamOf, error_envelope, listed, deliver, handle_raw, is_idle, received, read_looks,
  connect, run_stream,
}

-- When the last frame was handled, after an answer that is handled at `now`.
abbrev time_after : {N : Type 0} → ℕ → ℕ → Recv N → ℕ
time_after last now timed_out = last
time_after last now ended = last
time_after last now blank = last
time_after last now garbled = last
time_after last now no_object = now
time_after last now (envelope env) = now

abbrev goes_on : {N : Type 0} → Recv N → Bool
goes_on timed_out = true
goes_on ended = false
goes_on blank = true
goes_on garbled = true
goes_on no_object = true
goes_on (envelope env) = true

-- No look is stopped, idle, or the end of the connection.
abbrev pub IsLively : {N : Type 0} → ℕ → ℕ → List (Look N) → Type 0
IsLively idle last [] = Unit
IsLively idle last (l ∷ ls) =
    (l.stops ≡ false)
    × (l.looked_at ≤ last + idle)
    × (goes_on l.recv ≡ true)
    × IsLively idle (time_after last l.handled_at l.recv) ls

abbrev pub IsSteady : {N : Type 0} → ℕ → List (Bool × Attempt N) → Type 0
IsSteady idle [] = Unit
IsSteady idle ((stops, refused message) ∷ later) = (stops ≡ false) × IsSteady idle later
IsSteady idle ((stops, accepted now ls) ∷ later) =
    (stops ≡ false) × IsLively idle now ls × IsSteady idle later

module _ {N F T : Type 0} (rd : Readings N F T) where
  abbrev read_of : Recv N → List (ClientEnvelope N F T)
  read_of timed_out = []
  read_of ended = []
  read_of blank = []
  read_of garbled = []
  read_of no_object = []
  read_of (envelope env) = listed (adapt_envelope rd env)

  -- The envelopes among the answers of a connection.
  abbrev pub read_from : List (Look N) → List (ClientEnvelope N F T)
  read_from [] = []
  read_from (l ∷ ls) = read_of l.recv ++ read_from ls

  abbrev pub sent_in : StreamOf → List (Bool × Attempt N) → List (ClientEnvelope N F T)
  sent_in o [] = []
  sent_in o ((stops, refused message) ∷ later) =
      listed (adapt_envelope rd (error_envelope o)) ++ sent_in o later
  sent_in o ((stops, accepted now ls) ∷ later) = read_from ls ++ sent_in o later

module _ {N F T : Type 0} (rd : Readings N F T) (int : Json N → Option ℕ) (o : StreamOf) where
  -- From `s` to `s'` the callback heard `es`.
  abbrev Hears : StreamRun N F T → StreamRun N F T → List (ClientEnvelope N F T) → Type 0
  Hears s s' es = s'.heard ≡ s.heard ++ es

  handle_raw-Hears :
      (now : ℕ) (env : RawEnvelope N) (s : StreamRun N F T)
      → Hears s (handle_raw rd int now env s) (listed (adapt_envelope rd env))
  unfolding handle_raw deliver
  handle_raw-Hears now env s = refl

  handle_raw-time :
      (now : ℕ) (env : RawEnvelope N) (s : StreamRun N F T)
      → (handle_raw rd int now env s).last_frame_ts ≡ now
  unfolding handle_raw deliver
  handle_raw-time now env s = refl

  -- An answer that does not end the connection, where the rest of the inner loop hears what is read.
  received-Hears :
      (more : StreamRun N F T → StreamRun N F T) (ls : List (Look N))
      → ((s : StreamRun N F T)
          → IsLively o.idle_timeout s.last_frame_ts ls
          → Hears s (more s) (read_from rd ls))
      → (now : ℕ) (r : Recv N) (s : StreamRun N F T) → goes_on r ≡ true
      → IsLively o.idle_timeout (time_after s.last_frame_ts now r) ls
      → Hears s (received rd int more now r s) (read_of rd r ++ read_from rd ls)
  received-Hears more ls hears now timed_out s on alive = hears s alive
  received-Hears more ls hears now ended s on alive = absurd (ground (arith, on))
  received-Hears more ls hears now blank s on alive = hears s alive
  received-Hears more ls hears now garbled s on alive = hears s alive
  received-Hears more ls hears now no_object s on alive =
      hears (record s { last_frame_ts = now }) alive
  received-Hears more ls hears now (envelope env) s on alive =
      hears (handle_raw rd int now env s)
        (subst (λ t. IsLively o.idle_timeout t ls) (sym (handle_raw-time now env s)) alive)
      ∙ ap (λ l. l ++ read_from rd ls) (handle_raw-Hears now env s)
      ∙ append_assoc s.heard (listed (adapt_envelope rd env)) (read_from rd ls)

  read_looks-Hears :
      (ls : List (Look N)) (s : StreamRun N F T)
      → IsLively o.idle_timeout s.last_frame_ts ls
      → Hears s (read_looks rd int o ls s) (read_from rd ls)
  unfolding read_looks
  read_looks-Hears [] s lively = sym (append-nil s.heard)
  read_looks-Hears (l ∷ ls) s (h, fresh, goes, lively) =
      let hears = read_looks-Hears ls in
      let busy : is_idle rd int o l.looked_at s ≡ false = ground (arith, fresh) in
      rw (h, busy)
        (received-Hears (read_looks rd int o ls) ls hears l.handled_at l.recv s goes lively)

  connect-Hears :
      (a : Attempt N) (s : StreamRun N F T)
      → IsSteady o.idle_timeout ((false, a) ∷ [])
      → Hears s (connect rd int o a s) (sent_in rd o ((false, a) ∷ []))
  unfolding connect deliver
  connect-Hears (refused message) s steady = ap (λ l. s.heard ++ l) (sym (append-nil _))
  connect-Hears (accepted now ls) s (h, lively, steady) =
      read_looks-Hears ls
        (record s { reconnects = s.reconnects + 1; backoff = 1; last_frame_ts = now }) lively
      ∙ ap (λ l. s.heard ++ l) (sym (append-nil (read_from rd ls)))

  -- While the stream is not stopped, no connection ends by itself before its last answer, and at each turn the last frame is not older than the idle timeout, the callback hears every envelope of every connection that the client can adapt, in order and once, with an error envelope for each failed attempt, whatever timeouts, empty answers and texts that are no JSON come between.
  pub run_stream-hears :
      (attempts : List (Bool × Attempt N)) (s : StreamRun N F T)
      → IsSteady o.idle_timeout attempts
      → (run_stream rd int o attempts s).heard ≡ s.heard ++ sent_in rd o attempts
  unfolding run_stream
  run_stream-hears [] s steady = sym (append-nil s.heard)
  run_stream-hears ((stops, refused message) ∷ later) s (h, steady) =
      let s' = connect rd int o (refused message) s in
      rw h (
        run_stream-hears later s' steady
        ∙ ap (λ l. l ++ sent_in rd o later) (connect-Hears (refused message) s (refl, tt))
        ∙ append_assoc s.heard _ (sent_in rd o later)
        ∙ ap (λ l. s.heard ++ (l ++ sent_in rd o later))
            (append-nil (listed (adapt_envelope rd (error_envelope o)))))
  run_stream-hears ((stops, accepted now ls) ∷ later) s (h, lively, steady) =
      let s' = connect rd int o (accepted now ls) s in
      rw h (
        run_stream-hears later s' steady
        ∙ ap (λ l. l ++ sent_in rd o later) (connect-Hears (accepted now ls) s (refl, lively, tt))
        ∙ append_assoc s.heard _ (sent_in rd o later)
        ∙ ap (λ l. s.heard ++ (l ++ sent_in rd o later)) (append-nil (read_from rd ls)))
