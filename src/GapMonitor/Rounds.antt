-- ===== src/GapMonitor/Rounds.antt =====
-- A whole round of the monitor's loop over the envelopes that it fetched.
use deepfeeder.GapMonitor.Sightings.{Scanned-quiet}
use deepfeeder.Base.{
  ℕ, ◌+◌, ◌<◌, String, ◌≡◌, refl, inl, inr, none, some, List, [], ◌∷◌, ◌++◌, arith, eq_iff,
  Option-cases, ◌⊎◌, subst, append-nil,
}
use deepfeeder.Contracts.{Envelope}
use deepfeeder.Planner.{Supply}
use deepfeeder.Watermarks.{Watermarks}
use deepfeeder.GapMonitor.Scan.{
  Monitor, get_last_seq, set_or_keep, scan_envelopes, poll, resume_batch, wm_batch_scope,
  wm_lastseq_scope,
}
use deepfeeder.GapMonitor.Known.{known}
use deepfeeder.GapMonitor.Complete.{Scanned, Scanned-append}
use deepfeeder.GapMonitor.Rows.{trades, scan_rows-Scanned}
use deepfeeder.GapMonitor.Replay.{scopes_differ}

abbrev pub env_trades : {P : Type 0} → List (Envelope P) → List (String × ℕ)
env_trades [] = []
env_trades (env ∷ envs) = trades env.rows ++ env_trades envs

abbrev pub last_id : {P : Type 0} → List (Envelope P) → ℕ → ℕ
last_id [] bid = bid
last_id (env ∷ envs) bid = last_id envs env.batch_id

module _ (w : Watermarks) where
  -- The batch cursor is no symbol's last id.
  known-set_or_keep :
      (symbol : String) (bid : ℕ) (m : Monitor w)
      → known w symbol (record m { journal = set_or_keep w bid wm_batch_scope m.journal })
        ≡ known w symbol m
  unfolding get_last_seq
  known-set_or_keep symbol bid m =
      elim (Option-cases (w.set_watermark bid wm_batch_scope m.journal)) [
        | inl raised ↦ ground arith
        | inr (s', written) ↦ ground (
          arith,
          w.get-set bid wm_batch_scope (wm_lastseq_scope symbol) m.journal s',
          scopes_differ symbol,
        )
      ]

module _ (w : Watermarks) (supply : Supply) {P : Type 0} where
  scan_envelopes-Scanned :
      (envs : List (Envelope P)) (bid : ℕ) (m : Monitor w)
      → 0 < m.planner.max_ids_per_task
      → (m' : Monitor w) × (scan_envelopes w supply envs (some bid) m
          ≡ some (m', some (last_id envs bid)))
        × Scanned w (env_trades envs) m m'
  unfolding scan_envelopes
  scan_envelopes-Scanned [] bid m room = (m, refl, Scanned-quiet w m m refl (λ symbol. refl))
  scan_envelopes-Scanned (env ∷ envs) bid m room =
      let (m', one, a) = scan_rows-Scanned w supply env.rows m room in
      let (m'', more, b) = scan_envelopes-Scanned envs env.batch_id m' (omega (arith, a.limit)) in
      (m'', rw one more, Scanned-append w (trades env.rows) (env_trades envs) m m' m'' a b)

  -- If a task may hold an id, a round over at least one envelope ends. Each trade id between what was known of a symbol
  -- before and what is known after it was seen in the round, or is in a new task of that symbol;
  -- each new task stays between those ids; older tasks are unchanged. The next round fetches from
  -- the batch after the last one, and so does a restart, unless the journal is one that can raise on
  -- a write of that batch cursor.
  pub poll-Scanned :
      (env : Envelope P) (envs : List (Envelope P)) (m : Monitor w) (next_batch : ℕ)
      → 0 < m.planner.max_ids_per_task
      → (m' : Monitor w) × (poll w supply (env ∷ envs) (m, next_batch)
          ≡ some (m', last_id envs env.batch_id + 1))
        × Scanned w (env_trades (env ∷ envs)) m m'
        × ((resume_batch w m'.journal ≡ last_id envs env.batch_id + 1)
            ⊎ ((s : w.Store) × (w.set_watermark (last_id envs env.batch_id) wm_batch_scope s
                  ≡ none)))
  unfolding poll resume_batch scan_envelopes
  poll-Scanned env envs m next_batch room =
      let bid = last_id envs env.batch_id in
      let (m', done, sc) = scan_envelopes-Scanned (env ∷ envs) env.batch_id m room in
      let m'' : Monitor w = record m' { journal = set_or_keep w bid wm_batch_scope m'.journal } in
      (
        m'',
        ground (arith, done),
        subst (λ es. Scanned w es m m'') (append-nil (env_trades (env ∷ envs)))
            (Scanned-append w (env_trades (env ∷ envs)) [] m m' m'' sc
              (Scanned-quiet w m' m'' refl (λ symbol. known-set_or_keep w symbol bid m'))),
        elim (Option-cases (w.set_watermark bid wm_batch_scope m'.journal)) [
          | inl raised ↦ inr (m'.journal, raised)
          | inr (s', written) ↦ inl (
              ground (
                arith,
                w.get-set bid wm_batch_scope wm_batch_scope m'.journal s',
                eq_iff wm_batch_scope wm_batch_scope,
              ))
        ],
      )
