-- ===== src/Journal/Tables.antt =====
-- The tables of `DuckDbJournal`, the append of an envelope with its merge into the canonical table,
-- and the watermarks. A transaction makes an append one step.
use deepfeeder.Base.{
  ℕ, String, Bool, true, false, ◌&&◌, ◌||◌, not, Option, none, some, List, [], ◌∷◌, ◌++◌, map,
  length, filter, leb, ltb, str_eq, if◌then◌else◌, ℤ, pos, negsuc,
}
use deepfeeder.Base.Dict.{Dict, lookup, insert}
use deepfeeder.Contracts.{Tick, Envelope, NaturalKey, natural_key}
use deepfeeder.EventStore.Codec.{seq_to_cell}

-- The primary key of the canonical table.
pub record Key : Type 0 where
  pub provider : String
  pub stream : String
  pub symbol : String
  pub nat_key : String

abbrev pub key_eq : Key → Key → Bool
key_eq a b =
    str_eq a.provider b.provider
    && (str_eq a.stream b.stream && (str_eq a.symbol b.symbol && str_eq a.nat_key b.nat_key))

-- A row of `tmp_cand`, and without `updated_at_ns` one of the canonical table.
pub record Candidate (P : Type 0) : Type 0 where
  pub key : Key
  pub ts_ns : ℕ
  pub seq : ℤ
  pub is_final : Bool
  pub payload : P

pub record Canonical (P : Type 0) : Type 0 where
  pub row : Candidate P
  pub open row use *
  pub updated_at_ns : ℕ

pub record Hot (P : Type 0) : Type 0 where
  pub tick : Tick P
  pub batch_id : ℕ

pub record Journal (P : Type 0) : Type 0 where
  pub journal_hot : List (Hot P)
  pub journal_canonical : List (Canonical P)
  pub watermarks : Dict ℕ

-- `a >= b` on BIGINT
abbrev pub at_least : ℤ → ℤ → Bool
at_least (pos a) (pos b) = leb b a
at_least (pos a) (negsuc b) = true
at_least (negsuc a) (pos b) = false
at_least (negsuc a) (negsuc b) = leb a b

abbrev pub is_negative : ℤ → Bool
is_negative (pos a) = false
is_negative (negsuc a) = true

-- The search of a table for a key.
unfoldable pub find {ℓ} : {A : Type ℓ} → (A → Key) → Key → List A → Option A
find key_of k [] = none
find key_of k (x ∷ xs) = if key_eq (key_of x) k then some x else find key_of k xs

abbrev pub is_none {ℓ} : {A : Type ℓ} → Option A → Bool
is_none none = true
is_none (some a) = false

-- `tie` is whether the first of two rows that ORDER BY leaves equal has the lower number: ROW_NUMBER may
-- number them in either order.
module _ {P : Type 0} (tie : Candidate P → Candidate P → Bool) where
  -- `a` comes before `b` in ORDER BY is_final DESC, seq DESC, ts_ns DESC.
  unfoldable pub precedes : Candidate P → Candidate P → Bool
  precedes a b =
      (a.is_final && not b.is_final)
      || ((a.is_final || not b.is_final)
          && (not (at_least b.seq a.seq)
              || (at_least a.seq b.seq
                  && (ltb b.ts_ns a.ts_ns || (leb b.ts_ns a.ts_ns && tie a b)))))

  -- `tmp_best`: the first row of each key in that order.
  unfoldable pub keep_best : Candidate P → List (Candidate P) → List (Candidate P)
  unfolding precedes
  keep_best c [] = c ∷ []
  keep_best c (b ∷ best) =
      if key_eq b.key c.key then (if precedes c b then c else b) ∷ best else b ∷ keep_best c best

  unfoldable pub collapse : List (Candidate P) → List (Candidate P) → List (Candidate P)
  unfolding keep_best
  collapse [] best = best
  collapse (c ∷ cands) best = collapse cands (keep_best c best)

module _ {P : Type 0} where
  -- The condition of UPDATE for an incoming row `b` and a stored row `c`.
  unfoldable pub wins : Candidate P → Candidate P → Bool
  wins b c =
      b.is_final
      || (not c.is_final
          && (at_least b.seq c.seq
              || (is_negative b.seq && (is_negative c.seq && leb c.ts_ns b.ts_ns))))

  unfoldable pub update_row : ℕ → List (Candidate P) → Canonical P → Canonical P
  unfolding find wins
  update_row now best c = elim (find (λ b. b.key) c.key best) [
    | none ↦ c
    | some b ↦
        if wins b c.row then record { row = record b { key = c.key }; updated_at_ns = now } else c
  ]

  abbrev pub is_missing : List (Canonical P) → Candidate P → Bool
  is_missing rows b = is_none (find (λ c. c.key) b.key rows)

  abbrev pub stamp : ℕ → Candidate P → Canonical P
  stamp now b = record { row = b; updated_at_ns = now }

  -- The UPDATE of the stored rows, and the INSERT of the keys that are not there.
  unfoldable pub upsert : ℕ → List (Candidate P) → List (Canonical P) → List (Canonical P)
  unfolding update_row
  upsert now best rows =
      let updated = map (update_row now best) rows in
      updated ++ map (stamp now) (filter (is_missing updated) best)

-- `str` of a natural key is given by Python.
module _ {P : Type 0} (str : NaturalKey → String) where
  unfoldable pub candidate : Tick P → Candidate P
  candidate t = record {
    key = record {
      provider = t.provider;
      stream = t.stream;
      symbol = t.symbol;
      nat_key = str (natural_key t);
    };
    ts_ns = t.ts_ns;
    seq = seq_to_cell t.seq;
    is_final = t.is_final;
    payload = t.payload;
  }

module _ {P : Type 0} (tie : Candidate P → Candidate P → Bool) (str : NaturalKey → String) where
  -- `_merge_into_canonical_no_txn` at the time `now`.
  unfoldable pub merge : ℕ → List (Tick P) → List (Canonical P) → List (Canonical P)
  unfolding candidate collapse upsert
  merge now [] rows = rows
  merge now (t ∷ ticks) rows = upsert now (collapse tie (map (candidate str) (t ∷ ticks)) []) rows

  -- `append_envelope`, with the number of rows that it returns.
  unfoldable pub append_envelope : ℕ → Envelope P → Journal P → Journal P × ℕ
  unfolding merge
  append_envelope now env j = (
    record j {
      journal_hot =
          j.journal_hot ++ map (λ t. record { tick = t; batch_id = env.batch_id }) env.rows;
      journal_canonical = merge now env.rows j.journal_canonical;
    },
    length env.rows,
  )

module _ {P : Type 0} where
  -- A missing scope has the watermark 0.
  unfoldable pub get_watermark : String → Journal P → ℕ
  get_watermark scope j = elim (lookup scope j.watermarks) [ none ↦ 0 | some v ↦ v ]

  unfoldable pub set_watermark : ℕ → String → Journal P → Journal P
  set_watermark v scope j = record j { watermarks = insert scope v j.watermarks }
