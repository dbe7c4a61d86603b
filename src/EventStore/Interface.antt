-- ===== src/EventStore/Interface.antt =====
-- The event store that the bus and the journal consumer are given.
use deepfeeder.Base.{ℕ, ◌≡◌, List, [], ◌∷◌, ◌++◌, take, filter, leb, Option, some, ◌-◌}
use deepfeeder.Base.Sort.{Rising, Below}
use deepfeeder.Contracts.{Draft, Envelope}

abbrev pub id_of : {P : Type 0} → Envelope P → ℕ
id_of e = e.batch_id

-- What `next_from` answers over the stored envelopes.
abbrev pub page : {P : Type 0} → ℕ → ℕ → List (Envelope P) → List (Envelope P)
page from max_n stored = take max_n (filter (λ e. leb from e.batch_id) stored)

-- `stored` is what the store holds, for the laws only. `none` is an exception.
pub record EventStore (P : Type 0) : Type 1 where
  pub Store : Type 0
  pub IsValid : Store → Type 0
  pub stored : Store → List (Envelope P)
  pub append : Draft P → Store → Store × ℕ
  pub next_from : ℕ → ℕ → Store → Option (List (Envelope P))
  pub last_committed : Store → ℕ
  pub append-IsValid : (d : Draft P) (s : Store) → IsValid s → IsValid (append d s).0
  pub stored-append :
      (d : Draft P) (s : Store)
      → IsValid s
      → (e : Envelope P) × (stored (append d s).0 ≡ stored s ++ e ∷ [])
        × (e.batch_id ≡ (append d s).1)
        × (e.rows ≡ d.rows)
        × Below id_of ((append d s).1 - 1) (stored s)
  pub stored-Rising : (s : Store) → IsValid s → Rising id_of 0 (stored s)
  pub next_from_lem :
      (from max_n : ℕ) (s : Store)
      → IsValid s
      → next_from from max_n s ≡ some (page from max_n (stored s))
