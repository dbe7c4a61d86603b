-- ===== src/Backfill/Limiter.antt =====
-- `_RateLimiter`. A token is measured by the time in which it is refilled, `unit`, so that `tokens` and
-- `max_tokens` are times too; the clock does not go back.
use deepfeeder.Base.{
  ℕ, zero, suc, ◌+◌, ◌-◌, ◌*◌, ◌≤◌, ◌<◌, ◌≡◌, ap, ◌∙◌, min, ltb, if◌then◌else◌, arith,
}

pub record Limiter : Type 0 where
  pub tokens : ℕ
  pub max_tokens : ℕ
  pub last : ℕ

abbrev pub doubled : ℕ → ℕ
doubled zero = 0
doubled (suc n) = suc (suc (doubled n))

module _ (unit : ℕ) where
  abbrev pub refilled : ℕ → Limiter → ℕ
  refilled now l = min l.max_tokens (l.tokens + (now - l.last))

  -- `acquire` at the time `now`, with the time when it returns.
  unfoldable pub acquire : ℕ → Limiter → Limiter × ℕ
  acquire now l =
      if ltb (refilled now l) unit
      then (record l { tokens = 0; last = now }, now + (unit - refilled now l))
      else (record l { tokens = refilled now l - unit; last = now }, now)

  -- Calls of `acquire`, each when the one before returns.
  unfoldable pub acquires : ℕ → ℕ → Limiter → Limiter × ℕ
  unfolding acquire
  acquires zero now l = (l, now)
  acquires (suc n) now l = let (l', later) = acquire now l in acquires n later l'

  abbrev empty : ℕ → ℕ → Limiter
  empty limit now = record { tokens = 0; max_tokens = limit; last = now }

  acquire-empty :
      (now limit : ℕ) → 0 < unit → acquire now (empty limit now) ≡ (empty limit now, now + unit)
  unfolding acquire
  acquire-empty now limit some_time = ground (arith, some_time)

  acquire-credited :
      (now limit : ℕ)
      → unit ≤ limit
      → acquire (now + unit) (empty limit now) ≡ (empty limit (now + unit), now + unit)
  unfolding acquire
  acquire-credited now limit room = ground (arith, room)

  -- A limiter that is empty at `now` gives two tokens for each unit of time that passes, if calls follow each other at once: the time slept for the first of the two is credited to the second.
  acquires-double :
      (n now limit : ℕ)
      → 0 < unit
      → unit ≤ limit
      → acquires (doubled n) now (empty limit now) ≡ (empty limit (now + n * unit), now + n * unit)
  unfolding acquires
  acquires-double zero now limit some_time room = ap (λ t. (empty limit t, t)) (omega arith)
  acquires-double (suc n) now limit some_time room =
      ap (λ (x : Limiter × ℕ). acquires (suc (doubled n)) x.1 x.0)
        (acquire-empty now limit some_time)
      ∙ ap (λ (x : Limiter × ℕ). acquires (doubled n) x.1 x.0) (acquire-credited now limit room)
      ∙ acquires-double n (now + unit) limit some_time room
      ∙ ap (λ t. (empty limit t, t)) (grind arith)
