-- ===== src/Backfill/Rest.antt =====
-- feeder_server/data/app.d/providers/binance/rest_client.py: the tries of `_request`. A delay is in
-- hundredths of a millisecond, which the source's numbers are for as many tries as it makes.
use Prim.Native.Nat.{◌/◌}
use deepfeeder.Base.{
  ℕ, zero, suc, ◌+◌, ◌*◌, ◌≤◌, ◌≡◌, refl, Bool, ◌&&◌, ◌||◌, min, List, [], ◌∷◌, ◌==◌, leb, ltb,
  if◌then◌else◌, arith, Bool-cases, inl, inr,
}

-- What `requests.get` gives: a status with its rows, or a RequestException, as also when a body of
-- status 200 is no JSON.
pub data Response (A : Type 0) : Type 0 where
  responds : ℕ → List A → Response A
  request_exception : Response A

abbrev pub retry_status : ℕ → Bool
retry_status s = s == 429 || (s == 418 || (s == 500 || (s == 502 || (s == 503 || s == 504))))

abbrev pub next_delay : ℕ → ℕ
next_delay delay = min (delay * 17 / 10) 1000000

-- The delays of `n` tries that all wait.
abbrev delays : ℕ → ℕ → ℕ
delays zero delay = 0
delays (suc n) delay = delay + delays n (next_delay delay)

delays-le : (n a b : ℕ) → a ≤ b → delays n a ≤ delays n b
delays-le zero a b h = omega arith
delays-le (suc n) a b h =
    omega (arith, h, delays-le n (next_delay a) (next_delay b) (omega (arith, h)))

-- Whether a status other than 200 is slept on: those of the list, and those on which
-- `raise_for_status` raises an HTTPError, a RequestException.
abbrev pub waits : ℕ → Bool
waits status = retry_status status || (leb 400 status && ltb status 600)

module _ {A : Type 0} where
  -- The loop of `_request` over the responses to come, with the time slept.
  unfoldable pub request_from : ℕ → List (Response A) → ℕ → ℕ → List A × ℕ
  request_from zero rs delay slept = ([], slept)
  request_from (suc n) [] delay slept = ([], slept)
  request_from (suc n) (request_exception ∷ rs) delay slept =
      request_from n rs (next_delay delay) (slept + delay)
  request_from (suc n) (responds status rows ∷ rs) delay slept =
      let again =
        request_from n rs (if waits status then next_delay delay else delay)
          (if waits status then slept + delay else slept) in
      if status == 200 then (rows, slept) else again

  -- `_request` with its five tries, over the responses to them.
  unfoldable pub request : List (Response A) → List A × ℕ
  unfolding request_from
  request rs = request_from 5 rs 50000 0

  -- The rows of the first response of status 200.
  abbrev pub first_rows : ℕ → List (Response A) → List A
  first_rows zero rs = []
  first_rows (suc n) [] = []
  first_rows (suc n) (request_exception ∷ rs) = first_rows n rs
  first_rows (suc n) (responds status rows ∷ rs) = if status == 200 then rows else first_rows n rs

module _ {A : Type 0} where
  request_from-first_rows :
      (n : ℕ) (rs : List (Response A)) (delay slept : ℕ)
      → (request_from n rs delay slept).0 ≡ first_rows n rs
  unfolding request_from
  request_from-first_rows zero rs delay slept = refl
  request_from-first_rows (suc n) [] delay slept = refl
  request_from-first_rows (suc n) (request_exception ∷ rs) delay slept =
      request_from-first_rows n rs _ _
  request_from-first_rows (suc n) (responds status rows ∷ rs) delay slept =
      elim (Bool-cases (status == 200)) [
        | inl ok ↦ rw ok refl
        | inr other ↦ rw other (request_from-first_rows n rs _ _)
      ]

  request_from-sleeps :
      (n : ℕ) (rs : List (Response A)) (delay slept : ℕ)
      → delay ≤ 1000000
      → (request_from n rs delay slept).1 ≤ slept + delays n delay
  unfolding request_from
  request_from-sleeps zero rs delay slept low = omega arith
  request_from-sleeps (suc n) [] delay slept low = omega arith
  request_from-sleeps (suc n) (request_exception ∷ rs) delay slept low =
      omega (arith, request_from-sleeps n rs (next_delay delay) (slept + delay) (omega arith))
  request_from-sleeps (suc n) (responds status rows ∷ rs) delay slept low =
      elim (Bool-cases (status == 200)) [
        | inl ok ↦ rw ok (omega arith)
        | inr other ↦ elim (Bool-cases (waits status)) [
          | inl again ↦
              rw (other, again)
                (omega (
                  arith,
                  request_from-sleeps n rs (next_delay delay) (slept + delay) (omega arith),
                ))
          | inr at_once ↦
              rw (other, at_once)
                (omega (
                  arith,
                  request_from-sleeps n rs delay slept low,
                  delays-le n delay (next_delay delay) (omega (arith, low)),
                ))
        ]
      ]

  -- A request answers the rows of the first of five responses whose status is 200, and no rows if there is none, as it does for a status that will not change; it sleeps 9.42755 seconds at most.
  pub request-first_rows :
      (rs : List (Response A)) → ((request rs).0 ≡ first_rows 5 rs) × ((request rs).1 ≤ 942755)
  unfolding request
  request-first_rows rs =
      (request_from-first_rows 5 rs 50000 0, request_from-sleeps 5 rs 50000 0 (omega arith))
