-- ===== src/Journal/Keys.antt =====
-- Searching tables for keys.
use deepfeeder.Base.{
  ◌≡◌, refl, sym, ap, ◌∙◌, Bool, true, inl, inr, Option, none, some, List, [], ◌∷◌, ◌++◌, map,
  filter, arith, eq_iff, Bool-cases,
}
use deepfeeder.Journal.Tables.{Key, key_eq, find}

pub key_eq_refl : (k : Key) → key_eq k k ≡ true
key_eq_refl k = ground (
  arith,
  eq_iff k.provider k.provider,
  eq_iff k.stream k.stream,
  eq_iff k.symbol k.symbol,
  eq_iff k.nat_key k.nat_key,
)

parts :
    {a b : Key}
    → a.provider ≡ b.provider
    → a.stream ≡ b.stream
    → a.symbol ≡ b.symbol
    → a.nat_key ≡ b.nat_key
    → a ≡ b
parts p q r s = λ i. record { provider = p i; stream = q i; symbol = r i; nat_key = s i }

pub key_eq_sound : (a b : Key) → key_eq a b ≡ true → a ≡ b
key_eq_sound a b h =
    parts ((eq_iff a.provider b.provider).0 (ground arith))
      ((eq_iff a.stream b.stream).0 (ground arith)) ((eq_iff a.symbol b.symbol).0 (ground arith))
      ((eq_iff a.nat_key b.nat_key).0 (ground arith))

abbrev pub map_option {ℓ ℓ'} : {A : Type ℓ} {B : Type ℓ'} → (A → B) → Option A → Option B
map_option f none = none
map_option f (some a) = some (f a)

-- The first of two searches, or the second.
abbrev pub or_else {ℓ} : {A : Type ℓ} → Option A → Option A → Option A
or_else none o = o
or_else (some a) o = some a

module _ {ℓ} {A : Type ℓ} (key_of : A → Key) (k : Key) where
  pub find-append :
      (xs ys : List A) → find key_of k (xs ++ ys) ≡ or_else (find key_of k xs) (find key_of k ys)
  unfolding find
  find-append [] ys = refl
  find-append (x ∷ xs) ys = elim (Bool-cases (key_eq (key_of x) k)) [
    | inl here ↦ rw here refl
    | inr later ↦ rw later (find-append xs ys)
  ]

  -- The rows that a test keeps, where it keeps those of the key.
  pub find-filter :
      (p : A → Bool) (xs : List A)
      → ((x : A) → key_of x ≡ k → p x ≡ true)
      → find key_of k (filter p xs) ≡ find key_of k xs
  unfolding find
  find-filter p [] keeps = refl
  find-filter p (x ∷ xs) keeps = elim (Bool-cases (key_eq (key_of x) k)) [
    | inl here ↦ rw (keeps x (key_eq_sound (key_of x) k here), here) refl
    | inr later ↦ elim (Bool-cases (p x)) [
      | inl kept ↦ rw (kept, later) (find-filter p xs keeps)
      | inr dropped ↦ rw (dropped, later) (find-filter p xs keeps)
    ]
  ]

  pub find-map :
      {B : Type ℓ} (key_of' : B → Key) (f : A → B) (xs : List A)
      → ((x : A) → key_of' (f x) ≡ key_of x)
      → find key_of' k (map f xs) ≡ map_option f (find key_of k xs)
  unfolding find
  find-map key_of' f [] same = refl
  find-map key_of' f (x ∷ xs) same = elim (Bool-cases (key_eq (key_of x) k)) [
    | inl here ↦ rw (same x, here) refl
    | inr later ↦ rw (same x, later) (find-map key_of' f xs same)
  ]

  -- A row that is found has the key.
  pub find-key : (xs : List A) (x : A) → find key_of k xs ≡ some x → key_of x ≡ k
  unfolding find
  find-key [] x h = ground arith
  find-key (y ∷ xs) x h = elim (Bool-cases (key_eq (key_of y) k)) [
    | inl here ↦
        let same : y ≡ x = ground arith in ap key_of (sym same) ∙ key_eq_sound (key_of y) k here
    | inr later ↦ find-key xs x (ground arith)
  ]
