-- ===== src/Base/Sort.antt =====
-- `ORDER BY` on a number, ascending: a stable insertion sort.
use deepfeeder.Base.Lists.{filter, All, Any}
use mathlib.Core.Bool.{Bool}
use Prim.Native.Nat.{ℕ, ◌≤◌, ◌<◌}
use mathlib.Core.Path.{◌≡◌, refl}
use mathlib.Core.List.{List, [], ◌∷◌, ◌++◌}
use mathlib.Core.Logic.{inl, inr, ◌⊎◌}
use native.Mathlib.Omega.{arith}
use deepfeeder.Base.Tests.{leb, if◌then◌else◌, Bool-cases}

module _ {ℓ} {A : Type ℓ} (key : A → ℕ) where
  unfoldable pub insert_by : A → List A → List A
  insert_by a [] = a ∷ []
  insert_by a (x ∷ xs) = if leb (key a) (key x) then a ∷ x ∷ xs else x ∷ insert_by a xs

  unfoldable pub order_by : List A → List A
  unfolding insert_by
  order_by [] = []
  order_by (x ∷ xs) = insert_by x (order_by xs)

  -- Each key is above `lo` and above the keys before it.
  abbrev pub Rising : ℕ → List A → Type 0
  Rising lo [] = Unit
  Rising lo (x ∷ xs) = (lo < key x) × Rising (key x) xs

  pub order_by-Rising : (lo : ℕ) (xs : List A) → Rising lo xs → order_by xs ≡ xs
  unfolding order_by
  order_by-Rising lo [] r = refl
  order_by-Rising lo (x ∷ []) r = refl
  order_by-Rising lo (x ∷ y ∷ xs) r = rw (order_by-Rising (key x) (y ∷ xs) r.1) (ground arith)

  pub Rising-weaken : (lo lo' : ℕ) (xs : List A) → lo' ≤ lo → Rising lo xs → Rising lo' xs
  Rising-weaken lo lo' [] le r = tt
  Rising-weaken lo lo' (x ∷ xs) le r = (omega (arith, r.0), r.1)

  -- The keys of a rising list are at most `top`.
  abbrev pub Below : ℕ → List A → Type 0
  Below top [] = Unit
  Below top (x ∷ xs) = (key x ≤ top) × Below top xs

  pub Rising-append :
      (lo top : ℕ) (xs : List A) (y : A)
      → Rising lo xs
      → Below top xs
      → lo ≤ top
      → top < key y
      → Rising lo (xs ++ y ∷ [])
  Rising-append lo top [] y r b le lt = (omega arith, tt)
  Rising-append lo top (x ∷ xs) y r b le lt = (r.0, Rising-append (key x) top xs y r.1 b.1 b.0 lt)

  pub Rising-filter : (lo : ℕ) (p : A → Bool) (xs : List A) → Rising lo xs → Rising lo (filter p xs)
  Rising-filter lo p [] r = tt
  Rising-filter lo p (x ∷ xs) r = elim (Bool-cases (p x)) [
    | inl e ↦ rw e (r.0, Rising-filter (key x) p xs r.1)
    | inr e ↦ rw e (Rising-filter lo p xs (Rising-weaken (key x) lo xs (omega (arith, r.0)) r.1))
  ]

  pub Below-filter : (top : ℕ) (p : A → Bool) (xs : List A) → Below top xs → Below top (filter p xs)
  Below-filter top p [] b = tt
  Below-filter top p (x ∷ xs) b = elim (Bool-cases (p x)) [
    | inl e ↦ rw e (b.0, Below-filter top p xs b.1)
    | inr e ↦ rw e (Below-filter top p xs b.1)
  ]

  pub Below-weaken : (top top' : ℕ) (xs : List A) → top ≤ top' → Below top xs → Below top' xs
  Below-weaken top top' [] le b = tt
  Below-weaken top top' (x ∷ xs) le b = (omega (arith, b.0), Below-weaken top top' xs le b.1)

  pub Below-append :
      (top : ℕ) (xs : List A) (y : A) → Below top xs → key y ≤ top → Below top (xs ++ y ∷ [])
  Below-append top [] y b h = (h, tt)
  Below-append top (x ∷ xs) y b h = (b.0, Below-append top xs y b.1 h)

  -- Each key is at least the one before it.
  abbrev pub Ordered : ℕ → List A → Type 0
  Ordered lo [] = Unit
  Ordered lo (x ∷ xs) = (lo ≤ key x) × Ordered (key x) xs

  insert_by-Ordered :
      (lo : ℕ) (a : A) (xs : List A) → lo ≤ key a → Ordered lo xs → Ordered lo (insert_by a xs)
  unfolding insert_by
  insert_by-Ordered lo a [] h o = (h, tt)
  insert_by-Ordered lo a (x ∷ xs) h o = elim (Bool-cases (leb (key a) (key x))) [
    | inl first ↦ rw first (h, (ground (arith, first), o.1))
    | inr later ↦ rw later (o.0, insert_by-Ordered (key x) a xs (ground (arith, later)) o.1)
  ]

  pub order_by-Ordered : (xs : List A) → Ordered 0 (order_by xs)
  unfolding order_by
  order_by-Ordered [] = tt
  order_by-Ordered (x ∷ xs) =
      insert_by-Ordered 0 x (order_by xs) (omega arith) (order_by-Ordered xs)

  All-insert_by : (P : A → Type 0) (a : A) (xs : List A) → P a → All P xs → All P (insert_by a xs)
  unfolding insert_by
  All-insert_by P a [] p all = (p, tt)
  All-insert_by P a (x ∷ xs) p all = elim (Bool-cases (leb (key a) (key x))) [
    | inl first ↦ rw first (p, all)
    | inr later ↦ rw later (all.0, All-insert_by P a xs p all.1)
  ]

  pub All-order_by : (P : A → Type 0) (xs : List A) → All P xs → All P (order_by xs)
  unfolding order_by
  All-order_by P [] all = tt
  All-order_by P (x ∷ xs) all = All-insert_by P x (order_by xs) all.0 (All-order_by P xs all.1)

  Any-insert_by : (P : A → Type 0) (a : A) (xs : List A) → P a ⊎ Any P xs → Any P (insert_by a xs)
  unfolding insert_by
  Any-insert_by P a [] any = any
  Any-insert_by P a (x ∷ xs) any = elim (Bool-cases (leb (key a) (key x))) [
    | inl first ↦ rw first any
    | inr later ↦ rw later (elim any [
      | inl p ↦ inr (Any-insert_by P a xs (inl p))
      | inr rest ↦ elim rest [ inl q ↦ inl q | inr deep ↦ inr (Any-insert_by P a xs (inr deep)) ]
    ])
  ]

  pub Any-order_by : (P : A → Type 0) (xs : List A) → Any P xs → Any P (order_by xs)
  unfolding order_by
  Any-order_by P [] any = any
  Any-order_by P (x ∷ xs) any =
      Any-insert_by P x (order_by xs)
        (elim any [ inl p ↦ inl p | inr rest ↦ inr (Any-order_by P xs rest) ])
