-- ===== src/Journal/Ids.antt =====
-- Strictly rising lists of batch ids.
use deepfeeder.Base.{
  ℕ, zero, suc, ◌+◌, ◌==◌, ◌≤◌, ◌≡◌, refl, sym, ap, ◌∙◌, true, false, List, [], ◌∷◌, ◌++◌, filter,
  take, length, ltb, leb, if◌then◌else◌, All, Any, arith, Bool-cases, inl, inr, ◌⊎◌, take-nil, drop,
}
use deepfeeder.Journal.Chains.{filter-All}
use deepfeeder.Journal.Committed.{add_id}

-- Ids rise strictly; `lo` is one more than the id before.
abbrev pub Up : ℕ → List ℕ → Type 0
Up lo [] = Unit
Up lo (i ∷ is) = (lo ≤ i) × Up (i + 1) is

pub add_id-Up : (lo b : ℕ) (is : List ℕ) → lo ≤ b → Up lo is → Up lo (add_id b is)
unfolding add_id
add_id-Up lo b [] less r = (less, tt)
add_id-Up lo b (i ∷ is) less r = elim (Bool-cases (ltb b i)) [
  | inl before ↦ rw before (less, (ground (arith, before), r.1))
  | inr after ↦ elim (Bool-cases (b == i)) [
    | inl same ↦ rw (after, same) r
    | inr other ↦ rw (after, other) (r.0, add_id-Up (i + 1) b is (ground (arith, after, other)) r.1)
  ]
]

pub filter-add_id :
    (from b : ℕ) (is : List ℕ)
    → filter (leb from) (add_id b is)
      ≡ (if leb from b then add_id b (filter (leb from) is) else filter (leb from) is)
unfolding add_id
filter-add_id from b [] = ground arith
filter-add_id from b (i ∷ is) = ground (arith, filter-add_id from b is)

pub All-add_id : (Q : ℕ → Type 0) (b : ℕ) (is : List ℕ) → Q b → All Q is → All Q (add_id b is)
unfolding add_id
All-add_id Q b [] q all = (q, tt)
All-add_id Q b (i ∷ is) q all = elim (Bool-cases (ltb b i)) [
  | inl before ↦ rw before (q, all)
  | inr after ↦ elim (Bool-cases (b == i)) [
    | inl same ↦ rw (after, same) all
    | inr other ↦ rw (after, other) (all.0, All-add_id Q b is q all.1)
  ]
]

pub Any-add_id :
    (k b : ℕ) (is : List ℕ) → (b ≡ k) ⊎ Any (λ i. i ≡ k) is → Any (λ i. i ≡ k) (add_id b is)
unfolding add_id
Any-add_id k b [] any = any
Any-add_id k b (i ∷ is) any = elim (Bool-cases (ltb b i)) [
  | inl before ↦ rw before any
  | inr after ↦ elim (Bool-cases (b == i)) [
    | inl same ↦
        rw (after, same)
          (elim any [ inl here ↦ inl (ground (arith, same, here)) | inr there ↦ there ])
    | inr other ↦
        rw (after, other)
          (elim any [
            | inl here ↦ inr (Any-add_id k b is (inl here))
            | inr there ↦ elim there [
              | inl first ↦ inl first
              | inr later ↦ inr (Any-add_id k b is (inr later))
            ]
          ])
  ]
]

pub Up-All : (lo : ℕ) (is : List ℕ) → Up lo is → All (λ i. leb lo i ≡ true) is
Up-All lo [] up = tt
Up-All lo (i ∷ is) up =
    (ground (arith, up.0), Up-All lo is (Up-weaken (i + 1) lo is (omega (arith, up.0)) up.1))
  where
    Up-weaken : (hi lo : ℕ) (is : List ℕ) → lo ≤ hi → Up hi is → Up lo is
    Up-weaken hi lo [] h up = tt
    Up-weaken hi lo (i ∷ is) h up = (omega (arith, h, up.0), up.1)

abbrev pub last_from : ℕ → List ℕ → ℕ
last_from b [] = b
last_from b (i ∷ is) = last_from i is

pub last_from-le : (b : ℕ) (m : ℕ) (is : List ℕ) → Up (b + 1) is → b ≤ last_from b (take m is)
last_from-le b zero is up = omega arith
last_from-le b (suc m) [] up = omega arith
last_from-le b (suc m) (i ∷ is) up = omega (arith, up.0, last_from-le i m is up.1)

-- What is behind the first ids of a rising list is the rest of it.
pub after_ids :
    (m i : ℕ) (is : List ℕ)
    → Up (i + 1) is
    → filter (leb (last_from i (take m is) + 1)) (i ∷ is) ≡ drop m is
after_ids zero i is up =
    let out : leb (i + 1) i ≡ false = ground arith in
    rw out (filter-All (leb (i + 1)) is (Up-All (i + 1) is up))
after_ids (suc m) i [] up = ground arith
after_ids (suc m) i (s ∷ ss) up =
    let out : leb (last_from s (take m ss) + 1) i ≡ false =
      ground (arith, last_from-le s m ss up.1, up.0) in
    rw out (after_ids m s ss up.1)

pub take_more :
    {A : Type 0} (a b : ℕ) (xs : List A) → take (a + b) xs ≡ take a xs ++ take b (drop a xs)
take_more zero b xs = ap (λ n. take n xs) (omega arith)
take_more (suc a) b [] = take-nil (suc a + b) ∙ sym (take-nil b)
take_more (suc a) b (x ∷ xs) =
    let shift : suc a + b ≡ suc (a + b) = omega arith in
    ap (λ n. take n (x ∷ xs)) shift ∙ ap (◌∷◌ x) (take_more a b xs)

abbrev pub go_on_ids : ℕ → List ℕ → ℕ
go_on_ids start [] = start
go_on_ids start (i ∷ is) = last_from i is + 1

pub some_of :
    {A : Type 0} (Q : A → Type 0) (xs : List A)
    → Any Q xs
    → (x : A) × (rest : List A) × (xs ≡ x ∷ rest)
some_of Q [] any = absurd any
some_of Q (x ∷ xs) any = (x, xs, refl)

pub take_whole : {A : Type 0} (n : ℕ) (xs : List A) → length xs ≤ n → take n xs ≡ xs
take_whole zero [] h = refl
take_whole zero (x ∷ xs) h = absurd (omega (arith, h))
take_whole (suc n) [] h = refl
take_whole (suc n) (x ∷ xs) h = ap (◌∷◌ x) (take_whole n xs (omega (arith, h)))

pub length-add_id-le : (b : ℕ) (is : List ℕ) → length (add_id b is) ≤ suc (length is)
unfolding add_id
length-add_id-le b [] = omega arith
length-add_id-le b (i ∷ is) = ground (arith, length-add_id-le b is)
