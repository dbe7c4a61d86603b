-- ===== src/TradingView/Reading.antt =====
-- Reading back what `_frame` writes, one frame at a time.
use Prim.Native.Nat.{◌/◌}
use deepfeeder.Base.{
  ℕ, zero, suc, ◌+◌, ◌-◌, ◌*◌, ◌<◌, true, some, [], ◌∷◌, ◌++◌, length, take, drop, All, All-append,
  length-append, append_assoc, ltb, ◌≡◌, refl, ap, ◌∙◌, arith, inl, inr, Bool-cases, pos,
}
use deepfeeder.TradingView.Frames.{
  Text, marker, is_digit, digits, decimal, frame, read_digits, int_of, split_marker, next_frame,
}

abbrev IsDigit : ℕ → Type 0
IsDigit c = is_digit c ≡ true

abbrev value : ℕ → Text → ℕ
value n [] = n
value n (c ∷ s) = value (n * 10 + (c - b'0')) s

value-append : (s t : Text) (n : ℕ) → value n (s ++ t) ≡ value (value n s) t
value-append [] t n = refl
value-append (c ∷ s) t n = value-append s t (n * 10 + (c - b'0'))

value-digits : (f n : ℕ) → n < f → value 0 (digits f n) ≡ n
unfolding digits
value-digits zero n h = omega (arith, h)
value-digits (suc f) n h = elim (Bool-cases (ltb n 10)) [
  | inl small ↦ rw small (omega arith)
  | inr big ↦ rw big (
      value-append (digits f (n / 10)) _ 0
      ∙ rw (value-digits f (n / 10) (ground (arith, h, big))) (omega arith))
]

digits-IsDigit : (f n : ℕ) → All IsDigit (digits f n)
unfolding digits
digits-IsDigit zero n = tt
digits-IsDigit (suc f) n = elim (Bool-cases (ltb n 10)) [
  | inl small ↦ rw small (ground arith, tt)
  | inr big ↦
      rw big
        (All-append IsDigit (digits f (n / 10)) _ (digits-IsDigit f (n / 10)) (ground arith, tt))
]

read_digits-digits : (n : ℕ) (s : Text) → All IsDigit s → read_digits true n s ≡ some (value n s)
unfolding read_digits
read_digits-digits n [] all = refl
read_digits-digits n (c ∷ s) (h, all) = rw (h, read_digits-digits (n * 10 + (c - b'0')) s all)

int_of-digits :
    (c : ℕ) (s : Text) → All IsDigit (c ∷ s) → int_of (c ∷ s) ≡ some (pos (value 0 (c ∷ s)))
unfolding int_of
int_of-digits c s (h, all) = ground (arith, read_digits-digits (c - b'0') s all)

split_marker-digits :
    (s rest : Text) → All IsDigit s → split_marker (s ++ (marker ++ rest)) ≡ some (s, rest)
unfolding split_marker
split_marker-digits [] rest all = refl
split_marker-digits (c ∷ s) rest (h, all) = rw (split_marker-digits s rest all) (ground (arith, h))

int_of-nonempty : (s : Text) → All IsDigit s → 0 < length s → int_of s ≡ some (pos (value 0 s))
int_of-nonempty [] all h = ground (arith, h)
int_of-nonempty (c ∷ s) all h = int_of-digits c s all

length-digits_pos : (f n : ℕ) → 0 < length (digits (suc f) n)
unfolding digits
length-digits_pos f n = elim (Bool-cases (ltb n 10)) [
  | inl small ↦ rw small (omega arith)
  | inr big ↦ rw (big, length-append) (omega arith)
]

int_of-decimal : (n : ℕ) → int_of (decimal n) ≡ some (pos n)
int_of-decimal n =
    int_of-nonempty (decimal n) (digits-IsDigit (suc n) n) (length-digits_pos n n)
    ∙ rw (value-digits (suc n) n (omega arith)) refl

take-append : (s t : Text) → take (length s) (s ++ t) ≡ s
take-append [] t = refl
take-append (c ∷ s) t = ap (◌∷◌ c) (take-append s t)

drop-append : (s t : Text) → drop (length s) (s ++ t) ≡ t
drop-append [] t = refl
drop-append (c ∷ s) t = drop-append s t

next_frame-parts :
    (s rest : Text)
    → next_frame (marker ++ (decimal (length s) ++ (marker ++ (s ++ rest)))) ≡ some (s, rest)
unfolding next_frame split_marker
next_frame-parts s rest =
    rw
      (
        split_marker-digits (decimal (length s)) (s ++ rest)
            (digits-IsDigit (suc (length s)) (length s)),
        int_of-decimal (length s),
        take-append s rest,
        drop-append s rest,
      )
      refl

-- Whatever a message's text holds, and whatever follows its frame, the next frame is that text.
pub next_frame-frame :
    {Msg : Type 0} (dumps : Msg → Text) (msg : Msg) (rest : Text)
    → next_frame (frame dumps msg ++ rest) ≡ some (dumps msg, rest)
unfolding frame
next_frame-frame dumps msg rest =
    let s = dumps msg in
    ap next_frame (ap (λ t. marker ++ t) (append_assoc (decimal (length s)) (marker ++ s) rest))
    ∙ next_frame-parts s rest
