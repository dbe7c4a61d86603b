-- ===== src/TradingView/RoundTrip.antt =====
-- `_iter_frames` ends on every payload, and reads back what `_frame` writes.
use mathlib.Core.Option
use deepfeeder.Base.{
  ℕ, zero, suc, ◌-◌, ◌<◌, ◌≤◌, Option, none, some, List, [], ◌∷◌, ◌++◌, map, length, length-drop-le,
  append_assoc, ◌≡◌, refl, ap, ◌∙◌, sym, subst, arith, inl, inr, Bool-cases, Option-cases, ℤ, pos,
  negsuc,
}
use deepfeeder.TradingView.Frames.{
  Text, marker, frame, int_of, split_marker, cut_frame, next_frame, iter_from, iter_frames,
  starts_with, slice_from, slice_to,
}
use deepfeeder.Base.Options.{◌>>=◌}
use deepfeeder.TradingView.Reading.{next_frame-frame}

abbrev Shorter : Text → Option (Text × Text) → Type 0
Shorter s none = Unit
Shorter s (some (front, back)) = length back < length s

split_marker-Shorter : (s : Text) → Shorter s (split_marker s)
unfolding split_marker
split_marker-Shorter [] = tt
split_marker-Shorter (c ∷ s) = elim (Bool-cases (starts_with (c ∷ s) marker)) [
  | inl here ↦ rw here (omega (arith, length-drop-le 2 s))
  | inr later ↦ rw later (under s (split_marker s) (split_marker-Shorter s))
]
  where
    under :
        (s : Text) (o : Option (Text × Text))
        → Shorter s o
        → Shorter (c ∷ s) (Option.map (λ (front, back). (c ∷ front, back)) o)
    under s none h = tt
    under s (some _) h = omega (arith, h)

length-slice_from-le : (n : ℤ) (s : Text) → length (slice_from n s) ≤ length s
length-slice_from-le (pos n) s = length-drop-le n s
length-slice_from-le (negsuc n) s = length-drop-le (length s - suc n) s

Shorter-bind :
    (s t : Text) (o : Option (Text × Text)) (f : Text × Text → Option (Text × Text))
    → length t ≤ length s
    → Shorter t o
    → ((front back : Text) → length back < length s → Shorter s (f (front, back)))
    → Shorter s (o >>= f)
Shorter-bind s t none f le h next = tt
Shorter-bind s t (some (front, back)) f le h next = next front back (omega (arith, le, h))

Shorter-cut :
    (s rest : Text) (n : Option ℤ)
    → length rest < length s
    → Shorter s (n >>= λ ln. some (slice_to ln rest, slice_from ln rest))
Shorter-cut s rest none h = tt
Shorter-cut s rest (some n) h = omega (arith, h, length-slice_from-le n rest)

cut_frame-Shorter : (s : Text) → Shorter s (cut_frame s)
unfolding cut_frame
cut_frame-Shorter s =
    Shorter-bind s s (split_marker s) _ (omega arith) (split_marker-Shorter s) λ front rest h.
      Shorter-bind s rest (split_marker rest) _ (omega (arith, h)) (split_marker-Shorter rest)
        λ ln_str text. Shorter-cut s text (int_of ln_str)

next_frame-Shorter : (s : Text) → Shorter s (next_frame s)
unfolding next_frame
next_frame-Shorter s = elim (Bool-cases (starts_with s marker)) [
  | inl here ↦ rw here (cut_frame-Shorter s)
  | inr ended ↦ rw ended tt
]

iter_from-end : (f : ℕ) (s : Text) → next_frame s ≡ none → iter_from f s ≡ []
unfolding iter_from
iter_from-end zero s e = refl
iter_from-end (suc f) s e = rw e refl

next_frame-length :
    (s front back : Text) → next_frame s ≡ some (front, back) → length back < length s
next_frame-length s front back e = subst (Shorter s) e (next_frame-Shorter s)

iter_from-more :
    (f : ℕ) (s front back : Text)
    → next_frame s ≡ some (front, back)
    → iter_from (suc f) s ≡ front ∷ iter_from f back
unfolding iter_from
iter_from-more f s front back e = rw e refl

iter_from-empty : (f : ℕ) (s : Text) → length s ≤ 0 → iter_from f s ≡ []
iter_from-empty f s h = elim (Option-cases (next_frame s)) [
  | inl ended ↦ iter_from-end f s ended
  | inr ((front, back), more) ↦ absurd (omega (arith, h, next_frame-length s front back more))
]

iter_from-iter_from :
    (f g : ℕ) (s : Text) → length s ≤ f → length s ≤ g → iter_from f s ≡ iter_from g s
iter_from-iter_from zero g s hf hg = iter_from-empty zero s hf ∙ sym (iter_from-empty g s hf)
iter_from-iter_from (suc f) zero s hf hg =
    iter_from-empty (suc f) s hg ∙ sym (iter_from-empty zero s hg)
iter_from-iter_from (suc f) (suc g) s hf hg = elim (Option-cases (next_frame s)) [
  | inl ended ↦ iter_from-end (suc f) s ended ∙ sym (iter_from-end (suc g) s ended)
  | inr ((front, back), more) ↦
      let shorter = next_frame-length s front back more in
      iter_from-more f s front back more
      ∙ ap (◌∷◌ front)
          (iter_from-iter_from f g back (omega (arith, shorter, hf)) (omega (arith, shorter, hg)))
      ∙ sym (iter_from-more g s front back more)
]

-- Fuel for each character of the payload is enough: more of it finds the same frames.
pub iter_from-enough : (f : ℕ) (s : Text) → length s ≤ f → iter_from f s ≡ iter_frames s
unfolding iter_frames
iter_from-enough f s h = iter_from-iter_from f (length s) s h (omega arith)

iter_frames-more :
    (s front back : Text)
    → next_frame s ≡ some (front, back)
    → iter_frames s ≡ front ∷ iter_frames back
iter_frames-more s front back e =
    sym (iter_from-enough (suc (length s)) s (omega arith))
    ∙ iter_from-more (length s) s front back e
    ∙ ap (◌∷◌ front)
        (iter_from-enough (length s) back (omega (arith, next_frame-length s front back e)))

-- The frames of some messages, one behind the other.
abbrev pub frames : {Msg : Type 0} → (Msg → Text) → List Msg → Text
frames dumps [] = []
frames dumps (msg ∷ msgs) = frame dumps msg ++ frames dumps msgs

-- Reading a payload that begins with the frames of any messages gives the text of each message in order, also where a text holds the marker itself, and then the frames of what follows.
pub iter_frames-frames :
    {Msg : Type 0} (dumps : Msg → Text) (msgs : List Msg) (rest : Text)
    → iter_frames (frames dumps msgs ++ rest) ≡ map dumps msgs ++ iter_frames rest
iter_frames-frames dumps [] rest = refl
iter_frames-frames dumps (msg ∷ msgs) rest =
    ap iter_frames (append_assoc (frame dumps msg) (frames dumps msgs) rest)
    ∙ iter_frames-more (frame dumps msg ++ (frames dumps msgs ++ rest)) (dumps msg)
        (frames dumps msgs ++ rest) (next_frame-frame dumps msg (frames dumps msgs ++ rest))
    ∙ ap (◌∷◌ (dumps msg)) (iter_frames-frames dumps msgs rest)
