-- ===== src/TradingView/Frames.antt =====
-- feeder_server/data/app.d/providers/tradingview/producer_ws.py: the frames of a websocket message.
-- A text is the list of its code points; json.dumps is a parameter. `int` is read on ASCII texts of
-- fewer than 4300 digits.
use Prim.Native.Nat.{◌/◌}
use mathlib.Core.Option
use deepfeeder.Base.{
  ℕ, zero, suc, ◌+◌, ◌-◌, ◌*◌, ◌%◌, Bool, true, false, ◌&&◌, ◌||◌, Option, none, some, List, [],
  ◌∷◌, ◌++◌, length, take, drop, ltb, leb, ◌==◌, if◌then◌else◌, ℤ, pos, negsuc,
}
use deepfeeder.Base.Options.{◌>>=◌}

abbrev pub Text : Type 0
Text = List ℕ

-- "~m~"
abbrev pub marker : Text
marker = b'~' ∷ b'm' ∷ b'~' ∷ []

abbrev pub is_digit : ℕ → Bool
is_digit c = leb b'0' c && leb c b'9'

abbrev pub is_space : ℕ → Bool
is_space c = c == b' ' || (leb 9 c && leb c 13)

-- str(n), by fuel.
unfoldable pub digits : ℕ → ℕ → Text
digits zero n = []
digits (suc f) n =
    let front = digits f (n / 10) in
    if ltb n 10 then (b'0' + n) ∷ [] else front ++ (b'0' + n % 10) ∷ []

abbrev pub decimal : ℕ → Text
decimal n = digits (suc n) n

-- `_frame`
unfoldable pub frame : {Msg : Type 0} → (Msg → Text) → Msg → Text
unfolding digits
frame dumps msg = let s = dumps msg in marker ++ (decimal (length s) ++ (marker ++ s))

abbrev pub all_space : Text → Bool
all_space [] = true
all_space (c ∷ s) = is_space c && all_space s

-- The digits of an int, with single underscores between them; the flag is set behind a digit.
unfoldable pub read_digits : Bool → ℕ → Text → Option ℕ
read_digits after n [] = if after then some n else none
read_digits after n (c ∷ s) =
    let more = read_digits (is_digit c) (if is_digit c then n * 10 + (c - b'0') else n) s in
    if is_digit c || (after && c == b'_')
    then more
    else if after && (is_space c && all_space s)
    then some n
    else none

abbrev pub negate : ℕ → ℤ
negate zero = pos 0
negate (suc n) = negsuc n

abbrev pub signed : Text → Option ℤ
signed [] = none
signed (c ∷ s) =
    if c == b'-'
    then Option.map negate (read_digits false 0 s)
    else if c == b'+'
    then Option.map pos (read_digits false 0 s)
    else Option.map pos (read_digits false 0 (c ∷ s))

-- int(s), with none for a ValueError.
unfoldable pub int_of : Text → Option ℤ
unfolding read_digits
int_of [] = none
int_of (c ∷ s) = let more = int_of s in if is_space c then more else signed (c ∷ s)

-- s.startswith(p)
abbrev pub starts_with : Text → Text → Bool
starts_with s [] = true
starts_with [] (b ∷ p) = false
starts_with (c ∷ s) (b ∷ p) = c == b && starts_with s p

-- s.split("~m~", 1) in its two parts, with none where the marker is missing.
unfoldable pub split_marker : Text → Option (Text × Text)
split_marker [] = none
split_marker (c ∷ s) =
    let more = split_marker s in
    if starts_with (c ∷ s) marker
    then some ([], drop 3 (c ∷ s))
    else Option.map (λ (front, back). (c ∷ front, back)) more

-- s[:n] and s[n:]
abbrev pub slice_to : ℤ → Text → Text
slice_to (pos n) s = take n s
slice_to (negsuc n) s = take (length s - suc n) s

abbrev pub slice_from : ℤ → Text → Text
slice_from (pos n) s = drop n s
slice_from (negsuc n) s = drop (length s - suc n) s

-- The two splits behind "~m~", and the frame that the length cuts off, with none for an exception.
unfoldable pub cut_frame : Text → Option (Text × Text)
unfolding split_marker int_of
cut_frame payload = do
  (front, rest) ← split_marker payload
  (ln_str, text) ← split_marker rest
  ln ← int_of ln_str
  some (slice_to ln text, slice_from ln text)

-- One turn of `_iter_frames`: the frame and the payload behind it, or none at the end.
unfoldable pub next_frame : Text → Option (Text × Text)
unfolding cut_frame
next_frame payload = let cut = cut_frame payload in if starts_with payload marker then cut else none

unfoldable pub iter_from : ℕ → Text → List Text
unfolding next_frame
iter_from zero payload = []
iter_from (suc fuel) payload = elim (next_frame payload) [
  | none ↦ []
  | some (fr, rest) ↦ fr ∷ iter_from fuel rest
]

-- `_iter_frames`
unfoldable pub iter_frames : Text → List Text
unfolding iter_from
iter_frames payload = iter_from (length payload) payload
