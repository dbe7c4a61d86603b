-- ===== src/Json.antt =====
-- JSON objects that the fanout service sends and the client reads, and tests on their texts.
use Prim.Native.Char.{code}
use deepfeeder.Base.{
  String, Bool, true, false, Option, none, some, List, [], ◌∷◌, ◌||◌, ◌==◌, str_eq, if◌then◌else◌,
}
use deepfeeder.Base.Dict.{Dict, lookup, insert}

-- A value that is not null; `N` is a number.
pub data Json (N : Type 0) : Type 0 where
  text : String → Json N
  bool : Bool → Json N
  num : N → Json N

-- A value of none is null.
abbrev pub Object : Type 0 → Type 0
Object N = Dict (Option (Json N))

module _ {N : Type 0} where
  abbrev pub joined : Option (Option (Json N)) → Option (Json N)
  joined none = none
  joined (some v) = v

  -- d.get(k)
  abbrev pub get : String → Object N → Option (Json N)
  get k row = joined (lookup k row)

  -- d.get(k, default)
  abbrev pub default_to : Option (Json N) → Option (Option (Json N)) → Option (Json N)
  default_to d none = d
  default_to d (some v) = v

  -- A key that is set under a condition.
  unfoldable pub put : Bool → String → Option (Json N) → Object N → Object N
  put wanted k v row = if wanted then insert k v row else row

  -- Python's truth of a value, by that of its numbers.
  abbrev pub truthy_json : (N → Bool) → Option (Json N) → Bool
  truthy_json nonzero none = false
  truthy_json nonzero (some (text s)) = if str_eq s "" then false else true
  truthy_json nonzero (some (bool b)) = b
  truthy_json nonzero (some (num n)) = nonzero n

  -- a or b
  abbrev pub or_else : (N → Bool) → Option (Json N) → Option (Json N) → Option (Json N)
  or_else nonzero a b = if truthy_json nonzero a then a else b

abbrev pub contains : String → List String → Bool
contains k [] = false
contains k (f ∷ fs) = str_eq f k || contains k fs

-- What follows a prefix.
unfoldable pub strip_prefix : String → String → Option String
strip_prefix String.[] s = some s
strip_prefix (String.◌∷◌ c p) String.[] = none
strip_prefix (String.◌∷◌ c p) (String.◌∷◌ d s) =
    let rest = strip_prefix p s in if code c == code d then rest else none

-- What follows the first place where a text is found.
unfoldable pub split_after : String → String → Option String
unfolding strip_prefix
split_after p String.[] = strip_prefix p String.[]
split_after p (String.◌∷◌ c s) =
    let later = split_after p s in
    elim (strip_prefix p (String.◌∷◌ c s)) [ none ↦ later | some rest ↦ some rest ]
