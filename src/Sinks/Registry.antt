-- ===== src/Sinks/Registry.antt =====
-- `WriterRegistry` and `DhSinkDynamic`. A writer is its name, and its rows are what it was given, as
-- `V` values. The event that says that a writer is missing is left out.
use deepfeeder.Base.{
  String, Bool, ◌&&◌, Option, none, some, List, [], ◌∷◌, ◌++◌, map, str_eq, if◌then◌else◌, true,
  false,
}
use deepfeeder.Contracts.{Tick}

-- `WriterKey`
abbrev pub WriterKey : Type 0
WriterKey = String × String

abbrev pub key_eq : WriterKey → WriterKey → Bool
key_eq (p, s) (q, t) = str_eq p q && str_eq s t

-- A dictionary with pairs of texts as keys, in insertion order.
abbrev pub PairDict : Type 0 → Type 0
PairDict V = List (WriterKey × V)

module _ {V : Type 0} where
  unfoldable pub pair_lookup : WriterKey → PairDict V → Option V
  pair_lookup k [] = none
  pair_lookup k ((j, v) ∷ d) = if key_eq j k then some v else pair_lookup k d

  unfoldable pub pair_insert : WriterKey → V → PairDict V → PairDict V
  pair_insert k v [] = (k, v) ∷ []
  pair_insert k v ((j, w) ∷ d) = if key_eq j k then (j, v) ∷ d else (j, w) ∷ pair_insert k v d

-- Columns by name, each with a value for each tick.
abbrev pub Columns : Type 0 → Type 0
Columns V = List (String × List V)

-- `flatten` is none where it raises.
pub record WriterSpec (P V : Type 0) : Type 0 where
  pub writer : String
  pub flatten : List (Tick P) → Option (Columns V)

-- `provider or "default"`
abbrev pub or_default : Option String → String
or_default none = "default"
or_default (some p) = if str_eq p "" then "default" else p

-- zip on a first column and the rows of the others, as long as the shorter.
abbrev pub zip_onto : {V : Type 0} → List V → List (List V) → List (List V)
zip_onto [] rows = []
zip_onto (x ∷ xs) [] = []
zip_onto (x ∷ xs) (row ∷ rows) = (x ∷ row) ∷ zip_onto xs rows

abbrev pub singles : {V : Type 0} → List V → List (List V)
singles xs = map (λ x. x ∷ []) xs

-- zip(*[cols[c] for c in cols], strict=False)
unfoldable pub zip_rows : {V : Type 0} → Columns V → List (List V)
zip_rows [] = []
zip_rows ((c, xs) ∷ []) = singles xs
zip_rows ((c, xs) ∷ d ∷ cols) = let rest = zip_rows (d ∷ cols) in zip_onto xs rest

module _ {P : Type 0} where
  abbrev pub key_of : Tick P → WriterKey
  key_of t = (t.provider, t.stream)

  abbrev pub or_no_ticks : Option (List (Tick P)) → List (Tick P)
  or_no_ticks none = []
  or_no_ticks (some ts) = ts

  -- The loop that fills `buckets`.
  unfoldable pub bucket : List (Tick P) → PairDict (List (Tick P)) → PairDict (List (Tick P))
  unfolding pair_insert pair_lookup
  bucket [] buckets = buckets
  bucket (t ∷ ts) buckets =
      bucket ts
        (pair_insert (key_of t) (or_no_ticks (pair_lookup (key_of t) buckets) ++ t ∷ []) buckets)

-- A row for a writer, or none for an exception of `flatten`.
abbrev pub WriteAttempt : Type 0 → Type 0
WriteAttempt V = Option (String × List V)

module _ {V : Type 0} where
  abbrev pub rows_for : String → Option (Columns V) → List (WriteAttempt V)
  rows_for writer none = none ∷ []
  rows_for writer (some cols) = map (λ row. some (writer, row)) (zip_rows cols)

  -- The attempts one after the other, where `refuses` is whether write_row raises: what was written after
  -- them, and whether one of them raised, which is the last.
  unfoldable pub attempt :
      (String × List V → Bool)
      → List (WriteAttempt V)
      → List (String × List V)
      → List (String × List V) × Bool
  attempt refuses [] sink = (sink, false)
  attempt refuses (none ∷ later) sink = (sink, true)
  attempt refuses (some row ∷ later) sink =
      let rest = attempt refuses later (sink ++ row ∷ []) in
      if refuses row then (sink, true) else rest

module _ {P V : Type 0} where
  -- `add`
  unfoldable pub add :
      Option String
      → String
      → (List (Tick P) → Option (Columns V))
      → String
      → PairDict (WriterSpec P V)
      → PairDict (WriterSpec P V)
  unfolding pair_insert
  add provider stream flatten writer reg =
      pair_insert (or_default provider, stream) (record { writer = writer; flatten = flatten }) reg

  -- `resolve`
  unfoldable pub resolve :
      Option String → String → PairDict (WriterSpec P V) → Option (WriterSpec P V)
  unfolding pair_lookup
  resolve provider stream reg = pair_lookup (or_default provider, stream) reg

  abbrev pub written_by : Option (WriterSpec P V) → List (Tick P) → List (WriteAttempt V)
  written_by none ticks = []
  written_by (some spec) ticks = rows_for spec.writer (spec.flatten ticks)

  -- What the loop over `buckets` does, in order, up to an exception.
  unfoldable pub write_buckets :
      PairDict (WriterSpec P V) → PairDict (List (Tick P)) → List (WriteAttempt V)
  unfolding resolve zip_rows
  write_buckets reg [] = []
  write_buckets reg (((provider, stream), ticks) ∷ buckets) =
      written_by (resolve (some provider) stream reg) ticks ++ write_buckets reg buckets

  -- What `write_envelope` does on the rows of an envelope, up to an exception.
  unfoldable pub write_envelope : PairDict (WriterSpec P V) → List (Tick P) → List (WriteAttempt V)
  unfolding bucket write_buckets
  write_envelope reg rows = write_buckets reg (bucket rows [])
