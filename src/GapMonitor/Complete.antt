-- ===== src/GapMonitor/Complete.antt =====
-- No trade id is lost: what a scan steps over is in a task of the planner.
use native.Mathlib.Decide.{dec_le, dec_lt}
use deepfeeder.Base.{
  ℕ, ◌≤◌, ◌<◌, String, ◌≡◌, refl, sym, ap, ◌∙◌, ◌⊎◌, inl, inr, Option, none, some, List, [], ◌∷◌,
  ◌++◌, arith, ltb, str_eq, if◌then◌else◌, Any, Any-append_left, Any-append_right, Bool-cases,
}
use deepfeeder.Planner.{Planner}
use deepfeeder.Watermarks.{Watermarks}
use deepfeeder.GapMonitor.Scan.{Monitor}
use deepfeeder.GapMonitor.Known.{known}

-- The last id after one more id, which never goes back.
abbrev pub bump : Option ℕ → ℕ → ℕ
bump none seq = seq
bump (some last) seq = if ltb last seq then seq else last

-- The last id of `symbol` after the trades `es`, given as symbols with ids.
abbrev pub learn : String → String × ℕ → Option ℕ → Option ℕ
learn symbol (s, seq) last = if str_eq s symbol then some (bump last seq) else last

abbrev pub learns : String → List (String × ℕ) → Option ℕ → Option ℕ
learns symbol [] last = last
learns symbol (e ∷ es) last = learns symbol es (learn symbol e last)

abbrev pub Seen : String → ℕ → List (String × ℕ) → Type 0
Seen symbol id es = Any (λ e. (e.0 ≡ symbol) × (e.1 ≡ id)) es

-- A task that `p'` has and `p` has not holds the id.
abbrev pub Covered : String → ℕ → Planner → Planner → Type 0
Covered symbol id p p' =
    (r : ℕ) × (p.next ≤ r)
    × (r < p'.next)
    × ((p'.heap r).symbol ≡ symbol)
    × ((p'.heap r).start_id ≤ id)
    × (id ≤ (p'.heap r).end_id)

pub learn-some :
    (symbol : String) (e : String × ℕ) (l : ℕ)
    → (l' : ℕ) × (learn symbol e (some l) ≡ some l') × (l ≤ l')
learn-some symbol (s, seq) l = elim (Bool-cases (str_eq s symbol)) [
  | inl same ↦ (bump (some l) seq, rw same refl, ground arith)
  | inr other ↦ (l, rw other refl, omega arith)
]

pub learns-some :
    (symbol : String) (es : List (String × ℕ)) (l : ℕ)
    → (l' : ℕ) × (learns symbol es (some l) ≡ some l') × (l ≤ l')
learns-some symbol [] l = (l, refl, omega arith)
learns-some symbol (e ∷ es) l =
    let (l', one, le) = learn-some symbol e l in
    let (l'', more, le') = learns-some symbol es l' in (l'', rw one more, omega arith)

learns-append :
    (symbol : String) (es fs : List (String × ℕ)) (l : Option ℕ)
    → learns symbol (es ++ fs) l ≡ learns symbol fs (learns symbol es l)
learns-append symbol [] fs l = refl
learns-append symbol (e ∷ es) fs l = learns-append symbol es fs (learn symbol e l)

module _ (w : Watermarks) where
  -- The task at `r` ends before the last id of its symbol, and begins after the one known before.
  abbrev pub Between : Monitor w → Monitor w → ℕ → Type 0
  Between m m' r =
      ((l' : ℕ) × (known w (m'.planner.heap r).symbol m' ≡ some l')
        × ((m'.planner.heap r).end_id < l'))
      × ((l : ℕ) → known w (m'.planner.heap r).symbol m ≡ some l → l < (m'.planner.heap r).start_id)

  -- What a scan that sees the trades `es` does.
  pub record Scanned (es : List (String × ℕ)) (m m' : Monitor w) : Type 0 where
    pub learned : (symbol : String) → known w symbol m' ≡ learns symbol es (known w symbol m)
    pub limit : m'.planner.max_ids_per_task ≡ m.planner.max_ids_per_task
    pub grows : m.planner.next ≤ m'.planner.next
    pub keeps : (r : ℕ) → r < m.planner.next → m'.planner.heap r ≡ m.planner.heap r
    pub covers :
        (symbol : String) (l l' id : ℕ)
        → known w symbol m ≡ some l
        → known w symbol m' ≡ some l'
        → l < id
        → id ≤ l'
        → Seen symbol id es ⊎ Covered symbol id m.planner m'.planner
    pub within : (r : ℕ) → m.planner.next ≤ r → r < m'.planner.next → Between m m' r

  -- Two scans in a row.
  module _ (es fs : List (String × ℕ)) (m m' m'' : Monitor w) (a : Scanned es m m')
      (b : Scanned fs m' m'') where
    covers-append :
        (symbol : String) (l l'' id : ℕ)
        → known w symbol m ≡ some l
        → known w symbol m'' ≡ some l''
        → l < id
        → id ≤ l''
        → Seen symbol id (es ++ fs) ⊎ Covered symbol id m.planner m''.planner
    covers-append symbol l l'' id e e'' low high =
        let (l', one, le) = learns-some symbol es l in
        let e' : known w symbol m' ≡ some l' = a.learned symbol ∙ ap (learns symbol es) e ∙ one in
        elim (dec_le id l') [
          | yes early ↦ elim (a.covers symbol l l' id e e' low early) [
            | inl s ↦ inl (Any-append_left _ es fs s)
            | inr (r, new, below, owner, starts, ends) ↦
                let k = b.keeps r below in
                inr (
                  r,
                  new,
                  omega (arith, below, b.grows),
                  ap (λ t. t.symbol) k ∙ owner,
                  omega (arith, ap (λ t. t.start_id) k, starts),
                  omega (arith, ap (λ t. t.end_id) k, ends),
                )
          ]
          | no late ↦ elim (b.covers symbol l' l'' id e' e'' (omega arith) high) [
            | inl s ↦ inl (Any-append_right _ es fs s)
            | inr (r, new, below, owner, starts, ends) ↦
                inr (r, omega (arith, a.grows), below, owner, starts, ends)
          ]
        ]

    within-append : (r : ℕ) → m.planner.next ≤ r → r < m''.planner.next → Between m m'' r
    within-append r new below = elim (dec_lt r m'.planner.next) [
      | no late ↦
          let (ends, starts) = b.within r (omega arith) below in
          (
            ends,
            λ l e.
                let (l', one, le) = learns-some (m''.planner.heap r).symbol es l in
                omega (arith, starts l' (a.learned _ ∙ ap (learns _ es) e ∙ one)),
          )
      | yes early ↦
          let ((l', e, ends), starts) = a.within r new early in
          let k = b.keeps r early in
          let (l'', more, le) = learns-some (m'.planner.heap r).symbol fs l' in
          rw k ((l'', b.learned _ ∙ ap (learns _ fs) e ∙ more, omega arith), starts)
    ]

    pub Scanned-append : Scanned (es ++ fs) m m''
    Scanned-append = record {
      learned = λ symbol.
          b.learned symbol
          ∙ ap (learns symbol fs) (a.learned symbol)
          ∙ sym (learns-append symbol es fs (known w symbol m));
      limit = b.limit ∙ a.limit;
      grows = omega (arith, a.grows, b.grows);
      keeps = λ r old. b.keeps r (omega (arith, a.grows)) ∙ a.keeps r old;
      covers = covers-append;
      within = within-append;
    }
