-- ===== src/Listener/Bars.antt =====
-- Bar completion: over rows in the order of time each bar is completed once, when a later row comes.
use deepfeeder.Base.{
  ℕ, ◌+◌, ◌≤◌, ◌≡◌, sym, ap, ◌∙◌, subst, ◌⊎◌, inl, inr, Bool, ◌&&◌, some, List, [], ◌∷◌, ◌++◌, map,
  append-nil, append_assoc, map-append, arith, ltb, Any, Any-append_right, Bool-cases,
}
use deepfeeder.Listener.Updates.{
  Row, Bar, bar_ts, SchemaSpec, is_placeholder, rollover, current_of, add_rows,
}

-- Numbers from `lo` on and below `hi`, each above the one before.
abbrev pub Between : ℕ → ℕ → List ℕ → Type 0
Between lo hi [] = lo ≤ hi
Between lo hi (x ∷ xs) = (lo ≤ x) × Between (x + 1) hi xs

pub Between-later :
    (lo hi : ℕ) {hi' : ℕ} (xs : List ℕ) → Between lo hi' xs → hi' ≤ hi → Between lo hi xs
Between-later lo hi [] a h = omega arith
Between-later lo hi (x ∷ xs) a h = (a.0, Between-later (x + 1) hi xs a.1 h)

pub Between-append :
    (lo mid hi : ℕ) (xs ys : List ℕ)
    → Between lo mid xs
    → Between mid hi ys
    → Between lo hi (xs ++ ys)
Between-append lo mid hi [] ys a b = lower lo mid hi ys a b
  where
    lower : (lo mid hi : ℕ) (ys : List ℕ) → lo ≤ mid → Between mid hi ys → Between lo hi ys
    lower lo mid hi [] h b = omega arith
    lower lo mid hi (y ∷ ys) h b = (omega (arith, b.0), b.1)
Between-append lo mid hi (x ∷ xs) ys a b = (a.0, Between-append (x + 1) mid hi xs ys a.1 b)

module _ {F : Type 0} (spec : SchemaSpec) where
  -- The rows come in the order of time, from `t` on.
  abbrev pub InTime : ℕ → List (Row F) → Type 0
  InTime t [] = Unit
  InTime t (r ∷ rows) = (t ≤ r.ts) × InTime r.ts rows

  abbrev pub final : Bar F → List (Row F) → Bar F
  final c [] = c
  final c (r ∷ rows) = final (current_of spec r) rows

  abbrev pub completions : Bar F → List (Row F) → List (Bar F)
  completions c [] = []
  completions c (r ∷ rows) = rollover (some c) r.ts ++ completions (current_of spec r) rows

  abbrev pub only_placeholders : Bool → List (Row F) → Bool
  only_placeholders b [] = b
  only_placeholders b (r ∷ rows) = only_placeholders (b && is_placeholder spec r) rows

  pub add_rows-some :
      (rows : List (Row F)) (c : Bar F) (completed : List (Bar F)) (b : Bool)
      → add_rows spec rows (some c, completed, b)
        ≡ (some (final c rows), completed ++ completions c rows, only_placeholders b rows)
  unfolding add_rows
  add_rows-some [] c completed b = ap (λ l. (some c, l, b)) (sym (append-nil completed))
  add_rows-some (r ∷ rows) c completed b =
      add_rows-some rows (current_of spec r) (completed ++ rollover (some c) r.ts)
        (b && is_placeholder spec r)
      ∙ ap
          (λ l. (
            some (final (current_of spec r) rows),
            l,
            only_placeholders (b && is_placeholder spec r) rows,
          ))
          (append_assoc completed (rollover (some c) r.ts) (completions (current_of spec r) rows))

  bar_ts-current_of : (r : Row F) → bar_ts (current_of spec r) ≡ r.ts
  bar_ts-current_of r = ground arith

  rollover-Between :
      (c : Bar F) (t : ℕ) → bar_ts c ≤ t → Between (bar_ts c) t (map bar_ts (rollover (some c) t))
  rollover-Between c t h = elim (Bool-cases (ltb (bar_ts c) t)) [
    | inl later ↦ rw later (omega arith, ground arith)
    | inr same ↦ rw same h
  ]

  pub completions-Between :
      (rows : List (Row F)) (c : Bar F)
      → InTime (bar_ts c) rows
      → Between (bar_ts c) (bar_ts (final c rows)) (map bar_ts (completions c rows))
  completions-Between [] c h = omega arith
  completions-Between (r ∷ rows) c h =
      let ih =
        completions-Between rows (current_of spec r)
          (subst (λ t. InTime t rows) (sym (bar_ts-current_of r)) h.1) in
      let rest = map bar_ts (completions (current_of spec r) rows) in
      let hi = bar_ts (final (current_of spec r) rows) in
      subst (Between (bar_ts c) hi)
        (sym (map-append bar_ts (rollover (some c) r.ts) (completions (current_of spec r) rows)))
        (Between-append (bar_ts c) r.ts hi (map bar_ts (rollover (some c) r.ts)) rest
          (rollover-Between c r.ts h.0) (subst (λ t. Between t hi rest) (bar_ts-current_of r) ih))

  -- Every time of a row is that of the current bar or of a completed one.
  pub completions_cover :
      (x : ℕ) (rows : List (Row F)) (c : Bar F)
      → InTime (bar_ts c) rows
      → (bar_ts c ≡ x) ⊎ Any (λ r. r.ts ≡ x) rows
      → (bar_ts (final c rows) ≡ x) ⊎ Any (λ b. bar_ts b ≡ x) (completions c rows)
  completions_cover x [] c h (inl e) = inl e
  completions_cover x [] c h (inr a) = elim a [ ]
  completions_cover x (r ∷ rows) c h found =
      let h' = subst (λ t. InTime t rows) (sym (bar_ts-current_of r)) h.1 in
      let ih = completions_cover x rows (current_of spec r) h' in
      let later = λ (f : (bar_ts (current_of spec r) ≡ x) ⊎ Any (λ (q : Row F). q.ts ≡ x) rows).
        keep (ih f) in
      elim found [
        | inr (inl e) ↦ later (inl (bar_ts-current_of r ∙ e))
        | inr (inr a) ↦ later (inr a)
        | inl e ↦ elim (Bool-cases (ltb (bar_ts c) r.ts)) [
          | inl after ↦ rw after (inr (inl e))
          | inr same ↦ later (inl (bar_ts-current_of r ∙ ground (arith, h.0)))
        ]
      ]
    where
      keep :
          (bar_ts (final (current_of spec r) rows) ≡ x)
            ⊎ Any (λ b. bar_ts b ≡ x) (completions (current_of spec r) rows)
          → (bar_ts (final c (r ∷ rows)) ≡ x) ⊎ Any (λ b. bar_ts b ≡ x) (completions c (r ∷ rows))
      keep (inl e) = inl e
      keep (inr a) = inr (Any-append_right (λ b. bar_ts b ≡ x) (rollover (some c) r.ts) _ a)
