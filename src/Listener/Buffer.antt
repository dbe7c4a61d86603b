-- ===== src/Listener/Buffer.antt =====
-- What a listener emits as added rows, and what its buffer holds for replay.
use deepfeeder.Base.{
  ℕ, zero, suc, ◌+◌, ◌-◌, ◌≤◌, ◌≡◌, refl, sym, ap, ◌∙◌, Bool, true, false, ◌&&◌, Option, none, some,
  List, [], ◌∷◌, ◌++◌, append-nil, append_assoc, length, arith, if◌then◌else◌, length-append,
}
use deepfeeder.Listener.Updates.{
  Row, Bar, SchemaSpec, truthy, TableUpdate, Batch, Listener, is_placeholder, current_of, add_rows,
  bar_tables, on_update, drop_first, push_bounded, rollover,
}

drop_first-length : {A : Type 0} (n : ℕ) (xs : List A) → length (drop_first n xs) ≡ length xs - n
drop_first-length zero xs = omega arith
drop_first-length (suc n) [] = omega arith
drop_first-length (suc n) (x ∷ xs) = drop_first-length n xs ∙ omega arith

drop_first-append :
    {A : Type 0} (n : ℕ) (xs ys : List A)
    → n ≤ length xs
    → drop_first n (xs ++ ys) ≡ drop_first n xs ++ ys
drop_first-append zero xs ys h = refl
drop_first-append (suc n) [] ys h = let no : ⊥ = omega (arith, h) in elim no [ ]
drop_first-append (suc n) (x ∷ xs) ys h = drop_first-append n xs ys (omega (arith, h))

drop_first-empty : {A : Type 0} (m : ℕ) → drop_first {A = A} m [] ≡ []
drop_first-empty zero = refl
drop_first-empty (suc m) = refl

drop_first-twice :
    {A : Type 0} (m n : ℕ) (xs : List A) → drop_first m (drop_first n xs) ≡ drop_first (n + m) xs
drop_first-twice m zero xs = ap (λ k. drop_first k xs) (omega arith)
drop_first-twice m (suc n) [] = drop_first-empty m ∙ sym (drop_first-empty (suc n + m))
drop_first-twice m (suc n) (x ∷ xs) = drop_first-twice m n xs ∙ sucs
  where
    sucs : drop_first (n + m) xs ≡ drop_first (suc n + m) (x ∷ xs)
    sucs = ap (λ k. drop_first k (x ∷ xs)) same
      where
        same : suc (n + m) ≡ suc n + m
        same = omega arith

-- The last `n` of a list.
abbrev pub last_of : {A : Type 0} → ℕ → List A → List A
last_of n xs = drop_first (length xs - n) xs

last_of-push :
    {A : Type 0} (n : ℕ) (x : A) (xs : List A)
    → push_bounded n x (last_of n xs) ≡ last_of n (xs ++ x ∷ [])
last_of-push n x xs =
    let d = length xs - n in
    let held = length-append (drop_first d xs) (x ∷ []) in
    let whole = length-append xs (x ∷ []) in
    let cut = drop_first-length d xs in
    let k = length (last_of n xs ++ x ∷ []) - n in
    ap (drop_first k) (sym (drop_first-append d xs (x ∷ []) (omega arith)))
    ∙ drop_first-twice k d (xs ++ x ∷ [])
    ∙ ap (λ m. drop_first m (xs ++ x ∷ [])) (omega (arith, held, whole, cut))

and_assoc : (a b c : Bool) → (a && b) && c ≡ a && (b && c)
and_assoc true b c = refl
and_assoc false b c = refl

module _ {F : Type 0} where
  -- The batches of a stream of updates, in order.
  abbrev pub batches : List (ℕ × TableUpdate F) → Listener F → List (Batch F)
  batches [] l = []
  batches ((now, u) ∷ us) l = let (l', batch) = on_update now u l in batch ∷ batches us l'

  abbrev pub after : List (ℕ × TableUpdate F) → Listener F → Listener F
  after [] l = l
  after ((now, u) ∷ us) l = after us (on_update now u l).0

  buf-on_update :
      (now : ℕ) (u : TableUpdate F) (l : Listener F)
      → (on_update now u l).0.buf ≡ push_bounded l.buf_maxlen (on_update now u l).1 l.buf
  unfolding on_update
  buf-on_update now u l = refl

  maxlen-on_update :
      (now : ℕ) (u : TableUpdate F) (l : Listener F)
      → (on_update now u l).0.buf_maxlen ≡ l.buf_maxlen
  unfolding on_update
  maxlen-on_update now u l = refl

  buf-last :
      (us : List (ℕ × TableUpdate F)) (l : Listener F) (n : ℕ) (sent : List (Batch F))
      → l.buf_maxlen ≡ n
      → l.buf ≡ last_of n sent
      → (after us l).buf ≡ last_of n (sent ++ batches us l)
  buf-last [] l n sent limit held = held ∙ ap (last_of n) (sym (append-nil sent))
  buf-last ((now, u) ∷ us) l n sent limit held =
      let batch = (on_update now u l).1 in
      buf-last us (on_update now u l).0 n (sent ++ batch ∷ []) (maxlen-on_update now u l ∙ limit) (
        buf-on_update now u l
        ∙ ap (λ m. push_bounded m batch l.buf) limit
        ∙ ap (push_bounded n batch) held
        ∙ last_of-push n batch sent)
      ∙ ap (last_of n) (append_assoc sent (batch ∷ []) (batches us (on_update now u l).0))

  -- From an empty buffer, after any stream of updates the buffer holds the last `buf_maxlen` of the
  -- batches that were emitted, in the order in which they were emitted.
  pub buf-is_last :
      (us : List (ℕ × TableUpdate F)) (l : Listener F)
      → l.buf ≡ []
      → (after us l).buf ≡ last_of l.buf_maxlen (batches us l)
  buf-is_last us l empty =
      buf-last us l l.buf_maxlen [] refl (empty ∙ sym (drop_first-empty (0 - l.buf_maxlen)))

  abbrev pub all_placeholders : SchemaSpec → List (Row F) → Bool
  all_placeholders spec [] = true
  all_placeholders spec (r ∷ rows) = is_placeholder spec r && all_placeholders spec rows

  add_rows-only :
      (spec : SchemaSpec) (rows : List (Row F)) (curr : Option (Bar F)) (done : List (Bar F))
      (b : Bool)
      → (add_rows spec rows (curr, done, b)).2 ≡ b && all_placeholders spec rows
  unfolding add_rows
  add_rows-only spec [] curr done true = refl
  add_rows-only spec [] curr done false = refl
  add_rows-only spec (r ∷ rows) curr done b =
      add_rows-only spec rows (some (current_of spec r)) (done ++ rollover curr r.ts)
        (b && is_placeholder spec r)
      ∙ and_assoc b (is_placeholder spec r) (all_placeholders spec rows)

  -- In a bar schema, the added table of the batch is missing when every added row is a placeholder,
  -- and otherwise it is all the added rows, the placeholders among them included.
  on_update-added :
      (now : ℕ) (u : TableUpdate F) (l : Listener F)
      → truthy l.spec.bin_period_minutes ≡ true
      → (on_update now u l).1.added
        ≡ (if all_placeholders l.spec u.added then none else some u.added)
  unfolding on_update bar_tables
  on_update-added now u l bars = rw bars (tables u.added)
    where
      tables :
          (rows : List (Row F))
          → (bar_tables l.spec rows l.curr).1
            ≡ (if all_placeholders l.spec rows then none else some rows)
      tables [] = refl
      tables (r ∷ rows) =
          ap (λ b. if b then none else some (r ∷ rows))
            (add_rows-only l.spec (r ∷ rows) l.curr [] true)
