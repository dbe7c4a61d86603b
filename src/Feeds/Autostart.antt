-- ===== src/Feeds/Autostart.antt =====
-- Which producers run after `start_autostart`.
use deepfeeder.Base.{
  String, ◌≡◌, refl, sym, ap, ◌∙◌, subst, Bool, true, false, some, List, [], ◌∷◌, Any, Bool-cases,
  Option-cases, inl, inr, str_eq,
}
use deepfeeder.Base.Dict.{lookup, lookup-insert, str_eq_refl}
use deepfeeder.Feeds.Specs.{FeederSpec, producer_name}
use deepfeeder.Feeds.Manager.{FeedManager, start_producer, or_same, start_streams, start_autostart}

-- Registered producers stay registered, and running ones run.
abbrev Kept : FeedManager → FeedManager → Type 0
Kept m m' =
    (k : String) (r : Bool)
    → lookup k m.producers ≡ some r
    → (r' : Bool) × (lookup k m'.producers ≡ some r') × (r ≡ true → r' ≡ true)

Kept-refl : (m : FeedManager) → Kept m m
Kept-refl m k r e = (r, e, λ h. h)

Kept-trans : (m m' m'' : FeedManager) → Kept m m' → Kept m' m'' → Kept m m''
Kept-trans m m' m'' f g k r e =
    let (r', e', up) = f k r e in let (r'', e'', up') = g k r' e' in (r'', e'', λ h. up' (up h))

module _ (refuses : String → Bool) where
  one-Kept :
      (name : String) (m : FeedManager) → Kept m (or_same refuses m (start_producer refuses name m))
  unfolding start_producer
  one-Kept name m = elim (Option-cases (lookup name m.producers)) [
    | inl unknown ↦ rw (unknown, start_producer) (Kept-refl m)
    | inr (p, known) ↦ elim (Bool-cases (refuses name)) [
      | inl raises ↦ rw (known, raises, start_producer) (Kept-refl m)
      | inr fine ↦
          rw (known, fine, start_producer)
            (λ k r e. elim (Bool-cases (str_eq name k)) [
              | inl same ↦ (true, lookup-insert name k true m.producers ∙ rw same refl, λ h. refl)
              | inr other ↦ (r, lookup-insert name k true m.producers ∙ rw other e, λ h. h)
            ])
    ]
  ]

  one-starts :
      (name : String) (r : Bool) (m : FeedManager)
      → lookup name m.producers ≡ some r
      → refuses name ≡ false
      → lookup name (or_same refuses m (start_producer refuses name m)).producers ≡ some true
  unfolding start_producer
  one-starts name r m known fine =
      rw (known, fine, start_producer)
        (lookup-insert name name true m.producers ∙ rw (str_eq_refl name) refl)

  streams-Kept :
      (spec : FeederSpec) (sts : List String) (m : FeedManager)
      → Kept m (start_streams refuses spec sts m)
  unfolding start_streams
  streams-Kept spec [] m = Kept-refl m
  streams-Kept spec (st ∷ sts) m =
      let m' = or_same refuses m (start_producer refuses (producer_name spec st) m) in
      Kept-trans m m' (start_streams refuses spec sts m') (one-Kept (producer_name spec st) m)
        (streams-Kept spec sts m')

  autostart-Kept :
      (specs : List FeederSpec) (m : FeedManager) → Kept m (start_autostart refuses specs m)
  unfolding start_autostart
  autostart-Kept [] m = Kept-refl m
  autostart-Kept (spec ∷ specs) m = elim (Bool-cases spec.autostart) [
    | inl on ↦
        rw (on, start_autostart)
          (Kept-trans m (start_streams refuses spec spec.streams m)
            (start_autostart refuses specs (start_streams refuses spec spec.streams m))
            (streams-Kept spec spec.streams m)
            (autostart-Kept specs (start_streams refuses spec spec.streams m)))
    | inr off ↦ rw (off, start_autostart) (autostart-Kept specs m)
  ]

  streams-starts :
      (spec : FeederSpec) (st : String) (sts : List String) (r : Bool) (m : FeedManager)
      → Any (λ s. s ≡ st) sts
      → lookup (producer_name spec st) m.producers ≡ some r
      → refuses (producer_name spec st) ≡ false
      → lookup (producer_name spec st) (start_streams refuses spec sts m).producers ≡ some true
  unfolding start_streams
  streams-starts spec st [] r m any known fine = absurd any
  streams-starts spec st (s ∷ sts) r m (inl here) known fine =
      let name = producer_name spec s in
      let same = ap (producer_name spec) here in
      let m' = or_same refuses m (start_producer refuses name m) in
      let (r', e, up) = streams-Kept spec sts m' name true (
        one-starts name r m (ap (λ n. lookup n m.producers) same ∙ known)
          (ap refuses same ∙ fine)) in
      subst (λ n. lookup n (start_streams refuses spec sts m').producers ≡ some true) same
        (e ∙ ap some (up refl))
  streams-starts spec st (s ∷ sts) r m (inr later) known fine =
      let m' = or_same refuses m (start_producer refuses (producer_name spec s) m) in
      let (r', e, up) = one-Kept (producer_name spec s) m (producer_name spec st) r known in
      streams-starts spec st sts r' m' later e fine

  -- After `start_autostart` every producer runs that belongs to a stream of a specification with
  -- `autostart`, is registered, and does not raise when it is started, whichever others are missing
  -- or raise.
  pub start_autostart-starts :
      (specs : List FeederSpec) (spec : FeederSpec) (st : String) (r : Bool) (m : FeedManager)
      → Any (λ s. s ≡ spec) specs
      → spec.autostart ≡ true
      → Any (λ s. s ≡ st) spec.streams
      → lookup (producer_name spec st) m.producers ≡ some r
      → refuses (producer_name spec st) ≡ false
      → lookup (producer_name spec st) (start_autostart refuses specs m).producers ≡ some true
  unfolding start_autostart
  start_autostart-starts [] spec st r m any on stream known fine = absurd any
  start_autostart-starts (s ∷ specs) spec st r m (inl here) on stream known fine =
      let m' = start_streams refuses s s.streams m in
      let at_s = subst (λ x. Any (λ y. y ≡ st) x.streams) (sym here) stream in
      let same : producer_name s st ≡ producer_name spec st = ap (λ x. producer_name x st) here in
      let started =
        streams-starts s st s.streams r m at_s (ap (λ n. lookup n m.producers) same ∙ known)
          (ap refuses same ∙ fine) in
      let (r', e, up) = autostart-Kept specs m' (producer_name s st) true started in
      let on_s : s.autostart ≡ true = ap (λ (x : FeederSpec). x.autostart) here ∙ on in
      rw (on_s, start_autostart)
        (ap (λ n. lookup n (start_autostart refuses specs m').producers) (sym same)
          ∙ e
          ∙ ap some (up refl))
  start_autostart-starts (s ∷ specs) spec st r m (inr later) on stream known fine =
      elim (Bool-cases s.autostart) [
        | inl on_s ↦
            let m' = start_streams refuses s s.streams m in
            let (r', e, up) = streams-Kept s s.streams m (producer_name spec st) r known in
            rw (on_s, start_autostart)
              (start_autostart-starts specs spec st r' m' later on stream e fine)
        | inr off ↦
            rw (off, start_autostart)
              (start_autostart-starts specs spec st r m later on stream known fine)
      ]
