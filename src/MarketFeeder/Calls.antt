-- ===== src/MarketFeeder/Calls.antt =====
-- The feeder under any sequence of calls, and what stays when handles are released.
use deepfeeder.Base.{
  ℕ, String, ◌≡◌, refl, ap, ◌⊎◌, inl, inr, Bool, true, false, Option, none, List, [], ◌∷◌, ◌++◌,
  length, arith, str_eq, eq_iff, Bool-cases, Option-cases, ltb, Any, Any-append_left,
  Any-append_right,
}
use deepfeeder.Base.Dict.{Dict, lookup, lookup-remove, str_eq_refl}
use deepfeeder.MarketFeeder.Subscriptions.{
  Handle, Feeder, Request, Setup, or_zero, subscribe, destroy_listener_if_unused, unsubscribe,
  unsubscribe_each, unsubscribe_all, keys,
}
use deepfeeder.MarketFeeder.Counts.{
  count, is_some, IsCounted, subscribe-IsCounted, unsubscribe-IsCounted, lookup-unsubscribe,
}

-- A client's call, with any arguments.
pub data Call : Type 0 where
  subscribes : Request → ℕ → Option (List String) → Bool → Call
  unsubscribes : String → Call
  unsubscribes_all : Call

abbrev pub new_feeder : {F : Type 0} → Feeder F
new_feeder = record { lsn = []; refs = []; subs = []; handles = []; seqs = []; stopped = [] }

module _ (setup : Setup) {F : Type 0} where
  unfoldable pub after_call : Call → Feeder F → Feeder F
  after_call (subscribes r cb fields only) f = (subscribe setup r cb fields only f).0
  after_call (unsubscribes h) f = unsubscribe h f
  after_call unsubscribes_all f = (unsubscribe_all f).0

  unfoldable pub after_calls : List Call → Feeder F → Feeder F
  unfolding after_call
  after_calls [] f = f
  after_calls (c ∷ cs) f = after_calls cs (after_call c f)

no_handles : (d : Dict Handle) → ((j : String) → lookup j d ≡ none) → d ≡ []
unfolding lookup
no_handles [] h = refl
no_handles ((j, i) ∷ d) h = ground (arith, h j, str_eq_refl j)

in_keys :
    {V : Type 0} (k : String) (d : Dict V) → is_some (lookup k d) ≡ true → Any (λ j. j ≡ k) (keys d)
unfolding lookup
in_keys k [] h = cc h
in_keys k ((j, v) ∷ d) h = elim (Bool-cases (str_eq j k)) [
  | inl here ↦ inl ((eq_iff j k).0 here)
  | inr later ↦ inr (in_keys k d (ground arith))
]

-- Every handle of a list of names is gone after the names were unsubscribed.
module _ {F : Type 0} where
  handles_gone :
      (j : String) (hs : List String) (f : Feeder F)
      → lookup j f.handles ≡ none
      → lookup j (unsubscribe_each hs f).handles ≡ none
  unfolding unsubscribe_each
  handles_gone j [] f e = e
  handles_gone j (h ∷ hs) f e =
      handles_gone j hs (unsubscribe h f) (ground (arith, lookup-unsubscribe h j f))

  named_gone :
      (j : String) (d : Dict Handle) (f : Feeder F)
      → (is_some (lookup j d) ≡ false → lookup j f.handles ≡ none)
      → lookup j (unsubscribe_each (keys d) f).handles ≡ none
  unfolding unsubscribe_each lookup
  named_gone j [] f rest = rest refl
  named_gone j ((h, i) ∷ d) f rest = elim (Bool-cases (str_eq h j)) [
    | inl here ↦
        handles_gone j (keys d) (unsubscribe h f) (ground (arith, lookup-unsubscribe h j f))
    | inr other ↦
        named_gone j d (unsubscribe h f) (λ missing. ground (arith, lookup-unsubscribe h j f, rest))
  ]

  -- The listener of a key is there, or was stopped.
  abbrev Accounted : String → Feeder F → Type 0
  Accounted k f = (is_some (lookup k f.lsn) ≡ true) ⊎ Any (λ j. j ≡ k) f.stopped

  destroy-Accounted :
      (k key : String) (f : Feeder F)
      → Accounted k f
      → Accounted k (destroy_listener_if_unused key f)
  unfolding destroy_listener_if_unused
  destroy-Accounted k key f a = elim (Bool-cases (ltb 0 (or_zero (lookup key f.refs)))) [
    | inl used ↦ rw used a
    | inr unused ↦ rw unused (elim (Option-cases (lookup key f.lsn)) [
      | inl missing ↦ rw missing (elim a [
        | inl there ↦ inl (
            ground (
              arith,
              lookup-remove key k f.lsn,
              eq_iff key k,
              λ (e : key ≡ k). ap (λ j. lookup j f.lsn) e,
            ))
        | inr was ↦ inr was
      ])
      | inr (l, found) ↦ rw found (elim a [
        | inl there ↦ elim (Bool-cases (str_eq key k)) [
          | inl same ↦
              inr (Any-append_right (λ j. j ≡ k) f.stopped (key ∷ []) (inl ((eq_iff key k).0 same)))
          | inr other ↦ inl (ground (arith, lookup-remove key k f.lsn))
        ]
        | inr was ↦ inr (Any-append_left (λ j. j ≡ k) f.stopped (key ∷ []) was)
      ])
    ])
  ]

  unsubscribe-Accounted :
      (k h : String) (f : Feeder F) → Accounted k f → Accounted k (unsubscribe h f)
  unfolding unsubscribe
  unsubscribe-Accounted k h f a = elim (Option-cases (lookup h f.handles)) [
    | inl missing ↦ rw (missing, unsubscribe) a
    | inr (i, found) ↦ rw (found, unsubscribe) (destroy-Accounted k i.key _ a)
  ]

  each-Accounted :
      (k : String) (hs : List String) (f : Feeder F)
      → Accounted k f
      → Accounted k (unsubscribe_each hs f)
  unfolding unsubscribe_each
  each-Accounted k [] f a = a
  each-Accounted k (h ∷ hs) f a =
      each-Accounted k hs (unsubscribe h f) (unsubscribe-Accounted k h f a)

  -- `unsubscribe_all` returns the number of handles, leaves no handle, no listener, no reference and
  -- no callback, and has stopped the listener of every key that had one.
  unsubscribe_all-clears :
      (f : Feeder F)
      → ((unsubscribe_all f).1 ≡ length f.handles)
        × ((unsubscribe_all f).0.handles ≡ [])
        × ((unsubscribe_all f).0.lsn ≡ [])
        × ((unsubscribe_all f).0.refs ≡ [])
        × ((unsubscribe_all f).0.subs ≡ [])
        × ((k : String)
            → is_some (lookup k f.lsn) ≡ true
            → Any (λ j. j ≡ k) (unsubscribe_all f).0.stopped)
  unfolding unsubscribe_all
  unsubscribe_all-clears f = (
    refl,
    no_handles _ (λ j. named_gone j f.handles f (λ missing. ground arith)),
    refl,
    refl,
    refl,
    λ k there. stopped k (each-Accounted k (keys f.handles) f (inl there)),
  )
    where
      stopped :
          (k : String)
          → Accounted k (unsubscribe_each (keys f.handles) f)
          → Any
              (λ j. j ≡ k)
              ((unsubscribe_each (keys f.handles) f).stopped
                ++ keys (unsubscribe_each (keys f.handles) f).lsn)
      stopped k (inl still) = Any-append_right (λ j. j ≡ k) _ _ (in_keys k _ still)
      stopped k (inr was) = Any-append_left (λ j. j ≡ k) _ _ was

module _ (setup : Setup) {F : Type 0} where
  call-IsCounted : (c : Call) (f : Feeder F) → IsCounted f → IsCounted (after_call setup c f)
  unfolding after_call
  call-IsCounted (subscribes r cb fields only) f v = subscribe-IsCounted setup r cb fields only f v
  call-IsCounted (unsubscribes h) f v = unsubscribe-IsCounted h f v
  call-IsCounted unsubscribes_all f v = record {
    counted = λ k. omega (arith, ap (count k) (unsubscribe_all-clears f).1);
    listening = λ k h. absurd (omega (arith, h, ap (count k) (unsubscribe_all-clears f).1));
  }

  -- After any sequence of calls on a new feeder, failed ones included, each key has at least as many
  -- references as handles, and a key with a handle has a listener: no listener is stopped while a
  -- client is subscribed to it.
  pub after_calls-IsCounted :
      (cs : List Call) → IsCounted (after_calls setup cs (new_feeder {F = F}))
  unfolding after_calls
  after_calls-IsCounted cs =
      go cs new_feeder
        (record { counted = λ k. omega arith; listening = λ k h. absurd (omega (arith, h)) })
    where
      go : (cs : List Call) (f : Feeder F) → IsCounted f → IsCounted (after_calls setup cs f)
      go [] f v = v
      go (c ∷ cs) f v = go cs (after_call setup c f) (call-IsCounted c f v)
