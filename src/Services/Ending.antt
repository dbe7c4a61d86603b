-- ===== src/Services/Ending.antt =====
-- Building a service ends, and the container closes its services in a safe order.
use deepfeeder.Base.{
  ℕ, zero, suc, ◌+◌, ◌≤◌, ◌<◌, String, ◌≡◌, refl, sym, ap, ap₂, ◌∙◌, subst, Bool, true, false, some,
  List, [], ◌∷◌, ◌++◌, length, str_eq, eq_iff, if◌then◌else◌, Bool-cases, Option-cases, inl, inr,
  arith, ◌≢◌, take, filter, map,
}
use deepfeeder.Base.Dict.{Dict, lookup}
use deepfeeder.Services.Building.{
  Factory, Container, Answer, got, failed, unfinished, has, built, and_then, get_each, get, Service,
  closer_name_order,
}
use deepfeeder.Services.Order.{
  has-append, needs_of, AllIn, Grows, Grows-refl, Grows-trans, Ended, Gets, get-Grows,
}

-- The number of factories whose keys are not under construction.
abbrev pub idle : List String → Dict Factory → ℕ
idle keys [] = 0
idle keys ((j, factory) ∷ d) = (if has j keys then 0 else 1) + idle keys d

idle-more :
    (keys : List String) (k : String) (d : Dict Factory) → idle (keys ++ k ∷ []) d ≤ idle keys d
idle-more keys k [] = omega arith
idle-more keys k ((j, factory) ∷ d) = ground (arith, idle-more keys k d, has-append j keys (k ∷ []))

idle-push :
    (keys : List String) (k : String) (factory : Factory) (d : Dict Factory)
    → lookup k d ≡ some factory
    → has k keys ≡ false
    → idle (keys ++ k ∷ []) d < idle keys d
unfolding lookup
idle-push keys k factory [] known free = cc known
idle-push keys k factory ((j, other) ∷ d) known free = elim (Bool-cases (str_eq j k)) [
  | inl here ↦
      let free' : has j keys ≡ false = ap (λ i. has i keys) ((eq_iff j k).0 here) ∙ free in
      let now : has j (keys ++ k ∷ []) ≡ true =
        has-append j keys (k ∷ []) ∙ rw (free', (eq_iff k j).1 (sym ((eq_iff j k).0 here))) refl in
      rw (now, free') (omega (arith, idle-more keys k d))
  | inr later ↦
      let rest = idle-push keys k factory d (ground (arith)) free in
      ground (arith, rest, has-append j keys (k ∷ []), eq_iff k j, eq_iff j k)
]

abbrev pub idle_in : Container → ℕ
idle_in s = idle s.constructing s.factories

each-ends :
    (g : String → Container → Container × Answer) (m : ℕ)
    → Gets g
    → ((k : String) (s : Container) → idle_in s < m → Ended (g k s).1)
    → (ks : List String) (s : Container) → idle_in s < m
    → Ended (get_each g ks s).1
unfolding get_each
each-ends g m gets ends [] s enough = tt
each-ends g m gets ends (k ∷ ks) s enough =
    go (g k s) (ends k s enough) (λ end. (gets k s end).0)
      (λ s' less. each-ends g m gets ends ks s' less)
  where
    go :
        (r : Container × Answer)
        → Ended r.1
        → (Ended r.1 → Grows s r.0)
        → ((s' : Container) → idle_in s' < m → Ended (get_each g ks s').1)
        → Ended (and_then (get_each g ks) r).1
    go (s', got) end grows rest =
        let same : idle_in s' ≡ idle_in s =
          ap₂ idle (grows tt).same_constructing (grows tt).same_factories in
        rest s' (omega (arith, same, enough))
    go (s', failed) end grows rest = tt
    go (s', unfinished) end grows rest = absurd end

built-ends :
    (k : String) (raises : Bool) (r : Container × Answer) → Ended r.1 → Ended (built k raises r).1
built-ends k true (s, got) end = tt
built-ends k false (s, got) end = tt
built-ends k raises (s, failed) end = tt
built-ends k raises (s, unfinished) end = absurd end

pub get-ends : (n : ℕ) (k : String) (s : Container) → idle_in s < n → Ended (get n k s).1
unfolding get
get-ends zero k s enough = absurd (omega (arith, enough))
get-ends (suc n) k s enough = elim (Bool-cases (has k s.instances)) [
  | inl there ↦ rw (there, get) tt
  | inr new ↦ elim (Option-cases (lookup k s.factories)) [
    | inl unknown ↦ rw (new, unknown, get) tt
    | inr (factory, known) ↦ elim (Bool-cases (has k s.constructing)) [
      | inl cyclic ↦ rw (new, known, cyclic, get) tt
      | inr free ↦
          rw (new, known, free, get)
            (built-ends k factory.raises _ (
              each-ends (get n) n (get-Grows n) (get-ends n) factory.needs
                (record s { constructing = s.constructing ++ k ∷ [] })
                (omega (arith, enough, idle-push s.constructing k factory s.factories known free))))
    ]
  ]
]

-- Each key has those that its factory needs behind it.
abbrev pub ClosedFirst : Dict Factory → List String → Type 0
ClosedFirst d [] = Unit
ClosedFirst d (k ∷ ks) = AllIn ks (needs_of d k) × ClosedFirst d ks

abbrev pub new_container : Dict Factory → Container
new_container d = record {
  factories = d;
  instances = [];
  construct_order = [];
  constructing = [];
  shutdown_hooks = [];
}

-- One `get` after another, whatever they answer.
unfoldable pub after_gets : ℕ → List String → Container → Container
after_gets n [] s = s
after_gets n (k ∷ ks) s = after_gets n ks (get n k s).0

gets-Grows :
    (n : ℕ) (ks : List String) (s : Container) → idle_in s < n → Grows s (after_gets n ks s)
unfolding after_gets
gets-Grows n [] s enough = Grows-refl s
gets-Grows n (k ∷ ks) s enough =
    let g = (get-Grows n k s (get-ends n k s enough)).0 in
    let same : idle_in (get n k s).0 ≡ idle_in s = ap₂ idle g.same_constructing g.same_factories in
    Grows-trans s (get n k s).0 _ g (gets-Grows n ks (get n k s).0 (omega (arith, same, enough)))

idle-le : (d : Dict Factory) → idle [] d ≤ length d
idle-le [] = omega arith
idle-le ((j, factory) ∷ d) = omega (arith, idle-le d)

-- With one turn of fuel more than there are factories, `get` ends after any earlier calls of it, with
-- an instance or an exception, whatever the factories need of each other, and leaves no key under
-- construction.
get_after-ends :
    (d : Dict Factory) (ks : List String) (k : String)
    → let s = after_gets (suc (length d)) ks (new_container d) in
      let (s', outcome) = get (suc (length d)) k s in
      (outcome ≢ unfinished) × (s'.constructing ≡ []) × (outcome ≡ got → has k s'.instances ≡ true)
get_after-ends d ks k =
    let n = suc (length d) in
    let before = gets-Grows n ks (new_container d) (omega (arith, idle-le d)) in
    let s = after_gets n ks (new_container d) in
    let same : idle_in s ≡ idle [] d = ap₂ idle before.same_constructing before.same_factories in
    let end = get-ends n k s (omega (arith, same, idle-le d)) in
    let (g, there) = get-Grows n k s end in
    (λ e. subst Ended e end, g.same_constructing ∙ before.same_constructing, there)

-- The first of the closing methods that an instance has, where it is not None.
abbrev pub closer_of : Service → List String
closer_of o =
    if o.is_none then [] else take 1 (filter (λ name. has name o.methods) closer_name_order)

abbrev pub closings : (String → Service) → List String → List (String × String)
closings objs [] = []
closings objs (k ∷ ks) = map (λ name. (k, name)) (closer_of (objs k)) ++ closings objs ks
