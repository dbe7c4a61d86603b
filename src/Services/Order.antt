-- ===== src/Services/Order.antt =====
-- Services end up behind those that they need, and are closed before them.
use deepfeeder.Base.{
  ℕ, zero, suc, String, ◌≡◌, refl, sym, ap, ◌∙◌, true, false, ◌||◌, Option, none, some, List, [],
  ◌∷◌, ◌++◌, str_eq, eq_iff, All, Bool-cases, Option-cases, inl, inr, arith, subst, append-nil,
  append_assoc,
}
use deepfeeder.Base.Dict.{Dict, lookup, str_eq_refl}
use deepfeeder.Services.Building.{
  Factory, Container, Answer, got, failed, unfinished, has, discard, with_key, built, and_then,
  get_each, get,
}

pub has-append : (k : String) (js ks : List String) → has k (js ++ ks) ≡ (has k js || has k ks)
has-append k [] ks = refl
has-append k (j ∷ js) ks = ground (arith, has-append k js ks)

discard-absent : (k : String) (js : List String) → has k js ≡ false → discard k (js ++ k ∷ []) ≡ js
discard-absent k [] h = ground (arith, str_eq_refl k)
discard-absent k (j ∷ js) h = ground (arith, discard-absent k js)

abbrev pub needs : Option Factory → List String
needs none = []
needs (some factory) = factory.needs

abbrev pub needs_of : Dict Factory → String → List String
needs_of d k = needs (lookup k d)

abbrev pub AllIn : List String → List String → Type 0
AllIn js ks = All (λ k. has k js ≡ true) ks

-- Each key stands behind those that its factory needs.
abbrev pub Ready : Dict Factory → List String → List String → Type 0
Ready d before [] = Unit
Ready d before (k ∷ ks) = AllIn before (needs_of d k) × Ready d (before ++ k ∷ []) ks

Ready-push :
    (d : Dict Factory) (before ks : List String) (k : String)
    → Ready d before ks
    → AllIn (before ++ ks) (needs_of d k)
    → Ready d before (ks ++ k ∷ [])
Ready-push d before [] k r all = (subst (λ js. AllIn js (needs_of d k)) (append-nil before) all, tt)
Ready-push d before (j ∷ ks) k r all = (
  r.0,
  Ready-push d (before ++ j ∷ []) ks k r.1
      (subst (λ js. AllIn js (needs_of d k)) (sym (append_assoc before (j ∷ []) ks)) all),
)

-- What a container keeps: an instance for each key that was built, each behind its needs.
pub record IsBuilt (s : Container) : Type 0 where
  pub kept : (k : String) → has k s.instances ≡ has k s.construct_order
  pub ready : Ready s.factories [] s.construct_order

-- What a call that ends keeps and adds.
pub record Grows (s s' : Container) : Type 0 where
  pub same_factories : s'.factories ≡ s.factories
  pub same_constructing : s'.constructing ≡ s.constructing
  pub stays : (k : String) → has k s.instances ≡ true → has k s'.instances ≡ true
  pub is_built : IsBuilt s → IsBuilt s'

abbrev pub Ended : Answer → Type 0
Ended got = Unit
Ended failed = Unit
Ended unfinished = ⊥

abbrev pub Gets : (String → Container → Container × Answer) → Type 0
Gets g =
    (k : String) (s : Container)
    → Ended (g k s).1
    → Grows s (g k s).0 × ((g k s).1 ≡ got → has k (g k s).0.instances ≡ true)

pub Grows-refl : (s : Container) → Grows s s
Grows-refl s = record {
  same_factories = refl;
  same_constructing = refl;
  stays = λ k h. h;
  is_built = λ b. b;
}

pub Grows-trans : (s s' s'' : Container) → Grows s s' → Grows s' s'' → Grows s s''
Grows-trans s s' s'' g g' = record {
  same_factories = g'.same_factories ∙ g.same_factories;
  same_constructing = g'.same_constructing ∙ g.same_constructing;
  stays = λ k h. g'.stays k (g.stays k h);
  is_built = λ b. g'.is_built (g.is_built b);
}

AllIn-stays :
    (s s' : Container) (ks : List String)
    → Grows s s'
    → AllIn s.instances ks
    → AllIn s'.instances ks
AllIn-stays s s' [] g all = tt
AllIn-stays s s' (k ∷ ks) g all = (g.stays k all.0, AllIn-stays s s' ks g all.1)

-- The instances that were asked for one after another are all there.
each-Grows :
    (g : String → Container → Container × Answer) (ks : List String) (s : Container)
    → Gets g
    → Ended (get_each g ks s).1
    → Grows s (get_each g ks s).0
      × ((get_each g ks s).1 ≡ got → AllIn (get_each g ks s).0.instances ks)
unfolding get_each
each-Grows g [] s gets end = (Grows-refl s, λ e. tt)
each-Grows g (k ∷ ks) s gets end =
    go (g k s) (gets k s) (λ s' end'. each-Grows g ks s' gets end') end
  where
    go :
        (r : Container × Answer)
        → (Ended r.1 → Grows s r.0 × (r.1 ≡ got → has k r.0.instances ≡ true))
        → ((s' : Container)
            → Ended (get_each g ks s').1
            → Grows s' (get_each g ks s').0
              × ((get_each g ks s').1 ≡ got → AllIn (get_each g ks s').0.instances ks))
        → Ended (and_then (get_each g ks) r).1
        → Grows s (and_then (get_each g ks) r).0
          × ((and_then (get_each g ks) r).1 ≡ got
              → AllIn (and_then (get_each g ks) r).0.instances (k ∷ ks))
    go (s', got) first rest end =
        let (grows, here) = first tt in
        let (grows', all) = rest s' end in
        (Grows-trans s s' _ grows grows', λ e. (grows'.stays k (here refl), all e))
    go (s', failed) first rest end = ((first tt).0, λ e. cc)
    go (s', unfinished) first rest end = absurd end

AllIn-order :
    (s : Container) (ks : List String)
    → IsBuilt s
    → AllIn s.instances ks
    → AllIn s.construct_order ks
AllIn-order s [] b all = tt
AllIn-order s (k ∷ ks) b all = (sym (b.kept k) ∙ all.0, AllIn-order s ks b all.1)

has-with_key : (j k : String) (js : List String) → has j (with_key k js) ≡ (str_eq k j || has j js)
has-with_key j k js =
    ground (arith, has-append j js (k ∷ []), eq_iff k j, λ (e : k ≡ j). ap (λ i. has i js) e)

-- The key is no longer under construction.
released-Grows :
    (k : String) (s s' : Container)
    → has k s.constructing ≡ false
    → Grows (record s { constructing = s.constructing ++ k ∷ [] }) s'
    → Grows s (record s' { constructing = discard k s'.constructing })
released-Grows k s s' free g = record {
  same_factories = g.same_factories;
  same_constructing = ap (discard k) g.same_constructing ∙ discard-absent k s.constructing free;
  stays = g.stays;
  is_built = λ b.
      let b' = g.is_built (record { kept = b.kept; ready = b.ready }) in
      record { kept = b'.kept; ready = b'.ready };
}

-- An instance is kept of a key whose needs are there.
kept-Grows :
    (k : String) (s : Container)
    → AllIn s.instances (needs_of s.factories k)
    → Grows s (record s {
      instances = with_key k s.instances;
      construct_order = s.construct_order ++ k ∷ [];
    })
kept-Grows k s there = record {
  same_factories = refl;
  same_constructing = refl;
  stays = λ j h. ground (arith, has-with_key j k s.instances);
  is_built = λ b. record {
    kept = λ j.
        ground
          (arith, has-with_key j k s.instances, has-append j s.construct_order (k ∷ []), b.kept j);
    ready =
        Ready-push s.factories [] s.construct_order k b.ready
          (AllIn-order s (needs_of s.factories k) b there);
  };
}

-- The end of `get` after the needs of the key.
built-Grows :
    (k : String) (factory : Factory) (s : Container) (r : Container × Answer)
    → lookup k s.factories ≡ some factory
    → has k s.constructing ≡ false
    → Ended (built k factory.raises r).1
    → (Ended r.1
        → Grows (record s { constructing = s.constructing ++ k ∷ [] }) r.0
          × (r.1 ≡ got → AllIn r.0.instances factory.needs))
    → Grows s (built k factory.raises r).0
      × ((built k factory.raises r).1 ≡ got → has k (built k factory.raises r).0.instances ≡ true)
built-Grows k factory s (s', got) known free end each =
    let (g, all) = each tt in
    let s2 : Container = record s' { constructing = discard k s'.constructing } in
    let same : needs_of s'.factories k ≡ factory.needs =
      ap (λ d. needs_of d k) g.same_factories ∙ ap needs known in
    elim (Bool-cases factory.raises) [
      | inl raised ↦ rw raised (released-Grows k s s' free g, λ e. cc)
      | inr fine ↦ rw fine (
        Grows-trans s s2 _ (released-Grows k s s' free g)
            (kept-Grows k s2 (subst (AllIn s'.instances) (sym same) (all refl))),
        λ e. has-with_key k k s'.instances ∙ rw (str_eq_refl k) refl,
      )
    ]
built-Grows k factory s (s', failed) known free end each =
    (released-Grows k s s' free (each tt).0, λ e. cc)
built-Grows k factory s (s', unfinished) known free end each = absurd end

pub get-Grows : (n : ℕ) → Gets (get n)
unfolding get
get-Grows zero k s end = absurd end
get-Grows (suc n) k s end = elim (Bool-cases (has k s.instances)) [
  | inl there ↦ rw (there, get) (Grows-refl s, λ e. there)
  | inr new ↦ elim (Option-cases (lookup k s.factories)) [
    | inl unknown ↦ rw (new, unknown, get) (Grows-refl s, λ e. cc)
    | inr (factory, known) ↦ elim (Bool-cases (has k s.constructing)) [
      | inl cyclic ↦ rw (new, known, cyclic, get) (Grows-refl s, λ e. cc)
      | inr free ↦
          let s1 : Container = record s { constructing = s.constructing ++ k ∷ [] } in
          rw (new, known, free, get)
            (built-Grows k factory s (get_each (get n) factory.needs s1) known free
              (rw (new, known, free, get) at end)
              (each-Grows (get n) factory.needs s1 (get-Grows n)))
    ]
  ]
]
