-- ===== src/Services/Building.antt =====
-- `Services`. A factory gets the services that it needs, one after another, and then returns an
-- instance or raises. Instances are their keys; one thread uses the container.
use deepfeeder.Base.{
  ℕ, zero, suc, String, Bool, true, false, ◌||◌, not, none, some, List, [], ◌∷◌, ◌++◌, filter,
  str_eq, if◌then◌else◌, ◌&&◌, map,
}
use deepfeeder.Base.Dict.{Dict, lookup, insert}

pub record Factory : Type 0 where
  pub needs : List String
  pub raises : Bool

pub record Container : Type 0 where
  pub factories : Dict Factory
  pub instances : List String
  pub construct_order : List String
  pub constructing : List String
  pub shutdown_hooks : List ℕ

-- `unfinished` is that the fuel ran out.
pub data Answer : Type 0 where
  got failed unfinished : Answer

-- `key in keys`
abbrev pub has : String → List String → Bool
has k [] = false
has k (j ∷ js) = str_eq j k || has k js

abbrev pub discard : String → List String → List String
discard k js = filter (λ j. not (str_eq j k)) js

abbrev pub with_key : String → List String → List String
with_key k js = if has k js then js else js ++ k ∷ []

unfoldable pub register_factory : String → Factory → Container → Container
register_factory k factory s = record s { factories = insert k factory s.factories }

unfoldable pub register_instance : String → Container → Container
register_instance k s = record s {
  instances = with_key k s.instances;
  construct_order = s.construct_order ++ k ∷ [];
}

unfoldable pub try_get : String → Container → Bool
try_get k s = has k s.instances

-- The end of `get`: the key is no longer under construction, and an instance is kept.
abbrev pub built : String → Bool → Container × Answer → Container × Answer
built k raises (s, got) =
    let s' = record s { constructing = discard k s.constructing } in
    if raises then (s', failed) else (
      record s' {
        instances = with_key k s.instances;
        construct_order = s.construct_order ++ k ∷ [];
      },
      got,
    )
built k raises (s, failed) = (record s { constructing = discard k s.constructing }, failed)
built k raises (s, unfinished) = (s, unfinished)

abbrev pub and_then : (Container → Container × Answer) → Container × Answer → Container × Answer
and_then f (s, got) = f s
and_then f (s, failed) = (s, failed)
and_then f (s, unfinished) = (s, unfinished)

-- What a factory gets before it returns.
unfoldable pub get_each :
    (String → Container → Container × Answer) → List String → Container → Container × Answer
get_each g [] s = (s, got)
get_each g (k ∷ ks) s = and_then (get_each g ks) (g k s)

-- `get`, on fuel.
unfoldable pub get : ℕ → String → Container → Container × Answer
unfolding get_each
get zero k s = (s, unfinished)
get (suc n) k s = elim (has k s.instances) [
  | true ↦ (s, got)
  | false ↦ elim (lookup k s.factories) [
    | none ↦ (s, failed)
    | some factory ↦ elim (has k s.constructing) [
      | true ↦ (s, failed)
      | false ↦
          built k factory.raises
            (get_each (get n) factory.needs (record s { constructing = s.constructing ++ k ∷ [] }))
    ]
  ]
]

abbrev pub reversed : {A : Type 0} → List A → List A
reversed [] = []
reversed (x ∷ xs) = reversed xs ++ x ∷ []

unfoldable pub on_shutdown : ℕ → Container → Container
on_shutdown hook s = record s { shutdown_hooks = s.shutdown_hooks ++ hook ∷ [] }

-- An instance: whether it is None, the names of its methods, and those of them that raise.
pub record Service : Type 0 where
  pub is_none : Bool
  pub methods : List String
  pub raising : List String

abbrev pub closer_name_order : List String
closer_name_order = "shutdown" ∷ "close" ∷ "stop" ∷ "flush" ∷ []

-- The method that the loop over the names calls, if there is one.
unfoldable pub close_by : List String → Service → List String
close_by [] o = []
close_by (name ∷ names) o =
    let later = close_by names o in if has name o.methods then name ∷ [] else later

-- The methods that are called when a thread-like service is joined.
abbrev pub join_service : Service → List String
join_service o =
    let closers = close_by closer_name_order o in
    if has "stop" o.raising
    then "stop" ∷ closers
    else "stop" ∷ "join" ∷ (if has "join" o.raising then closers else [])

abbrev pub close_service : Bool → Service → List String
close_service join o =
    let closers = close_by closer_name_order o in
    if o.is_none
    then []
    else if join && (has "stop" o.methods && has "join" o.methods)
    then join_service o
    else closers

unfoldable pub close_each : Bool → (String → Service) → List String → List (String × String)
unfolding close_by
close_each join objs [] = []
close_each join objs (k ∷ ks) =
    map (λ name. (k, name)) (close_service join (objs k)) ++ close_each join objs ks

-- The hooks that `shutdown` calls, and the methods of the instances, each in its order; what they raise
-- is passed over.
unfoldable pub shutdown : Bool → (String → Service) → Container → List ℕ × List (String × String)
unfolding close_each
shutdown join objs s =
    (reversed s.shutdown_hooks, close_each join objs (reversed s.construct_order))
