-- ===== src/MarketFeeder/Subscriptions.antt =====
-- The state of `MarketFeeder`, and `subscribe`, `unsubscribe` and `unsubscribe_all`. A callback is
-- its `id`; heartbeats and events of the event log are left out.
use deepfeeder.Base.{
  ℕ, ◌+◌, ◌-◌, String, Bool, Option, none, some, List, [], ◌∷◌, ◌++◌, map, length, filter, ltb, not,
  ◌==◌, str_eq, prefixed, if◌then◌else◌,
}
use deepfeeder.Base.Dict.{Dict, lookup, insert, remove}
use deepfeeder.Listener.{SchemaSpec, Listener}

abbrev pub keys : {V : Type 0} → Dict V → List String
keys d = map (λ e. e.0) d

pub record Handle : Type 0 where
  pub key : String
  pub callback : ℕ
  pub fields : Option (List String)
  pub only_completed : Bool

-- `stopped` is what `stop` was called on, by key, oldest first.
pub record Feeder (F : Type 0) : Type 0 where
  pub lsn : Dict (Listener F)
  pub refs : Dict ℕ
  pub subs : Dict (List ℕ)
  pub handles : Dict Handle
  pub seqs : Dict ℕ
  pub stopped : List String

pub record Request : Type 0 where
  pub provider : String
  pub data_schema : String
  pub symbol : String
  pub exchange : Option String

-- `d.get(key, 0)`
abbrev pub or_zero : Option ℕ → ℕ
or_zero none = 0
or_zero (some n) = n

-- What the feeder takes from outside: `SCHEMAS`, whether Deephaven opens a view and a listener on a
-- key, `str.upper`, the decimal text of a number, the length of listener buffers, and
-- the whole second, in nanoseconds, that fromtimestamp of the float quotient and strftime make of a time.
pub record Setup : Type 0 where
  pub schemas : String → String → Option SchemaSpec
  pub opens : String → Bool
  pub upper : String → String
  pub text : ℕ → String
  pub buf_len : ℕ
  pub second_of : ℕ → ℕ

abbrev pub at_exchange : (String → String) → Option String → String
at_exchange upper none = ""
at_exchange upper (some e) = if str_eq e "" then "" else prefixed "@" (upper e)

abbrev pub new_listener : {F : Type 0} → SchemaSpec → ℕ → Listener F
new_listener spec maxlen = record {
  spec = spec;
  curr = none;
  buf = [];
  buf_maxlen = maxlen;
  msg_count = 0;
}

-- `d.setdefault(key, set())`
abbrev pub with_set : String → Dict (List ℕ) → Dict (List ℕ)
with_set key subs = elim (lookup key subs) [ none ↦ insert key [] subs | some s ↦ subs ]

abbrev pub set_of : Option (List ℕ) → List ℕ
set_of none = []
set_of (some s) = s

abbrev pub without : ℕ → List ℕ → List ℕ
without cb s = filter (λ c. not (c == cb)) s

abbrev pub add_callback : ℕ → String → Dict (List ℕ) → Dict (List ℕ)
add_callback cb key subs = insert key (without cb (set_of (lookup key subs)) ++ cb ∷ []) subs

abbrev pub drop_callback : ℕ → String → Dict (List ℕ) → Dict (List ℕ)
drop_callback cb key subs = elim (lookup key subs) [
  | none ↦ subs
  | some s ↦ insert key (without cb s) subs
]

module _ (setup : Setup) where
  -- `_key`
  unfoldable pub feed_key : Request → String
  feed_key r = prefixed r.provider (
      prefixed "|" (
        prefixed r.data_schema
          (prefixed "|" (prefixed r.symbol (at_exchange setup.upper r.exchange)))))

  abbrev pub handle_of : String → ℕ → String
  handle_of key cb = prefixed key (prefixed ":" (setup.text cb))

  module _ {F : Type 0} where
    abbrev pub with_listener : String → SchemaSpec → Feeder F → Feeder F
    with_listener key spec f = record f {
      lsn = insert key (new_listener spec setup.buf_len) f.lsn;
      subs = with_set key f.subs;
    }

    -- `_ensure_listener`; `none` is an exception, which leaves the feeder as it was.
    unfoldable pub ensure_listener : Request → Feeder F → Option (Feeder F)
    unfolding feed_key
    ensure_listener r f =
        let key = feed_key r in
        elim (lookup key f.lsn) [
          | some l ↦ some f
          | none ↦ elim (setup.schemas r.provider r.data_schema) [
            | none ↦ none
            | some spec ↦ if setup.opens key then some (with_listener key spec f) else none
          ]
        ]

    -- What follows `_ensure_listener` in `subscribe`.
    unfoldable pub add_handle :
        String
        → ℕ
        → Option (List String)
        → Bool
        → Option (Feeder F)
        → Feeder F
        → Feeder F × Option String
    add_handle key cb fields only_completed none counted = (counted, none)
    add_handle key cb fields only_completed (some f) counted = (
      record f {
        handles =
            insert (handle_of key cb)
              (record {
                key = key;
                callback = cb;
                fields = fields;
                only_completed = only_completed;
              })
              f.handles;
        subs = add_callback cb key f.subs;
      },
      some (handle_of key cb),
    )

    -- `subscribe`, with the handle, or `none` for an exception.
    unfoldable pub subscribe :
        Request → ℕ → Option (List String) → Bool → Feeder F → Feeder F × Option String
    unfolding ensure_listener add_handle
    subscribe r cb fields only_completed f =
        let key = feed_key r in
        let counted = record f { refs = insert key (or_zero (lookup key f.refs) + 1) f.refs } in
        add_handle key cb fields only_completed (ensure_listener r counted) counted

module _ {F : Type 0} where
  -- `_destroy_listener_if_unused`
  unfoldable pub destroy_listener_if_unused : String → Feeder F → Feeder F
  destroy_listener_if_unused key f = if ltb 0 (or_zero (lookup key f.refs)) then f else record f {
    lsn = remove key f.lsn;
    stopped = elim (lookup key f.lsn) [ none ↦ f.stopped | some l ↦ f.stopped ++ key ∷ [] ];
    subs = remove key f.subs;
  }

  unfoldable pub unsubscribe : String → Feeder F → Feeder F
  unfolding destroy_listener_if_unused
  unsubscribe handle f = elim (lookup handle f.handles) [
    | none ↦ f
    | some info ↦ destroy_listener_if_unused info.key (record f {
      handles = remove handle f.handles;
      subs = drop_callback info.callback info.key f.subs;
      refs = insert info.key (or_zero (lookup info.key f.refs) - 1) f.refs;
    })
  ]

  unfoldable pub unsubscribe_each : List String → Feeder F → Feeder F
  unfolding unsubscribe
  unsubscribe_each [] f = f
  unsubscribe_each (h ∷ hs) f = unsubscribe_each hs (unsubscribe h f)

  -- `unsubscribe_all`, with the number that it returns.
  unfoldable pub unsubscribe_all : Feeder F → Feeder F × ℕ
  unfolding unsubscribe_each
  unsubscribe_all f =
      let f' = unsubscribe_each (keys f.handles) f in
      (
        record f' { lsn = []; refs = []; subs = []; stopped = f'.stopped ++ keys f'.lsn },
        length f.handles,
      )
