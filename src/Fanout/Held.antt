-- ===== src/Fanout/Held.antt =====
-- When a connection releases its handle on the market feeder, and when it does not.
use deepfeeder.Base.{
  String, ◌≡◌, refl, sym, ap, ◌∙◌, true, false, none, some, List, [], ◌∷◌, ◌++◌, map, append-nil,
  append_assoc,
}
use deepfeeder.MarketFeeder.{Feeder}
use deepfeeder.Fanout.Socket.{
  send, Connection, web_socket_disconnect, runtime_error, cancelled_error, Step, emits, runs,
  receives, after_steps, attached,
}

module _ {E : Type 0} where
  -- No send fails and the handler is not cancelled; the client may go at any time.
  abbrev pub IsSteady : List (Step E) → Type 0
  IsSteady [] = Unit
  IsSteady (emits env ∷ ss) = IsSteady ss
  IsSteady (runs true ∷ ss) = IsSteady ss
  IsSteady (runs false ∷ ss) = ⊥
  IsSteady (receives none ∷ ss) = IsSteady ss
  IsSteady (receives (some web_socket_disconnect) ∷ ss) = IsSteady ss
  IsSteady (receives (some runtime_error) ∷ ss) = IsSteady ss
  IsSteady (receives (some cancelled_error) ∷ ss) = ⊥

  abbrev pub emitted : List (Step E) → List E
  emitted [] = []
  emitted (emits env ∷ ss) = env ∷ emitted ss
  emitted (runs sends ∷ ss) = emitted ss
  emitted (receives raised ∷ ss) = emitted ss

  map-snoc : (es : List E) (e : E) → map send es ++ send e ∷ [] ≡ map send (es ++ e ∷ [])
  map-snoc [] e = refl
  map-snoc (x ∷ es) e = ap (◌∷◌ (send x)) (map-snoc es e)

  one_more :
      (out waiting : List E) (e : E) (rest : List E)
      → (out ++ (waiting ++ e ∷ [])) ++ rest ≡ (out ++ waiting) ++ e ∷ rest
  one_more out waiting e rest =
      ap (λ l. l ++ rest) (sym (append_assoc out waiting (e ∷ [])))
      ∙ append_assoc (out ++ waiting) (e ∷ []) rest

module _ {F E : Type 0} where
  -- The connection that has sent `out` of what was emitted, and still has `waiting` to send.
  abbrev pub open_at : String → Feeder F → List E → List E → Connection F E
  open_at handle f out waiting = record {
    feeder = f;
    handle = some handle;
    closed = false;
    unsub_done = false;
    send_err_count = 0;
    jobs = map send waiting;
    sent = out;
    serving = true;
  }

  steady_from :
      (ss : List (Step E)) (handle : String) (f : Feeder F) (out waiting : List E)
      → IsSteady ss
      → (out' waiting' : List E) × (after_steps ss (open_at handle f out waiting)
          ≡ open_at handle f out' waiting')
        × (out' ++ waiting' ≡ (out ++ waiting) ++ emitted ss)
  unfolding after_steps
  steady_from [] handle f out waiting steady =
      (out, waiting, refl, sym (append-nil (out ++ waiting)))
  steady_from (emits env ∷ ss) handle f out waiting steady =
      let (out', waiting', runs_to, order) =
        steady_from ss handle f out (waiting ++ env ∷ []) steady in
      (
        out',
        waiting',
        ap (λ js. after_steps ss (record (open_at handle f out []) { jobs = js }))
              (map-snoc waiting env)
            ∙ runs_to,
        order ∙ one_more out waiting env (emitted ss),
      )
  steady_from (runs true ∷ ss) handle f out [] steady = steady_from ss handle f out [] steady
  steady_from (runs true ∷ ss) handle f out (e ∷ waiting) steady =
      let (out', waiting', runs_to, order) =
        steady_from ss handle f (out ++ e ∷ []) waiting steady in
      (
        out',
        waiting',
        runs_to,
        order ∙ ap (λ l. l ++ emitted ss) (append_assoc out (e ∷ []) waiting),
      )
  steady_from (runs false ∷ ss) handle f out waiting steady = elim steady [ ]
  steady_from (receives none ∷ ss) handle f out waiting steady =
      steady_from ss handle f out waiting steady
  steady_from (receives (some web_socket_disconnect) ∷ ss) handle f out waiting steady =
      steady_from ss handle f out waiting steady
  steady_from (receives (some runtime_error) ∷ ss) handle f out waiting steady =
      steady_from ss handle f out waiting steady
  steady_from (receives (some cancelled_error) ∷ ss) handle f out waiting steady = elim steady [ ]

  -- While no send fails and nobody cancels the handler, it stays in its loop and the feeder keeps the subscription, also once the client has gone; what was emitted is sent in order, none of it twice.
  pub after_steps-serving :
      (ss : List (Step E)) (handle : String) (envs : List E) (f : Feeder F)
      → IsSteady ss
      → let c = after_steps ss (attached handle envs f) in
        (waiting : List E) × (c.serving ≡ true)
        × (c.feeder ≡ f)
        × (c.jobs ≡ map send waiting)
        × (c.sent ++ waiting ≡ envs ++ emitted ss)
  unfolding attached
  after_steps-serving ss handle envs f steady =
      let (out, waiting, runs_to, order) = steady_from ss handle f [] envs steady in
      (
        waiting,
        ap (λ (c : Connection F E). c.serving) runs_to,
        ap (λ (c : Connection F E). c.feeder) runs_to,
        ap (λ (c : Connection F E). c.jobs) runs_to,
        ap (λ (c : Connection F E). c.sent ++ waiting) runs_to ∙ order,
      )
