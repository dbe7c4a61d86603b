-- ===== src/Tests/Trading.antt =====
-- A bot over numbered envelopes.
use deepfeeder.Client.Tracked.{IsTracked, new_client, after_client_calls-IsTracked}
use deepfeeder.Base.Dict.{lookup, insert, remove}
use deepfeeder.Base.{ℕ, ◌≡◌, refl, true, false, List, [], ◌∷◌, arith, map, none, some}
use deepfeeder.Client.{
  Bot, ended, getting, holding, waiting, Step, runs, receives, starts, stops, pauses, after_steps,
  stop, ClientStream, ClientCall, subscribes_to, handles, unsubscribes_handle, after_client_calls,
  StreamClient, register_stream, start_stream, stop_stream, subscribe_stream, close,
}
use deepfeeder.Client.Ending.{stop-ends}

-- The bot blocks on its empty queue.
abbrev blocked : Bot ℕ
blocked = record {
  q = [];
  maxsize = 1;
  stop_set = false;
  paused = false;
  point = getting;
  subscribed = true;
  dispatched = [];
}

-- The second envelope takes the place of the sentinel.
abbrev late : List (Step ℕ)
late = receives 8 ∷ runs true ∷ receives 9 ∷ runs false ∷ runs true ∷ runs true ∷ []

stop-ends_example :
    ((after_steps late (stop blocked)).point ≡ ended)
    × ((after_steps late (stop blocked)).subscribed ≡ false)
stop-ends_example =
    stop-ends late blocked (λ e p. cc) (tt, (tt, (tt, (tt, (tt, (tt, tt)))))) (omega arith)

-- The thread has seen a pause that was then taken back.
abbrev resumed : Bot ℕ
resumed = record blocked { point = waiting 7 }

abbrev others : List (Step ℕ)
others = runs true ∷ receives 8 ∷ stops ∷ starts ∷ runs true ∷ []

-- A pause that is not taken back does not keep the bot from dispatching.
paused_dispatches :
    (after_steps
      (pauses ∷ runs true ∷ runs true ∷ [])
      (record blocked { point = holding 7 })).dispatched
    ≡ 7 ∷ []
unfolding after_steps
paused_dispatches = refl

abbrev fresh : ℕ → ClientStream
fresh r = record { sid = ""; running = false; last_watermark_ns = none; last_seq = none }

abbrev calls : List ClientCall
calls =
    subscribes_to "btc"
    ∷ handles 0 (some 5) none
    ∷ subscribes_to "btc"
    ∷ subscribes_to "eth"
    ∷ unsubscribes_handle 0
    ∷ []

-- The stream that took the first one's place is stopped, and the other one runs.
which_run :
    map (λ r. ((after_client_calls calls (new_client fresh)).heap r).running) (0 ∷ 1 ∷ 2 ∷ [])
    ≡ false ∷ false ∷ true ∷ []
unfolding after_client_calls lookup insert remove
which_run = refl

after_client_calls-IsTracked_example : IsTracked (after_client_calls calls (new_client fresh))
after_client_calls-IsTracked_example = after_client_calls-IsTracked fresh calls

-- A close between the two steps of a subscribe: the stream runs, and the client does not have it.
abbrev raced : StreamClient
raced = let (c, r) = register_stream "a" (new_client fresh) in start_stream r (close c).0

raced_runs : ((raced.heap 0).running ≡ true) × (lookup "a" raced.streams ≡ none)
unfolding close lookup insert remove
raced_runs = (refl, refl)

-- A stream that is stopped by its own method stays with the client.
stopped_stays :
    let c = stop_stream 0 (subscribe_stream "a" (new_client fresh)).0 in
    ((c.heap 0).running ≡ false) × (lookup "a" c.streams ≡ some 0)
unfolding subscribe_stream lookup insert remove
stopped_stays = (refl, refl)
