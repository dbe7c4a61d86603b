-- ===== src/Client/Tracked.antt =====
-- Which streams of a client run.
use deepfeeder.Base.{
  ℕ, ◌+◌, ◌<◌, String, ◌≡◌, refl, ap, ◌∙◌, true, false, Option, none, some, List, [], ◌∷◌, arith,
  eq_iff, Option-cases, inl, inr, ◌≢◌, subst,
}
use deepfeeder.Base.Dict.{Dict, lookup, insert, remove, lookup-insert, lookup-remove, str_eq_refl}
use deepfeeder.Client.Registry.{
  ClientStream, StreamClient, put_at, halt, halt_old, subscribe_stream, unsubscribe_id,
  unsubscribe_stream, halt_all, close, handle_envelope, ClientCall, subscribes_to,
  unsubscribes_from, unsubscribes_handle, closes, handles, after_client_call, after_client_calls,
}

-- A stream is registered under its id, and under no other, exactly while it runs.
pub record IsTracked (c : StreamClient) : Type 0 where
  pub old : (k : String) (r : ℕ) → lookup k c.streams ≡ some r → r < c.next
  pub named : (k : String) (r : ℕ) → lookup k c.streams ≡ some r → (c.heap r).sid ≡ k
  pub runs : (k : String) (r : ℕ) → lookup k c.streams ≡ some r → (c.heap r).running ≡ true
  pub registered :
      (r : ℕ) → r < c.next → (c.heap r).running ≡ true → lookup (c.heap r).sid c.streams ≡ some r

-- A registered stream is told to stop and taken out.
halted-IsTracked :
    (k : String) (r : ℕ) (c : StreamClient)
    → lookup k c.streams ≡ some r
    → IsTracked c
    → IsTracked (record c { heap = halt r c.heap; streams = remove k c.streams })
halted-IsTracked k r c e t = record {
  old = λ j i h. ground (arith, lookup-remove k j c.streams, t.old j i);
  named = λ j i h. ground (arith, lookup-remove k j c.streams, t.named j i, t.named k r e);
  runs = λ j i h. ground (
    arith,
    lookup-remove k j c.streams,
    t.runs j i,
    t.named j i,
    t.named k r e,
    eq_iff k j,
    λ (p : r ≡ i). ap c.heap p,
  );
  registered = λ i less h. ground (
    arith,
    lookup-remove k (c.heap i).sid c.streams,
    t.registered i less,
    eq_iff k (c.heap i).sid,
    e,
    λ (p : k ≡ (c.heap i).sid). ap (λ x. lookup x c.streams) p,
  );
}

unsubscribe_id-IsTracked :
    (sid : String) (c : StreamClient) → IsTracked c → IsTracked (unsubscribe_id sid c).0
unfolding unsubscribe_id
unsubscribe_id-IsTracked sid c t = elim (Option-cases (lookup sid c.streams)) [
  | inl missing ↦ rw (missing, unsubscribe_id) t
  | inr (r, e) ↦ rw (e, unsubscribe_id) (halted-IsTracked sid r c e t)
]

-- The id is free for a new stream.
freed-IsTracked :
    (sid : String) (c : StreamClient)
    → IsTracked c
    → IsTracked
        (record c { heap = halt_old (lookup sid c.streams) c.heap; streams = remove sid c.streams })
freed-IsTracked sid c t = elim (Option-cases (lookup sid c.streams)) [
  | inl missing ↦ rw missing (record {
    old = λ j i h. ground (arith, lookup-remove sid j c.streams, t.old j i);
    named = λ j i h. ground (arith, lookup-remove sid j c.streams, t.named j i);
    runs = λ j i h. ground (arith, lookup-remove sid j c.streams, t.runs j i);
    registered = λ i less h. ground (
      arith,
      lookup-remove sid (c.heap i).sid c.streams,
      t.registered i less,
      eq_iff sid (c.heap i).sid,
      missing,
      λ (p : sid ≡ (c.heap i).sid). ap (λ x. lookup x c.streams) p,
    );
  })
  | inr (r, e) ↦ rw e (halted-IsTracked sid r c e t)
]

pushed-IsTracked :
    (sid : String) (c : StreamClient)
    → lookup sid c.streams ≡ none
    → IsTracked c
    → IsTracked (record {
      heap =
          put_at c.next
            (record { sid = sid; running = true; last_watermark_ns = none; last_seq = none })
            c.heap;
      next = c.next + 1;
      streams = insert sid c.next c.streams;
    })
pushed-IsTracked sid c free t = record {
  old = λ j i h. ground (arith, lookup-insert sid j c.next c.streams, t.old j i);
  named = λ j i h.
      ground (arith, lookup-insert sid j c.next c.streams, t.named j i, t.old j i, eq_iff sid j);
  runs = λ j i h. ground (arith, lookup-insert sid j c.next c.streams, t.runs j i, t.old j i);
  registered = λ i less h. ground (
    arith,
    lookup-insert sid sid c.next c.streams,
    str_eq_refl sid,
    lookup-insert sid (c.heap i).sid c.next c.streams,
    t.registered i,
    free,
    eq_iff sid (c.heap i).sid,
    λ (p : sid ≡ (c.heap i).sid). ap (λ x. lookup x c.streams) p,
  );
}

-- A stream that is registered and then started is as one that is registered as running.
started_alike :
    (sid : String) (n : ℕ) (heap : ℕ → ClientStream) (r : ℕ)
    → let registered =
        put_at n
          (record { sid = sid; running = false; last_watermark_ns = none; last_seq = none })
          heap in
      put_at n
        (record { sid = sid; running = true; last_watermark_ns = none; last_seq = none })
        heap
        r
      ≡ put_at n (record (registered n) { running = true }) registered r
started_alike sid n heap r = ground arith

subscribe_stream-IsTracked :
    (sid : String) (c : StreamClient) → IsTracked c → IsTracked (subscribe_stream sid c).0
unfolding subscribe_stream
subscribe_stream-IsTracked sid c t =
    subst
      (λ h. IsTracked (record {
        heap = h;
        next = c.next + 1;
        streams = insert sid c.next (remove sid c.streams);
      }))
      (λ i r. started_alike sid c.next (halt_old (lookup sid c.streams) c.heap) r i)
      (pushed-IsTracked sid
        (record c { heap = halt_old (lookup sid c.streams) c.heap; streams = remove sid c.streams })
        (lookup-remove sid sid c.streams ∙ rw (str_eq_refl sid) refl) (freed-IsTracked sid c t))

-- `halt_all` only stops streams, and stops all that it is given.
halt_all-running :
    (d : Dict ℕ) (heap : ℕ → ClientStream) (r : ℕ)
    → (halt_all d heap r).running ≡ true
    → ((heap r).running ≡ true) × ((k : String) → lookup k d ≢ some r)
unfolding lookup
halt_all-running [] heap r h = (h, λ k e. cc)
halt_all-running ((j, i) ∷ d) heap r h =
    let (was, rest) = halt_all-running d (halt i heap) r h in
    (ground arith, λ k e. ground (arith, rest k))

halt_all-sid :
    (d : Dict ℕ) (heap : ℕ → ClientStream) (r : ℕ) → (halt_all d heap r).sid ≡ (heap r).sid
halt_all-sid [] heap r = refl
halt_all-sid ((j, i) ∷ d) heap r =
    halt_all-sid d (halt i heap) r ∙ ground (arith, λ (p : i ≡ r). ap heap p)

close-IsTracked : (c : StreamClient) → IsTracked c → IsTracked (close c).0
unfolding close lookup
close-IsTracked c t = record {
  old = λ k r h. cc;
  named = λ k r h. cc;
  runs = λ k r h. cc;
  registered = λ r less h.
      let (was, gone) = halt_all-running c.streams c.heap r h in
      absurd (gone (c.heap r).sid (t.registered r less was));
}

handle_envelope-IsTracked :
    (r : ℕ) (wm seq : Option ℕ) (c : StreamClient)
    → IsTracked c
    → IsTracked (handle_envelope r wm seq c)
unfolding handle_envelope
handle_envelope-IsTracked r wm seq c t = record {
  old = t.old;
  named = λ k i h. ground (arith, t.named k i h, λ (p : r ≡ i). ap c.heap p);
  runs = λ k i h. ground (arith, t.runs k i h, λ (p : r ≡ i). ap c.heap p);
  registered = λ i less h. ground (arith, t.registered i less, λ (p : r ≡ i). ap c.heap p);
}

abbrev pub new_client : (ℕ → ClientStream) → StreamClient
new_client heap = record { heap = heap; next = 0; streams = [] }

-- Over any calls on a new client, where none comes between the two steps of a subscribe and no one starts or stops a stream by the stream's own methods, and any envelopes that reach its streams, a stream runs exactly while the client has it under its id, so that no two streams of one id run, and no stream runs that the client cannot stop.
pub after_client_calls-IsTracked :
    (heap : ℕ → ClientStream) (xs : List ClientCall)
    → IsTracked (after_client_calls xs (new_client heap))
unfolding after_client_calls after_client_call lookup
after_client_calls-IsTracked heap xs = go xs (new_client heap) (record {
  old = λ k r h. cc;
  named = λ k r h. cc;
  runs = λ k r h. cc;
  registered = λ r less h. absurd (omega (arith, less));
})
  where
    one : (x : ClientCall) (c : StreamClient) → IsTracked c → IsTracked (after_client_call x c)
    one (subscribes_to sid) c t = subscribe_stream-IsTracked sid c t
    one (unsubscribes_from sid) c t = unsubscribe_id-IsTracked sid c t
    one (unsubscribes_handle r) c t = unsubscribe_id-IsTracked (c.heap r).sid c t
    one closes c t = close-IsTracked c t
    one (handles r wm seq) c t = handle_envelope-IsTracked r wm seq c t

    go :
        (xs : List ClientCall) (c : StreamClient)
        → IsTracked c
        → IsTracked (after_client_calls xs c)
    go [] c t = t
    go (x ∷ xs) c t = go xs (after_client_call x c) (one x c t)

subscribed :
    (sid : String) (c : StreamClient)
    → (lookup sid (subscribe_stream sid c).0.streams ≡ some c.next)
      × (((subscribe_stream sid c).0.heap c.next).sid ≡ sid)
      × (((subscribe_stream sid c).0.heap c.next).running ≡ true)
unfolding subscribe_stream
subscribed sid c = (
  lookup-insert sid sid c.next (remove sid c.streams) ∙ rw (str_eq_refl sid) refl,
  ground arith,
  ground arith,
)

replaced :
    (sid : String) (c : StreamClient) (r : ℕ)
    → lookup sid c.streams ≡ some r
    → r < c.next
    → (((subscribe_stream sid c).0.heap r).sid ≡ (c.heap r).sid)
      × (((subscribe_stream sid c).0.heap r).running ≡ false)
unfolding subscribe_stream
replaced sid c r e less = rw e (ground arith, ground arith)

unsubscribed :
    (sid : String) (c : StreamClient) (r : ℕ)
    → lookup sid c.streams ≡ some r
    → ((unsubscribe_id sid c).1 ≡ true) × (((unsubscribe_id sid c).0.heap r).running ≡ false)
unfolding unsubscribe_id
unsubscribed sid c r e = rw (e, unsubscribe_id) (refl, ground arith)

-- If a stream was replaced by a later one of the same id, unsubscribing the first handle, whose
-- stream has stopped, stops the later stream.
unsubscribe_stream-replaced :
    (sid : String) (c : StreamClient)
    → let (c1, first) = subscribe_stream sid c in
      let (c2, second) = subscribe_stream sid c1 in
      ((c2.heap first).running ≡ false)
      × ((c2.heap second).running ≡ true)
      × ((unsubscribe_stream first c2).1 ≡ true)
      × (((unsubscribe_stream first c2).0.heap second).running ≡ false)
unfolding unsubscribe_stream subscribe_stream
unsubscribe_stream-replaced sid c =
    let c1 = (subscribe_stream sid c).0 in
    let c2 = (subscribe_stream sid c1).0 in
    let (there, name, on) = subscribed sid c in
    let (there', name', on') = subscribed sid c1 in
    let (same, off) = replaced sid c1 c.next there (omega arith) in
    let (done, stopped) = unsubscribed sid c2 c1.next there' in
    (
      off,
      on',
      ap (λ k. (unsubscribe_id k c2).1) (same ∙ name) ∙ done,
      ap (λ k. ((unsubscribe_id k c2).0.heap c1.next).running) (same ∙ name) ∙ stopped,
    )
