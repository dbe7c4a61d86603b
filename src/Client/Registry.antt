-- ===== src/Client/Registry.antt =====
-- feeder_client/src/feeder_client/client.py: the streams of a `DeepFeederClient`. A stream is an
-- object behind an address, which callers hold as its handle; that its thread was not told to stop is
-- `running`.
use deepfeeder.Base.{
  ℕ, ◌+◌, ◌==◌, String, Bool, true, false, Option, none, some, List, [], ◌∷◌, length, str_eq,
  prefixed, if◌then◌else◌,
}
use deepfeeder.Base.Dict.{Dict, lookup, insert, remove}

pub record ClientStream : Type 0 where
  pub sid : String
  pub running : Bool
  pub last_watermark_ns : Option ℕ
  pub last_seq : Option ℕ

pub record StreamClient : Type 0 where
  pub heap : ℕ → ClientStream
  pub next : ℕ
  pub streams : Dict ℕ

-- `_stream_id`, with `str.upper`.
unfoldable pub stream_id : (String → String) → String → String → String → Option String → String
stream_id upper provider schema symbol exchange = prefixed provider (
    prefixed "|" (
      prefixed schema (
        prefixed "|" (
          prefixed symbol (elim exchange [
            | none ↦ ""
            | some e ↦ if str_eq e "" then "" else prefixed "@" (upper e)
          ])))))

abbrev pub put_at : ℕ → ClientStream → (ℕ → ClientStream) → ℕ → ClientStream
put_at r s heap i = if r == i then s else heap i

abbrev pub halt : ℕ → (ℕ → ClientStream) → ℕ → ClientStream
halt r heap = put_at r (record (heap r) { running = false }) heap

abbrev pub halt_old : Option ℕ → (ℕ → ClientStream) → ℕ → ClientStream
halt_old none heap = heap
halt_old (some r) heap = halt r heap

-- What `subscribe` does under the lock, with the address of the new stream.
abbrev pub register_stream : String → StreamClient → StreamClient × ℕ
register_stream sid c = (
  record {
    heap =
        put_at c.next
          (record { sid = sid; running = false; last_watermark_ns = none; last_seq = none })
          (halt_old (lookup sid c.streams) c.heap);
    next = c.next + 1;
    streams = insert sid c.next (remove sid c.streams);
  },
  c.next,
)

-- `start` and `stop` of a stream, which anyone may call who has it.
abbrev pub start_stream : ℕ → StreamClient → StreamClient
start_stream r c = record c { heap = put_at r (record (c.heap r) { running = true }) c.heap }

abbrev pub stop_stream : ℕ → StreamClient → StreamClient
stop_stream r c = record c { heap = halt r c.heap }

-- `subscribe` under an id where no other call comes between its two steps, with the stream that it
-- returns.
unfoldable pub subscribe_stream : String → StreamClient → StreamClient × ℕ
subscribe_stream sid c = let (c', r) = register_stream sid c in (start_stream r c', r)

-- `unsubscribe` with an id, and with a stream.
unfoldable pub unsubscribe_id : String → StreamClient → StreamClient × Bool
unsubscribe_id sid c = elim (lookup sid c.streams) [
  | none ↦ (c, false)
  | some r ↦ (record c { heap = halt r c.heap; streams = remove sid c.streams }, true)
]

unfoldable pub unsubscribe_stream : ℕ → StreamClient → StreamClient × Bool
unfolding unsubscribe_id
unsubscribe_stream r c = unsubscribe_id (c.heap r).sid c

abbrev pub halt_all : Dict ℕ → (ℕ → ClientStream) → ℕ → ClientStream
halt_all [] heap = heap
halt_all ((k, r) ∷ d) heap = halt_all d (halt r heap)

unfoldable pub close : StreamClient → StreamClient × ℕ
close c = (record c { heap = halt_all c.streams c.heap; streams = [] }, length c.streams)

abbrev pub or_kept : Option ℕ → Option ℕ → Option ℕ
or_kept none old = old
or_kept (some n) old = some n

-- What `_handle_envelope` keeps of the watermark and the sequence number of an envelope.
unfoldable pub handle_envelope : ℕ → Option ℕ → Option ℕ → StreamClient → StreamClient
handle_envelope r watermark_ns seq c = record c {
  heap =
      put_at r
        (record (c.heap r) {
          last_watermark_ns = or_kept watermark_ns (c.heap r).last_watermark_ns;
          last_seq = or_kept seq (c.heap r).last_seq;
        })
        c.heap;
}

unfoldable pub last_watermark : String → StreamClient → Option ℕ
last_watermark sid c = elim (lookup sid c.streams) [
  | none ↦ none
  | some r ↦ (c.heap r).last_watermark_ns
]

-- A call on the client, or an envelope that reaches a stream.
pub data ClientCall : Type 0 where
  subscribes_to unsubscribes_from : String → ClientCall
  unsubscribes_handle : ℕ → ClientCall
  closes : ClientCall
  handles : ℕ → Option ℕ → Option ℕ → ClientCall

unfoldable pub after_client_call : ClientCall → StreamClient → StreamClient
unfolding subscribe_stream unsubscribe_id unsubscribe_stream close handle_envelope
after_client_call (subscribes_to sid) c = (subscribe_stream sid c).0
after_client_call (unsubscribes_from sid) c = (unsubscribe_id sid c).0
after_client_call (unsubscribes_handle r) c = (unsubscribe_stream r c).0
after_client_call closes c = (close c).0
after_client_call (handles r wm seq) c = handle_envelope r wm seq c

unfoldable pub after_client_calls : List ClientCall → StreamClient → StreamClient
unfolding after_client_call
after_client_calls [] c = c
after_client_calls (x ∷ xs) c = after_client_calls xs (after_client_call x c)
