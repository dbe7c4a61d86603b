-- ===== src/EventBus/Backlog.antt =====
-- A bus that is opened over a store with a backlog, as after a restart.
use deepfeeder.EventBus.Owed.{brief, after}
use deepfeeder.Base.{
  ℕ, suc, ◌<◌, ◌≡◌, refl, sym, ap, none, some, List, [], ◌∷◌, map, arith, take-nil,
}
use deepfeeder.Contracts.{Tick, Draft, Envelope}
use deepfeeder.EventStore.Interface.{EventStore}
use deepfeeder.EventBus.Ring.{Bus, evict, new_bus, publish, look}
use deepfeeder.EventBus.Delivery.{IsHot}

module _ {P : Type 0} (st : EventStore P) where
  -- A new bus over a valid store is hot if the store holds nothing after its last committed batch.
  pub new_bus-IsHot :
      (s : st.Store) (limit : ℕ)
      → st.IsValid s
      → after (st.last_committed s) (st.stored s) ≡ []
      → IsHot st (new_bus st s limit)
  unfolding new_bus
  new_bus-IsHot s limit v idle = record {
    valid = v;
    dh = ap (map brief) (sym idle);
    jr = ap (map brief) (sym idle);
  }

  -- With an empty buffer of a limit above 0, the first look after a `publish`, from a cursor below
  -- the new id and for at least one envelope, finds the new envelope alone, however
  -- many older ones the drain is owed: a backlog in the store is passed over.
  pub look-publish_backlog :
      (now c max_n : ℕ) (rows : List (Tick P)) (b : Bus st)
      → b.buf ≡ []
      → 0 < b.max_envelopes
      → c < (publish st now rows b).1
      → (env : Envelope P) × (look st c (suc max_n) (publish st now rows b).0 ≡ some (env ∷ []))
        × (env.batch_id ≡ (publish st now rows b).1)
        × (env.rows ≡ rows)
  unfolding publish evict look
  look-publish_backlog now c max_n rows b empty room owed =
      let d : Draft P = record {
        produced_at_ns = now;
        first_offset = none;
        last_offset = none;
        rows = rows;
      } in
      (
        record { batch_id = (st.append d b.event_store).1; draft = d },
        rw empty (ground (arith, take-nil {A = Envelope P} max_n)),
        refl,
        refl,
      )
