-- ===== src/Client/Ending.antt =====
-- Whether the bot's thread ends.
use deepfeeder.Base.{
  ℕ, suc, ◌+◌, ◌≤◌, ◌<◌, ◌≡◌, refl, Bool, true, false, Option, none, some, List, [], ◌∷◌, length,
  if◌then◌else◌, arith, Bool-cases, inl, inr, All, ◌≢◌, length-append, ◌-◌,
}
use deepfeeder.Client.Trading.{
  Point, ended, starting, checking, opening, getting, holding, waiting, Bot, put_nowait, on_data,
  stop, run_step, Step, runs, receives, starts, stops, pauses, resumes, after_steps, replace_oldest,
  put_or, run_from, take_item,
}

module _ {E : Type 0} where
  -- The steps of the thread and of the client's callback.
  abbrev pub IsRunOrData : Step E → Type 0
  IsRunOrData (runs s) = Unit
  IsRunOrData (receives e) = Unit
  IsRunOrData starts = ⊥
  IsRunOrData stops = ⊥
  IsRunOrData pauses = ⊥
  IsRunOrData resumes = ⊥

  abbrev pub turns : List (Step E) → ℕ
  turns [] = 0
  turns (runs s ∷ ss) = 1 + turns ss
  turns (receives e ∷ ss) = turns ss
  turns (starts ∷ ss) = turns ss
  turns (stops ∷ ss) = turns ss
  turns (pauses ∷ ss) = turns ss
  turns (resumes ∷ ss) = turns ss

  -- A bot that was told to stop, with at most `n` steps left.
  abbrev Left : ℕ → List (Option E) → Point E → Type 0
  Left n q ended = Unit
  Left n q starting = 2 ≤ n
  Left n q checking = 1 ≤ n
  Left n q opening = (4 ≤ n) × (0 < length q)
  Left n q getting = (3 ≤ n) × (0 < length q)
  Left n q (holding e) = 2 ≤ n
  Left n q (waiting e) = ⊥

  pub record Stopping (n : ℕ) (b : Bot E) : Type 0 where
    pub told : b.stop_set ≡ true
    pub unpaused : b.paused ≡ false
    pub off : b.point ≡ ended → b.subscribed ≡ false
    pub left : Left n b.q b.point

  put-nonempty :
      (e : E) (maxsize : ℕ) (q : List (Option E))
      → 0 < length q
      → 0 < length (put_or (replace_oldest maxsize e q) (put_nowait maxsize (some e) q))
  put-nonempty e maxsize [] h = absurd (omega (arith, h))
  put-nonempty e maxsize (x ∷ q) h = ground (arith, length-append q (some e ∷ []))

  data-Stopping : (n : ℕ) (e : E) (b : Bot E) → Stopping n b → Stopping n (on_data e b)
  unfolding on_data
  data-Stopping n e b s = record {
    told = s.told;
    unpaused = s.unpaused;
    off = s.off;
    left = go b.point s.left;
  }
    where
      go :
          (p : Point E)
          → Left n b.q p
          → Left n (put_or (replace_oldest b.maxsize e b.q) (put_nowait b.maxsize (some e) b.q)) p
      go ended l = l
      go starting l = l
      go checking l = l
      go opening l = (l.0, put-nonempty e b.maxsize b.q l.1)
      go getting l = (l.0, put-nonempty e b.maxsize b.q l.1)
      go (holding e') l = l
      go (waiting e') l = l

  run-Stopping : (n : ℕ) (sub : Bool) (b : Bot E) → Stopping (suc n) b → Stopping n (run_step sub b)
  unfolding run_step
  run-Stopping n sub b s = go b.point refl s.left
    where
      again :
          (sub : Bool)
          → (4 ≤ suc n) × (0 < length b.q)
          → Stopping n (
              if sub
              then record b { point = getting; subscribed = true }
              else record b { point = checking; subscribed = false })
      again true l = record {
        told = s.told;
        unpaused = s.unpaused;
        off = λ d. cc;
        left = (omega (arith, l.0), l.1);
      }
      again false l = record {
        told = s.told;
        unpaused = s.unpaused;
        off = λ d. refl;
        left = omega (arith, l.0);
      }

      take : (q : List (Option E)) → (3 ≤ suc n) × (0 < length q) → Stopping n (take_item q b)
      take [] l = absurd (omega (arith, l.1))
      take (none ∷ q) l = record {
        told = s.told;
        unpaused = s.unpaused;
        off = λ d. refl;
        left = tt;
      }
      take (some e ∷ q) l = record {
        told = s.told;
        unpaused = s.unpaused;
        off = λ d. cc;
        left = omega (arith, l.0);
      }

      go : (p : Point E) → b.point ≡ p → Left (suc n) b.q p → Stopping n (run_from p sub b)
      go ended e l = record { told = s.told; unpaused = s.unpaused; off = s.off; left = rw e tt }
      go starting e l = record {
        told = s.told;
        unpaused = s.unpaused;
        off = λ d. cc;
        left = omega (arith, l);
      }
      go checking e l =
          rw s.told (record { told = refl; unpaused = s.unpaused; off = λ d. refl; left = tt })
      go opening e l = elim (Bool-cases b.subscribed) [
        | inl on ↦ rw on (record {
          told = s.told;
          unpaused = s.unpaused;
          off = λ d. cc;
          left = (omega (arith, l.0), l.1);
        })
        | inr off ↦ rw off (again sub l)
      ]
      go getting e l = take b.q l
      go (holding x) e l =
          rw s.unpaused
            (record { told = s.told; unpaused = refl; off = λ d. cc; left = omega (arith, l) })
      go (waiting x) e l = absurd l

  Stopping-weaken : (n k : ℕ) (b : Bot E) → n ≤ k → Stopping n b → Stopping k b
  Stopping-weaken n k b h s = record {
    told = s.told;
    unpaused = s.unpaused;
    off = s.off;
    left = go b.point s.left;
  }
    where
      go : (p : Point E) → Left n b.q p → Left k b.q p
      go ended l = l
      go starting l = omega (arith, h, l)
      go checking l = omega (arith, h, l)
      go opening l = (omega (arith, h, l.0), l.1)
      go getting l = (omega (arith, h, l.0), l.1)
      go (holding e) l = omega (arith, h, l)
      go (waiting e) l = l

  steps-Stopping :
      (n : ℕ) (ss : List (Step E)) (b : Bot E)
      → All IsRunOrData ss
      → n ≤ turns ss
      → Stopping n b
      → Stopping 0 (after_steps ss b)
  unfolding after_steps
  steps-Stopping n [] b only enough s = Stopping-weaken n 0 b enough s
  steps-Stopping n (runs sub ∷ ss) b only enough s =
      steps-Stopping (n - 1) ss (run_step sub b) only.1 (omega (arith, enough))
        (run-Stopping (n - 1) sub b (Stopping-weaken n (suc (n - 1)) b (omega arith) s))
  steps-Stopping n (receives e ∷ ss) b only enough s =
      steps-Stopping n ss (on_data e b) only.1 enough (data-Stopping n e b s)
  steps-Stopping n (starts ∷ ss) b only enough s = absurd only.0
  steps-Stopping n (stops ∷ ss) b only enough s = absurd only.0
  steps-Stopping n (pauses ∷ ss) b only enough s = absurd only.0
  steps-Stopping n (resumes ∷ ss) b only enough s = absurd only.0

  sentinel-nonempty :
      (maxsize : ℕ) (q : List (Option E)) → 0 < length (put_or q (put_nowait maxsize none q))
  sentinel-nonempty maxsize q = ground (arith, length-append q (none ∷ []))

  stop-Stopping : (b : Bot E) → ((e : E) → b.point ≢ waiting e) → Stopping 4 (stop b)
  unfolding stop
  stop-Stopping b free = record {
    told = refl;
    unpaused = refl;
    off = λ d. refl;
    left = go b.point free;
  }
    where
      go :
          (p : Point E)
          → ((e : E) → p ≢ waiting e)
          → Left 4 (put_or b.q (put_nowait b.maxsize none b.q)) p
      go ended out = tt
      go starting out = omega arith
      go checking out = omega arith
      go opening out = (omega arith, sentinel-nonempty b.maxsize b.q)
      go getting out = (omega arith, sentinel-nonempty b.maxsize b.q)
      go (holding e) out = omega arith
      go (waiting e) out = absurd (out e refl)

  none-Left : (q : List (Option E)) (p : Point E) → Left 0 q p → p ≡ ended
  none-Left q ended l = refl
  none-Left q starting l = absurd (omega (arith, l))
  none-Left q checking l = absurd (omega (arith, l))
  none-Left q opening l = absurd (omega (arith, l.0))
  none-Left q getting l = absurd (omega (arith, l.0))
  none-Left q (holding e) l = absurd (omega (arith, l))
  none-Left q (waiting e) l = absurd l

  -- A bot whose thread is not at `_paused.wait` ends after `stop`: whatever the client's callback puts
  -- in the queue in the meantime, and whether or not subscribing succeeds, after four steps of the
  -- thread it has ended, and it holds no stream.
  pub stop-ends :
      (ss : List (Step E)) (b : Bot E)
      → ((e : E) → b.point ≢ waiting e)
      → All IsRunOrData ss
      → 4 ≤ turns ss
      → ((after_steps ss (stop b)).point ≡ ended) × ((after_steps ss (stop b)).subscribed ≡ false)
  stop-ends ss b free only enough =
      let s = steps-Stopping 4 ss (stop b) only enough (stop-Stopping b free) in
      let over = none-Left _ _ s.left in (over, s.off over)
