-- ===== src/Client/Gate.antt =====
-- A bot whose thread waits at its pause.
use deepfeeder.Base.{◌≡◌, refl, false, List, [], ◌∷◌, All, ◌∙◌}
use deepfeeder.Client.Trading.{
  waiting, Bot, on_data, start, stop, resume, run_step, Step, runs, receives, starts, stops, pauses,
  resumes, after_step, after_steps,
}

module _ {E : Type 0} where
  -- Not a call of `pause`.
  abbrev pub IsNoPause : Step E → Type 0
  IsNoPause (runs s) = Unit
  IsNoPause (receives e) = Unit
  IsNoPause starts = Unit
  IsNoPause stops = Unit
  IsNoPause pauses = ⊥
  IsNoPause resumes = Unit

  -- A thread that has seen the pause and is at `_paused.wait` when `resume` or `stop` clears it: as
  -- long as `pause` is not called again, it stays there and dispatches nothing, whatever else is
  -- called and however many steps it is given, so that it never ends and `start` starts no other.
  after_steps-waiting :
      (e : E) (ss : List (Step E)) (b : Bot E)
      → b.point ≡ waiting e
      → b.paused ≡ false
      → All IsNoPause ss
      → ((after_steps ss b).point ≡ waiting e) × ((after_steps ss b).dispatched ≡ b.dispatched)
  unfolding after_steps after_step run_step on_data start stop resume
  after_steps-waiting e [] b at clear only = (at, refl)
  after_steps-waiting e (s ∷ ss) b at clear only =
      let (at', clear', same) = one s b at clear only.0 in
      let (stays, log) = after_steps-waiting e ss (after_step s b) at' clear' only.1 in
      (stays, log ∙ same)
    where
      one :
          (s : Step E) (b : Bot E)
          → b.point ≡ waiting e
          → b.paused ≡ false
          → IsNoPause s
          → ((after_step s b).point ≡ waiting e)
            × ((after_step s b).paused ≡ false)
            × ((after_step s b).dispatched ≡ b.dispatched)
      one (runs sub) b at clear h = rw (at, run_step, clear) (refl, refl, refl)
      one (receives x) b at clear h = (at, clear, refl)
      one starts b at clear h = rw (at, start) (refl, clear, refl)
      one stops b at clear h = (at, refl, refl)
      one pauses b at clear h = absurd h
      one resumes b at clear h = (at, refl, refl)
