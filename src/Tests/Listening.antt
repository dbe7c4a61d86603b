-- ===== src/Tests/Listening.antt =====
-- A listener of minute bars, at two updates.
use deepfeeder.Base.{ℕ, ◌≡◌, refl, Bool, true, false, some, List, [], ◌∷◌, map, arith}
use deepfeeder.Listener.{
  Row, Bar, full, minimal, bar_ts, TableUpdate, Listener, on_update, bar_tables, add_rows, refine,
}
use deepfeeder.Listener.Bars.{Between}
use deepfeeder.Listener.Streams.{on_updates, on_updates-Between}

abbrev bar : ℕ → Bool → Row ℕ
bar ts is_empty = record { ts = ts; symbol = "BTCUSDT"; is_empty = is_empty; fields = ts }

abbrev listener : Listener ℕ
listener = record {
  spec = record { bin_period_minutes = some 1; has_is_empty = true };
  curr = some (full (bar 10 false));
  buf = [];
  buf_maxlen = 1;
  msg_count = 0;
}

-- A placeholder at 20 in one batch with a bar at 30.
abbrev mixed : TableUpdate ℕ
mixed = record { added = bar 20 true ∷ bar 30 false ∷ []; modified = bar 30 false ∷ [] }

abbrev next_bar : TableUpdate ℕ
next_bar = record { added = bar 40 false ∷ []; modified = [] }

abbrev updates : List (ℕ × TableUpdate ℕ)
updates = (1, mixed) ∷ (2, next_bar) ∷ []

-- The placeholder is added and completed like a bar.
mixed_batch :
    ((on_update 1 mixed listener).1.added ≡ some (bar 20 true ∷ bar 30 false ∷ []))
    × ((on_update 1 mixed listener).1.completed
        ≡ some (full (bar 10 false) ∷ minimal 20 "BTCUSDT" ∷ []))
unfolding on_update bar_tables add_rows refine
mixed_batch = (refl, refl)

on_updates-Between_example :
    (c' : Bar ℕ) × ((on_updates updates listener).0.curr ≡ some c')
    × Between 10 (bar_ts c') (map bar_ts (on_updates updates listener).1)
on_updates-Between_example =
    on_updates-Between updates listener (full (bar 10 false)) refl refl
      ((omega arith, (omega arith, tt)), ((omega arith, tt), tt))
