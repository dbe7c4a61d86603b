-- ===== src/EventBus/Rows.antt =====
-- The ticks of a list of envelopes.
use deepfeeder.Base.{◌≡◌, refl, sym, ap, ◌∙◌, List, [], ◌∷◌, ◌++◌, append_assoc}
use deepfeeder.Contracts.{Tick, Envelope}

abbrev pub all_rows : {P : Type 0} → List (Envelope P) → List (Tick P)
all_rows [] = []
all_rows (e ∷ es) = e.rows ++ all_rows es

pub all_rows-append :
    {P : Type 0} (xs ys : List (Envelope P)) → all_rows (xs ++ ys) ≡ all_rows xs ++ all_rows ys
all_rows-append [] ys = refl
all_rows-append (x ∷ xs) ys =
    ap (λ l. x.rows ++ l) (all_rows-append xs ys)
    ∙ sym (append_assoc x.rows (all_rows xs) (all_rows ys))
