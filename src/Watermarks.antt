-- ===== src/Watermarks.antt =====
-- The watermarks of a journal, `get_watermark` and `set_watermark` of `JournalStore` in
-- feeder_server/data/app.d/core/contracts.py, as the interface that the gap monitor is given.
use deepfeeder.Base.{ℕ, String, ◌≡◌, Option, some, str_eq, if◌then◌else◌}

-- `none` is an exception. A store that raised is unchanged.
pub record Watermarks : Type 1 where
  pub Store : Type 0
  pub get_watermark : String → Store → Option ℕ
  pub set_watermark : ℕ → String → Store → Option Store
  pub get-set :
      (v : ℕ) (scope other : String) (s s' : Store)
      → set_watermark v scope s ≡ some s'
      → get_watermark other s' ≡ (if str_eq scope other then some v else get_watermark other s)
