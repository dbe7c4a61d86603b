-- ===== src/Journal/Scopes.antt =====
-- The journal's watermarks are those that the gap monitor is given.
use deepfeeder.Base.{ℕ, String, ◌≡◌, some, arith, str_eq, if◌then◌else◌}
use deepfeeder.Base.Dict.{lookup-insert}
use deepfeeder.Watermarks.{Watermarks}
use deepfeeder.Journal.Tables.{Journal, get_watermark, set_watermark}

module _ {P : Type 0} where
  get-set :
      (v : ℕ) (scope other : String) (j : Journal P)
      → get_watermark other (set_watermark v scope j)
        ≡ (if str_eq scope other then v else get_watermark other j)
  unfolding get_watermark set_watermark
  get-set v scope other j = ground (arith, lookup-insert scope other v j.watermarks)

  pub get-written :
      (v : ℕ) (scope other : String) (j j' : Journal P)
      → some (set_watermark v scope j) ≡ some j'
      → some (get_watermark other j')
        ≡ (if str_eq scope other then some v else some (get_watermark other j))
  get-written v scope other j j' e = ground (arith, get-set v scope other j)

abbrev pub journal_watermarks : Type 0 → Watermarks
journal_watermarks P = record {
  Store = Journal P;
  get_watermark = λ scope j. some (get_watermark scope j);
  set_watermark = λ v scope j. some (set_watermark v scope j);
  get-set = get-written;
}
