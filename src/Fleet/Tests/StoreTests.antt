-- ===== src/Fleet/Tests/StoreTests.antt =====
-- The statements of `FleetStore` on one account's rows of a morning.
use steam_download_pumper.Common.{ℕ, ◌+◌, ◌≡◌, ◌≢◌, refl, Bool, [], ◌∷◌, leb, arith, length}
use steam_download_pumper.Common.Text.{Text, codes, text_eq}
use steam_download_pumper.Fleet.Store.Rows.{Column, Amounts, fine, add_traffic, prune}
use steam_download_pumper.Fleet.Store.Rows.Sums.{booked, IsKeyed}
use steam_download_pumper.Fleet.Store.Intervals.{
  segments_from, rounds, segments, add_interval_traffic,
}
use steam_download_pumper.Fleet.Store.Intervals.Conservation.{add_interval_traffic-conserves}
use steam_download_pumper.Fleet.Store.Business.{business_from, business_span}
use steam_download_pumper.Fleet.Store.Business.Window.{
  upload_instants, business_span-upload_instants,
}
use steam_download_pumper.Fleet.Store.Totals.{rolling}
use steam_download_pumper.Fleet.Store.Totals.Window.{rolling-prune}
use steam_download_pumper.Fleet.Tests.{
  exact, exact-IsProportional, morning, evening, one_row, store,
}

abbrev sixty : Amounts
sixty c = 60

one_row-IsKeyed : IsKeyed one_row
one_row-IsKeyed = (tt, tt)

-- The second booking of a minute is added to the first.
upsert : length (add_traffic (codes "a") 28800000 sixty fine one_row) ≡ 1
unfolding add_traffic text_eq
upsert = refl

-- Ninety seconds from half a minute on touch two minutes.
two_pieces :
    segments 30000000 120000000
    ≡ record { at_minute = 0; span = 30000000 } ∷ record { at_minute = 1; span = 60000000 } ∷ []
unfolding segments segments_from rounds
two_pieces = refl

add_interval_traffic-conserves_example :
    let after = add_interval_traffic exact (codes "a") morning evening sixty fine one_row in
    ((c : Column)
      → booked (codes "a") (leb 28800000) c after
        ≡ booked (codes "a") (leb 28800000) c one_row + sixty c)
    × ((b : Text) (within : ℕ → Bool) (c : Column)
        → codes "a" ≢ b
        → booked b within c after ≡ booked b within c one_row)
    × IsKeyed after
add_interval_traffic-conserves_example =
    add_interval_traffic-conserves exact (codes "a") morning evening 28800000 sixty fine one_row
      exact-IsProportional (omega arith) (omega arith) one_row-IsKeyed

-- Of the five microseconds around 18:00 three lie in the upload window.
business_span-upload_instants_example :
    business_span (morning + 35999999998) (morning + 35999999998 + 5)
    ≡ upload_instants (morning + 35999999998) 5
business_span-upload_instants_example = business_span-upload_instants (morning + 35999999998) 5

opening : business_span (morning + 35999999998) (morning + 35999999998 + 5) ≡ 3
unfolding business_span business_from
opening = refl

rolling-prune_example : rolling 7 evening (prune 7 morning store) ≡ rolling 7 evening store
rolling-prune_example = rolling-prune 7 morning evening store (omega arith)
