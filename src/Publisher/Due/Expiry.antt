-- ===== src/Publisher/Due/Expiry.antt =====
-- How long a health file stays good (`health_is_healthy`).
use steam_download_pumper.Common.{
  ℕ, ◌+◌, ◌*◌, ◌<◌, ◌≡◌, refl, true, false, Option, none, some, arith,
}
use steam_download_pumper.Fleet.Clock.{minute}
use steam_download_pumper.Publisher.Due.{Health, health_is_healthy}

-- A file that is no longer written is reported within six minutes: if it is healthy at some
-- instant, then it is not at any instant more than six minutes later.
health_is_healthy_expires :
    (h : Option Health) (now later : ℕ)
    → health_is_healthy h now ≡ true
    → now + 6 * minute < later
    → health_is_healthy h later ≡ false
unfolding health_is_healthy
health_is_healthy_expires none now later good after = refl
health_is_healthy_expires (some h) now later good after = ground arith
