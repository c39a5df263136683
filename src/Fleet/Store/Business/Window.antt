-- ===== src/Fleet/Store/Business/Window.antt =====
-- `_business_seconds` measures the upload window: it is the number of instants of the interval
-- whose hour in Shanghai is 18 or later.
use steam_download_pumper.Common.{
  ℕ, zero, suc, ◌+◌, ◌-◌, ◌*◌, ◌/◌, ◌%◌, ◌≤◌, ◌<◌, ◌≡◌, arith, leb, if◌then◌else◌, Bool-cases, inl,
  inr, refl, ap,
}
use steam_download_pumper.Fleet.Clock.{hour, day, local, local_hour}
use steam_download_pumper.Fleet.Store.Business.{business_from, business_span}

-- The instants of the `n` microseconds from `start` on that lie in the upload window.
unfoldable pub upload_instants : ℕ → ℕ → ℕ
upload_instants start zero = 0
upload_instants start (suc n) =
    (if leb 18 (local_hour (start + n)) then 1 else 0) + upload_instants start n

-- The part of the upload windows before a local time.
upload_before : ℕ → ℕ
upload_before t = t / day * (6 * hour) + (t % day - 18 * hour)

business_from_done :
    (fuel cursor finish : ℕ) → finish / day < cursor / day → business_from fuel cursor finish ≡ 0
unfolding business_from
business_from_done zero cursor finish h = refl
business_from_done (suc fuel) cursor finish h = ground arith

business_from-upload_before :
    (fuel cursor finish : ℕ)
    → cursor ≤ finish
    → finish / day < cursor / day + fuel
    → business_from fuel cursor finish + upload_before cursor ≡ upload_before finish
unfolding business_from upload_before
business_from-upload_before zero cursor finish le enough = absurd (omega arith)
business_from-upload_before (suc fuel) cursor finish le enough =
    let next : ℕ = (cursor / day + 1) * day in
    elim (Bool-cases (leb next finish)) [
      | inl more ↦
          ground (arith, business_from-upload_before fuel next finish (ground arith) (ground arith))
      | inr last ↦ ground (arith, business_from_done fuel next finish (ground arith))
    ]

upload_before-suc :
    (t : ℕ) → upload_before (suc t) ≡ upload_before t + (if leb 18 (t % day / hour) then 1 else 0)
unfolding upload_before
upload_before-suc t = ground arith

upload_instants-upload_before :
    (start n : ℕ)
    → upload_instants start n + upload_before (local start) ≡ upload_before (local start + n)
unfolding upload_instants
upload_instants-upload_before start zero =
    let same : local start ≡ local start + 0 = omega arith in omega (arith, ap upload_before same)
upload_instants-upload_before start (suc n) =
    let next : local start + suc n ≡ suc (local start + n) = omega arith in
    let here : local (start + n) ≡ local start + n = omega arith in
    rw next (
      ground (
        arith,
        ap (λ t. t % day / hour) here,
        upload_before-suc (local start + n),
        upload_instants-upload_before start n,
      ))

local_add : (start n : ℕ) → upload_before (local (start + n)) ≡ upload_before (local start + n)
local_add start n =
    let same : local (start + n) ≡ local start + n = omega arith in ap upload_before same

-- From any instant on, over any span, the result is the number of microseconds of the interval at
-- which the clock of Shanghai shows 18:00 or later.
pub business_span-upload_instants :
    (start n : ℕ) → business_span start (start + n) ≡ upload_instants start n
unfolding business_span upload_instants
business_span-upload_instants start n = elim (Bool-cases (leb (start + n) start)) [
  | inl empty ↦ let none_left : n ≡ 0 = ground arith in rw (empty, none_left) refl
  | inr some_span ↦ rw some_span (
      omega (
        arith,
        upload_instants-upload_before start n,
        business_from-upload_before (suc (local (start + n) / day - local start / day))
            (local start) (local (start + n)) (omega arith) (omega arith),
        local_add start n,
      ))
]
