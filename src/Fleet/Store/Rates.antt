-- ===== src/Fleet/Store/Rates.antt =====
-- The estimates of `FleetStore`: `_recent_measured_rate`, `_estimated_bytes`,
-- `_record_estimated_gap` and `recent_upload_rates`.
use steam_download_pumper.Common.{
  ℕ, ◌+◌, ◌-◌, ◌*◌, Bool, ◌&&◌, ◌||◌, Option, none, some, or_else, is_none, List, leb, ◌==◌, min,
  if◌then◌else◌,
}
use steam_download_pumper.Common.Text.{Text}
use steam_download_pumper.Fleet.Clock.{minute, minute_of, timestamp}
use steam_download_pumper.Fleet.Floats.{FloatArith}
use steam_download_pumper.Fleet.Store.Rows.{
  Column, measured_upload, measured_download, estimated_upload, estimated_download, unknown_seconds,
  sample_seconds, interruptions, Amounts, Quality, Traffic,
}
use steam_download_pumper.Fleet.Store.Rows.Sums.{booked}
use steam_download_pumper.Fleet.Store.Intervals.{add_interval_traffic}
use steam_download_pumper.Fleet.Store.Business.{business_span}

pub data Direction : Type 0 where
  up down : Direction

abbrev pub measured : Direction → Column
measured up = measured_upload
measured down = measured_download

-- The bytes and the seconds whose quotient is the rate, `None` where no second was sampled. The
-- two sums are those of the SQL statement.
unfoldable pub recent_measured_rate : Text → ℕ → Direction → ℕ → List Traffic → Option (ℕ × ℕ)
unfolding booked
recent_measured_rate account_id before direction minutes rows =
    let within : ℕ → Bool =
      λ m. leb (minute_of (before - minutes * minute)) m && leb m (minute_of before) in
    let bytes = booked account_id within (measured direction) rows in
    let seconds = booked account_id within sample_seconds rows in
    if seconds == 0 then none else some (bytes, seconds)

module _ (float : FloatArith) where
  unfoldable pub estimated_bytes : Text → ℕ → ℕ → Direction → List Traffic → Option ℕ
  unfolding recent_measured_rate business_span
  estimated_bytes account_id start end direction rows =
      elim (recent_measured_rate account_id start direction 30 rows) [
        | none ↦ none
        | some (bytes, seconds) ↦
            let capped_end = min end (start + 30 * minute) in
            some (
              float.estimate bytes seconds (elim direction [
                | up ↦ business_span start capped_end
                | down ↦ capped_end - start
              ]))
      ]

  -- The values that a gap is booked with.
  unfoldable pub gap_amounts : ℕ → Option ℕ → Option ℕ → Amounts
  gap_amounts elapsed upload download c =
      let capped_seconds = min elapsed 1800 in
      elim c [
        | estimated_upload ↦ or_else upload 0
        | estimated_download ↦ or_else download 0
        | unknown_seconds ↦
            if is_none upload || is_none download then elapsed else elapsed - capped_seconds
        | sample_seconds ↦ capped_seconds
        | interruptions ↦ 1
        | _ ↦ 0
      ]

  unfoldable pub record_estimated_gap : Text → ℕ → ℕ → Quality → List Traffic → List Traffic
  unfolding estimated_bytes gap_amounts add_interval_traffic
  record_estimated_gap account_id start end quality rows =
      add_interval_traffic float account_id start end
        (gap_amounts (timestamp (end - start)) (estimated_bytes account_id start end up rows)
          (estimated_bytes account_id start end down rows))
        quality rows
