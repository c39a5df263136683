-- ===== src/Fleet/Store/Intervals.antt =====
-- `_add_interval_traffic` of steam_pumper/fleet.py: an interval is cut at the full minutes, and
-- its values are shared out over the pieces.
pub mod Segments
pub mod Conservation
use steam_download_pumper.Common.{
  ℕ, zero, suc, ◌+◌, ◌-◌, ◌*◌, ◌/◌, Bool, List, [], ◌∷◌, ltb, min, if◌then◌else◌,
}
use steam_download_pumper.Common.Text.{Text}
use steam_download_pumper.Fleet.Clock.{minute, minute_of}
use steam_download_pumper.Fleet.Floats.{FloatArith}
use steam_download_pumper.Fleet.Store.Rows.{Column, Amounts, Quality, Traffic, add_traffic}

-- A piece of the interval: its minute and its span in microseconds.
pub record Segment : Type 0 where
  pub at_minute : ℕ
  pub span : ℕ

-- The `while cursor < end` loop, one round of fuel for each minute that it may enter.
unfoldable pub segments_from : ℕ → ℕ → ℕ → List Segment
segments_from zero cursor end = []
segments_from (suc fuel) cursor end =
    let m = minute_of cursor in
    let segment_end = min end ((m + 1) * minute) in
    let rest = segments_from fuel segment_end end in
    if ltb cursor end then record { at_minute = m; span = segment_end - cursor } ∷ rest else []

-- The minutes that the interval touches.
unfoldable pub rounds : ℕ → ℕ → ℕ
rounds start end = suc (minute_of end - minute_of start)

unfoldable pub segments : ℕ → ℕ → List Segment
unfolding segments_from rounds
segments start end = segments_from (rounds start end) start end

-- What each piece is given: a share of the value, and the last piece all that remains. A negative
-- remainder is booked as 0 by `_add_traffic`.
pub record Share : Type 0 where
  pub at_minute : ℕ
  pub amounts : Amounts

module _ (float : FloatArith) where
  unfoldable pub share_out : Amounts → ℕ → Amounts → List Segment → List Share
  share_out values elapsed remaining [] = []
  share_out values elapsed remaining (s ∷ []) =
      record { at_minute = s.at_minute; amounts = remaining } ∷ []
  share_out values elapsed remaining (s ∷ t ∷ rest) =
      let given : Amounts = λ c. float.portion (values c) s.span elapsed in
      record { at_minute = s.at_minute; amounts = given }
      ∷ share_out values elapsed (λ c. remaining c - given c) (t ∷ rest)

  unfoldable pub book_shares : Text → Quality → List Share → List Traffic → List Traffic
  book_shares account_id quality [] rows = rows
  book_shares account_id quality (s ∷ ss) rows =
      book_shares account_id quality ss (add_traffic account_id s.at_minute s.amounts quality rows)

  unfoldable pub add_interval_traffic :
      Text → ℕ → ℕ → Amounts → Quality → List Traffic → List Traffic
  unfolding segments share_out book_shares
  add_interval_traffic account_id start end values quality rows =
      if ltb start end
      then book_shares account_id quality
          (share_out values (end - start) values (segments start end)) rows
      else rows
