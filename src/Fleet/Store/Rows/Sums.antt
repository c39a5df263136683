-- ===== src/Fleet/Store/Rows/Sums.antt =====
-- What the statements on `traffic` do to the sums over its rows (`_add_traffic`,
-- `_clear_pending_unknown`, the deletion of old rows in `_prune`).
use steam_download_pumper.Common.{
  ℕ, ◌+◌, ◌≤◌, ◌≡◌, refl, ◌≢◌, Bool, false, ◌&&◌, List, [], ◌∷◌, map, leb, ◌==◌, arith,
  if◌then◌else◌, retain, sum_of, All,
}
use steam_download_pumper.Common.Text.{Text, text_eq, text_eq_iff}
use steam_download_pumper.Fleet.Clock.{minute_of}
use steam_download_pumper.Fleet.Store.Rows.{
  Column, unknown_seconds, Amounts, Quality, Traffic, is_row, add_traffic, clear_row,
  clear_pending_unknown,
}

-- The sum of a column over the rows of an account whose minute passes a test.
unfoldable pub booked : Text → (ℕ → Bool) → Column → List Traffic → ℕ
booked a within c rows =
    sum_of (λ r. if text_eq r.account_id a && within r.at_minute then r.amounts c else 0) rows

-- The upsert adds its amounts to the sums that its row is counted in, and to no other.
pub booked-add_traffic :
    (a : Text) (within : ℕ → Bool) (c : Column) (b : Text) (m : ℕ) (v : Amounts) (q : Quality)
    (rows : List Traffic)
    → booked a within c (add_traffic b m v q rows)
      ≡ booked a within c rows + (if text_eq b a && within m then v c else 0)
unfolding booked add_traffic
booked-add_traffic a within c b m v q [] = omega arith
booked-add_traffic a within c b m v q (r ∷ rows) =
    ground (arith, text_eq_iff r.account_id b, booked-add_traffic a within c b m v q rows)

-- No row is that of the account and minute.
abbrev pub IsNew : Text → ℕ → List Traffic → Type 0
IsNew a m rows = All (λ r. is_row a m r ≡ false) rows

-- The primary key of the table.
abbrev pub IsKeyed : List Traffic → Type 0
IsKeyed [] = Unit
IsKeyed (r ∷ rows) = IsNew r.account_id r.at_minute rows × IsKeyed rows

add_traffic-IsNew :
    (a : Text) (m : ℕ) (b : Text) (n : ℕ) (v : Amounts) (q : Quality) (rows : List Traffic)
    → (text_eq b a && n == m) ≡ false
    → IsNew a m rows
    → IsNew a m (add_traffic b n v q rows)
unfolding add_traffic
add_traffic-IsNew a m b n v q [] other h = (other, tt)
add_traffic-IsNew a m b n v q (r ∷ rows) other h =
    ground (arith, add_traffic-IsNew a m b n v q rows other h.1)

-- The upsert keeps one row for each account and minute.
pub add_traffic-IsKeyed :
    (b : Text) (n : ℕ) (v : Amounts) (q : Quality) (rows : List Traffic)
    → IsKeyed rows
    → IsKeyed (add_traffic b n v q rows)
unfolding add_traffic
add_traffic-IsKeyed b n v q [] h = (tt, tt)
add_traffic-IsKeyed b n v q (r ∷ rows) h = ground (
  arith,
  text_eq_iff r.account_id b,
  text_eq_iff b r.account_id,
  add_traffic-IsNew r.account_id r.at_minute b n v q rows,
  add_traffic-IsKeyed b n v q rows h.1,
)

-- Clearing the pending gap changes no column but the unknown seconds.
pub booked-clear_pending_unknown :
    (a : Text) (within : ℕ → Bool) (c : Column) (b : Text) (start end : ℕ) (rows : List Traffic)
    → c ≢ unknown_seconds
    → booked a within c (clear_pending_unknown b start end rows) ≡ booked a within c rows
unfolding booked clear_pending_unknown
booked-clear_pending_unknown a within c b start end [] h = refl
booked-clear_pending_unknown a within c b start end (r ∷ rows) h =
    ground (arith, booked-clear_pending_unknown a within c b start end rows h)

pub booked-clear_pending_unknown_ne :
    (a : Text) (within : ℕ → Bool) (c : Column) (b : Text) (start end : ℕ) (rows : List Traffic)
    → b ≢ a
    → booked a within c (clear_pending_unknown b start end rows) ≡ booked a within c rows
unfolding booked clear_pending_unknown
booked-clear_pending_unknown_ne a within c b start end [] h = refl
booked-clear_pending_unknown_ne a within c b start end (r ∷ rows) h = ground (
  arith,
  text_eq_iff r.account_id b,
  text_eq_iff r.account_id a,
  booked-clear_pending_unknown_ne a within c b start end rows h,
)

clear_row_key :
    (b : Text) (first last : ℕ) (r : Traffic)
    → ((clear_row b first last r).account_id ≡ r.account_id)
      × ((clear_row b first last r).at_minute ≡ r.at_minute)
clear_row_key b first last r = ground arith

clear_rows-IsNew :
    (a : Text) (m : ℕ) (b : Text) (first last : ℕ) (rows : List Traffic)
    → IsNew a m rows
    → IsNew a m (map (clear_row b first last) rows)
clear_rows-IsNew a m b first last [] h = tt
clear_rows-IsNew a m b first last (r ∷ rows) h = (
  rw (clear_row_key b first last r).0 (rw (clear_row_key b first last r).1 h.0),
  clear_rows-IsNew a m b first last rows h.1,
)

pub clear_pending_unknown-IsKeyed :
    (b : Text) (start end : ℕ) (rows : List Traffic)
    → IsKeyed rows
    → IsKeyed (clear_pending_unknown b start end rows)
unfolding clear_pending_unknown
clear_pending_unknown-IsKeyed b start end [] h = tt
clear_pending_unknown-IsKeyed b start end (r ∷ rows) h =
    let (same_id, same_minute) = clear_row_key b (minute_of start) (minute_of end) r in
    (
      rw (same_id, same_minute)
          (clear_rows-IsNew r.account_id r.at_minute b (minute_of start) (minute_of end) rows h.0),
      clear_pending_unknown-IsKeyed b start end rows h.1,
    )

-- Of that account no unknown second is left between the two minutes.
booked-clear_pending_unknown_self :
    (a : Text) (start end : ℕ) (rows : List Traffic)
    → booked a
        (λ m. leb (minute_of start) m && leb m (minute_of end))
        unknown_seconds
        (clear_pending_unknown a start end rows)
      ≡ 0
unfolding booked clear_pending_unknown
booked-clear_pending_unknown_self a start end [] = refl
booked-clear_pending_unknown_self a start end (r ∷ rows) =
    ground (arith, booked-clear_pending_unknown_self a start end rows)

-- Rows before a minute do not count in a sum from a later minute on.
pub booked-retain :
    (a : Text) (c : Column) (lower from : ℕ) (rows : List Traffic)
    → lower ≤ from
    → booked a (leb from) c (retain (λ r. leb lower r.at_minute) rows) ≡ booked a (leb from) c rows
unfolding booked
booked-retain a c lower from [] h = refl
booked-retain a c lower from (r ∷ rows) h = ground (arith, booked-retain a c lower from rows h)
