-- ===== src/Fleet/Store/Intervals/Conservation.antt =====
-- `_add_interval_traffic` books every value once: what the pieces are given adds up to the value.
use steam_download_pumper.Common.{
  ℕ, ◌+◌, ◌-◌, ◌≤◌, ◌<◌, ◌≡◌, ◌≢◌, refl, Bool, true, ◌&&◌, List, [], ◌∷◌, map, arith, leb,
  if◌then◌else◌, sum_of, sum_of-map, All, All-map,
}
use steam_download_pumper.Common.Text.{Text, text_eq, text_eq_iff, text_eq_refl}
use steam_download_pumper.Fleet.Clock.{minute_of}
use steam_download_pumper.Fleet.Floats.{FloatArith, IsProportional}
use steam_download_pumper.Fleet.Store.Rows.{Column, Amounts, Quality, Traffic, add_traffic}
use steam_download_pumper.Fleet.Store.Rows.Sums.{
  booked, booked-add_traffic, IsKeyed, add_traffic-IsKeyed,
}
use steam_download_pumper.Fleet.Store.Intervals.{
  Segment, segments, Share, share_out, book_shares, add_interval_traffic,
}
use steam_download_pumper.Fleet.Store.Intervals.Segments.{
  Covers, segments-Covers, Covers-sum, Covers-minutes,
}

-- What a list of shares adds to a sum over the rows.
abbrev counted : Text → (ℕ → Bool) → Column → Text → Share → ℕ
counted a within c b s = if text_eq b a && within s.at_minute then s.amounts c else 0

module _ (float : FloatArith) where
  booked-book_shares :
      (a : Text) (within : ℕ → Bool) (c : Column) (b : Text) (q : Quality) (ss : List Share)
      (rows : List Traffic)
      → booked a within c (book_shares float b q ss rows)
        ≡ booked a within c rows + sum_of (counted a within c b) ss
  unfolding book_shares
  booked-book_shares a within c b q [] rows = omega arith
  booked-book_shares a within c b q (s ∷ ss) rows = omega (
    arith,
    booked-book_shares a within c b q ss (add_traffic b s.at_minute s.amounts q rows),
    booked-add_traffic a within c b s.at_minute s.amounts q rows,
  )

  book_shares-IsKeyed :
      (b : Text) (q : Quality) (ss : List Share) (rows : List Traffic)
      → IsKeyed rows
      → IsKeyed (book_shares float b q ss rows)
  unfolding book_shares
  book_shares-IsKeyed b q [] rows h = h
  book_shares-IsKeyed b q (s ∷ ss) rows h =
      book_shares-IsKeyed b q ss _ (add_traffic-IsKeyed b s.at_minute s.amounts q rows h)

  -- The shares add up to what remained, if no portion takes more than that.
  sum-share_out :
      (within : ℕ → Bool) (c : Column) (a : Text) (values : Amounts) (elapsed : ℕ)
      (remaining : Amounts) (s : Segment) (ss : List Segment)
      → sum_of (λ t. float.portion (values c) t.span elapsed) (s ∷ ss) ≤ remaining c
      → All (λ t. within t.at_minute ≡ true) (s ∷ ss)
      → sum_of (counted a within c a) (share_out float values elapsed remaining (s ∷ ss))
        ≡ remaining c
  unfolding share_out
  sum-share_out within c a values elapsed remaining s [] h w = ground (arith, text_eq_refl a)
  sum-share_out within c a values elapsed remaining s (t ∷ ss) h w = ground (
    arith,
    text_eq_refl a,
    sum-share_out within c a values elapsed
        (λ d. remaining d - float.portion (values d) s.span elapsed) t ss,
  )

  sum-other :
      (a : Text) (within : ℕ → Bool) (c : Column) (b : Text) (ss : List Share)
      → b ≢ a
      → sum_of (counted a within c b) ss ≡ 0
  sum-other a within c b [] ne = refl
  sum-other a within c b (s ∷ ss) ne = ground (arith, text_eq_iff b a, sum-other a within c b ss ne)

  shares_of_segments :
      (a : Text) (c : Column) (start end lower : ℕ) (values : Amounts) (ss : List Segment)
      → IsProportional float
      → start < end
      → lower ≤ minute_of start
      → Covers start end ss
      → sum_of (counted a (leb lower) c a) (share_out float values (end - start) values ss)
        ≡ values c
  shares_of_segments a c start end lower values [] law before from cover = absurd (omega arith)
  shares_of_segments a c start end lower values (s ∷ ss) law before from cover =
      let spans : ℕ = sum_of (λ (t : Segment). t.span) (s ∷ ss) in
      sum-share_out (leb lower) c a values (end - start) values s ss
        (rw (← sum_of-map (λ x. float.portion (values c) x (end - start)) (λ t. t.span) (s ∷ ss)) (
          law (values c) (end - start) (map (λ t. t.span) (s ∷ ss)) (
            rw (sum_of-map (λ x. x) (λ t. t.span) (s ∷ ss))
              (omega (arith, Covers-sum start end (s ∷ ss) cover)))))
        (All-map _ _ (s ∷ ss) (λ t b. ground arith) (Covers-minutes start end (s ∷ ss) cover))

  pub booked-add_interval_traffic :
      (a : Text) (start end lower : ℕ) (values : Amounts) (q : Quality) (c : Column)
      (rows : List Traffic)
      → IsProportional float
      → start < end
      → lower ≤ minute_of start
      → booked a (leb lower) c (add_interval_traffic float a start end values q rows)
        ≡ booked a (leb lower) c rows + values c
  unfolding add_interval_traffic
  booked-add_interval_traffic a start end lower values q c rows law before from =
      let ss = segments start end in
      let shares = share_out float values (end - start) values ss in
      let whole : add_interval_traffic float a start end values q rows
          ≡ book_shares float a q shares rows =
        ground arith in
      rw whole (
        omega (
          arith,
          booked-book_shares a (leb lower) c a q shares rows,
          shares_of_segments a c start end lower values ss law before from
              (segments-Covers start end (omega arith)),
        ))

  -- No sum of another account changes.
  pub booked-add_interval_traffic_ne :
      (a : Text) (start end : ℕ) (values : Amounts) (q : Quality) (b : Text) (within : ℕ → Bool)
      (c : Column) (rows : List Traffic)
      → a ≢ b
      → booked b within c (add_interval_traffic float a start end values q rows)
        ≡ booked b within c rows
  unfolding add_interval_traffic
  booked-add_interval_traffic_ne a start end values q b within c rows ne =
      let shares = share_out float values (end - start) values (segments start end) in
      ground
        (arith, booked-book_shares b within c a q shares rows, sum-other b within c a shares ne)

  pub add_interval_traffic-IsKeyed :
      (a : Text) (start end : ℕ) (values : Amounts) (q : Quality) (rows : List Traffic)
      → IsKeyed rows
      → IsKeyed (add_interval_traffic float a start end values q rows)
  unfolding add_interval_traffic
  add_interval_traffic-IsKeyed a start end values q rows keyed =
      let shares = share_out float values (end - start) values (segments start end) in
      ground (arith, book_shares-IsKeyed a q shares rows keyed)

  -- If the shares of a value never exceed it, then over an interval that is not empty each value
  -- is booked for the account exactly once: every sum from a minute on that is no later than the
  -- interval's start grows by the value, in each column. No sum of another account changes, and
  -- rows with a primary key keep it.
  pub add_interval_traffic-conserves :
      (a : Text) (start end lower : ℕ) (values : Amounts) (q : Quality) (rows : List Traffic)
      → IsProportional float
      → start < end
      → lower ≤ minute_of start
      → IsKeyed rows
      → let after = add_interval_traffic float a start end values q rows in
        ((c : Column) → booked a (leb lower) c after ≡ booked a (leb lower) c rows + values c)
        × ((b : Text) (within : ℕ → Bool) (c : Column)
            → a ≢ b
            → booked b within c after ≡ booked b within c rows)
        × IsKeyed after
  add_interval_traffic-conserves a start end lower values q rows law before from keyed = (
    λ c. booked-add_interval_traffic a start end lower values q c rows law before from,
    λ b within c. booked-add_interval_traffic_ne a start end values q b within c rows,
    add_interval_traffic-IsKeyed a start end values q rows keyed,
  )

  -- An interval that is empty or runs backwards books nothing.
  pub add_interval_traffic_empty :
      (a : Text) (start end : ℕ) (values : Amounts) (q : Quality) (rows : List Traffic)
      → end ≤ start
      → add_interval_traffic float a start end values q rows ≡ rows
  unfolding add_interval_traffic
  add_interval_traffic_empty a start end values q rows h = ground arith
