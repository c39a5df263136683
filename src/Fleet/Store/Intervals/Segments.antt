-- ===== src/Fleet/Store/Intervals/Segments.antt =====
-- The pieces of an interval (`_add_interval_traffic`): they cover it, each lies in its minute, and
-- the loop always ends by its test.
use steam_download_pumper.Common.{
  ℕ, zero, suc, ◌+◌, ◌-◌, ◌*◌, ◌≤◌, ◌<◌, ◌≡◌, refl, List, [], ◌∷◌, arith, min, sum_of, All,
  Bool-cases, inl, inr, ltb, subst, All-map,
}
use steam_download_pumper.Fleet.Clock.{minute, minute_of}
use steam_download_pumper.Fleet.Store.Intervals.{Segment, segments_from, rounds, segments}

-- The pieces begin at `cursor`, follow one another without a gap, each inside its minute, and the
-- last one ends at `end`.
abbrev pub Covers : ℕ → ℕ → List Segment → Type 0
Covers cursor end [] = cursor ≡ end
Covers cursor end (s ∷ rest) =
    (s.at_minute ≡ minute_of cursor)
    × (0 < s.span)
    × (cursor + s.span ≤ (s.at_minute + 1) * minute)
    × Covers (cursor + s.span) end rest

segments_from-Covers :
    (fuel cursor end : ℕ)
    → cursor ≤ end
    → (cursor < end → minute_of end - minute_of cursor < fuel)
    → Covers cursor end (segments_from fuel cursor end)
unfolding segments_from
segments_from-Covers zero cursor end le enough = grind arith
segments_from-Covers (suc fuel) cursor end le enough = elim (Bool-cases (ltb cursor end)) [
  | inl more ↦
      let next : ℕ = min end ((minute_of cursor + 1) * minute) in
      let before : cursor < end = ground arith in
      rw more (
        refl,
        omega arith,
        omega arith,
        subst (λ k. Covers k end (segments_from fuel next end)) (omega arith)
            (segments_from-Covers fuel next end (omega arith)
              (λ later. omega (arith, enough before))),
      )
  | inr done ↦ rw done (ground arith)
]

-- An interval is cut, with the fuel given, into pieces that cover it to its end.
pub segments-Covers : (start end : ℕ) → start ≤ end → Covers start end (segments start end)
unfolding segments rounds
segments-Covers start end h = segments_from-Covers (rounds start end) start end h (λ _. omega arith)

-- The spans of the pieces add up to the interval.
pub Covers-sum :
    (start end : ℕ) (ss : List Segment)
    → Covers start end ss
    → start + sum_of (λ s. s.span) ss ≡ end
Covers-sum start end [] h = omega arith
Covers-sum start end (s ∷ ss) h = omega (arith, Covers-sum (start + s.span) end ss h.3)

-- Every piece lies in a minute from that of the start to that of the end.
pub Covers-minutes :
    (start end : ℕ) (ss : List Segment)
    → Covers start end ss
    → All (λ s. (minute_of start ≤ s.at_minute) × (s.at_minute ≤ minute_of end)) ss
Covers-minutes start end [] h = tt
Covers-minutes start end (s ∷ ss) h =
    let after = Covers-sum (start + s.span) end ss h.3 in
    (
      (omega arith, omega arith),
      All-map _ _ ss (λ t b. (omega arith, b.1)) (Covers-minutes (start + s.span) end ss h.3),
    )
