-- ===== src/Period/Span.antt =====
-- The monthly spans of core/period/domain/period-generation.ts. A `Date` at midnight UTC is its
-- calendar day; `getTime` orders days as the calendar does.
use mathlib.Core.Option.{Option}
use mathlib.Core.Option
use construction_erp_nestjs.Prelude.{
  ℕ, zero, suc, ◌+◌, ◌-◌, ◌*◌, ◌≤◌, ◌≡◌, refl, true, false, arith, none, some, List, [], ◌∷◌,
  if◌then◌else◌, ltb,
}
use construction_erp_nestjs.Dates.{Day, day_le, days_in_month, IsDate, utc_year, utc}
use construction_erp_nestjs.Dates.Exact.{utc-real}

-- A span, named by its month and year.
pub record MonthlySpan : Type 0 where
  pub month : ℕ
  pub year : ℕ
  pub start_date : Day
  pub end_date : Day

-- The loop, on fuel: `none` when the fuel ends before the loop does. `Date.UTC` takes a year below 100
-- for one of the 20th century.
unfoldable pub spans_from : ℕ → ℕ → ℕ → Day → Day → Option (List MonthlySpan)
unfolding days_in_month
spans_from zero year month cursor_start end = none
spans_from (suc fuel) year month cursor_start end =
    let month_end : Day = record {
      year = utc_year year;
      month = month;
      day = days_in_month (utc_year year) month;
    } in
    let span_end = if day_le month_end end then month_end else end in
    let next_month = if ltb 12 (month + 1) then 1 else month + 1 in
    let next_year = if ltb 12 (month + 1) then year + 1 else year in
    let rest =
      spans_from fuel next_year next_month
        (record { year = utc_year next_year; month = next_month; day = 1 }) end in
    if day_le cursor_start end
    then Option.map
        (λ spans.
          record { month = month; year = year; start_date = cursor_start; end_date = span_end }
          ∷ spans)
        rest
    else some []

-- `monthlyPeriods(fyStart, fyEnd)` of two real dates: the fuel is one more than the months from the
-- first to the last. A text of an end after the year 9999 makes an invalid `Date`, with which every
-- comparison is false.
unfoldable pub monthly_periods : Day → Day → Option (List MonthlySpan)
unfolding spans_from utc
monthly_periods start end =
    if ltb 9999 end.year
    then some []
    else spans_from (suc (suc (12 * end.year + end.month) - (12 * start.year + start.month)))
        start.year start.month (utc start.year start.month start.day) end

-- One round of the loop from the year 100 on.
pub spans_from-step :
    (fuel y m : ℕ) (a b : Day) {rest : List MonthlySpan}
    → 100 ≤ y
    → day_le a b ≡ true
    → spans_from fuel
        (if ltb 12 (m + 1) then y + 1 else y)
        (if ltb 12 (m + 1) then 1 else m + 1)
        (record {
          year = if ltb 12 (m + 1) then y + 1 else y;
          month = if ltb 12 (m + 1) then 1 else m + 1;
          day = 1;
        })
        b
      ≡ some rest
    → spans_from (suc fuel) y m a b
      ≡ some (
          record {
            month = m;
            year = y;
            start_date = a;
            end_date =
                if day_le (record { year = y; month = m; day = days_in_month y m }) b
                then record { year = y; month = m; day = days_in_month y m }
                else b;
          }
          ∷ rest)
unfolding spans_from
spans_from-step fuel y m a b full t made =
    let this_year : ltb y 100 ≡ false = ground arith in
    let next_year : ltb (if ltb 12 (m + 1) then y + 1 else y) 100 ≡ false = ground arith in
    rw t (rw this_year (rw next_year (rw made refl)))

pub spans_from-stuck :
    (fuel y m : ℕ) (a b : Day)
    → 100 ≤ y
    → day_le a b ≡ true
    → spans_from fuel
        (if ltb 12 (m + 1) then y + 1 else y)
        (if ltb 12 (m + 1) then 1 else m + 1)
        (record {
          year = if ltb 12 (m + 1) then y + 1 else y;
          month = if ltb 12 (m + 1) then 1 else m + 1;
          day = 1;
        })
        b
      ≡ none
    → spans_from (suc fuel) y m a b ≡ none
unfolding spans_from
spans_from-stuck fuel y m a b full t stuck =
    let next_year : ltb (if ltb 12 (m + 1) then y + 1 else y) 100 ≡ false = ground arith in
    rw t (rw next_year (rw stuck refl))

pub spans_from-stop :
    (fuel y m : ℕ) (a b : Day) → day_le a b ≡ false → spans_from (suc fuel) y m a b ≡ some []
unfolding spans_from
spans_from-stop fuel y m a b t = rw t refl

-- What `monthly_periods` does of two real dates from the year 100 to the year 9999.
pub monthly_periods-full :
    (start end : Day)
    → IsDate start
    → 100 ≤ start.year
    → end.year ≤ 9999
    → monthly_periods start end
      ≡ spans_from
          (suc (suc (12 * end.year + end.month) - (12 * start.year + start.month)))
          start.year
          start.month
          start
          end
unfolding monthly_periods
monthly_periods-full start end real full short =
    let valid : ltb 9999 end.year ≡ false = ground arith in
    rw valid (rw (utc-real start.year start.month start.day full real) refl)
