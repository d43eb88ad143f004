-- ===== src/Dates.antt =====
-- Calendar dates (common/value-objects/date-only.ts), as `new Date(Date.UTC(y, m, d))` normalizes them,
-- and their text YYYY-MM-DD.
pub mod Order
pub mod Exact
use construction_erp_nestjs.Prelude.{
  ℕ, zero, suc, ◌+◌, ◌-◌, ◌*◌, ◌/◌, ◌%◌, ◌≤◌, Bool, true, false, ◌&&◌, ◌||◌, not, List, [], ◌∷◌,
  ◌++◌, map, if◌then◌else◌, ltb, leb, ◌==◌,
}
use construction_erp_nestjs.Prelude.Text.{Text, trim}
use construction_erp_nestjs.Errors.{ErrorCode, Result, ok, throw, throw_if, ◌>>◌}

pub record Day : Type 0 where
  pub year : ℕ
  pub month : ℕ
  pub day : ℕ

-- `a.getTime() <= b.getTime()`.
abbrev pub day_le : Day → Day → Bool
day_le a b =
    ltb a.year b.year
    || (a.year == b.year && (ltb a.month b.month || (a.month == b.month && leb a.day b.day)))

abbrev pub is_leap : ℕ → Bool
is_leap y = (y % 4 == 0 && not (y % 100 == 0)) || y % 400 == 0

-- The day that `new Date(Date.UTC(year, month, 0))` is: the last one of the month.
unfoldable pub days_in_month : ℕ → ℕ → ℕ
days_in_month y m =
    if m == 2
    then if is_leap y then 29 else 28
    else if m == 4 || m == 6 || m == 9 || m == 11
    then 30
    else 31

-- A real calendar date.
pub record IsDate (d : Day) : Type 0 where
  pub month_low : 1 ≤ d.month
  pub month_high : d.month ≤ 12
  pub day_low : 1 ≤ d.day
  pub day_high : d.day ≤ days_in_month d.year d.month

abbrev pub month_after : Day → Day
month_after d =
    if leb 12 d.month
    then record d { year = suc d.year; month = 1 }
    else record d { month = suc d.month }

abbrev pub month_before : Day → Day
month_before d =
    if leb d.month 1
    then record d { year = d.year - 1; month = 12 }
    else record d { month = d.month - 1 }

-- Days beyond the end of a month run into the next ones. A day of two digits passes the ends of at most
-- three months, so the fuel of `utc` is enough.
unfoldable pub carry_days : ℕ → Day → Day
unfolding days_in_month
carry_days zero d = d
carry_days (suc fuel) d =
    let later =
      carry_days fuel (record (month_after d) { day = d.day - days_in_month d.year d.month }) in
    if leb d.day (days_in_month d.year d.month) then d else later

-- `Date.UTC(y, m - 1, d)`: a year below 100 is one of the 20th century, a month beyond December runs
-- into the next years, month 0 is the December before, and day 0 the last day of the month before.
abbrev pub utc_year : ℕ → ℕ
utc_year y = if ltb y 100 then 1900 + y else y

abbrev pub utc_month : ℕ → ℕ → ℕ → Day
utc_month y m d =
    if m == 0
    then record { year = y - 1; month = 12; day = d }
    else record { year = y + (m - 1) / 12; month = suc ((m - 1) % 12); day = d }

abbrev pub last_day : Day → Day
last_day d = record d { day = days_in_month d.year d.month }

unfoldable pub utc : ℕ → ℕ → ℕ → Day
unfolding carry_days days_in_month
utc y m d =
    let first = utc_month (utc_year y) m d in
    let before = last_day (month_before first) in
    let carried = carry_days 4 first in if d == 0 then before else carried

abbrev pub is_digit : ℕ → Bool
is_digit c = leb 48 c && leb c 57

-- A pattern that is a sequence of character classes, matched against the whole text.
unfoldable pub matches : List (ℕ → Bool) → Text → Bool
matches [] [] = true
matches [] (c ∷ s) = false
matches (p ∷ ps) [] = false
matches (p ∷ ps) (c ∷ s) = p c && matches ps s

-- `/^\d{4}-\d{2}-\d{2}$/`.
abbrev pub iso_date : List (ℕ → Bool)
iso_date =
    is_digit
    ∷ is_digit
    ∷ is_digit
    ∷ is_digit
    ∷ (◌==◌ 45)
    ∷ is_digit
    ∷ is_digit
    ∷ (◌==◌ 45)
    ∷ is_digit
    ∷ is_digit
    ∷ []

-- `s.split(c)` for a separator of one code unit.
abbrev pub prepend : ℕ → List Text → List Text
prepend c [] = (c ∷ []) ∷ []
prepend c (t ∷ ts) = (c ∷ t) ∷ ts

unfoldable pub split : ℕ → Text → List Text
split c [] = [] ∷ []
split c (x ∷ s) = let rest = split c s in if x == c then [] ∷ rest else prepend x rest

-- `parseInt(p, 10)` of a text of digits.
unfoldable pub parse_from : ℕ → Text → ℕ
parse_from n [] = n
parse_from n (c ∷ s) = parse_from (10 * n + (c - 48)) s

unfoldable pub parse_int : Text → ℕ
unfolding parse_from
parse_int s = parse_from 0 s

abbrev pub same_day : Day → ℕ → ℕ → ℕ → Bool
same_day t y m d = t.year == y && (t.month == m && t.day == d)

abbrev pub exists_day : List ℕ → Bool
exists_day (y ∷ m ∷ d ∷ rest) = same_day (utc y m d) y m d
exists_day _ = false

-- `DateOnly.of`: the value of the date is its text.
unfoldable pub of : Text → Result Text
unfolding trim matches split parse_int utc
of raw = do
  throw_if (not (matches iso_date (trim raw))) ErrorCode.validation
  throw_if (not (exists_day (map parse_int (split 45 (trim raw))))) ErrorCode.validation
  ok (trim raw)

abbrev pub two_digits : ℕ → Text → Text
two_digits n s = (48 + n / 10) ∷ (48 + n % 10) ∷ s

-- `d.toISOString().slice(0, 10)`, for a year of four digits.
abbrev pub iso : Day → Text
iso d =
    two_digits (d.year / 100)
      (two_digits (d.year % 100) (45 ∷ two_digits d.month (45 ∷ two_digits d.day [])))
