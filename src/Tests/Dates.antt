-- ===== src/Tests/Dates.antt =====
-- Texts of dates, and the periods of a year that are generated.
use construction_erp_nestjs.Prelude.{
  ℕ, ◌≡◌, ◌↔◌, ◌≤◌, refl, Option, some, true, ◌&&◌, List, [], ◌∷◌, arith, if◌then◌else◌,
}
use construction_erp_nestjs.Prelude.Text.{Text, codes, text_eq, text_eq_iff, trim}
use construction_erp_nestjs.Errors.{ErrorCode, domain, ok, err, throw}
use construction_erp_nestjs.Dates.{Day, day_le, IsDate, of, iso}
use construction_erp_nestjs.Dates.Exact.{of_iff}
use construction_erp_nestjs.Period.Aggregate.{AccountingPeriod}
use construction_erp_nestjs.Period.Table.{PeriodState}
use construction_erp_nestjs.Period.Methods.{assert_open}
use construction_erp_nestjs.Period.Generate.{generate_periods, exists_any_for_fy}
use construction_erp_nestjs.Period.Generate.Opens.{generated_year_opens}
use construction_erp_nestjs.Tests.Numbers.{fresh_id}
use construction_erp_nestjs.Tests.Periods.{day, user, first_day-IsDate, last_day-IsDate}

of_iff_example : (of (codes " 2025-07-01 ") ≡ ok (codes "2025-07-01")) ↔ (
    (d : Day) × IsDate d
    × (100 ≤ d.year)
    × (d.year ≤ 9999)
    × (trim (codes " 2025-07-01 ") ≡ iso d)
    × (codes "2025-07-01" ≡ iso d))
of_iff_example = of_iff (codes " 2025-07-01 ") (codes "2025-07-01")

no_leap_day : of (codes "2025-02-29") ≡ throw ErrorCode.validation
unfolding of
no_leap_day = refl

leap_day : of (codes "2024-02-29") ≡ ok (codes "2024-02-29")
unfolding of
leap_day = refl

abbrev empty : PeriodState
empty = record { rows = []; audit_log = []; clock_reads = 0 }

abbrev bounds : Text → Text → Option (Day × Day)
bounds c fy = some (day 2025 7 1, day 2026 6 30)

fresh_apart : (n m : ℕ) → text_eq (fresh_id n) (fresh_id m) ≡ true → n ≡ m
fresh_apart n m h = let same : n ∷ [] ≡ m ∷ [] = (text_eq_iff (fresh_id n) (fresh_id m)).0 h in cc

generated_year_opens_example :
    (created : List AccountingPeriod) × (t : PeriodState) × (generate_periods bounds fresh_id
        (codes "fy")
        user
        empty
      ≡ (ok created, t))
    × ((assert_open (codes "c") (codes "fy") (codes "2025-07-01") t).0 ≡ (
        if day_le (day 2025 7 1) (day 2025 7 1) && day_le (day 2025 7 1) (day 2026 6 30)
        then ok tt
        else err (domain ErrorCode.no_period_defined)))
unfolding exists_any_for_fy
generated_year_opens_example =
    generated_year_opens bounds fresh_id fresh_apart (codes "fy") user empty (day 2025 7 1)
      (day 2026 6 30) (day 2025 7 1) refl first_day-IsDate last_day-IsDate first_day-IsDate
      (omega arith) (omega arith) refl (λ k. refl)
