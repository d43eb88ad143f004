-- ===== src/Tests/Periods.antt =====
-- A year with two monthly periods, and the spans of a year.
use construction_erp_nestjs.Prelude.{
  ℕ, ◌≡◌, ◌⊎◌, refl, none, some, true, false, ◌&&◌, List, [], ◌∷◌, if◌then◌else◌, arith,
}
use construction_erp_nestjs.Prelude.Text.{Text, codes, text_eq, text_le}
use construction_erp_nestjs.Errors.{ErrorCode, domain, ok, err, throw}
use construction_erp_nestjs.Errors.Action.{◌>>=◌}
use construction_erp_nestjs.Period.Aggregate.{
  AccountingPeriod, open_, closed, unstamped, HasStamp, is_open, owns, close, reopen, close-reopen,
}
use construction_erp_nestjs.Period.Table.{
  PeriodState, period_close, find_owning, find_by_id, list_by_fy, order_by_start, insert_by_start,
  save, save_many,
}
use construction_erp_nestjs.Period.Methods.{
  Actor, assert_open, read_clock, close_now, close_period, close_each, close_fy, reopen_period,
}
use construction_erp_nestjs.Period.Guard.{close_blocks_posting}
use construction_erp_nestjs.Period.YearLock.Closing.{closed_year_refuses_reopen}
use construction_erp_nestjs.Period.Span.{MonthlySpan, monthly_periods}
use construction_erp_nestjs.Dates.{Day, day_le, days_in_month, IsDate}
use construction_erp_nestjs.Period.Cover.{owners, spans_divide_year}

abbrev pub july : AccountingPeriod
july = record {
  id = codes "p1";
  company_id = codes "c";
  financial_year_id = codes "fy";
  name = codes "Jul 2025";
  start_date = codes "2025-07-01";
  end_date = codes "2025-07-31";
  status = open_;
  closed_at = none;
  closed_by = none;
  version = 1;
}

abbrev pub closed_july : AccountingPeriod
closed_july = record july { status = closed; closed_at = some 0; closed_by = some (codes "u") }

abbrev pub one_period : PeriodState
one_period = record { rows = july ∷ []; audit_log = []; clock_reads = 0 }

abbrev pub user : Actor
user = record { user_id = codes "u"; company_id = codes "c" }

abbrev pub after_close : PeriodState
after_close = record {
  rows = record closed_july { version = 2 } ∷ [];
  audit_log =
      record {
        entity_id = codes "p1";
        actor_id = codes "u";
        company_id = codes "c";
        event = period_close;
      }
      ∷ [];
  clock_reads = 1;
}

abbrev pub watch : ℕ → ℕ
watch n = n

pub july_owns : find_owning (codes "c") (codes "fy") (codes "2025-07-15") one_period ≡ some july
unfolding find_owning owns text_eq text_le
july_owns = refl

pub july_closed : close_period watch (codes "p1") user one_period ≡ (ok closed_july, after_close)
unfolding close_period find_by_id close_now close read_clock is_open save text_eq ◌>>=◌
july_closed = refl

pub year_closed : close_fy watch (codes "fy") user one_period ≡ (
  ok (record { closed_count = 1; already_closed_count = 0; periods = closed_july ∷ [] }),
  after_close,
)
unfolding close_fy list_by_fy order_by_start insert_by_start close_each close_now close read_clock
    is_open save_many save text_eq ◌>>=◌
year_closed = refl

july_still_there :
    find_by_id (codes "p1") (codes "c") after_close ≡ some (record closed_july { version = 2 })
unfolding find_by_id text_eq
july_still_there = refl

close_blocks_posting_example :
    assert_open (codes "c") (codes "fy") (codes "2025-07-15") after_close
    ≡ (err (domain ErrorCode.period_closed), after_close)
close_blocks_posting_example =
    close_blocks_posting watch (codes "fy") (codes "2025-07-15") user one_period july
      (((λ h. refl), tt), tt) july_owns july_closed

closed_year_refuses_reopen_example :
    reopen_period (codes "p1") user after_close
    ≡ (err (domain ErrorCode.period_fy_locked), after_close)
closed_year_refuses_reopen_example =
    closed_year_refuses_reopen watch (codes "fy") (codes "p1") user user one_period
      (record closed_july { version = 2 }) year_closed refl july_still_there refl

close-reopen_example :
    ((is_open july ≡ true)
      × (reopen july ≡ throw ErrorCode.period_already_open)
      × ((q : AccountingPeriod) × (close (codes "u") 0 july ≡ ok q)
          × (is_open q ≡ false)
          × (q.closed_at ≡ some 0)
          × (q.closed_by ≡ some (codes "u"))
          × HasStamp q
          × (close (codes "u") 0 q ≡ throw ErrorCode.period_already_closed)
          × (reopen q ≡ ok july)))
    ⊎ ((is_open july ≡ false)
        × (close (codes "u") 0 july ≡ throw ErrorCode.period_already_closed)
        × ((q : AccountingPeriod) × (closer : Text) × (at : ℕ) × (reopen july ≡ ok q)
            × (is_open q ≡ true)
            × HasStamp q
            × (reopen q ≡ throw ErrorCode.period_already_open)
            × (close closer at q ≡ ok july)))
close-reopen_example = close-reopen (codes "u") 0 july unstamped

abbrev pub day : ℕ → ℕ → ℕ → Day
day y m d = record { year = y; month = m; day = d }

pub first_day-IsDate : IsDate (day 2025 7 1)
unfolding days_in_month
first_day-IsDate = record {
  month_low = omega arith;
  month_high = omega arith;
  day_low = omega arith;
  day_high = omega arith;
}

pub last_day-IsDate : IsDate (day 2026 6 30)
unfolding days_in_month
last_day-IsDate = record {
  month_low = omega arith;
  month_high = omega arith;
  day_low = omega arith;
  day_high = omega arith;
}

leap_day-IsDate : IsDate (day 2024 2 29)
unfolding days_in_month
leap_day-IsDate = record {
  month_low = omega arith;
  month_high = omega arith;
  day_low = omega arith;
  day_high = omega arith;
}

spans_divide_year_example :
    (ss : List MonthlySpan) × (monthly_periods (day 2025 7 1) (day 2026 6 30) ≡ some ss)
    × (owners (day 2024 2 29) ss ≡ (
        if day_le (day 2025 7 1) (day 2024 2 29) && day_le (day 2024 2 29) (day 2026 6 30)
        then 1
        else 0))
spans_divide_year_example =
    spans_divide_year (day 2025 7 1) (day 2026 6 30) (day 2024 2 29) first_day-IsDate
      last_day-IsDate leap_day-IsDate (omega arith) (omega arith)
