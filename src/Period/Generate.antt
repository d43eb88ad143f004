-- ===== src/Period/Generate.antt =====
-- The periods of a financial year are generated
-- (core/period/application/generate-periods.use-case.ts).
pub mod Spans
pub mod Rows
pub mod Opens
use construction_erp_nestjs.Prelude.{ℕ, Option, none, some, Bool, List, any}
use construction_erp_nestjs.Prelude.Text.{Text}
use construction_erp_nestjs.Errors.{ErrorCode, ok, err, plain_error}
use construction_erp_nestjs.Errors.Action.{
  Action, lift, pure, gets, or_throw, throws_if, ◌>>=◌, ◌>>◌,
}
use construction_erp_nestjs.Dates.{Day}
use construction_erp_nestjs.Period.Aggregate.{AccountingPeriod}
use construction_erp_nestjs.Period.Table.{PeriodState, in_year, save_many}
use construction_erp_nestjs.Period.Span.{MonthlySpan, monthly_periods}
use construction_erp_nestjs.Period.Named.{create_periods}
use construction_erp_nestjs.Period.Methods.{Actor}

-- `existsAnyForFy`.
unfoldable pub exists_any_for_fy : Text → Text → PeriodState → Bool
exists_any_for_fy company_id fy s = any (in_year company_id fy) s.rows

-- The loop of `monthlyPeriods` has ended: `Period.Cover.spans_divide_year` says that its fuel is enough.
abbrev pub ended : Option (List MonthlySpan) → Action PeriodState (List MonthlySpan)
ended none s = (err plain_error, s)
ended (some spans) s = (ok spans, s)

-- `financial_year_bounds` reads the row of the year, which these methods never write: its dates, as the
-- days that `monthlyPeriods` parses. `new_id n` is the n-th id that `IdGenerator` returns to the call.
module _ (financial_year_bounds : Text → Text → Option (Day × Day)) (new_id : ℕ → Text) where
  -- `GeneratePeriodsUseCase.execute`.
  unfoldable pub generate_periods : Text → Actor → Action PeriodState (List AccountingPeriod)
  unfolding monthly_periods
  generate_periods fy actor = do
    bounds ← or_throw (financial_year_bounds actor.company_id fy) ErrorCode.financial_year_not_found
    exists ← gets (exists_any_for_fy actor.company_id fy)
    throws_if exists ErrorCode.periods_already_exist
    spans ← ended (monthly_periods bounds.0 bounds.1)
    created ← lift (create_periods new_id actor.company_id fy 0 spans)
    save_many created
    pure created
