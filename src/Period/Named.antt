-- ===== src/Period/Named.antt =====
-- The periods that are made of the monthly spans
-- (core/period/application/generate-periods.use-case.ts, over core/period/domain/period-generation.ts).
use construction_erp_nestjs.Prelude.{ℕ, zero, suc, ◌-◌, List, [], ◌∷◌, ◌++◌}
use construction_erp_nestjs.Prelude.Text.{Text, codes}
use construction_erp_nestjs.Errors.{Result, ok, ◌>>=◌}
use construction_erp_nestjs.Numbering.Format.{to_string}
use construction_erp_nestjs.Dates.{iso, of}
use construction_erp_nestjs.Period.Aggregate.{AccountingPeriod, create}
use construction_erp_nestjs.Period.Span.{MonthlySpan}

-- `MONTHS`.
abbrev pub months : List Text
months =
    codes "Jan"
    ∷ codes "Feb"
    ∷ codes "Mar"
    ∷ codes "Apr"
    ∷ codes "May"
    ∷ codes "Jun"
    ∷ codes "Jul"
    ∷ codes "Aug"
    ∷ codes "Sep"
    ∷ codes "Oct"
    ∷ codes "Nov"
    ∷ codes "Dec"
    ∷ []

abbrev pub element : List Text → ℕ → Text
element [] n = codes "undefined"
element (m ∷ ms) zero = m
element (m ∷ ms) (suc n) = element ms n

-- `${MONTHS[month - 1]} ${year}`.
unfoldable pub span_name : MonthlySpan → Text
unfolding to_string
span_name s = element months (s.month - 1) ++ codes " " ++ to_string s.year

-- `new_id n` is what the port `IdGenerator` returns at the n-th call.
module _ (new_id : ℕ → Text) where
  unfoldable pub span_period : Text → Text → ℕ → MonthlySpan → Result AccountingPeriod
  unfolding span_name of create
  span_period company_id fy n s = do
    start_date ← of (iso s.start_date)
    end_date ← of (iso s.end_date)
    ok (create (new_id n) company_id fy (span_name s) start_date end_date)

  -- `spans.map(…)`, from the n-th call on.
  unfoldable pub create_periods :
      Text → Text → ℕ → List MonthlySpan → Result (List AccountingPeriod)
  unfolding span_period
  create_periods company_id fy n [] = ok []
  create_periods company_id fy n (s ∷ ss) = do
    p ← span_period company_id fy n s
    ps ← create_periods company_id fy (suc n) ss
    ok (p ∷ ps)
