-- ===== src/Period/Generate/Spans.antt =====
-- The spans of core/period/domain/period-generation.ts have real dates, so that `DateOnly.of` accepts
-- them in core/period/application/generate-periods.use-case.ts.
use construction_erp_nestjs.Prelude.{
  ℕ, zero, suc, ◌+◌, ◌≤◌, ◌≡◌, refl, subst, none, some, Bool, true, false, List, [], ◌∷◌,
  if◌then◌else◌, ltb, All, Bool-cases, inl, inr, arith, Option-cases,
}
use construction_erp_nestjs.Prelude.Text.{Text}
use construction_erp_nestjs.Errors.{ok}
use construction_erp_nestjs.Dates.{Day, day_le, days_in_month, IsDate, iso, of}
use construction_erp_nestjs.Dates.Exact.{days-range, of-iso}
use construction_erp_nestjs.Period.Aggregate.{AccountingPeriod, create}
use construction_erp_nestjs.Period.Span.{MonthlySpan, spans_from, spans_from-step, spans_from-stuck}
use construction_erp_nestjs.Period.Named.{span_name, span_period, create_periods}

-- A date that `DateOnly.of` accepts.
pub record IsWritable (d : Day) : Type 0 where
  pub real : IsDate d
  pub full : 100 ≤ d.year
  pub short : d.year ≤ 9999

abbrev pub HasDates : MonthlySpan → Type 0
HasDates s = IsWritable s.start_date × IsWritable s.end_date

abbrev month_end : ℕ → ℕ → Day
month_end y m = record { year = y; month = m; day = days_in_month y m }

month_end-IsDate : (y m : ℕ) → 1 ≤ m → m ≤ 12 → IsDate (month_end y m)
month_end-IsDate y m low high =
    let size = days-range y m in
    record { month_low = low; month_high = high; day_low = omega arith; day_high = omega arith }

month_start-IsDate : (y m : ℕ) → 1 ≤ m → m ≤ 12 → IsDate (record { year = y; month = m; day = 1 })
month_start-IsDate y m low high =
    let size = days-range y m in
    record { month_low = low; month_high = high; day_low = omega arith; day_high = omega arith }

earlier_year : (a b : Day) → day_le a b ≡ true → a.year ≤ b.year
earlier_year a b h = ground arith

either : {A : Type 0} (P : A → Type 0) (b : Bool) (x y : A) → P x → P y → P (if b then x else y)
either P true x y p q = p
either P false x y p q = q

module _ (b : Day) (last : IsDate b) (short : b.year ≤ 9999) where
  pub spans-HasDates :
      (fuel y m : ℕ) (a : Day) (ss : List MonthlySpan)
      → IsDate a
      → 100 ≤ a.year
      → a.year ≡ y
      → a.month ≡ m
      → spans_from fuel y m a b ≡ some ss
      → All HasDates ss
  unfolding spans_from
  spans-HasDates zero y m a ss real full hy hm h = cc
  spans-HasDates (suc fuel) y m a ss real full hy hm h =
      let low = real.month_low in
      let high = real.month_high in
      let nm = if ltb 12 (m + 1) then 1 else m + 1 in
      let ny = if ltb 12 (m + 1) then y + 1 else y in
      let n1 : 1 ≤ nm = ground arith in
      let n2 : nm ≤ 12 = ground arith in
      let n3 : 100 ≤ ny = ground arith in
      let next : Day = record { year = ny; month = nm; day = 1 } in
      let end = month_end y m in
      let span : MonthlySpan = record {
        month = m;
        year = y;
        start_date = a;
        end_date = if day_le end b then end else b;
      } in
      elim (Bool-cases (day_le a b)) [
        | inl t ↦ elim (Option-cases (spans_from fuel ny nm next b)) [
          | inl stuck ↦
              let e : spans_from (suc fuel) y m a b ≡ none =
                spans_from-stuck fuel y m a b (omega arith) t stuck in
              cc
          | inr (rest, made) ↦
              let e : spans_from (suc fuel) y m a b ≡ some (span ∷ rest) =
                spans_from-step fuel y m a b (omega arith) t made in
              let is : span ∷ rest ≡ ss = cc in
              let years = earlier_year a b t in
              let here : IsWritable a = record { real = real; full = full; short = omega arith } in
              let ends : IsWritable (if day_le end b then end else b) =
                either IsWritable (day_le end b) end b
                  (record {
                    real = month_end-IsDate y m (omega arith) (omega arith);
                    full = omega arith;
                    short = omega arith;
                  })
                  (record { real = last; full = omega arith; short = short }) in
              let later =
                spans-HasDates fuel ny nm next rest (month_start-IsDate ny nm n1 n2) n3 refl refl
                  made in
              subst (All HasDates) is ((here, ends), later)
        ]
        | inr t ↦
            let e : spans_from (suc fuel) y m a b ≡ some [] = rw t refl in
            let is : [] ≡ ss = cc in subst (All HasDates) is tt
      ]

module _ (new_id : ℕ → Text) where
  -- The periods of spans, numbered from `n` on.
  abbrev pub period_of : Text → Text → ℕ → MonthlySpan → AccountingPeriod
  period_of c fy n s = create (new_id n) c fy (span_name s) (iso s.start_date) (iso s.end_date)

  abbrev pub periods_of : Text → Text → ℕ → List MonthlySpan → List AccountingPeriod
  periods_of c fy n [] = []
  periods_of c fy n (s ∷ ss) = period_of c fy n s ∷ periods_of c fy (suc n) ss

  accepted : (d : Day) → IsWritable d → of (iso d) ≡ ok (iso d)
  accepted d w = of-iso d w.real w.full w.short

  pub create_periods-ok :
      (c fy : Text) (n : ℕ) (ss : List MonthlySpan)
      → All HasDates ss
      → create_periods new_id c fy n ss ≡ ok (periods_of c fy n ss)
  unfolding create_periods span_period
  create_periods-ok c fy n [] h = refl
  create_periods-ok c fy n (s ∷ ss) h =
      rw (accepted s.start_date h.0.0)
        (rw (accepted s.end_date h.0.1) (rw (create_periods-ok c fy (suc n) ss h.1) refl))
