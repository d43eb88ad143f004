-- ===== src/Period/Generate/Opens.antt =====
-- What generating the periods of a year (core/period/application/generate-periods.use-case.ts) opens to
-- the guard of posting (core/period/application/period.service.ts).
use construction_erp_nestjs.Prelude.{
  ℕ, suc, ◌+◌, ◌-◌, ◌*◌, ◌≤◌, ◌≡◌, ◌∙◌, ap, sym, refl, some, none, Option, Bool, true, false, ◌&&◌,
  List, ◌++◌, any, if◌then◌else◌, and_true, All, inl, inr, arith,
}
use construction_erp_nestjs.Prelude.Text.{Text, text_eq}
use construction_erp_nestjs.Errors.{ErrorCode, domain, ok, err}
use construction_erp_nestjs.Errors.Action.{◌>>=◌, bind_to, or_throw, gets, throws_if, lift}
use construction_erp_nestjs.Dates.{Day, day_le, IsDate, iso}
use construction_erp_nestjs.Period.Aggregate.{AccountingPeriod, is_open, owns}
use construction_erp_nestjs.Period.Table.{PeriodState, find_owning, in_year, save_many}
use construction_erp_nestjs.Period.Methods.{Actor, assert_open}
use construction_erp_nestjs.Period.Span.{MonthlySpan, monthly_periods, monthly_periods-full}
use construction_erp_nestjs.Period.Cover.{owners, spans_divide_year}
use construction_erp_nestjs.Period.Named.{create_periods}
use construction_erp_nestjs.Period.Generate.{exists_any_for_fy, generate_periods, ended}
use construction_erp_nestjs.Period.Generate.Spans.{
  HasDates, spans-HasDates, periods_of, create_periods-ok,
}
use construction_erp_nestjs.Period.Generate.Rows.{save_many-appends, find-skip, periods_of-found}

monthly-HasDates :
    (start end : Day) (ss : List MonthlySpan)
    → IsDate start
    → IsDate end
    → 100 ≤ start.year
    → end.year ≤ 9999
    → monthly_periods start end ≡ some ss
    → All HasDates ss
monthly-HasDates start end ss hs he full short h =
    spans-HasDates end he short
      (suc (suc (12 * end.year + end.month) - (12 * start.year + start.month))) start.year
      start.month start ss hs full refl refl
      (sym (monthly_periods-full start end hs full short) ∙ h)

-- The guard, from what it finds.
found_open :
    (c fy date : Text) (s : PeriodState) (p : AccountingPeriod)
    → find_owning c fy date s ≡ some p
    → is_open p ≡ true
    → (assert_open c fy date s).0 ≡ ok tt
unfolding assert_open ◌>>=◌
found_open c fy date s p found opened = rw found (rw opened refl)

found_none :
    (c fy date : Text) (s : PeriodState)
    → find_owning c fy date s ≡ none
    → (assert_open c fy date s).0 ≡ err (domain ErrorCode.no_period_defined)
unfolding assert_open ◌>>=◌
found_none c fy date s nothing = rw nothing refl

-- The test of the days, from the count of the owners.
counted :
    {A : Type 0} (b : Bool) (n : ℕ) (r : A) (x y : A)
    → n ≡ (if b then 1 else 0)
    → (n ≡ 0 → r ≡ y)
    → (1 ≤ n → r ≡ x)
    → r ≡ (if b then x else y)
counted true n r x y e zero_case some_case = some_case (omega arith)
counted false n r x y e zero_case some_case = zero_case e

module _ (bounds : Text → Text → Option (Day × Day)) (new_id : ℕ → Text)
    (apart : (n m : ℕ) → text_eq (new_id n) (new_id m) ≡ true → n ≡ m) where
  -- A year without periods, whose row has the given spans.
  generates :
      (fy : Text) (actor : Actor) (s : PeriodState) (start end : Day) (ss : List MonthlySpan)
      → bounds actor.company_id fy ≡ some (start, end)
      → exists_any_for_fy actor.company_id fy s ≡ false
      → monthly_periods start end ≡ some ss
      → All HasDates ss
      → ((k : ℕ) → any (λ row. text_eq row.id (new_id k)) s.rows ≡ false)
      → generate_periods bounds new_id fy actor s ≡ (
        ok (periods_of new_id actor.company_id fy 0 ss),
        record s { rows = s.rows ++ periods_of new_id actor.company_id fy 0 ss },
      )
  unfolding generate_periods
  generates fy actor s start end ss row empty made dates fresh =
      bind_to (or_throw (bounds actor.company_id fy) ErrorCode.financial_year_not_found) _ s
        (ap (λ o. or_throw o ErrorCode.financial_year_not_found s) row)
      ∙ bind_to (gets (exists_any_for_fy actor.company_id fy)) _ s refl
      ∙ bind_to
          (throws_if (exists_any_for_fy actor.company_id fy s) ErrorCode.periods_already_exist) _ s
          (ap (λ b. throws_if b ErrorCode.periods_already_exist s) empty)
      ∙ bind_to (ended (monthly_periods start end)) _ s (ap (λ o. ended o s) made)
      ∙ bind_to (lift (create_periods new_id actor.company_id fy 0 ss)) _ s
          (ap (λ r. (r, s)) (create_periods-ok new_id actor.company_id fy 0 ss dates))
      ∙ bind_to (save_many (periods_of new_id actor.company_id fy 0 ss)) _ s
          (save_many-appends new_id apart actor.company_id fy 0 ss s (λ k _. fresh k))

  -- Generating the periods of a financial year that has none returns, for real dates from the year 100
  -- to 9999 and fresh distinct ids, and from then on the guard of posting accepts a real date exactly
  -- when it lies in the year, and refuses any other with NO_PERIOD_DEFINED.
  pub generated_year_opens :
      (fy : Text) (actor : Actor) (s : PeriodState) (start end x : Day)
      → bounds actor.company_id fy ≡ some (start, end)
      → IsDate start
      → IsDate end
      → IsDate x
      → 100 ≤ start.year
      → end.year ≤ 9999
      → exists_any_for_fy actor.company_id fy s ≡ false
      → ((k : ℕ) → any (λ row. text_eq row.id (new_id k)) s.rows ≡ false)
      → (created : List AccountingPeriod) × (t : PeriodState) × (generate_periods bounds new_id fy
            actor s
          ≡ (ok created, t))
        × ((assert_open actor.company_id fy (iso x) t).0 ≡ (
            if day_le start x && day_le x end
            then ok tt
            else err (domain ErrorCode.no_period_defined)))
  unfolding find_owning exists_any_for_fy
  generated_year_opens fy actor s start end x row hs he hx full short empty fresh =
      let (ss, made, count) = spans_divide_year start end x hs he hx full short in
      let dates = monthly-HasDates start end ss hs he full short made in
      let created = periods_of new_id actor.company_id fy 0 ss in
      let t : PeriodState = record s { rows = s.rows ++ created } in
      let skip =
        find-skip (λ p. in_year actor.company_id fy p && owns (iso x) p)
          (in_year actor.company_id fy) s.rows created (λ p h. (and_true _ _ h).0) empty in
      (
        created,
        t,
        generates fy actor s start end ss row empty made dates fresh,
        counted _ (owners x ss) _ _ _ count
            (λ nobody. elim (periods_of-found new_id actor.company_id fy 0 x ss) [
              | inl (nothing, _) ↦ found_none actor.company_id fy (iso x) t (skip ∙ nothing)
              | inr (p, _, _, some_there) ↦ ground arith
            ])
            (λ somebody. elim (periods_of-found new_id actor.company_id fy 0 x ss) [
              | inl (_, none_there) ↦ ground arith
              | inr (p, found, opened, _) ↦
                  found_open actor.company_id fy (iso x) t p (skip ∙ found) opened
            ]),
      )
