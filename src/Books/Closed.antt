-- ===== src/Books/Closed.antt =====
-- What closing does to the ledger: core/period/application (close-period and close-fy) against
-- core/posting/application/posting.service.ts, over the ports that the program binds.
use construction_erp_nestjs.Prelude.{
  ℕ, ◌≡◌, refl, ◌∙◌, sym, ap, subst, some, true, false, and_true, Option-cases, inl, inr, ◌⊎◌,
  find-All,
}
use construction_erp_nestjs.Prelude.Text.{Text}
use construction_erp_nestjs.Errors.{ErrorCode, Failure, domain, ok, err, Result-cases}
use construction_erp_nestjs.Errors.Action.{◌>>=◌, >>=-eq-err, with_state}
use construction_erp_nestjs.Decimal.{DecimalLib}
use construction_erp_nestjs.Posting.Command.{PostingCommand}
use construction_erp_nestjs.Posting.Entry.{JournalEntry}
use construction_erp_nestjs.Posting.Service.{Ports, Finds, validate, post, reversible, reverse}
use construction_erp_nestjs.Posting.Service.Reversal.{reversible-Reads, reversible-open}
use construction_erp_nestjs.Period.Aggregate.{AccountingPeriod, is_open}
use construction_erp_nestjs.Period.Table.{PeriodState, find_owning, in_year}
use construction_erp_nestjs.Period.Methods.{
  Actor, CloseFyResult, assert_open, close_period, close_fy,
}
use construction_erp_nestjs.Period.Guard.{HasKey, close_blocks_posting, assert_open-closed}
use construction_erp_nestjs.Period.YearLock.{IsLocked}
use construction_erp_nestjs.Period.YearLock.Closing.{close_fy-IsLocked}
use construction_erp_nestjs.Books.{Books, on_periods, books_ports}
use construction_erp_nestjs.Books.Store.{books_ports_keep}

-- In a locked year the guard of posting refuses every date.
locked_refuses :
    (c fy date : Text) (s : PeriodState)
    → IsLocked c fy s
    → (assert_open c fy date s ≡ (err (domain ErrorCode.period_closed), s))
      ⊎ (assert_open c fy date s ≡ (err (domain ErrorCode.no_period_defined), s))
unfolding assert_open find_owning ◌>>=◌
locked_refuses c fy date s locked = elim (Option-cases (find_owning c fy date s)) [
  | inl nothing ↦ inr (rw nothing refl)
  | inr (p, found) ↦
      let hit = find-All (λ r. in_year c fy r ≡ true → is_open r ≡ false) _ s.rows locked found in
      inl (assert_open-closed c fy date s p found (hit.0 (and_true (in_year c fy p) _ hit.1).0))
]

module _ ⦃d : DecimalLib⦄ (new_id series_id : ℕ → Text) (clock touch : ℕ → ℕ) where
  abbrev ports : Ports Books
  ports = books_ports new_id series_id clock touch

  -- A command that the period guard refuses is refused by `post`.
  guard_refuses_post :
      (cmd : PostingCommand) (e : Failure) (s : Books)
      → assert_open cmd.company_id cmd.financial_year_id cmd.voucher_date s.periods
        ≡ (err e, s.periods)
      → post ports cmd s ≡ (err e, s)
  unfolding post validate books_ports
  guard_refuses_post cmd e s h =
      let guard = on_periods (assert_open cmd.company_id cmd.financial_year_id cmd.voucher_date) in
      let stopped : validate ports cmd s ≡ (err e, s) =
        >>=-eq-err guard _ s e (ap (λ q. q.0) h)
        ∙ ap (λ q. (err e, record s { periods = q.1 })) h in
      >>=-eq-err (validate ports cmd) _ s e (ap (λ q. q.0) stopped) ∙ ap (λ q. (err e, q.1)) stopped

  -- Once the period that owns the date of a command has been closed by a user of its company, `post`
  -- refuses the command with PERIOD_CLOSED and writes nothing, given that ids are keys of the periods.
  pub closed_period_refuses_post :
      (cmd : PostingCommand) (actor : Actor) (s : Books) (p : AccountingPeriod)
      {q : AccountingPeriod} {t : Books}
      → HasKey s.periods.rows
      → actor.company_id ≡ cmd.company_id
      → find_owning cmd.company_id cmd.financial_year_id cmd.voucher_date s.periods ≡ some p
      → on_periods (close_period clock p.id actor) s ≡ (ok q, t)
      → post ports cmd t ≡ (err (domain ErrorCode.period_closed), t)
  closed_period_refuses_post cmd actor s p {q} {t} key company found h =
      let closing : close_period clock p.id actor s.periods ≡ (ok q, t.periods) =
        λ i. ((h i).0, (h i).1.periods) in
      guard_refuses_post cmd _ t (
        subst
          (λ c.
            assert_open c cmd.financial_year_id cmd.voucher_date t.periods
            ≡ (err (domain ErrorCode.period_closed), t.periods))
          company
          (close_blocks_posting clock cmd.financial_year_id cmd.voucher_date actor s.periods p key
            (subst (λ c. find_owning c cmd.financial_year_id cmd.voucher_date s.periods ≡ some p)
              (sym company) found)
            closing))

  -- An entry whose date the period guard refuses is not reversed.
  guard_refuses_reverse :
      (id c reason by : Text) (o : JournalEntry) (e : Failure) (s : Books)
      → Finds ports id c o s
      → (assert_open o.company_id o.financial_year_id o.voucher_date s.periods).0 ≡ err e
      → (f : Failure) × (reverse ports id c reason by s ≡ (err f, s))
  unfolding reverse books_ports
  guard_refuses_reverse id c reason by o e s found shut =
      let r = (books_ports_keep new_id series_id clock touch).0 in
      elim (Result-cases (reversible ports id c s).0) [
        | inl (o2, passed) ↦
            let (found2, opened) =
              reversible-open ports r id c s
                (with_state (reversible ports id c) s (ok o2) passed) in
            let same : o2 ≡ o = cc in
            let open_here =
              subst
                (λ x.
                  (assert_open x.company_id x.financial_year_id x.voucher_date s.periods).0 ≡ ok tt)
                same opened in
            cc
        | inr (f, failed) ↦ (
          f,
          >>=-eq-err (reversible ports id c) _ s f failed
              ∙ ap (λ x. (err f, x)) (reversible-Reads ports r id c s),
        )
      ]

  -- Once a financial year has been closed by a user of the company, `post` refuses each command of that
  -- company and year, with PERIOD_CLOSED or NO_PERIOD_DEFINED, `reverse` refuses each entry of them,
  -- and neither writes anything.
  pub closed_year_freezes :
      (fy : Text) (actor : Actor) (s : Books) {result : CloseFyResult} {t : Books}
      → on_periods (close_fy clock fy actor) s ≡ (ok result, t)
      → ((cmd : PostingCommand)
          → cmd.company_id ≡ actor.company_id
          → cmd.financial_year_id ≡ fy
          → (post ports cmd t ≡ (err (domain ErrorCode.period_closed), t))
            ⊎ (post ports cmd t ≡ (err (domain ErrorCode.no_period_defined), t)))
        × ((id reason by : Text) (o : JournalEntry)
            → Finds ports id actor.company_id o t
            → o.financial_year_id ≡ fy
            → (f : Failure) × (reverse ports id actor.company_id reason by t ≡ (err f, t)))
  closed_year_freezes fy actor s {result} {t} h =
      let closing : close_fy clock fy actor s.periods ≡ (ok result, t.periods) =
        λ i. ((h i).0, (h i).1.periods) in
      let locked = close_fy-IsLocked clock fy actor s.periods closing in
      (
        (λ cmd company year.
            elim (locked_refuses cmd.company_id cmd.financial_year_id cmd.voucher_date t.periods (
              subst (λ c. IsLocked c cmd.financial_year_id t.periods) (sym company)
                (subst (λ y. IsLocked actor.company_id y t.periods) (sym year) locked))) [
                  | inl shut ↦ inl (guard_refuses_post cmd _ t shut)
                  | inr nothing ↦ inr (guard_refuses_post cmd _ t nothing)
                ]),
        (λ id reason by o found year.
            let key =
              (books_ports_keep new_id series_id clock touch).1.found_key id actor.company_id o t
                found in
            elim (locked_refuses o.company_id o.financial_year_id o.voucher_date t.periods (
              subst (λ c. IsLocked c o.financial_year_id t.periods) (sym key.1)
                (subst (λ y. IsLocked actor.company_id y t.periods) (sym year) locked))) [
                  | inl shut ↦ guard_refuses_reverse id _ reason by o _ t found (ap (λ q. q.0) shut)
                  | inr nothing ↦
                      guard_refuses_reverse id _ reason by o _ t found (ap (λ q. q.0) nothing)
                ]),
      )
