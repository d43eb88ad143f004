-- ===== src/Period/Methods.antt =====
-- The methods of core/period/application: the guard of posting, and closing and reopening.
use construction_erp_nestjs.Prelude.{
  ℕ, suc, ◌-◌, Bool, true, false, ◌&&◌, not, List, [], ◌∷◌, every, if◌then◌else◌, length,
}
use construction_erp_nestjs.Prelude.Text.{Text}
use construction_erp_nestjs.Errors.{ErrorCode, ok}
use construction_erp_nestjs.Errors.Action.{
  Action, lift, pure, gets, or_throw, throws_if, ◌>>=◌, ◌>>◌, for_each,
}
use construction_erp_nestjs.Period.Aggregate.{AccountingPeriod, is_open, close, reopen}
use construction_erp_nestjs.Period.Table.{
  PeriodState, period_close, period_reopen, find_owning, find_by_id, list_by_fy, save, save_many,
  audit,
}

-- `xs.length === 0`.
abbrev pub is_empty : List AccountingPeriod → Bool
is_empty [] = true
is_empty (p ∷ ps) = false

-- `PeriodServiceImpl.assertOpen`.
unfoldable pub assert_open : Text → Text → Text → Action PeriodState (Unit {0})
unfolding is_open
assert_open company_id fy date = do
  found ← gets (find_owning company_id fy date)
  period ← or_throw found ErrorCode.no_period_defined
  throws_if (not (is_open period)) ErrorCode.period_closed

pub record Actor : Type 0 where
  pub user_id : Text
  pub company_id : Text

pub record CloseFyResult : Type 0 where
  pub closed_count : ℕ
  pub already_closed_count : ℕ
  pub periods : List AccountingPeriod

-- `clock n` is what the port `Clock` returns at the n-th reading.
module _ (clock : ℕ → ℕ) where
  unfoldable pub read_clock : Action PeriodState ℕ
  read_clock s = (ok (clock s.clock_reads), record s { clock_reads = suc s.clock_reads })

  -- The clock is read once the status has been checked.
  unfoldable pub close_now : Text → AccountingPeriod → Action PeriodState AccountingPeriod
  close_now actor p = do
    throws_if (not (is_open p)) ErrorCode.period_already_closed
    now ← read_clock
    lift (close actor now p)

  -- `ClosePeriodUseCase.execute`.
  unfoldable pub close_period : Text → Actor → Action PeriodState AccountingPeriod
  close_period id actor = do
    found ← gets (find_by_id id actor.company_id)
    period ← or_throw found ErrorCode.not_found
    closed ← close_now actor.user_id period
    save closed
    audit (record {
      entity_id = id;
      actor_id = actor.user_id;
      company_id = actor.company_id;
      event = period_close;
    })
    pure closed

  -- The periods of the list with the open ones closed, and the closed ones among them.
  unfoldable pub close_each :
      Text
      → List AccountingPeriod
      → Action PeriodState (List AccountingPeriod × List AccountingPeriod)
  close_each actor [] = pure ([], [])
  close_each actor (p ∷ ps) = do
    q ← (if is_open p then close_now actor p else pure p)
    rest ← close_each actor ps
    pure (q ∷ rest.0, (if is_open p then q ∷ rest.1 else rest.1))

  -- `CloseFyUseCase.execute`.
  unfoldable pub close_fy : Text → Actor → Action PeriodState CloseFyResult
  close_fy fy actor = do
    all ← gets (list_by_fy actor.company_id fy)
    throws_if (is_empty all) ErrorCode.no_periods_for_fy
    closing ← close_each actor.user_id all
    save_many closing.1
    for_each
        (λ p. audit (record {
          entity_id = p.id;
          actor_id = actor.user_id;
          company_id = actor.company_id;
          event = period_close;
        }))
        closing.1
    pure (record {
      closed_count = length closing.1;
      already_closed_count = length all - length closing.1;
      periods = closing.0;
    })

-- `ReopenPeriodUseCase.execute`.
unfoldable pub reopen_period : Text → Actor → Action PeriodState AccountingPeriod
unfolding is_open
reopen_period id actor = do
  found ← gets (find_by_id id actor.company_id)
  period ← or_throw found ErrorCode.not_found
  siblings ← gets (list_by_fy actor.company_id period.financial_year_id)
  throws_if (not (is_empty siblings) && every (λ p. not (is_open p)) siblings)
      ErrorCode.period_fy_locked
  reopened ← lift (reopen period)
  save reopened
  audit (record {
    entity_id = id;
    actor_id = actor.user_id;
    company_id = actor.company_id;
    event = period_reopen;
  })
  pure reopened
