-- ===== src/Period/Table.antt =====
-- The rows of `accounting_period` and the repository over them
-- (core/period/infrastructure/typeorm-accounting-period.repository.ts). The state also carries the
-- audit trail that the methods write, and counts the readings of the clock.
use construction_erp_nestjs.Prelude.{
  ℕ, suc, Option, Bool, ◌&&◌, List, [], ◌∷◌, ◌++◌, map, find, filter, any, if◌then◌else◌, ◌==◌,
}
use construction_erp_nestjs.Prelude.Text.{Text, text_eq, text_le}
use construction_erp_nestjs.Errors.{ErrorCode}
use construction_erp_nestjs.Errors.Action.{Action, throws, modify, ◌>>=◌, for_each}
use construction_erp_nestjs.Period.Aggregate.{AccountingPeriod, owns}

pub data PeriodEvent : Type 0 where
  period_close period_reopen : PeriodEvent

-- The audit records of the methods: the period, the actor, and what happened.
pub record AuditRecord : Type 0 where
  pub entity_id : Text
  pub actor_id : Text
  pub company_id : Text
  pub event : PeriodEvent

pub record PeriodState : Type 0 where
  pub rows : List AccountingPeriod
  pub audit_log : List AuditRecord
  pub clock_reads : ℕ

abbrev pub in_year : Text → Text → AccountingPeriod → Bool
in_year company_id fy p = text_eq p.company_id company_id && text_eq p.financial_year_id fy

-- The row that the guard locks: of the company and the year, and owning the date.
unfoldable pub find_owning : Text → Text → Text → PeriodState → Option AccountingPeriod
unfolding owns
find_owning company_id fy date s = find (λ p. in_year company_id fy p && owns date p) s.rows

unfoldable pub find_by_id : Text → Text → PeriodState → Option AccountingPeriod
find_by_id id company_id s = find (λ p. text_eq p.id id && text_eq p.company_id company_id) s.rows

-- `ORDER BY start_date ASC`.
unfoldable pub insert_by_start : AccountingPeriod → List AccountingPeriod → List AccountingPeriod
insert_by_start p [] = p ∷ []
insert_by_start p (q ∷ qs) =
    let later = insert_by_start p qs in
    if text_le p.start_date q.start_date then p ∷ q ∷ qs else q ∷ later

unfoldable pub order_by_start : List AccountingPeriod → List AccountingPeriod
order_by_start [] = []
order_by_start (p ∷ ps) = insert_by_start p (order_by_start ps)

unfoldable pub list_by_fy : Text → Text → PeriodState → List AccountingPeriod
unfolding order_by_start
list_by_fy company_id fy s = order_by_start (filter (in_year company_id fy) s.rows)

-- The update of one row: status and stamp are set and the version counts up.
abbrev pub updated : AccountingPeriod → AccountingPeriod → AccountingPeriod
updated p row =
    if text_eq row.id p.id && (row.version == p.version)
    then record row {
      status = p.status;
      closed_at = p.closed_at;
      closed_by = p.closed_by;
      version = suc row.version;
    }
    else row

abbrev pub is_current : AccountingPeriod → AccountingPeriod → Bool
is_current p row = text_eq row.id p.id && (row.version == p.version)

-- A period that is not there is inserted; one that is there is updated if its version is still the
-- one that was read.
unfoldable pub save : AccountingPeriod → Action PeriodState (Unit {0})
unfolding ◌>>=◌
save p s =
    if any (λ row. text_eq row.id p.id) s.rows
    then if any (is_current p) s.rows
      then modify (λ s. record s { rows = map (updated p) s.rows }) s
      else throws ErrorCode.optimistic_lock_conflict s
    else modify (λ s. record s { rows = s.rows ++ (p ∷ []) }) s

unfoldable pub save_many : List AccountingPeriod → Action PeriodState (Unit {0})
unfolding save
save_many ps = for_each save ps

abbrev pub audit : AuditRecord → Action PeriodState (Unit {0})
audit r = modify (λ s. record s { audit_log = s.audit_log ++ (r ∷ []) })
