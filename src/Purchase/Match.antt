-- ===== src/Purchase/Match.antt =====
-- The three-way match of billed and received quantities (modules/purchase/domain/match.ts).
pub mod Decides
use construction_erp_nestjs.Prelude.{if◌then◌else◌}
use construction_erp_nestjs.Decimal.{
  DecimalLib, Num, of_number, minus, is_zero, is_negative, greater_than, less_than,
}

pub data MatchStatus : Type 0 where
  matched over_received under_received pending_receipt : MatchStatus

module _ ⦃d : DecimalLib⦄ where
  unfoldable pub match_status_of : Num → Num → MatchStatus
  match_status_of billed received =
      if is_zero received
      then pending_receipt
      else if greater_than received billed
      then over_received
      else if less_than received billed
      then under_received
      else matched

  -- The open quantity, floored at zero.
  unfoldable pub open_qty_of : Num → Num → Num
  open_qty_of billed received =
      if is_negative (minus billed received) then of_number 0 else minus billed received
