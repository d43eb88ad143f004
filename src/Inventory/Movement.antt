-- ===== src/Inventory/Movement.antt =====
-- Stock movements (modules/inventory/domain/stock-movement.ts).
use construction_erp_nestjs.Prelude.{ℕ, Option, Bool}
use construction_erp_nestjs.Prelude.Text.{Text}
use construction_erp_nestjs.Errors.{Result, ok, ◌>>◌}
use construction_erp_nestjs.Decimal.{DecimalLib, Num, negated}
use construction_erp_nestjs.Inventory.Valuation.{
  Balance, assert_positive, assert_non_negative, average_rate,
}

pub data MovementDirection : Type 0 where
  in_ out : MovementDirection

pub data MovementSourceType : Type 0 where
  stock_journal grn req_issue : MovementSourceType

module _ ⦃d : DecimalLib⦄ where
  pub record StockMovement : Type 0 where
    pub id : Text
    pub company_id : Text
    pub godown_id : Text
    pub item_id : Text
    pub source_type : MovementSourceType
    pub source_id : Text
    pub direction : MovementDirection
    pub quantity : Num
    pub rate : Num
    pub value : Num
    pub balance_qty_after : Num
    pub balance_value_after : Num
    pub avg_rate_after : Option Num
    pub is_reversal : Bool
    pub reversal_of : Option Text
    pub voucher_date : Text
    pub posted_at : ℕ
    pub posted_by : Text

  pub record NewStockMovement : Type 0 where
    pub company_id : Text
    pub godown_id : Text
    pub item_id : Text
    pub source_type : MovementSourceType
    pub source_id : Text
    pub direction : MovementDirection
    pub quantity : Num
    pub rate : Num
    pub value : Num
    pub balance_after : Balance
    pub is_reversal : Bool
    pub reversal_of : Option Text
    pub voucher_date : Text
    pub posted_by : Text

  -- The two checks are those of the valuation, with the same `RangeError`.
  unfoldable pub create : NewStockMovement → Text → ℕ → Result StockMovement
  unfolding assert_positive assert_non_negative average_rate
  create input id posted_at = do
    assert_positive input.quantity
    assert_non_negative input.value
    ok (record {
      id = id;
      company_id = input.company_id;
      godown_id = input.godown_id;
      item_id = input.item_id;
      source_type = input.source_type;
      source_id = input.source_id;
      direction = input.direction;
      quantity = input.quantity;
      rate = input.rate;
      value = input.value;
      balance_qty_after = input.balance_after.qty;
      balance_value_after = input.balance_after.value;
      avg_rate_after = average_rate input.balance_after;
      is_reversal = input.is_reversal;
      reversal_of = input.reversal_of;
      voucher_date = input.voucher_date;
      posted_at = posted_at;
      posted_by = input.posted_by;
    })

  unfoldable pub signed_quantity : StockMovement → Num
  signed_quantity m = elim m.direction [ in_ ↦ m.quantity | out ↦ negated m.quantity ]

  unfoldable pub signed_value : StockMovement → Num
  signed_value m = elim m.direction [ in_ ↦ m.value | out ↦ negated m.value ]
