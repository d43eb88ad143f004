-- ===== src/Inventory/Valuation.antt =====
-- Weighted-average valuation (modules/inventory/domain/valuation.ts). A `RangeError` is no domain error.
use construction_erp_nestjs.Prelude.{Option, none, some, Bool, ◌&&◌, not, if◌then◌else◌}
use construction_erp_nestjs.Errors.{ErrorCode, Result, ok, err, range_error, throw_if, ◌>>◌}
use construction_erp_nestjs.Decimal.{
  DecimalLib, Num, of_number, plus, minus, times, divided_by, to_decimal_places, is_zero,
  is_negative, greater_than, equals,
}

module _ ⦃d : DecimalLib⦄ where
  pub record Balance : Type 0 where
    pub qty : Num
    pub value : Num

  pub record IssueResult : Type 0 where
    pub issued_value : Num
    pub rate : Num
    pub new_balance : Balance

  unfoldable pub empty_balance : Balance
  empty_balance = record { qty = of_number 0; value = of_number 0 }

  unfoldable pub average_rate : Balance → Option Num
  average_rate b =
      if is_zero b.qty then none else some (to_decimal_places 4 (divided_by b.value b.qty))

  unfoldable pub assert_positive : Num → Result (Unit {0})
  assert_positive v = if greater_than v (of_number 0) then ok tt else err range_error

  unfoldable pub assert_non_negative : Num → Result (Unit {0})
  assert_non_negative v = if is_negative v then err range_error else ok tt

  unfoldable pub apply_receipt : Balance → Num → Num → Result Balance
  unfolding assert_positive assert_non_negative
  apply_receipt prev qty rate = do
    assert_positive qty
    assert_non_negative rate
    ok (record {
      qty = plus prev.qty qty;
      value = plus prev.value (to_decimal_places 4 (times qty rate));
    })

  -- The value that leaves: all of it when the whole balance is issued, so that no dust stays.
  unfoldable pub issued_value_of : Balance → Num → Num
  issued_value_of prev qty =
      if equals qty prev.qty
      then prev.value
      else if is_zero prev.qty
      then of_number 0
      else to_decimal_places 4 (divided_by (times qty prev.value) prev.qty)

  unfoldable pub value_issue : Balance → Num → Bool → Result IssueResult
  unfolding assert_positive issued_value_of
  value_issue prev qty allow_negative = do
    assert_positive qty
    throw_if (greater_than qty prev.qty && not allow_negative) ErrorCode.negative_stock_blocked
    ok (record {
      issued_value = issued_value_of prev qty;
      rate =
          if is_zero prev.qty
          then of_number 0
          else to_decimal_places 4 (divided_by prev.value prev.qty);
      new_balance = record {
        qty = minus prev.qty qty;
        value = minus prev.value (issued_value_of prev qty);
      };
    })

  unfoldable pub apply_transfer_in : Balance → Num → Num → Result Balance
  unfolding assert_positive assert_non_negative
  apply_transfer_in prev qty incoming_value = do
    assert_positive qty
    assert_non_negative incoming_value
    ok (record { qty = plus prev.qty qty; value = plus prev.value incoming_value })
