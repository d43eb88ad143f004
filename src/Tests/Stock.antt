-- ===== src/Tests/Stock.antt =====
-- Ten units of an item worth 25, of which four are issued.
use construction_erp_nestjs.Prelude.{ℕ, some, none, [], ◌∷◌, ◌≡◌, ◌⊎◌, refl, true, false, arith}
use construction_erp_nestjs.Prelude.Int.{pos, ◌+ℤ◌, ◌-ℤ◌, ◌≤ℤ◌}
use construction_erp_nestjs.Errors.{ok}
use construction_erp_nestjs.Decimal.{equals}
use construction_erp_nestjs.Inventory.Valuation.{
  Balance, IssueResult, assert_positive, assert_non_negative, issued_value_of, value_issue,
  apply_transfer_in, average_rate,
}
use construction_erp_nestjs.Inventory.Conserve.{
  IsStoredBalance, value_issue_conserves, transfer_neutral, issue_undone,
}
use construction_erp_nestjs.Prelude.Text.{Text, codes, text_eq}
use construction_erp_nestjs.Errors.Action.{◌>>=◌}
use construction_erp_nestjs.Inventory.Movement.{StockMovement, req_issue, in_, out, create}
use construction_erp_nestjs.Inventory.Store.{
  StockBalance, StockState, PostCtx, IssueOutInput, ReverseInput, balance_row, upsert, append,
  current_balance_for_update, write_movement, issue_out, reverse_issue_out,
}
use construction_erp_nestjs.Inventory.Store.Snapshot.{reverse_issue_out_restores}
use construction_erp_nestjs.Tests.Decimals.{fixed_point, fixed_point_exact}

abbrev ten : Balance
ten = record { qty = pos 100000; value = pos 250000 }

abbrev four_out : IssueResult
four_out = record {
  issued_value = pos 100000;
  rate = pos 25000;
  new_balance = record { qty = pos 60000; value = pos 150000 };
}

issued : value_issue ten (pos 40000) false ≡ ok four_out
unfolding value_issue assert_positive issued_value_of ◌-ℤ◌
issued = refl

received :
    apply_transfer_in ten (pos 40000) (pos 100000)
    ≡ ok (record { qty = pos 140000; value = pos 350000 })
unfolding apply_transfer_in assert_positive assert_non_negative ◌+ℤ◌
received = refl

taken_back : apply_transfer_in four_out.new_balance (pos 40000) (pos 100000) ≡ ok ten
unfolding apply_transfer_in assert_positive assert_non_negative ◌+ℤ◌
taken_back = refl

ten-IsStored : IsStoredBalance fixed_point_exact ten
ten-IsStored = record { qty = (omega arith, omega arith); value = (omega arith, omega arith) }

rest-IsStored : IsStoredBalance fixed_point_exact four_out.new_balance
rest-IsStored = record { qty = (omega arith, omega arith); value = (omega arith, omega arith) }

value_issue_conserves_example :
    (pos 60000 +ℤ pos 40000 ≡ pos 100000)
    × (pos 150000 +ℤ pos 100000 ≡ pos 250000)
    × ((false ≡ true) ⊎ (pos 0 ≤ℤ pos 60000))
    × ((equals (pos 40000) (pos 100000) ≡ false) ⊎ ((pos 60000 ≡ pos 0) × (pos 150000 ≡ pos 0)))
value_issue_conserves_example =
    value_issue_conserves fixed_point_exact ten (pos 40000) false ten-IsStored
      (omega arith, omega arith) (omega arith, omega arith) issued

transfer_neutral_example :
    (pos 60000 +ℤ pos 140000 ≡ pos 100000 +ℤ pos 100000)
    × (pos 150000 +ℤ pos 350000 ≡ pos 250000 +ℤ pos 250000)
transfer_neutral_example =
    transfer_neutral fixed_point_exact ten ten (pos 40000) false ten-IsStored ten-IsStored
      (omega arith, omega arith) (omega arith, omega arith) issued received

issue_undone_example : (pos 100000 ≡ pos 100000) × (pos 250000 ≡ pos 250000)
issue_undone_example =
    issue_undone fixed_point_exact ten (pos 40000) false ten-IsStored rest-IsStored
      (omega arith, omega arith) (omega arith, omega arith) issued taken_back

abbrev ctx : PostCtx
ctx = record { company_id = codes "c"; voucher_date = codes "2025-07-15"; posted_by = codes "u" }

abbrev four_issued : IssueOutInput
four_issued = record {
  godown_id = codes "g";
  item_id = codes "i";
  qty = pos 40000;
  allow_negative = false;
  source_id = codes "r1";
}

abbrev pub ten_row : StockBalance
ten_row = record {
  company_id = codes "c";
  godown_id = codes "g";
  item_id = codes "i";
  quantity_on_hand = pos 100000;
  total_value = pos 250000;
  avg_rate = some (pos 25000);
}

abbrev pub stock : StockState
stock = record { movements = []; balances = ten_row ∷ []; ids_drawn = 0; clock_reads = 0 }

abbrev fresh : ℕ → Text
fresh n = n ∷ []

abbrev watch : ℕ → ℕ
watch n = n

abbrev four_back : ReverseInput
four_back = record {
  godown_id = codes "g";
  item_id = codes "i";
  qty = pos 40000;
  value = pos 100000;
  source_id = codes "r1";
}

abbrev movement_out : StockMovement
movement_out = record {
  id = 1 ∷ [];
  company_id = codes "c";
  godown_id = codes "g";
  item_id = codes "i";
  source_type = req_issue;
  source_id = codes "r1";
  direction = out;
  quantity = pos 40000;
  rate = pos 25000;
  value = pos 100000;
  balance_qty_after = pos 60000;
  balance_value_after = pos 150000;
  avg_rate_after = some (pos 25000);
  is_reversal = false;
  reversal_of = none;
  voucher_date = codes "2025-07-15";
  posted_at = 0;
  posted_by = codes "u";
}

abbrev movement_back : StockMovement
movement_back = record movement_out {
  id = 4 ∷ [];
  direction = in_;
  balance_qty_after = pos 100000;
  balance_value_after = pos 250000;
  is_reversal = true;
  posted_at = 1;
}

abbrev stock_out : StockState
stock_out = record {
  movements = movement_out ∷ [];
  balances = record ten_row { quantity_on_hand = pos 60000; total_value = pos 150000 } ∷ [];
  ids_drawn = 3;
  clock_reads = 1;
}

abbrev stock_back : StockState
stock_back = record {
  movements = movement_out ∷ movement_back ∷ [];
  balances = ten_row ∷ [];
  ids_drawn = 6;
  clock_reads = 2;
}

pub row_there : balance_row (codes "c") (codes "g") (codes "i") stock ≡ some ten_row
unfolding text_eq
row_there = refl

four_issued_out :
    issue_out fresh watch ctx four_issued stock ≡ (ok (pos 100000, pos 25000, 1 ∷ []), stock_out)
unfolding issue_out current_balance_for_update value_issue assert_positive assert_non_negative
    issued_value_of write_movement create append upsert average_rate text_eq ◌>>=◌ ◌-ℤ◌
four_issued_out = refl

four_reversed : reverse_issue_out fresh watch ctx four_back stock_out ≡ (ok (4 ∷ []), stock_back)
unfolding reverse_issue_out current_balance_for_update apply_transfer_in assert_positive
    assert_non_negative write_movement create append upsert average_rate text_eq ◌>>=◌ ◌+ℤ◌
four_reversed = refl

reverse_issue_out_restores_example :
    (after : StockBalance) × (balance_row (codes "c") (codes "g") (codes "i") stock_back
      ≡ some after)
    × (after.quantity_on_hand ≡ pos 100000)
    × (after.total_value ≡ pos 250000)
unfolding ◌-ℤ◌
reverse_issue_out_restores_example =
    reverse_issue_out_restores fixed_point_exact fresh watch ctx four_issued stock ten_row row_there
      (omega arith, omega arith) (omega arith, omega arith) (omega arith, omega arith)
      (omega arith, omega arith) (omega arith, omega arith) (omega arith, omega arith)
      four_issued_out four_reversed
