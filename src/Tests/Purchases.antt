-- ===== src/Tests/Purchases.antt =====
-- A purchase bill of one stock line and one expense line, and the command of its entry.
use construction_erp_nestjs.Prelude.{
  ℕ, ◌≡◌, refl, none, some, true, false, [], ◌∷◌, arith, if◌then◌else◌,
}
use construction_erp_nestjs.Prelude.Int.{pos, ◌+ℤ◌, ◌-ℤ◌}
use construction_erp_nestjs.Prelude.Text.{Text, codes, text_le}
use construction_erp_nestjs.Errors.{ok}
use construction_erp_nestjs.Errors.Action.{pure, ◌>>=◌}
use construction_erp_nestjs.Posting.Command.{
  money_zero, AccountType, VoucherType, PostingLine, PostingCommand,
}
use construction_erp_nestjs.Purchase.Tax.{PurchaseTax}
use construction_erp_nestjs.Purchase.Bill.{
  NewPurchaseBillLine, NewPurchaseBill, PurchaseBillLine, PurchaseBill, PurchaseBillStatus,
  create_bill,
}
use construction_erp_nestjs.Purchase.Match.{match_status_of, open_qty_of}
use construction_erp_nestjs.Purchase.Match.Decides.{Says, match_status-Says}
use construction_erp_nestjs.Purchase.Lifecycle.{
  EditPurchaseBill, update_with, assert_bill_draft, apply_bills,
}
use construction_erp_nestjs.Purchase.BillPosting.{
  PurchaseAccountMap, header_lines, bill_entry, build_purchase_bill_command,
}
use construction_erp_nestjs.Purchase.BillPosting.Sums.{debits, credits, HasFigures}
use construction_erp_nestjs.Purchase.BillPosting.Balance.{bill_command_balances}
use construction_erp_nestjs.Tests.Decimals.{fixed_point, fixed_point_exact}

-- VAT 10 %, TDS 5 %, AIT 2 %.
abbrev rates : PurchaseTax
rates = record { vat_input_pct = pos 100000; tds_pct = pos 50000; ait_pct = pos 20000 }

abbrev cement : NewPurchaseBillLine
cement = record {
  item_id = some (codes "i");
  expense_account_id = none;
  is_stock_line = true;
  billed_qty = some (pos 100000);
  rate = some (pos 20000);
  godown_id = some (codes "g");
  project_id = codes "p";
  cost_centre_id = codes "c";
  purpose_id = codes "u";
  vat_input_amount = none;
  tds_amount = none;
  ait_amount = none;
}

abbrev carriage : NewPurchaseBillLine
carriage = record {
  item_id = none;
  expense_account_id = some (codes "e");
  is_stock_line = false;
  billed_qty = some (pos 10000);
  rate = some (pos 50000);
  godown_id = none;
  project_id = codes "p";
  cost_centre_id = codes "c";
  purpose_id = codes "u";
  vat_input_amount = some (some (pos 0));
  tds_amount = none;
  ait_amount = none;
}

abbrev supplied : NewPurchaseBill
supplied = record {
  project_id = codes "p";
  supplier_id = codes "s";
  purchase_order_id = none;
  supplier_invoice_ref = none;
  bill_date = codes "2024-01-05";
  due_date = codes "2024-02-05";
  narration = none;
  lines = cement ∷ carriage ∷ [];
}

abbrev cement_line : PurchaseBillLine
cement_line = record {
  id = codes "1";
  line_no = 1;
  item_id = some (codes "i");
  expense_account_id = none;
  is_stock_line = true;
  billed_qty = pos 100000;
  rate = pos 20000;
  line_amount = pos 200000;
  vat_input_amount = pos 20000;
  tds_amount = pos 10000;
  ait_amount = pos 4000;
  godown_id = some (codes "g");
  project_id = codes "p";
  cost_centre_id = codes "c";
  purpose_id = codes "u";
  received_qty = pos 0;
}

abbrev carriage_line : PurchaseBillLine
carriage_line = record {
  id = codes "2";
  line_no = 2;
  item_id = none;
  expense_account_id = some (codes "e");
  is_stock_line = false;
  billed_qty = pos 10000;
  rate = pos 50000;
  line_amount = pos 50000;
  vat_input_amount = pos 0;
  tds_amount = pos 2500;
  ait_amount = pos 1000;
  godown_id = none;
  project_id = codes "p";
  cost_centre_id = codes "c";
  purpose_id = codes "u";
  received_qty = pos 0;
}

abbrev bill : PurchaseBill
bill = record {
  id = codes "b";
  company_id = codes "co";
  financial_year_id = codes "fy";
  project_id = codes "p";
  supplier_id = codes "s";
  purchase_order_id = none;
  supplier_invoice_ref = none;
  bill_date = codes "2024-01-05";
  due_date = codes "2024-02-05";
  figures = record {
    gross = record { amount = pos 250000 };
    vat_input = record { amount = pos 20000 };
    tds = record { amount = pos 12500 };
    ait = record { amount = pos 5000 };
    net_payable = record { amount = pos 252500 };
  };
  narration = none;
  status = PurchaseBillStatus.draft;
  entry_no = none;
  journal_entry_id = none;
  posted_at = none;
  posted_by = none;
  version = 1;
  lines = cement_line ∷ carriage_line ∷ [];
}

abbrev accounts : PurchaseAccountMap ℕ
accounts = record {
  vat_input_recoverable = codes "vat";
  accounts_payable = codes "ap";
  tds_payable = codes "tds";
  ait_payable = codes "ait";
  inventory_of = λ i g. pure (codes "stock");
}

bill_created :
    create_bill (codes "b") (codes "co") (codes "fy") supplied rates (codes "1" ∷ codes "2" ∷ [])
    ≡ ok bill
unfolding create_bill ◌+ℤ◌ ◌-ℤ◌ text_le
bill_created = refl

abbrev noted : EditPurchaseBill
noted = record {
  project_id = none;
  supplier_id = none;
  purchase_order_id = none;
  supplier_invoice_ref = none;
  bill_date = none;
  due_date = none;
  narration = some (some (codes "n"));
  lines = none;
}

abbrev noted_bill : PurchaseBill
noted_bill = record bill { narration = some (codes "n") }

noted_applied : apply_bills (update_with noted rates [] ∷ []) bill ≡ ok noted_bill
unfolding apply_bills assert_bill_draft
noted_applied = refl

abbrev entry_line : PurchaseBillLine → Text → PostingLine
entry_line l account =
    bill_entry l account l.godown_id none (record { amount = l.line_amount })
      (record { amount = pos 0 })
      (if l.is_stock_line then AccountType.asset else AccountType.expense) false l.is_stock_line

abbrev command : PostingCommand
command = record {
  company_id = codes "co";
  financial_year_id = codes "fy";
  voucher_type = VoucherType.purchase;
  voucher_date = codes "2024-01-05";
  source_type = codes "PurchaseBill";
  source_id = codes "b";
  posted_by = codes "u";
  narration = some (codes "n");
  lines =
      entry_line cement_line (codes "stock")
      ∷ entry_line carriage_line (codes "e")
      ∷ header_lines (codes "vat") (codes "ap") (codes "tds") (codes "ait") noted_bill cement_line;
}

bill-HasFigures : HasFigures fixed_point_exact noted_bill.lines
unfolding ◌+ℤ◌ ◌-ℤ◌
bill-HasFigures = record {
  gross = (
    (omega arith, omega arith),
    (omega arith, omega arith),
    ((omega arith, omega arith), (omega arith, omega arith), tt),
  );
  vat_input = (
    (omega arith, omega arith),
    (omega arith, omega arith),
    ((omega arith, omega arith), (omega arith, omega arith), tt),
  );
  tds = (
    (omega arith, omega arith),
    (omega arith, omega arith),
    ((omega arith, omega arith), (omega arith, omega arith), tt),
  );
  ait = (
    (omega arith, omega arith),
    (omega arith, omega arith),
    ((omega arith, omega arith), (omega arith, omega arith), tt),
  );
  with_vat = (omega arith, omega arith);
  less_tds = (omega arith, omega arith);
  less_ait = (omega arith, omega arith);
  vat_input_sign = omega arith;
  tds_sign = omega arith;
  ait_sign = omega arith;
}

command_built : build_purchase_bill_command accounts noted_bill (codes "u") 0 ≡ (ok command, 0)
unfolding build_purchase_bill_command money_zero ◌>>=◌
command_built = refl

bill_command_balances_example :
    debits fixed_point_exact command.lines ≡ credits fixed_point_exact command.lines
bill_command_balances_example =
    bill_command_balances fixed_point_exact accounts (codes "b") (codes "co") (codes "fy") supplied
      rates (codes "1" ∷ codes "2" ∷ []) (update_with noted rates [] ∷ []) (codes "u") 0
      bill_created noted_applied bill-HasFigures command_built

match_status-Says_example :
    Says
      (match_status_of (pos 100000) (pos 60000))
      (pos 100000)
      (pos 60000)
      (open_qty_of (pos 100000) (pos 60000))
unfolding ◌-ℤ◌
match_status-Says_example =
    match_status-Says fixed_point_exact (pos 100000) (pos 60000) (omega arith, omega arith)
      (omega arith, omega arith) (omega arith, omega arith) (omega arith) (omega arith)
