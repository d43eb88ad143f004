-- ===== src/Purchase/BillPosting.antt =====
-- The entry of a purchase bill (modules/purchase/domain/bill-posting.ts).
pub mod Sums
pub mod Balance
use construction_erp_nestjs.Prelude.{
  ℕ, Option, none, some, Bool, true, false, not, List, [], ◌∷◌, ◌++◌, if◌then◌else◌, get_or_default,
}
use construction_erp_nestjs.Prelude.Text.{Text, codes}
use construction_erp_nestjs.Errors.{ok, err, plain_error}
use construction_erp_nestjs.Errors.Action.{Action, pure, ◌>>=◌}
use construction_erp_nestjs.Decimal.{DecimalLib, Num, of_number, greater_than}
use construction_erp_nestjs.Posting.Command.{
  VoucherType, AccountType, Money, money_zero, PostingLine, PostingCommand,
}
use construction_erp_nestjs.Purchase.Bill.{PurchaseBillLine, PurchaseBill}

module _ ⦃d : DecimalLib⦄ (S : Type 0) where
  -- `PurchaseAccountMap`.
  pub record PurchaseAccountMap : Type 0 where
    pub vat_input_recoverable : Text
    pub accounts_payable : Text
    pub tds_payable : Text
    pub ait_payable : Text
    pub inventory_of : Option Text → Option Text → Action S Text

module _ ⦃d : DecimalLib⦄ where
  abbrev pub money : Num → Money
  money n = record { amount = n }

  -- A line with the dimensions of a line of the bill.
  abbrev pub bill_entry :
      PurchaseBillLine
      → Text
      → Option Text
      → Option Text
      → Money
      → Money
      → AccountType
      → Bool
      → Bool
      → PostingLine
  bill_entry l account godown party debit credit account_type control stock = record {
    line = record {
      account_id = account;
      project_id = some l.project_id;
      cost_centre_id = some l.cost_centre_id;
      purpose_id = some l.purpose_id;
      godown_id = godown;
      party_id = party;
      debit = debit;
      credit = credit;
      narration = none;
    };
    account_type = some account_type;
    is_control_account = some control;
    is_stock_line = some stock;
  }

  -- The line of an amount, left out when it is not above zero.
  abbrev pub when_positive : Num → PostingLine → List PostingLine
  when_positive n l = if greater_than n (of_number 0) then l ∷ [] else []

  -- The lines after those of the bill's own lines, with the dimensions of its first line.
  unfoldable pub header_lines :
      Text → Text → Text → Text → PurchaseBill → PurchaseBillLine → List PostingLine
  header_lines vat_account payable tds_account ait_account b first =
      when_positive b.figures.vat_input.amount (
        bill_entry first vat_account none none (money b.figures.vat_input.amount) money_zero
          AccountType.asset false false)
      ++ (bill_entry first payable none (some b.supplier_id) money_zero
            (money b.figures.net_payable.amount) AccountType.liability true false
          ∷ (when_positive b.figures.tds.amount (
                bill_entry first tds_account none none money_zero (money b.figures.tds.amount)
                  AccountType.liability false false)
              ++ when_positive b.figures.ait.amount (
                  bill_entry first ait_account none none money_zero (money b.figures.ait.amount)
                    AccountType.liability false false)))

  -- `bill.lines[0].projectId`, which throws a TypeError where there is no line.
  abbrev pub first_of : {S : Type 0} → List PurchaseBillLine → Action S PurchaseBillLine
  first_of [] s = (err plain_error, s)
  first_of (l ∷ ls) s = (ok l, s)

module _ ⦃d : DecimalLib⦄ {S : Type 0} (accounts : PurchaseAccountMap S) where
  unfoldable pub debit_line : PurchaseBillLine → Action S PostingLine
  debit_line l =
      if l.is_stock_line
      then (accounts.inventory_of l.item_id l.godown_id >>= λ account. pure (
          bill_entry l account l.godown_id none (money l.line_amount) money_zero AccountType.asset
            false true))
      else pure (
          bill_entry l (get_or_default l.expense_account_id []) none none (money l.line_amount)
            money_zero AccountType.expense false false)

  unfoldable pub debit_lines : List PurchaseBillLine → Action S (List PostingLine)
  unfolding debit_line
  debit_lines [] = pure []
  debit_lines (l ∷ ls) = do p ← debit_line l; ps ← debit_lines ls; pure (p ∷ ps)

  -- `buildPurchaseBillCommand`.
  unfoldable pub build_purchase_bill_command : PurchaseBill → Text → Action S PostingCommand
  unfolding debit_lines header_lines
  build_purchase_bill_command b posted_by = do
    debits ← debit_lines b.lines
    first ← first_of b.lines
    pure (record {
      company_id = b.company_id;
      financial_year_id = b.financial_year_id;
      voucher_type = VoucherType.purchase;
      voucher_date = b.bill_date;
      source_type = codes "PurchaseBill";
      source_id = b.id;
      posted_by = posted_by;
      narration = b.narration;
      lines =
          debits
          ++ header_lines accounts.vat_input_recoverable accounts.accounts_payable
              accounts.tds_payable accounts.ait_payable b first;
    })
