-- ===== src/Purchase/Bill.antt =====
-- The purchase bill (modules/purchase/domain/purchase-bill.ts).
use construction_erp_nestjs.Prelude.{
  ℕ, suc, Option, none, some, Bool, true, false, ◌&&◌, not, List, [], ◌∷◌, get_or_default,
}
use construction_erp_nestjs.Prelude.Text.{Text, text_le, trim, is_empty}
use construction_erp_nestjs.Errors.{ErrorCode, Result, ok, throw, throw_if, ◌>>=◌, ◌>>◌}
use construction_erp_nestjs.Decimal.{
  DecimalLib, Num, of_number, plus, minus, times, to_decimal_places, is_finite, is_negative,
  greater_than,
}
use construction_erp_nestjs.Posting.Command.{Money, is_missing}
use construction_erp_nestjs.Purchase.Tax.{
  PurchaseTax, vat_input_fraction, tds_fraction, ait_fraction,
}

pub data PurchaseBillStatus : Type 0 where
  draft posted cancelled : PurchaseBillStatus

abbrev pub has : Option Text → Bool
has t = not (is_missing t)

abbrev pub same : Bool → Bool → Bool
same true b = b
same false b = not b

-- `req(v, field)`.
unfoldable pub req : Text → Result Text
unfolding trim
req v = do throw_if (is_empty (trim v)) ErrorCode.validation; ok (trim v)

-- `reqDueDate(billDate, dueDate)`.
unfoldable pub req_due_date : Text → Text → Result Text
unfolding req
req_due_date bill_date due_date = do
  bill ← req bill_date
  due ← req due_date
  throw_if (not (text_le bill due)) ErrorCode.validation
  ok due

module _ ⦃d : DecimalLib⦄ where
  -- A line as it is supplied: a number is `none` when it is missing or no number, and an override is
  -- `none` when it is missing.
  pub record NewPurchaseBillLine : Type 0 where
    pub item_id : Option Text
    pub expense_account_id : Option Text
    pub is_stock_line : Bool
    pub billed_qty : Option Num
    pub rate : Option Num
    pub godown_id : Option Text
    pub project_id : Text
    pub cost_centre_id : Text
    pub purpose_id : Text
    pub vat_input_amount : Option (Option Num)
    pub tds_amount : Option (Option Num)
    pub ait_amount : Option (Option Num)

  pub record PurchaseBillLine : Type 0 where
    pub id : Text
    pub line_no : ℕ
    pub item_id : Option Text
    pub expense_account_id : Option Text
    pub is_stock_line : Bool
    pub billed_qty : Num
    pub rate : Num
    pub line_amount : Num
    pub vat_input_amount : Num
    pub tds_amount : Num
    pub ait_amount : Num
    pub godown_id : Option Text
    pub project_id : Text
    pub cost_centre_id : Text
    pub purpose_id : Text
    pub received_qty : Num

  pub record NewPurchaseBill : Type 0 where
    pub project_id : Text
    pub supplier_id : Text
    pub purchase_order_id : Option Text
    pub supplier_invoice_ref : Option Text
    pub bill_date : Text
    pub due_date : Text
    pub narration : Option Text
    pub lines : List NewPurchaseBillLine

  pub record Figures : Type 0 where
    pub gross : Money
    pub vat_input : Money
    pub tds : Money
    pub ait : Money
    pub net_payable : Money

  pub record PurchaseBill : Type 0 where
    pub id : Text
    pub company_id : Text
    pub financial_year_id : Text
    pub project_id : Text
    pub supplier_id : Text
    pub purchase_order_id : Option Text
    pub supplier_invoice_ref : Option Text
    pub bill_date : Text
    pub due_date : Text
    pub figures : Figures
    pub narration : Option Text
    pub status : PurchaseBillStatus
    pub entry_no : Option Text
    pub journal_entry_id : Option Text
    pub posted_at : Option ℕ
    pub posted_by : Option Text
    pub version : ℕ
    pub lines : List PurchaseBillLine

  abbrev pub round4 : Num → Num
  round4 = to_decimal_places 4

  -- `toDecimal(value, field)`.
  unfoldable pub to_decimal : Option Num → Result Num
  to_decimal none = throw ErrorCode.validation
  to_decimal (some n) = do throw_if (not (is_finite n)) ErrorCode.validation; ok n

  unfoldable pub assert_non_neg : Num → Result Num
  assert_non_neg n = do throw_if (is_negative n) ErrorCode.validation; ok n

  -- An override of a tax amount, or the amount by the rate.
  unfoldable pub amount_or : Option (Option Num) → Num → Result Num
  unfolding to_decimal assert_non_neg
  amount_or none by_rate = ok by_rate
  amount_or (some given) by_rate = do n ← to_decimal given; assert_non_neg (round4 n)

  -- The godown of a stock line.
  unfoldable pub line_godown : Bool → Option Text → Result (Option Text)
  unfolding req
  line_godown false godown = ok none
  line_godown true godown = do g ← req (get_or_default godown []); ok (some g)

  -- A line is of stock or of an expense, never both or neither.
  unfoldable pub assert_line_type : NewPurchaseBillLine → Result (Unit {0})
  assert_line_type l = do
    throw_if (same (has l.item_id) (has l.expense_account_id)) ErrorCode.line_type_invalid
    throw_if (not (same l.is_stock_line (has l.item_id))) ErrorCode.line_type_invalid
    throw_if (l.is_stock_line && not (has l.godown_id)) ErrorCode.validation

  -- One round of the map over the lines.
  unfoldable pub build_line : PurchaseTax → Text → ℕ → NewPurchaseBillLine → Result PurchaseBillLine
  unfolding assert_line_type to_decimal assert_non_neg amount_or line_godown req
  build_line tax id line_no l = do
    assert_line_type l
    billed_qty ← to_decimal l.billed_qty
    throw_if (not (greater_than billed_qty (of_number 0))) ErrorCode.validation
    given_rate ← to_decimal l.rate
    rate ← assert_non_neg given_rate
    vat_input ←
        amount_or l.vat_input_amount
          (round4 (times (round4 (times billed_qty rate)) (vat_input_fraction tax)))
    tds ←
        amount_or l.tds_amount (round4 (times (round4 (times billed_qty rate)) (tds_fraction tax)))
    ait ←
        amount_or l.ait_amount (round4 (times (round4 (times billed_qty rate)) (ait_fraction tax)))
    godown_id ← line_godown l.is_stock_line l.godown_id
    project_id ← req l.project_id
    cost_centre_id ← req l.cost_centre_id
    purpose_id ← req l.purpose_id
    ok (record {
      id = id;
      line_no = line_no;
      item_id = l.item_id;
      expense_account_id = l.expense_account_id;
      is_stock_line = l.is_stock_line;
      billed_qty = billed_qty;
      rate = rate;
      line_amount = round4 (times billed_qty rate);
      vat_input_amount = vat_input;
      tds_amount = tds;
      ait_amount = ait;
      godown_id = godown_id;
      project_id = project_id;
      cost_centre_id = cost_centre_id;
      purpose_id = purpose_id;
      received_qty = of_number 0;
    })

  -- `input.map(…)`, with `ids[i]`; the empty text stands for an id that is not there.
  unfoldable pub build_each :
      PurchaseTax → List Text → ℕ → List NewPurchaseBillLine → Result (List PurchaseBillLine)
  unfolding build_line
  build_each tax ids n [] = ok []
  build_each tax [] n (l ∷ ls) = do
    b ← build_line tax [] n l
    bs ← build_each tax [] (suc n) ls
    ok (b ∷ bs)
  build_each tax (id ∷ ids) n (l ∷ ls) = do
    b ← build_line tax id n l
    bs ← build_each tax ids (suc n) ls
    ok (b ∷ bs)

  -- The running sums of the map, from the left.
  unfoldable pub sum_by : (PurchaseBillLine → Num) → Num → List PurchaseBillLine → Num
  sum_by f acc [] = acc
  sum_by f acc (l ∷ ls) = sum_by f (plus acc (f l)) ls

  abbrev pub total_by : (PurchaseBillLine → Num) → List PurchaseBillLine → Num
  total_by f ls = sum_by f (of_number 0) ls

  -- `gross.plus(vatInput).minus(tds).minus(ait)`.
  abbrev pub net_payable_of : List PurchaseBillLine → Num
  net_payable_of ls =
      minus
        (minus (plus (total_by (λ l. l.line_amount) ls) (total_by (λ l. l.vat_input_amount) ls))
          (total_by (λ l. l.tds_amount) ls))
        (total_by (λ l. l.ait_amount) ls)

  abbrev pub figures_of : List PurchaseBillLine → Figures
  figures_of ls = record {
    gross = record { amount = round4 (total_by (λ l. l.line_amount) ls) };
    vat_input = record { amount = round4 (total_by (λ l. l.vat_input_amount) ls) };
    tds = record { amount = round4 (total_by (λ l. l.tds_amount) ls) };
    ait = record { amount = round4 (total_by (λ l. l.ait_amount) ls) };
    net_payable = record { amount = round4 (net_payable_of ls) };
  }

  abbrev pub is_none : List NewPurchaseBillLine → Bool
  is_none [] = true
  is_none (l ∷ ls) = false

  -- `buildLines`.
  unfoldable pub build_lines :
      List NewPurchaseBillLine → PurchaseTax → List Text → Result (List PurchaseBillLine × Figures)
  unfolding build_each sum_by
  build_lines input tax ids = do
    throw_if (is_none input) ErrorCode.validation
    lines ← build_each tax ids 1 input
    throw_if (is_negative (net_payable_of lines)) ErrorCode.net_payable_negative
    ok (lines, figures_of lines)

  -- `PurchaseBill.createDraft`.
  unfoldable pub create_bill :
      Text → Text → Text → NewPurchaseBill → PurchaseTax → List Text → Result PurchaseBill
  unfolding build_lines req req_due_date
  create_bill id company_id financial_year_id input tax line_ids = do
    built ← build_lines input.lines tax line_ids
    project_id ← req input.project_id
    supplier_id ← req input.supplier_id
    bill_date ← req input.bill_date
    due_date ← req_due_date input.bill_date input.due_date
    ok (record {
      id = id;
      company_id = company_id;
      financial_year_id = financial_year_id;
      project_id = project_id;
      supplier_id = supplier_id;
      purchase_order_id = input.purchase_order_id;
      supplier_invoice_ref = input.supplier_invoice_ref;
      bill_date = bill_date;
      due_date = due_date;
      figures = built.1;
      narration = input.narration;
      status = draft;
      entry_no = none;
      journal_entry_id = none;
      posted_at = none;
      posted_by = none;
      version = 1;
      lines = built.0;
    })
