-- ===== src/Purchase/Lifecycle.antt =====
-- The operations on a purchase bill after its creation (modules/purchase/domain/purchase-bill.ts). A
-- bill that an operation has refused is not read again, so its half-written fields are left out.
pub mod Figured
use construction_erp_nestjs.Prelude.{
  ℕ, Option, none, some, Bool, true, false, not, List, [], ◌∷◌, filter, map,
}
use construction_erp_nestjs.Prelude.Text.{Text}
use construction_erp_nestjs.Errors.{ErrorCode, Result, ok, throw_if, ◌>>=◌, ◌>>◌}
use construction_erp_nestjs.Decimal.{DecimalLib, Num}
use construction_erp_nestjs.Purchase.Tax.{PurchaseTax}
use construction_erp_nestjs.Purchase.Bill.{
  PurchaseBillStatus, draft, posted, cancelled, req, req_due_date, NewPurchaseBillLine,
  PurchaseBillLine, Figures, PurchaseBill, build_lines,
}

abbrev pub is_draft : PurchaseBillStatus → Bool
is_draft draft = true
is_draft posted = false
is_draft cancelled = false

abbrev pub is_posted : PurchaseBillStatus → Bool
is_posted draft = false
is_posted posted = true
is_posted cancelled = false

-- A field of the patch, or the field of the bill where the patch has none.
abbrev pub patched : {A : Type 0} → Option A → A → A
patched none old = old
patched (some new) old = new

abbrev pub patched_by : {A B : Type 0} → (A → Result B) → Option A → B → Result B
patched_by f none old = ok old
patched_by f (some new) old = f new

module _ ⦃d : DecimalLib⦄ where
  pub record EditPurchaseBill : Type 0 where
    pub project_id : Option Text
    pub supplier_id : Option Text
    pub purchase_order_id : Option (Option Text)
    pub supplier_invoice_ref : Option (Option Text)
    pub bill_date : Option Text
    pub due_date : Option Text
    pub narration : Option (Option Text)
    pub lines : Option (List NewPurchaseBillLine)

  pub record CostLine : Type 0 where
    pub project_id : Text
    pub cost_centre_id : Text
    pub amount : Num

  unfoldable pub assert_bill_draft : PurchaseBill → Result (Unit {0})
  assert_bill_draft b = throw_if (not (is_draft b.status)) ErrorCode.voucher_posted_immutable

  unfoldable pub assert_bill_posted : PurchaseBill → Result (Unit {0})
  assert_bill_posted b = throw_if (not (is_posted b.status)) ErrorCode.voucher_not_posted

  abbrev no_lines : List PurchaseBillLine → Bool
  no_lines [] = true
  no_lines (l ∷ ls) = false

  -- `assertPostable`.
  unfoldable pub assert_bill_postable : PurchaseBill → Result (Unit {0})
  unfolding assert_bill_draft
  assert_bill_postable b = do assert_bill_draft b; throw_if (no_lines b.lines) ErrorCode.validation

  -- `updateDraft`.
  unfoldable pub update_bill :
      EditPurchaseBill → PurchaseTax → List Text → PurchaseBill → Result PurchaseBill
  unfolding assert_bill_draft req req_due_date build_lines
  update_bill patch tax line_ids b = do
    assert_bill_draft b
    project_id ← patched_by req patch.project_id b.project_id
    supplier_id ← patched_by req patch.supplier_id b.supplier_id
    bill_date ← patched_by req patch.bill_date b.bill_date
    due_date ← patched_by (req_due_date bill_date) patch.due_date b.due_date
    built ← patched_by (λ ls. build_lines ls tax line_ids) patch.lines (b.lines, b.figures)
    ok (record b {
      project_id = project_id;
      supplier_id = supplier_id;
      purchase_order_id = patched patch.purchase_order_id b.purchase_order_id;
      supplier_invoice_ref = patched patch.supplier_invoice_ref b.supplier_invoice_ref;
      bill_date = bill_date;
      due_date = due_date;
      figures = built.1;
      narration = patched patch.narration b.narration;
      lines = built.0;
    })

  -- `markPosted`.
  unfoldable pub mark_bill_posted : Text → Text → Text → ℕ → PurchaseBill → Result PurchaseBill
  unfolding assert_bill_draft
  mark_bill_posted entry_id entry_no by at b = do
    assert_bill_draft b
    ok (record b {
      status = posted;
      entry_no = some entry_no;
      journal_entry_id = some entry_id;
      posted_at = some at;
      posted_by = some by;
    })

  -- `markCancelled`.
  unfoldable pub mark_bill_cancelled : PurchaseBill → Result PurchaseBill
  unfolding assert_bill_posted
  mark_bill_cancelled b = do assert_bill_posted b; ok (record b { status = cancelled })

  unfoldable pub cost_lines : PurchaseBill → List CostLine
  cost_lines b =
      map
        (λ l. record {
          project_id = l.project_id;
          cost_centre_id = l.cost_centre_id;
          amount = l.line_amount;
        })
        b.lines

  unfoldable pub stock_lines : PurchaseBill → List PurchaseBillLine
  stock_lines b = filter (λ l. l.is_stock_line) b.lines

  -- An operation on a bill, with what it is given.
  pub data BillOperation : Type 0 where
    update_with : EditPurchaseBill → PurchaseTax → List Text → BillOperation
    post_as : Text → Text → Text → ℕ → BillOperation
    cancel : BillOperation

  abbrev pub apply_bill : BillOperation → PurchaseBill → Result PurchaseBill
  apply_bill (update_with patch tax ids) = update_bill patch tax ids
  apply_bill (post_as entry_id entry_no by at) = mark_bill_posted entry_id entry_no by at
  apply_bill cancel = mark_bill_cancelled

  unfoldable pub apply_bills : List BillOperation → PurchaseBill → Result PurchaseBill
  unfolding update_bill mark_bill_posted mark_bill_cancelled
  apply_bills [] b = ok b
  apply_bills (o ∷ os) b = do c ← apply_bill o b; apply_bills os c
