-- ===== src/Purchase/Order.antt =====
-- The purchase order (modules/purchase/domain/purchase-order.ts). An order that an operation has refused
-- is not read again, so its half-written fields are left out.
use construction_erp_nestjs.Prelude.{
  ℕ, suc, ◌==◌, Option, none, some, Bool, true, false, not, List, [], ◌∷◌, find, every,
  if◌then◌else◌,
}
use construction_erp_nestjs.Prelude.Text.{Text}
use construction_erp_nestjs.Errors.{ErrorCode, Result, ok, throw, throw_if, ◌>>=◌, ◌>>◌}
use construction_erp_nestjs.Decimal.{
  DecimalLib, Num, of_number, plus, minus, times, greater_than, greater_than_or_equal_to,
}
use construction_erp_nestjs.Purchase.Bill.{req, round4, to_decimal, assert_non_neg}
use construction_erp_nestjs.Purchase.Lifecycle.{patched, patched_by}

pub data PoStatus : Type 0 where
  draft approved partially_billed partially_received closed cancelled : PoStatus

abbrev pub is_draft : PoStatus → Bool
is_draft draft = true
is_draft _ = false

abbrev pub is_cancellable : PoStatus → Bool
is_cancellable draft = true
is_cancellable approved = true
is_cancellable _ = false

-- `BILLABLE_STATUSES`.
abbrev pub is_billable : PoStatus → Bool
is_billable approved = true
is_billable partially_billed = true
is_billable partially_received = true
is_billable _ = false

-- The statuses that the billed quantities move.
abbrev pub is_billing : PoStatus → Bool
is_billing approved = true
is_billing partially_billed = true
is_billing _ = false

module _ ⦃d : DecimalLib⦄ where
  pub record NewPurchaseOrderLine : Type 0 where
    pub item_id : Text
    pub ordered_qty : Option Num
    pub rate : Option Num
    pub godown_id : Text
    pub project_id : Text
    pub cost_centre_id : Text
    pub purpose_id : Text

  pub record PurchaseOrderLine : Type 0 where
    pub id : Text
    pub line_no : ℕ
    pub item_id : Text
    pub ordered_qty : Num
    pub rate : Num
    pub line_amount : Num
    pub godown_id : Text
    pub project_id : Text
    pub cost_centre_id : Text
    pub purpose_id : Text
    pub billed_qty : Num
    pub received_qty : Num

  pub record NewPurchaseOrder : Type 0 where
    pub project_id : Text
    pub supplier_id : Text
    pub po_ref_no : Option Text
    pub po_date : Text
    pub expected_delivery_date : Option Text
    pub narration : Option Text
    pub lines : List NewPurchaseOrderLine

  pub record PoPatch : Type 0 where
    pub project_id : Option Text
    pub supplier_id : Option Text
    pub po_ref_no : Option (Option Text)
    pub po_date : Option Text
    pub expected_delivery_date : Option (Option Text)
    pub narration : Option (Option Text)
    pub lines : Option (List NewPurchaseOrderLine)

  pub record PurchaseOrder : Type 0 where
    pub id : Text
    pub company_id : Text
    pub financial_year_id : Text
    pub project_id : Text
    pub supplier_id : Text
    pub po_ref_no : Option Text
    pub po_date : Text
    pub expected_delivery_date : Option Text
    pub status : PoStatus
    pub narration : Option Text
    pub approved_by : Option Text
    pub approved_at : Option ℕ
    pub version : ℕ
    pub lines : List PurchaseOrderLine

  -- One round of the map over the lines.
  unfoldable pub order_line : Text → ℕ → NewPurchaseOrderLine → Result PurchaseOrderLine
  unfolding to_decimal assert_non_neg req
  order_line id line_no l = do
    ordered_qty ← to_decimal l.ordered_qty
    throw_if (not (greater_than ordered_qty (of_number 0))) ErrorCode.validation
    given_rate ← to_decimal l.rate
    rate ← assert_non_neg given_rate
    item_id ← req l.item_id
    godown_id ← req l.godown_id
    project_id ← req l.project_id
    cost_centre_id ← req l.cost_centre_id
    purpose_id ← req l.purpose_id
    ok (record {
      id = id;
      line_no = line_no;
      item_id = item_id;
      ordered_qty = ordered_qty;
      rate = rate;
      line_amount = round4 (times ordered_qty rate);
      godown_id = godown_id;
      project_id = project_id;
      cost_centre_id = cost_centre_id;
      purpose_id = purpose_id;
      billed_qty = of_number 0;
      received_qty = of_number 0;
    })

  -- `input.map(…)`, with `ids[i]`; the empty text stands for an id that is not there.
  unfoldable pub order_each :
      List Text → ℕ → List NewPurchaseOrderLine → Result (List PurchaseOrderLine)
  unfolding order_line
  order_each ids n [] = ok []
  order_each [] n (l ∷ ls) = do b ← order_line [] n l; bs ← order_each [] (suc n) ls; ok (b ∷ bs)
  order_each (id ∷ ids) n (l ∷ ls) = do
    b ← order_line id n l
    bs ← order_each ids (suc n) ls
    ok (b ∷ bs)

  -- `buildLines`.
  unfoldable pub order_lines :
      List NewPurchaseOrderLine → List Text → Result (List PurchaseOrderLine)
  unfolding order_each
  order_lines [] ids = throw ErrorCode.validation
  order_lines (l ∷ ls) ids = order_each ids 1 (l ∷ ls)

  -- `PurchaseOrder.createDraft`.
  unfoldable pub create_order :
      Text → Text → Text → NewPurchaseOrder → List Text → Result PurchaseOrder
  unfolding order_lines req
  create_order id company_id financial_year_id input line_ids = do
    lines ← order_lines input.lines line_ids
    project_id ← req input.project_id
    supplier_id ← req input.supplier_id
    po_date ← req input.po_date
    ok (record {
      id = id;
      company_id = company_id;
      financial_year_id = financial_year_id;
      project_id = project_id;
      supplier_id = supplier_id;
      po_ref_no = input.po_ref_no;
      po_date = po_date;
      expected_delivery_date = input.expected_delivery_date;
      status = draft;
      narration = input.narration;
      approved_by = none;
      approved_at = none;
      version = 1;
      lines = lines;
    })

  -- `editDraft`.
  unfoldable pub edit_order : PoPatch → List Text → PurchaseOrder → Result PurchaseOrder
  unfolding order_lines req
  edit_order patch line_ids o = do
    throw_if (not (is_draft o.status)) ErrorCode.invalid_po_transition
    project_id ← patched_by req patch.project_id o.project_id
    supplier_id ← patched_by req patch.supplier_id o.supplier_id
    po_date ← patched_by req patch.po_date o.po_date
    lines ← patched_by (λ ls. order_lines ls line_ids) patch.lines o.lines
    ok (record o {
      project_id = project_id;
      supplier_id = supplier_id;
      po_ref_no = patched patch.po_ref_no o.po_ref_no;
      po_date = po_date;
      expected_delivery_date = patched patch.expected_delivery_date o.expected_delivery_date;
      narration = patched patch.narration o.narration;
      lines = lines;
    })

  -- `approve`.
  unfoldable pub approve_order : Text → ℕ → PurchaseOrder → Result PurchaseOrder
  approve_order by at o = do
    throw_if (not (is_draft o.status)) ErrorCode.invalid_po_transition
    ok (record o { status = approved; approved_by = some by; approved_at = some at })

  -- `cancel`.
  unfoldable pub cancel_order : PurchaseOrder → Result PurchaseOrder
  cancel_order o = do
    throw_if (not (is_cancellable o.status)) ErrorCode.invalid_po_transition
    ok (record o { status = cancelled })

  unfoldable pub assert_billable : PurchaseOrder → Result (Unit {0})
  assert_billable o = throw_if (not (is_billable o.status)) ErrorCode.po_not_billable

  abbrev pub has_line_no : ℕ → PurchaseOrderLine → Bool
  has_line_no n l = l.line_no == n

  -- `openQtyOf`.
  unfoldable pub open_order_qty : ℕ → PurchaseOrder → Result Num
  open_order_qty n o = elim (find (has_line_no n) o.lines) [
    | none ↦ throw ErrorCode.validation
    | some l ↦ ok (minus l.ordered_qty l.billed_qty)
  ]

  -- The billed quantity of the first line with the number is raised.
  unfoldable pub bill_line : ℕ → Num → List PurchaseOrderLine → Result (List PurchaseOrderLine)
  bill_line n billed_qty [] = throw ErrorCode.validation
  bill_line n billed_qty (l ∷ ls) =
      let rest = bill_line n billed_qty ls in
      if has_line_no n l
      then ok (record l { billed_qty = plus l.billed_qty billed_qty } ∷ ls)
      else (rest >>= λ ks. ok (l ∷ ks))

  abbrev pub is_fully_billed : PurchaseOrderLine → Bool
  is_fully_billed l = greater_than_or_equal_to l.billed_qty l.ordered_qty

  -- `recomputeStatus`.
  unfoldable pub recompute_status : PoStatus → List PurchaseOrderLine → PoStatus
  recompute_status s ls =
      if not (is_billing s)
      then s
      else if every is_fully_billed ls
      then closed
      else partially_billed

  -- `applyBilledQty`.
  unfoldable pub apply_billed_qty : ℕ → Num → PurchaseOrder → Result PurchaseOrder
  unfolding bill_line recompute_status
  apply_billed_qty n billed_qty o = do
    lines ← bill_line n billed_qty o.lines
    ok (record o { lines = lines; status = recompute_status o.status lines })
