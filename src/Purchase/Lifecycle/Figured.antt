-- ===== src/Purchase/Lifecycle/Figured.antt =====
-- The figures of a bill are those of its lines, whatever operations have succeeded on it
-- (modules/purchase/domain/purchase-bill.ts).
use construction_erp_nestjs.Prelude.{
  ◌≡◌, ◌∙◌, refl, sym, ap, subst, Option, none, some, List, [], ◌∷◌,
}
use construction_erp_nestjs.Prelude.Text.{Text}
use construction_erp_nestjs.Errors.{ErrorCode, ok, ok_inj, throw_if, ◌>>=◌, ◌>>◌, >>=-eq-ok}
use construction_erp_nestjs.Decimal.{DecimalLib, is_negative}
use construction_erp_nestjs.Purchase.Tax.{PurchaseTax}
use construction_erp_nestjs.Purchase.Bill.{
  NewPurchaseBillLine, PurchaseBillLine, NewPurchaseBill, PurchaseBill, Figures, is_none, req,
  req_due_date, net_payable_of, figures_of, build_each, build_lines, create_bill,
}
use construction_erp_nestjs.Purchase.Lifecycle.{
  patched_by, EditPurchaseBill, assert_bill_draft, assert_bill_posted, update_bill,
  mark_bill_posted, mark_bill_cancelled, BillOperation, update_with, post_as, cancel, apply_bill,
  apply_bills,
}

module _ ⦃d : DecimalLib⦄ where
  abbrev pub IsFigured : PurchaseBill → Type 0
  IsFigured b = b.figures ≡ figures_of b.lines

  build_lines-figures :
      (input : List NewPurchaseBillLine) (tax : PurchaseTax) (ids : List Text)
      {q : List PurchaseBillLine × Figures}
      → build_lines input tax ids ≡ ok q
      → q.1 ≡ figures_of q.0
  unfolding build_lines
  build_lines-figures input tax ids {q} h =
      let (u, some_lines, h1) =
        >>=-eq-ok (throw_if (is_none input) ErrorCode.validation)
          (λ z. build_each tax ids 1 input >>= λ lines.
            throw_if (is_negative (net_payable_of lines)) ErrorCode.net_payable_negative
            >> ok (lines, figures_of lines))
          h in
      let (lines, each, h2) =
        >>=-eq-ok (build_each tax ids 1 input)
          (λ lines.
            throw_if (is_negative (net_payable_of lines)) ErrorCode.net_payable_negative
            >> ok (lines, figures_of lines))
          h1 in
      let (v, sign, h3) =
        >>=-eq-ok (throw_if (is_negative (net_payable_of lines)) ErrorCode.net_payable_negative)
          (λ z. ok (lines, figures_of lines)) h2 in
      subst (λ q. q.1 ≡ figures_of q.0) (ok_inj h3) refl

  pub create_bill-IsFigured :
      (id company_id financial_year_id : Text) (input : NewPurchaseBill) (tax : PurchaseTax)
      (line_ids : List Text) {b : PurchaseBill}
      → create_bill id company_id financial_year_id input tax line_ids ≡ ok b
      → IsFigured b
  unfolding create_bill
  create_bill-IsFigured id company_id financial_year_id input tax line_ids h =
      let (built, is_built, h1) = >>=-eq-ok (build_lines input.lines tax line_ids) _ h in
      let (project, a1, h2) = >>=-eq-ok (req input.project_id) _ h1 in
      let (supplier, a2, h3) = >>=-eq-ok (req input.supplier_id) _ h2 in
      let (bill, a3, h4) = >>=-eq-ok (req input.bill_date) _ h3 in
      let (due, a4, h5) = >>=-eq-ok (req_due_date input.bill_date input.due_date) _ h4 in
      ap (λ b. b.figures) (sym (ok_inj h5))
      ∙ build_lines-figures input.lines tax line_ids is_built
      ∙ ap (λ b. figures_of b.lines) (ok_inj h5)

  rebuilt-figures :
      (lines : Option (List NewPurchaseBillLine)) (tax : PurchaseTax) (ids : List Text)
      (b : PurchaseBill) {q : List PurchaseBillLine × Figures}
      → IsFigured b
      → patched_by (λ ls. build_lines ls tax ids) lines (b.lines, b.figures) ≡ ok q
      → q.1 ≡ figures_of q.0
  rebuilt-figures none tax ids b is h = subst (λ q. q.1 ≡ figures_of q.0) (ok_inj h) is
  rebuilt-figures (some ls) tax ids b is h = build_lines-figures ls tax ids h

  update_bill-IsFigured :
      (patch : EditPurchaseBill) (tax : PurchaseTax) (ids : List Text) (b : PurchaseBill)
      {c : PurchaseBill}
      → IsFigured b
      → update_bill patch tax ids b ≡ ok c
      → IsFigured c
  unfolding update_bill
  update_bill-IsFigured patch tax ids b is h =
      let (u, a0, h0) = >>=-eq-ok (assert_bill_draft b) _ h in
      let (project, a1, h1) = >>=-eq-ok (patched_by req patch.project_id b.project_id) _ h0 in
      let (supplier, a2, h2) = >>=-eq-ok (patched_by req patch.supplier_id b.supplier_id) _ h1 in
      let (date, a3, h3) = >>=-eq-ok (patched_by req patch.bill_date b.bill_date) _ h2 in
      let (due, a4, h4) =
        >>=-eq-ok (patched_by (req_due_date date) patch.due_date b.due_date) _ h3 in
      let (built, a5, h5) =
        >>=-eq-ok (patched_by (λ ls. build_lines ls tax ids) patch.lines (b.lines, b.figures)) _
          h4 in
      subst IsFigured (ok_inj h5) (rebuilt-figures patch.lines tax ids b is a5)

  apply_bill-IsFigured :
      (o : BillOperation) (b : PurchaseBill) {c : PurchaseBill}
      → IsFigured b
      → apply_bill o b ≡ ok c
      → IsFigured c
  unfolding mark_bill_posted mark_bill_cancelled
  apply_bill-IsFigured (update_with patch tax ids) b is h =
      update_bill-IsFigured patch tax ids b is h
  apply_bill-IsFigured (post_as entry_id entry_no by at) b is h =
      let (u, a, h1) = >>=-eq-ok (assert_bill_draft b) _ h in subst IsFigured (ok_inj h1) is
  apply_bill-IsFigured cancel b is h =
      let (u, a, h1) = >>=-eq-ok (assert_bill_posted b) _ h in subst IsFigured (ok_inj h1) is

  pub apply_bills-IsFigured :
      (os : List BillOperation) (b : PurchaseBill) {c : PurchaseBill}
      → IsFigured b
      → apply_bills os b ≡ ok c
      → IsFigured c
  unfolding apply_bills
  apply_bills-IsFigured [] b is h = subst IsFigured (ok_inj h) is
  apply_bills-IsFigured (o ∷ os) b is h =
      let (c, applied, rest) = >>=-eq-ok (apply_bill o b) (λ c. apply_bills os c) h in
      apply_bills-IsFigured os c (apply_bill-IsFigured o b is applied) rest
