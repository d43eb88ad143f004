-- ===== src/Purchase/BillPosting/Balance.antt =====
-- The entry of a purchase bill balances (modules/purchase/domain: purchase-bill.ts and
-- bill-posting.ts), counted in ten-thousandths.
use construction_erp_nestjs.Prelude.{
  ◌≡◌, ◌∙◌, refl, sym, ap, subst, none, false, List, [], ◌∷◌, ◌++◌, Bool-cases, inl, inr, arith,
}
use construction_erp_nestjs.Prelude.Int.{ℤ, pos, ◌+ℤ◌, ◌-ℤ◌, ◌≤ℤ◌, +ℤ_parts, -ℤ_parts, eq_of_parts}
use construction_erp_nestjs.Prelude.Text.{Text}
use construction_erp_nestjs.Errors.{ok}
use construction_erp_nestjs.Errors.Action.{after_bind, pure-eq}
use construction_erp_nestjs.Decimal.{DecimalLib, Exact, of_number}
use construction_erp_nestjs.Posting.Command.{AccountType, money_zero, PostingLine, PostingCommand}
use construction_erp_nestjs.Purchase.Tax.{PurchaseTax}
use construction_erp_nestjs.Purchase.Bill.{
  PurchaseBillLine, NewPurchaseBill, PurchaseBill, figures_of, create_bill,
}
use construction_erp_nestjs.Purchase.Lifecycle.{BillOperation, apply_bills}
use construction_erp_nestjs.Purchase.Lifecycle.Figured.{
  create_bill-IsFigured, apply_bills-IsFigured,
}
use construction_erp_nestjs.Purchase.BillPosting.{
  PurchaseAccountMap, money, bill_entry, when_positive, header_lines, first_of, debit_line,
  debit_lines, build_purchase_bill_command,
}
use construction_erp_nestjs.Purchase.BillPosting.Sums.{
  zero_add, add_zero, debits, credits, units_by, HasFigures, debits-append, credits-append,
  zero_units, when_positive-sums, figure-units, net_units, net-units,
}

residual_balances :
    (gross vat tds ait : ℤ)
    → gross +ℤ vat ≡ pos 0 +ℤ ((((gross +ℤ vat) -ℤ tds) -ℤ ait) +ℤ (tds +ℤ ait))
residual_balances gross vat tds ait =
    let sum = gross +ℤ vat in
    eq_of_parts _ _ (
      omega (
        arith,
        +ℤ_parts gross vat,
        -ℤ_parts sum tds,
        -ℤ_parts (sum -ℤ tds) ait,
        +ℤ_parts tds ait,
        +ℤ_parts ((sum -ℤ tds) -ℤ ait) (tds +ℤ ait),
        +ℤ_parts (pos 0) (((sum -ℤ tds) -ℤ ait) +ℤ (tds +ℤ ait)),
      ))

module _ ⦃d : DecimalLib⦄ (x : Exact d) where
  debit_line-sums :
      {S : Type 0} (accounts : PurchaseAccountMap S) (l : PurchaseBillLine) (s : S)
      {p : PostingLine} {t : S}
      → debit_line accounts l s ≡ (ok p, t)
      → (p.debit.amount ≡ l.line_amount) × (p.credit.amount ≡ of_number 0)
  unfolding debit_line money_zero
  debit_line-sums accounts l s h = elim (Bool-cases l.is_stock_line) [
    | inl stock ↦
        after_bind (accounts.inventory_of l.item_id l.godown_id) _ s (rw stock at h)
          (λ account s1 found h1. (
            ap (λ p. p.debit.amount) (sym (pure-eq h1).0),
            ap (λ p. p.credit.amount) (sym (pure-eq h1).0),
          ))
    | inr expense ↦
        let made = pure-eq (rw expense at h) in
        (ap (λ p. p.debit.amount) (sym made.0), ap (λ p. p.credit.amount) (sym made.0))
  ]

  debit_lines-sums :
      {S : Type 0} (accounts : PurchaseAccountMap S) (ls : List PurchaseBillLine) (s : S)
      {ps : List PostingLine} {t : S}
      → debit_lines accounts ls s ≡ (ok ps, t)
      → (debits x ps ≡ units_by x (λ l. l.line_amount) ls) × (credits x ps ≡ pos 0)
  unfolding debit_lines
  debit_lines-sums accounts [] s h =
      (ap (debits x) (sym (pure-eq h).0), ap (credits x) (sym (pure-eq h).0))
  debit_lines-sums accounts (l ∷ ls) s h = after_bind (debit_line accounts l) _ s h λ p s1 made h1.
      after_bind (debit_lines accounts ls) _ s1 h1 λ ps s2 rest h2.
        let (debit, credit) = debit_line-sums accounts l s made in
        let (total, none_left) = debit_lines-sums accounts ls s1 rest in
        (
          ap (debits x) (sym (pure-eq h2).0) ∙ (λ i. x.units (debit i) +ℤ total i),
          ap (credits x) (sym (pure-eq h2).0)
              ∙ (λ i. x.units (credit i) +ℤ none_left i)
              ∙ add_zero _
              ∙ zero_units x,
        )

  header_lines-sums :
      (vat_account payable tds_account ait_account : Text) (b : PurchaseBill)
      (first : PurchaseBillLine)
      → b.figures ≡ figures_of b.lines
      → HasFigures x b.lines
      → (debits x (header_lines vat_account payable tds_account ait_account b first)
          ≡ units_by x (λ l. l.vat_input_amount) b.lines)
        × (credits x (header_lines vat_account payable tds_account ait_account b first)
            ≡ net_units x b.lines
              +ℤ (units_by x (λ l. l.tds_amount) b.lines +ℤ units_by x (λ l. l.ait_amount) b.lines))
  unfolding header_lines money_zero
  header_lines-sums vat_account payable tds_account ait_account b first is h =
      let (vat_stored, vat) = figure-units x (λ l. l.vat_input_amount) b.lines h.vat_input in
      let (tds_stored, tds) = figure-units x (λ l. l.tds_amount) b.lines h.tds in
      let (ait_stored, ait) = figure-units x (λ l. l.ait_amount) b.lines h.ait in
      let figures = figures_of b.lines in
      let vat_line =
        bill_entry first vat_account none none (money figures.vat_input.amount) money_zero
          AccountType.asset false false in
      let tds_line =
        bill_entry first tds_account none none money_zero (money figures.tds.amount)
          AccountType.liability false false in
      let ait_line =
        bill_entry first ait_account none none money_zero (money figures.ait.amount)
          AccountType.liability false false in
      let vat_sums =
        (when_positive-sums x figures.vat_input.amount vat_line vat_stored
            (subst (λ z. pos 0 ≤ℤ z) (sym vat) h.vat_input_sign)).0
          refl refl in
      let tds_sums =
        (when_positive-sums x figures.tds.amount tds_line tds_stored
            (subst (λ z. pos 0 ≤ℤ z) (sym tds) h.tds_sign)).1
          refl refl in
      let ait_sums =
        (when_positive-sums x figures.ait.amount ait_line ait_stored
            (subst (λ z. pos 0 ≤ℤ z) (sym ait) h.ait_sign)).1
          refl refl in
      let tail =
        when_positive figures.tds.amount tds_line ++ when_positive figures.ait.amount ait_line in
      let no_debit : debits x tail ≡ pos 0 =
        debits-append x (when_positive figures.tds.amount tds_line) _
        ∙ (λ i. tds_sums.1 i +ℤ ait_sums.1 i)
        ∙ zero_add _ in
      let withheld : credits x tail
          ≡ units_by x (λ l. l.tds_amount) b.lines +ℤ units_by x (λ l. l.ait_amount) b.lines =
        credits-append x (when_positive figures.tds.amount tds_line) _
        ∙ (λ i. (tds_sums.0 ∙ tds) i +ℤ (ait_sums.0 ∙ ait) i) in
      rw is (
        debits-append x (when_positive figures.vat_input.amount vat_line) _
            ∙ (λ i. (vat_sums.0 ∙ vat) i +ℤ ((λ j. zero_units x j +ℤ no_debit j) ∙ zero_add _) i)
            ∙ add_zero _,
        credits-append x (when_positive figures.vat_input.amount vat_line) _
            ∙ (λ i. vat_sums.1 i +ℤ (net-units x b.lines h i +ℤ withheld i))
            ∙ zero_add _,
      )

  -- Whatever operations succeed on a bill that was created, the command of its entry balances: the
  -- goods and the recoverable tax sum to what is owed to the supplier and what is withheld from it. The
  -- amounts of its lines fit the columns with their sums, and no tax sums to less than zero.
  pub bill_command_balances :
      {S : Type 0} (accounts : PurchaseAccountMap S) (id company_id financial_year_id : Text)
      (input : NewPurchaseBill) (tax : PurchaseTax) (line_ids : List Text) (os : List BillOperation)
      (by : Text) (s : S) {a b : PurchaseBill} {cmd : PostingCommand} {t : S}
      → create_bill id company_id financial_year_id input tax line_ids ≡ ok a
      → apply_bills os a ≡ ok b
      → HasFigures x b.lines
      → build_purchase_bill_command accounts b by s ≡ (ok cmd, t)
      → debits x cmd.lines ≡ credits x cmd.lines
  unfolding build_purchase_bill_command
  bill_command_balances accounts id company_id financial_year_id input tax line_ids os by s {a} {b}
        created applied h built =
      after_bind (debit_lines accounts b.lines) _ s built λ ds s1 made h1.
        after_bind (first_of b.lines) _ s1 h1 λ first s2 there h2.
          let figured =
            create_bill-IsFigured id company_id financial_year_id input tax line_ids created in
          let header =
            header_lines accounts.vat_input_recoverable accounts.accounts_payable
              accounts.tds_payable accounts.ait_payable b first in
          let (bought, no_credit) = debit_lines-sums accounts b.lines s made in
          let (recoverable, owed) =
            header_lines-sums _ _ _ _ b first (apply_bills-IsFigured os a figured applied) h in
          ap (λ c. debits x c.lines) (sym (pure-eq h2).0)
          ∙ debits-append x ds header
          ∙ (λ i. bought i +ℤ recoverable i)
          ∙ residual_balances _ _ _ _
          ∙ sym (λ i. no_credit i +ℤ owed i)
          ∙ sym (credits-append x ds header)
          ∙ ap (λ c. credits x c.lines) (pure-eq h2).0
