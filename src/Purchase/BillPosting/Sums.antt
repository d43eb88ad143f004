-- ===== src/Purchase/BillPosting/Sums.antt =====
-- The sums of the lines of an entry and of the figures of a bill, in ten-thousandths
-- (modules/purchase/domain: purchase-bill.ts and bill-posting.ts).
use construction_erp_nestjs.Prelude.{
  ◌≡◌, ◌∙◌, refl, sym, ap, subst, List, [], ◌∷◌, ◌++◌, Bool-cases, inl, inr, arith,
}
use construction_erp_nestjs.Prelude.Int.{
  ℤ, pos, ◌+ℤ◌, ◌-ℤ◌, ◌≤ℤ◌, +ℤ_parts, eq_of_parts, +ℤ_assoc, le_of_false,
}
use construction_erp_nestjs.Decimal.{DecimalLib, Exact, Fits, Num, of_number, greater_than}
use construction_erp_nestjs.Posting.Command.{PostingLine}
use construction_erp_nestjs.Purchase.Bill.{
  PurchaseBillLine, round4, sum_by, total_by, net_payable_of,
}
use construction_erp_nestjs.Purchase.BillPosting.{when_positive}

pub zero_add : (a : ℤ) → pos 0 +ℤ a ≡ a
zero_add a = eq_of_parts _ _ (omega (arith, +ℤ_parts (pos 0) a))

pub add_zero : (a : ℤ) → a +ℤ pos 0 ≡ a
add_zero a = eq_of_parts _ _ (omega (arith, +ℤ_parts a (pos 0)))

le_antisym : (a b : ℤ) → a ≤ℤ b → b ≤ℤ a → a ≡ b
le_antisym a b h k = eq_of_parts a b (omega arith)

module _ ⦃d : DecimalLib⦄ (x : Exact d) where
  -- The sums of a list of lines, in ten-thousandths.
  abbrev pub debits : List PostingLine → ℤ
  debits [] = pos 0
  debits (l ∷ ls) = x.units l.debit.amount +ℤ debits ls

  abbrev pub credits : List PostingLine → ℤ
  credits [] = pos 0
  credits (l ∷ ls) = x.units l.credit.amount +ℤ credits ls

  abbrev pub units_by : (PurchaseBillLine → Num) → List PurchaseBillLine → ℤ
  units_by f [] = pos 0
  units_by f (l ∷ ls) = x.units (f l) +ℤ units_by f ls

  -- The amounts and their running sums, from `z` on, fit the columns.
  abbrev pub RunFits : (PurchaseBillLine → Num) → ℤ → List PurchaseBillLine → Type 0
  RunFits f z [] = Unit
  RunFits f z (l ∷ ls) =
      x.IsStored (f l) × Fits (z +ℤ x.units (f l)) × RunFits f (z +ℤ x.units (f l)) ls

  pub debits-append : (ls ks : List PostingLine) → debits (ls ++ ks) ≡ debits ls +ℤ debits ks
  debits-append [] ks = sym (zero_add _)
  debits-append (l ∷ ls) ks =
      ap (λ z. x.units l.debit.amount +ℤ z) (debits-append ls ks) ∙ sym (+ℤ_assoc _ _ _)

  pub credits-append : (ls ks : List PostingLine) → credits (ls ++ ks) ≡ credits ls +ℤ credits ks
  credits-append [] ks = sym (zero_add _)
  credits-append (l ∷ ls) ks =
      ap (λ z. x.units l.credit.amount +ℤ z) (credits-append ls ks) ∙ sym (+ℤ_assoc _ _ _)

  pub zero_units : x.units (of_number 0) ≡ pos 0
  zero_units = x.of_number_units 0 (omega arith)

  sum_by-units :
      (f : PurchaseBillLine → Num) (acc : Num) (ls : List PurchaseBillLine)
      → x.IsStored acc
      → RunFits f (x.units acc) ls
      → x.IsStored (sum_by f acc ls) × (x.units (sum_by f acc ls) ≡ x.units acc +ℤ units_by f ls)
  unfolding sum_by
  sum_by-units f acc [] h r = (h, sym (add_zero _))
  sum_by-units f acc (l ∷ ls) h r =
      let sum = x.plus_units acc (f l) h r.0 in
      let stored = x.plus_stored acc (f l) h r.0 r.1 in
      let (total_stored, total) =
        sum_by-units f (d.plus acc (f l)) ls stored (subst (λ z. RunFits f z ls) (sym sum) r.2) in
      (total_stored, total ∙ ap (λ z. z +ℤ units_by f ls) sum ∙ +ℤ_assoc _ _ _)

  total_by-units :
      (f : PurchaseBillLine → Num) (ls : List PurchaseBillLine)
      → RunFits f (pos 0) ls
      → x.IsStored (total_by f ls) × (x.units (total_by f ls) ≡ units_by f ls)
  total_by-units f ls r =
      let (stored, total) =
        sum_by-units f (of_number 0) ls (x.of_number_stored 0 (omega arith))
          (subst (λ z. RunFits f z ls) (sym zero_units) r) in
      (stored, total ∙ ap (λ z. z +ℤ units_by f ls) zero_units ∙ zero_add _)

  -- A total that is written to a figure keeps its units.
  round4-units : (n : Num) → x.IsStored n → x.IsStored (round4 n) × (x.units (round4 n) ≡ x.units n)
  round4-units n h =
      let same = x.round_units n h in
      (x.round_stored n (subst Fits (sym same) (x.stored_fits n h)), same)

  -- The amounts of the lines fit the columns with all the sums, and the taxes are not negative.
  pub record HasFigures (ls : List PurchaseBillLine) : Type 0 where
    pub gross : RunFits (λ l. l.line_amount) (pos 0) ls
    pub vat_input : RunFits (λ l. l.vat_input_amount) (pos 0) ls
    pub tds : RunFits (λ l. l.tds_amount) (pos 0) ls
    pub ait : RunFits (λ l. l.ait_amount) (pos 0) ls
    pub with_vat : Fits (units_by (λ l. l.line_amount) ls +ℤ units_by (λ l. l.vat_input_amount) ls)
    pub less_tds : Fits (
        (units_by (λ l. l.line_amount) ls +ℤ units_by (λ l. l.vat_input_amount) ls)
        -ℤ units_by (λ l. l.tds_amount) ls)
    pub less_ait : Fits (
        ((units_by (λ l. l.line_amount) ls +ℤ units_by (λ l. l.vat_input_amount) ls)
          -ℤ units_by (λ l. l.tds_amount) ls)
        -ℤ units_by (λ l. l.ait_amount) ls)
    pub vat_input_sign : pos 0 ≤ℤ units_by (λ l. l.vat_input_amount) ls
    pub tds_sign : pos 0 ≤ℤ units_by (λ l. l.tds_amount) ls
    pub ait_sign : pos 0 ≤ℤ units_by (λ l. l.ait_amount) ls

  -- The line that is left out when its amount is not above zero.
  pub when_positive-sums :
      (n : Num) (l : PostingLine)
      → x.IsStored n
      → pos 0 ≤ℤ x.units n
      → ((l.debit.amount ≡ n)
          → (l.credit.amount ≡ of_number 0)
          → (debits (when_positive n l) ≡ x.units n) × (credits (when_positive n l) ≡ pos 0))
        × ((l.credit.amount ≡ n)
            → (l.debit.amount ≡ of_number 0)
            → (credits (when_positive n l) ≡ x.units n) × (debits (when_positive n l) ≡ pos 0))
  when_positive-sums n l stored sign = elim (Bool-cases (greater_than n (of_number 0))) [
    | inl t ↦ (
      (λ is zero.
          (rw t (add_zero _ ∙ ap x.units is), rw t (add_zero _ ∙ ap x.units zero ∙ zero_units))),
      (λ is zero.
          (rw t (add_zero _ ∙ ap x.units is), rw t (add_zero _ ∙ ap x.units zero ∙ zero_units))),
    )
    | inr t ↦
        let above =
          (x.greater_than_iff n (of_number 0) stored (x.of_number_stored 0 (omega arith))).1 in
        let below =
          le_of_false (x.units (of_number 0)) (x.units n) (greater_than n (of_number 0)) above t in
        let nothing : pos 0 ≡ x.units n =
          le_antisym (pos 0) (x.units n) sign (subst (λ z. x.units n ≤ℤ z) zero_units below) in
        ((λ is zero. (rw t nothing, rw t refl)), (λ is zero. (rw t nothing, rw t refl)))
  ]

  -- The figure of a total: stored, with the units of the total.
  pub figure-units :
      (f : PurchaseBillLine → Num) (ls : List PurchaseBillLine)
      → RunFits f (pos 0) ls
      → x.IsStored (round4 (total_by f ls)) × (x.units (round4 (total_by f ls)) ≡ units_by f ls)
  figure-units f ls r =
      let (stored, total) = total_by-units f ls r in
      let (kept, same) = round4-units (total_by f ls) stored in (kept, same ∙ total)

  abbrev pub net_units : List PurchaseBillLine → ℤ
  net_units ls =
      ((units_by (λ l. l.line_amount) ls +ℤ units_by (λ l. l.vat_input_amount) ls)
        -ℤ units_by (λ l. l.tds_amount) ls)
      -ℤ units_by (λ l. l.ait_amount) ls

  pub net-units :
      (ls : List PurchaseBillLine)
      → HasFigures ls
      → x.units (round4 (net_payable_of ls)) ≡ net_units ls
  net-units ls h =
      let (gross_stored, gross) = total_by-units (λ l. l.line_amount) ls h.gross in
      let (vat_stored, vat) = total_by-units (λ l. l.vat_input_amount) ls h.vat_input in
      let (tds_stored, tds) = total_by-units (λ l. l.tds_amount) ls h.tds in
      let (ait_stored, ait) = total_by-units (λ l. l.ait_amount) ls h.ait in
      let sum = x.plus_units _ _ gross_stored vat_stored ∙ (λ i. gross i +ℤ vat i) in
      let sum_stored =
        x.plus_stored _ _ gross_stored vat_stored
          (subst Fits (sym (λ i. gross i +ℤ vat i)) h.with_vat) in
      let less = x.minus_units _ _ sum_stored tds_stored ∙ (λ i. sum i -ℤ tds i) in
      let less_stored =
        x.minus_stored _ _ sum_stored tds_stored
          (subst Fits (sym (λ i. sum i -ℤ tds i)) h.less_tds) in
      let net = x.minus_units _ _ less_stored ait_stored ∙ (λ i. less i -ℤ ait i) in
      let net_stored =
        x.minus_stored _ _ less_stored ait_stored
          (subst Fits (sym (λ i. less i -ℤ ait i)) h.less_ait) in
      (round4-units (net_payable_of ls) net_stored).1 ∙ net
