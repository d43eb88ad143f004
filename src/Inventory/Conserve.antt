-- ===== src/Inventory/Conserve.antt =====
-- What valuation conserves (modules/inventory/domain/valuation.ts), in ten-thousandths.
use construction_erp_nestjs.Prelude.{
  ◌≡◌, ◌∙◌, ap, refl, Bool, true, false, ◌&&◌, not, Bool-cases, inl, inr, arith, ◌⊎◌,
}
use construction_erp_nestjs.Prelude.Int.{
  ℤ, pos, ◌+ℤ◌, ◌-ℤ◌, ◌≤ℤ◌, +ℤ_parts, eq_of_parts, sub_add, sub_self, sub_nonneg, le_of_false,
}
use construction_erp_nestjs.Errors.{
  ErrorCode, ok, err, range_error, ok_inj, throw_if, throw_if-ok, >>=-eq-ok,
}
use construction_erp_nestjs.Decimal.{DecimalLib, Exact, Num, of_number, greater_than, equals}
use construction_erp_nestjs.Inventory.Valuation.{
  Balance, IssueResult, assert_positive, assert_non_negative, issued_value_of, value_issue,
  apply_transfer_in,
}

moved : (a b t : ℤ) {c u : ℤ} → a +ℤ b ≡ c → u ≡ t +ℤ b → a +ℤ u ≡ c +ℤ t
moved a b t h e = rw e (
    rw (← h) (
      eq_of_parts _ _
        (omega (arith, +ℤ_parts a (t +ℤ b), +ℤ_parts t b, +ℤ_parts (a +ℤ b) t, +ℤ_parts a b))))

and_not-false : (b : Bool) → (b && not false) ≡ false → b ≡ false
and_not-false b h = ground arith

module _ ⦃d : DecimalLib⦄ where
  assert_positive-ok :
      (v : Num) {u : Unit {0}} → assert_positive v ≡ ok u → greater_than v (of_number 0) ≡ true
  unfolding assert_positive
  assert_positive-ok v h = elim (Bool-cases (greater_than v (of_number 0))) [
    | inl t ↦ t
    | inr t ↦ let e : assert_positive v ≡ err range_error = rw t refl in cc
  ]

  pub value_issue-ok :
      (prev : Balance) (qty : Num) (allow : Bool) {r : IssueResult}
      → value_issue prev qty allow ≡ ok r
      → (greater_than qty (of_number 0) ≡ true)
        × ((greater_than qty prev.qty && not allow) ≡ false)
        × (r.issued_value ≡ issued_value_of prev qty)
        × (r.new_balance.qty ≡ d.minus prev.qty qty)
        × (r.new_balance.value ≡ d.minus prev.value r.issued_value)
  unfolding value_issue
  value_issue-ok prev qty allow h =
      let (u, positive, h1) = >>=-eq-ok (assert_positive qty) _ h in
      let (v, enough, h2) =
        >>=-eq-ok
          (throw_if (greater_than qty prev.qty && not allow) ErrorCode.negative_stock_blocked) _
          h1 in
      rw (← ok_inj h2) (
        assert_positive-ok qty positive,
        throw_if-ok (greater_than qty prev.qty && not allow) _ enough,
        refl,
        refl,
        refl,
      )

  pub apply_transfer_in-ok :
      (prev : Balance) (qty value : Num) {b : Balance}
      → apply_transfer_in prev qty value ≡ ok b
      → (b.qty ≡ d.plus prev.qty qty) × (b.value ≡ d.plus prev.value value)
  unfolding apply_transfer_in
  apply_transfer_in-ok prev qty value h =
      let (u, positive, h1) = >>=-eq-ok (assert_positive qty) _ h in
      let (v, non_negative, h2) = >>=-eq-ok (assert_non_negative value) _ h1 in
      rw (← ok_inj h2) (refl, refl)

module _ ⦃d : DecimalLib⦄ (x : Exact d) where
  -- The figures of a balance are stored numbers.
  pub record IsStoredBalance (b : Balance) : Type 0 where
    pub qty : x.IsStored b.qty
    pub value : x.IsStored b.value

  drains :
      (prev : Balance) (qty : Num)
      → equals qty prev.qty ≡ true
      → issued_value_of prev qty ≡ prev.value
  unfolding issued_value_of
  drains prev qty all = rw all refl

  stays_positive :
      (prev : Balance) (qty : Num) (allow : Bool) {z : ℤ}
      → IsStoredBalance prev
      → x.IsStored qty
      → (greater_than qty prev.qty && not allow) ≡ false
      → z ≡ x.units prev.qty -ℤ x.units qty
      → (allow ≡ true) ⊎ (pos 0 ≤ℤ z)
  stays_positive prev qty true hp hq h e = inl refl
  stays_positive prev qty false hp hq h e = inr (
      rw e (
        sub_nonneg _ _ (
          le_of_false (x.units prev.qty) (x.units qty) (greater_than qty prev.qty)
            (x.greater_than_iff qty prev.qty hq hp.qty).1 (and_not-false _ h))))

  -- Between stored figures, an issue that is valued takes out of the balance exactly what it reports: quantity and value before
  -- are what left and what stays. It never leaves less than nothing unless that is allowed, and the issue
  -- of the whole balance leaves a value of zero.
  pub value_issue_conserves :
      (prev : Balance) (qty : Num) (allow : Bool) {r : IssueResult}
      → IsStoredBalance prev
      → x.IsStored qty
      → x.IsStored r.issued_value
      → value_issue prev qty allow ≡ ok r
      → (x.units r.new_balance.qty +ℤ x.units qty ≡ x.units prev.qty)
        × (x.units r.new_balance.value +ℤ x.units r.issued_value ≡ x.units prev.value)
        × ((allow ≡ true) ⊎ (pos 0 ≤ℤ x.units r.new_balance.qty))
        × ((equals qty prev.qty ≡ false)
            ⊎ ((x.units r.new_balance.qty ≡ pos 0) × (x.units r.new_balance.value ≡ pos 0)))
  value_issue_conserves prev qty allow {r} hp hq hi h =
      let (positive, enough, issued, new_qty, new_value) = value_issue-ok prev qty allow h in
      let qtys : x.units r.new_balance.qty ≡ x.units prev.qty -ℤ x.units qty =
        ap x.units new_qty ∙ x.minus_units prev.qty qty hp.qty hq in
      let values : x.units r.new_balance.value ≡ x.units prev.value -ℤ x.units r.issued_value =
        ap x.units new_value ∙ x.minus_units prev.value r.issued_value hp.value hi in
      (
        ap (λ z. z +ℤ x.units qty) qtys ∙ sub_add _ _,
        ap (λ z. z +ℤ x.units r.issued_value) values ∙ sub_add _ _,
        stays_positive prev qty allow hp hq enough qtys,
        elim (Bool-cases (equals qty prev.qty)) [
          | inl all ↦ inr (
            qtys
                ∙ ap (λ z. x.units prev.qty -ℤ z) ((x.equals_iff qty prev.qty hq hp.qty).0 all)
                ∙ sub_self _,
            values
                ∙ ap (λ v. x.units prev.value -ℤ x.units v) (issued ∙ drains prev qty all)
                ∙ sub_self _,
          )
          | inr part ↦ inl part
        ],
      )

  -- Between stored figures, a transfer is neutral: what the two balances hold together, in quantity and in value, is what they
  -- held before.
  pub transfer_neutral :
      (source target : Balance) (qty : Num) (allow : Bool) {r : IssueResult} {after : Balance}
      → IsStoredBalance source
      → IsStoredBalance target
      → x.IsStored qty
      → x.IsStored r.issued_value
      → value_issue source qty allow ≡ ok r
      → apply_transfer_in target qty r.issued_value ≡ ok after
      → (x.units r.new_balance.qty +ℤ x.units after.qty ≡ x.units source.qty +ℤ x.units target.qty)
        × (x.units r.new_balance.value +ℤ x.units after.value
            ≡ x.units source.value +ℤ x.units target.value)
  transfer_neutral source target qty allow {r} {after} hs ht hq hi issued received =
      let (qtys, values, sign, drained) = value_issue_conserves source qty allow hs hq hi issued in
      let (qty_in, value_in) = apply_transfer_in-ok target qty r.issued_value received in
      (
        moved _ (x.units qty) (x.units target.qty) qtys
            (ap x.units qty_in ∙ x.plus_units target.qty qty ht.qty hq),
        moved _ (x.units r.issued_value) (x.units target.value) values
            (ap x.units value_in ∙ x.plus_units target.value r.issued_value ht.value hi),
      )

  -- Between stored figures, taking an issue back with its own quantity and value restores the balance.
  pub issue_undone :
      (prev : Balance) (qty : Num) (allow : Bool) {r : IssueResult} {after : Balance}
      → IsStoredBalance prev
      → IsStoredBalance r.new_balance
      → x.IsStored qty
      → x.IsStored r.issued_value
      → value_issue prev qty allow ≡ ok r
      → apply_transfer_in r.new_balance qty r.issued_value ≡ ok after
      → (x.units after.qty ≡ x.units prev.qty) × (x.units after.value ≡ x.units prev.value)
  issue_undone prev qty allow {r} hp hr hq hi issued received =
      let (qtys, values, sign, drained) = value_issue_conserves prev qty allow hp hq hi issued in
      let (qty_in, value_in) = apply_transfer_in-ok r.new_balance qty r.issued_value received in
      (
        ap x.units qty_in ∙ x.plus_units r.new_balance.qty qty hr.qty hq ∙ qtys,
        ap x.units value_in ∙ x.plus_units r.new_balance.value r.issued_value hr.value hi ∙ values,
      )
