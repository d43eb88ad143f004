-- ===== src/Requisition/Balance.antt =====
-- The balance of the lines (modules/requisition/domain/requisition.ts), in ten-thousandths.
use construction_erp_nestjs.Prelude.{
  ◌≡◌, ◌∙◌, sym, ap, refl, subst, Bool, true, false, ◌||◌, not, List, [], ◌∷◌, All, Bool-cases, inl,
  inr, if◌then◌else◌, arith,
}
use construction_erp_nestjs.Prelude.Int.{
  ℤ, pos, ◌+ℤ◌, ◌-ℤ◌, ◌≤ℤ◌, ◌<ℤ◌, parts_eq, le_of_false, sub_add, int_laws,
}
use construction_erp_nestjs.Prelude.Text.{Text, text_eq}
use construction_erp_nestjs.Errors.{ErrorCode, Result, ok, ok_inj, throw_if, throw_if-ok, >>=-eq-ok}
use construction_erp_nestjs.Decimal.{
  DecimalLib, Exact, Fits, Num, of_number, plus, minus, greater_than,
}
use construction_erp_nestjs.Requisition.Aggregate.{
  RequisitionLine, Requisition, issued, partially_issued, round, is_issuable, issue_line,
  change_line, issue_lines, is_fully_issued, apply_issue,
}

or-false : (a b : Bool) → (not a || b) ≡ false → (a ≡ true) × (b ≡ false)
or-false true b h = (refl, h)
or-false false b h = cc

pick :
    {A : Type 0} {b c : Bool} (y z : A) {r : A}
    → b ≡ c
    → (if b then y else z) ≡ r
    → (if c then y else z) ≡ r
pick y z h e = ap (λ b. if b then y else z) (sym h) ∙ e

un-not : (b : Bool) → not b ≡ false → b ≡ true
un-not true h = refl
un-not false h = cc

module _ ⦃d : DecimalLib⦄ (x : Exact d) where
  -- The balance of a line is what was requested less what was issued, and neither is negative.
  pub record IsSound (l : RequisitionLine) : Type 0 where
    pub requested : x.IsStored l.requested_quantity
    pub issued : x.IsStored l.issued_quantity
    pub balance : x.IsStored l.balance_quantity
    pub split :
        x.units l.balance_quantity +ℤ x.units l.issued_quantity ≡ x.units l.requested_quantity
    pub balance_low : pos 0 ≤ℤ x.units l.balance_quantity
    pub issued_low : pos 0 ≤ℤ x.units l.issued_quantity

  -- A stored figure that is rounded stays what it is.
  pub rounded :
      (a : Num) {z : ℤ}
      → x.IsStored a
      → x.units a ≡ z
      → Fits z
      → x.IsStored (round a) × (x.units (round a) ≡ z)
  rounded a h e fits =
      let same = x.round_units a h ∙ e in (x.round_stored a (subst Fits (sym same) fits), same)

  issued_IsSound :
      (q : Num) (l : RequisitionLine)
      → x.IsStored (round q)
      → IsSound l
      → pos 0 <ℤ x.units (round q)
      → x.units (round q) ≤ℤ x.units l.balance_quantity
      → IsSound (record l {
        issued_quantity = round (plus l.issued_quantity (round q));
        balance_quantity =
            round (minus l.requested_quantity (round (plus l.issued_quantity (round q))));
      })
  issued_IsSound q l hq h above within =
      let i = x.units l.issued_quantity in
      let n = x.units (round q) in
      let r = x.units l.requested_quantity in
      let split = parts_eq h.split in
      let r_fits : Fits r = x.stored_fits l.requested_quantity h.requested in
      let sum_fits : Fits (i +ℤ n) = (
        omega (int_laws, split, r_fits, within, above),
        omega (int_laws, split, r_fits, within, above),
      ) in
      let sum =
        rounded (plus l.issued_quantity (round q))
          (x.plus_stored l.issued_quantity (round q) h.issued hq sum_fits)
          (x.plus_units l.issued_quantity (round q) h.issued hq) sum_fits in
      let rest_fits : Fits (r -ℤ (i +ℤ n)) = (
        omega (int_laws, split, r_fits, within, above),
        omega (int_laws, split, r_fits, within, above),
      ) in
      let taken = round (plus l.issued_quantity (round q)) in
      let rest_units : x.units (minus l.requested_quantity taken) ≡ r -ℤ (i +ℤ n) =
        x.minus_units l.requested_quantity taken h.requested sum.0 ∙ ap (λ z. r -ℤ z) sum.1 in
      let rest =
        rounded (minus l.requested_quantity taken)
          (x.minus_stored l.requested_quantity taken h.requested sum.0
            (subst (λ z. Fits (r -ℤ z)) (sym sum.1) rest_fits))
          rest_units rest_fits in
      let issued_eq = parts_eq sum.1 in
      let rest_eq = parts_eq rest.1 in
      record {
        requested = h.requested;
        issued = sum.0;
        balance = rest.0;
        split = rw (rest.1) (rw (sum.1) (sub_add r (i +ℤ n)));
        balance_low = subst (λ z. pos 0 ≤ℤ z) (sym rest.1) (omega (int_laws, split, within, above));
        issued_low = subst (λ z. pos 0 ≤ℤ z) (sym sum.1) (omega (int_laws, split, within, above));
      }

  issue_line-IsSound :
      (q : Num) (l : RequisitionLine) {m : RequisitionLine}
      → x.IsStored (round q)
      → IsSound l
      → issue_line q l ≡ ok m
      → IsSound m
  unfolding issue_line
  issue_line-IsSound q l hq h e =
      let (u, allowed, made) =
        >>=-eq-ok
          (throw_if
            (not (greater_than (round q) (of_number 0))
              || greater_than (round q) l.balance_quantity)
            ErrorCode.issue_exceeds_balance)
          _ e in
      let (positive, enough) =
        or-false (greater_than (round q) (of_number 0)) (greater_than (round q) l.balance_quantity)
          (throw_if-ok
            (not (greater_than (round q) (of_number 0))
              || greater_than (round q) l.balance_quantity)
            ErrorCode.issue_exceeds_balance allowed) in
      let zero_stored = x.of_number_stored 0 (omega arith) in
      let zero_units : x.units (of_number 0) ≡ pos 0 = x.of_number_units 0 (omega arith) in
      let above : pos 0 <ℤ x.units (round q) =
        subst (λ z. z <ℤ x.units (round q)) zero_units
          ((x.greater_than_iff (round q) (of_number 0) hq zero_stored).0 positive) in
      let within =
        le_of_false (x.units l.balance_quantity) (x.units (round q))
          (greater_than (round q) l.balance_quantity)
          (x.greater_than_iff (round q) l.balance_quantity hq h.balance).1 enough in
      rw (← ok_inj made) (issued_IsSound q l hq h above within)

  pub change_line-IsSound :
      (id : Text) (change : RequisitionLine → Result RequisitionLine) (ls : List RequisitionLine)
      {ms : List RequisitionLine}
      → ((l m : RequisitionLine) → IsSound l → change l ≡ ok m → IsSound m)
      → All IsSound ls
      → change_line id change ls ≡ ok ms
      → All IsSound ms
  unfolding change_line
  change_line-IsSound id change [] keeps h e = cc
  change_line-IsSound id change (l ∷ ls) {ms} keeps h e = elim (Bool-cases (text_eq l.id id)) [
    | inl t ↦
        let (m, changed, made) = >>=-eq-ok (change l) (λ m. ok (m ∷ ls)) (pick _ _ t e) in
        subst (All IsSound) (ok_inj made) (keeps l m h.0 changed, h.1)
    | inr t ↦
        let (rest, changed, made) =
          >>=-eq-ok (change_line id change ls) (λ ms. ok (l ∷ ms)) (pick _ _ t e) in
        subst (All IsSound) (ok_inj made) (h.0, change_line-IsSound id change ls keeps h.1 changed)
  ]

  -- The quantities of an issue, rounded, are figures of the columns.
  abbrev pub AreStored : List (Text × Num) → Type 0
  AreStored is = All (λ i. x.IsStored (round i.1)) is

  issue_lines-IsSound :
      (is : List (Text × Num)) (ls : List RequisitionLine) {ms : List RequisitionLine}
      → AreStored is
      → All IsSound ls
      → issue_lines is ls ≡ ok ms
      → All IsSound ms
  unfolding issue_lines
  issue_lines-IsSound [] ls hi h e = subst (All IsSound) (ok_inj e) h
  issue_lines-IsSound (i ∷ is) ls hi h e =
      let (changed, first, rest) =
        >>=-eq-ok (change_line i.0 (issue_line i.1) ls) (issue_lines is) e in
      issue_lines-IsSound is changed hi.1
        (change_line-IsSound i.0 (issue_line i.1) ls
          (λ l m hl made. issue_line-IsSound i.1 l hi.0 hl made) h first)
        rest

  -- An issue of stored quantities from sound lines that succeeds was made against an approved or partly issued requisition. It keeps on every
  -- line that the balance is what was requested less what was issued and that neither is negative; the
  -- requisition is then ISSUED if every balance is zero, and PARTIALLY_ISSUED if not.
  pub apply_issue-IsSound :
      (is : List (Text × Num)) (r : Requisition) {t : Requisition}
      → AreStored is
      → All IsSound r.lines
      → apply_issue is r ≡ ok t
      → (is_issuable r.status ≡ true)
        × All IsSound t.lines
        × (t.status ≡ (if is_fully_issued t.lines then issued else partially_issued))
  unfolding apply_issue
  apply_issue-IsSound is r {t} hi h e =
      let (u, issuable, e1) =
        >>=-eq-ok (throw_if (not (is_issuable r.status)) ErrorCode.requisition_not_approved) _ e in
      let (ls, made, e2) = >>=-eq-ok (issue_lines is r.lines) _ e1 in
      let lines : t.lines ≡ ls = ap (λ z. z.lines) (sym (ok_inj e2)) in
      (
        un-not (is_issuable r.status) (throw_if-ok (not (is_issuable r.status)) _ issuable),
        subst (All IsSound) (sym lines) (issue_lines-IsSound is r.lines hi h made),
        (ap (λ z. z.status) (sym (ok_inj e2))
            ∙ ap (λ z. if is_fully_issued z then issued else partially_issued) (sym lines)),
      )
