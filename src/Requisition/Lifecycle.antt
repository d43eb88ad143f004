-- ===== src/Requisition/Lifecycle.antt =====
-- What returning an issue does to a requisition (modules/requisition/domain/requisition.ts).
use construction_erp_nestjs.Prelude.{
  ◌≡◌, ◌∙◌, sym, ap, refl, subst, Bool, true, false, ◌||◌, List, [], ◌∷◌, inl, inr, Bool-cases,
  if◌then◌else◌, All, any, arith,
}
use construction_erp_nestjs.Prelude.Int.{pos, ◌-ℤ◌, ◌≤ℤ◌, parts_eq, int_laws, eq_of_parts}
use construction_erp_nestjs.Prelude.Text.{Text, text_eq}
use construction_erp_nestjs.Errors.{ok, ok_inj}
use construction_erp_nestjs.Decimal.{DecimalLib, Exact, Fits, Num, of_number, minus, is_negative}
use construction_erp_nestjs.Requisition.Aggregate.{
  partially_issued, approved, RequisitionLine, Requisition, round, is_issuable, change_line,
  unissued, unissue_line, unissue_lines, any_issued, reverse_issue,
}
use construction_erp_nestjs.Requisition.Balance.{IsSound, rounded, change_line-IsSound}

both : ⦃d : DecimalLib⦄ (b : Bool) → is_issuable (if b then partially_issued else approved) ≡ true
both true = refl
both false = refl

module _ ⦃d : DecimalLib⦄ where
  abbrev pub has_id : Text → RequisitionLine → Bool
  has_id id l = text_eq l.id id

  -- Every returned quantity is of a line that is there.
  abbrev pub AreOf : List RequisitionLine → List (Text × Num) → Type 0
  AreOf ls is = All (λ i. any (has_id i.0) ls ≡ true) is

  change_line-there :
      (id : Text) (q : Num) (ls : List RequisitionLine)
      → any (has_id id) ls ≡ true
      → (ms : List RequisitionLine) × (change_line id (unissue_line q) ls ≡ ok ms)
        × ((other : Text) → any (has_id other) ms ≡ any (has_id other) ls)
  unfolding change_line unissue_line
  change_line-there id q [] h = cc
  change_line-there id q (l ∷ ls) h = elim (Bool-cases (text_eq l.id id)) [
    | inl t ↦ (
      record l {
        issued_quantity = unissued l.issued_quantity q;
        balance_quantity = round (minus l.requested_quantity (unissued l.issued_quantity q));
      }
          ∷ ls,
      rw t refl,
      λ other. refl,
    )
    | inr t ↦
        let (ms, made, same) =
          change_line-there id q ls (ap (λ b. b || any (has_id id) ls) (sym t) ∙ h) in
        (l ∷ ms, rw t (rw made refl), λ other. ap (λ b. text_eq l.id other || b) (same other))
  ]

  AreOf-same :
      (is : List (Text × Num)) (ls ms : List RequisitionLine)
      → ((other : Text) → any (has_id other) ms ≡ any (has_id other) ls)
      → AreOf ls is
      → AreOf ms is
  AreOf-same [] ls ms same h = tt
  AreOf-same (i ∷ is) ls ms same h = (same i.0 ∙ h.0, AreOf-same is ls ms same h.1)

module _ ⦃d : DecimalLib⦄ (x : Exact d) where
  -- The returned quantities, rounded, are figures of the columns and not negative.
  abbrev pub AreReturns : List (Text × Num) → Type 0
  AreReturns is = All (λ i. x.IsStored (round i.1) × (pos 0 ≤ℤ x.units (round i.1))) is

  -- A line is sound with any issued quantity up to what was requested.
  rebalanced :
      (l : RequisitionLine) (a : Num)
      → IsSound x l
      → x.IsStored a
      → pos 0 ≤ℤ x.units a
      → x.units a ≤ℤ x.units l.requested_quantity
      → IsSound x (record l {
        issued_quantity = a;
        balance_quantity = round (minus l.requested_quantity a);
      })
  rebalanced l a h ha low high =
      let r = x.units l.requested_quantity in
      let n = x.units a in
      let r_fits : Fits r = x.stored_fits l.requested_quantity h.requested in
      let fits : Fits (r -ℤ n) =
        (omega (int_laws, r_fits, low, high), omega (int_laws, r_fits, low, high)) in
      let rest =
        rounded x (minus l.requested_quantity a)
          (x.minus_stored l.requested_quantity a h.requested ha fits)
          (x.minus_units l.requested_quantity a h.requested ha) fits in
      record {
        requested = h.requested;
        issued = ha;
        balance = rest.0;
        split = rw (rest.1) (eq_of_parts _ _ (omega int_laws));
        balance_low = subst (λ z. pos 0 ≤ℤ z) (sym rest.1) (omega (int_laws, high));
        issued_low = low;
      }

  unissue_line-IsSound :
      (q : Num) (l m : RequisitionLine)
      → x.IsStored (round q)
      → pos 0 ≤ℤ x.units (round q)
      → IsSound x l
      → unissue_line q l ≡ ok m
      → IsSound x m
  unfolding unissue_line
  unissue_line-IsSound q l m hq sign h made =
      let i = x.units l.issued_quantity in
      let n = x.units (round q) in
      let split = parts_eq h.split in
      let i_fits : Fits i = x.stored_fits l.issued_quantity h.issued in
      let n_fits : Fits n = x.stored_fits (round q) hq in
      let i_low = h.issued_low in
      let b_low = h.balance_low in
      let fits : Fits (i -ℤ n) = (
        omega (int_laws, i_fits, n_fits, i_low, sign),
        omega (int_laws, i_fits, n_fits, i_low, sign),
      ) in
      let rest =
        rounded x (minus l.issued_quantity (round q))
          (x.minus_stored l.issued_quantity (round q) h.issued hq fits)
          (x.minus_units l.issued_quantity (round q) h.issued hq) fits in
      let zero : x.units (of_number 0) ≡ pos 0 = x.of_number_units 0 (omega arith) in
      let back = round (minus l.issued_quantity (round q)) in
      subst (IsSound x) (ok_inj made) (elim (Bool-cases (is_negative back)) [
        | inl t ↦ rw t (
            rebalanced l (of_number 0) h (x.of_number_stored 0 (omega arith))
              (subst (λ z. pos 0 ≤ℤ z) (sym zero) (omega arith))
              (subst (λ z. z ≤ℤ x.units l.requested_quantity) (sym zero)
                (omega (int_laws, split, i_low, b_low))))
        | inr t ↦
            let low = x.is_negative_false back rest.0 t in
            rw t (
              rebalanced l back h rest.0 low (
                subst (λ z. z ≤ℤ x.units l.requested_quantity) (sym rest.1)
                  (omega (int_laws, split, i_low, b_low, sign))))
      ])

  unissue_lines-IsSound :
      (is : List (Text × Num)) (ls : List RequisitionLine)
      → AreReturns is
      → AreOf ls is
      → All (IsSound x) ls
      → (ms : List RequisitionLine) × (unissue_lines is ls ≡ ok ms) × All (IsSound x) ms
  unfolding unissue_lines
  unissue_lines-IsSound [] ls hi there h = (ls, refl, h)
  unissue_lines-IsSound (i ∷ is) ls hi there h =
      let (changed, made, same) = change_line-there i.0 i.1 ls there.0 in
      let sound =
        change_line-IsSound x i.0 (unissue_line i.1) ls
          (λ l m hl e. unissue_line-IsSound i.1 l m hi.0.0 hi.0.1 hl e) h made in
      let (ms, rest, kept) =
        unissue_lines-IsSound is changed hi.1 (AreOf-same is ls changed same there.1) sound in
      (ms, rw made rest, kept)

  -- Whatever the status of a requisition, also CLOSED, the return of quantities of its lines succeeds,
  -- when its lines are sound and the quantities are stored and not negative. The lines stay sound, so no
  -- issued quantity falls below zero and no balance exceeds what was requested. The requisition is then
  -- open for issues, PARTIALLY_ISSUED or APPROVED by what is still issued, and keeps the time and the
  -- reason of its closing.
  pub reverse_issue_reopens :
      (is : List (Text × Num)) (r : Requisition)
      → AreReturns is
      → AreOf r.lines is
      → All (IsSound x) r.lines
      → (t : Requisition) × (reverse_issue is r ≡ ok t)
        × All (IsSound x) t.lines
        × (is_issuable t.status ≡ true)
        × (t.status ≡ (if any_issued t.lines then partially_issued else approved))
        × (t.closed_at ≡ r.closed_at)
        × (t.closed_reason ≡ r.closed_reason)
  unfolding reverse_issue
  reverse_issue_reopens is r hi there h =
      let (ls, made, sound) = unissue_lines-IsSound is r.lines hi there h in
      (
        record r { lines = ls; status = if any_issued ls then partially_issued else approved },
        rw made refl,
        sound,
        both (any_issued ls),
        refl,
        refl,
        refl,
      )
