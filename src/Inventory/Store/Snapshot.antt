-- ===== src/Inventory/Store/Snapshot.antt =====
-- The balance rows after the methods of modules/inventory/application/inventory.service.ts.
use construction_erp_nestjs.Prelude.{
  ℕ, ◌≡◌, ◌∙◌, sym, ap, refl, subst, some, true, List, [], ◌∷◌, find, Bool-cases, inl, inr,
}
use construction_erp_nestjs.Prelude.Int.{◌+ℤ◌, ◌-ℤ◌, sub_add}
use construction_erp_nestjs.Prelude.Text.{Text, text_eq_refl}
use construction_erp_nestjs.Errors.{ok, ok_inj, >>=-eq-ok}
use construction_erp_nestjs.Errors.Action.{after_bind, pure-eq, lift-ok}
use construction_erp_nestjs.Decimal.{DecimalLib, Exact, Fits, Num}
use construction_erp_nestjs.Inventory.Valuation.{
  Balance, IssueResult, assert_positive, assert_non_negative, average_rate, value_issue,
  apply_transfer_in,
}
use construction_erp_nestjs.Inventory.Conserve.{value_issue-ok, apply_transfer_in-ok}
use construction_erp_nestjs.Inventory.Movement.{StockMovement, NewStockMovement, create}
use construction_erp_nestjs.Inventory.Store.{
  StockBalance, StockState, is_pair, balance_row, fixed, fixed_rate, upsert, append, or_zero_row,
  current_balance_for_update, PostCtx, IssueOutInput, ReverseInput, write_movement, issue_out,
  reverse_issue_out,
}

module _ ⦃d : DecimalLib⦄ where
  pub own_pair : (b : StockBalance) → is_pair b.company_id b.godown_id b.item_id b ≡ true
  own_pair b =
      rw (text_eq_refl b.company_id)
        (rw (text_eq_refl b.godown_id) (rw (text_eq_refl b.item_id) refl))

  -- The balance row that a movement leaves, read from the movement and from what it is made of.
  abbrev pub row_of : StockMovement → StockBalance
  row_of m = record {
    company_id = m.company_id;
    godown_id = m.godown_id;
    item_id = m.item_id;
    quantity_on_hand = fixed m.balance_qty_after;
    total_value = fixed m.balance_value_after;
    avg_rate = fixed_rate m.avg_rate_after;
  }

  abbrev pub row_after : NewStockMovement → StockBalance
  row_after n = record {
    company_id = n.company_id;
    godown_id = n.godown_id;
    item_id = n.item_id;
    quantity_on_hand = fixed n.balance_after.qty;
    total_value = fixed n.balance_after.value;
    avg_rate = fixed_rate (average_rate n.balance_after);
  }

  pub upsert-find :
      (b : StockBalance) (rows : List StockBalance)
      → find (is_pair b.company_id b.godown_id b.item_id) (upsert b rows) ≡ some b
  unfolding upsert
  upsert-find b [] = rw (own_pair b) refl
  upsert-find b (r ∷ rows) = elim (Bool-cases (is_pair b.company_id b.godown_id b.item_id r)) [
    | inl t ↦ rw t (rw (own_pair b) refl)
    | inr t ↦ rw t (rw t (upsert-find b rows))
  ]

  pub create-ok :
      (input : NewStockMovement) (id : Text) (now : ℕ) {m : StockMovement}
      → create input id now ≡ ok m
      → row_of m ≡ row_after input
  unfolding create
  create-ok input id now h =
      let (u, positive, h1) = >>=-eq-ok (assert_positive input.quantity) _ h in
      let (v, non_negative, h2) = >>=-eq-ok (assert_non_negative input.value) _ h1 in
      rw (← ok_inj h2) refl

  pub current_row :
      (c g i : Text) (s : StockState) (b : StockBalance) {prev : Balance} {t : StockState}
      → balance_row c g i s ≡ some b
      → current_balance_for_update c g i s ≡ (ok prev, t)
      → prev ≡ record { qty = b.quantity_on_hand; value = b.total_value }
  unfolding current_balance_for_update
  current_row c g i s b found h =
      ok_inj (sym (ap (λ q. q.0) h) ∙ ap (λ o. (or_zero_row c g i o s).0) found)

  module _ (new_id : ℕ → Text) (clock : ℕ → ℕ) where
    -- A method that has written its movement leaves the movement's snapshot in the balance row.
    write_movement-row :
        (input : NewStockMovement) (s : StockState) {id : Text} {t : StockState}
        → write_movement new_id clock input s ≡ (ok id, t)
        → balance_row input.company_id input.godown_id input.item_id t ≡ some (row_after input)
    unfolding write_movement append
    write_movement-row input s h = after_bind _ _ s h λ id s1 i h1.
        after_bind _ _ s1 h1 λ u s2 c h2. after_bind _ _ s2 h2 λ now s3 n h3.
          after_bind _ _ s3 h3 λ v s4 k h4. after_bind _ _ s4 h4 λ m s5 made h5.
            after_bind (append m) _ s5 h5 λ w s6 written h6.
              let row = create-ok input id now (lift-ok (create input id now) made).0 in
              let balances =
                ap (λ z. z.balances) (sym (pure-eq h6).1)
                ∙ ap (λ q. q.1.balances) (sym written)
                ∙ ap (λ b. upsert b s5.balances) row in
              ap (find (is_pair input.company_id input.godown_id input.item_id)) balances
              ∙ upsert-find (row_after input) s5.balances

    issue_out-ok :
        (ctx : PostCtx) (input : IssueOutInput) (s : StockState) (b : StockBalance) {v rate : Num}
        {id : Text} {t : StockState}
        → balance_row ctx.company_id input.godown_id input.item_id s ≡ some b
        → issue_out new_id clock ctx input s ≡ (ok (v, rate, id), t)
        → (r : IssueResult) × (value_issue
              (record { qty = b.quantity_on_hand; value = b.total_value })
              input.qty
              input.allow_negative
            ≡ ok r)
          × (r.issued_value ≡ v)
          × ((after : StockBalance) × (balance_row ctx.company_id input.godown_id input.item_id t
                ≡ some after)
              × (after.quantity_on_hand ≡ fixed r.new_balance.qty)
              × (after.total_value ≡ fixed r.new_balance.value))
    unfolding issue_out current_balance_for_update
    issue_out-ok ctx input s b found h =
        after_bind (current_balance_for_update ctx.company_id input.godown_id input.item_id) _ s h
          λ prev s1 read h1. after_bind _ _ s1 h1 λ r s2 valued h2.
            after_bind (write_movement new_id clock _) _ s2 h2 λ id s3 written h3.
              let prev_is =
                current_row ctx.company_id input.godown_id input.item_id s b found read in
              let row = write_movement-row _ s2 written in
              (
                r,
                ap (λ q. value_issue q input.qty input.allow_negative) (sym prev_is)
                    ∙ (lift-ok (value_issue prev input.qty input.allow_negative) valued).0,
                ap (λ q. q.0) (pure-eq h3).0,
                (
                  _,
                  ap (balance_row ctx.company_id input.godown_id input.item_id) (sym (pure-eq h3).1)
                      ∙ row,
                  refl,
                  refl,
                ),
              )

    reverse_issue_out-ok :
        (ctx : PostCtx) (input : ReverseInput) (s : StockState) (b : StockBalance) {id : Text}
        {t : StockState}
        → balance_row ctx.company_id input.godown_id input.item_id s ≡ some b
        → reverse_issue_out new_id clock ctx input s ≡ (ok id, t)
        → (r : Balance) × (apply_transfer_in
              (record { qty = b.quantity_on_hand; value = b.total_value })
              input.qty
              input.value
            ≡ ok r)
          × ((after : StockBalance) × (balance_row ctx.company_id input.godown_id input.item_id t
                ≡ some after)
              × (after.quantity_on_hand ≡ fixed r.qty)
              × (after.total_value ≡ fixed r.value))
    unfolding reverse_issue_out current_balance_for_update
    reverse_issue_out-ok ctx input s b found h =
        after_bind (current_balance_for_update ctx.company_id input.godown_id input.item_id) _ s h
          λ prev s1 read h1. after_bind _ _ s1 h1 λ r s2 restored written.
            let prev_is = current_row ctx.company_id input.godown_id input.item_id s b found read in
            let row = write_movement-row _ s2 written in
            (
              r,
              ap (λ q. apply_transfer_in q input.qty input.value) (sym prev_is)
                  ∙ (lift-ok (apply_transfer_in prev input.qty input.value) restored).0,
              (_, row, refl, refl),
            )

module _ ⦃d : DecimalLib⦄ (x : Exact d) (new_id : ℕ → Text) (clock : ℕ → ℕ) where
  -- A figure that was taken out, rounded to the column and put back, with the rounding again.
  restored_figure :
      (a q m p : Num)
      → x.IsStored a
      → x.IsStored q
      → Fits (x.units a -ℤ x.units q)
      → m ≡ d.minus a q
      → p ≡ d.plus (fixed m) q
      → x.units (fixed p) ≡ x.units a
  restored_figure a q m p ha hq fits out back =
      let m_stored : x.IsStored m = subst x.IsStored (sym out) (x.minus_stored a q ha hq fits) in
      let m_units : x.units m ≡ x.units a -ℤ x.units q = ap x.units out ∙ x.minus_units a q ha hq in
      let f_units : x.units (fixed m) ≡ x.units a -ℤ x.units q =
        x.round_units m m_stored ∙ m_units in
      let f_stored : x.IsStored (fixed m) = x.round_stored m (subst Fits (sym f_units) fits) in
      let sum : x.units (fixed m) +ℤ x.units q ≡ x.units a =
        ap (λ z. z +ℤ x.units q) f_units ∙ sub_add _ _ in
      let p_units : x.units p ≡ x.units a =
        ap x.units back ∙ x.plus_units (fixed m) q f_stored hq ∙ sum in
      let p_stored : x.IsStored p =
        subst x.IsStored (sym back)
          (x.plus_stored (fixed m) q f_stored hq (subst Fits (sym sum) (x.stored_fits a ha))) in
      x.round_units p p_stored ∙ p_units

  -- An issue that is reversed with the value it was issued at leaves the balance row with the quantity and
  -- the value that it had before, given that the figures fit their columns.
  pub reverse_issue_out_restores :
      (ctx : PostCtx) (input : IssueOutInput) (s : StockState) (b : StockBalance) {v rate : Num}
      {id : Text} {t : StockState} {id2 : Text} {t2 : StockState}
      → balance_row ctx.company_id input.godown_id input.item_id s ≡ some b
      → x.IsStored b.quantity_on_hand
      → x.IsStored b.total_value
      → x.IsStored input.qty
      → x.IsStored v
      → Fits (x.units b.quantity_on_hand -ℤ x.units input.qty)
      → Fits (x.units b.total_value -ℤ x.units v)
      → issue_out new_id clock ctx input s ≡ (ok (v, rate, id), t)
      → reverse_issue_out new_id clock ctx
          (record {
            godown_id = input.godown_id;
            item_id = input.item_id;
            qty = input.qty;
            value = v;
            source_id = input.source_id;
          })
          t
        ≡ (ok id2, t2)
      → (after : StockBalance) × (balance_row ctx.company_id input.godown_id input.item_id t2
          ≡ some after)
        × (x.units after.quantity_on_hand ≡ x.units b.quantity_on_hand)
        × (x.units after.total_value ≡ x.units b.total_value)
  reverse_issue_out_restores ctx input s b {v} {t} found hq hv hi hout fits_qty fits_value issued
        reversed =
      let (r, valued, value_is, mid) = issue_out-ok new_id clock ctx input s b found issued in
      let (m, mid_row, mid_qty, mid_value) = mid in
      let (r2, restored, last) = reverse_issue_out-ok new_id clock ctx _ t m mid_row reversed in
      let (after, after_row, after_qty, after_value) = last in
      let (positive, enough, amount, new_qty, new_value) =
        value_issue-ok _ input.qty input.allow_negative valued in
      let (back_qty, back_value) = apply_transfer_in-ok _ input.qty v restored in
      (
        after,
        after_row,
        ap x.units after_qty
            ∙ restored_figure b.quantity_on_hand input.qty r.new_balance.qty r2.qty hq hi fits_qty
                new_qty (back_qty ∙ ap (λ z. d.plus z input.qty) mid_qty),
        ap x.units after_value
            ∙ restored_figure b.total_value v r.new_balance.value r2.value hv hout fits_value
                (new_value ∙ ap (λ z. d.minus b.total_value z) value_is)
                (back_value ∙ ap (λ z. d.plus z v) mid_value),
      )
