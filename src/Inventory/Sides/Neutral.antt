-- ===== src/Inventory/Sides/Neutral.antt =====
-- A transfer through the stock rows (modules/inventory/application/post-stock-journal.usecase.ts).
use construction_erp_nestjs.Prelude.{
  ℕ, ◌≡◌, ◌∙◌, refl, sym, ap, subst, some, Bool, false, List, [], ◌∷◌, find, Bool-cases, inl, inr,
  and_true,
}
use construction_erp_nestjs.Prelude.Int.{◌+ℤ◌, ◌-ℤ◌}
use construction_erp_nestjs.Prelude.Text.{Text, text_eq, text_eq_iff}
use construction_erp_nestjs.Errors.{ok}
use construction_erp_nestjs.Errors.Action.{after_bind, pure-eq, lift-ok}
use construction_erp_nestjs.Decimal.{DecimalLib, Exact, Fits, Num}
use construction_erp_nestjs.Inventory.Valuation.{
  Balance, IssueResult, value_issue, apply_transfer_in,
}
use construction_erp_nestjs.Inventory.Conserve.{
  IsStoredBalance, value_issue-ok, apply_transfer_in-ok, transfer_neutral,
}
use construction_erp_nestjs.Inventory.Movement.{MovementDirection, NewStockMovement, create}
use construction_erp_nestjs.Inventory.Store.{
  StockBalance, StockState, is_pair, balance_row, fixed, upsert, append, or_zero_row,
  current_balance_for_update,
}
use construction_erp_nestjs.Inventory.Store.Snapshot.{
  row_after, upsert-find, create-ok, current_row,
}
use construction_erp_nestjs.Inventory.Draft.{StockJournalLine, StockJournal}
use construction_erp_nestjs.Inventory.Sides.{
  Actor, PostedSide, movement_of, write_side, post_out, post_in,
}

apart_sym : (a b : Text) → text_eq a b ≡ false → text_eq b a ≡ false
apart_sym a b h = elim (Bool-cases (text_eq b a)) [
  | inl t ↦ let same = (text_eq_iff a b).1 (sym ((text_eq_iff b a).0 t)) in cc
  | inr t ↦ t
]

module _ ⦃d : DecimalLib⦄ where
  other_godown :
      (c g i : Text) (b : StockBalance) → text_eq b.godown_id g ≡ false → is_pair c g i b ≡ false
  other_godown c g i b apart = elim (Bool-cases (text_eq b.company_id c)) [
    | inl t ↦ rw t (rw apart refl)
    | inr t ↦ rw t refl
  ]

  -- An upsert leaves the rows of other godowns.
  upsert-other :
      (c g i : Text) (b : StockBalance) (rows : List StockBalance)
      → text_eq b.godown_id g ≡ false
      → find (is_pair c g i) (upsert b rows) ≡ find (is_pair c g i) rows
  unfolding upsert
  upsert-other c g i b [] apart = rw (other_godown c g i b apart) refl
  upsert-other c g i b (r ∷ rows) apart =
      elim (Bool-cases (is_pair b.company_id b.godown_id b.item_id r)) [
        | inl t ↦
            let (_, rest) = and_true (text_eq r.company_id b.company_id) _ t in
            let (same, _) = and_true (text_eq r.godown_id b.godown_id) _ rest in
            let r_apart : text_eq r.godown_id g ≡ false =
              ap (λ x. text_eq x g) ((text_eq_iff r.godown_id b.godown_id).0 same) ∙ apart in
            rw t (rw (other_godown c g i b apart) (rw (other_godown c g i r r_apart) refl))
        | inr t ↦ rw t (elim (Bool-cases (is_pair c g i r)) [
          | inl u ↦ rw u refl
          | inr u ↦ rw u (upsert-other c g i b rows apart)
        ])
      ]

  -- A row that is there is read without a change of the balances.
  current-balances :
      (c g i : Text) (s : StockState) (b : StockBalance) {prev : Balance} {t : StockState}
      → balance_row c g i s ≡ some b
      → current_balance_for_update c g i s ≡ (ok prev, t)
      → t.balances ≡ s.balances
  unfolding current_balance_for_update
  current-balances c g i s b found h =
      ap (λ q. q.1.balances) (sym h) ∙ ap (λ o. (or_zero_row c g i o s).1.balances) found

  abbrev pub balance_of : StockBalance → Balance
  balance_of b = record { qty = b.quantity_on_hand; value = b.total_value }

  module _ (new_id : ℕ → Text) (now : ℕ) (actor : Actor) where
    -- A movement sets the row of its own pair, and leaves those of other godowns.
    write_side-row :
        (input : NewStockMovement) (s : StockState) {u : Unit {0}} {t : StockState}
        → write_side new_id now actor input s ≡ (ok u, t)
        → (balance_row input.company_id input.godown_id input.item_id t ≡ some (row_after input))
          × ((c g i : Text)
              → text_eq input.godown_id g ≡ false
              → balance_row c g i t ≡ balance_row c g i s)
    unfolding write_side append
    write_side-row input s {t = t} h = after_bind _ _ s h λ id s1 drawn h1.
        after_bind _ _ s1 h1 λ m s2 made h2.
          let (is, same) = lift-ok (create input id now) {s = s1} made in
          let row = create-ok input id now is in
          let kept : s2.balances ≡ s.balances =
            ap (λ x. x.balances) (sym same) ∙ ap (λ q. q.1.balances) (sym drawn) in
          let balances : t.balances ≡ upsert (row_after input) s.balances =
            ap (λ q. q.1.balances) (sym h2) ∙ (λ i. upsert (row i) (kept i)) in
          (
            ap (find (is_pair input.company_id input.godown_id input.item_id)) balances
                ∙ upsert-find (row_after input) s.balances,
            λ c g i apart.
                ap (find (is_pair c g i)) balances
                ∙ upsert-other c g i (row_after input) s.balances apart,
          )

    post_out-row :
        (j : StockJournal) (allow : Bool) (l : StockJournalLine) (s : StockState) (b : StockBalance)
        {r : PostedSide} {t : StockState}
        → balance_row actor.company_id l.godown_id l.item_id s ≡ some b
        → post_out new_id now actor j allow l s ≡ (ok r, t)
        → (issue : IssueResult) × (value_issue (balance_of b) l.quantity allow ≡ ok issue)
          × (r.value ≡ issue.issued_value)
          × ((after : StockBalance) × (balance_row actor.company_id l.godown_id l.item_id t
                ≡ some after)
              × (after.quantity_on_hand ≡ fixed issue.new_balance.qty)
              × (after.total_value ≡ fixed issue.new_balance.value))
          × ((c g i : Text)
              → text_eq l.godown_id g ≡ false
              → balance_row c g i t ≡ balance_row c g i s)
    unfolding post_out
    post_out-row j allow l s b found h =
        after_bind (current_balance_for_update actor.company_id l.godown_id l.item_id) _ s h
          λ prev s1 read h1. after_bind _ _ s1 h1 λ issue s2 valued h2.
            after_bind _ _ s2 h2 λ u s3 written h3.
              let input =
                movement_of j l MovementDirection.out issue.rate issue.issued_value
                  issue.new_balance false actor in
              let (own, others) = write_side-row input s2 written in
              let (is, same) = lift-ok (value_issue prev l.quantity allow) {s = s1} valued in
              let prev_is = current_row actor.company_id l.godown_id l.item_id s b found read in
              let kept : s2.balances ≡ s.balances =
                ap (λ x. x.balances) (sym same)
                ∙ current-balances actor.company_id l.godown_id l.item_id s b found read in
              let last = sym (pure-eq h3).1 in
              (
                issue,
                ap (λ q. value_issue q l.quantity allow) (sym prev_is) ∙ is,
                ap (λ x. x.value) (sym (pure-eq h3).0),
                (
                  row_after input,
                  ap (balance_row actor.company_id l.godown_id l.item_id) last ∙ own,
                  refl,
                  refl,
                ),
                λ c g i apart.
                    ap (balance_row c g i) last
                    ∙ others c g i apart
                    ∙ ap (find (is_pair c g i)) kept,
              )

    post_in-row :
        (j : StockJournal) (rate value : Num) (l : StockJournalLine) (s : StockState)
        (b : StockBalance) {r : PostedSide} {t : StockState}
        → balance_row actor.company_id l.godown_id l.item_id s ≡ some b
        → post_in new_id now actor j rate value l s ≡ (ok r, t)
        → (now_there : Balance) × (apply_transfer_in (balance_of b) l.quantity value ≡ ok now_there)
          × ((after : StockBalance) × (balance_row actor.company_id l.godown_id l.item_id t
                ≡ some after)
              × (after.quantity_on_hand ≡ fixed now_there.qty)
              × (after.total_value ≡ fixed now_there.value))
          × ((c g i : Text)
              → text_eq l.godown_id g ≡ false
              → balance_row c g i t ≡ balance_row c g i s)
    unfolding post_in
    post_in-row j rate value l s b found h =
        after_bind (current_balance_for_update actor.company_id l.godown_id l.item_id) _ s h
          λ prev s1 read h1. after_bind _ _ s1 h1 λ r s2 received h2.
            after_bind _ _ s2 h2 λ u s3 written h3.
              let input = movement_of j l MovementDirection.in_ rate value r false actor in
              let (own, others) = write_side-row input s2 written in
              let (is, same) =
                lift-ok (apply_transfer_in prev l.quantity value) {s = s1} received in
              let prev_is = current_row actor.company_id l.godown_id l.item_id s b found read in
              let kept : s2.balances ≡ s.balances =
                ap (λ x. x.balances) (sym same)
                ∙ current-balances actor.company_id l.godown_id l.item_id s b found read in
              let last = sym (pure-eq h3).1 in
              (
                r,
                ap (λ q. apply_transfer_in q l.quantity value) (sym prev_is) ∙ is,
                (
                  row_after input,
                  ap (balance_row actor.company_id l.godown_id l.item_id) last ∙ own,
                  refl,
                  refl,
                ),
                λ c g i apart.
                    ap (balance_row c g i) last
                    ∙ others c g i apart
                    ∙ ap (find (is_pair c g i)) kept,
              )

    module _ (x : Exact d) where
      -- A figure that leaves: what is stored of it has the difference of the units.
      less_figure :
          (a q m : Num)
          → x.IsStored a
          → x.IsStored q
          → Fits (x.units a -ℤ x.units q)
          → m ≡ d.minus a q
          → x.units (fixed m) ≡ x.units m
      less_figure a q m ha hq fits is =
          x.round_units m (subst x.IsStored (sym is) (x.minus_stored a q ha hq fits))

      more_figure :
          (a q m : Num)
          → x.IsStored a
          → x.IsStored q
          → Fits (x.units a +ℤ x.units q)
          → m ≡ d.plus a q
          → x.units (fixed m) ≡ x.units m
      more_figure a q m ha hq fits is =
          x.round_units m (subst x.IsStored (sym is) (x.plus_stored a q ha hq fits))

      -- A transfer between the rows of two godowns keeps what they hold together, in quantity and in
      -- value, when the figures before and after fit their columns.
      pub transfer_keeps_rows :
          (j : StockJournal) (allow : Bool) (o i : StockJournalLine) (s : StockState)
          (source target : StockBalance) {r r2 : PostedSide} {t u : StockState}
          → text_eq o.godown_id i.godown_id ≡ false
          → i.quantity ≡ o.quantity
          → balance_row actor.company_id o.godown_id o.item_id s ≡ some source
          → balance_row actor.company_id i.godown_id i.item_id s ≡ some target
          → IsStoredBalance x (balance_of source)
          → IsStoredBalance x (balance_of target)
          → x.IsStored o.quantity
          → x.IsStored r.value
          → Fits (x.units source.quantity_on_hand -ℤ x.units o.quantity)
          → Fits (x.units source.total_value -ℤ x.units r.value)
          → Fits (x.units target.quantity_on_hand +ℤ x.units o.quantity)
          → Fits (x.units target.total_value +ℤ x.units r.value)
          → post_out new_id now actor j allow o s ≡ (ok r, t)
          → post_in new_id now actor j r.rate r.value i t ≡ (ok r2, u)
          → (source2 : StockBalance) × (target2 : StockBalance) × (balance_row actor.company_id
                o.godown_id o.item_id u
              ≡ some source2)
            × (balance_row actor.company_id i.godown_id i.item_id u ≡ some target2)
            × (x.units source2.quantity_on_hand +ℤ x.units target2.quantity_on_hand
                ≡ x.units source.quantity_on_hand +ℤ x.units target.quantity_on_hand)
            × (x.units source2.total_value +ℤ x.units target2.total_value
                ≡ x.units source.total_value +ℤ x.units target.total_value)
      transfer_keeps_rows j allow o i s source target {r} {t = t} apart same row1 row2 hs ht hq hv
            f1 f2 f3 f4 issued received =
          let (issue, valued, worth, after1, kept1) = post_out-row j allow o s source row1 issued in
          let (a1, a1_row, a1_qty, a1_value) = after1 in
          let row2_t = kept1 actor.company_id i.godown_id i.item_id apart ∙ row2 in
          let (there, entered, after2, kept2) =
            post_in-row j r.rate r.value i t target row2_t received in
          let (a2, a2_row, a2_qty, a2_value) = after2 in
          let (_, _, _, out_qty, out_value) = value_issue-ok _ o.quantity allow valued in
          let entered2 : apply_transfer_in (balance_of target) o.quantity issue.issued_value
              ≡ ok there =
            (λ k. apply_transfer_in (balance_of target) (sym same k) (sym worth k)) ∙ entered in
          let (in_qty, in_value) = apply_transfer_in-ok _ o.quantity issue.issued_value entered2 in
          let hv2 = subst x.IsStored worth hv in
          let (qtys, values) =
            transfer_neutral x (balance_of source) (balance_of target) o.quantity allow hs ht hq hv2
              valued entered2 in
          (
            a1,
            a2,
            kept2 actor.company_id o.godown_id o.item_id (apart_sym o.godown_id i.godown_id apart)
                ∙ a1_row,
            a2_row,
            (λ k.
                  (ap x.units a1_qty
                      ∙ less_figure _ o.quantity issue.new_balance.qty hs.qty hq f1 out_qty)
                    k
                  +ℤ (ap x.units a2_qty ∙ more_figure _ o.quantity there.qty ht.qty hq f3 in_qty) k)
                ∙ qtys,
            (λ k.
                  (ap x.units a1_value
                      ∙ less_figure _ issue.issued_value issue.new_balance.value hs.value hv2
                          (subst (λ v. Fits (x.units source.total_value -ℤ x.units v)) worth f2)
                          out_value)
                    k
                  +ℤ (ap x.units a2_value
                        ∙ more_figure _ issue.issued_value there.value ht.value hv2
                            (subst (λ v. Fits (x.units target.total_value +ℤ x.units v)) worth f4)
                            in_value)
                      k)
                ∙ values,
          )
