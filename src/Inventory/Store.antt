-- ===== src/Inventory/Store.antt =====
-- The stock rows and the service over them (modules/inventory:
-- infrastructure/typeorm-stock-movement.repository.ts and application/inventory.service.ts).
pub mod Snapshot
use construction_erp_nestjs.Prelude.{
  ℕ, suc, ◌≡◌, Option, none, some, Bool, true, false, ◌&&◌, List, [], ◌∷◌, ◌++◌, find, any, map,
  if◌then◌else◌,
}
use construction_erp_nestjs.Prelude.Text.{Text, text_eq}
use construction_erp_nestjs.Errors.{ErrorCode, Result, ok}
use construction_erp_nestjs.Errors.Action.{Action, pure, lift, gets, modify, ◌>>=◌, ◌>>◌}
use construction_erp_nestjs.Decimal.{
  DecimalLib, Num, of_number, times, divided_by, to_decimal_places, is_zero,
}
use construction_erp_nestjs.Inventory.Valuation.{
  Balance, IssueResult, empty_balance, average_rate, apply_receipt, value_issue, apply_transfer_in,
}
use construction_erp_nestjs.Inventory.Movement.{
  MovementDirection, in_, out, MovementSourceType, grn, req_issue, StockMovement, NewStockMovement,
  create,
}

module _ ⦃d : DecimalLib⦄ where
  -- A row of `stock_balance`, the cache of the last movement of a pair.
  pub record StockBalance : Type 0 where
    pub company_id : Text
    pub godown_id : Text
    pub item_id : Text
    pub quantity_on_hand : Num
    pub total_value : Num
    pub avg_rate : Option Num

  pub record StockState : Type 0 where
    pub movements : List StockMovement
    pub balances : List StockBalance
    pub ids_drawn : ℕ
    pub clock_reads : ℕ

  abbrev pub is_pair : Text → Text → Text → StockBalance → Bool
  is_pair company_id godown_id item_id b =
      text_eq b.company_id company_id
      && (text_eq b.godown_id godown_id && text_eq b.item_id item_id)

  abbrev pub balance_row : Text → Text → Text → StockState → Option StockBalance
  balance_row c g i s = find (is_pair c g i) s.balances

  -- `toFixed(4)`, read back.
  abbrev pub fixed : Num → Num
  fixed = to_decimal_places 4

  abbrev pub fixed_rate : Option Num → Option Num
  fixed_rate none = none
  fixed_rate (some n) = some (fixed n)

  -- `INSERT … ON CONFLICT DO UPDATE`.
  unfoldable pub upsert : StockBalance → List StockBalance → List StockBalance
  upsert b [] = b ∷ []
  upsert b (r ∷ rows) =
      let later = upsert b rows in
      if is_pair b.company_id b.godown_id b.item_id r then b ∷ rows else r ∷ later

  -- `append`: the movement, and the cache set to its snapshot.
  unfoldable pub append : StockMovement → Action StockState (Unit {0})
  unfolding upsert
  append m s = (
    ok tt,
    record s {
      movements = s.movements ++ (m ∷ []);
      ids_drawn = suc s.ids_drawn;
      balances =
          upsert
            (record {
              company_id = m.company_id;
              godown_id = m.godown_id;
              item_id = m.item_id;
              quantity_on_hand = fixed m.balance_qty_after;
              total_value = fixed m.balance_value_after;
              avg_rate = fixed_rate m.avg_rate_after;
            })
            s.balances;
    },
  )

  abbrev pub zero_row : Text → Text → Text → StockBalance
  zero_row c g i = record {
    company_id = c;
    godown_id = g;
    item_id = i;
    quantity_on_hand = of_number 0;
    total_value = of_number 0;
    avg_rate = none;
  }

  -- `INSERT … ON CONFLICT DO NOTHING`, then the row under its lock.
  abbrev pub or_zero_row : Text → Text → Text → Option StockBalance → Action StockState Balance
  or_zero_row c g i (some b) s = (
    ok (record { qty = b.quantity_on_hand; value = b.total_value }),
    record s { ids_drawn = suc s.ids_drawn },
  )
  or_zero_row c g i none s = (
    ok (record { qty = of_number 0; value = of_number 0 }),
    record s { ids_drawn = suc s.ids_drawn; balances = s.balances ++ (zero_row c g i ∷ []) },
  )

  unfoldable pub current_balance_for_update : Text → Text → Text → Action StockState Balance
  current_balance_for_update c g i s = or_zero_row c g i (balance_row c g i s) s

  pub record PostCtx : Type 0 where
    pub company_id : Text
    pub voucher_date : Text
    pub posted_by : Text

  pub record ReceiveInInput : Type 0 where
    pub godown_id : Text
    pub item_id : Text
    pub qty : Num
    pub rate : Num
    pub source_id : Text

  pub record IssueOutInput : Type 0 where
    pub godown_id : Text
    pub item_id : Text
    pub qty : Num
    pub allow_negative : Bool
    pub source_id : Text

  pub record ReverseInput : Type 0 where
    pub godown_id : Text
    pub item_id : Text
    pub qty : Num
    pub value : Num
    pub source_id : Text

  -- `new_id n` and `clock n` are what the ports `IdGenerator` and `Clock` return at the n-th call.
  module _ (new_id : ℕ → Text) (clock : ℕ → ℕ) where
    -- The rest of each method: the movement is made with a fresh id and the time, and appended.
    unfoldable pub write_movement : NewStockMovement → Action StockState Text
    write_movement input = do
      id ← gets (λ s. new_id s.ids_drawn)
      modify (λ s. record s { ids_drawn = suc s.ids_drawn })
      now ← gets (λ s. clock s.clock_reads)
      modify (λ s. record s { clock_reads = suc s.clock_reads })
      movement ← lift (create input id now)
      append movement
      pure id

    -- What the four methods share.
    abbrev movement_of :
        PostCtx
        → Text
        → Text
        → MovementSourceType
        → Text
        → MovementDirection
        → Num
        → Num
        → Num
        → Balance
        → Bool
        → NewStockMovement
    movement_of ctx godown item source source_id direction qty rate value after is_reversal =
        record {
          company_id = ctx.company_id;
          godown_id = godown;
          item_id = item;
          source_type = source;
          source_id = source_id;
          direction = direction;
          quantity = qty;
          rate = rate;
          value = value;
          balance_after = after;
          is_reversal = is_reversal;
          reversal_of = none;
          voucher_date = ctx.voucher_date;
          posted_by = ctx.posted_by;
        }

    unfoldable pub receive_in : PostCtx → ReceiveInInput → Action StockState (Option Num)
    receive_in ctx input = do
      prev ← current_balance_for_update ctx.company_id input.godown_id input.item_id
      after ← lift (apply_receipt prev input.qty input.rate)
      write_movement (
            movement_of ctx input.godown_id input.item_id grn input.source_id in_ input.qty
              input.rate (times input.qty input.rate) after false)
          >>= λ _. pure (average_rate after)

    unfoldable pub issue_out : PostCtx → IssueOutInput → Action StockState (Num × Num × Text)
    issue_out ctx input = do
      prev ← current_balance_for_update ctx.company_id input.godown_id input.item_id
      issue ← lift (value_issue prev input.qty input.allow_negative)
      movement_id ← write_movement (
          movement_of ctx input.godown_id input.item_id req_issue input.source_id out input.qty
            issue.rate issue.issued_value issue.new_balance false)
      pure (issue.issued_value, issue.rate, movement_id)

    unfoldable pub reverse_issue_out : PostCtx → ReverseInput → Action StockState Text
    reverse_issue_out ctx input = do
      prev ← current_balance_for_update ctx.company_id input.godown_id input.item_id
      restored ← lift (apply_transfer_in prev input.qty input.value)
      write_movement (
          movement_of ctx input.godown_id input.item_id req_issue input.source_id in_ input.qty
            (if is_zero input.qty then of_number 0 else divided_by input.value input.qty)
            input.value restored true)

    unfoldable pub reverse_receipt : PostCtx → ReverseInput → Action StockState Text
    reverse_receipt ctx input = do
      prev ← current_balance_for_update ctx.company_id input.godown_id input.item_id
      issue ← lift (value_issue prev input.qty true)
      write_movement (
          movement_of ctx input.godown_id input.item_id grn input.source_id out input.qty issue.rate
            issue.issued_value issue.new_balance true)
