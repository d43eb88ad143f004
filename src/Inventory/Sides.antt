-- ===== src/Inventory/Sides.antt =====
-- The stock side of posting and reversing a stock journal (modules/inventory/application:
-- post-stock-journal.usecase.ts and reverse-stock-journal.usecase.ts).
pub mod Neutral
use construction_erp_nestjs.Prelude.{
  ℕ, suc, Option, none, some, Bool, true, false, List, [], ◌∷◌, if◌then◌else◌,
}
use construction_erp_nestjs.Prelude.Text.{Text}
use construction_erp_nestjs.Errors.{ok}
use construction_erp_nestjs.Errors.Action.{Action, pure, lift, gets, modify, ◌>>=◌, ◌>>◌}
use construction_erp_nestjs.Decimal.{DecimalLib, Num, of_number}
use construction_erp_nestjs.Inventory.Valuation.{Balance, value_issue, apply_transfer_in}
use construction_erp_nestjs.Inventory.Movement.{
  MovementDirection, MovementSourceType, NewStockMovement, create,
}
use construction_erp_nestjs.Inventory.Store.{StockState, append, current_balance_for_update}
use construction_erp_nestjs.Inventory.Draft.{
  out, in_, StockJournalLine, StockJournal, with_valuation,
}

pub record Actor : Type 0 where
  pub user_id : Text
  pub company_id : Text

module _ ⦃d : DecimalLib⦄ where
  abbrev pub is_out : StockJournalLine → Bool
  is_out l = elim l.side [ out ↦ true | in_ ↦ false ]

  abbrev pub is_in : StockJournalLine → Bool
  is_in l = elim l.side [ out ↦ false | in_ ↦ true ]

  -- The movement of a side of a journal.
  abbrev pub movement_of :
      StockJournal
      → StockJournalLine
      → MovementDirection
      → Num
      → Num
      → Balance
      → Bool
      → Actor
      → NewStockMovement
  movement_of j l direction rate value after is_reversal actor = record {
    company_id = actor.company_id;
    godown_id = l.godown_id;
    item_id = l.item_id;
    source_type = MovementSourceType.stock_journal;
    source_id = j.id;
    direction = direction;
    quantity = l.quantity;
    rate = rate;
    value = value;
    balance_after = after;
    is_reversal = is_reversal;
    reversal_of = none;
    voucher_date = j.voucher_date;
    posted_by = actor.user_id;
  }

  -- What a side that is posted gives on: its line, its rate and its value.
  pub record PostedSide : Type 0 where
    pub line : StockJournalLine
    pub rate : Num
    pub value : Num

  abbrev pub rate_of : Option PostedSide → Num
  rate_of none = of_number 0
  rate_of (some p) = p.rate

  abbrev pub value_of : Option PostedSide → Num
  value_of none = of_number 0
  value_of (some p) = p.value

  abbrev pub line_of : Option PostedSide → List StockJournalLine
  line_of none = []
  line_of (some p) = with_valuation p.rate p.value p.line ∷ []

  -- `if (line) …`.
  abbrev pub when_there :
      (StockJournalLine → Action StockState PostedSide)
      → Option StockJournalLine
      → Action StockState (Option PostedSide)
  when_there body none = pure none
  when_there body (some l) = do p ← body l; pure (some p)

  -- `new_id n` is what the port `IdGenerator` returns at the n-th call, and `now` the time that the use
  -- case has read.
  module _ (new_id : ℕ → Text) (now : ℕ) (actor : Actor) where
    abbrev pub next_id : Action StockState Text
    next_id s = (ok (new_id s.ids_drawn), record s { ids_drawn = suc s.ids_drawn })

    -- `StockMovement.create(…, this.ids.next(), now)` and `append`.
    unfoldable pub write_side : NewStockMovement → Action StockState (Unit {0})
    unfolding create append
    write_side input = do id ← next_id; movement ← lift (create input id now); append movement

    -- The side that stock leaves.
    unfoldable pub post_out : StockJournal → Bool → StockJournalLine → Action StockState PostedSide
    unfolding value_issue current_balance_for_update write_side
    post_out j allow_negative l = do
      prev ← current_balance_for_update actor.company_id l.godown_id l.item_id
      issue ← lift (value_issue prev l.quantity allow_negative)
      write_side (
          movement_of j l MovementDirection.out issue.rate issue.issued_value issue.new_balance
            false actor)
      pure (record { line = l; rate = issue.rate; value = issue.issued_value })

    -- The side that stock enters, with the rate and value of the other.
    unfoldable pub post_in :
        StockJournal → Num → Num → StockJournalLine → Action StockState PostedSide
    unfolding apply_transfer_in current_balance_for_update write_side
    post_in j rate value l = do
      prev ← current_balance_for_update actor.company_id l.godown_id l.item_id
      after ← lift (apply_transfer_in prev l.quantity value)
      write_side (movement_of j l MovementDirection.in_ rate value after false actor)
      pure (record { line = l; rate = rate; value = value })

    unfoldable pub mirror_out :
        StockJournal → Num → Num → StockJournalLine → Action StockState (Unit {0})
    unfolding apply_transfer_in current_balance_for_update write_side
    mirror_out j rate value l = do
      prev ← current_balance_for_update actor.company_id l.godown_id l.item_id
      restored ← lift (apply_transfer_in prev l.quantity value)
      write_side (movement_of j l MovementDirection.in_ rate value restored true actor)

    unfoldable pub mirror_in :
        StockJournal → Num → Num → StockJournalLine → Action StockState (Unit {0})
    unfolding value_issue current_balance_for_update write_side
    mirror_in j rate value l = do
      prev ← current_balance_for_update actor.company_id l.godown_id l.item_id
      issue ← lift (value_issue prev l.quantity true)
      write_side (movement_of j l MovementDirection.out rate value issue.new_balance true actor)

    -- One round of the loop of the reversal: a side without rate or value is passed over.
    unfoldable pub mirror_side : StockJournal → StockJournalLine → Action StockState (Unit {0})
    unfolding mirror_out mirror_in
    mirror_side j l = elim l.rate [
      | none ↦ pure tt
      | some rate ↦ elim l.value [
        | none ↦ pure tt
        | some value ↦ if is_out l then mirror_out j rate value l else mirror_in j rate value l
      ]
    ]
