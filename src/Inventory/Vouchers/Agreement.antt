-- ===== src/Inventory/Vouchers/Agreement.antt =====
-- The stock and the ledger agree on what an issue is worth
-- (modules/inventory/application/post-stock-journal.usecase.ts).
use construction_erp_nestjs.Prelude.{◌≡◌, [], ◌∷◌}
use construction_erp_nestjs.Prelude.Text.{Text}
use construction_erp_nestjs.Errors.{ok}
use construction_erp_nestjs.Errors.Action.{Action}
use construction_erp_nestjs.Decimal.{DecimalLib, Num}
use construction_erp_nestjs.Posting.Command.{money_zero, AccountType, PostingCommand}
use construction_erp_nestjs.Inventory.Movement.{MovementDirection, StockMovement}
use construction_erp_nestjs.Inventory.Draft.{StockJournalLine, StockJournal}
use construction_erp_nestjs.Inventory.Sides.{Actor}
use construction_erp_nestjs.Inventory.Vouchers.{side_entry, command_of}

module _ ⦃d : DecimalLib⦄ where
  -- A movement that takes a quantity out at a value.
  pub record IsIssueOf (l : StockJournalLine) (value : Num) (m : StockMovement) : Type 0 where
    pub direction : m.direction ≡ MovementDirection.out
    pub godown : m.godown_id ≡ l.godown_id
    pub item : m.item_id ≡ l.item_id
    pub quantity : m.quantity ≡ l.quantity
    pub value_is : m.value ≡ value

module _ ⦃d : DecimalLib⦄ where
  -- The entry of an issue: the expense is debited and the inventory credited with its value.
  abbrev pub issue_command :
      StockJournal → Actor → StockJournalLine → Text → Text → Num → PostingCommand
  issue_command j actor o inventory expense value = command_of j actor (
      side_entry o expense (record { amount = value }) money_zero AccountType.expense
      ∷ side_entry o inventory money_zero (record { amount = value }) AccountType.asset
      ∷ [])

-- What an action answers in some state.
abbrev pub Answers : {S A : Type 0} → Action S A → A → Type 0
Answers {S} m a = (s : S) × (t : S) × (m s ≡ (ok a, t))
