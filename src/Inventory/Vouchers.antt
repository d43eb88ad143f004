-- ===== src/Inventory/Vouchers.antt =====
-- Stock journals are posted and reversed (modules/inventory/application: post-stock-journal.usecase.ts
-- and reverse-stock-journal.usecase.ts, over infrastructure/typeorm-stock-journal.repository.ts). The
-- state `S` is that of the posting service.
pub mod Once
pub mod Agreement
use construction_erp_nestjs.Prelude.{
  ℕ, suc, ◌+◌, Option, none, some, Bool, true, false, ◌&&◌, not, List, [], ◌∷◌, ◌++◌, find, map,
  any, if◌then◌else◌, get_or_default, ◌==◌,
}
use construction_erp_nestjs.Prelude.Text.{Text, text_eq, trim, is_empty, codes}
use construction_erp_nestjs.Errors.{ErrorCode, Failure, domain, ok, err}
use construction_erp_nestjs.Errors.Action.{
  Action, pure, lift, gets, modify, throws, throws_if, or_throw, for_each, ◌>>=◌, ◌>>◌,
}
use construction_erp_nestjs.Decimal.{DecimalLib, Num, of_number}
use construction_erp_nestjs.Posting.Command.{
  VoucherType, AccountType, Money, money_zero, NewLine, PostingLine, PostingCommand,
}
use construction_erp_nestjs.Posting.Entry.{JournalEntry}
use construction_erp_nestjs.Posting.Service.{Ports, post as post_entry, reverse as reverse_entry}
use construction_erp_nestjs.Inventory.Store.{StockState}
use construction_erp_nestjs.Inventory.Sides.{
  Actor, is_out, is_in, rate_of, value_of, line_of, when_there, post_out, post_in, mirror_side,
}
use construction_erp_nestjs.Inventory.Draft.{
  StockJournalSide, out, in_, StockJournalLine, StockJournal, with_valuation,
}
use construction_erp_nestjs.Inventory.Journal.{
  assert_postable, assert_posted, record_negative_stock_authorisation, mark_posted, mark_cancelled,
}

pub data JournalEvent : Type 0 where
  journal_posted journal_cancelled : JournalEvent

pub record JournalAudit : Type 0 where
  pub event : JournalEvent
  pub entity_id : Text
  pub actor_id : Text
  pub company_id : Text

pub record PostStockJournalInput : Type 0 where
  pub allow_negative_stock : Option Bool
  pub negative_stock_reason : Option Text

module _ ⦃d : DecimalLib⦄ where
  -- A row of `stock_journal` with its lines.
  pub record JournalRow : Type 0 where
    pub journal : StockJournal
    pub deleted : Bool

module _ ⦃d : DecimalLib⦄ (S : Type 0) where
  pub record JournalState : Type 0 where
    pub ledger : S
    pub stock : StockState
    pub journals : List JournalRow
    pub audit_log : List JournalAudit

  -- `InventoryAccountResolver`.
  pub record Accounts : Type 0 where
    pub inventory_account_of : Text → Text → Action S Text
    pub expense_account_of : Text → Action S Text

module _ ⦃d : DecimalLib⦄ where
  abbrev pub is_live : Text → Text → JournalRow → Bool
  is_live id company_id r =
      text_eq r.journal.id id && (text_eq r.journal.company_id company_id && not r.deleted)

  abbrev pub journal_of : Option JournalRow → Option StockJournal
  journal_of none = none
  journal_of (some r) = some r.journal

  abbrev pub is_version : StockJournal → ℕ → JournalRow → Bool
  is_version j expected r =
      text_eq r.journal.id j.id
      && (text_eq r.journal.company_id j.company_id && r.journal.version == expected)

  abbrev pub saved_row : StockJournal → ℕ → JournalRow → JournalRow
  saved_row j expected r =
      if is_version j expected r
      then record r {
        journal = record j {
          financial_year_id = r.journal.financial_year_id;
          version = suc expected;
        };
      }
      else r

  -- A line of the entry of a side, on its godown and dimensions.
  abbrev pub side_entry : StockJournalLine → Text → Money → Money → AccountType → PostingLine
  side_entry l account debit credit account_type = record {
    line = record {
      account_id = account;
      project_id = some l.project_id;
      cost_centre_id = some l.cost_centre_id;
      purpose_id = some l.purpose_id;
      godown_id = some l.godown_id;
      party_id = none;
      debit = debit;
      credit = credit;
      narration = none;
    };
    account_type = some account_type;
    is_control_account = some false;
    is_stock_line = none;
  }

  abbrev pub command_of : StockJournal → Actor → List PostingLine → PostingCommand
  command_of j actor lines = record {
    company_id = j.company_id;
    financial_year_id = j.financial_year_id;
    voucher_type = VoucherType.stock_journal;
    voucher_date = j.voucher_date;
    source_type = codes "STOCK_JOURNAL";
    source_id = j.id;
    posted_by = actor.user_id;
    narration = none;
    lines = lines;
  }

  -- An id that is there and not empty.
  abbrev pub named : Option Text → Option Text
  named none = none
  named (some id) = if is_empty id then none else some id

  abbrev pub entry_no_of : Option JournalEntry → Option Text
  entry_no_of none = none
  entry_no_of (some e) = some e.entry_no

  abbrev pub entry_id_of : Option JournalEntry → Option Text
  entry_id_of none = none
  entry_id_of (some e) = some e.id

module _ ⦃d : DecimalLib⦄ {S : Type 0} where
  abbrev pub on_stock : {A : Type 0} → Action StockState A → Action (JournalState S) A
  on_stock m s = ((m s.stock).0, record s { stock = (m s.stock).1 })

  abbrev pub on_ledger : {A : Type 0} → Action S A → Action (JournalState S) A
  on_ledger m s = ((m s.ledger).0, record s { ledger = (m s.ledger).1 })

  -- `findByIdForUpdate`.
  unfoldable pub find_journal : Text → Text → JournalState S → Option StockJournal
  find_journal id company_id s = journal_of (find (is_live id company_id) s.journals)

  -- `save(journal, expectedVersion)`: the row of that version, or a conflict.
  unfoldable pub save_journal : StockJournal → ℕ → Action (JournalState S) (Unit {0})
  save_journal j expected s =
      if any (is_version j expected) s.journals
      then (ok tt, record s { journals = map (saved_row j expected) s.journals })
      else (err (domain ErrorCode.optimistic_lock_conflict), s)

  abbrev pub audit : JournalAudit → Action (JournalState S) (Unit {0})
  audit r = modify (λ s. record s { audit_log = s.audit_log ++ (r ∷ []) })

  -- `buildPostingCommand`: no command where the two sides have one account, nor for a side that comes in
  -- alone.
  unfoldable pub build_posting_command :
      Accounts S
      → StockJournal
      → Option StockJournalLine
      → Option StockJournalLine
      → Num
      → Actor
      → Action S (Option PostingCommand)
  build_posting_command accounts j none ins value actor = pure none
  build_posting_command accounts j (some o) none value actor = do
    inventory ← accounts.inventory_account_of j.company_id j.item_id
    expense ← accounts.expense_account_of j.company_id
    pure (
        some (
          command_of j actor (
            side_entry o expense (record { amount = value }) money_zero AccountType.expense
            ∷ side_entry o inventory money_zero (record { amount = value }) AccountType.asset
            ∷ [])))
  build_posting_command accounts j (some o) (some i) value actor = do
    from ← accounts.inventory_account_of j.company_id j.item_id
    to ← accounts.inventory_account_of j.company_id j.item_id
    pure (
        if text_eq from to
        then none
        else some (
            command_of j actor (
              side_entry i to (record { amount = value }) money_zero AccountType.asset
              ∷ side_entry o from money_zero (record { amount = value }) AccountType.asset
              ∷ [])))

  -- `cmd ? await this.posting.post(cmd) : null`.
  abbrev pub post_if : Ports S → Option PostingCommand → Action S (Option JournalEntry)
  post_if p none = pure none
  post_if p (some cmd) = do e ← post_entry p cmd; pure (some e)

  -- `if (journalEntryId) await this.posting.reverse(…)`.
  abbrev pub reverse_if : Ports S → Option Text → Text → Text → Text → Action S (Unit {0})
  reverse_if p none company_id reason by = pure tt
  reverse_if p (some id) company_id reason by = do
    e ← reverse_entry p id company_id reason by
    pure tt

  module _ (p : Ports S) (accounts : Accounts S) (new_id : ℕ → Text) (clock : ℕ → ℕ) where
    abbrev pub read_clock : Action StockState ℕ
    read_clock s = (ok (clock s.clock_reads), record s { clock_reads = suc s.clock_reads })

    -- What follows the checks of `execute`, for a journal that carries the authorisation.
    unfoldable pub post_journal :
        Text → Actor → Bool → StockJournal → Action (JournalState S) (Option JournalEntry)
    unfolding post_out post_in build_posting_command mark_posted save_journal
    post_journal id actor allow_negative j = do
      now ← on_stock read_clock
      outs ←
          on_stock (when_there (post_out new_id now actor j allow_negative) (find is_out j.lines))
      ins ← on_stock (
          when_there (post_in new_id now actor j (rate_of outs) (value_of outs))
            (find is_in j.lines))
      cmd ← on_ledger (
          build_posting_command accounts j (find is_out j.lines) (find is_in j.lines)
            (value_of outs) actor)
      entry ← on_ledger (post_if p cmd)
      posted ← lift (
          mark_posted (entry_no_of entry) (entry_id_of entry) (rate_of outs) (value_of outs)
            (line_of outs ++ line_of ins) actor.user_id now j)
      save_journal posted posted.version
      audit (record {
        event = journal_posted;
        entity_id = id;
        actor_id = actor.user_id;
        company_id = actor.company_id;
      })
      pure entry

    -- `PostStockJournalUseCase.execute`.
    unfoldable pub post_stock_journal :
        Text → PostStockJournalInput → Actor → Action (JournalState S) (Option Text × Option Text)
    unfolding find_journal assert_postable record_negative_stock_authorisation post_journal trim
    post_stock_journal id input actor = do
      throws_if
          (get_or_default input.allow_negative_stock false
            && is_empty (trim (get_or_default input.negative_stock_reason [])))
          ErrorCode.validation
      found ← gets (find_journal id actor.company_id)
      journal ← or_throw found ErrorCode.not_found
      lift (assert_postable journal)
      entry ← post_journal id actor (get_or_default input.allow_negative_stock false) (
          if get_or_default input.allow_negative_stock false
          then record_negative_stock_authorisation (some actor.user_id) input.negative_stock_reason
              journal
          else record_negative_stock_authorisation none none journal)
      pure (entry_no_of entry, entry_id_of entry)

    -- `ReverseStockJournalUseCase.execute`.
    unfoldable pub reverse_stock_journal : Text → Text → Actor → Action (JournalState S) (Unit {0})
    unfolding find_journal assert_posted mirror_side mark_cancelled save_journal
    reverse_stock_journal id reason actor = do
      found ← gets (find_journal id actor.company_id)
      journal ← or_throw found ErrorCode.not_found
      lift (assert_posted journal)
      now ← on_stock read_clock
      for_each (λ l. on_stock (mirror_side new_id now actor journal l)) journal.lines
      on_ledger
          (reverse_if p (named journal.journal_entry_id) actor.company_id reason actor.user_id)
      cancelled ← lift (mark_cancelled journal)
      save_journal cancelled cancelled.version
      audit (record {
        event = journal_cancelled;
        entity_id = id;
        actor_id = actor.user_id;
        company_id = actor.company_id;
      })
