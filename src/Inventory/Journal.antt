-- ===== src/Inventory/Journal.antt =====
-- The edits and transitions of the stock journal (modules/inventory/domain/stock-journal.ts).
pub mod Lifecycle
pub mod Reach
use construction_erp_nestjs.Prelude.{
  ℕ, Option, none, some, Bool, true, false, not, List, is_some, get_or_default,
}
use construction_erp_nestjs.Prelude.Text.{Text}
use construction_erp_nestjs.Errors.{ErrorCode, Result, ok, throw_if, ◌>>=◌, ◌>>◌}
use construction_erp_nestjs.Decimal.{DecimalLib, Num}
use construction_erp_nestjs.Inventory.Draft.{
  StockJournalMode, StockJournalStatus, draft, approved, posted, cancelled, StockJournalLine,
  NewStockJournal, StockJournal, create_draft,
}

module _ ⦃d : DecimalLib⦄ where
  -- `Partial<NewStockJournal>`: `none` is `undefined`; for a field that may be null, `some none` is null.
  pub record StockJournalPatch : Type 0 where
    pub voucher_date : Option Text
    pub mode : Option (Option StockJournalMode)
    pub from_godown_id : Option (Option Text)
    pub to_godown_id : Option (Option Text)
    pub item_id : Option Text
    pub quantity : Option (Option Num)
    pub project_id : Option Text
    pub cost_centre_id : Option Text
    pub purpose_id : Option Text
    pub issued_by_id : Option (Option Text)
    pub received_by_id : Option (Option Text)
    pub narration : Option (Option Text)

  abbrev pub merged : StockJournalPatch → StockJournal → NewStockJournal
  merged patch j = record {
    voucher_date = get_or_default patch.voucher_date j.voucher_date;
    mode = get_or_default patch.mode (some j.mode);
    from_godown_id = get_or_default patch.from_godown_id j.from_godown_id;
    to_godown_id = get_or_default patch.to_godown_id j.to_godown_id;
    item_id = get_or_default patch.item_id j.item_id;
    quantity = get_or_default patch.quantity (some j.quantity);
    project_id = get_or_default patch.project_id j.project_id;
    cost_centre_id = get_or_default patch.cost_centre_id j.cost_centre_id;
    purpose_id = get_or_default patch.purpose_id j.purpose_id;
    issued_by_id = get_or_default patch.issued_by_id j.issued_by_id;
    received_by_id = get_or_default patch.received_by_id j.received_by_id;
    narration = get_or_default patch.narration j.narration;
  }

  abbrev pub is_draft : StockJournalStatus → Bool
  is_draft s = elim s [ draft ↦ true | _ ↦ false ]

  abbrev pub is_approved : StockJournalStatus → Bool
  is_approved s = elim s [ approved ↦ true | _ ↦ false ]

  abbrev pub is_posted : StockJournalStatus → Bool
  is_posted s = elim s [ posted ↦ true | _ ↦ false ]

  abbrev pub is_cancelled : StockJournalStatus → Bool
  is_cancelled s = elim s [ cancelled ↦ true | _ ↦ false ]

  -- Every field comes from the rebuilt draft, but for the version.
  unfoldable pub edit_draft : StockJournalPatch → StockJournal → Result StockJournal
  unfolding create_draft
  edit_draft patch j = do
    throw_if (not (is_draft j.status)) ErrorCode.invalid_stock_journal_transition
    rebuilt ← create_draft j.id j.company_id j.financial_year_id (merged patch j)
    ok (record rebuilt { version = j.version })

  unfoldable pub approve : Text → ℕ → StockJournal → Result StockJournal
  approve approver now j = do
    throw_if (not (is_draft j.status)) ErrorCode.invalid_stock_journal_transition
    ok (record j { status = approved; approved_by_id = some approver; approved_at = some now })

  unfoldable pub assert_postable : StockJournal → Result (Unit {0})
  assert_postable j = throw_if (not (is_approved j.status)) ErrorCode.stock_journal_not_approved

  unfoldable pub assert_posted : StockJournal → Result (Unit {0})
  assert_posted j = do
    throw_if (is_cancelled j.status) ErrorCode.already_reversed
    throw_if (not (is_posted j.status)) ErrorCode.invalid_stock_journal_transition

  unfoldable pub record_negative_stock_authorisation :
      Option Text → Option Text → StockJournal → StockJournal
  record_negative_stock_authorisation authorised_by reason j = record j {
    allow_negative_stock = is_some authorised_by;
    negative_stock_authorised_by_id = authorised_by;
    negative_stock_reason = reason;
  }

  unfoldable pub mark_posted :
      Option Text
      → Option Text
      → Num
      → Num
      → List StockJournalLine
      → Text
      → ℕ
      → StockJournal
      → Result StockJournal
  unfolding assert_postable
  mark_posted entry_no journal_entry_id rate value lines posted_by now j = do
    assert_postable j
    ok (record j {
      status = posted;
      entry_no = entry_no;
      journal_entry_id = journal_entry_id;
      rate = some rate;
      value = some value;
      lines = lines;
      posted_by_id = some posted_by;
      posted_at = some now;
    })

  unfoldable pub mark_cancelled : StockJournal → Result StockJournal
  unfolding assert_posted
  mark_cancelled j = do assert_posted j; ok (record j { status = cancelled })

  unfoldable pub assert_editable : StockJournal → Result (Unit {0})
  assert_editable j = throw_if (not (is_draft j.status)) ErrorCode.voucher_posted_immutable
