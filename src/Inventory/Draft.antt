-- ===== src/Inventory/Draft.antt =====
-- The stock journal as it is drafted (modules/inventory/domain: stock-journal.ts and
-- stock-journal-mode.ts).
pub mod Shape
use construction_erp_nestjs.Prelude.{
  ℕ, suc, ◌+◌, Option, none, some, Bool, true, false, ◌&&◌, not, List, [], ◌∷◌, ◌++◌, if◌then◌else◌,
  length, is_some,
}
use construction_erp_nestjs.Prelude.Text.{Text, text_eq, trim, is_empty}
use construction_erp_nestjs.Errors.{ErrorCode, Result, ok, throw, throw_if, ◌>>=◌, ◌>>◌}
use construction_erp_nestjs.Decimal.{DecimalLib, Num, of_number, is_finite, greater_than}

pub data StockJournalMode : Type 0 where
  transfer issue adjustment : StockJournalMode

pub data StockJournalStatus : Type 0 where
  draft approved posted cancelled : StockJournalStatus

pub data StockJournalSide : Type 0 where
  out in_ : StockJournalSide

pub record ModeSideRule : Type 0 where
  pub from_required : Bool
  pub to_required : Bool
  pub to_forbidden : Bool

unfoldable pub side_rule_for : StockJournalMode → ModeSideRule
side_rule_for transfer = record { from_required = true; to_required = true; to_forbidden = false }
side_rule_for issue = record { from_required = true; to_required = false; to_forbidden = true }
side_rule_for adjustment = record {
  from_required = false;
  to_required = false;
  to_forbidden = false;
}

abbrev pub is_adjustment : StockJournalMode → Bool
is_adjustment m = elim m [ adjustment ↦ true | _ ↦ false ]

abbrev pub is_transfer : StockJournalMode → Bool
is_transfer m = elim m [ transfer ↦ true | _ ↦ false ]

-- `req(v, field)`.
unfoldable pub req : Text → Result Text
unfolding trim
req v = do throw_if (is_empty (trim v)) ErrorCode.validation; ok (trim v)

abbrev some_unless_empty : Text → Option Text
some_unless_empty t = if is_empty t then none else some t

-- `clean(v)`.
unfoldable pub clean : Option Text → Option Text
unfolding trim
clean none = none
clean (some v) = some_unless_empty (trim v)

abbrev pub both_same : Option Text → Option Text → Bool
both_same none b = false
both_same (some a) none = false
both_same (some a) (some b) = text_eq a b

-- The presence of the two godowns that a mode asks for.
unfoldable pub assert_sides : StockJournalMode → Option Text → Option Text → Result (Unit {0})
unfolding side_rule_for
assert_sides mode from_godown to_godown = do
  throw_if ((side_rule_for mode).to_forbidden && is_some to_godown) ErrorCode.validation
  throw_if ((side_rule_for mode).from_required && not (is_some from_godown)) ErrorCode.validation
  throw_if ((side_rule_for mode).to_required && not (is_some to_godown)) ErrorCode.validation
  throw_if (is_adjustment mode && (not (is_some from_godown) && not (is_some to_godown)))
      ErrorCode.validation
  throw_if (is_transfer mode && both_same from_godown to_godown) ErrorCode.same_godown_transfer

-- A value that the program checks to be there, `none` when it is not one.
abbrev pub or_validation : {A : Type 0} → Option A → Result A
or_validation none = throw ErrorCode.validation
or_validation (some a) = ok a

module _ ⦃d : DecimalLib⦄ where
  -- `toQty`, from the number that `new Decimal(value)` makes, which is `none` when it throws.
  unfoldable pub to_qty : Option Num → Result Num
  to_qty none = throw ErrorCode.validation
  to_qty (some q) = do throw_if (not (is_finite q)) ErrorCode.validation; ok q

  pub record StockJournalLine : Type 0 where
    pub line_no : ℕ
    pub side : StockJournalSide
    pub godown_id : Text
    pub item_id : Text
    pub quantity : Num
    pub rate : Option Num
    pub value : Option Num
    pub project_id : Text
    pub cost_centre_id : Text
    pub purpose_id : Text

  pub record NewStockJournalLine : Type 0 where
    pub side : StockJournalSide
    pub godown_id : Text
    pub item_id : Text
    pub quantity : Option Num
    pub project_id : Text
    pub cost_centre_id : Text
    pub purpose_id : Text

  -- `StockJournalLine.create`.
  unfoldable pub create_line : NewStockJournalLine → ℕ → Result StockJournalLine
  unfolding to_qty req
  create_line input line_no = do
    quantity ← to_qty input.quantity
    throw_if (not (greater_than quantity (of_number 0))) ErrorCode.validation
    godown_id ← req input.godown_id
    item_id ← req input.item_id
    project_id ← req input.project_id
    cost_centre_id ← req input.cost_centre_id
    purpose_id ← req input.purpose_id
    ok (record {
      line_no = line_no;
      side = input.side;
      godown_id = godown_id;
      item_id = item_id;
      quantity = quantity;
      rate = none;
      value = none;
      project_id = project_id;
      cost_centre_id = cost_centre_id;
      purpose_id = purpose_id;
    })

  unfoldable pub with_valuation : Num → Num → StockJournalLine → StockJournalLine
  with_valuation rate value l = record l { rate = some rate; value = some value }

  -- The input of a draft: `mode` is `none` for a text that is no mode, and `quantity` for a value that is
  -- no number.
  pub record NewStockJournal : Type 0 where
    pub voucher_date : Text
    pub mode : Option StockJournalMode
    pub from_godown_id : Option Text
    pub to_godown_id : Option Text
    pub item_id : Text
    pub quantity : Option Num
    pub project_id : Text
    pub cost_centre_id : Text
    pub purpose_id : Text
    pub issued_by_id : Option Text
    pub received_by_id : Option Text
    pub narration : Option Text

  pub record StockJournal : Type 0 where
    pub id : Text
    pub company_id : Text
    pub financial_year_id : Text
    pub entry_no : Option Text
    pub voucher_date : Text
    pub mode : StockJournalMode
    pub status : StockJournalStatus
    pub from_godown_id : Option Text
    pub to_godown_id : Option Text
    pub item_id : Text
    pub quantity : Num
    pub rate : Option Num
    pub value : Option Num
    pub project_id : Text
    pub cost_centre_id : Text
    pub purpose_id : Text
    pub issued_by_id : Option Text
    pub received_by_id : Option Text
    pub approved_by_id : Option Text
    pub approved_at : Option ℕ
    pub allow_negative_stock : Bool
    pub negative_stock_authorised_by_id : Option Text
    pub negative_stock_reason : Option Text
    pub journal_entry_id : Option Text
    pub narration : Option Text
    pub posted_at : Option ℕ
    pub posted_by_id : Option Text
    pub version : ℕ
    pub lines : List StockJournalLine

  abbrev pub line_input :
      StockJournalSide → Text → Text → Num → Text → Text → Text → NewStockJournalLine
  line_input side godown item quantity project cost_centre purpose = record {
    side = side;
    godown_id = godown;
    item_id = item;
    quantity = some quantity;
    project_id = project;
    cost_centre_id = cost_centre;
    purpose_id = purpose;
  }

  -- `if (godownId) lines.push(StockJournalLine.create(…, lineNo++))`.
  unfoldable pub side_line :
      StockJournalSide
      → Option Text
      → Text
      → Num
      → Text
      → Text
      → Text
      → ℕ
      → Result (List StockJournalLine)
  unfolding create_line
  side_line side none item quantity project cost_centre purpose n = ok []
  side_line side (some godown) item quantity project cost_centre purpose n = do
    l ← create_line (line_input side godown item quantity project cost_centre purpose) n
    ok (l ∷ [])

  -- The header fields that `createDraft` checks before it makes the lines.
  pub record DraftHeader : Type 0 where
    pub mode : StockJournalMode
    pub quantity : Num
    pub project_id : Text
    pub cost_centre_id : Text
    pub purpose_id : Text
    pub item_id : Text

  unfoldable pub draft_header : NewStockJournal → Result DraftHeader
  unfolding clean assert_sides to_qty req
  draft_header input = do
    mode ← or_validation input.mode
    assert_sides mode (clean input.from_godown_id) (clean input.to_godown_id)
    quantity ← to_qty input.quantity
    throw_if (not (greater_than quantity (of_number 0))) ErrorCode.validation
    project_id ← req input.project_id
    cost_centre_id ← req input.cost_centre_id
    purpose_id ← req input.purpose_id
    item_id ← req input.item_id
    ok (record {
      mode = mode;
      quantity = quantity;
      project_id = project_id;
      cost_centre_id = cost_centre_id;
      purpose_id = purpose_id;
      item_id = item_id;
    })

  abbrev pub header_line :
      StockJournalSide → Option Text → DraftHeader → ℕ → Result (List StockJournalLine)
  header_line side godown h n =
      side_line side godown h.item_id h.quantity h.project_id h.cost_centre_id h.purpose_id n

  abbrev pub draft_journal :
      Text
      → Text
      → Text
      → NewStockJournal
      → DraftHeader
      → List StockJournalLine
      → Text
      → StockJournal
  draft_journal id company_id financial_year_id input h lines voucher_date = record {
    id = id;
    company_id = company_id;
    financial_year_id = financial_year_id;
    entry_no = none;
    voucher_date = voucher_date;
    mode = h.mode;
    status = draft;
    from_godown_id = clean input.from_godown_id;
    to_godown_id = clean input.to_godown_id;
    item_id = h.item_id;
    quantity = h.quantity;
    rate = none;
    value = none;
    project_id = h.project_id;
    cost_centre_id = h.cost_centre_id;
    purpose_id = h.purpose_id;
    issued_by_id = clean input.issued_by_id;
    received_by_id = clean input.received_by_id;
    approved_by_id = none;
    approved_at = none;
    allow_negative_stock = false;
    negative_stock_authorised_by_id = none;
    negative_stock_reason = none;
    journal_entry_id = none;
    narration = input.narration;
    posted_at = none;
    posted_by_id = none;
    version = 1;
    lines = lines;
  }

  -- `StockJournal.createDraft`.
  unfoldable pub create_draft : Text → Text → Text → NewStockJournal → Result StockJournal
  unfolding draft_header side_line
  create_draft id company_id financial_year_id input = do
    h ← draft_header input
    outs ← header_line out (clean input.from_godown_id) h 1
    ins ← header_line in_ (clean input.to_godown_id) h (1 + length outs)
    voucher_date ← req input.voucher_date
    ok (draft_journal id company_id financial_year_id input h (outs ++ ins) voucher_date)
