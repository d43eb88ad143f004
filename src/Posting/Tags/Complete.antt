-- ===== src/Posting/Tags/Complete.antt =====
-- The tag matrix against an independent description, dimension by dimension, as the header of
-- core/posting/domain/tag-matrix.ts and the overview's section 5.1 put it.
use construction_erp_nestjs.Prelude.{
  ◌≡◌, ◌↔◌, Option, Bool, true, false, ◌&&◌, ◌||◌, not, List, [], ◌∷◌, All, arith,
}
use construction_erp_nestjs.Errors.{ok}
use construction_erp_nestjs.Decimal.{DecimalLib}
use construction_erp_nestjs.Posting.Command.{VoucherType, PostingLine, PostingCommand, is_missing}
use construction_erp_nestjs.Posting.Tags.{
  DimKey, project, cost_centre, purpose, godown, is_pnl, is_true, is_false, dimension, assert_line,
  assert_lines, assert_tags,
}

-- The vouchers whose every line is a cost or an income of a project.
abbrev pub is_project_voucher : VoucherType → Bool
is_project_voucher VoucherType.sales_ipc = true
is_project_voucher VoucherType.purchase = true
is_project_voucher VoucherType.stock_journal = true
is_project_voucher VoucherType.salary = true
is_project_voucher VoucherType.daily_labour_accrual = true
is_project_voucher _ = false

-- The vouchers that mix profit-and-loss lines with balance-sheet lines.
abbrev pub is_mixed_voucher : VoucherType → Bool
is_mixed_voucher VoucherType.journal = true
is_mixed_voucher VoucherType.opening = true
is_mixed_voucher VoucherType.payment = true
is_mixed_voucher _ = false

abbrev pub is_receipt : VoucherType → Bool
is_receipt VoucherType.receipt = true
is_receipt _ = false

-- The vouchers that move stock: always for a stock journal, and for a purchase unless the line is
-- marked as no stock line.
abbrev pub moves_stock : VoucherType → Option Bool → Bool
moves_stock VoucherType.stock_journal hint = true
moves_stock VoucherType.purchase hint = not (is_false hint)
moves_stock _ hint = false

module _ ⦃d : DecimalLib⦄ where
  abbrev pub requires : VoucherType → PostingLine → DimKey → Bool
  requires v l project = is_project_voucher v || (is_mixed_voucher v && is_pnl l.account_type)
  requires v l cost_centre =
      is_receipt v || is_project_voucher v || (is_mixed_voucher v && is_pnl l.account_type)
  requires v l purpose =
      is_receipt v || is_project_voucher v || (is_mixed_voucher v && is_pnl l.account_type)
  requires v l godown = moves_stock v l.is_stock_line

  -- The line carries the dimension wherever it is required.
  abbrev pub Carries : VoucherType → PostingLine → DimKey → Type 0
  Carries v l k = (requires v l k && is_missing (dimension k l)) ≡ false

  -- All required dimensions, and a party on a control account.
  abbrev pub IsTagged : VoucherType → PostingLine → Type 0
  IsTagged v l =
      Carries v l project
      × Carries v l cost_centre
      × Carries v l purpose
      × Carries v l godown
      × ((is_true l.is_control_account && is_missing l.party_id) ≡ false)

  assert_line_iff : (v : VoucherType) (l : PostingLine) → (assert_line v l ≡ ok tt) ↔ IsTagged v l
  unfolding assert_line
  assert_line_iff VoucherType.sales_ipc l = ground arith
  assert_line_iff _ l = ground arith

  assert_lines_iff :
      (v : VoucherType) (ls : List PostingLine) → (assert_lines v ls ≡ ok tt) ↔ All (IsTagged v) ls
  unfolding assert_lines
  assert_lines_iff v [] = ground arith
  assert_lines_iff v (l ∷ ls) = ground (arith, assert_line_iff v l, assert_lines_iff v ls)

  -- The tag matrix accepts a command exactly when every line carries each dimension that its voucher
  -- requires of it, and a party where it posts to a control account.
  pub assert_tags_iff :
      (cmd : PostingCommand) → (assert_tags cmd ≡ ok tt) ↔ All (IsTagged cmd.voucher_type) cmd.lines
  unfolding assert_tags
  assert_tags_iff cmd = assert_lines_iff cmd.voucher_type cmd.lines
