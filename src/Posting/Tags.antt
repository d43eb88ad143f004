-- ===== src/Posting/Tags.antt =====
-- The tag matrix (core/posting/domain/tag-matrix.ts): which dimensions a line must carry.
pub mod Complete
use construction_erp_nestjs.Prelude.{
  Option, none, some, Bool, true, false, ◌&&◌, List, [], ◌∷◌, if◌then◌else◌, not,
}
use construction_erp_nestjs.Errors.{ErrorCode, Result, ok, throw_if, ◌>>◌}
use construction_erp_nestjs.Decimal.{DecimalLib}
use construction_erp_nestjs.Prelude.Text.{Text}
use construction_erp_nestjs.Posting.Command.{
  VoucherType, AccountType, PostingLine, PostingCommand, is_missing,
}

pub data DimKey : Type 0 where
  project cost_centre purpose godown : DimKey

-- `REQUIRED`, the flat list of each voucher type.
unfoldable pub required : VoucherType → List DimKey
required VoucherType.sales_ipc = project ∷ cost_centre ∷ purpose ∷ []
required VoucherType.purchase = project ∷ cost_centre ∷ purpose ∷ godown ∷ []
required VoucherType.stock_journal = project ∷ cost_centre ∷ purpose ∷ godown ∷ []
required VoucherType.payment = []
required VoucherType.receipt = cost_centre ∷ purpose ∷ []
required VoucherType.salary = project ∷ cost_centre ∷ purpose ∷ []
required VoucherType.daily_labour_accrual = project ∷ cost_centre ∷ purpose ∷ []
required VoucherType.journal = []
required VoucherType.contra = []
required VoucherType.opening = []

-- `line.accountType && PNL_TYPES.has(line.accountType)`.
unfoldable pub is_pnl : Option AccountType → Bool
is_pnl (some AccountType.income) = true
is_pnl (some AccountType.expense) = true
is_pnl _ = false

-- `isStockLine === false`.
abbrev pub is_false : Option Bool → Bool
is_false none = false
is_false (some b) = not b

abbrev pub is_true : Option Bool → Bool
is_true none = false
is_true (some b) = b

module _ ⦃d : DecimalLib⦄ where
  -- `line[dim]`.
  unfoldable pub dimension : DimKey → PostingLine → Option Text
  dimension project l = l.project_id
  dimension cost_centre l = l.cost_centre_id
  dimension purpose l = l.purpose_id
  dimension godown l = l.godown_id

  abbrev pnl_dims : PostingLine → List DimKey
  pnl_dims l = if is_pnl l.account_type then project ∷ cost_centre ∷ purpose ∷ [] else []

  unfoldable pub required_dims : VoucherType → PostingLine → List DimKey
  unfolding is_pnl required
  required_dims VoucherType.journal l = pnl_dims l
  required_dims VoucherType.opening l = pnl_dims l
  required_dims VoucherType.payment l = pnl_dims l
  required_dims VoucherType.purchase l =
      if is_false l.is_stock_line
      then project ∷ cost_centre ∷ purpose ∷ []
      else required VoucherType.purchase
  required_dims v l = required v

  -- The inner loop: the first required dimension that is missing throws.
  unfoldable pub assert_dims : List DimKey → PostingLine → Result (Unit {0})
  unfolding dimension
  assert_dims [] l = ok tt
  assert_dims (k ∷ ks) l =
      throw_if (is_missing (dimension k l)) ErrorCode.missing_dimension >> assert_dims ks l

  unfoldable pub assert_line : VoucherType → PostingLine → Result (Unit {0})
  unfolding required_dims assert_dims
  assert_line v l =
      assert_dims (required_dims v l) l
      >> throw_if (is_true l.is_control_account && is_missing l.party_id)
          ErrorCode.missing_dimension

  unfoldable pub assert_lines : VoucherType → List PostingLine → Result (Unit {0})
  assert_lines v [] = ok tt
  assert_lines v (l ∷ ls) = assert_line v l >> assert_lines v ls

  -- `OverviewTagMatrix.assert`.
  unfoldable pub assert_tags : PostingCommand → Result (Unit {0})
  assert_tags cmd = assert_lines cmd.voucher_type cmd.lines
