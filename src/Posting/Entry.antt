-- ===== src/Posting/Entry.antt =====
-- Journal entries (core/posting/domain/journal-entry.ts): the structural invariants that hold by
-- construction, and the mirrored entry of a reversal.
pub mod Invariant
pub mod Net
use construction_erp_nestjs.Prelude.{
  ℕ, ◌+◌, Option, none, some, Bool, true, false, ◌||◌, not, List, [], ◌∷◌, ◌++◌, if◌then◌else◌, ltb,
  length,
}
use construction_erp_nestjs.Errors.{ErrorCode, Result, ok, throw, throw_if, ◌>>=◌, ◌>>◌}
use construction_erp_nestjs.Decimal.{DecimalLib, is_negative, is_zero, equals}
use construction_erp_nestjs.Prelude.Text.{Text, codes}
use construction_erp_nestjs.Posting.Command.{VoucherType, NewLine, Money, money_zero, money_plus}

module _ ⦃d : DecimalLib⦄ where
  pub record LineProps : Type 0 where
    pub account_id : Text
    pub project_id : Option Text
    pub cost_centre_id : Option Text
    pub purpose_id : Option Text
    pub godown_id : Option Text
    pub party_id : Option Text
    pub debit : Money
    pub credit : Money
    pub narration : Option Text

module _ ⦃d : DecimalLib⦄ where
  pub record JournalLine : Type 0 where
    pub line_no : ℕ
    pub props : LineProps
    pub open props use *

module _ ⦃d : DecimalLib⦄ where
  pub record NewEntry : Type 0 where
    pub company_id : Text
    pub financial_year_id : Text
    pub entry_no : Text
    pub voucher_type : VoucherType
    pub voucher_date : Text
    pub source_type : Text
    pub source_id : Text
    pub posted_by : Text
    pub narration : Option Text
    pub lines : List NewLine

module _ ⦃d : DecimalLib⦄ where
  pub record JournalEntry : Type 0 where
    pub id : Text
    pub company_id : Text
    pub financial_year_id : Text
    pub entry_no : Text
    pub voucher_type : VoucherType
    pub voucher_date : Text
    pub source_type : Text
    pub source_id : Text
    pub is_reversal : Bool
    pub reversal_of : Option Text
    pub posted_at : ℕ
    pub posted_by : Text
    pub narration : Option Text
    pub lines : List JournalLine

abbrev pub same : Bool → Bool → Bool
same true b = b
same false b = not b

module _ ⦃d : DecimalLib⦄ where
  -- `JournalLine.create`.
  unfoldable pub create_line : NewLine → ℕ → Result JournalLine
  create_line l n =
      if is_negative l.debit.amount || is_negative l.credit.amount
      then throw ErrorCode.invalid_line
      else if same (is_zero l.debit.amount) (is_zero l.credit.amount)
      then throw ErrorCode.invalid_line
      else ok (record {
        line_no = n;
        props = record {
          account_id = l.account_id;
          project_id = l.project_id;
          cost_centre_id = l.cost_centre_id;
          purpose_id = l.purpose_id;
          godown_id = l.godown_id;
          party_id = l.party_id;
          debit = l.debit;
          credit = l.credit;
          narration = l.narration;
        };
      })

  -- `JournalLine.swapped`.
  unfoldable pub swapped : JournalLine → ℕ → JournalLine
  swapped l n = record {
    line_no = n;
    props = record (l.props) { debit = l.credit; credit = l.debit };
  }

  -- `lines.map((l, i) => JournalLine.create(l, i + 1))`, from the line number `n`.
  unfoldable pub create_lines : List NewLine → ℕ → Result (List JournalLine)
  create_lines [] n = ok []
  create_lines (l ∷ ls) n = do j ← create_line l n; js ← create_lines ls (n + 1); ok (j ∷ js)

  unfoldable pub swap_lines : List JournalLine → ℕ → List JournalLine
  unfolding swapped
  swap_lines [] n = []
  swap_lines (l ∷ ls) n = swapped l n ∷ swap_lines ls (n + 1)

  -- `lines.reduce((s, l) => s.plus(l.debit), Money.zero())`, from the left; so for the credits.
  unfoldable pub sum_debit : Money → List JournalLine → Money
  unfolding money_plus
  sum_debit s [] = s
  sum_debit s (l ∷ ls) = sum_debit (money_plus s l.debit) ls

  unfoldable pub sum_credit : Money → List JournalLine → Money
  unfolding money_plus
  sum_credit s [] = s
  sum_credit s (l ∷ ls) = sum_credit (money_plus s l.credit) ls

  -- `totalDebit`.
  unfoldable pub total_debit : List JournalLine → Money
  unfolding sum_debit money_zero
  total_debit ls = sum_debit money_zero ls

  unfoldable pub total_credit : List JournalLine → Money
  unfolding sum_credit money_zero
  total_credit ls = sum_credit money_zero ls

  unfoldable pub assert_min_lines : List JournalLine → Result (Unit {0})
  assert_min_lines ls = throw_if (ltb (length ls) 2) ErrorCode.invalid_line

  unfoldable pub assert_balanced : List JournalLine → Result (Unit {0})
  assert_balanced ls =
      throw_if (not (equals (total_debit ls).amount (total_credit ls).amount))
        ErrorCode.ledger_imbalance

  -- The checks that `create` and `assertPostable` share.
  unfoldable pub checked_lines : List NewLine → Result (List JournalLine)
  checked_lines ls = do
    built ← create_lines ls 1
    assert_min_lines built
    assert_balanced built
    ok built

  -- `JournalEntry.assertPostable`.
  unfoldable pub assert_postable : List NewLine → Result (Unit {0})
  assert_postable ls = checked_lines ls >>= λ _. ok tt
