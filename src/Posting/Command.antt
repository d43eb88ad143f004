-- ===== src/Posting/Command.antt =====
-- The request types of the posting layer: voucher types, account types, lines and commands
-- (core/posting/domain: voucher-type.ts, posting-command.ts, and `NewLine` of journal-entry.ts).
use construction_erp_nestjs.Prelude.{Option, none, some, Bool, true, List}
use construction_erp_nestjs.Prelude.Text.{Text, is_empty}
use construction_erp_nestjs.Decimal.{DecimalLib, Num, of_number, plus}

pub data VoucherType : Type 0 where
  sales_ipc purchase payment receipt contra journal stock_journal salary : VoucherType
  daily_labour_accrual opening : VoucherType

pub data AccountType : Type 0 where
  asset liability equity income expense : AccountType

module _ ⦃d : DecimalLib⦄ where
  -- The only currency is BDT, so the check that two currencies agree never throws.
  pub record Money : Type 0 where
    pub amount : Num

module _ ⦃d : DecimalLib⦄ where
  pub record NewLine : Type 0 where
    pub account_id : Text
    pub project_id : Option Text
    pub cost_centre_id : Option Text
    pub purpose_id : Option Text
    pub godown_id : Option Text
    pub party_id : Option Text
    pub debit : Money
    pub credit : Money
    pub narration : Option Text

module _ ⦃d : DecimalLib⦄ where
  -- A `NewLine` with the hints that the tag matrix reads.
  pub record PostingLine : Type 0 where
    pub line : NewLine
    pub open line use *
    pub account_type : Option AccountType
    pub is_control_account : Option Bool
    pub is_stock_line : Option Bool

module _ ⦃d : DecimalLib⦄ where
  pub record PostingCommand : Type 0 where
    pub company_id : Text
    pub financial_year_id : Text
    pub voucher_type : VoucherType
    pub voucher_date : Text
    pub source_type : Text
    pub source_id : Text
    pub posted_by : Text
    pub narration : Option Text
    pub lines : List PostingLine

module _ ⦃d : DecimalLib⦄ where
  unfoldable pub money_zero : Money
  money_zero = record { amount = of_number 0 }

  unfoldable pub money_plus : Money → Money → Money
  money_plus a b = record { amount = plus a.amount b.amount }

-- `!v` for an optional string: absent, or empty.
abbrev pub is_missing : Option Text → Bool
is_missing = elim [ none ↦ true | some t ↦ is_empty t ]
