-- ===== src/Numbering/Format.antt =====
-- The rules of core/numbering/domain/numbering-series.ts.
use construction_erp_nestjs.Prelude.{
  ℕ, zero, suc, ◌+◌, ◌/◌, ◌%◌, Option, none, some, Bool, false, ◌&&◌, ◌||◌, not, [], ◌∷◌, ◌++◌,
  every, any, if◌then◌else◌, ltb, leb, ◌==◌,
}
use construction_erp_nestjs.Prelude.Int.{ℤ, pos, negsuc}
use construction_erp_nestjs.Prelude.Text.{Text, codes, trim, is_empty, pad_start}
use construction_erp_nestjs.Errors.{ErrorCode, Result, ok, throw, throw_if, ◌>>◌}
use construction_erp_nestjs.Posting.Command.{
  VoucherType, sales_ipc, purchase, payment, receipt, contra, journal, stock_journal, salary,
  daily_labour_accrual, opening,
}

abbrev pub default_padding_width : ℕ
default_padding_width = 4

unfoldable pub default_prefix_for : VoucherType → Text
default_prefix_for sales_ipc = codes "IPC"
default_prefix_for purchase = codes "PUR"
default_prefix_for payment = codes "PV"
default_prefix_for receipt = codes "RV"
default_prefix_for contra = codes "CV"
default_prefix_for journal = codes "JV"
default_prefix_for stock_journal = codes "SJ"
default_prefix_for salary = codes "SAL"
default_prefix_for daily_labour_accrual = codes "DLA"
default_prefix_for opening = codes "OB"

-- `String(n)` for a natural number: its decimal digits, the fuel bounding their count.
unfoldable pub digits_from : ℕ → ℕ → Text
digits_from zero n = []
digits_from (suc fuel) n =
    let front = digits_from fuel (n / 10) in
    if ltb n 10 then (48 + n) ∷ [] else front ++ ((48 + n % 10) ∷ [])

unfoldable pub to_string : ℕ → Text
unfolding digits_from
to_string n = digits_from (suc n) n

unfoldable pub two : ℕ → Text
unfolding to_string pad_start
two y = pad_start 2 48 (to_string (y % 100))

unfoldable pub fy_short_label : ℕ → ℕ → Text
unfolding two
fy_short_label start_year end_year = two start_year ++ two end_year

unfoldable pub format_voucher_number : Text → Text → ℕ → ℕ → Text
unfolding to_string pad_start
format_voucher_number prefix fy_label sequence padding_width =
    prefix ++ codes "/" ++ fy_label ++ codes "/" ++ pad_start padding_width 48 (to_string sequence)

abbrev pub is_alphanumeric : ℕ → Bool
is_alphanumeric c = (leb 65 c && leb c 90) || (leb 97 c && leb c 122) || (leb 48 c && leb c 57)

-- The class `[A-Za-z0-9\-_.]`.
abbrev pub is_safe : ℕ → Bool
is_safe c = is_alphanumeric c || c == 45 || c == 95 || c == 46

-- `PREFIX_PATTERN.test(s)`.
unfoldable pub is_prefix : Text → Bool
is_prefix [] = false
is_prefix (c ∷ s) = is_alphanumeric c && every is_safe s

unfoldable pub normalize_prefix : Text → Result Text
unfolding is_prefix trim
normalize_prefix raw = do
  throw_if (is_empty (trim raw)) ErrorCode.validation
  throw_if (any (◌==◌ 47) (trim raw)) ErrorCode.validation
  throw_if (not (is_prefix (trim raw))) ErrorCode.validation
  ok (trim raw)

-- A JavaScript number, as `Number.isInteger` tells it apart.
pub data JsNumber : Type 0 where
  integer : ℤ → JsNumber
  not_integer : JsNumber

unfoldable pub normalize_padding_width : Option JsNumber → Result ℕ
normalize_padding_width none = ok default_padding_width
normalize_padding_width (some not_integer) = throw ErrorCode.validation
normalize_padding_width (some (integer (negsuc n))) = throw ErrorCode.validation
normalize_padding_width (some (integer (pos n))) =
    if ltb n 1 then throw ErrorCode.validation else ok n
