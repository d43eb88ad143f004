-- ===== src/Purchase/Tax.antt =====
-- The rates of a purchase bill (modules/purchase/domain/tax.ts).
use construction_erp_nestjs.Prelude.{Option, none, some, ◌||◌, not}
use construction_erp_nestjs.Errors.{ErrorCode, Result, ok, throw, throw_if, ◌>>=◌, ◌>>◌}
use construction_erp_nestjs.Decimal.{DecimalLib, Num, of_number, divided_by, is_finite, is_negative}

module _ ⦃d : DecimalLib⦄ where
  pub record PurchaseTax : Type 0 where
    pub vat_input_pct : Num
    pub tds_pct : Num
    pub ait_pct : Num

  -- `pct(value, field)`, from the number that `new Decimal(value)` makes, `none` when it throws.
  unfoldable pub pct : Option Num → Result Num
  pct none = throw ErrorCode.validation
  pct (some n) = do throw_if (not (is_finite n) || is_negative n) ErrorCode.validation; ok n

  -- `PurchaseTax.of`.
  unfoldable pub of_rates : Option Num → Option Num → Option Num → Result PurchaseTax
  unfolding pct
  of_rates vat_input tds ait = do
    vat_input_pct ← pct vat_input
    tds_pct ← pct tds
    ait_pct ← pct ait
    ok (record { vat_input_pct = vat_input_pct; tds_pct = tds_pct; ait_pct = ait_pct })

  abbrev pub vat_input_fraction : PurchaseTax → Num
  vat_input_fraction t = divided_by t.vat_input_pct (of_number 100)

  abbrev pub tds_fraction : PurchaseTax → Num
  tds_fraction t = divided_by t.tds_pct (of_number 100)

  abbrev pub ait_fraction : PurchaseTax → Num
  ait_fraction t = divided_by t.ait_pct (of_number 100)
