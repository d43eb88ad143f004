-- ===== src/Tests/Numbers.antt =====
-- A series of contra vouchers, and its numbers.
use construction_erp_nestjs.Prelude.{
  ℕ, ◌≡◌, ◌↔◌, refl, none, some, false, [], ◌∷◌, map, any, ◌==◌, ◌⊎◌, false, arith,
}
use construction_erp_nestjs.Prelude.Text.{Text, codes, text_eq, trim, pad_start}
use construction_erp_nestjs.Errors.{ErrorCode, ok, throw}
use construction_erp_nestjs.Errors.Action.{◌>>=◌}
use construction_erp_nestjs.Posting.Command.{VoucherType}
use construction_erp_nestjs.Numbering.Format.{
  normalize_prefix, format_voucher_number, fy_short_label, to_string, digits_from, two,
}
use construction_erp_nestjs.Numbering.Series.{
  NumberingSeries, FinancialYear, NumberingState, lock_series, year_of,
}
use construction_erp_nestjs.Numbering.Unique.{IsPrefixText, format_injective, normalize_prefix_iff}
use construction_erp_nestjs.Numbering.Gapless.{draw, numbers_from, draw_consecutive}
use construction_erp_nestjs.Numbering.Admin.{
  UpdateNumberingSeriesInput, update_series, update_config, counter, update_series-counter,
}

abbrev pub contra_series : NumberingSeries
contra_series = record {
  id = codes "s1";
  company_id = codes "c";
  financial_year_id = codes "fy";
  voucher_type = VoucherType.contra;
  prefix = codes "CV";
  padding_width = 4;
  last_sequence = 7;
  version = 1;
}

abbrev pub year_2526 : FinancialYear
year_2526 = record { id = codes "fy"; company_id = codes "c"; start_year = 2025; end_year = 2026 }

abbrev pub one_series : NumberingState
one_series = record { rows = contra_series ∷ []; years = year_2526 ∷ []; ids_drawn = 0 }

abbrev pub fresh_id : ℕ → Text
fresh_id n = n ∷ []

abbrev pub keep : ℕ → ℕ
keep n = n

contra_number :
    format_voucher_number (codes "CV") (fy_short_label 2025 2026) 8 4 ≡ codes "CV/2526/0008"
unfolding format_voucher_number fy_short_label two to_string digits_from pad_start
contra_number = refl

pub series_there :
    lock_series VoucherType.contra (codes "c") (codes "fy") one_series ≡ some contra_series
unfolding lock_series text_eq
series_there = refl

pub year_there : year_of (codes "c") (codes "fy") one_series ≡ some year_2526
unfolding year_of text_eq
year_there = refl

draw_consecutive_example :
    (draw fresh_id keep 3 VoucherType.contra (codes "c") (codes "fy") one_series).0
    ≡ ok (numbers_from fresh_id keep 3 (codes "CV") (fy_short_label 2025 2026) 4 7)
draw_consecutive_example =
    draw_consecutive fresh_id keep 3 VoucherType.contra (codes "c") (codes "fy") one_series
      contra_series year_2526 series_there year_there (omega arith)

format_injective_example : ◌≡◌ {A = ℕ} 8 8
format_injective_example = format_injective (codes "CV") (codes "2526") 8 8 4 refl

normalize_prefix_iff_example :
    ((normalize_prefix (codes " CV ") ≡ ok (codes "CV")) ↔ (
      (codes "CV" ≡ trim (codes " CV "))
      × IsPrefixText (codes "CV")
      × (any (◌==◌ 47) (codes "CV") ≡ false)))
    × ((normalize_prefix (codes " CV ") ≡ throw ErrorCode.validation)
        ⊎ IsPrefixText (trim (codes " CV ")))
normalize_prefix_iff_example = normalize_prefix_iff (codes " CV ") (codes "CV")

abbrev wider : UpdateNumberingSeriesInput
wider = record { prefix = none; padding_width = none; version = 1 }

abbrev after_update : NumberingState
after_update = record one_series { rows = record contra_series { version = 2 } ∷ [] }

series_updated : update_series (codes "s1") wider (codes "c") one_series ≡ (ok tt, after_update)
unfolding update_series update_config text_eq ◌>>=◌
series_updated = refl

update_series-counter_example : map counter after_update.rows ≡ map counter one_series.rows
update_series-counter_example =
    update_series-counter (codes "s1") wider (codes "c") one_series series_updated
