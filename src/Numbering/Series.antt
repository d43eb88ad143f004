-- ===== src/Numbering/Series.antt =====
-- The counter rows `numbering_series` and the allocation of a number
-- (core/numbering/infrastructure/typeorm-numbering.service.ts).
use construction_erp_nestjs.Prelude.{
  ℕ, suc, ◌+◌, Option, none, some, Bool, ◌&&◌, ◌||◌, List, [], ◌∷◌, ◌++◌, map, find, any, ◌==◌, leb,
  if◌then◌else◌,
}
use construction_erp_nestjs.Prelude.Text.{Text, text_eq}
use construction_erp_nestjs.Errors.{ErrorCode, plain_error, query_failed, ok, err}
use construction_erp_nestjs.Errors.Action.{Action, pure, gets, modify, or_throw, ◌>>=◌, ◌>>◌}
use construction_erp_nestjs.Posting.Command.{VoucherType}
use construction_erp_nestjs.Numbering.Format.{
  default_padding_width, default_prefix_for, format_voucher_number, fy_short_label,
}

pub record NumberingSeries : Type 0 where
  pub id : Text
  pub company_id : Text
  pub financial_year_id : Text
  pub voucher_type : VoucherType
  pub prefix : Text
  pub padding_width : ℕ
  pub last_sequence : ℕ
  pub version : ℕ

abbrev pub max_integer : ℕ
max_integer = 2147483647

-- A row of `financial_year`, with the calendar years of its dates.
pub record FinancialYear : Type 0 where
  pub id : Text
  pub company_id : Text
  pub start_year : ℕ
  pub end_year : ℕ

pub record NumberingState : Type 0 where
  pub rows : List NumberingSeries
  pub years : List FinancialYear
  pub ids_drawn : ℕ

-- The stored text of a voucher type, up to a numbering of the types.
abbrev type_index : VoucherType → ℕ
type_index v = elim v [
  | VoucherType.sales_ipc ↦ 0
  | VoucherType.purchase ↦ 1
  | VoucherType.payment ↦ 2
  | VoucherType.receipt ↦ 3
  | VoucherType.contra ↦ 4
  | VoucherType.journal ↦ 5
  | VoucherType.stock_journal ↦ 6
  | VoucherType.salary ↦ 7
  | VoucherType.daily_labour_accrual ↦ 8
  | VoucherType.opening ↦ 9
]

abbrev pub same_type : VoucherType → VoucherType → Bool
same_type v w = type_index v == type_index w

abbrev pub is_series : VoucherType → Text → Text → NumberingSeries → Bool
is_series v company_id fy r =
    text_eq r.company_id company_id
    && (text_eq r.financial_year_id fy && same_type r.voucher_type v)

-- `SELECT … FOR UPDATE` on the triple.
unfoldable pub lock_series : VoucherType → Text → Text → NumberingState → Option NumberingSeries
lock_series v company_id fy s = find (is_series v company_id fy) s.rows

unfoldable pub year_of : Text → Text → NumberingState → Option FinancialYear
year_of company_id fy s = find (λ y. text_eq y.id fy && text_eq y.company_id company_id) s.years

-- `new_id n` is what the port `IdGenerator` returns at the n-th call, and `touch` is what TypeORM does
-- to the version column at an update by criteria.
module _ (new_id : ℕ → Text) (touch : ℕ → ℕ) where
  -- The insert under a savepoint: a violation of the primary or of the triple's key is swallowed.
  unfoldable pub provision : VoucherType → Text → Text → Action NumberingState (Unit {0})
  provision v company_id fy s =
      let id = new_id s.ids_drawn in
      let taken = any (λ r. text_eq r.id id || is_series v company_id fy r) s.rows in
      modify
        (λ s. record s {
          ids_drawn = suc s.ids_drawn;
          rows =
              if taken
              then s.rows
              else s.rows
                ++ (record {
                  id = id;
                  company_id = company_id;
                  financial_year_id = fy;
                  voucher_type = v;
                  prefix = default_prefix_for v;
                  padding_width = default_padding_width;
                  last_sequence = 0;
                  version = 1;
                }
                    ∷ []);
        })
        s

  -- `manager.update({ id }, { lastSequence })`.
  abbrev pub with_sequence : Text → ℕ → NumberingSeries → NumberingSeries
  with_sequence id seq r =
      if text_eq r.id id then record r { last_sequence = seq; version = touch r.version } else r

  -- The second look, after the provisioning.
  abbrev pub or_plain_error : Option NumberingSeries → Action NumberingState NumberingSeries
  or_plain_error none s = (err plain_error, s)
  or_plain_error (some r) s = (ok r, s)

  unfoldable pub or_provision :
      VoucherType → Text → Text → Option NumberingSeries → Action NumberingState NumberingSeries
  or_provision v company_id fy (some r) = pure r
  or_provision v company_id fy none = do
    provision v company_id fy
    again ← gets (lock_series v company_id fy)
    or_plain_error again

  -- The locked row, provisioned when it is absent.
  unfoldable pub locked : VoucherType → Text → Text → Action NumberingState NumberingSeries
  locked v company_id fy = do
    found ← gets (lock_series v company_id fy)
    or_provision v company_id fy found

  -- The column `last_sequence` is an `integer`: PostgreSQL refuses to update it past its largest value.
  unfoldable pub fit_column : ℕ → Action NumberingState (Unit {0})
  fit_column n s = if leb n max_integer then (ok tt, s) else (err query_failed, s)

  -- The update of a counter that fits, then the label and the number.
  unfoldable pub count_up : Text → Text → NumberingSeries → Action NumberingState Text
  count_up company_id fy r = do
    modify (λ s. record s { rows = map (with_sequence r.id (r.last_sequence + 1)) s.rows })
    found ← gets (year_of company_id fy)
    year ← or_throw found ErrorCode.validation
    pure (
        format_voucher_number r.prefix (fy_short_label year.start_year year.end_year)
          (r.last_sequence + 1) r.padding_width)

  -- The number of a locked row: the counter goes up before the label is resolved.
  unfoldable pub allocate : Text → Text → NumberingSeries → Action NumberingState Text
  unfolding fit_column count_up
  allocate company_id fy r = fit_column (r.last_sequence + 1) >>= λ u. count_up company_id fy r

  unfoldable pub next : VoucherType → Text → Text → Action NumberingState Text
  next v company_id fy = do series ← locked v company_id fy; allocate company_id fy series
