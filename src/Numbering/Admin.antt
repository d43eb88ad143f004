-- ===== src/Numbering/Admin.antt =====
-- The administration of the series (core/numbering/application, and the repository
-- core/numbering/infrastructure/typeorm-numbering-series.repository.ts).
-- The audit records of the two use cases are left out.
use construction_erp_nestjs.Prelude.{
  ℕ, suc, ◌≡◌, ◌∙◌, sym, ap, refl, Option, none, some, Bool, true, false, ◌&&◌, ◌||◌, not, List, [],
  ◌∷◌, ◌++◌, map, find, any, if◌then◌else◌, ◌==◌, get_or_default, Bool-cases, inl, inr,
}
use construction_erp_nestjs.Prelude.Text.{Text, text_eq}
use construction_erp_nestjs.Errors.{ErrorCode, Result, ok, err}
use construction_erp_nestjs.Errors.Action.{
  Action, pure, lift, throws, gets, modify, or_throw, throws_if, ◌>>=◌, ◌>>◌, after_bind, pure-eq,
  or_throw-ok, throws_if-ok,
}
use construction_erp_nestjs.Posting.Command.{VoucherType}
use construction_erp_nestjs.Numbering.Format.{
  JsNumber, default_prefix_for, normalize_prefix, normalize_padding_width,
}
use construction_erp_nestjs.Numbering.Series.{NumberingSeries, NumberingState, is_series, year_of}

pub record CreateNumberingSeriesInput : Type 0 where
  pub financial_year_id : Text
  pub voucher_type : VoucherType
  pub prefix : Option Text
  pub padding_width : Option JsNumber

pub record UpdateNumberingSeriesInput : Type 0 where
  pub prefix : Option Text
  pub padding_width : Option JsNumber
  pub version : ℕ

-- `repo.create`: a violated key throws SERIES_ALREADY_EXISTS.
unfoldable pub insert_series : NumberingSeries → Action NumberingState (Unit {0})
insert_series r s =
    if any (λ q. text_eq q.id r.id || is_series r.voucher_type r.company_id r.financial_year_id q)
      s.rows
    then throws ErrorCode.series_already_exists s
    else modify (λ s. record s { rows = s.rows ++ (r ∷ []) }) s

abbrev is_none : {A : Type 0} → Option A → Bool
is_none none = true
is_none (some a) = false

unfoldable pub prefix_or_default : VoucherType → Option Text → Result Text
prefix_or_default v none = ok (default_prefix_for v)
prefix_or_default v (some raw) = normalize_prefix raw

-- The patch: a field that is not given stays as it is.
abbrev pub given : {A B : Type 0} → (A → Result B) → Option A → Result (Option B)
given f none = ok none
given f (some a) = elim (f a) [ ok b ↦ ok (some b) | err e ↦ err e ]

abbrev pub is_expected : Text → Text → ℕ → NumberingSeries → Bool
is_expected id company_id version r =
    text_eq r.id id && (text_eq r.company_id company_id && r.version == version)

abbrev pub configured : Text → Text → ℕ → Option Text → Option ℕ → NumberingSeries → NumberingSeries
configured id company_id version prefix width r =
    if is_expected id company_id version r
    then record r {
      prefix = get_or_default prefix r.prefix;
      padding_width = get_or_default width r.padding_width;
      version = suc r.version;
    }
    else r

-- `repo.updateConfig`: whether a row was changed.
unfoldable pub update_config : Text → Text → ℕ → Option Text → Option ℕ → Action NumberingState Bool
update_config id company_id version prefix width s = (
  ok (any (is_expected id company_id version) s.rows),
  record s { rows = map (configured id company_id version prefix width) s.rows },
)

module _ (new_id : ℕ → Text) where
  -- `CreateNumberingSeriesUseCase.execute`; the text of the voucher type has been recognised.
  unfoldable pub create_series : CreateNumberingSeriesInput → Text → Action NumberingState Text
  create_series input company_id = do
    prefix ← lift (prefix_or_default input.voucher_type input.prefix)
    width ← lift (normalize_padding_width input.padding_width)
    id ← gets (λ s. new_id s.ids_drawn)
    modify (λ s. record s { ids_drawn = suc s.ids_drawn })
    year ← gets (year_of company_id input.financial_year_id)
    throws_if (is_none year) ErrorCode.cross_company_reference
    insert_series (record {
      id = id;
      company_id = company_id;
      financial_year_id = input.financial_year_id;
      voucher_type = input.voucher_type;
      prefix = prefix;
      padding_width = width;
      last_sequence = 0;
      version = 1;
    })
    pure id

-- `UpdateNumberingSeriesUseCase.execute`.
unfoldable pub update_series :
    Text → UpdateNumberingSeriesInput → Text → Action NumberingState (Unit {0})
update_series id input company_id = do
  prefix ← lift (given normalize_prefix input.prefix)
  width ← lift (given (λ n. normalize_padding_width (some n)) input.padding_width)
  found ← gets (λ s. find (λ r. text_eq r.id id && text_eq r.company_id company_id) s.rows)
  existing ← or_throw found ErrorCode.not_found
  throws_if (not (existing.version == input.version)) ErrorCode.optimistic_lock_conflict
  changed ← update_config id company_id input.version prefix width
  throws_if (not changed) ErrorCode.optimistic_lock_conflict

-- What identifies and counts a series: all but its configuration.
abbrev pub counter : NumberingSeries → Text × Text × Text × VoucherType × ℕ
counter r = (r.id, r.company_id, r.financial_year_id, r.voucher_type, r.last_sequence)

configured-counter :
    (id c : Text) (version : ℕ) (prefix : Option Text) (width : Option ℕ)
    (rows : List NumberingSeries)
    → map counter (map (configured id c version prefix width) rows) ≡ map counter rows
configured-counter id c version prefix width [] = refl
configured-counter id c version prefix width (r ∷ rows) =
    elim (Bool-cases (is_expected id c version r)) [
      | inl h ↦
          rw h (ap (λ more. counter r ∷ more) (configured-counter id c version prefix width rows))
      | inr h ↦
          rw h (ap (λ more. counter r ∷ more) (configured-counter id c version prefix width rows))
    ]

update_config-counter :
    (id c : Text) (version : ℕ) (prefix : Option Text) (width : Option ℕ) (s : NumberingState)
    {b : Bool} {t : NumberingState}
    → update_config id c version prefix width s ≡ (ok b, t)
    → map counter t.rows ≡ map counter s.rows
unfolding update_config
update_config-counter id c version prefix width s h =
    ap (λ q. map counter q.1.rows) (sym h) ∙ configured-counter id c version prefix width s.rows

-- An update of a series' configuration that succeeds moves no counter: every row keeps its id, company,
-- year, voucher type and last sequence.
pub update_series-counter :
    (id : Text) (input : UpdateNumberingSeriesInput) (c : Text) (s : NumberingState) {u : Unit {0}}
    {t : NumberingState}
    → update_series id input c s ≡ (ok u, t)
    → map counter t.rows ≡ map counter s.rows
unfolding update_series
update_series-counter id input c s h = after_bind _ _ s h λ prefix s1 p h1.
    after_bind _ _ s1 h1 λ width s2 w h2. after_bind _ _ s2 h2 λ found s3 g h3.
      after_bind _ _ s3 h3 λ existing s4 o h4. after_bind _ _ s4 h4 λ v s5 current h5.
        after_bind (update_config id c input.version prefix width) _ s5 h5 λ changed s6 written h6.
          let before =
            (throws_if-ok (not (existing.version == input.version))
              ErrorCode.optimistic_lock_conflict current).1 in
          let end = (throws_if-ok (not changed) ErrorCode.optimistic_lock_conflict h6).1 in
          let start =
            ap (λ x. x.rows) (sym before)
            ∙ ap (λ x. x.rows) (sym (or_throw-ok found ErrorCode.not_found o).1)
            ∙ ap (λ x. x.rows) (sym (pure-eq g).1)
            ∙ ap (λ q. q.1.rows) (sym w)
            ∙ ap (λ q. q.1.rows) (sym p) in
          ap (λ x. map counter x.rows) (sym end)
          ∙ update_config-counter id c input.version prefix width s5 written
          ∙ ap (map counter) start
