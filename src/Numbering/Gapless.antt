-- ===== src/Numbering/Gapless.antt =====
-- The numbers that a series hands out (core/numbering/infrastructure/typeorm-numbering.service.ts).
use construction_erp_nestjs.Prelude.{
  find-map, ℕ, zero, suc, ◌+◌, ◌≡◌, ◌∙◌, ap, refl, some, List, [], ◌∷◌, map, Bool-cases, inl, inr,
  sym, true, false, leb, ◌≤◌, arith,
}
use construction_erp_nestjs.Prelude.Text.{Text, text_eq, text_eq_refl}
use construction_erp_nestjs.Errors.{query_failed, ok, err}
use construction_erp_nestjs.Errors.Action.{Action, pure, ◌>>=◌, >>=-eq-next, >>=-eq-err}
use construction_erp_nestjs.Posting.Command.{VoucherType}
use construction_erp_nestjs.Numbering.Format.{format_voucher_number, fy_short_label}
use construction_erp_nestjs.Numbering.Series.{
  NumberingSeries, FinancialYear, NumberingState, is_series, lock_series, year_of, with_sequence,
  locked, allocate, next, or_provision, fit_column, count_up, max_integer,
}

module _ (new_id : ℕ → Text) (touch : ℕ → ℕ) where
  -- `n` numbers of one series, drawn one after the other.
  abbrev pub draw : ℕ → VoucherType → Text → Text → Action NumberingState (List Text)
  draw zero v c fy = pure []
  draw (suc n) v c fy = do
    number ← next new_id touch v c fy
    more ← draw n v c fy
    pure (number ∷ more)

  -- The numbers of a series from a sequence on.
  abbrev pub numbers_from : ℕ → Text → Text → ℕ → ℕ → List Text
  numbers_from zero prefix label width seq = []
  numbers_from (suc n) prefix label width seq =
      format_voucher_number prefix label (seq + 1) width
      ∷ numbers_from n prefix label width (seq + 1)

  with_sequence-is_series :
      (id : Text) (seq : ℕ) (v : VoucherType) (c fy : Text) (r : NumberingSeries)
      → is_series v c fy (with_sequence new_id touch id seq r) ≡ is_series v c fy r
  with_sequence-is_series id seq v c fy r = elim (Bool-cases (text_eq r.id id)) [
    | inl h ↦ rw h refl
    | inr h ↦ rw h refl
  ]

  abbrev counted : NumberingSeries → NumberingState → NumberingState
  counted r s = record s {
    rows = map (with_sequence new_id touch r.id (r.last_sequence + 1)) s.rows;
  }

  counted-lock_series :
      (v : VoucherType) (c fy : Text) (s : NumberingState) (r : NumberingSeries)
      → lock_series v c fy s ≡ some r
      → lock_series v c fy (counted r s)
        ≡ some (record r { last_sequence = r.last_sequence + 1; version = touch r.version })
  unfolding lock_series
  counted-lock_series v c fy s r row =
      find-map (is_series v c fy) (with_sequence new_id touch r.id (r.last_sequence + 1)) s.rows
        (with_sequence-is_series r.id (r.last_sequence + 1) v c fy) row
      ∙ rw (text_eq_refl r.id) refl

  locked-found :
      (v : VoucherType) (c fy : Text) (s : NumberingState) (r : NumberingSeries)
      → lock_series v c fy s ≡ some r
      → locked new_id touch v c fy s ≡ (ok r, s)
  unfolding locked or_provision ◌>>=◌
  locked-found v c fy s r row = ap (λ o. or_provision new_id touch v c fy o s) row

  counted-year_of :
      (c fy : Text) (s : NumberingState) (r : NumberingSeries)
      → year_of c fy (counted r s) ≡ year_of c fy s
  unfolding year_of
  counted-year_of c fy s r = refl

  fit_column-ok :
      (n : ℕ) (s : NumberingState)
      → leb n max_integer ≡ true
      → fit_column new_id touch n s ≡ (ok tt, s)
  unfolding fit_column
  fit_column-ok n s fits = rw fits refl

  fit_column-err :
      (n : ℕ) (s : NumberingState)
      → leb n max_integer ≡ false
      → fit_column new_id touch n s ≡ (err query_failed, s)
  unfolding fit_column
  fit_column-err n s full = rw full refl

  count_up-found :
      (c fy : Text) (s : NumberingState) (r : NumberingSeries) (y : FinancialYear)
      → year_of c fy s ≡ some y
      → count_up new_id touch c fy r s ≡ (
        ok (
            format_voucher_number r.prefix
              (fy_short_label y.start_year y.end_year)
              (r.last_sequence + 1)
              r.padding_width),
        counted r s,
      )
  unfolding count_up ◌>>=◌
  count_up-found c fy s r y year = rw (counted-year_of c fy s r ∙ year) refl

  allocate-found :
      (c fy : Text) (s : NumberingState) (r : NumberingSeries) (y : FinancialYear)
      → leb (r.last_sequence + 1) max_integer ≡ true
      → year_of c fy s ≡ some y
      → allocate new_id touch c fy r s ≡ (
        ok (
            format_voucher_number r.prefix
              (fy_short_label y.start_year y.end_year)
              (r.last_sequence + 1)
              r.padding_width),
        counted r s,
      )
  unfolding allocate
  allocate-found c fy s r y fits year =
      let there = fit_column-ok (r.last_sequence + 1) s fits in
      >>=-eq-next (fit_column new_id touch (r.last_sequence + 1))
        (λ u. count_up new_id touch c fy r) s tt (ap (λ q. q.0) there)
      ∙ ap (λ q. count_up new_id touch c fy r q.1) there
      ∙ count_up-found c fy s r y year

  allocate-full :
      (c fy : Text) (s : NumberingState) (r : NumberingSeries)
      → leb (r.last_sequence + 1) max_integer ≡ false
      → allocate new_id touch c fy r s ≡ (err query_failed, s)
  unfolding allocate
  allocate-full c fy s r full =
      let refused = fit_column-err (r.last_sequence + 1) s full in
      >>=-eq-err (fit_column new_id touch (r.last_sequence + 1)) (λ u. count_up new_id touch c fy r)
        s query_failed (ap (λ q. q.0) refused)
      ∙ ap (λ q. (err query_failed, q.1)) refused

  -- A draw from a row that is there: its next number, and the row counted up by one.
  pub next-found :
      (v : VoucherType) (c fy : Text) (s : NumberingState) (r : NumberingSeries) (y : FinancialYear)
      → lock_series v c fy s ≡ some r
      → leb (r.last_sequence + 1) max_integer ≡ true
      → year_of c fy s ≡ some y
      → (t : NumberingState) × (next new_id touch v c fy s ≡ (
        ok (
            format_voucher_number r.prefix
              (fy_short_label y.start_year y.end_year)
              (r.last_sequence + 1)
              r.padding_width),
        t,
      ))
        × (lock_series v c fy t
            ≡ some (record r { last_sequence = r.last_sequence + 1; version = touch r.version }))
        × (year_of c fy t ≡ some y)
  unfolding next
  next-found v c fy s r y row fits year =
      let t = counted r s in
      (
        t,
        >>=-eq-next (locked new_id touch v c fy) _ s r (ap (λ q. q.0) (locked-found v c fy s r row))
            ∙ ap (λ q. allocate new_id touch c fy r q.1) (locked-found v c fy s r row)
            ∙ allocate-found c fy s r y fits year,
        counted-lock_series v c fy s r row,
        counted-year_of c fy s r ∙ year,
      )

  next-full :
      (v : VoucherType) (c fy : Text) (s : NumberingState) (r : NumberingSeries)
      → lock_series v c fy s ≡ some r
      → leb (r.last_sequence + 1) max_integer ≡ false
      → next new_id touch v c fy s ≡ (err query_failed, s)
  unfolding next
  next-full v c fy s r row full =
      >>=-eq-next (locked new_id touch v c fy) _ s r (ap (λ q. q.0) (locked-found v c fy s r row))
      ∙ ap (λ q. allocate new_id touch c fy r q.1) (locked-found v c fy s r row)
      ∙ allocate-full c fy s r full

  -- A draw that returns a number found room for it in the column.
  pub next-fits :
      (v : VoucherType) (c fy : Text) (s : NumberingState) (r : NumberingSeries) {number : Text}
      {t : NumberingState}
      → lock_series v c fy s ≡ some r
      → next new_id touch v c fy s ≡ (ok number, t)
      → leb (r.last_sequence + 1) max_integer ≡ true
  next-fits v c fy s r row h = elim (Bool-cases (leb (r.last_sequence + 1) max_integer)) [
    | inl fits ↦ fits
    | inr full ↦ let both = ap (λ q. q.0) (sym (next-full v c fy s r row full) ∙ h) in cc
  ]

  -- A series that exists, of a year that exists, hands out consecutive numbers: `n` draws return, with
  -- no gap and no repetition, the numbers of the `n` sequence values that follow its last one, when
  -- those fit the column.
  pub draw_consecutive :
      (n : ℕ) (v : VoucherType) (c fy : Text) (s : NumberingState) (r : NumberingSeries)
      (y : FinancialYear)
      → lock_series v c fy s ≡ some r
      → year_of c fy s ≡ some y
      → r.last_sequence + n ≤ max_integer
      → (draw n v c fy s).0
        ≡ ok (
            numbers_from n r.prefix
              (fy_short_label y.start_year y.end_year)
              r.padding_width
              r.last_sequence)
  draw_consecutive zero v c fy s r y row year room = refl
  draw_consecutive (suc n) v c fy s r y row year room =
      let fits : leb (r.last_sequence + 1) max_integer ≡ true = ground arith in
      let (t, drawn, row_t, year_t) = next-found v c fy s r y row fits year in
      let more = draw_consecutive n v c fy t _ y row_t year_t (omega arith) in
      let number =
        format_voucher_number r.prefix (fy_short_label y.start_year y.end_year)
          (r.last_sequence + 1) r.padding_width in
      ap (λ q. q.0)
        (>>=-eq-next (next new_id touch v c fy)
          (λ number. draw n v c fy >>= λ more. pure (number ∷ more)) s number (ap (λ q. q.0) drawn))
      ∙ ap (λ q. ((draw n v c fy >>= λ more. pure (number ∷ more)) q.1).0) drawn
      ∙ ap (λ q. q.0) (>>=-eq-next (draw n v c fy) (λ more. pure (number ∷ more)) t _ more)
