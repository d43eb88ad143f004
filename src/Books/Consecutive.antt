-- ===== src/Books/Consecutive.antt =====
-- The numbers of the entries that are posted one after the other (core/posting/application against
-- core/numbering/infrastructure), each in a transaction of its own
-- (infrastructure/unit-of-work/typeorm-unit-of-work.ts).
use construction_erp_nestjs.Prelude.{
  ℕ, ◌≡◌, ◌∙◌, refl, sym, ap, some, List, [], ◌∷◌, map, length, All, inl, inr, Bool-cases, any,
}
use construction_erp_nestjs.Prelude.Text.{Text, text_eq}
use construction_erp_nestjs.Errors.{Result, ok, err, ok_inj, Result-cases}
use construction_erp_nestjs.Errors.Action.{after_bind, pure-eq, lift-ok, with_state}
use construction_erp_nestjs.Decimal.{DecimalLib}
use construction_erp_nestjs.Posting.Command.{VoucherType, PostingCommand}
use construction_erp_nestjs.Posting.Entry.{JournalEntry, NewEntry, checked_lines}
use construction_erp_nestjs.Posting.Build.{create}
use construction_erp_nestjs.Posting.Service.{Ports, write_entry, post}
use construction_erp_nestjs.Posting.Service.Order.{validate-Reads}
use construction_erp_nestjs.Posting.Service.Outcome.{create-ok}
use construction_erp_nestjs.Numbering.Format.{fy_short_label}
use construction_erp_nestjs.Numbering.Series.{
  NumberingSeries, FinancialYear, lock_series, year_of, next,
}
use construction_erp_nestjs.Numbering.Gapless.{numbers_from, next-found, next-fits}
use construction_erp_nestjs.Books.{Books, insert_entry, books_ports, run, rolled_back}
use construction_erp_nestjs.Books.Store.{books_ports_keep}

module _ ⦃d : DecimalLib⦄ where
  insert-numbers :
      (e : JournalEntry) (s : Books) {t : Books}
      → insert_entry e s ≡ (ok tt, t)
      → t.numbers ≡ s.numbers
  unfolding insert_entry
  insert-numbers e s h = elim (Bool-cases (any (λ r. text_eq r.id e.id) s.entries)) [
    | inl taken ↦ rw (← ap (λ q. q.1.numbers) h) (rw taken refl)
    | inr fresh ↦ rw (← ap (λ q. q.1.numbers) h) (rw fresh refl)
  ]

module _ ⦃d : DecimalLib⦄ (new_id series_id : ℕ → Text) (clock touch : ℕ → ℕ) where
  abbrev ports : Ports Books
  ports = books_ports new_id series_id clock touch

  create-numbers :
      (n : NewEntry) (s : Books) {e : JournalEntry} {t : Books}
      → create ports.next_id ports.now n s ≡ (ok e, t)
      → t.numbers ≡ s.numbers
  unfolding create books_ports
  create-numbers n s h = after_bind _ _ s h λ built s1 checked h1.
      after_bind _ _ s1 h1 λ id s2 drawn h2. after_bind _ _ s2 h2 λ now s3 read h3.
        ap (λ x. x.numbers) (sym (pure-eq h3).1)
        ∙ ap (λ q. q.1.numbers) (sym read)
        ∙ ap (λ q. q.1.numbers) (sym drawn)
        ∙ ap (λ x. x.numbers) (sym (lift-ok (checked_lines n.lines) {s = s} checked).1)

  -- A command that is posted takes the number of one draw.
  post_draws :
      (cmd : PostingCommand) (s : Books) {e : JournalEntry} {t : Books}
      → post ports cmd s ≡ (ok e, t)
      → next series_id touch cmd.voucher_type cmd.company_id cmd.financial_year_id s.numbers
        ≡ (ok e.entry_no, t.numbers)
  unfolding post write_entry books_ports
  post_draws cmd s {e} h = after_bind _ _ s h λ u s1 passed h1.
      after_bind _ _ s1 h1 λ entry_no s2 drawn h2. after_bind _ _ s2 h2 λ entry s3 made h3.
        after_bind _ _ s3 h3 λ v s4 saved h4.
          let same =
            sym (ap (λ q. q.1.numbers) passed)
            ∙ ap (λ x. x.numbers)
                (validate-Reads ports (books_ports_keep new_id series_id clock touch).0 cmd s) in
          let number = (create-ok ports.next_id ports.now _ s2 made).5 in
          let kept = insert-numbers entry s3 saved ∙ create-numbers _ s2 made in
          let numbered = sym number ∙ ap (λ x. x.entry_no) (pure-eq h4).0 in
          let ended = sym kept ∙ ap (λ x. x.numbers) (pure-eq h4).1 in
          ap (next series_id touch cmd.voucher_type cmd.company_id cmd.financial_year_id) (sym same)
          ∙ (λ i. ((drawn i).0, (drawn i).1.numbers))
          ∙ (λ i. (ok (numbered i), ended i))

  -- The commands are posted one after the other, each in its own transaction; the entries of those
  -- that succeed are kept.
  abbrev kept_entry : Result JournalEntry → List JournalEntry → List JournalEntry
  kept_entry (ok e) es = e ∷ es
  kept_entry (err f) es = es

  abbrev pub post_each : List PostingCommand → Books → List JournalEntry × Books
  post_each [] s = ([], s)
  post_each (cmd ∷ cmds) s =
      let (r, t) = run (post ports cmd) s in let (es, u) = post_each cmds t in (kept_entry r es, u)

  abbrev pub IsOf : VoucherType → Text → Text → PostingCommand → Type 0
  IsOf v c fy cmd = (cmd.voucher_type ≡ v) × (cmd.company_id ≡ c) × (cmd.financial_year_id ≡ fy)

  -- Whatever commands of one voucher type, company and year are tried, each in its own transaction, the
  -- entries of those that succeed carry consecutive numbers after the last one of the series, without
  -- gap or repetition: a refused or failing command uses up no number. The series and the year exist.
  pub attempts_consecutive :
      (v : VoucherType) (c fy : Text) (cmds : List PostingCommand) (s : Books) (r : NumberingSeries)
      (y : FinancialYear)
      → All (IsOf v c fy) cmds
      → lock_series v c fy s.numbers ≡ some r
      → year_of c fy s.numbers ≡ some y
      → map (λ e. e.entry_no) (post_each cmds s).0
        ≡ numbers_from series_id touch
            (length (post_each cmds s).0)
            r.prefix
            (fy_short_label y.start_year y.end_year)
            r.padding_width
            r.last_sequence
  unfolding run lock_series year_of
  attempts_consecutive v c fy [] s r y of_one row year = refl
  attempts_consecutive v c fy (cmd ∷ cmds) s r y of_one row year =
      elim (Result-cases (post ports cmd s).0) [
        | inl (e, posted) ↦
            let done = with_state (post ports cmd) s (ok e) posted in
            let t = (post ports cmd s).1 in
            let (is_v, is_c, is_fy) = of_one.0 in
            let draws : next series_id touch v c fy s.numbers ≡ (ok e.entry_no, t.numbers) =
              (λ i. next series_id touch (sym is_v i) (sym is_c i) (sym is_fy i) s.numbers)
              ∙ post_draws cmd s done in
            let (_, drawn, row_t, year_t) =
              next-found series_id touch v c fy s.numbers r y row
                (next-fits series_id touch v c fy s.numbers r row draws) year in
            let both = sym drawn ∙ draws in
            let more =
              attempts_consecutive v c fy cmds t _ y of_one.1
                (ap (λ q. lock_series v c fy q.1) (sym both) ∙ row_t)
                (ap (λ q. year_of c fy q.1) (sym both) ∙ year_t) in
            rw done (λ i. sym (ok_inj (ap (λ q. q.0) both)) i ∷ more i)
        | inr (f, failed) ↦
            let stopped = with_state (post ports cmd) s (err f) failed in
            rw stopped (
              attempts_consecutive v c fy cmds (rolled_back s (post ports cmd s).1) r y of_one.1 row
                year)
      ]
