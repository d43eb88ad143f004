-- ===== src/Tests/Accounts.antt =====
-- Books with one open period and one series, and a contra voucher that is posted to them.
use construction_erp_nestjs.Prelude.{◌≡◌, ◌⊎◌, refl, some, [], ◌∷◌, map, length}
use construction_erp_nestjs.Prelude.Text.{Text, codes, text_eq, text_le, pad_start}
use construction_erp_nestjs.Errors.{ErrorCode, Failure, domain, ok, err}
use construction_erp_nestjs.Posting.Command.{VoucherType, PostingCommand}
use construction_erp_nestjs.Posting.Entry.{JournalEntry}
use construction_erp_nestjs.Posting.Service.{
  Ports, ReadOnly, EntryStore, Finds, post, reverse, reversible, distinct_ids, distinct_from,
}
use construction_erp_nestjs.Posting.Build.{reverse as reverse_entry}
use construction_erp_nestjs.Errors.Action.{◌>>=◌}
use construction_erp_nestjs.Period.Aggregate.{owns, is_open}
use construction_erp_nestjs.Period.Table.{find_owning}
use construction_erp_nestjs.Numbering.Format.{
  fy_short_label, format_voucher_number, digits_from, to_string, two,
}
use construction_erp_nestjs.Numbering.Gapless.{numbers_from}
use construction_erp_nestjs.Books.{
  Books, books_ports, find_entry, reversal_exists, order_by_no, insert_by_no, insert_entry,
}
use construction_erp_nestjs.Period.Methods.{assert_open}
use construction_erp_nestjs.Numbering.Series.{
  next, locked, or_provision, lock_series, allocate, year_of, count_up, fit_column,
}
use construction_erp_nestjs.Posting.Entry.{swap_lines, swapped}
use construction_erp_nestjs.Books.Store.{books_ports_keep}
use construction_erp_nestjs.Books.Reversed.{reversal_stays}
use construction_erp_nestjs.Books.Closed.{closed_period_refuses_post, closed_year_freezes}
use construction_erp_nestjs.Books.Consecutive.{post_each, attempts_consecutive}
use construction_erp_nestjs.Tests.Decimals.{fixed_point}
use construction_erp_nestjs.Tests.Ledger.{contra_command, contra_entry, contra_reversal}
use construction_erp_nestjs.Tests.Numbers.{
  contra_series, year_2526, one_series, fresh_id, keep, series_there, year_there,
}
use construction_erp_nestjs.Tests.Periods.{
  july, one_period, user, after_close, watch, july_closed, year_closed,
}

abbrev pub books : Books
books = record {
  periods = one_period;
  numbers = one_series;
  entries = [];
  ids_drawn = 0;
  clock_reads = 0;
}

abbrev pub test_ports : Ports Books
test_ports = books_ports fresh_id fresh_id watch keep

abbrev closed_books : Books
closed_books = record books { periods = after_close }

contra_owned : find_owning (codes "c") (codes "fy") (codes "2025-07-01") one_period ≡ some july
unfolding find_owning owns text_eq text_le
contra_owned = refl

books_ports_keep_example : ReadOnly Books test_ports × EntryStore test_ports
books_ports_keep_example = books_ports_keep fresh_id fresh_id watch keep

closed_period_refuses_post_example :
    post test_ports contra_command closed_books
    ≡ (err (domain ErrorCode.period_closed), closed_books)
closed_period_refuses_post_example =
    closed_period_refuses_post fresh_id fresh_id watch keep contra_command user books july
      (((λ h. refl), tt), tt) refl contra_owned
      (λ i. ((july_closed i).0, record books { periods = (july_closed i).1 }))

closed_year_freezes_example :
    ((cmd : PostingCommand)
      → cmd.company_id ≡ codes "c"
      → cmd.financial_year_id ≡ codes "fy"
      → (post test_ports cmd closed_books ≡ (err (domain ErrorCode.period_closed), closed_books))
        ⊎ (post test_ports cmd closed_books
            ≡ (err (domain ErrorCode.no_period_defined), closed_books)))
    × ((id reason by : Text) (o : JournalEntry)
        → Finds test_ports id (codes "c") o closed_books
        → o.financial_year_id ≡ codes "fy"
        → (f : Failure) × (reverse test_ports id (codes "c") reason by closed_books
            ≡ (err f, closed_books)))
closed_year_freezes_example =
    closed_year_freezes fresh_id fresh_id watch keep (codes "fy") user books
      (λ i. ((year_closed i).0, record books { periods = (year_closed i).1 }))

attempts_consecutive_example :
    map
      (λ e. e.entry_no)
      (post_each fresh_id fresh_id watch keep (contra_command ∷ contra_command ∷ []) books).0
    ≡ numbers_from fresh_id keep
        (length
          (post_each fresh_id fresh_id watch keep (contra_command ∷ contra_command ∷ []) books).0)
        (codes "CV")
        (fy_short_label 2025 2026)
        4
        7
attempts_consecutive_example =
    attempts_consecutive fresh_id fresh_id watch keep VoucherType.contra (codes "c") (codes "fy")
      (contra_command ∷ contra_command ∷ []) books contra_series year_2526
      ((refl, refl, refl), ((refl, refl, refl), tt)) series_there year_there

abbrev posted_books : Books
posted_books = record books { entries = contra_entry ∷ []; ids_drawn = 1 }

abbrev reversal : JournalEntry
reversal = record contra_reversal { entry_no = codes "CV/2526/0008" }

abbrev reversed_books : Books
reversed_books =
    (reverse test_ports (0 ∷ []) (codes "c") (codes "wrong") (codes "w") posted_books).1

books_reversed :
    reverse test_ports (0 ∷ []) (codes "c") (codes "wrong") (codes "w") posted_books
    ≡ (ok reversal, reversed_books)
unfolding reverse reversible reverse_entry ◌>>=◌ distinct_ids text_eq books_ports find_entry
    reversal_exists assert_open find_owning text_le order_by_no insert_by_no next locked
    or_provision lock_series allocate year_of insert_entry format_voucher_number fy_short_label
    digits_from to_string two count_up fit_column is_open owns swap_lines swapped distinct_from
    pad_start
books_reversed = refl

reversal_stays_example :
    reverse test_ports reversal.id (codes "c") (codes "again") (codes "x") reversed_books
    ≡ (err (domain ErrorCode.cannot_reverse_reversal), reversed_books)
reversal_stays_example =
    reversal_stays fresh_id fresh_id watch keep (0 ∷ []) (codes "c") (codes "wrong") (codes "w")
      (codes "again") (codes "x") posted_books books_reversed
