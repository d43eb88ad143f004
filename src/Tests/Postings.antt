-- ===== src/Tests/Postings.antt =====
-- Stock journals are posted over a stock of ten units and a ledger in a list.
use construction_erp_nestjs.Prelude.{◌≡◌, refl, Option, none, some, false, [], ◌∷◌, arith}
use construction_erp_nestjs.Prelude.Int.{pos, ◌+ℤ◌, ◌-ℤ◌}
use construction_erp_nestjs.Prelude.Text.{Text, codes, text_eq, trim, trim_start}
use construction_erp_nestjs.Errors.{ErrorCode, domain, ok, err}
use construction_erp_nestjs.Errors.Action.{Action, ◌>>=◌}
use construction_erp_nestjs.Posting.Command.{VoucherType}
use construction_erp_nestjs.Posting.Tags.{assert_tags, assert_lines, assert_line}
use construction_erp_nestjs.Posting.Entry.{
  JournalEntry, assert_postable as assert_entry, checked_lines, create_line, assert_min_lines,
  assert_balanced, create_lines, total_debit, total_credit,
}
use construction_erp_nestjs.Posting.Build.{create as create_entry}
use construction_erp_nestjs.Posting.Service.{distinct_ids, validate, write_entry, post}
use construction_erp_nestjs.Inventory.Valuation.{
  assert_positive, assert_non_negative, average_rate, issued_value_of, value_issue,
  apply_transfer_in,
}
use construction_erp_nestjs.Inventory.Movement.{
  MovementDirection, MovementSourceType, StockMovement, create,
}
use construction_erp_nestjs.Inventory.Store.{
  StockBalance, StockState, balance_row, append, upsert, current_balance_for_update,
}
use construction_erp_nestjs.Inventory.Draft.{issue, StockJournal, with_valuation}
use construction_erp_nestjs.Inventory.Journal.{
  assert_postable, record_negative_stock_authorisation, mark_posted,
}
use construction_erp_nestjs.Inventory.Sides.{Actor, PostedSide, write_side, post_out, post_in}
use construction_erp_nestjs.Inventory.Sides.Neutral.{transfer_keeps_rows}
use construction_erp_nestjs.Inventory.Vouchers.{
  PostStockJournalInput, JournalState, Accounts, find_journal, save_journal, build_posting_command,
  post_journal, post_stock_journal,
}
use construction_erp_nestjs.Inventory.Vouchers.Once.{posted_once}
use construction_erp_nestjs.Tests.Decimals.{fixed_point, fixed_point_exact}
use construction_erp_nestjs.Tests.Ledger.{Entries, ledger_ports}
use construction_erp_nestjs.Tests.Numbers.{fresh_id}
use construction_erp_nestjs.Tests.Periods.{watch}
use construction_erp_nestjs.Tests.Stock.{ten_row}
use construction_erp_nestjs.Tests.Journals.{approved_transfer, four_out, four_in}

abbrev clerk : Actor
clerk = record { user_id = codes "u"; company_id = codes "c" }

abbrev there_row : StockBalance
there_row = record ten_row { godown_id = codes "h" }

abbrev two_rows : StockState
two_rows = record {
  movements = [];
  balances = ten_row ∷ there_row ∷ [];
  ids_drawn = 0;
  clock_reads = 0;
}

abbrev side_out : PostedSide
side_out = record { line = four_out; rate = pos 25000; value = pos 100000 }

abbrev side_in : PostedSide
side_in = record { line = four_in; rate = pos 25000; value = pos 100000 }

abbrev moved_out : StockMovement
moved_out = record {
  id = 1 ∷ [];
  company_id = codes "c";
  godown_id = codes "g";
  item_id = codes "i";
  source_type = MovementSourceType.stock_journal;
  source_id = codes "j1";
  direction = MovementDirection.out;
  quantity = pos 40000;
  rate = pos 25000;
  value = pos 100000;
  balance_qty_after = pos 60000;
  balance_value_after = pos 150000;
  avg_rate_after = some (pos 25000);
  is_reversal = false;
  reversal_of = none;
  voucher_date = codes "2025-07-15";
  posted_at = 0;
  posted_by = codes "u";
}

abbrev moved_in : StockMovement
moved_in = record moved_out {
  id = 4 ∷ [];
  godown_id = codes "h";
  direction = MovementDirection.in_;
  balance_qty_after = pos 140000;
  balance_value_after = pos 350000;
}

abbrev six_row : StockBalance
six_row = record ten_row { quantity_on_hand = pos 60000; total_value = pos 150000 }

abbrev fourteen_row : StockBalance
fourteen_row = record there_row { quantity_on_hand = pos 140000; total_value = pos 350000 }

abbrev after_out : StockState
after_out = record {
  movements = moved_out ∷ [];
  balances = six_row ∷ there_row ∷ [];
  ids_drawn = 3;
  clock_reads = 0;
}

abbrev after_in : StockState
after_in = record {
  movements = moved_out ∷ moved_in ∷ [];
  balances = six_row ∷ fourteen_row ∷ [];
  ids_drawn = 6;
  clock_reads = 0;
}

went_out :
    post_out fresh_id 0 clerk approved_transfer false four_out two_rows ≡ (ok side_out, after_out)
unfolding post_out current_balance_for_update value_issue assert_positive assert_non_negative
    issued_value_of write_side create append upsert average_rate text_eq ◌>>=◌ ◌-ℤ◌
went_out = refl

came_in :
    post_in fresh_id 0 clerk approved_transfer (pos 25000) (pos 100000) four_in after_out
    ≡ (ok side_in, after_in)
unfolding post_in current_balance_for_update apply_transfer_in assert_positive assert_non_negative
    write_side create append upsert average_rate text_eq ◌>>=◌ ◌+ℤ◌
came_in = refl

source_there : balance_row (codes "c") (codes "g") (codes "i") two_rows ≡ some ten_row
unfolding text_eq
source_there = refl

target_there : balance_row (codes "c") (codes "h") (codes "i") two_rows ≡ some there_row
unfolding text_eq
target_there = refl

godowns_apart : text_eq (codes "g") (codes "h") ≡ false
unfolding text_eq
godowns_apart = refl

transfer_keeps_rows_example :
    (source2 : StockBalance) × (target2 : StockBalance) × (balance_row
        (codes "c")
        (codes "g")
        (codes "i")
        after_in
      ≡ some source2)
    × (balance_row (codes "c") (codes "h") (codes "i") after_in ≡ some target2)
    × (source2.quantity_on_hand +ℤ target2.quantity_on_hand ≡ pos 100000 +ℤ pos 100000)
    × (source2.total_value +ℤ target2.total_value ≡ pos 250000 +ℤ pos 250000)
unfolding ◌-ℤ◌ ◌+ℤ◌
transfer_keeps_rows_example =
    transfer_keeps_rows fresh_id 0 clerk fixed_point_exact approved_transfer false four_out four_in
      two_rows ten_row there_row godowns_apart refl source_there target_there
      (record { qty = (omega arith, omega arith); value = (omega arith, omega arith) })
      (record { qty = (omega arith, omega arith); value = (omega arith, omega arith) })
      (omega arith, omega arith) (omega arith, omega arith) (omega arith, omega arith)
      (omega arith, omega arith) (omega arith, omega arith) (omega arith, omega arith) went_out
      came_in

abbrev approved_issue : StockJournal
approved_issue = record approved_transfer {
  mode = issue;
  to_godown_id = none;
  lines = four_out ∷ [];
}

abbrev resolver : Accounts Entries
resolver = record {
  inventory_account_of = λ c item s. (ok (codes "stock"), s);
  expense_account_of = λ c s. (ok (codes "material"), s);
}

abbrev site : JournalState Entries
site = record {
  ledger = [];
  stock = two_rows;
  journals = record { journal = approved_issue; deleted = false } ∷ [];
  audit_log = [];
}

abbrev plain : PostStockJournalInput
plain = record { allow_negative_stock = none; negative_stock_reason = none }

abbrev site_posted : JournalState Entries
site_posted =
    (post_journal ledger_ports resolver fresh_id watch (codes "j1") clerk false approved_issue
      site).1

abbrev issue_entry : JournalEntry
issue_entry = record {
  id = 0 ∷ [];
  company_id = codes "c";
  financial_year_id = codes "fy";
  entry_no = 0 ∷ [];
  voucher_type = VoucherType.stock_journal;
  voucher_date = codes "2025-07-15";
  source_type = codes "STOCK_JOURNAL";
  source_id = codes "j1";
  is_reversal = false;
  reversal_of = none;
  posted_at = 0;
  posted_by = codes "u";
  narration = none;
  lines =
      record {
        line_no = 1;
        props = record {
          account_id = codes "material";
          project_id = some (codes "p");
          cost_centre_id = some (codes "k");
          purpose_id = some (codes "q");
          godown_id = some (codes "g");
          party_id = none;
          debit = record { amount = pos 100000 };
          credit = record { amount = pos 0 };
          narration = none;
        };
      }
      ∷ record {
        line_no = 2;
        props = record {
          account_id = codes "stock";
          project_id = some (codes "p");
          cost_centre_id = some (codes "k");
          purpose_id = some (codes "q");
          godown_id = some (codes "g");
          party_id = none;
          debit = record { amount = pos 0 };
          credit = record { amount = pos 100000 };
          narration = none;
        };
      }
      ∷ [];
}

abbrev issue_post :
    Text → PostStockJournalInput → Actor → Action (JournalState Entries) (Option Text × Option Text)
issue_post = post_stock_journal ledger_ports resolver fresh_id watch

abbrev site_after : JournalState Entries
site_after = (issue_post (codes "j1") plain clerk site).1

issue_journal_posted :
    issue_post (codes "j1") plain clerk site ≡ (ok (some (0 ∷ []), some (0 ∷ [])), site_after)
unfolding post_stock_journal find_journal record_negative_stock_authorisation trim trim_start
    post_journal post_out current_balance_for_update value_issue assert_positive assert_non_negative
    issued_value_of write_side create append upsert average_rate text_eq ◌>>=◌ ◌-ℤ◌ ◌+ℤ◌
    build_posting_command post validate write_entry create_entry assert_tags assert_entry
    distinct_ids assert_lines assert_line checked_lines create_lines create_line assert_min_lines
    assert_balanced total_debit total_credit mark_posted assert_postable with_valuation save_journal
issue_journal_posted = refl

posted_once_example :
    issue_post (codes "j1") plain clerk site_after
    ≡ (err (domain ErrorCode.stock_journal_not_approved), site_after)
posted_once_example =
    posted_once ledger_ports resolver fresh_id watch (codes "j1") plain plain clerk clerk site
      issue_journal_posted refl refl
