-- ===== src/Tests/Journals.antt =====
-- A stock journal that issues four units from a godown, and one that transfers them to another.
use construction_erp_nestjs.Prelude.{◌≡◌, refl, none, some, false, [], ◌∷◌}
use construction_erp_nestjs.Prelude.Int.{pos}
use construction_erp_nestjs.Prelude.Text.{codes, text_eq, trim, trim_start}
use construction_erp_nestjs.Errors.{ok}
use construction_erp_nestjs.Inventory.Draft.{
  transfer, draft, approved, cancelled, out, in_, StockJournalLine, NewStockJournal, StockJournal,
  create_draft, draft_header, side_rule_for, assert_sides, clean, to_qty, req, side_line,
  create_line,
}
use construction_erp_nestjs.Inventory.Draft.Shape.{IsDraftOf, create_draft-IsDraft}
use construction_erp_nestjs.Inventory.Journal.Lifecycle.{Operation, apply_all}
use construction_erp_nestjs.Inventory.Journal.Reach.{
  Completion, rest_of_life, LeavesCancelled, ends_cancelled,
}
use construction_erp_nestjs.Tests.Decimals.{fixed_point}

abbrev four_moved : NewStockJournal
four_moved = record {
  voucher_date = codes "2025-07-15";
  mode = some transfer;
  from_godown_id = some (codes "g");
  to_godown_id = some (codes "h");
  item_id = codes "i";
  quantity = some (pos 40000);
  project_id = codes "p";
  cost_centre_id = codes "k";
  purpose_id = codes "q";
  issued_by_id = none;
  received_by_id = none;
  narration = none;
}

abbrev pub four_out : StockJournalLine
four_out = record {
  line_no = 1;
  side = out;
  godown_id = codes "g";
  item_id = codes "i";
  quantity = pos 40000;
  rate = none;
  value = none;
  project_id = codes "p";
  cost_centre_id = codes "k";
  purpose_id = codes "q";
}

abbrev pub four_in : StockJournalLine
four_in = record four_out { line_no = 2; side = in_; godown_id = codes "h" }

abbrev drafted : StockJournal
drafted = record {
  id = codes "j1";
  company_id = codes "c";
  financial_year_id = codes "fy";
  entry_no = none;
  voucher_date = codes "2025-07-15";
  mode = transfer;
  status = draft;
  from_godown_id = some (codes "g");
  to_godown_id = some (codes "h");
  item_id = codes "i";
  quantity = pos 40000;
  rate = none;
  value = none;
  project_id = codes "p";
  cost_centre_id = codes "k";
  purpose_id = codes "q";
  issued_by_id = none;
  received_by_id = none;
  approved_by_id = none;
  approved_at = none;
  allow_negative_stock = false;
  negative_stock_authorised_by_id = none;
  negative_stock_reason = none;
  journal_entry_id = none;
  narration = none;
  posted_at = none;
  posted_by_id = none;
  version = 1;
  lines = four_out ∷ four_in ∷ [];
}

draft_made : create_draft (codes "j1") (codes "c") (codes "fy") four_moved ≡ ok drafted
unfolding create_draft draft_header side_rule_for assert_sides clean to_qty req side_line
    create_line trim trim_start text_eq
draft_made = refl

create_draft-IsDraft_example : IsDraftOf (codes "j1") (codes "c") (codes "fy") drafted
create_draft-IsDraft_example =
    create_draft-IsDraft (codes "j1") (codes "c") (codes "fy") four_moved draft_made

abbrev pub approved_transfer : StockJournal
approved_transfer = record drafted {
  status = approved;
  approved_by_id = some (codes "u");
  approved_at = some 0;
}

abbrev figures : Completion
figures = record {
  approver = codes "u";
  approved_at = 1;
  entry_no = none;
  journal_entry_id = none;
  rate = pos 20000;
  value = pos 80000;
  lines = drafted.lines;
  posted_by = codes "w";
  posted_at = 2;
}

ends_cancelled_example :
    (k : StockJournal) × (apply_all (rest_of_life figures draft) drafted ≡ ok k)
    × (k.status ≡ cancelled)
    × ((o : Operation) → LeavesCancelled o k)
ends_cancelled_example = ends_cancelled figures drafted
