-- ===== src/Posting/Build.antt =====
-- `JournalEntry.create` and `JournalEntry.reverse` (core/posting/domain/journal-entry.ts).
-- Identifiers and the time come from the ports `IdGenerator` and `Clock`: actions on the caller's state.
use construction_erp_nestjs.Prelude.{ℕ, none, some, true, false, ◌++◌}
use construction_erp_nestjs.Errors.Action.{Action, lift, pure, ◌>>=◌}
use construction_erp_nestjs.Decimal.{DecimalLib}
use construction_erp_nestjs.Prelude.Text.{Text, codes}
use construction_erp_nestjs.Posting.Entry.{NewEntry, JournalEntry, checked_lines, swap_lines}

module _ ⦃d : DecimalLib⦄ {S : Type 0} (ids : Action S Text) (clock : Action S ℕ) where
  unfoldable pub create : NewEntry → Action S JournalEntry
  create e = do
    built ← lift (checked_lines e.lines)
    id ← ids
    now ← clock
    pure (record {
      id = id;
      company_id = e.company_id;
      financial_year_id = e.financial_year_id;
      entry_no = e.entry_no;
      voucher_type = e.voucher_type;
      voucher_date = e.voucher_date;
      source_type = e.source_type;
      source_id = e.source_id;
      is_reversal = false;
      reversal_of = none;
      posted_at = now;
      posted_by = e.posted_by;
      narration = e.narration;
      lines = built;
    })

  unfoldable pub reverse : JournalEntry → Text → Text → Text → Action S JournalEntry
  unfolding swap_lines
  reverse e reason entry_no posted_by = do
    id ← ids
    now ← clock
    pure (record e {
      id = id;
      entry_no = entry_no;
      is_reversal = true;
      reversal_of = some e.id;
      posted_at = now;
      posted_by = posted_by;
      narration = some (codes "Reversal: " ++ reason);
      lines = swap_lines e.lines 1;
    })
