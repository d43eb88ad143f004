-- ===== src/Books.antt =====
-- The books: the rows of the ledger, the periods and the number series of one database, and the ports of
-- the posting service as core/posting/posting.module.ts binds them (the journal entry repository, the
-- adapters of mas-seam.adapters.ts, the period guard and the numbering service).
pub mod Store
pub mod Closed
pub mod Consecutive
pub mod Reversed
use construction_erp_nestjs.Prelude.{
  ℕ, suc, Option, none, some, Bool, ◌&&◌, List, [], ◌∷◌, ◌++◌, find, any, if◌then◌else◌, leb,
}
use construction_erp_nestjs.Prelude.Text.{Text, text_eq}
use construction_erp_nestjs.Errors.{Result, ok, err, query_failed}
use construction_erp_nestjs.Errors.Action.{Action, pure, gets}
use construction_erp_nestjs.Decimal.{DecimalLib}
use construction_erp_nestjs.Posting.Entry.{JournalLine, JournalEntry}
use construction_erp_nestjs.Posting.Service.{Ports}
use construction_erp_nestjs.Period.Table.{PeriodState}
use construction_erp_nestjs.Period.Methods.{assert_open}
use construction_erp_nestjs.Numbering.Series.{NumberingState, next}

module _ ⦃d : DecimalLib⦄ where
  pub record Books : Type 0 where
    pub periods : PeriodState
    pub numbers : NumberingState
    -- The rows of `journal_entry`, each with its rows of `journal_line`.
    pub entries : List JournalEntry
    pub ids_drawn : ℕ
    pub clock_reads : ℕ

  -- A method on the rows of the periods, or of the number series.
  abbrev pub on_periods : {A : Type 0} → Action PeriodState A → Action Books A
  on_periods m s = ((m s.periods).0, record s { periods = (m s.periods).1 })

  abbrev pub on_numbers : {A : Type 0} → Action NumberingState A → Action Books A
  on_numbers m s = ((m s.numbers).0, record s { numbers = (m s.numbers).1 })

  -- The sort of `toDomain`, by line number.
  unfoldable pub insert_by_no : JournalLine → List JournalLine → List JournalLine
  insert_by_no l [] = l ∷ []
  insert_by_no l (k ∷ ks) =
      let later = insert_by_no l ks in if leb l.line_no k.line_no then l ∷ k ∷ ks else k ∷ later

  unfoldable pub order_by_no : List JournalLine → List JournalLine
  order_by_no [] = []
  order_by_no (l ∷ ls) = insert_by_no l (order_by_no ls)

  abbrev pub to_domain : Option JournalEntry → Option JournalEntry
  to_domain none = none
  to_domain (some e) = some (record e { lines = order_by_no e.lines })

  -- `findOne({ where: { id, companyId } })`.
  abbrev pub is_row : Text → Text → JournalEntry → Bool
  is_row id company_id e = text_eq e.id id && text_eq e.company_id company_id

  unfoldable pub find_entry : Text → Text → Books → Option JournalEntry
  find_entry id company_id s = to_domain (find (is_row id company_id) s.entries)

  abbrev pub is_reversal_row : Text → Text → JournalEntry → Bool
  is_reversal_row id company_id e =
      elim e.reversal_of [ none ↦ Bool.false | some o ↦ text_eq o id ]
      && text_eq e.company_id company_id

  -- `count({ where: { reversalOf: id, companyId } }) > 0`.
  unfoldable pub reversal_exists : Text → Text → Books → Bool
  reversal_exists id company_id s = any (is_reversal_row id company_id) s.entries

  -- `insert`, which the primary key refuses when the id is taken.
  unfoldable pub insert_entry : JournalEntry → Action Books (Unit {0})
  insert_entry e s =
      if any (λ r. text_eq r.id e.id) s.entries
      then (err query_failed, s)
      else (ok tt, record s { entries = s.entries ++ (e ∷ []) })

  -- The tables as they were, while the counters of the ports' calls go on.
  abbrev pub rolled_back : Books → Books → Books
  rolled_back s t = record s {
    periods = record (s.periods) { clock_reads = t.periods.clock_reads };
    numbers = record (s.numbers) { ids_drawn = t.numbers.ids_drawn };
    ids_drawn = t.ids_drawn;
    clock_reads = t.clock_reads;
  }

  abbrev pub settle : {A : Type 0} → Books → Result A × Books → Result A × Books
  settle s (ok a, t) = (ok a, t)
  settle s (err e, t) = (err e, rolled_back s t)

  -- `UnitOfWork.run`: what throws is rolled back.
  unfoldable pub run : {A : Type 0} → Action Books A → Action Books A
  run m s = settle s (m s)

-- `new_id n` and `clock n` are what the ports `IdGenerator` and `Clock` return at the n-th call, and
-- `touch` is what an update by criteria does to a version column.
module _ ⦃d : DecimalLib⦄ (new_id series_id : ℕ → Text) (clock touch : ℕ → ℕ) where
  unfoldable pub books_ports : Ports Books
  books_ports = record {
    assert_open = λ c fy date. on_periods (assert_open c fy date);
    assert_not_closed = λ c project. pure tt;
    assert_references_valid = λ cmd. pure tt;
    next = λ v c fy. on_numbers (next series_id touch v c fy);
    save = insert_entry;
    find_by_id = λ id c. gets (find_entry id c);
    exists_reversal_of = λ id c. gets (reversal_exists id c);
    next_id = λ s. (ok (new_id s.ids_drawn), record s { ids_drawn = suc s.ids_drawn });
    now = λ s. (ok (clock s.clock_reads), record s { clock_reads = suc s.clock_reads });
  }
