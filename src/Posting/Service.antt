-- ===== src/Posting/Service.antt =====
-- The posting service (core/posting/application/posting.service.ts) over its ports, which are the
-- fields of `Ports`: the interfaces of core/posting/domain/ports and common/ports, as actions on the
-- state `S` of the transaction that the caller has opened.
pub mod Order
pub mod Outcome
pub mod Reversal
pub mod Refusal
use construction_erp_nestjs.Prelude.{
  ℕ, ◌≡◌, Option, none, some, Bool, true, false, List, [], ◌∷◌, ◌++◌, map, any, if◌then◌else◌,
}
use construction_erp_nestjs.Errors.{ErrorCode, ok}
use construction_erp_nestjs.Errors.Action.{
  Action, lift, pure, or_throw, throws_if, for_each, ◌>>=◌, ◌>>◌,
}
use construction_erp_nestjs.Decimal.{DecimalLib}
use construction_erp_nestjs.Prelude.Text.{Text, text_eq}
use construction_erp_nestjs.Posting.Command.{VoucherType, PostingLine, PostingCommand, is_missing}
use construction_erp_nestjs.Posting.Tags.{assert_tags}
use construction_erp_nestjs.Posting.Entry.{JournalLine, JournalEntry, NewEntry, assert_postable}
use construction_erp_nestjs.Posting.Build.{create, reverse as reverse_entry}

module _ ⦃d : DecimalLib⦄ (S : Type 0) where
  pub record Ports : Type 0 where
    -- `PeriodService.assertOpen(companyId, financialYearId, voucherDate)`.
    pub assert_open : Text → Text → Text → Action S (Unit {0})
    -- `ProjectStatusService.assertNotClosed(companyId, projectId)`.
    pub assert_not_closed : Text → Text → Action S (Unit {0})
    -- `MasterLookupService.assertReferencesValid(cmd)`.
    pub assert_references_valid : PostingCommand → Action S (Unit {0})
    -- `NumberingService.next(voucherType, companyId, fyId)`.
    pub next : VoucherType → Text → Text → Action S Text
    -- `JournalEntryRepository`.
    pub save : JournalEntry → Action S (Unit {0})
    pub find_by_id : Text → Text → Action S (Option JournalEntry)
    pub exists_reversal_of : Text → Text → Action S Bool
    -- `IdGenerator.next()` and `Clock.now()`.
    pub next_id : Action S Text
    pub now : Action S ℕ

  -- What the ports' documentation says: the guards and the reads return or throw, and write nothing.
  pub record ReadOnly (p : Ports) : Type 0 where
    pub assert_open_reads : (c fy date : Text) (s : S) → (p.assert_open c fy date s).1 ≡ s
    pub assert_not_closed_reads :
        (c project : Text) (s : S) → (p.assert_not_closed c project s).1 ≡ s
    pub assert_references_reads :
        (cmd : PostingCommand) (s : S) → (p.assert_references_valid cmd s).1 ≡ s
    pub find_by_id_reads : (id c : Text) (s : S) → (p.find_by_id id c s).1 ≡ s
    pub exists_reversal_of_reads : (id c : Text) (s : S) → (p.exists_reversal_of id c s).1 ≡ s

module _ ⦃d : DecimalLib⦄ {S : Type 0} (p : Ports S) where
  -- `findById(id, companyId)` finds the entry `o` in the state `s`.
  abbrev pub Finds : Text → Text → JournalEntry → S → Type 0
  Finds id c o s = (p.find_by_id id c s).0 ≡ ok (some o)

  -- What the repository's documentation says: entries are found by their own id and company, nothing
  -- that the service calls removes or changes one, and a saved reversal is known from then on.
  pub record EntryStore : Type 0 where
    pub found_key :
        (id c : Text) (o : JournalEntry) (s : S) → Finds id c o s → (o.id ≡ id) × (o.company_id ≡ c)
    pub next_keeps :
        (v : VoucherType) (k fy id c : Text) (o : JournalEntry) (s : S)
        → Finds id c o s
        → Finds id c o (p.next v k fy s).1
    pub next_id_keeps :
        (id c : Text) (o : JournalEntry) (s : S) → Finds id c o s → Finds id c o (p.next_id s).1
    pub now_keeps :
        (id c : Text) (o : JournalEntry) (s : S) → Finds id c o s → Finds id c o (p.now s).1
    pub save_keeps :
        (e : JournalEntry) (id c : Text) (o : JournalEntry) (s : S)
        → Finds id c o s
        → Finds id c o (p.save e s).1
    pub save_known :
        (e : JournalEntry) (id : Text) (s t : S)
        → p.save e s ≡ (ok tt, t)
        → e.reversal_of ≡ some id
        → (p.exists_reversal_of id e.company_id t).0 ≡ ok true

-- `[...new Set(ids.filter((p) => !!p))]`: the present ids, each once, in the order of first sight.
unfoldable pub distinct_from : List Text → List (Option Text) → List Text
distinct_from seen [] = []
distinct_from seen (none ∷ os) = distinct_from seen os
distinct_from seen (some t ∷ os) =
    let rest = distinct_from seen os in
    let more = t ∷ distinct_from (t ∷ seen) os in
    if is_missing (some t) then rest else if any (text_eq t) seen then rest else more

unfoldable pub distinct_ids : List (Option Text) → List Text
unfolding distinct_from
distinct_ids os = distinct_from [] os

module _ ⦃d : DecimalLib⦄ {S : Type 0} (p : Ports S) where
  -- The guards of `post`, steps 1 to 6.
  unfoldable pub validate : PostingCommand → Action S (Unit {0})
  validate cmd = do
    p.assert_open cmd.company_id cmd.financial_year_id cmd.voucher_date
    for_each (p.assert_not_closed cmd.company_id) (distinct_ids (map (λ l. l.project_id) cmd.lines))
    lift (assert_tags cmd)
    p.assert_references_valid cmd
    lift (assert_postable (map (λ l. l.line) cmd.lines))

  -- Steps 7 and 8: the number, then the entry.
  unfoldable pub write_entry : PostingCommand → Action S JournalEntry
  write_entry cmd = do
    entry_no ← p.next cmd.voucher_type cmd.company_id cmd.financial_year_id
    entry ← create p.next_id p.now (record {
      company_id = cmd.company_id;
      financial_year_id = cmd.financial_year_id;
      entry_no = entry_no;
      voucher_type = cmd.voucher_type;
      voucher_date = cmd.voucher_date;
      source_type = cmd.source_type;
      source_id = cmd.source_id;
      posted_by = cmd.posted_by;
      narration = cmd.narration;
      lines = map (λ l. l.line) cmd.lines;
    })
    p.save entry
    pure entry

  unfoldable pub post : PostingCommand → Action S JournalEntry
  post cmd = do validate cmd; write_entry cmd

  -- The guards of `reverse`: they return the original entry.
  unfoldable pub reversible : Text → Text → Action S JournalEntry
  reversible entry_id company_id = do
    found ← p.find_by_id entry_id company_id
    original ← or_throw found ErrorCode.not_found
    throws_if original.is_reversal ErrorCode.cannot_reverse_reversal
    reversed ← p.exists_reversal_of entry_id company_id
    throws_if reversed ErrorCode.already_reversed
    p.assert_open original.company_id original.financial_year_id original.voucher_date
    for_each (p.assert_not_closed company_id)
        (distinct_ids (map (λ l. l.project_id) original.lines))
    pure original

  unfoldable pub reverse : Text → Text → Text → Text → Action S JournalEntry
  reverse entry_id company_id reason reversed_by = do
    original ← reversible entry_id company_id
    entry_no ← p.next original.voucher_type original.company_id original.financial_year_id
    reversal ← reverse_entry p.next_id p.now original reason entry_no reversed_by
    p.save reversal
    pure reversal

  -- The reversal and the corrected entry, in one transaction.
  unfoldable pub repost :
      Text → Text → Text → Text → PostingCommand → Action S (JournalEntry × JournalEntry)
  repost entry_id company_id reason reversed_by corrected = do
    reversal ← reverse entry_id company_id reason reversed_by
    reposted ← post corrected
    pure (reversal, reposted)
