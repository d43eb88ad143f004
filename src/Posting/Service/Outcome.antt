-- ===== src/Posting/Service/Outcome.antt =====
-- What `post` and `reverse` of core/posting/application/posting.service.ts have written when they
-- return.
use construction_erp_nestjs.Prelude.{
  ℕ, ◌≡◌, refl, ap, sym, subst, none, some, true, false, map, ◌++◌,
}
use construction_erp_nestjs.Errors.{ok}
use construction_erp_nestjs.Errors.Action.{Action, after_bind, pure-eq}
use construction_erp_nestjs.Decimal.{DecimalLib}
use construction_erp_nestjs.Prelude.Text.{Text, codes}
use construction_erp_nestjs.Posting.Command.{PostingCommand}
use construction_erp_nestjs.Posting.Entry.{JournalEntry, NewEntry, checked_lines, swap_lines}
use construction_erp_nestjs.Posting.Entry.Invariant.{IsWellFormed, checked_lines_iff}
use construction_erp_nestjs.Posting.Build.{create, reverse as reverse_entry}
use construction_erp_nestjs.Posting.Service.{Ports, write_entry, post}

module _ ⦃d : DecimalLib⦄ where
  -- The entry is the command's: its header, and well-formed lines made of the command's lines.
  pub record IsEntryOf (cmd : PostingCommand) (e : JournalEntry) : Type 0 where
    pub company : e.company_id ≡ cmd.company_id
    pub year : e.financial_year_id ≡ cmd.financial_year_id
    pub kind : e.voucher_type ≡ cmd.voucher_type
    pub date : e.voucher_date ≡ cmd.voucher_date
    pub source_type : e.source_type ≡ cmd.source_type
    pub source : e.source_id ≡ cmd.source_id
    pub by : e.posted_by ≡ cmd.posted_by
    pub narration : e.narration ≡ cmd.narration
    pub normal : e.is_reversal ≡ false
    pub unlinked : e.reversal_of ≡ none
    pub lines : IsWellFormed (map (λ l. l.line) cmd.lines) e.lines

module _ ⦃d : DecimalLib⦄ {S : Type 0} (ids : Action S Text) (clock : Action S ℕ) where
  pub create-ok :
      (n : NewEntry) (s : S) {e : JournalEntry} {t : S}
      → create ids clock n s ≡ (ok e, t)
      → (e.company_id ≡ n.company_id)
        × (e.financial_year_id ≡ n.financial_year_id)
        × (e.voucher_type ≡ n.voucher_type)
        × (e.voucher_date ≡ n.voucher_date)
        × (e.source_id ≡ n.source_id)
        × (e.entry_no ≡ n.entry_no)
        × (e.is_reversal ≡ false)
        × (e.reversal_of ≡ none)
        × (checked_lines n.lines ≡ ok e.lines)
        × (e.source_type ≡ n.source_type)
        × (e.posted_by ≡ n.posted_by)
        × (e.narration ≡ n.narration)
  unfolding create
  create-ok n s h = after_bind _ _ s h λ built s1 checked h1. after_bind _ _ s1 h1 λ id s2 drawn h2.
      after_bind _ _ s2 h2 λ now s3 read h3.
        rw (← (pure-eq h3).0) (
          refl,
          refl,
          refl,
          refl,
          refl,
          refl,
          refl,
          refl,
          (ap (λ q. q.0) checked),
          refl,
          refl,
          refl,
        )

  pub reverse_entry-ok :
      (o : JournalEntry) (reason entry_no by : Text) (s : S) {e : JournalEntry} {t : S}
      → reverse_entry ids clock o reason entry_no by s ≡ (ok e, t)
      → (e.company_id ≡ o.company_id)
        × (e.financial_year_id ≡ o.financial_year_id)
        × (e.voucher_type ≡ o.voucher_type)
        × (e.voucher_date ≡ o.voucher_date)
        × (e.is_reversal ≡ true)
        × (e.reversal_of ≡ some o.id)
        × (e.lines ≡ swap_lines o.lines 1)
        × (e.source_type ≡ o.source_type)
        × (e.source_id ≡ o.source_id)
        × (e.entry_no ≡ entry_no)
        × (e.posted_by ≡ by)
        × (e.narration ≡ some (codes "Reversal: " ++ reason))
  unfolding reverse_entry
  reverse_entry-ok o reason entry_no by s h = after_bind _ _ s h λ id s1 drawn h1.
      after_bind _ _ s1 h1 λ now s2 read h2.
        rw (← (pure-eq h2).0)
          (refl, refl, refl, refl, refl, refl, refl, refl, refl, refl, refl, refl)

module _ ⦃d : DecimalLib⦄ {S : Type 0} (p : Ports S) where
  write_entry-ok :
      (cmd : PostingCommand) (s : S) {e : JournalEntry} {t : S}
      → write_entry p cmd s ≡ (ok e, t)
      → IsEntryOf cmd e
        × ((s0 : S) × (s1 : S) × (p.next cmd.voucher_type cmd.company_id cmd.financial_year_id s0
              ≡ (ok e.entry_no, s1)))
        × ((s' : S) × (p.save e s' ≡ (ok tt, t)))
  unfolding write_entry
  write_entry-ok cmd s {e} h = after_bind _ _ s h λ entry_no s1 drawn h1.
      after_bind _ _ s1 h1 λ entry s2 made h2. after_bind _ _ s2 h2 λ u s3 saved h3.
        let fields = create-ok p.next_id p.now _ s1 made in
        rw (← (pure-eq h3).0) (
          record {
            company = fields.0;
            year = fields.1;
            kind = fields.2;
            date = fields.3;
            source_type = fields.9;
            source = fields.4;
            by = fields.10;
            narration = fields.11;
            normal = fields.6;
            unlinked = fields.7;
            lines = (checked_lines_iff _ _).0 fields.8;
          },
          (
            s,
            s1,
            subst (λ n. p.next cmd.voucher_type cmd.company_id cmd.financial_year_id s ≡ (ok n, s1))
                (sym fields.5) drawn,
          ),
          (s2, rw (← (pure-eq h3).1) saved),
        )

  -- When `post` returns an entry, that entry was saved last, its number was drawn from the series of the
  -- command, and it is the command's: the whole header with source, author and narration, and lines that
  -- are balanced, two at least, each on one side, with the command's accounts, dimensions and amounts.
  pub post-IsEntryOf :
      (cmd : PostingCommand) (s : S) {e : JournalEntry} {t : S}
      → post p cmd s ≡ (ok e, t)
      → IsEntryOf cmd e
        × ((s0 : S) × (s1 : S) × (p.next cmd.voucher_type cmd.company_id cmd.financial_year_id s0
              ≡ (ok e.entry_no, s1)))
        × ((s' : S) × (p.save e s' ≡ (ok tt, t)))
  unfolding post
  post-IsEntryOf cmd s h = after_bind _ _ s h λ u s1 passed h1. write_entry-ok cmd s1 h1
