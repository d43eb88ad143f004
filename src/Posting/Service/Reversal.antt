-- ===== src/Posting/Service/Reversal.antt =====
-- `reverse` of core/posting/application/posting.service.ts: the mirrored entry, and what is refused.
use construction_erp_nestjs.Prelude.{◌≡◌, ◌∙◌, refl, ap, sym, subst, some, true, false, ◌++◌}
use construction_erp_nestjs.Errors.{ErrorCode, ok}
use construction_erp_nestjs.Errors.Action.{
  or_throw-ok, throws_if-ok, Reads, after_bind, pure-eq, >>=-Reads, for_each-Reads,
}
use construction_erp_nestjs.Decimal.{DecimalLib}
use construction_erp_nestjs.Prelude.Text.{Text, codes}
use construction_erp_nestjs.Posting.Entry.{JournalEntry, swap_lines}
use construction_erp_nestjs.Posting.Build.{reverse as reverse_entry}
use construction_erp_nestjs.Posting.Service.{
  Ports, ReadOnly, EntryStore, Finds, reversible, reverse,
}
use construction_erp_nestjs.Posting.Service.Outcome.{reverse_entry-ok}
use construction_erp_nestjs.Posting.Service.Order.{or_throw-Reads, throws_if-Reads}

module _ ⦃d : DecimalLib⦄ where
  -- The entry mirrors the original: its header, with debit and credit swapped on every line, by whom and
  -- for what reason it was reversed.
  pub record IsReversalOf (reason by : Text) (o e : JournalEntry) : Type 0 where
    pub company : e.company_id ≡ o.company_id
    pub year : e.financial_year_id ≡ o.financial_year_id
    pub kind : e.voucher_type ≡ o.voucher_type
    pub date : e.voucher_date ≡ o.voucher_date
    pub source_type : e.source_type ≡ o.source_type
    pub source : e.source_id ≡ o.source_id
    pub author : e.posted_by ≡ by
    pub narration : e.narration ≡ some (codes "Reversal: " ++ reason)
    pub marked : e.is_reversal ≡ true
    pub linked : e.reversal_of ≡ some o.id
    pub lines : e.lines ≡ swap_lines o.lines 1

module _ ⦃d : DecimalLib⦄ {S : Type 0} (p : Ports S) (r : ReadOnly S p) where
  pub reversible-Reads : (id c : Text) → Reads (reversible p id c)
  unfolding reversible
  reversible-Reads id c = >>=-Reads _ _ (r.find_by_id_reads id c) λ found.
      >>=-Reads _ _ (or_throw-Reads found _) λ o.
        >>=-Reads _ _ (throws_if-Reads o.is_reversal _) λ _.
          >>=-Reads _ _ (r.exists_reversal_of_reads id c) λ reversed.
            >>=-Reads _ _ (throws_if-Reads reversed _) λ _.
              >>=-Reads _ _ (r.assert_open_reads _ _ _)
                λ _. >>=-Reads _ _ (for_each-Reads _ _ (r.assert_not_closed_reads c)) λ _. λ s. refl

  reversible-ok :
      (id c : Text) (s : S) {o : JournalEntry} {t : S}
      → reversible p id c s ≡ (ok o, t)
      → Finds p id c o s × (o.is_reversal ≡ false)
  unfolding reversible
  reversible-ok id c s h = after_bind _ _ s h λ found s1 hf h1.
      after_bind _ _ s1 h1 λ original s2 ho h2. after_bind _ _ s2 h2 λ u s3 hr h3.
        after_bind _ _ s3 h3 λ reversed s4 he h4. after_bind _ _ s4 h4 λ _ s5 hn h5.
          after_bind _ _ s5 h5 λ _ s6 hp h6. after_bind _ _ s6 h6 λ _ s7 hq h7.
            rw (← (pure-eq h7).0) (
              ap (λ q. q.0) hf ∙ ap ok (or_throw-ok found _ ho).0,
              (throws_if-ok original.is_reversal _ hr).0,
            )

  -- What the service found may be reversed lies in an open period.
  pub reversible-open :
      (id c : Text) (s : S) {o : JournalEntry} {t : S}
      → reversible p id c s ≡ (ok o, t)
      → Finds p id c o s
        × ((p.assert_open o.company_id o.financial_year_id o.voucher_date s).0 ≡ ok tt)
  unfolding reversible
  reversible-open id c s h = after_bind _ _ s h λ found s1 hf h1.
      after_bind _ _ s1 h1 λ original s2 ho h2. after_bind _ _ s2 h2 λ u s3 hr h3.
        after_bind _ _ s3 h3 λ reversed s4 he h4. after_bind _ _ s4 h4 λ _ s5 hn h5.
          after_bind _ _ s5 h5 λ _ s6 hp h6. after_bind _ _ s6 h6 λ _ s7 hq h7.
            let (is, same2) = or_throw-ok found ErrorCode.not_found ho in
            let same3 =
              (throws_if-ok original.is_reversal ErrorCode.cannot_reverse_reversal hr).1 in
            let same1 = sym (r.find_by_id_reads id c s) ∙ ap (λ q. q.1) hf in
            let same4 = sym (r.exists_reversal_of_reads id c s3) ∙ ap (λ q. q.1) he in
            let here = sym (same1 ∙ same2 ∙ same3 ∙ same4 ∙ (throws_if-ok reversed _ hn).1) in
            rw (← (pure-eq h7).0) (
              ap (λ q. q.0) hf ∙ ap ok is,
              subst
                  (λ x.
                    (p.assert_open original.company_id original.financial_year_id
                      original.voucher_date x).0
                    ≡ ok tt)
                  here (ap (λ q. q.0) hp),
            )

  reads_end :
      (id c : Text) (s : S) {o : JournalEntry} {t : S} → reversible p id c s ≡ (ok o, t) → t ≡ s
  reads_end id c s h = sym (ap (λ q. q.1) h) ∙ reversible-Reads id c s

  reverse_entry-keeps :
      (k : EntryStore p) (o : JournalEntry) (reason entry_no by : Text) (s : S) {e : JournalEntry}
      {t : S}
      → reverse_entry p.next_id p.now o reason entry_no by s ≡ (ok e, t)
      → (id c : Text) (x : JournalEntry) → Finds p id c x s
      → Finds p id c x t
  unfolding reverse_entry
  reverse_entry-keeps k o reason entry_no by s h id c x found = after_bind _ _ s h λ i s1 drawn h1.
      after_bind _ _ s1 h1 λ n s2 read h2.
        let drawn_keeps =
          subst (Finds p id c x) (ap (λ q. q.1) drawn) (k.next_id_keeps id c x s found) in
        subst (Finds p id c x) (ap (λ q. q.1) read ∙ (pure-eq h2).1)
          (k.now_keeps id c x s1 drawn_keeps)

  reversed_fields :
      (o : JournalEntry) (reason entry_no by : Text) (s : S) {e : JournalEntry} {t : S}
      → reverse_entry p.next_id p.now o reason entry_no by s ≡ (ok e, t)
      → IsReversalOf reason by o e × (e.entry_no ≡ entry_no)
  reversed_fields o reason entry_no by s h =
      let f = reverse_entry-ok p.next_id p.now o reason entry_no by s h in
      (
        record {
          company = f.0;
          year = f.1;
          kind = f.2;
          date = f.3;
          source_type = f.7;
          source = f.8;
          author = f.10;
          narration = f.11;
          marked = f.4;
          linked = f.5;
          lines = f.6;
        },
        f.9,
      )

  -- When `reverse` returns an entry, that entry was saved last, its number was drawn from the series of
  -- the original, and it mirrors an entry that was found under the given id, is no reversal itself, and
  -- stays found unchanged: its source too, with the author and the reason of the reversal. The guards
  -- write nothing, and the store keeps its entries.
  pub reverse-IsReversalOf :
      (k : EntryStore p) (id c reason by : Text) (s : S) {e : JournalEntry} {t : S}
      → reverse p id c reason by s ≡ (ok e, t)
      → (o : JournalEntry) × Finds p id c o s
        × (o.is_reversal ≡ false)
        × IsReversalOf reason by o e
        × Finds p id c o t
        × ((s0 : S) × (s1 : S) × (p.next o.voucher_type o.company_id o.financial_year_id s0
              ≡ (ok e.entry_no, s1)))
        × ((s' : S) × (p.save e s' ≡ (ok tt, t)))
  unfolding reverse
  reverse-IsReversalOf k id c reason by s {e} {t} h = after_bind _ _ s h λ o s1 ho h1.
      after_bind _ _ s1 h1 λ entry_no s2 hn h2. after_bind _ _ s2 h2 λ entry s3 he h3.
        after_bind _ _ s3 h3 λ u s4 saved h4.
          let found = reversible-ok id c s ho in
          let unread = subst (Finds p id c o) (sym (reads_end id c s ho)) found.0 in
          let numbered =
            subst (Finds p id c o) (ap (λ q. q.1) hn) (k.next_keeps _ _ _ id c o s1 unread) in
          let built = reverse_entry-keeps k o reason entry_no by s2 he id c o numbered in
          let kept =
            subst (Finds p id c o) (ap (λ q. q.1) saved) (k.save_keeps entry id c o s3 built) in
          let (mirrors, number) = reversed_fields o reason entry_no by s2 he in
          rw (← (pure-eq h4).0) (
            o,
            found.0,
            found.1,
            mirrors,
            subst (Finds p id c o) (pure-eq h4).1 kept,
            (
              s1,
              s2,
              subst (λ n. p.next o.voucher_type o.company_id o.financial_year_id s1 ≡ (ok n, s2))
                  (sym number) hn,
            ),
            (s3, rw (← (pure-eq h4).1) saved),
          )
