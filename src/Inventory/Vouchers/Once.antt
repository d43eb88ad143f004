-- ===== src/Inventory/Vouchers/Once.antt =====
-- A stock journal is posted once (modules/inventory/application/post-stock-journal.usecase.ts).
use construction_erp_nestjs.Prelude.{
  ℕ, ◌≡◌, ◌∙◌, refl, sym, ap, subst, Option, none, some, Bool, true, false, ◌&&◌, not, List, [],
  find, find-map, map, any, if◌then◌else◌, get_or_default, ◌==◌, ==_iff, and_true, Bool-cases, inl,
  inr,
}
use construction_erp_nestjs.Prelude.Text.{Text, text_eq, text_eq_iff, trim, is_empty}
use construction_erp_nestjs.Errors.{ErrorCode, domain, ok, err, ok_inj, throw_if, >>=-eq-ok}
use construction_erp_nestjs.Errors.Action.{
  after_bind, bind_to, bind_stops, lift, gets, or_throw, throws_if, pure-eq, or_throw-ok,
  throws_if-ok, lift-ok,
}
use construction_erp_nestjs.Decimal.{DecimalLib, Num}
use construction_erp_nestjs.Posting.Entry.{JournalEntry}
use construction_erp_nestjs.Posting.Service.{Ports}
use construction_erp_nestjs.Inventory.Draft.{posted, StockJournalLine, StockJournal}
use construction_erp_nestjs.Inventory.Journal.{
  is_approved, assert_postable, record_negative_stock_authorisation, mark_posted,
}
use construction_erp_nestjs.Inventory.Sides.{Actor}
use construction_erp_nestjs.Inventory.Vouchers.{
  PostStockJournalInput, JournalRow, JournalState, Accounts, is_live, journal_of, is_version,
  saved_row, find_journal, save_journal, post_journal, post_stock_journal,
}

module _ ⦃d : DecimalLib⦄ where
  journal_of-some :
      (o : Option JournalRow) {j : StockJournal}
      → journal_of o ≡ some j
      → (r : JournalRow) × (o ≡ some r) × (r.journal ≡ j)
  journal_of-some none h = cc
  journal_of-some (some r) h = (r, refl, cc)

  -- What a posted journal keeps.
  pub record IsPostingOf (j k : StockJournal) : Type 0 where
    pub id : k.id ≡ j.id
    pub company : k.company_id ≡ j.company_id
    pub version : k.version ≡ j.version
    pub status : k.status ≡ posted

  mark_posted-keeps :
      (entry_no entry : Option Text) (rate value : Num) (lines : List StockJournalLine) (who : Text)
      (now : ℕ) (j : StockJournal) {k : StockJournal}
      → mark_posted entry_no entry rate value lines who now j ≡ ok k
      → IsPostingOf j k
  unfolding mark_posted
  mark_posted-keeps entry_no entry rate value lines who now j h =
      let (u, checked, made) = >>=-eq-ok (assert_postable j) _ h in
      subst (IsPostingOf j) (ok_inj made)
        (record { id = refl; company = refl; version = refl; status = refl })

  -- The update of a row leaves what the search reads.
  saved_row-is_live :
      (k : StockJournal) (v : ℕ) (id c : Text) (r : JournalRow)
      → is_live id c (saved_row k v r) ≡ is_live id c r
  saved_row-is_live k v id c r = elim (Bool-cases (is_version k v r)) [
    | inl t ↦
        let (same_id, rest) = and_true (text_eq r.journal.id k.id) _ t in
        let (same_company, _) = and_true (text_eq r.journal.company_id k.company_id) _ rest in
        rw t (
          rw (← (text_eq_iff r.journal.id k.id).0 same_id)
            (rw (← (text_eq_iff r.journal.company_id k.company_id).0 same_company) refl))
    | inr t ↦ rw t refl
  ]

module _ ⦃d : DecimalLib⦄ {S : Type 0} where
  save_journal-ok :
      (j : StockJournal) (v : ℕ) (s : JournalState S) {t : JournalState S}
      → save_journal j v s ≡ (ok tt, t)
      → t.journals ≡ map (saved_row j v) s.journals
  unfolding save_journal
  save_journal-ok j v s h = elim (Bool-cases (any (is_version j v) s.journals)) [
    | inl there ↦
        let e : save_journal j v s
            ≡ (ok tt, record s { journals = map (saved_row j v) s.journals }) =
          rw there refl in
        ap (λ q. q.1.journals) (sym h ∙ e)
    | inr gone ↦
        let e : save_journal j v s ≡ (err (domain ErrorCode.optimistic_lock_conflict), s) =
          rw gone refl in
        cc
  ]

module _ ⦃d : DecimalLib⦄ {S : Type 0} (p : Ports S) (accounts : Accounts S) (new_id : ℕ → Text)
    (clock : ℕ → ℕ) where
  post_journal-saves :
      (id : Text) (actor : Actor) (allow : Bool) (j : StockJournal) (s : JournalState S)
      {e : Option JournalEntry} {t : JournalState S}
      → post_journal p accounts new_id clock id actor allow j s ≡ (ok e, t)
      → (k : StockJournal) × IsPostingOf j k × (t.journals ≡ map (saved_row k k.version) s.journals)
  unfolding post_journal
  post_journal-saves id actor allow j s h = after_bind _ _ s h λ now s1 a1 h1.
      after_bind _ _ s1 h1 λ outs s2 a2 h2. after_bind _ _ s2 h2 λ ins s3 a3 h3.
        after_bind _ _ s3 h3 λ cmd s4 a4 h4. after_bind _ _ s4 h4 λ entry s5 a5 h5.
          after_bind _ _ s5 h5 λ k s6 a6 h6.
            after_bind (save_journal k k.version) _ s6 h6 λ u s7 a7 h7.
              after_bind _ _ s7 h7 λ v s8 a8 h8.
                let (made, same6) = lift-ok (mark_posted _ _ _ _ _ _ now j) {s = s5} a6 in
                let before =
                  ap (λ x. x.journals) (sym same6)
                  ∙ ap (λ q. q.1.journals) (sym a5)
                  ∙ ap (λ q. q.1.journals) (sym a4)
                  ∙ ap (λ q. q.1.journals) (sym a3)
                  ∙ ap (λ q. q.1.journals) (sym a2)
                  ∙ ap (λ q. q.1.journals) (sym a1) in
                (
                  k,
                  mark_posted-keeps _ _ _ _ _ _ now j made,
                  ap (λ x. x.journals) (sym (pure-eq h8).1)
                      ∙ ap (λ q. q.1.journals) (sym a8)
                      ∙ save_journal-ok k k.version s6 a7
                      ∙ ap (map (saved_row k k.version)) before,
                )

  authorised_keeps :
      (allow : Bool) (who reason : Option Text) (j k : StockJournal)
      → IsPostingOf
          (if allow
            then record_negative_stock_authorisation who reason j
            else record_negative_stock_authorisation none none j)
          k
      → IsPostingOf j k
  unfolding record_negative_stock_authorisation
  authorised_keeps true who reason j k h = record {
    id = h.id;
    company = h.company;
    version = h.version;
    status = h.status;
  }
  authorised_keeps false who reason j k h = record {
    id = h.id;
    company = h.company;
    version = h.version;
    status = h.status;
  }

  post_stock_journal-ok :
      (id : Text) (input : PostStockJournalInput) (actor : Actor) (s : JournalState S)
      {e : Option Text × Option Text} {t : JournalState S}
      → post_stock_journal p accounts new_id clock id input actor s ≡ (ok e, t)
      → (j : StockJournal) × (find_journal id actor.company_id s ≡ some j)
        × ((k : StockJournal) × IsPostingOf j k
            × (t.journals ≡ map (saved_row k k.version) s.journals))
  unfolding post_stock_journal
  post_stock_journal-ok id input actor s h = after_bind _ _ s h λ u s1 a1 h1.
      after_bind _ _ s1 h1 λ found s2 a2 h2. after_bind _ _ s2 h2 λ j s3 a3 h3.
        after_bind _ _ s3 h3 λ v s4 a4 h4. after_bind _ _ s4 h4 λ entry s5 a5 h5.
          let allow = get_or_default input.allow_negative_stock false in
          let same1 =
            (throws_if-ok (allow && is_empty (trim (get_or_default input.negative_stock_reason [])))
              ErrorCode.validation a1).1 in
          let same2 = (pure-eq a2).1 in
          let (is, same3) = or_throw-ok found ErrorCode.not_found a3 in
          let same4 = (lift-ok (assert_postable j) {s = s3} a4).1 in
          let here = same1 ∙ same2 ∙ same3 ∙ same4 in
          let (k, made, journals) = post_journal-saves id actor allow _ s4 a5 in
          (
            j,
            ap (find_journal id actor.company_id) same1 ∙ (pure-eq a2).0 ∙ is,
            (
              k,
              authorised_keeps allow (some actor.user_id) input.negative_stock_reason j k made,
              ap (λ x. x.journals) (sym (pure-eq h5).1)
                  ∙ journals
                  ∙ ap (λ x. map (saved_row k k.version) x.journals) (sym here),
            ),
          )

  not_approved_refused :
      (id : Text) (input : PostStockJournalInput) (actor : Actor) (s : JournalState S)
      (j : StockJournal)
      → (get_or_default input.allow_negative_stock false
          && is_empty (trim (get_or_default input.negative_stock_reason [])))
        ≡ false
      → find_journal id actor.company_id s ≡ some j
      → j.status ≡ posted
      → post_stock_journal p accounts new_id clock id input actor s
        ≡ (err (domain ErrorCode.stock_journal_not_approved), s)
  unfolding post_stock_journal assert_postable
  not_approved_refused id input actor s j reasoned found done =
      bind_to
        (throws_if
          (get_or_default input.allow_negative_stock false
            && is_empty (trim (get_or_default input.negative_stock_reason [])))
          ErrorCode.validation)
        _ s (ap (λ b. throws_if b ErrorCode.validation s) reasoned)
      ∙ bind_to (gets (find_journal id actor.company_id)) _ s refl
      ∙ bind_to (or_throw (find_journal id actor.company_id s) ErrorCode.not_found) _ s
          (ap (λ o. or_throw o ErrorCode.not_found s) found)
      ∙ bind_stops (lift (assert_postable j)) _ s
          (ap (λ x. (throw_if (not (is_approved x)) ErrorCode.stock_journal_not_approved, s)) done)

  -- A stock journal is posted at most once: after a posting that returned, another one of the same journal
  -- by a user of the same company is refused with STOCK_JOURNAL_NOT_APPROVED and changes nothing, if it
  -- gives a reason whenever it allows negative stock.
  pub posted_once :
      (id : Text) (input input2 : PostStockJournalInput) (actor actor2 : Actor) (s : JournalState S)
      {e : Option Text × Option Text} {t : JournalState S}
      → post_stock_journal p accounts new_id clock id input actor s ≡ (ok e, t)
      → actor2.company_id ≡ actor.company_id
      → (get_or_default input2.allow_negative_stock false
          && is_empty (trim (get_or_default input2.negative_stock_reason [])))
        ≡ false
      → post_stock_journal p accounts new_id clock id input2 actor2 t
        ≡ (err (domain ErrorCode.stock_journal_not_approved), t)
  unfolding find_journal
  posted_once id input input2 actor actor2 s {t = t} h company reasoned =
      let c = actor.company_id in
      let (j, found, kept) = post_stock_journal-ok id input actor s h in
      let (k, made, journals) = kept in
      let (r, row, is) = journal_of-some (find (is_live id c) s.journals) found in
      let moved : find (is_live id c) t.journals ≡ some (saved_row k k.version r) =
        ap (find (is_live id c)) journals
        ∙ find-map (is_live id c) (saved_row k k.version) s.journals
            (saved_row-is_live k k.version id c) row in
      let same_id : text_eq r.journal.id k.id ≡ true =
        (text_eq_iff _ _).1 (ap (λ x. x.id) is ∙ sym made.id) in
      let same_company : text_eq r.journal.company_id k.company_id ≡ true =
        (text_eq_iff _ _).1 (ap (λ x. x.company_id) is ∙ sym made.company) in
      let same_version : (r.journal.version == k.version) ≡ true =
        (==_iff _ _).1 (ap (λ x. x.version) is ∙ sym made.version) in
      let current : is_version k k.version r ≡ true =
        rw same_id (rw same_company (rw same_version refl)) in
      let again = (saved_row k k.version r).journal in
      let shut : again.status ≡ posted = rw current made.status in
      not_approved_refused id input2 actor2 t again reasoned
        (ap (λ x. journal_of (find (is_live id x) t.journals)) company ∙ ap journal_of moved) shut
