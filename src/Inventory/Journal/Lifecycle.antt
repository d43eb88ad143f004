-- ===== src/Inventory/Journal/Lifecycle.antt =====
-- The lifecycle of a stock journal (modules/inventory/domain/stock-journal.ts): its steps, the statuses
-- that can be reached, and what a status says of the journal.
use construction_erp_nestjs.Prelude.{
  ℕ, ◌≡◌, ◌∙◌, refl, sym, ap, subst, ◌⊎◌, inl, inr, Option, none, true, false, not, List, [], ◌∷◌,
  is_some,
}
use construction_erp_nestjs.Prelude.Text.{Text}
use construction_erp_nestjs.Errors.{ErrorCode, Result, ok, throw_if, throw_if-ok, ok_inj, >>=-eq-ok}
use construction_erp_nestjs.Errors.{◌>>=◌}
use construction_erp_nestjs.Decimal.{DecimalLib, Num}
use construction_erp_nestjs.Inventory.Draft.{
  StockJournalStatus, draft, approved, posted, cancelled, StockJournalLine, StockJournal,
  create_draft,
}
use construction_erp_nestjs.Inventory.Draft.Shape.{create_draft-IsDraft}
use construction_erp_nestjs.Inventory.Journal.{
  StockJournalPatch, merged, is_draft, is_approved, is_posted, is_cancelled, edit_draft, approve,
  assert_postable, assert_posted, mark_posted, mark_cancelled, record_negative_stock_authorisation,
}

-- One step of the lifecycle.
pub data Step : StockJournalStatus → StockJournalStatus → Type 0 where
  edits : Step draft draft
  approves : Step draft approved
  posts : Step approved posted
  cancels : Step posted cancelled
  authorises : {s : StockJournalStatus} → Step s s

module _ ⦃d : DecimalLib⦄ where
  -- The operations that change a journal.
  pub data Operation : Type 0 where
    edit : StockJournalPatch → Operation
    approve_by : Text → ℕ → Operation
    post_as : Option Text → Option Text → Num → Num → List StockJournalLine → Text → ℕ → Operation
    cancel : Operation
    authorise : Option Text → Option Text → Operation

  unfoldable pub apply : Operation → StockJournal → Result StockJournal
  unfolding edit_draft approve mark_posted mark_cancelled record_negative_stock_authorisation
  apply (edit patch) j = edit_draft patch j
  apply (approve_by who now) j = approve who now j
  apply (post_as entry_no entry rate value lines who now) j =
      mark_posted entry_no entry rate value lines who now j
  apply cancel j = mark_cancelled j
  apply (authorise by reason) j = ok (record_negative_stock_authorisation by reason j)

  unfoldable pub apply_all : List Operation → StockJournal → Result StockJournal
  unfolding apply
  apply_all [] j = ok j
  apply_all (o ∷ os) j = apply o j >>= λ k. apply_all os k

  -- What the status of a journal says of its stamps: it is approved from its approval on, posted and valued
  -- from its posting on, and a journal that is not posted has no number, no entry and no value.
  pub data HasHistory (j : StockJournal) : Type 0 where
    of_draft :
        j.status ≡ draft
        → j.approved_by_id ≡ none
        → j.posted_at ≡ none
        → j.journal_entry_id ≡ none
        → j.value ≡ none
        → HasHistory j
    of_approved :
        j.status ≡ approved
        → is_some j.approved_by_id ≡ true
        → is_some j.approved_at ≡ true
        → j.posted_at ≡ none
        → j.journal_entry_id ≡ none
        → j.value ≡ none
        → HasHistory j
    of_posted :
        (j.status ≡ posted) ⊎ (j.status ≡ cancelled)
        → is_some j.approved_by_id ≡ true
        → is_some j.approved_at ≡ true
        → is_some j.posted_at ≡ true
        → is_some j.posted_by_id ≡ true
        → is_some j.value ≡ true
        → HasHistory j

  only_draft : (s : StockJournalStatus) → not (is_draft s) ≡ false → s ≡ draft
  only_draft draft h = refl
  only_draft approved h = cc
  only_draft posted h = cc
  only_draft cancelled h = cc

  only_approved : (s : StockJournalStatus) → not (is_approved s) ≡ false → s ≡ approved
  only_approved draft h = cc
  only_approved approved h = refl
  only_approved posted h = cc
  only_approved cancelled h = cc

  only_posted : (s : StockJournalStatus) → not (is_posted s) ≡ false → s ≡ posted
  only_posted draft h = cc
  only_posted approved h = cc
  only_posted posted h = refl
  only_posted cancelled h = cc

  draft_history :
      (j : StockJournal)
      → HasHistory j
      → j.status ≡ draft
      → (j.posted_at ≡ none) × (j.journal_entry_id ≡ none) × (j.value ≡ none)
  draft_history j (of_draft s a p e v) from = (p, e, v)
  draft_history j (of_approved s a t p e v) from = (p, e, v)
  draft_history j (of_posted (inl s) a t p w v) from = cc
  draft_history j (of_posted (inr s) a t p w v) from = cc

  approved_history :
      (j : StockJournal)
      → HasHistory j
      → j.status ≡ approved
      → (is_some j.approved_by_id ≡ true) × (is_some j.approved_at ≡ true)
  approved_history j (of_draft s a p e v) from = cc
  approved_history j (of_approved s a t p e v) from = (a, t)
  approved_history j (of_posted s a t p w v) from = (a, t)

  cancelled_history :
      (j : StockJournal)
      → HasHistory j
      → j.status ≡ posted
      → HasHistory (record j { status = cancelled })
  cancelled_history j (of_draft s a p e v) from = cc
  cancelled_history j (of_approved s a t p e v) from = cc
  cancelled_history j (of_posted s a t p w v) from = of_posted (inr refl) a t p w v

  edit_draft-ok :
      (patch : StockJournalPatch) (j : StockJournal) {k : StockJournal}
      → edit_draft patch j ≡ ok k
      → (j.status ≡ draft) × (k.status ≡ draft) × HasHistory k
  unfolding edit_draft
  edit_draft-ok patch j h =
      let (u, checked, h1) =
        >>=-eq-ok (throw_if (not (is_draft j.status)) ErrorCode.invalid_stock_journal_transition) _
          h in
      let (r, rebuilt, h2) =
        >>=-eq-ok (create_draft j.id j.company_id j.financial_year_id (merged patch j)) _ h1 in
      let (made, _, _, _, _) =
        create_draft-IsDraft j.id j.company_id j.financial_year_id (merged patch j) rebuilt in
      let (value, _, entry, posted_at, approver) = made.unposted in
      let still : not (is_draft j.status) ≡ false =
        throw_if-ok (not (is_draft j.status)) _ checked in
      (
        only_draft j.status still,
        ap (λ k. k.status) (sym (ok_inj h2)) ∙ made.status,
        subst HasHistory (ok_inj h2) (of_draft made.status approver posted_at entry value),
      )

  approve-ok :
      (who : Text) (now : ℕ) (j : StockJournal) {k : StockJournal}
      → HasHistory j
      → approve who now j ≡ ok k
      → Step j.status k.status × HasHistory k
  unfolding approve
  approve-ok who now j {k} history h =
      let (u, checked, made) =
        >>=-eq-ok (throw_if (not (is_draft j.status)) ErrorCode.invalid_stock_journal_transition) _
          h in
      let from = only_draft j.status (throw_if-ok (not (is_draft j.status)) _ checked) in
      let (posted_at, entry, value) = draft_history j history from in
      (
        subst (λ s. Step s k.status) (sym from)
            (subst (λ s. Step draft s) (ap (λ k. k.status) (ok_inj made)) approves),
        subst HasHistory (ok_inj made) (of_approved refl refl refl posted_at entry value),
      )

  mark_posted-ok :
      (entry_no entry : Option Text) (rate value : Num) (lines : List StockJournalLine) (who : Text)
      (now : ℕ) (j : StockJournal) {k : StockJournal}
      → HasHistory j
      → mark_posted entry_no entry rate value lines who now j ≡ ok k
      → Step j.status k.status × HasHistory k
  unfolding mark_posted assert_postable
  mark_posted-ok entry_no entry rate value lines who now j {k} history h =
      let (u, checked, made) =
        >>=-eq-ok (throw_if (not (is_approved j.status)) ErrorCode.stock_journal_not_approved) _
          h in
      let from = only_approved j.status (throw_if-ok (not (is_approved j.status)) _ checked) in
      let (approver, approved_at) = approved_history j history from in
      (
        subst (λ s. Step s k.status) (sym from)
            (subst (λ s. Step approved s) (ap (λ k. k.status) (ok_inj made)) posts),
        subst HasHistory (ok_inj made) (of_posted (inl refl) approver approved_at refl refl refl),
      )

  mark_cancelled-ok :
      (j : StockJournal) {k : StockJournal}
      → HasHistory j
      → mark_cancelled j ≡ ok k
      → Step j.status k.status × HasHistory k
  unfolding mark_cancelled assert_posted
  mark_cancelled-ok j {k} history h =
      let (v, asserted, made) = >>=-eq-ok (assert_posted j) _ h in
      let (u, live, checked) =
        >>=-eq-ok (throw_if (is_cancelled j.status) ErrorCode.already_reversed) _ asserted in
      let from = only_posted j.status (throw_if-ok (not (is_posted j.status)) _ checked) in
      (
        subst (λ s. Step s k.status) (sym from)
            (subst (λ s. Step posted s) (ap (λ k. k.status) (ok_inj made)) cancels),
        subst HasHistory (ok_inj made) (cancelled_history j history from),
      )

  authorised_history :
      (by reason : Option Text) (j : StockJournal)
      → HasHistory j
      → HasHistory (record_negative_stock_authorisation by reason j)
  unfolding record_negative_stock_authorisation
  authorised_history by reason j (of_draft s a p e v) = of_draft s a p e v
  authorised_history by reason j (of_approved s a t p e v) = of_approved s a t p e v
  authorised_history by reason j (of_posted s a t p w v) = of_posted s a t p w v

  authorise-ok :
      (by reason : Option Text) (j : StockJournal) {k : StockJournal}
      → HasHistory j
      → record_negative_stock_authorisation by reason j ≡ k
      → Step j.status k.status × HasHistory k
  unfolding record_negative_stock_authorisation
  authorise-ok by reason j history made = (
    subst (λ s. Step j.status s) (ap (λ k. k.status) made) authorises,
    subst HasHistory made (authorised_history by reason j history),
  )

  -- An operation that succeeds makes one step of the lifecycle, and leaves a journal whose stamps fit its
  -- status, given that they did before.
  pub apply-Step :
      (o : Operation) (j : StockJournal) {k : StockJournal}
      → HasHistory j
      → apply o j ≡ ok k
      → Step j.status k.status × HasHistory k
  unfolding apply
  apply-Step (edit patch) j {k} history h =
      let (from, to, made) = edit_draft-ok patch j h in
      (subst (λ s. Step s k.status) (sym from) (subst (λ s. Step draft s) (sym to) edits), made)
  apply-Step (approve_by who now) j history h = approve-ok who now j history h
  apply-Step (post_as entry_no entry rate value lines who now) j history h =
      mark_posted-ok entry_no entry rate value lines who now j history h
  apply-Step cancel j history h = mark_cancelled-ok j history h
  apply-Step (authorise by reason) j history h = authorise-ok by reason j history (ok_inj h)
