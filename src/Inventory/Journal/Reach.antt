-- ===== src/Inventory/Journal/Reach.antt =====
-- Which statuses of a stock journal (modules/inventory/domain/stock-journal.ts) are reached by which
-- operations.
use construction_erp_nestjs.Prelude.{
  ℕ, ◌≡◌, ◌⊎◌, inl, inr, refl, Option, some, Bool, true, false, List, [], ◌∷◌,
}
use construction_erp_nestjs.Prelude.Text.{Text}
use construction_erp_nestjs.Errors.{ErrorCode, Failure, domain, ok, err}
use construction_erp_nestjs.Decimal.{DecimalLib, Num}
use construction_erp_nestjs.Inventory.Draft.{
  StockJournalStatus, draft, approved, posted, cancelled, StockJournalLine, StockJournal,
}
use construction_erp_nestjs.Inventory.Journal.{
  edit_draft, approve, assert_postable, assert_posted, mark_posted, mark_cancelled,
  record_negative_stock_authorisation,
}
use construction_erp_nestjs.Inventory.Journal.Lifecycle.{
  Step, Operation, edit, approve_by, post_as, cancel, authorise, apply, apply_all,
}

-- Steps, one after the other.
pub data Steps : StockJournalStatus → StockJournalStatus → Type 0 where
  stop : {s : StockJournalStatus} → Steps s s
  go : {s t u : StockJournalStatus} → Step s t → Steps t u → Steps s u

module _ ⦃d : DecimalLib⦄ where
  -- Who approves a journal when, and what it is posted with.
  pub record Completion : Type 0 where
    pub approver : Text
    pub approved_at : ℕ
    pub entry_no : Option Text
    pub journal_entry_id : Option Text
    pub rate : Num
    pub value : Num
    pub lines : List StockJournalLine
    pub posted_by : Text
    pub posted_at : ℕ

  -- What is left to do until a journal is cancelled.
  abbrev pub rest_of_life : Completion → StockJournalStatus → List Operation
  rest_of_life f draft =
      approve_by f.approver f.approved_at
      ∷ post_as f.entry_no f.journal_entry_id f.rate f.value f.lines f.posted_by f.posted_at
      ∷ cancel
      ∷ []
  rest_of_life f approved =
      post_as f.entry_no f.journal_entry_id f.rate f.value f.lines f.posted_by f.posted_at
      ∷ cancel
      ∷ []
  rest_of_life f posted = cancel ∷ []
  rest_of_life f cancelled = []

  abbrev after_approval : Completion → StockJournal → StockJournal
  after_approval f j = record j {
    status = approved;
    approved_by_id = some f.approver;
    approved_at = some f.approved_at;
  }

  abbrev after_posting : Completion → StockJournal → StockJournal
  after_posting f j = record j {
    status = posted;
    entry_no = f.entry_no;
    journal_entry_id = f.journal_entry_id;
    rate = some f.rate;
    value = some f.value;
    lines = f.lines;
    posted_by_id = some f.posted_by;
    posted_at = some f.posted_at;
  }

  abbrev after_cancelling : StockJournal → StockJournal
  after_cancelling j = record j { status = cancelled }

  to_cancelled :
      (f : Completion) (s : StockJournalStatus) (j : StockJournal)
      → j.status ≡ s
      → (k : StockJournal) × (apply_all (rest_of_life f s) j ≡ ok k) × (k.status ≡ cancelled)
  unfolding apply_all apply edit_draft approve mark_posted assert_postable mark_cancelled
      assert_posted
  to_cancelled f draft j is =
      (after_cancelling (after_posting f (after_approval f j)), rw is refl, refl)
  to_cancelled f approved j is = (after_cancelling (after_posting f j), rw is refl, refl)
  to_cancelled f posted j is = (after_cancelling j, rw is refl, refl)
  to_cancelled f cancelled j is = (j, refl, is)

  abbrev pub is_authorisation : Operation → Bool
  is_authorisation (authorise by reason) = true
  is_authorisation _ = false

  -- What an operation does to a cancelled journal: it is refused, or records an authorisation.
  abbrev pub LeavesCancelled : Operation → StockJournal → Type 0
  LeavesCancelled o j =
      ((e : Failure) × (apply o j ≡ err e))
      ⊎ ((is_authorisation o ≡ true)
          × ((k : StockJournal) × (apply o j ≡ ok k) × (k.status ≡ cancelled)))

  refuses_all : (j : StockJournal) → j.status ≡ cancelled → (o : Operation) → LeavesCancelled o j
  unfolding apply edit_draft approve mark_posted assert_postable mark_cancelled assert_posted
      record_negative_stock_authorisation
  refuses_all j is (edit patch) =
      inl (domain ErrorCode.invalid_stock_journal_transition, rw is refl)
  refuses_all j is (approve_by who now) =
      inl (domain ErrorCode.invalid_stock_journal_transition, rw is refl)
  refuses_all j is (post_as entry_no entry rate value lines who now) =
      inl (domain ErrorCode.stock_journal_not_approved, rw is refl)
  refuses_all j is cancel = inl (domain ErrorCode.already_reversed, rw is refl)
  refuses_all j is (authorise by reason) =
      inr (refl, (record_negative_stock_authorisation by reason j, refl, is))

  -- Whoever approves it and whatever it is posted with, the operations that are left of its lifecycle
  -- succeed on a journal and bring it to CANCELLED. There it stays: each operation is refused, but for
  -- the recording of a negative-stock authorisation, which succeeds and leaves it cancelled.
  pub ends_cancelled :
      (f : Completion) (j : StockJournal)
      → (k : StockJournal) × (apply_all (rest_of_life f j.status) j ≡ ok k)
        × (k.status ≡ cancelled)
        × ((o : Operation) → LeavesCancelled o k)
  ends_cancelled f j =
      let (k, reached, ended) = to_cancelled f j.status j refl in
      (k, reached, ended, refuses_all k ended)
