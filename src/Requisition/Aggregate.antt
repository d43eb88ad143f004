-- ===== src/Requisition/Aggregate.antt =====
-- The requisition and its transitions (modules/requisition/domain: requisition.ts,
-- requisition-status.ts and approval-policy.ts).
use construction_erp_nestjs.Prelude.{
  ℕ, Option, none, some, Bool, true, false, ◌||◌, not, List, [], ◌∷◌, ◌++◌, map, any, every,
  if◌then◌else◌, get_or_default,
}
use construction_erp_nestjs.Prelude.Text.{Text, text_eq, trim, is_empty}
use construction_erp_nestjs.Errors.{ErrorCode, Result, ok, throw, throw_if, ◌>>=◌, ◌>>◌}
use construction_erp_nestjs.Decimal.{
  DecimalLib, Num, of_number, plus, minus, to_decimal_places, is_zero, is_negative, greater_than,
  less_than_or_equal_to,
}

pub data RequisitionStatus : Type 0 where
  draft submitted approved rejected partially_issued issued closed : RequisitionStatus

pub data ApprovalTier : Type 0 where
  pm accounts : ApprovalTier

pub data ApprovalDecision : Type 0 where
  approved_ rejected_ : ApprovalDecision

pub record ApproverContext : Type 0 where
  pub tier : ApprovalTier
  pub assigned_to_project : Bool

unfoldable pub can_approve : ApprovalTier → ApproverContext → Bool
can_approve pm c = elim c.tier [ pm ↦ c.assigned_to_project | accounts ↦ false ]
can_approve accounts c = elim c.tier [ pm ↦ false | accounts ↦ true ]

module _ ⦃d : DecimalLib⦄ where
  unfoldable pub select_tier : Num → Num → ApprovalTier
  select_tier estimated_value pm_threshold =
      if less_than_or_equal_to estimated_value pm_threshold then pm else accounts

  pub record RequisitionLine : Type 0 where
    pub id : Text
    pub line_no : ℕ
    pub item_id : Text
    pub requested_quantity : Num
    pub issued_quantity : Num
    pub balance_quantity : Num
    pub indicative_rate : Option Num
    pub uom : Text

  pub record ApprovalInput : Type 0 where
    pub id : Text
    pub tier : ApprovalTier
    pub threshold_evaluated : Num
    pub estimated_value : Num
    pub reason : Option Text
    pub decided_by : Text

  pub record RequisitionApproval : Type 0 where
    pub input : ApprovalInput
    pub requisition_id : Text
    pub decision : ApprovalDecision
    pub decided_reason : Option Text
    pub decided_at : ℕ

  pub record Requisition : Type 0 where
    pub id : Text
    pub requisition_no : Option Text
    pub requisition_seq : Option ℕ
    pub status : RequisitionStatus
    pub estimated_value : Num
    pub approval_tier : Option ApprovalTier
    pub submitted_at : Option ℕ
    pub submitted_by_id : Option Text
    pub closed_at : Option ℕ
    pub closed_reason : Option Text
    pub lines : List RequisitionLine
    pub approvals : List RequisitionApproval

  abbrev pub round : Num → Num
  round = to_decimal_places 4

  abbrev pub is_draft : RequisitionStatus → Bool
  is_draft s = elim s [ draft ↦ true | _ ↦ false ]

  abbrev pub is_submitted : RequisitionStatus → Bool
  is_submitted s = elim s [ submitted ↦ true | _ ↦ false ]

  -- `ISSUABLE_STATUSES` and `CLOSABLE_STATUSES` have the same two members.
  abbrev pub is_issuable : RequisitionStatus → Bool
  is_issuable s = elim s [ approved ↦ true | partially_issued ↦ true | _ ↦ false ]

  -- `req(v, field)`.
  unfoldable pub required_text : Text → Result Text
  unfolding trim
  required_text v = do throw_if (is_empty (trim v)) ErrorCode.validation; ok (trim v)

  -- `rates.get(line.id)`: of two estimates for one line the last one counts.
  abbrev pub rate_of : List (Text × Num) → Text → Option Num
  rate_of [] id = none
  rate_of (e ∷ es) id = elim (rate_of es id) [
    | some r ↦ some r
    | none ↦ if text_eq e.0 id then some e.1 else none
  ]

  abbrev pub estimated : List (Text × Num) → RequisitionLine → RequisitionLine
  estimated es l = elim (rate_of es l.id) [
    | some r ↦ record l { indicative_rate = some r }
    | none ↦ l
  ]

  unfoldable pub submit :
      Text
      → ℕ
      → Num
      → ApprovalTier
      → List (Text × Num)
      → Text
      → ℕ
      → Requisition
      → Result Requisition
  unfolding required_text
  submit number_given seq value tier estimates actor at r = do
    throw_if (not (is_draft r.status)) ErrorCode.invalid_requisition_transition
    number ← required_text number_given
    ok (record r {
      lines = map (estimated estimates) r.lines;
      requisition_no = some number;
      requisition_seq = some seq;
      estimated_value = value;
      approval_tier = some tier;
      submitted_by_id = some actor;
      submitted_at = some at;
      status = submitted;
    })

  abbrev pub record_approval :
      ApprovalInput → ApprovalDecision → Option Text → ℕ → Requisition → List RequisitionApproval
  record_approval input decision reason at r =
      r.approvals
      ++ (record {
        input = input;
        requisition_id = r.id;
        decision = decision;
        decided_reason = reason;
        decided_at = at;
      }
          ∷ [])

  unfoldable pub approve : ApprovalInput → ℕ → Requisition → Result Requisition
  approve input at r = do
    throw_if (not (is_submitted r.status)) ErrorCode.requisition_not_submitted
    ok (record r {
      approvals = record_approval input approved_ input.reason at r;
      status = approved;
    })

  unfoldable pub reject : ApprovalInput → ℕ → Requisition → Result Requisition
  unfolding trim
  reject input at r = do
    throw_if (not (is_submitted r.status)) ErrorCode.requisition_not_submitted
    throw_if (is_empty (trim (get_or_default input.reason []))) ErrorCode.missing_reject_reason
    ok (record r {
      approvals =
          record_approval input rejected_ (some (trim (get_or_default input.reason []))) at r;
      status = rejected;
    })

  unfoldable pub has_outstanding : List RequisitionLine → Bool
  has_outstanding ls = any (λ l. greater_than l.balance_quantity (of_number 0)) ls

  unfoldable pub is_fully_issued : List RequisitionLine → Bool
  is_fully_issued ls = every (λ l. is_zero l.balance_quantity) ls

  unfoldable pub any_issued : List RequisitionLine → Bool
  any_issued ls = any (λ l. greater_than l.issued_quantity (of_number 0)) ls

  abbrev pub is_issued : RequisitionStatus → Bool
  is_issued s = elim s [ issued ↦ true | _ ↦ false ]

  unfoldable pub close : Text → ℕ → Requisition → Result Requisition
  unfolding has_outstanding trim
  close reason at r = do
    throw_if (is_issued r.status || not (has_outstanding r.lines)) ErrorCode.no_outstanding_balance
    throw_if (not (is_issuable r.status)) ErrorCode.invalid_requisition_transition
    ok (record r {
      status = closed;
      closed_reason = if is_empty (trim reason) then none else some (trim reason);
      closed_at = some at;
    })

  unfoldable pub issue_line : Num → RequisitionLine → Result RequisitionLine
  issue_line issue_quantity l = do
    throw_if
        (not (greater_than (round issue_quantity) (of_number 0))
          || greater_than (round issue_quantity) l.balance_quantity)
        ErrorCode.issue_exceeds_balance
    ok (record l {
      issued_quantity = round (plus l.issued_quantity (round issue_quantity));
      balance_quantity =
          round
            (minus l.requested_quantity (round (plus l.issued_quantity (round issue_quantity))));
    })

  -- The first line with the id is changed; a missing one throws.
  unfoldable pub change_line :
      Text
      → (RequisitionLine → Result RequisitionLine)
      → List RequisitionLine
      → Result (List RequisitionLine)
  change_line id change [] = throw ErrorCode.validation
  change_line id change (l ∷ ls) =
      let here = change l >>= λ m. ok (m ∷ ls) in
      let later = change_line id change ls >>= λ ms. ok (l ∷ ms) in
      if text_eq l.id id then here else later

  unfoldable pub issue_lines :
      List (Text × Num) → List RequisitionLine → Result (List RequisitionLine)
  unfolding issue_line change_line
  issue_lines [] ls = ok ls
  issue_lines (i ∷ is) ls = do changed ← change_line i.0 (issue_line i.1) ls; issue_lines is changed

  unfoldable pub apply_issue : List (Text × Num) → Requisition → Result Requisition
  unfolding issue_lines is_fully_issued
  apply_issue is r = do
    throw_if (not (is_issuable r.status)) ErrorCode.requisition_not_approved
    ls ← issue_lines is r.lines
    ok (record r { lines = ls; status = if is_fully_issued ls then issued else partially_issued })

  -- The issued quantity after a reversal, which does not fall below zero.
  abbrev pub unissued : Num → Num → Num
  unissued issued_before quantity =
      let rest = round (minus issued_before (round quantity)) in
      if is_negative rest then of_number 0 else rest

  unfoldable pub unissue_line : Num → RequisitionLine → Result RequisitionLine
  unissue_line quantity l = ok (record l {
    issued_quantity = unissued l.issued_quantity quantity;
    balance_quantity = round (minus l.requested_quantity (unissued l.issued_quantity quantity));
  })

  unfoldable pub unissue_lines :
      List (Text × Num) → List RequisitionLine → Result (List RequisitionLine)
  unfolding unissue_line change_line
  unissue_lines [] ls = ok ls
  unissue_lines (i ∷ is) ls = do
    changed ← change_line i.0 (unissue_line i.1) ls
    unissue_lines is changed

  unfoldable pub reverse_issue : List (Text × Num) → Requisition → Result Requisition
  unfolding unissue_lines any_issued
  reverse_issue is r = do
    ls ← unissue_lines is r.lines
    ok (record r { lines = ls; status = if any_issued ls then partially_issued else approved })
