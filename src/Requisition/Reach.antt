-- ===== src/Requisition/Reach.antt =====
-- Which statuses of a requisition are reached by which operations
-- (modules/requisition/domain/requisition.ts).
use construction_erp_nestjs.Prelude.{ℕ, ◌≡◌, Option, Bool, true, ◌&&◌, List, [], ◌∷◌, is_some}
use construction_erp_nestjs.Prelude.Text.{Text}
use construction_erp_nestjs.Errors.{Result, ok, ◌>>=◌}
use construction_erp_nestjs.Decimal.{DecimalLib, Num}
use construction_erp_nestjs.Requisition.Aggregate.{
  RequisitionStatus, draft, submitted, approved, rejected, partially_issued, issued, closed,
  ApprovalTier, ApprovalInput, Requisition, is_issuable, submit, approve, reject, close,
  apply_issue, reverse_issue,
}

module _ ⦃d : DecimalLib⦄ where
  -- One step of the lifecycle. A return is a step from any status.
  pub data Step : RequisitionStatus → RequisitionStatus → Type 0 where
    submits : Step draft submitted
    approves : Step submitted approved
    rejects : Step submitted rejected
    issues_all : {s : RequisitionStatus} → is_issuable s ≡ true → Step s issued
    issues_part : {s : RequisitionStatus} → is_issuable s ≡ true → Step s partially_issued
    closes : {s : RequisitionStatus} → is_issuable s ≡ true → Step s closed
    returns_all : {s : RequisitionStatus} → Step s approved
    returns_part : {s : RequisitionStatus} → Step s partially_issued

  pub data Steps : RequisitionStatus → RequisitionStatus → Type 0 where
    stop : {s : RequisitionStatus} → Steps s s
    go : {s t u : RequisitionStatus} → Step s t → Steps t u → Steps s u

  -- What a status says of the number, the submission and the closing: a requisition that is submitted or
  -- rejected has a number and who submitted it when, and a closed one the time of its closing.
  abbrev pub stamps_fit : RequisitionStatus → Option Text → Option ℕ → Option Text → Option ℕ → Bool
  stamps_fit submitted number at by closed_at = is_some number && (is_some at && is_some by)
  stamps_fit rejected number at by closed_at = is_some number && (is_some at && is_some by)
  stamps_fit closed number at by closed_at = is_some closed_at
  stamps_fit _ number at by closed_at = true

  -- The operations that change a requisition.
  pub data Operation : Type 0 where
    submit_as : Text → ℕ → Num → ApprovalTier → List (Text × Num) → Text → ℕ → Operation
    approve_by : ApprovalInput → ℕ → Operation
    reject_by : ApprovalInput → ℕ → Operation
    issue_of : List (Text × Num) → Operation
    close_for : Text → ℕ → Operation
    return_of : List (Text × Num) → Operation

  unfoldable pub apply : Operation → Requisition → Result Requisition
  unfolding submit approve reject apply_issue close reverse_issue
  apply (submit_as number seq value tier estimates actor at) =
      submit number seq value tier estimates actor at
  apply (approve_by input at) = approve input at
  apply (reject_by input at) = reject input at
  apply (issue_of is) = apply_issue is
  apply (close_for reason at) = close reason at
  apply (return_of is) = reverse_issue is

  unfoldable pub apply_all : List Operation → Requisition → Result Requisition
  unfolding apply
  apply_all [] r = ok r
  apply_all (o ∷ os) r = apply o r >>= λ t. apply_all os t

  abbrev pub HasStamps : Requisition → Type 0
  HasStamps r =
      stamps_fit r.status r.requisition_no r.submitted_at r.submitted_by_id r.closed_at ≡ true

  -- From where an operation goes, and what it leaves.
  abbrev Goes : Requisition → Requisition → Type 0
  Goes r t = Step r.status t.status × HasStamps t
