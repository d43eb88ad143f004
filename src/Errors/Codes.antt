-- ===== src/Errors/Codes.antt =====
-- The error codes of common/errors/domain-error.ts, and what else a use case throws: a JavaScript
-- `RangeError`, a plain `Error`, or a failed query of the database driver.
use construction_erp_nestjs.Prelude.{ℕ}

pub data ErrorCode : Type 0 where
  validation not_found conflict forbidden : ErrorCode
  unauthorized invalid_credentials token_expired unauthenticated : ErrorCode
  optimistic_lock_conflict cross_company_reference duplicate_code duplicate_name : ErrorCode
  immutable_project_code invalid_status_transition referenced_master account_type_mismatch :
      ErrorCode
  account_type_immutable base_uom_immutable cross_project_dimension series_already_exists :
      ErrorCode
  ledger_imbalance missing_dimension append_only_violation invalid_line : ErrorCode
  project_closed already_reversed cannot_reverse_reversal period_closed : ErrorCode
  no_period_defined periods_already_exist period_overlap period_already_closed : ErrorCode
  period_already_open period_fy_locked no_periods_for_fy financial_year_not_found : ErrorCode
  numbering_exhausted negative_stock_blocked same_godown_transfer stock_journal_not_approved :
      ErrorCode
  invalid_stock_journal_transition inventory_account_not_configured not_bank_cash_account
        missing_required_dimension :
      ErrorCode
  missing_control_party unbalanced_entry voucher_posted_immutable voucher_not_posted : ErrorCode
  opening_already_exists opening_account_not_configured duplicate_ipc_seq_no
        currently_due_negative :
      ErrorCode
  advance_exceeds_remaining certified_not_positive sales_account_not_configured over_release :
      ErrorCode
  already_confirmed not_accruable_mode attendance_confirmed_immutable attendance_not_confirmed :
      ErrorCode
  employee_not_office_staff immutable_employee_code effective_date_before_joining
        duplicate_attendance :
      ErrorCode
  hr_account_not_configured labour_cost_centre_not_configured salary_not_draft
        duplicate_draft_sheet :
      ErrorCode
  salary_not_posted settled_composition_invalid receipt_exceeds_outstanding
        reference_xor_violation :
      ErrorCode
  cheque_ref_required ipc_not_posted receipt_account_not_configured invalid_general_target :
      ErrorCode
  requisition_not_submitted requisition_not_approved approval_beyond_authority
        missing_reject_reason :
      ErrorCode
  no_outstanding_balance invalid_requisition_transition issue_exceeds_balance
        godown_not_in_project :
      ErrorCode
  inactive_master_reference payment_over_allocation payable_not_settleable
        allocation_exceeds_outstanding :
      ErrorCode
  settlement_account_is_expense payment_account_not_configured net_payable_negative
        line_type_invalid :
      ErrorCode
  po_not_billable invalid_po_transition purchase_account_not_configured tenant_scope_missing :
      ErrorCode

pub data Failure : Type 0 where
  domain : ErrorCode → Failure
  -- An `HttpException` of the framework, with its status.
  http_exception : ℕ → Failure
  range_error plain_error query_failed : Failure
