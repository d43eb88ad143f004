-- ===== src/Errors/Http.antt =====
-- The HTTP status of each domain error (infrastructure/http/domain-error.mapping.ts).
use construction_erp_nestjs.Prelude.{ℕ}
use construction_erp_nestjs.Errors.Codes.{ErrorCode}

pub data HttpStatus : Type 0 where
  bad_request unauthorized forbidden not_found conflict internal_server_error : HttpStatus

-- The numbers of the enum `HttpStatus` of the framework.
abbrev pub status_number : HttpStatus → ℕ
status_number HttpStatus.bad_request = 400
status_number HttpStatus.unauthorized = 401
status_number HttpStatus.forbidden = 403
status_number HttpStatus.not_found = 404
status_number HttpStatus.conflict = 409
status_number HttpStatus.internal_server_error = 500

unfoldable pub domain_error_status : ErrorCode → HttpStatus
domain_error_status ErrorCode.validation = HttpStatus.bad_request
domain_error_status ErrorCode.not_found = HttpStatus.not_found
domain_error_status ErrorCode.conflict = HttpStatus.conflict
domain_error_status ErrorCode.forbidden = HttpStatus.forbidden
domain_error_status ErrorCode.unauthorized = HttpStatus.unauthorized
domain_error_status ErrorCode.invalid_credentials = HttpStatus.unauthorized
domain_error_status ErrorCode.token_expired = HttpStatus.unauthorized
domain_error_status ErrorCode.unauthenticated = HttpStatus.unauthorized
domain_error_status ErrorCode.optimistic_lock_conflict = HttpStatus.conflict
domain_error_status ErrorCode.cross_company_reference = HttpStatus.bad_request
domain_error_status ErrorCode.duplicate_code = HttpStatus.conflict
domain_error_status ErrorCode.duplicate_name = HttpStatus.conflict
domain_error_status ErrorCode.immutable_project_code = HttpStatus.conflict
domain_error_status ErrorCode.invalid_status_transition = HttpStatus.conflict
domain_error_status ErrorCode.referenced_master = HttpStatus.conflict
domain_error_status ErrorCode.account_type_mismatch = HttpStatus.bad_request
domain_error_status ErrorCode.account_type_immutable = HttpStatus.conflict
domain_error_status ErrorCode.base_uom_immutable = HttpStatus.conflict
domain_error_status ErrorCode.cross_project_dimension = HttpStatus.bad_request
domain_error_status ErrorCode.series_already_exists = HttpStatus.conflict
domain_error_status ErrorCode.ledger_imbalance = HttpStatus.bad_request
domain_error_status ErrorCode.missing_dimension = HttpStatus.bad_request
domain_error_status ErrorCode.append_only_violation = HttpStatus.conflict
domain_error_status ErrorCode.invalid_line = HttpStatus.bad_request
domain_error_status ErrorCode.project_closed = HttpStatus.conflict
domain_error_status ErrorCode.already_reversed = HttpStatus.conflict
domain_error_status ErrorCode.cannot_reverse_reversal = HttpStatus.conflict
domain_error_status ErrorCode.period_closed = HttpStatus.conflict
domain_error_status ErrorCode.no_period_defined = HttpStatus.conflict
domain_error_status ErrorCode.periods_already_exist = HttpStatus.conflict
domain_error_status ErrorCode.period_overlap = HttpStatus.conflict
domain_error_status ErrorCode.period_already_closed = HttpStatus.conflict
domain_error_status ErrorCode.period_already_open = HttpStatus.conflict
domain_error_status ErrorCode.period_fy_locked = HttpStatus.conflict
domain_error_status ErrorCode.no_periods_for_fy = HttpStatus.not_found
domain_error_status ErrorCode.financial_year_not_found = HttpStatus.not_found
domain_error_status ErrorCode.numbering_exhausted = HttpStatus.conflict
domain_error_status ErrorCode.negative_stock_blocked = HttpStatus.conflict
domain_error_status ErrorCode.same_godown_transfer = HttpStatus.bad_request
domain_error_status ErrorCode.stock_journal_not_approved = HttpStatus.conflict
domain_error_status ErrorCode.invalid_stock_journal_transition = HttpStatus.conflict
domain_error_status ErrorCode.inventory_account_not_configured = HttpStatus.conflict
domain_error_status ErrorCode.not_bank_cash_account = HttpStatus.bad_request
domain_error_status ErrorCode.missing_required_dimension = HttpStatus.bad_request
domain_error_status ErrorCode.missing_control_party = HttpStatus.bad_request
domain_error_status ErrorCode.unbalanced_entry = HttpStatus.bad_request
domain_error_status ErrorCode.voucher_posted_immutable = HttpStatus.conflict
domain_error_status ErrorCode.voucher_not_posted = HttpStatus.conflict
domain_error_status ErrorCode.opening_already_exists = HttpStatus.conflict
domain_error_status ErrorCode.opening_account_not_configured = HttpStatus.conflict
domain_error_status ErrorCode.duplicate_ipc_seq_no = HttpStatus.conflict
domain_error_status ErrorCode.currently_due_negative = HttpStatus.bad_request
domain_error_status ErrorCode.advance_exceeds_remaining = HttpStatus.conflict
domain_error_status ErrorCode.certified_not_positive = HttpStatus.bad_request
domain_error_status ErrorCode.sales_account_not_configured = HttpStatus.conflict
domain_error_status ErrorCode.over_release = HttpStatus.conflict
domain_error_status ErrorCode.already_confirmed = HttpStatus.conflict
domain_error_status ErrorCode.not_accruable_mode = HttpStatus.conflict
domain_error_status ErrorCode.attendance_confirmed_immutable = HttpStatus.conflict
domain_error_status ErrorCode.attendance_not_confirmed = HttpStatus.conflict
domain_error_status ErrorCode.employee_not_office_staff = HttpStatus.bad_request
domain_error_status ErrorCode.immutable_employee_code = HttpStatus.conflict
domain_error_status ErrorCode.effective_date_before_joining = HttpStatus.bad_request
domain_error_status ErrorCode.duplicate_attendance = HttpStatus.conflict
domain_error_status ErrorCode.hr_account_not_configured = HttpStatus.conflict
domain_error_status ErrorCode.labour_cost_centre_not_configured = HttpStatus.conflict
domain_error_status ErrorCode.salary_not_draft = HttpStatus.conflict
domain_error_status ErrorCode.duplicate_draft_sheet = HttpStatus.conflict
domain_error_status ErrorCode.salary_not_posted = HttpStatus.conflict
domain_error_status ErrorCode.settled_composition_invalid = HttpStatus.bad_request
domain_error_status ErrorCode.receipt_exceeds_outstanding = HttpStatus.conflict
domain_error_status ErrorCode.reference_xor_violation = HttpStatus.bad_request
domain_error_status ErrorCode.cheque_ref_required = HttpStatus.bad_request
domain_error_status ErrorCode.ipc_not_posted = HttpStatus.conflict
domain_error_status ErrorCode.receipt_account_not_configured = HttpStatus.conflict
domain_error_status ErrorCode.invalid_general_target = HttpStatus.bad_request
domain_error_status ErrorCode.requisition_not_submitted = HttpStatus.conflict
domain_error_status ErrorCode.requisition_not_approved = HttpStatus.conflict
domain_error_status ErrorCode.approval_beyond_authority = HttpStatus.forbidden
domain_error_status ErrorCode.missing_reject_reason = HttpStatus.bad_request
domain_error_status ErrorCode.no_outstanding_balance = HttpStatus.conflict
domain_error_status ErrorCode.invalid_requisition_transition = HttpStatus.conflict
domain_error_status ErrorCode.issue_exceeds_balance = HttpStatus.bad_request
domain_error_status ErrorCode.godown_not_in_project = HttpStatus.bad_request
domain_error_status ErrorCode.inactive_master_reference = HttpStatus.bad_request
domain_error_status ErrorCode.payment_over_allocation = HttpStatus.conflict
domain_error_status ErrorCode.payable_not_settleable = HttpStatus.conflict
domain_error_status ErrorCode.allocation_exceeds_outstanding = HttpStatus.conflict
domain_error_status ErrorCode.settlement_account_is_expense = HttpStatus.conflict
domain_error_status ErrorCode.payment_account_not_configured = HttpStatus.conflict
domain_error_status ErrorCode.net_payable_negative = HttpStatus.bad_request
domain_error_status ErrorCode.line_type_invalid = HttpStatus.bad_request
domain_error_status ErrorCode.po_not_billable = HttpStatus.conflict
domain_error_status ErrorCode.invalid_po_transition = HttpStatus.conflict
domain_error_status ErrorCode.purchase_account_not_configured = HttpStatus.conflict
domain_error_status ErrorCode.tenant_scope_missing = HttpStatus.bad_request
