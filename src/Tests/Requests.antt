-- ===== src/Tests/Requests.antt =====
-- A requisition of ten units, of which four are issued, and closed ones.
use construction_erp_nestjs.Prelude.{
  ◌≡◌, refl, none, some, true, List, [], ◌∷◌, All, if◌then◌else◌, arith,
}
use construction_erp_nestjs.Prelude.Int.{ℤ, pos, ◌+ℤ◌, ◌-ℤ◌}
use construction_erp_nestjs.Prelude.Text.{Text, codes, text_eq}
use construction_erp_nestjs.Errors.{ok}
use construction_erp_nestjs.Requisition.Aggregate.{
  approved, closed, issued, partially_issued, RequisitionLine, Requisition, is_issuable,
  apply_issue, issue_lines, issue_line, change_line, reverse_issue, is_fully_issued, any_issued,
}
use construction_erp_nestjs.Requisition.Balance.{IsSound, apply_issue-IsSound}
use construction_erp_nestjs.Requisition.Lifecycle.{AreOf, reverse_issue_reopens}
use construction_erp_nestjs.Requisition.Reach.{Operation, issue_of, close_for, return_of}
use construction_erp_nestjs.Tests.Decimals.{fixed_point, fixed_point_exact}

abbrev cement : RequisitionLine
cement = record {
  id = codes "l1";
  line_no = 1;
  item_id = codes "cement";
  requested_quantity = pos 100000;
  issued_quantity = pos 0;
  balance_quantity = pos 100000;
  indicative_rate = none;
  uom = codes "bag";
}

abbrev issued_cement : RequisitionLine
issued_cement = record cement { issued_quantity = pos 40000; balance_quantity = pos 60000 }

abbrev request : Requisition
request = record {
  id = codes "r1";
  requisition_no = none;
  requisition_seq = none;
  status = approved;
  estimated_value = pos 0;
  approval_tier = none;
  submitted_at = none;
  submitted_by_id = none;
  closed_at = none;
  closed_reason = none;
  lines = cement ∷ [];
  approvals = [];
}

abbrev issued_request : Requisition
issued_request = record request { status = partially_issued; lines = issued_cement ∷ [] }

abbrev closed_request : Requisition
closed_request = record issued_request { status = closed; closed_at = some 9 }

abbrev four : List (Text × ℤ)
four = (codes "l1", pos 40000) ∷ []

cement-IsSound : IsSound fixed_point_exact cement
unfolding ◌+ℤ◌
cement-IsSound = record {
  requested = (omega arith, omega arith);
  issued = (omega arith, omega arith);
  balance = (omega arith, omega arith);
  split = refl;
  balance_low = omega arith;
  issued_low = omega arith;
}

four_issued : apply_issue four request ≡ ok issued_request
unfolding apply_issue issue_lines change_line issue_line is_fully_issued text_eq ◌+ℤ◌ ◌-ℤ◌
four_issued = refl

apply_issue-IsSound_example :
    (is_issuable approved ≡ true)
    × All (IsSound fixed_point_exact) issued_request.lines
    × (partially_issued
        ≡ (if is_fully_issued issued_request.lines then issued else partially_issued))
apply_issue-IsSound_example =
    apply_issue-IsSound fixed_point_exact four request ((omega arith, omega arith), tt)
      (cement-IsSound, tt) four_issued

issued_cement-IsSound : IsSound fixed_point_exact issued_cement
unfolding ◌+ℤ◌
issued_cement-IsSound = record {
  requested = (omega arith, omega arith);
  issued = (omega arith, omega arith);
  balance = (omega arith, omega arith);
  split = refl;
  balance_low = omega arith;
  issued_low = omega arith;
}

cement_named : AreOf closed_request.lines four
unfolding text_eq
cement_named = (refl, tt)

reverse_issue_reopens_example :
    (t : Requisition) × (reverse_issue four closed_request ≡ ok t)
    × All (IsSound fixed_point_exact) t.lines
    × (is_issuable t.status ≡ true)
    × (t.status ≡ (if any_issued t.lines then partially_issued else approved))
    × (t.closed_at ≡ closed_request.closed_at)
    × (t.closed_reason ≡ closed_request.closed_reason)
reverse_issue_reopens_example =
    reverse_issue_reopens fixed_point_exact four closed_request
      (((omega arith, omega arith), omega arith), tt) cement_named (issued_cement-IsSound, tt)

abbrev handed_out : List Operation
handed_out = issue_of four ∷ close_for (codes "done") 9 ∷ return_of four ∷ []
