-- ===== src/Tests/Orders.antt =====
-- A purchase order of one line, and the billing of its quantity.
use construction_erp_nestjs.Prelude.{◌≡◌, refl, none, [], ◌∷◌}
use construction_erp_nestjs.Prelude.Int.{pos, ◌+ℤ◌}
use construction_erp_nestjs.Prelude.Text.{codes}
use construction_erp_nestjs.Errors.{ok, ◌>>=◌}
use construction_erp_nestjs.Purchase.Order.{
  PoStatus, PurchaseOrderLine, PurchaseOrder, apply_billed_qty,
}
use construction_erp_nestjs.Tests.Decimals.{fixed_point}

abbrev rods : PurchaseOrderLine
rods = record {
  id = codes "1";
  line_no = 1;
  item_id = codes "i";
  ordered_qty = pos 50000;
  rate = pos 20000;
  line_amount = pos 100000;
  godown_id = codes "g";
  project_id = codes "p";
  cost_centre_id = codes "c";
  purpose_id = codes "u";
  billed_qty = pos 0;
  received_qty = pos 0;
}

abbrev order : PurchaseOrder
order = record {
  id = codes "o";
  company_id = codes "co";
  financial_year_id = codes "fy";
  project_id = codes "p";
  supplier_id = codes "s";
  po_ref_no = none;
  po_date = codes "2024-01-05";
  expected_delivery_date = none;
  status = PoStatus.approved;
  narration = none;
  approved_by = none;
  approved_at = none;
  version = 1;
  lines = rods ∷ [];
}

-- An order whose quantity is billed in two parts is closed by the second.
billed_closes :
    (apply_billed_qty 1 (pos 20000) order >>= λ o. apply_billed_qty 1 (pos 30000) o)
    ≡ ok (record order {
      status = PoStatus.closed;
      lines = record rods { billed_qty = pos 50000 } ∷ [];
    })
unfolding apply_billed_qty ◌+ℤ◌
billed_closes = refl
