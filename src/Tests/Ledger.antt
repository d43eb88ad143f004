-- ===== src/Tests/Ledger.antt =====
-- A ledger of entries in a list, with two bank accounts.
use construction_erp_nestjs.Prelude.{
  ℕ, ◌≡◌, ◌≤◌, ◌⊎◌, ◌↔◌, ◌⊎◌, ◌∙◌, sym, ap, refl, inl, inr, Option, none, some, Bool, true, false,
  ◌&&◌, List, [], ◌∷◌, map, any, length, All, and_true, if◌then◌else◌, Bool-cases, arith,
}
use construction_erp_nestjs.Prelude.Int.{pos, ◌+ℤ◌}
use construction_erp_nestjs.Prelude.Text.{Text, codes, text_eq, text_eq_iff, text_eq_refl}
use construction_erp_nestjs.Errors.{ErrorCode, Failure, domain, http_exception, ok, err}
use construction_erp_nestjs.Errors.Action.{◌>>=◌}
use construction_erp_nestjs.Errors.Envelope.{
  EnvelopeCode, IsMissing, to_envelope, to_envelope_status,
}
use construction_erp_nestjs.Decimal.{equals}
use construction_erp_nestjs.Posting.Command.{VoucherType, NewLine, PostingLine, PostingCommand}
use construction_erp_nestjs.Posting.Tags.{assert_tags, assert_lines, assert_line}
use construction_erp_nestjs.Posting.Tags.Complete.{IsTagged, assert_tags_iff}
use construction_erp_nestjs.Posting.Entry.{
  LineProps, JournalLine, JournalEntry, assert_postable, checked_lines, create_line,
  assert_min_lines, assert_balanced, create_lines, swap_lines, total_debit, total_credit,
}
use construction_erp_nestjs.Posting.Entry.Invariant.{IsWellFormed, checked_lines_iff}
use construction_erp_nestjs.Posting.Entry.Net.{
  net, net-swap_lines, total_iff, debit_units, credit_units,
}
use construction_erp_nestjs.Posting.Build.{create, reverse as reverse_entry}
use construction_erp_nestjs.Posting.Service.{
  Ports, ReadOnly, EntryStore, Finds, distinct_ids, validate, write_entry, post, reversible,
  reverse,
}
use construction_erp_nestjs.Posting.Service.Order.{post_rejects_or_writes, validated_makes_entry}
use construction_erp_nestjs.Posting.Service.Outcome.{IsEntryOf, post-IsEntryOf}
use construction_erp_nestjs.Posting.Service.Reversal.{IsReversalOf, reverse-IsReversalOf}
use construction_erp_nestjs.Posting.Service.Refusal.{reverse_once}
use construction_erp_nestjs.Tests.Decimals.{fixed_point, fixed_point_exact}

abbrev pub Entries : Type 0
Entries = List JournalEntry

abbrev has_key : Text → Text → JournalEntry → Bool
has_key id c e = text_eq e.id id && text_eq e.company_id c

abbrev reverses : Text → Text → JournalEntry → Bool
reverses id c e = elim e.reversal_of [
  | none ↦ false
  | some o ↦ text_eq o id && text_eq e.company_id c
]

-- The oldest entry that passes the test; the list has the newest first.
abbrev find_last : (JournalEntry → Bool) → Entries → Option JournalEntry
find_last f [] = none
find_last f (e ∷ es) = elim (find_last f es) [
  | some o ↦ some o
  | none ↦ if f e then some e else none
]

abbrev pub ledger_ports : Ports Entries
ledger_ports = record {
  assert_open = λ c fy date s. (ok tt, s);
  assert_not_closed = λ c p s. (ok tt, s);
  assert_references_valid = λ cmd s. (ok tt, s);
  next = λ v c fy s. (ok (length s ∷ []), s);
  save = λ e s. (ok tt, e ∷ s);
  find_by_id = λ id c s. (ok (find_last (has_key id c) s), s);
  exists_reversal_of = λ id c s. (ok (any (reverses id c) s), s);
  next_id = λ s. (ok (length s ∷ []), s);
  now = λ s. (ok 0, s);
}

ledger_ports-ReadOnly : ReadOnly Entries ledger_ports
ledger_ports-ReadOnly = record {
  assert_open_reads = λ c fy date s. refl;
  assert_not_closed_reads = λ c p s. refl;
  assert_references_reads = λ cmd s. refl;
  find_by_id_reads = λ id c s. refl;
  exists_reversal_of_reads = λ id c s. refl;
}

ok_some : {A : Type 0} {a b : A} → ok a ≡ ok b → a ≡ b
ok_some h = cc

some_inj : {A : Type 0} {a b : A} → some a ≡ some b → a ≡ b
some_inj h = cc

kept :
    (f : JournalEntry → Bool) (e : JournalEntry) (r : Option JournalEntry) {o : JournalEntry}
    → r ≡ some o
    → (elim r as (λ _. Option JournalEntry) [
      | some o ↦ some o
      | none ↦ if f e then some e else none
    ])
      ≡ some o
kept f e none h = cc
kept f e (some p) h = h

last_case :
    (f : JournalEntry → Bool) (e : JournalEntry) (r : Option JournalEntry) {o : JournalEntry}
    → ((o : JournalEntry) → r ≡ some o → f o ≡ true)
    → (elim r as (λ _. Option JournalEntry) [
      | some o ↦ some o
      | none ↦ if f e then some e else none
    ])
      ≡ some o
    → f o ≡ true
last_case f e (some p) {o} older h = older o h
last_case f e none {o} older h = elim (Bool-cases (f e)) [
  | inl t ↦
      let same : e ≡ o = some_inj (sym (ap (λ b. if b then some e else none) t) ∙ h) in
      ap f (sym same) ∙ t
  | inr t ↦ let no : none ≡ some o = sym (ap (λ b. if b then some e else none) t) ∙ h in cc
]

known :
    (e : JournalEntry) (id : Text) (s t : Entries)
    → ledger_ports.save e s ≡ (ok tt, t)
    → e.reversal_of ≡ some id
    → (ledger_ports.exists_reversal_of id e.company_id t).0 ≡ ok true
known e id s t h link =
    ap (λ q. ok (any (reverses id e.company_id) q.1)) (sym h)
    ∙ rw link (rw (text_eq_refl id) (rw (text_eq_refl e.company_id) refl))

find_last-true :
    (f : JournalEntry → Bool) (es : Entries) {o : JournalEntry}
    → find_last f es ≡ some o
    → f o ≡ true
find_last-true f [] h = cc
find_last-true f (e ∷ es) {o} h = last_case f e (find_last f es) (λ o h. find_last-true f es h) h

ledger_ports-EntryStore : EntryStore ledger_ports
ledger_ports-EntryStore = record {
  found_key = λ id c o s h.
      let (own_id, own_company) =
        and_true (text_eq o.id id) (text_eq o.company_id c)
          (find_last-true (has_key id c) s (ok_some h)) in
      ((text_eq_iff o.id id).0 own_id, (text_eq_iff o.company_id c).0 own_company);
  next_keeps = λ v k fy id c o s h. h;
  next_id_keeps = λ id c o s h. h;
  now_keeps = λ id c o s h. h;
  save_keeps =
      λ e id c o s h. ap ok (kept (has_key id c) e (find_last (has_key id c) s) (ok_some h));
  save_known = λ e id s t h link. known e id s t h link;
}

abbrev test_line : Text → ℕ → ℕ → NewLine
test_line account debit credit = record {
  account_id = account;
  project_id = none;
  cost_centre_id = none;
  purpose_id = none;
  godown_id = none;
  party_id = none;
  debit = record { amount = pos debit };
  credit = record { amount = pos credit };
  narration = none;
}

abbrev test_posting : Text → ℕ → ℕ → PostingLine
test_posting account debit credit = record {
  line = test_line account debit credit;
  account_type = none;
  is_control_account = none;
  is_stock_line = none;
}

abbrev pub contra_command : PostingCommand
contra_command = record {
  company_id = codes "c";
  financial_year_id = codes "fy";
  voucher_type = VoucherType.contra;
  voucher_date = codes "2025-07-01";
  source_type = codes "CONTRA";
  source_id = codes "v1";
  posted_by = codes "u";
  narration = none;
  lines = test_posting (codes "bank") 500 0 ∷ test_posting (codes "cash") 0 500 ∷ [];
}

abbrev test_props : Text → ℕ → ℕ → LineProps
test_props account debit credit = record {
  account_id = account;
  project_id = none;
  cost_centre_id = none;
  purpose_id = none;
  godown_id = none;
  party_id = none;
  debit = record { amount = pos debit };
  credit = record { amount = pos credit };
  narration = none;
}

abbrev journal_lines : List JournalLine
journal_lines =
    record { line_no = 1; props = test_props (codes "bank") 500 0 }
    ∷ record { line_no = 2; props = test_props (codes "cash") 0 500 }
    ∷ []

abbrev pub contra_entry : JournalEntry
contra_entry = record {
  id = 0 ∷ [];
  company_id = codes "c";
  financial_year_id = codes "fy";
  entry_no = 0 ∷ [];
  voucher_type = VoucherType.contra;
  voucher_date = codes "2025-07-01";
  source_type = codes "CONTRA";
  source_id = codes "v1";
  is_reversal = false;
  reversal_of = none;
  posted_at = 0;
  posted_by = codes "u";
  narration = none;
  lines = journal_lines;
}

abbrev pub contra_reversal : JournalEntry
contra_reversal = record contra_entry {
  id = 1 ∷ [];
  entry_no = 1 ∷ [];
  is_reversal = true;
  reversal_of = some (0 ∷ []);
  posted_by = codes "w";
  narration = some (codes "Reversal: wrong");
  lines =
      record { line_no = 1; props = test_props (codes "bank") 0 500 }
      ∷ record { line_no = 2; props = test_props (codes "cash") 500 0 }
      ∷ [];
}

contra_validated : (validate ledger_ports contra_command []).0 ≡ ok tt
unfolding validate ◌>>=◌ assert_tags assert_postable distinct_ids assert_lines assert_line
    checked_lines create_lines create_line assert_min_lines assert_balanced total_debit total_credit
    ◌+ℤ◌
contra_validated = refl

contra_posted : post ledger_ports contra_command [] ≡ (ok contra_entry, contra_entry ∷ [])
unfolding post validate write_entry create ◌>>=◌ assert_tags assert_postable distinct_ids
    assert_lines assert_line checked_lines create_lines create_line assert_min_lines assert_balanced
    total_debit total_credit ◌+ℤ◌
contra_posted = refl

contra_reversed :
    reverse ledger_ports (0 ∷ []) (codes "c") (codes "wrong") (codes "w") (contra_entry ∷ [])
    ≡ (ok contra_reversal, contra_reversal ∷ contra_entry ∷ [])
unfolding reverse reversible reverse_entry ◌>>=◌ distinct_ids text_eq
contra_reversed = refl

post_rejects_or_writes_example :
    ((e : Failure) × ((validate ledger_ports contra_command []).0 ≡ err e)
      × (post ledger_ports contra_command [] ≡ (err e, [])))
    ⊎ (((validate ledger_ports contra_command []).0 ≡ ok tt)
        × (post ledger_ports contra_command [] ≡ write_entry ledger_ports contra_command []))
post_rejects_or_writes_example =
    post_rejects_or_writes ledger_ports ledger_ports-ReadOnly contra_command []

validated_makes_entry_example :
    All (IsTagged VoucherType.contra) contra_command.lines
    × ((js : List JournalLine) × (checked_lines (map (λ l. l.line) contra_command.lines) ≡ ok js)
        × IsWellFormed (map (λ l. l.line) contra_command.lines) js)
validated_makes_entry_example =
    validated_makes_entry ledger_ports ledger_ports-ReadOnly contra_command [] contra_validated

checked_lines_iff_example :
    (checked_lines (map (λ l. l.line) contra_command.lines) ≡ ok journal_lines)
    ↔ IsWellFormed (map (λ l. l.line) contra_command.lines) journal_lines
checked_lines_iff_example = checked_lines_iff (map (λ l. l.line) contra_command.lines) journal_lines

post-IsEntryOf_example :
    IsEntryOf contra_command contra_entry
    × ((s0 : Entries) × (s1 : Entries) × (ledger_ports.next VoucherType.contra
            (codes "c")
            (codes "fy")
            s0
          ≡ (ok contra_entry.entry_no, s1)))
    × ((s : Entries) × (ledger_ports.save contra_entry s ≡ (ok tt, contra_entry ∷ [])))
post-IsEntryOf_example = post-IsEntryOf ledger_ports contra_command [] contra_posted

reverse-IsReversalOf_example :
    (o : JournalEntry) × Finds ledger_ports (0 ∷ []) (codes "c") o (contra_entry ∷ [])
    × (o.is_reversal ≡ false)
    × IsReversalOf (codes "wrong") (codes "w") o contra_reversal
    × Finds ledger_ports (0 ∷ []) (codes "c") o (contra_reversal ∷ contra_entry ∷ [])
    × ((s0 : Entries) × (s1 : Entries) × (ledger_ports.next o.voucher_type o.company_id
            o.financial_year_id s0
          ≡ (ok contra_reversal.entry_no, s1)))
    × ((s : Entries) × (ledger_ports.save contra_reversal s
          ≡ (ok tt, contra_reversal ∷ contra_entry ∷ [])))
reverse-IsReversalOf_example =
    reverse-IsReversalOf ledger_ports ledger_ports-ReadOnly ledger_ports-EntryStore (0 ∷ [])
      (codes "c") (codes "wrong") (codes "w") (contra_entry ∷ []) contra_reversed

reverse_once_example :
    reverse ledger_ports
      (0 ∷ [])
      (codes "c")
      (codes "again")
      (codes "x")
      (contra_reversal ∷ contra_entry ∷ [])
    ≡ (err (domain ErrorCode.already_reversed), contra_reversal ∷ contra_entry ∷ [])
reverse_once_example =
    reverse_once ledger_ports ledger_ports-ReadOnly ledger_ports-EntryStore (0 ∷ []) (codes "c")
      (codes "wrong") (codes "w") (codes "again") (codes "x") (contra_entry ∷ []) contra_reversed

net-swap_lines_example :
    net fixed_point_exact (codes "bank") (swap_lines journal_lines 1)
      +ℤ net fixed_point_exact (codes "bank") journal_lines
    ≡ pos 0
net-swap_lines_example = net-swap_lines fixed_point_exact (codes "bank") journal_lines 1

assert_tags_iff_example :
    (assert_tags contra_command ≡ ok tt) ↔ All (IsTagged VoucherType.contra) contra_command.lines
assert_tags_iff_example = assert_tags_iff contra_command

total_iff_example :
    (equals (total_debit journal_lines).amount (total_credit journal_lines).amount ≡ true)
    ↔ (debit_units fixed_point_exact journal_lines ≡ credit_units fixed_point_exact journal_lines)
unfolding ◌+ℤ◌
total_iff_example =
    total_iff fixed_point_exact journal_lines
      (
        (((omega arith, omega arith), omega arith), ((omega arith, omega arith), omega arith)),
        (
          (((omega arith, omega arith), omega arith), ((omega arith, omega arith), omega arith)),
          tt,
        ),
      )
      (omega arith, omega arith) (omega arith, omega arith)

to_envelope_status_example :
    ((500 ≤ (to_envelope (http_exception 404)).status)
      ↔ ((to_envelope (http_exception 404)).code ≡ EnvelopeCode.internal_error))
    × (((to_envelope (http_exception 404)).status ≡ 404) ↔ (
        ((c : ErrorCode) × (http_exception 404 ≡ domain c) × IsMissing c)
        ⊎ (http_exception 404 ≡ http_exception 404)))
to_envelope_status_example = to_envelope_status (http_exception 404)
