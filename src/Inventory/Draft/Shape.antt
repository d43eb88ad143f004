-- ===== src/Inventory/Draft/Shape.antt =====
-- What `StockJournal.createDraft` (modules/inventory/domain/stock-journal.ts) returns.
use construction_erp_nestjs.Prelude.{
  ℕ, ◌+◌, ◌≡◌, ◌∙◌, refl, sym, subst, Option, none, some, true, false, not, not-false, List, [],
  ◌∷◌, ◌++◌, length,
}
use construction_erp_nestjs.Prelude.Text.{Text, text_eq}
use construction_erp_nestjs.Errors.{ErrorCode, ok, throw_if, throw_if-ok, ok_inj, >>=-eq-ok}
use construction_erp_nestjs.Decimal.{DecimalLib, Num, of_number, is_finite, greater_than}
use construction_erp_nestjs.Inventory.Draft.{
  StockJournalMode, transfer, issue, adjustment, draft, StockJournalSide, out, in_, side_rule_for,
  req, clean, assert_sides, or_validation, to_qty, StockJournalLine, NewStockJournalLine,
  line_input, create_line, NewStockJournal, StockJournal, DraftHeader, draft_header, header_line,
  draft_journal, side_line, create_draft,
}

-- The godowns that a journal of a mode has: a transfer two different ones, an issue only the one that it
-- is issued from, an adjustment at least one.
pub data HasSides : StockJournalMode → Option Text → Option Text → Type 0 where
  between : {a b : Text} → text_eq a b ≡ false → HasSides transfer (some a) (some b)
  from_only : {a : Text} → HasSides issue (some a) none
  first_side : {a : Text} → HasSides adjustment (some a) none
  second_side : {b : Text} → HasSides adjustment none (some b)
  both_sides : {a b : Text} → HasSides adjustment (some a) (some b)

assert_sides-HasSides :
    (m : StockJournalMode) (a b : Option Text) {u : Unit {0}}
    → assert_sides m a b ≡ ok u
    → HasSides m a b
unfolding assert_sides side_rule_for
assert_sides-HasSides transfer none none h = cc
assert_sides-HasSides transfer none (some b) h = cc
assert_sides-HasSides transfer (some a) none h = cc
assert_sides-HasSides transfer (some a) (some b) h =
    between (throw_if-ok (text_eq a b) ErrorCode.same_godown_transfer h)
assert_sides-HasSides issue none none h = cc
assert_sides-HasSides issue none (some b) h = cc
assert_sides-HasSides issue (some a) none h = from_only
assert_sides-HasSides issue (some a) (some b) h = cc
assert_sides-HasSides adjustment none none h = cc
assert_sides-HasSides adjustment none (some b) h = second_side
assert_sides-HasSides adjustment (some a) none h = first_side
assert_sides-HasSides adjustment (some a) (some b) h = both_sides

module _ ⦃d : DecimalLib⦄ where
  -- A line of a draft: its side and number, the trimmed godown, and the quantity and item of the header;
  -- it is not valued yet.
  pub record IsLineOf (j : StockJournal) (side : StockJournalSide) (godown : Text) (n : ℕ)
      (l : StockJournalLine) : Type 0 where
    pub number : l.line_no ≡ n
    pub on_side : l.side ≡ side
    pub at : req godown ≡ ok l.godown_id
    pub quantity : l.quantity ≡ j.quantity
    pub unvalued : (l.rate ≡ none) × (l.value ≡ none)

  -- The lines of one side: one for a godown that is there.
  pub data HasSideLines (j : StockJournal) (side : StockJournalSide) (n : ℕ)
      : Option Text → List StockJournalLine → Type 0 where
    absent : HasSideLines j side n none []
    present :
        {godown : Text} {l : StockJournalLine}
        → IsLineOf j side godown n l
        → HasSideLines j side n (some godown) (l ∷ [])

  -- A well-formed draft.
  pub record IsDraft (j : StockJournal) : Type 0 where
    pub status : j.status ≡ draft
    pub sides : HasSides j.mode j.from_godown_id j.to_godown_id
    pub positive : greater_than j.quantity (of_number 0) ≡ true
    pub finite : is_finite j.quantity ≡ true
    pub outs : List StockJournalLine
    pub ins : List StockJournalLine
    pub out_lines : HasSideLines j out 1 j.from_godown_id outs
    pub in_lines : HasSideLines j in_ (1 + length outs) j.to_godown_id ins
    pub lines : j.lines ≡ outs ++ ins
    pub unposted :
        (j.value ≡ none)
        × (j.entry_no ≡ none)
        × (j.journal_entry_id ≡ none)
        × (j.posted_at ≡ none)
        × (j.approved_by_id ≡ none)

  abbrev pub IsDraftOf : Text → Text → Text → StockJournal → Type 0
  IsDraftOf id company_id financial_year_id j =
      IsDraft j
      × (j.id ≡ id)
      × (j.company_id ≡ company_id)
      × (j.financial_year_id ≡ financial_year_id)
      × (j.version ≡ 1)

  to_qty-ok : (q : Option Num) {n : Num} → to_qty q ≡ ok n → (q ≡ some n) × (is_finite n ≡ true)
  unfolding to_qty
  to_qty-ok none h = cc
  to_qty-ok (some q) h =
      let (u, finite, made) = >>=-eq-ok (throw_if (not (is_finite q)) ErrorCode.validation) _ h in
      rw (← ok_inj made) (refl, not-false (throw_if-ok (not (is_finite q)) _ finite))

  create_line-ok :
      (input : NewStockJournalLine) (n : ℕ) {l : StockJournalLine}
      → create_line input n ≡ ok l
      → (l.line_no ≡ n)
        × (l.side ≡ input.side)
        × (req input.godown_id ≡ ok l.godown_id)
        × (input.quantity ≡ some l.quantity)
        × (l.rate ≡ none)
        × (l.value ≡ none)
  unfolding create_line
  create_line-ok input n h =
      let (q, quantity, h1) = >>=-eq-ok (to_qty input.quantity) _ h in
      let (u, positive, h2) =
        >>=-eq-ok (throw_if (not (greater_than q (of_number 0))) ErrorCode.validation) _ h1 in
      let (g, godown, h3) = >>=-eq-ok (req input.godown_id) _ h2 in
      let (i, item, h4) = >>=-eq-ok (req input.item_id) _ h3 in
      let (p, project, h5) = >>=-eq-ok (req input.project_id) _ h4 in
      let (c, cost_centre, h6) = >>=-eq-ok (req input.cost_centre_id) _ h5 in
      let (r, purpose, h7) = >>=-eq-ok (req input.purpose_id) _ h6 in
      rw (← ok_inj h7) (refl, refl, godown, (to_qty-ok input.quantity quantity).0, refl, refl)

  side_line-ok :
      (j : StockJournal) (side : StockJournalSide) (godown : Option Text) (item : Text)
      (quantity : Num) (project cost_centre purpose : Text) (n : ℕ) {ls : List StockJournalLine}
      → j.quantity ≡ quantity
      → side_line side godown item quantity project cost_centre purpose n ≡ ok ls
      → HasSideLines j side n godown ls
  unfolding side_line
  side_line-ok j side none item quantity project cost_centre purpose n same h =
      subst (HasSideLines j side n none) (ok_inj h) absent
  side_line-ok j side (some godown) item quantity project cost_centre purpose n same h =
      let input = line_input side godown item quantity project cost_centre purpose in
      let (l, made, rest) = >>=-eq-ok (create_line input n) _ h in
      let (number, on_side, at, q, rate, value) = create_line-ok input n made in
      let own : some quantity ≡ some l.quantity = q in
      let equal : quantity ≡ l.quantity = cc in
      subst (HasSideLines j side n (some godown)) (ok_inj rest) (
        present (record {
          number = number;
          on_side = on_side;
          at = at;
          quantity = sym equal ∙ sym same;
          unvalued = (rate, value);
        }))

  draft_header-ok :
      (input : NewStockJournal) {h : DraftHeader}
      → draft_header input ≡ ok h
      → HasSides h.mode (clean input.from_godown_id) (clean input.to_godown_id)
        × (greater_than h.quantity (of_number 0) ≡ true)
        × (is_finite h.quantity ≡ true)
  unfolding draft_header
  draft_header-ok input e =
      let (mode, known, h1) = >>=-eq-ok (or_validation input.mode) _ e in
      let (u, sided, h2) =
        >>=-eq-ok (assert_sides mode (clean input.from_godown_id) (clean input.to_godown_id)) _
          h1 in
      let (q, quantity, h3) = >>=-eq-ok (to_qty input.quantity) _ h2 in
      let (v, positive, h4) =
        >>=-eq-ok (throw_if (not (greater_than q (of_number 0))) ErrorCode.validation) _ h3 in
      let (p, project, h5) = >>=-eq-ok (req input.project_id) _ h4 in
      let (c, cost_centre, h6) = >>=-eq-ok (req input.cost_centre_id) _ h5 in
      let (r, purpose, h7) = >>=-eq-ok (req input.purpose_id) _ h6 in
      let (i, item, h8) = >>=-eq-ok (req input.item_id) _ h7 in
      rw (← ok_inj h8) (
        assert_sides-HasSides mode _ _ sided,
        not-false (throw_if-ok (not (greater_than q (of_number 0))) _ positive),
        (to_qty-ok input.quantity quantity).1,
      )

  -- A draft that is created is well-formed, of the given company and year and version 1: a transfer has
  -- two different godowns, an issue only the first, and an adjustment at least one (the check of an
  -- adjustment refuses only the absence of both); its quantity is a positive finite number, and it has
  -- one line for each godown, numbered from 1, the one that stock leaves first.
  pub create_draft-IsDraft :
      (id company_id financial_year_id : Text) (input : NewStockJournal) {j : StockJournal}
      → create_draft id company_id financial_year_id input ≡ ok j
      → IsDraftOf id company_id financial_year_id j
  unfolding create_draft
  create_draft-IsDraft id company_id financial_year_id input e =
      let (h, header, e1) = >>=-eq-ok (draft_header input) _ e in
      let (outs, out_made, e2) =
        >>=-eq-ok (header_line out (clean input.from_godown_id) h 1) _ e1 in
      let (ins, in_made, e3) =
        >>=-eq-ok (header_line in_ (clean input.to_godown_id) h (1 + length outs)) _ e2 in
      let (date, dated, e4) = >>=-eq-ok (req input.voucher_date) _ e3 in
      let (sides, positive, finite) = draft_header-ok input header in
      let made = draft_journal id company_id financial_year_id input h (outs ++ ins) date in
      subst (IsDraftOf id company_id financial_year_id) (ok_inj e4) (
        record {
          status = refl;
          sides = sides;
          positive = positive;
          finite = finite;
          outs = outs;
          ins = ins;
          out_lines = side_line-ok made out _ _ _ _ _ _ 1 refl out_made;
          in_lines = side_line-ok made in_ _ _ _ _ _ _ (1 + length outs) refl in_made;
          lines = refl;
          unposted = (refl, refl, refl, refl, refl);
        },
        refl,
        refl,
        refl,
        refl,
      )
