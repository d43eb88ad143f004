-- ===== src/Posting/Entry/Invariant.antt =====
-- What an entry that passed the checks of core/posting/domain/journal-entry.ts satisfies.
use construction_erp_nestjs.Prelude.{
  ℕ, ◌+◌, ◌≤◌, ◌≡◌, ◌≢◌, ◌↔◌, refl, true, false, List, [], ◌∷◌, length, arith,
}
use construction_erp_nestjs.Errors.{ok, >>=-eq-ok, ok_inj}
use construction_erp_nestjs.Decimal.{DecimalLib, is_negative, is_zero, equals}
use construction_erp_nestjs.Posting.Command.{NewLine, Money}
use construction_erp_nestjs.Posting.Entry.{
  JournalLine, create_line, create_lines, total_debit, total_credit, assert_min_lines,
  assert_balanced, checked_lines,
}

module _ ⦃d : DecimalLib⦄ where
  -- Exactly one side is zero, and neither is negative.
  abbrev pub IsOneSided : Money → Money → Type 0
  IsOneSided debit credit =
      (is_negative debit.amount ≡ false)
      × (is_negative credit.amount ≡ false)
      × (is_zero debit.amount ≢ is_zero credit.amount)

  -- The line `n` of an entry, made of the requested line `l`.
  pub record IsLineOf (l : NewLine) (n : ℕ) (j : JournalLine) : Type 0 where
    pub number : j.line_no ≡ n
    pub account : j.account_id ≡ l.account_id
    pub project : j.project_id ≡ l.project_id
    pub cost_centre : j.cost_centre_id ≡ l.cost_centre_id
    pub purpose : j.purpose_id ≡ l.purpose_id
    pub godown : j.godown_id ≡ l.godown_id
    pub party : j.party_id ≡ l.party_id
    pub left : j.debit ≡ l.debit
    pub right : j.credit ≡ l.credit
    pub text : j.narration ≡ l.narration
    pub one_sided : IsOneSided l.debit l.credit

  abbrev pub Lines : List NewLine → ℕ → List JournalLine → Type 0
  Lines [] n [] = Unit {0}
  Lines [] n (j ∷ js) = ⊥
  Lines (l ∷ ls) n [] = ⊥
  Lines (l ∷ ls) n (j ∷ js) = IsLineOf l n j × Lines ls (n + 1) js

  -- The entry's lines are the requested ones, numbered from 1, each on one side; there are two at
  -- least, and the totals of the two sides are equal.
  pub record IsWellFormed (ls : List NewLine) (js : List JournalLine) : Type 0 where
    pub built : Lines ls 1 js
    pub two : 2 ≤ length js
    pub balanced : equals (total_debit js).amount (total_credit js).amount ≡ true

  create_line-IsLineOf :
      (l : NewLine) (n : ℕ) (j : JournalLine) → create_line l n ≡ ok j → IsLineOf l n j
  unfolding create_line
  create_line-IsLineOf l n j h = ground arith

  IsLineOf-create_line :
      (l : NewLine) (n : ℕ) (j : JournalLine) → IsLineOf l n j → create_line l n ≡ ok j
  unfolding create_line
  IsLineOf-create_line l n j h = ground arith

  pub create_lines-Lines :
      (ls : List NewLine) (n : ℕ) (js : List JournalLine)
      → create_lines ls n ≡ ok js
      → Lines ls n js
  unfolding create_lines
  create_lines-Lines [] n [] h = tt
  create_lines-Lines [] n (j ∷ js) h = cc
  create_lines-Lines (l ∷ ls) n js h =
      let (j, first, h1) = >>=-eq-ok (create_line l n) _ h in
      let (rest, more, h2) = >>=-eq-ok (create_lines ls (n + 1)) _ h1 in
      rw (← ok_inj h2) (create_line-IsLineOf l n j first, create_lines-Lines ls (n + 1) rest more)

  Lines-create_lines :
      (ls : List NewLine) (n : ℕ) (js : List JournalLine)
      → Lines ls n js
      → create_lines ls n ≡ ok js
  unfolding create_lines
  Lines-create_lines [] n [] h = refl
  Lines-create_lines [] n (j ∷ js) h = absurd h
  Lines-create_lines (l ∷ ls) n [] h = absurd h
  Lines-create_lines (l ∷ ls) n (j ∷ js) h =
      rw (IsLineOf-create_line l n j h.0, Lines-create_lines ls (n + 1) js h.1)

  checked_lines-IsWellFormed :
      (ls : List NewLine) (js : List JournalLine) → checked_lines ls ≡ ok js → IsWellFormed ls js
  unfolding checked_lines assert_min_lines assert_balanced
  checked_lines-IsWellFormed ls js h =
      let (built, made, rest) = >>=-eq-ok (create_lines ls 1) _ h in
      let same_lines : built ≡ js = ground arith in
      record {
        built = create_lines-Lines ls 1 js (rw (← same_lines) made);
        two = ground arith;
        balanced = ground arith;
      }

  IsWellFormed-checked_lines :
      (ls : List NewLine) (js : List JournalLine) → IsWellFormed ls js → checked_lines ls ≡ ok js
  unfolding checked_lines assert_min_lines assert_balanced
  IsWellFormed-checked_lines ls js w =
      rw (Lines-create_lines ls 1 js w.built) (ground (arith, w.two, w.balanced))

  -- The checks pass exactly on what makes a well-formed entry, and they return its lines.
  pub checked_lines_iff :
      (ls : List NewLine) (js : List JournalLine) → (checked_lines ls ≡ ok js) ↔ IsWellFormed ls js
  checked_lines_iff ls js = (checked_lines-IsWellFormed ls js, IsWellFormed-checked_lines ls js)
