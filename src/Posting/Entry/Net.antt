-- ===== src/Posting/Entry/Net.antt =====
-- The effect of entries on the accounts, in ten-thousandths, as an independent description: what an
-- entry adds to an account is its debits less its credits there.
use construction_erp_nestjs.Prelude.{
  ℕ, ◌+◌, ◌≡◌, ◌↔◌, refl, true, List, [], ◌∷◌, All, arith, if◌then◌else◌,
}
use construction_erp_nestjs.Prelude.Int.{ℤ, pos, ◌+ℤ◌, ◌-ℤ◌, ◌≤ℤ◌, int_laws, parts_eq}
use construction_erp_nestjs.Prelude.Text.{Text, text_eq}
use construction_erp_nestjs.Decimal.{DecimalLib, Exact, Fits, Num, equals}
use construction_erp_nestjs.Posting.Command.{Money, money_plus, money_zero}
use construction_erp_nestjs.Posting.Entry.{
  JournalLine, swap_lines, sum_debit, sum_credit, total_debit, total_credit,
}

module _ ⦃d : DecimalLib⦄ where
  pub swap-sum_debit :
      (s : Money) (ls : List JournalLine) (n : ℕ) → sum_debit s (swap_lines ls n) ≡ sum_credit s ls
  unfolding sum_debit sum_credit swap_lines
  swap-sum_debit s [] n = refl
  swap-sum_debit s (l ∷ ls) n = swap-sum_debit (money_plus s l.credit) ls (n + 1)

  pub swap-sum_credit :
      (s : Money) (ls : List JournalLine) (n : ℕ) → sum_credit s (swap_lines ls n) ≡ sum_debit s ls
  unfolding sum_debit sum_credit swap_lines
  swap-sum_credit s [] n = refl
  swap-sum_credit s (l ∷ ls) n = swap-sum_credit (money_plus s l.debit) ls (n + 1)

module _ ⦃d : DecimalLib⦄ (x : Exact d) where
  abbrev pub line_units : JournalLine → ℤ
  line_units l = x.units l.debit.amount -ℤ x.units l.credit.amount

  -- What the lines add to the account.
  abbrev pub net : Text → List JournalLine → ℤ
  net account [] = pos 0
  net account (l ∷ ls) =
      (if text_eq account l.account_id then line_units l else pos 0) +ℤ net account ls

  abbrev pub debit_units : List JournalLine → ℤ
  debit_units [] = pos 0
  debit_units (l ∷ ls) = x.units l.debit.amount +ℤ debit_units ls

  abbrev pub credit_units : List JournalLine → ℤ
  credit_units [] = pos 0
  credit_units (l ∷ ls) = x.units l.credit.amount +ℤ credit_units ls

  -- An amount as the columns hold it, and not negative.
  abbrev pub IsAmount : Num → Type 0
  IsAmount a = x.IsStored a × (pos 0 ≤ℤ x.units a)

  abbrev pub HasAmounts : JournalLine → Type 0
  HasAmounts l = IsAmount l.debit.amount × IsAmount l.credit.amount

  -- The lines of a reversal take from each account what the lines of the original put there, counted in
  -- the ten-thousandths of the amounts.
  pub net-swap_lines :
      (account : Text) (ls : List JournalLine) (n : ℕ)
      → net account (swap_lines ls n) +ℤ net account ls ≡ pos 0
  unfolding swap_lines
  net-swap_lines account [] n = omega int_laws
  net-swap_lines account (l ∷ ls) n = grind (int_laws, net-swap_lines account ls (n + 1))

  debit_units_nonneg : (ls : List JournalLine) → All HasAmounts ls → pos 0 ≤ℤ debit_units ls
  debit_units_nonneg [] h = omega arith
  debit_units_nonneg (l ∷ ls) h = omega (int_laws, debit_units_nonneg ls h.1)

  credit_units_nonneg : (ls : List JournalLine) → All HasAmounts ls → pos 0 ≤ℤ credit_units ls
  credit_units_nonneg [] h = omega arith
  credit_units_nonneg (l ∷ ls) h = omega (int_laws, credit_units_nonneg ls h.1)

  -- A sum of amounts that fits in the end fits at every step, so the running sum is exact.
  sum_debit_units :
      (s : Money) (ls : List JournalLine)
      → IsAmount s.amount
      → All HasAmounts ls
      → Fits (x.units s.amount +ℤ debit_units ls)
      → x.IsStored (sum_debit s ls).amount
        × (x.units (sum_debit s ls).amount ≡ x.units s.amount +ℤ debit_units ls)
  unfolding sum_debit money_plus
  sum_debit_units s [] hs h fits = (hs.0, omega int_laws)
  sum_debit_units s (l ∷ ls) hs h fits =
      let rest = debit_units_nonneg ls h.1 in
      let step : x.units (money_plus s l.debit).amount
          ≡ x.units s.amount +ℤ x.units l.debit.amount =
        x.plus_units s.amount l.debit.amount hs.0 h.0.0.0 in
      let kept =
        x.plus_stored s.amount l.debit.amount hs.0 h.0.0.0 (omega int_laws, omega int_laws) in
      let (stored, total) =
        sum_debit_units (money_plus s l.debit) ls (kept, omega (int_laws, parts_eq step)) h.1
          (omega (int_laws, parts_eq step), omega (int_laws, parts_eq step)) in
      (stored, omega (int_laws, parts_eq step, parts_eq total))

  sum_credit_units :
      (s : Money) (ls : List JournalLine)
      → IsAmount s.amount
      → All HasAmounts ls
      → Fits (x.units s.amount +ℤ credit_units ls)
      → x.IsStored (sum_credit s ls).amount
        × (x.units (sum_credit s ls).amount ≡ x.units s.amount +ℤ credit_units ls)
  unfolding sum_credit money_plus
  sum_credit_units s [] hs h fits = (hs.0, omega int_laws)
  sum_credit_units s (l ∷ ls) hs h fits =
      let rest = credit_units_nonneg ls h.1 in
      let step : x.units (money_plus s l.credit).amount
          ≡ x.units s.amount +ℤ x.units l.credit.amount =
        x.plus_units s.amount l.credit.amount hs.0 h.0.1.0 in
      let kept =
        x.plus_stored s.amount l.credit.amount hs.0 h.0.1.0 (omega int_laws, omega int_laws) in
      let (stored, total) =
        sum_credit_units (money_plus s l.credit) ls (kept, omega (int_laws, parts_eq step)) h.1
          (omega (int_laws, parts_eq step), omega (int_laws, parts_eq step)) in
      (stored, omega (int_laws, parts_eq step, parts_eq total))

  zero_amount : IsAmount money_zero.amount × (x.units money_zero.amount ≡ pos 0)
  unfolding money_zero
  zero_amount =
      let zero_units : x.units money_zero.amount ≡ pos 0 = x.of_number_units 0 (omega arith) in
      ((x.of_number_stored 0 (omega arith), rw zero_units (omega arith)), zero_units)

  -- The test of `assertBalanced` decides the equality of the exact sums, given amounts that are stored
  -- and not negative, and sums that fit the columns.
  pub total_iff :
      (ls : List JournalLine)
      → All HasAmounts ls
      → Fits (debit_units ls)
      → Fits (credit_units ls)
      → (equals (total_debit ls).amount (total_credit ls).amount ≡ true)
        ↔ (debit_units ls ≡ credit_units ls)
  unfolding total_debit total_credit
  total_iff ls h fd fc =
      let (amount, zero_units) = zero_amount in
      let z = parts_eq zero_units in
      let debits = sum_debit_units money_zero ls amount h (omega int_laws, omega int_laws) in
      let credits = sum_credit_units money_zero ls amount h (omega int_laws, omega int_laws) in
      let test = x.equals_iff _ _ debits.0 credits.0 in
      (
        (λ e. omega (int_laws, parts_eq debits.1, parts_eq credits.1, parts_eq (test.0 e))),
        (λ e. test.1 (omega (int_laws, parts_eq debits.1, parts_eq credits.1, parts_eq e))),
      )
