-- ===== src/Decimal.antt =====
-- The decimal numbers of the package decimal.js, which the program computes money and quantities
-- with. The package is not part of the repository: its type and operations are the fields of
-- `DecimalLib`, an instance argument of all that uses them, and what the program relies on is
-- `Exact`, the documented behaviour on values that fit the columns numeric(18,4).
use construction_erp_nestjs.Prelude.{ℕ, ◌+◌, ◌*◌, ◌^◌, ◌<◌, ◌≡◌, ◌↔◌, Bool, true, false}
use construction_erp_nestjs.Prelude.Int.{ℤ, pos, pos_part, neg_part, ◌+ℤ◌, ◌-ℤ◌, ◌≤ℤ◌, ◌<ℤ◌}

pub record DecimalLib : Type 1 where
  pub Num : Type 0
  -- `new Decimal(n)` for an integer `n`.
  pub of_number : ℕ → Num
  pub plus : Num → Num → Num
  pub minus : Num → Num → Num
  pub times : Num → Num → Num
  pub divided_by : Num → Num → Num
  pub negated : Num → Num
  -- `d.toDecimalPlaces(places, Decimal.ROUND_HALF_UP)`.
  pub to_decimal_places : ℕ → Num → Num
  pub is_zero : Num → Bool
  pub is_negative : Num → Bool
  pub is_finite : Num → Bool
  pub greater_than : Num → Num → Bool
  pub less_than : Num → Num → Bool
  pub less_than_or_equal_to : Num → Num → Bool
  pub greater_than_or_equal_to : Num → Num → Bool
  pub equals : Num → Num → Bool

abbrev pub Num : ⦃d : DecimalLib⦄ → Type 0
Num ⦃d⦄ = d.Num

module _ ⦃d : DecimalLib⦄ where
  abbrev pub of_number : ℕ → Num
  of_number = d.of_number

  abbrev pub plus : Num → Num → Num
  plus = d.plus

  abbrev pub minus : Num → Num → Num
  minus = d.minus

  abbrev pub times : Num → Num → Num
  times = d.times

  abbrev pub divided_by : Num → Num → Num
  divided_by = d.divided_by

  abbrev pub negated : Num → Num
  negated = d.negated

  abbrev pub to_decimal_places : ℕ → Num → Num
  to_decimal_places = d.to_decimal_places

  abbrev pub is_zero : Num → Bool
  is_zero = d.is_zero

  abbrev pub is_negative : Num → Bool
  is_negative = d.is_negative

  abbrev pub is_finite : Num → Bool
  is_finite = d.is_finite

  abbrev pub greater_than : Num → Num → Bool
  greater_than = d.greater_than

  abbrev pub less_than : Num → Num → Bool
  less_than = d.less_than

  abbrev pub less_than_or_equal_to : Num → Num → Bool
  less_than_or_equal_to = d.less_than_or_equal_to

  abbrev pub greater_than_or_equal_to : Num → Num → Bool
  greater_than_or_equal_to = d.greater_than_or_equal_to

  abbrev pub equals : Num → Num → Bool
  equals = d.equals

-- A count of ten-thousandths that the columns numeric(18,4) hold.
abbrev pub Fits : ℤ → Type 0
Fits z = (pos_part z < 10 ^ 18 + neg_part z) × (neg_part z < 10 ^ 18 + pos_part z)

-- `units` is the value in ten-thousandths, rounded down, and `IsStored` says of a number that it has
-- at most four decimals and fits a column. Sums and differences of two such numbers have at most
-- twenty significant digits, the default precision, so they are exact.
pub record Exact (d : DecimalLib) : Type 1 where
  pub units : d.Num → ℤ
  pub IsStored : d.Num → Type 0
  pub stored_fits : (a : d.Num) → IsStored a → Fits (units a)
  pub of_number_units : (n : ℕ) → n < 10 ^ 14 → (units (d.of_number n) ≡ pos (n * 10000))
  pub of_number_stored : (n : ℕ) → n < 10 ^ 14 → IsStored (d.of_number n)
  pub plus_units : (a b : d.Num) → IsStored a → IsStored b → units (d.plus a b) ≡ units a +ℤ units b
  pub plus_stored :
      (a b : d.Num) → IsStored a → IsStored b → Fits (units a +ℤ units b) → IsStored (d.plus a b)
  pub minus_units :
      (a b : d.Num) → IsStored a → IsStored b → units (d.minus a b) ≡ units a -ℤ units b
  pub minus_stored :
      (a b : d.Num) → IsStored a → IsStored b → Fits (units a -ℤ units b) → IsStored (d.minus a b)
  -- Rounding to four places makes a stored number of one in range, and changes no stored number.
  pub round_stored :
      (a : d.Num) → Fits (units (d.to_decimal_places 4 a)) → IsStored (d.to_decimal_places 4 a)
  pub round_units : (a : d.Num) → IsStored a → units (d.to_decimal_places 4 a) ≡ units a
  pub is_zero_iff : (a : d.Num) → IsStored a → (d.is_zero a ≡ true) ↔ (units a ≡ pos 0)
  -- The sign of a zero may be negative, so `isNegative` decides the order only away from zero.
  pub is_negative_false : (a : d.Num) → IsStored a → d.is_negative a ≡ false → pos 0 ≤ℤ units a
  pub is_negative_pos : (a : d.Num) → IsStored a → pos 0 <ℤ units a → d.is_negative a ≡ false
  pub greater_than_iff :
      (a b : d.Num) → IsStored a → IsStored b → (d.greater_than a b ≡ true) ↔ (units b <ℤ units a)
  pub less_than_iff :
      (a b : d.Num) → IsStored a → IsStored b → (d.less_than a b ≡ true) ↔ (units a <ℤ units b)
  -- `equals` compares values.
  pub equals_comm : (a b : d.Num) → d.equals a b ≡ d.equals b a
  pub equals_iff :
      (a b : d.Num) → IsStored a → IsStored b → (d.equals a b ≡ true) ↔ (units a ≡ units b)
