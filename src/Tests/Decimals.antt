-- ===== src/Tests/Decimals.antt =====
-- Decimals as counts of ten-thousandths: an instance of the parameter that meets its hypotheses.
use construction_erp_nestjs.Prelude.{
  not, ℕ, ◌+◌, ◌*◌, ◌/◌, ◌≡◌, ◌↔◌, refl, true, false, arith, if◌then◌else◌, ==_iff,
}
use construction_erp_nestjs.Prelude.Int.{
  ℤ, pos, pos_part, neg_part, sub_ℕ, ◌+ℤ◌, ◌-ℤ◌, ◌≤ℤ◌, ◌<ℤ◌, ltb_ℤ, eqb_ℤ, eq_of_parts, parts_eq,
}
use construction_erp_nestjs.Decimal.{DecimalLib, Exact, Fits}

abbrev magnitude : ℤ → ℕ
magnitude a = pos_part a + neg_part a

-- `m` with the sign of a product of `a` and `b`.
abbrev signed : ℤ → ℤ → ℕ → ℤ
signed a b m =
    if eqb_ℤ a (pos 0)
    then pos 0
    else if ltb_ℤ a (pos 0)
    then sub_ℕ 0 (if ltb_ℤ b (pos 0) then 0 else m)
    else sub_ℕ (if ltb_ℤ b (pos 0) then 0 else m) 0

instance abbrev pub fixed_point : DecimalLib
fixed_point = record {
  Num = ℤ;
  of_number = λ n. pos (n * 10000);
  plus = ◌+ℤ◌;
  minus = ◌-ℤ◌;
  times = λ a b. signed a b (magnitude a * magnitude b / 10000);
  divided_by = λ a b. signed a b (magnitude a * 10000 / magnitude b);
  negated = λ a. pos 0 -ℤ a;
  to_decimal_places = λ places a. a;
  is_zero = λ a. eqb_ℤ a (pos 0);
  is_negative = λ a. ltb_ℤ a (pos 0);
  is_finite = λ a. true;
  greater_than = λ a b. ltb_ℤ b a;
  less_than = λ a b. ltb_ℤ a b;
  less_than_or_equal_to = λ a b. not (ltb_ℤ b a);
  greater_than_or_equal_to = λ a b. not (ltb_ℤ a b);
  equals = λ a b. eqb_ℤ a b;
}

pub ltb_ℤ_iff : (a b : ℤ) → (ltb_ℤ a b ≡ true) ↔ (a <ℤ b)
ltb_ℤ_iff a b = ground arith

pub eqb_ℤ_iff : (a b : ℤ) → (eqb_ℤ a b ≡ true) ↔ (a ≡ b)
eqb_ℤ_iff a b = ((λ h. eq_of_parts a b ((==_iff _ _).0 h)), (λ h. (==_iff _ _).1 (parts_eq h)))

pub eqb_ℤ_comm : (a b : ℤ) → eqb_ℤ a b ≡ eqb_ℤ b a
eqb_ℤ_comm a b = ground arith

pub nonneg_of_false : (a : ℤ) → ltb_ℤ a (pos 0) ≡ false → pos 0 ≤ℤ a
nonneg_of_false a e = ground arith

pub false_of_positive : (a : ℤ) → pos 0 <ℤ a → ltb_ℤ a (pos 0) ≡ false
false_of_positive a p = ground arith

abbrev pub fixed_point_exact : Exact fixed_point
fixed_point_exact = record {
  units = λ a. a;
  IsStored = Fits;
  stored_fits = λ a h. h;
  of_number_units = λ n h. refl;
  of_number_stored = λ n h. (omega arith, omega arith);
  plus_units = λ a b h k. refl;
  plus_stored = λ a b h k f. f;
  minus_units = λ a b h k. refl;
  minus_stored = λ a b h k f. f;
  round_stored = λ a f. f;
  round_units = λ a h. refl;
  is_zero_iff = λ a h. eqb_ℤ_iff a (pos 0);
  is_negative_false = λ a h e. nonneg_of_false a e;
  is_negative_pos = λ a h p. false_of_positive a p;
  greater_than_iff = λ a b h k. ltb_ℤ_iff b a;
  less_than_iff = λ a b h k. ltb_ℤ_iff a b;
  equals_comm = eqb_ℤ_comm;
  equals_iff = λ a b h k. eqb_ℤ_iff a b;
}
