-- ===== src/Dates/Order.antt =====
-- The order of dates by their texts (common/value-objects/date-only.ts compares the texts).
use construction_erp_nestjs.Prelude.{
  ℕ, ◌/◌, ◌%◌, ◌≡◌, Bool, ◌&&◌, ◌||◌, [], ◌∷◌, ltb, leb, ◌==◌, arith,
}
use construction_erp_nestjs.Prelude.Text.{Text, text_le}
use construction_erp_nestjs.Dates.{Day, day_le, two_digits, iso}

two_digits-le :
    (x y : ℕ) (s t : Text)
    → text_le (two_digits x s) (two_digits y t) ≡ (ltb x y || (x == y && text_le s t))
unfolding text_le
two_digits-le x y s t = ground arith

last-le : (x y : ℕ) → text_le (two_digits x []) (two_digits y []) ≡ leb x y
unfolding text_le
last-le x y = ground arith

cons-le : (c : ℕ) (s t : Text) → text_le (c ∷ s) (c ∷ t) ≡ text_le s t
unfolding text_le
cons-le c s t = ground arith

lexical :
    (y z : ℕ) (r : Bool)
    → (ltb (y / 100) (z / 100)
        || (y / 100 == z / 100 && (ltb (y % 100) (z % 100) || (y % 100 == z % 100 && r))))
      ≡ (ltb y z || (y == z && r))
lexical y z r = ground arith

-- The texts of two dates are ordered as the dates are.
pub iso_le : (a b : Day) → text_le (iso a) (iso b) ≡ day_le a b
iso_le a b = rw (two_digits-le (a.year / 100) (b.year / 100) _ _) (
    rw (two_digits-le (a.year % 100) (b.year % 100) _ _) (
      rw
        (cons-le 45 (two_digits a.month (45 ∷ two_digits a.day []))
          (two_digits b.month (45 ∷ two_digits b.day [])))
        (rw (two_digits-le a.month b.month _ _) (
          rw (cons-le 45 (two_digits a.day []) (two_digits b.day []))
            (rw (last-le a.day b.day) (lexical a.year b.year _))))))
