-- ===== src/Dates/Exact.antt =====
-- Which texts `DateOnly.of` (common/value-objects/date-only.ts) accepts.
use construction_erp_nestjs.Prelude.{
  ℕ, zero, suc, ◌+◌, ◌-◌, ◌*◌, ◌/◌, ◌%◌, ◌≤◌, ◌<◌, ◌≡◌, ◌↔◌, ◌∙◌, sym, ap, refl, Bool, true, false,
  ◌&&◌, not, List, [], ◌∷◌, map, ltb, leb, leb→le, ◌==◌, arith, inl, inr, Bool-cases, and_true,
  not-false,
}
use construction_erp_nestjs.Prelude.Text.{Text, trim, trim_start, is_space}
use construction_erp_nestjs.Errors.{ok, ok_inj, throw_if, throw_if-ok, >>=-eq-ok}
use construction_erp_nestjs.Dates.{
  Day, IsDate, days_in_month, month_after, month_before, carry_days, utc_year, utc_month, last_day,
  utc, is_digit, matches, iso_date, prepend, split, parse_from, parse_int, same_day, exists_day, of,
  two_digits, iso,
}

pub days-range : (y m : ℕ) → (28 ≤ days_in_month y m) × (days_in_month y m ≤ 31)
unfolding days_in_month
days-range y m = ground arith

abbrev months : Day → ℕ
months d = 12 * d.year + d.month

after-range :
    (d : Day)
    → 1 ≤ d.month
    → d.month ≤ 12
    → (1 ≤ (month_after d).month)
      × ((month_after d).month ≤ 12)
      × (12 * (month_after d).year + (month_after d).month ≡ suc (months d))
after-range d low high = elim (Bool-cases (leb 12 d.month)) [
  | inl t ↦ rw t (ground arith)
  | inr t ↦ rw t (ground arith)
]

-- Carrying days never goes back.
carry-range :
    (fuel : ℕ) (d : Day)
    → 1 ≤ d.month
    → d.month ≤ 12
    → (1 ≤ (carry_days fuel d).month)
      × ((carry_days fuel d).month ≤ 12)
      × (months d ≤ months (carry_days fuel d))
unfolding carry_days
carry-range zero d low high = (low, high, omega arith)
carry-range (suc fuel) d low high = elim (Bool-cases (leb d.day (days_in_month d.year d.month))) [
  | inl t ↦ rw t (low, high, omega arith)
  | inr t ↦
      let (l, h, k) = after-range d low high in
      let rest =
        carry-range fuel (record (month_after d) { day = d.day - days_in_month d.year d.month }) l
          h in
      rw t (rest.0, rest.1, omega (arith, k, rest.2))
]

-- A day beyond the end of its month goes to a later month.
carry-later :
    (fuel : ℕ) (d : Day)
    → 1 ≤ d.month
    → d.month ≤ 12
    → leb d.day (days_in_month d.year d.month) ≡ false
    → months d < months (carry_days (suc fuel) d)
unfolding carry_days
carry-later fuel d low high beyond =
    let (l, h, k) = after-range d low high in
    let rest =
      carry-range fuel (record (month_after d) { day = d.day - days_in_month d.year d.month }) l
        h in
    rw beyond (omega (arith, k, rest.2))

carry-stays :
    (fuel : ℕ) (d : Day)
    → leb d.day (days_in_month d.year d.month) ≡ true
    → carry_days (suc fuel) d ≡ d
unfolding carry_days
carry-stays fuel d inside = rw inside refl

same_day_fields :
    (t : Day) (y m d : ℕ) → same_day t y m d ≡ true → (t.year ≡ y) × (t.month ≡ m) × (t.day ≡ d)
same_day_fields t y m d h = ground arith

utc_month-range :
    (y m d : ℕ)
    → 100 ≤ y
    → (1 ≤ (utc_month y m d).month)
      × ((utc_month y m d).month ≤ 12)
      × (months (utc_month y m d) ≡ 12 * y + m)
      × ((utc_month y m d).day ≡ d)
utc_month-range y m d h = elim (Bool-cases (m == 0)) [
  | inl t ↦ rw t (omega arith, omega arith, ground arith, refl)
  | inr t ↦ rw t (omega arith, omega arith, ground arith, refl)
]

utc_month-real :
    (y m d : ℕ) → 1 ≤ m → m ≤ 12 → utc_month y m d ≡ record { year = y; month = m; day = d }
utc_month-real y m d low high =
    let year : y + (m - 1) / 12 ≡ y = omega arith in
    let month : suc ((m - 1) % 12) ≡ m = omega arith in
    let there : (m == 0) ≡ false = ground arith in
    rw there (λ i. record { year = year i; month = month i; day = d })

pub utc-real :
    (y m d : ℕ)
    → 100 ≤ y
    → IsDate (record { year = y; month = m; day = d })
    → utc y m d ≡ record { year = y; month = m; day = d }
unfolding utc carry_days
utc-real y m d h real =
    let full : ltb y 100 ≡ false = ground arith in
    let low = real.month_low in
    let high = real.month_high in
    let from = real.day_low in
    let to = real.day_high in
    let day : (d == 0) ≡ false = ground arith in
    let inside : leb d (days_in_month y m) ≡ true = ground arith in
    rw day (rw full (rw (utc_month-real y m d low high) (rw inside refl)))

positive : (d : ℕ) → (d == 0) ≡ false → 1 ≤ d
positive d h = ground arith

full_year : (y : ℕ) → utc_year y ≡ y → 100 ≤ y
full_year y h = ground arith

utc-only :
    (y m d : ℕ)
    → same_day (utc y m d) y m d ≡ true
    → (100 ≤ y) × IsDate (record { year = y; month = m; day = d })
unfolding utc
utc-only y m d same =
    let full : 100 ≤ utc_year y = ground arith in
    let (low, high, count, day_is) = utc_month-range (utc_year y) m d full in
    let first = utc_month (utc_year y) m d in
    let (years, ms, days) = same_day_fields (utc y m d) y m d same in
    let grows : y ≤ utc_year y = ground arith in
    elim (Bool-cases (d == 0)) [
      | inl t ↦
          let before = month_before first in
          let e : utc y m d ≡ last_day before = rw t refl in
          let size = days-range before.year before.month in
          let day : days_in_month before.year before.month ≡ d = sym (ap (λ x. x.day) e) ∙ days in
          let d0 : d ≡ 0 = ground arith in let absurd : 28 ≤ 0 = omega arith in omega arith
      | inr t ↦
          let e : utc y m d ≡ carry_days 4 first = rw t refl in
          elim (Bool-cases (leb first.day (days_in_month first.year first.month))) [
            | inl inside ↦
                let stays = e ∙ carry-stays 3 first inside in
                let year : first.year ≡ y = sym (ap (λ x. x.year) stays) ∙ years in
                let month : first.month ≡ m = sym (ap (λ x. x.month) stays) ∙ ms in
                let size : days_in_month first.year first.month ≡ days_in_month y m =
                  λ i. days_in_month (year i) (month i) in
                (
                  full_year y (omega arith),
                  record {
                    month_low = omega arith;
                    month_high = omega arith;
                    day_low = positive d t;
                    day_high = let fits = leb→le first.day _ inside in omega arith;
                  },
                )
            | inr beyond ↦
                let later = carry-later 3 first low high beyond in
                let year : (carry_days 4 first).year ≡ y = sym (ap (λ x. x.year) e) ∙ years in
                let month : (carry_days 4 first).month ≡ m = sym (ap (λ x. x.month) e) ∙ ms in
                omega arith
          ]
    ]

matches-cons :
    (p : ℕ → Bool) (ps : List (ℕ → Bool)) (s : Text)
    → matches (p ∷ ps) s ≡ true
    → (c : ℕ) × (t : Text) × (s ≡ c ∷ t) × (p c ≡ true) × (matches ps t ≡ true)
unfolding matches
matches-cons p ps [] h = cc
matches-cons p ps (c ∷ s) h = let (hit, rest) = and_true (p c) _ h in (c, s, refl, hit, rest)

matches-end : (s : Text) → matches [] s ≡ true → s ≡ []
unfolding matches
matches-end [] h = refl
matches-end (c ∷ s) h = cc

matches-two_digits :
    (ps : List (ℕ → Bool)) (s : Text)
    → matches (is_digit ∷ is_digit ∷ ps) s ≡ true
    → (n : ℕ) × (t : Text) × (n ≤ 99) × (s ≡ two_digits n t) × (matches ps t ≡ true)
matches-two_digits ps s h =
    let (a, t, s_is, a_digit, more) = matches-cons _ _ s h in
    let (b, u, t_is, b_digit, rest) = matches-cons _ _ t more in
    let low : (48 ≤ a) × (a ≤ 57) × (48 ≤ b) × (b ≤ 57) = ground arith in
    let n = 10 * (a - 48) + (b - 48) in
    let tens : a ≡ 48 + n / 10 = omega arith in
    let ones : b ≡ 48 + n % 10 = omega arith in
    (n, u, omega arith, s_is ∙ (λ i. tens i ∷ t_is i) ∙ (λ i. (48 + n / 10) ∷ ones i ∷ u), rest)

two_digits-matches :
    (n : ℕ) (ps : List (ℕ → Bool)) (s : Text)
    → n ≤ 99
    → matches (is_digit ∷ is_digit ∷ ps) (two_digits n s) ≡ matches ps s
unfolding matches
two_digits-matches n ps s h = ground arith

-- The texts of the form are the texts of days with numbers of that many digits.
matches-iso :
    (s : Text)
    → matches iso_date s ≡ true
    → (d : Day) × (s ≡ iso d) × (d.year ≤ 9999) × (d.month ≤ 99) × (d.day ≤ 99)
matches-iso s h =
    let (a, s1, a_high, is1, h1) = matches-two_digits _ s h in
    let (b, s2, b_high, is2, h2) = matches-two_digits _ s1 h1 in
    let (c, s3, is3, c_dash, h3) = matches-cons _ _ s2 h2 in
    let (m, s4, m_high, is4, h4) = matches-two_digits _ s3 h3 in
    let (e, s5, is5, e_dash, h5) = matches-cons _ _ s4 h4 in
    let (d, s6, d_high, is6, h6) = matches-two_digits _ s5 h5 in
    let year = 100 * a + b in
    let high : a ≡ year / 100 = omega arith in
    let low : b ≡ year % 100 = omega arith in
    let dash1 : c ≡ 45 = ground arith in
    let dash2 : e ≡ 45 = ground arith in
    (
      record { year = year; month = m; day = d },
      is1
          ∙ ap (two_digits a) is2
          ∙ ap (λ t. two_digits a (two_digits b t)) (is3 ∙ (λ i. dash1 i ∷ is4 i))
          ∙ ap (λ t. two_digits a (two_digits b (45 ∷ two_digits m t)))
              (is5 ∙ (λ i. dash2 i ∷ (is6 ∙ ap (two_digits d) (matches-end s6 h6)) i))
          ∙ (λ i.
              two_digits (high i) (two_digits (low i) (45 ∷ two_digits m (45 ∷ two_digits d [])))),
      omega arith,
      m_high,
      d_high,
    )

abbrev month_day : List (ℕ → Bool)
month_day = (◌==◌ 45) ∷ is_digit ∷ is_digit ∷ (◌==◌ 45) ∷ is_digit ∷ is_digit ∷ []

abbrev after_month : Day → Text
after_month d = 45 ∷ two_digits d.day []

abbrev after_year : Day → Text
after_year d = 45 ∷ two_digits d.month (after_month d)

iso-matches :
    (d : Day) → d.year ≤ 9999 → d.month ≤ 99 → d.day ≤ 99 → matches iso_date (iso d) ≡ true
unfolding matches
iso-matches d y m n =
    two_digits-matches (d.year / 100) (is_digit ∷ is_digit ∷ month_day)
      (two_digits (d.year % 100) (after_year d)) (omega arith)
    ∙ two_digits-matches (d.year % 100) month_day (after_year d) (omega arith)
    ∙ two_digits-matches d.month ((◌==◌ 45) ∷ is_digit ∷ is_digit ∷ []) (after_month d) m
    ∙ two_digits-matches d.day [] [] n

two_digits-split :
    (n : ℕ) (s : Text)
    → n ≤ 99
    → split 45 (two_digits n s) ≡ prepend (48 + n / 10) (prepend (48 + n % 10) (split 45 s))
unfolding split
two_digits-split n s h =
    let tens : (48 + n / 10 == 45) ≡ false = ground arith in
    let ones : (48 + n % 10 == 45) ≡ false = ground arith in rw tens (rw ones refl)

two_digits-parse : (k n : ℕ) (s : Text) → parse_from k (two_digits n s) ≡ parse_from (100 * k + n) s
unfolding parse_from
two_digits-parse k n s =
    let sum : 10 * (10 * k + (48 + n / 10 - 48)) + (48 + n % 10 - 48) ≡ 100 * k + n = omega arith in
    ap (λ m. parse_from m s) sum

-- The numbers of the text of a day are those of the day.
iso-numbers :
    (d : Day)
    → d.year ≤ 9999
    → d.month ≤ 99
    → d.day ≤ 99
    → map parse_int (split 45 (iso d)) ≡ d.year ∷ d.month ∷ d.day ∷ []
unfolding split parse_int
iso-numbers d y m n =
    let days = two_digits-split d.day [] n in
    let months = two_digits-split d.month (after_month d) m in
    let years = two_digits-split (d.year % 100) (after_year d) (omega arith) in
    let centuries =
      two_digits-split (d.year / 100) (two_digits (d.year % 100) (after_year d)) (omega arith) in
    let year : 100 * (100 * 0 + d.year / 100) + d.year % 100 ≡ d.year = omega arith in
    let unit : 100 * 0 + d.month ≡ d.month = omega arith in
    let unit2 : 100 * 0 + d.day ≡ d.day = omega arith in
    rw centuries (
      rw years (
        rw months (
          rw days (λ i.
            (two_digits-parse 0 (d.year / 100) (two_digits (d.year % 100) [])
                ∙ two_digits-parse (100 * 0 + d.year / 100) (d.year % 100) []
                ∙ year)
              i
            ∷ (two_digits-parse 0 d.month [] ∙ unit) i
            ∷ (two_digits-parse 0 d.day [] ∙ unit2) i
            ∷ []))))

real-iso :
    (d : Day)
    → IsDate d
    → 100 ≤ d.year
    → d.year ≤ 9999
    → (matches iso_date (iso d) ≡ true) × (exists_day (map parse_int (split 45 (iso d))) ≡ true)
real-iso d real full y =
    let high = real.month_high in
    let fits = real.day_high in
    let size = days-range d.year d.month in
    let same : (d.year == d.year && (d.month == d.month && d.day == d.day)) ≡ true = ground arith in
    let month : d.month ≤ 99 = omega arith in
    let day : d.day ≤ 99 = omega arith in
    (
      iso-matches d y month day,
      ap exists_day (iso-numbers d y month day)
          ∙ ap (λ t. same_day t d.year d.month d.day) (utc-real d.year d.month d.day full real)
          ∙ same,
    )

-- `DateOnly.of` returns exactly the trimmed text, and only for the text YYYY-MM-DD of a real date of a
-- year from 100 to 9999: the years below 100 are refused, as `Date.UTC` takes them for others.
pub of_iff :
    (raw t : Text)
    → (of raw ≡ ok t)
      ↔ ((d : Day) × IsDate d × (100 ≤ d.year) × (d.year ≤ 9999) × (trim raw ≡ iso d) × (t ≡ iso d))
unfolding of
of_iff raw t = (
  (λ h.
      let (_, formed, h1) = >>=-eq-ok (throw_if (not (matches iso_date (trim raw))) _) _ h in
      let (_, there, h2) =
        >>=-eq-ok (throw_if (not (exists_day (map parse_int (split 45 (trim raw))))) _) _ h1 in
      let (d, text, y, m, n) = matches-iso (trim raw) (not-false (throw_if-ok _ _ formed)) in
      let found = not-false (throw_if-ok _ _ there) in
      let numbers = ap (λ s. map parse_int (split 45 s)) text ∙ iso-numbers d y m n in
      let (full, real) = utc-only d.year d.month d.day (sym (ap exists_day numbers) ∙ found) in
      (d, real, full, y, text, sym (ok_inj h2) ∙ text)),
  (λ (d, real, full, y, text, is).
      let (formed, there) = real-iso d real full y in
      rw text (rw formed (rw there (λ i. ok (sym is i))))),
)

digit-not-space : (n : ℕ) → n ≤ 9 → is_space (48 + n) ≡ false
digit-not-space n h = ground arith

trim-iso : (d : Day) → d.year ≤ 9999 → d.day ≤ 99 → trim (iso d) ≡ iso d
unfolding trim trim_start
trim-iso d y n =
    rw (digit-not-space (d.year / 100 / 10) (omega arith))
      (rw (digit-not-space (d.day % 10) (omega arith)) refl)

-- The text of a real date is accepted as it is.
pub of-iso : (d : Day) → IsDate d → 100 ≤ d.year → d.year ≤ 9999 → of (iso d) ≡ ok (iso d)
of-iso d real full y =
    let fits = real.day_high in
    let size = days-range d.year d.month in
    (of_iff (iso d) (iso d)).1 (d, real, full, y, trim-iso d y (omega arith), refl)
