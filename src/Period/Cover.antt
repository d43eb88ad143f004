-- ===== src/Period/Cover.antt =====
-- The spans of core/period/domain/period-generation.ts divide the financial year.
use construction_erp_nestjs.Prelude.{
  ℕ, zero, suc, ◌+◌, ◌-◌, ◌*◌, ◌≤◌, ◌<◌, ◌≡◌, ◌∙◌, refl, sym, ap, some, Bool, false, ◌&&◌, List, [],
  ◌∷◌, if◌then◌else◌, ltb, leb, filter, length, Bool-cases, inl, inr, ◌⊎◌, arith, ltb→lt, leb→le,
}
use construction_erp_nestjs.Period.Span.{
  MonthlySpan, spans_from, monthly_periods, spans_from-step, spans_from-stop, monthly_periods-full,
}
use construction_erp_nestjs.Dates.{Day, day_le, days_in_month, IsDate}

abbrev pub covers : Day → MonthlySpan → Bool
covers x s = day_le s.start_date x && day_le x s.end_date

-- How many of the spans own the day.
abbrev pub owners : Day → List MonthlySpan → ℕ
owners x spans = length (filter (covers x) spans)

abbrev between : Day → Day → Day → Bool
between a b x = day_le a x && day_le x b

abbrev one_if : Bool → ℕ
one_if b = if b then 1 else 0

owners-cons :
    (x : Day) (s : MonthlySpan) (ss : List MonthlySpan)
    → owners x (s ∷ ss) ≡ one_if (covers x s) + owners x ss
owners-cons x s ss = elim (Bool-cases (covers x s)) [
  | inl h ↦ rw h (omega arith)
  | inr h ↦ rw h (omega arith)
]

abbrev month_end : ℕ → ℕ → Day
month_end y m = record { year = y; month = m; day = days_in_month y m }

days_in_month-bounds : (y m : ℕ) → (28 ≤ days_in_month y m) × (days_in_month y m ≤ 31)
unfolding days_in_month
days_in_month-bounds y m = ground arith

-- The place of a day in a calendar whose months all have 32 days.
abbrev key : Day → ℕ
key d = 384 * d.year + 32 * d.month + d.day

abbrev InRange : Day → Type 0
InRange d = (1 ≤ d.month) × (d.month ≤ 12) × (d.day ≤ 31)

day_le-key : (a b : Day) → InRange a → InRange b → day_le a b ≡ leb (key a) (key b)
day_le-key a b ha hb = ground arith

-- No day lies between the end of a month and the first of the next.
no_gap :
    (y m ny nm : ℕ) (x : Day)
    → 1 ≤ m
    → m ≤ 12
    → ny ≡ (if ltb 12 (m + 1) then y + 1 else y)
    → nm ≡ (if ltb 12 (m + 1) then 1 else m + 1)
    → IsDate x
    → (key x ≤ key (month_end y m)) ⊎ (384 * ny + 32 * nm + 1 ≤ key x)
no_gap y m ny nm x h1 h2 hny hnm hx =
    let next : 12 * ny + nm ≡ 12 * y + m + 1 = ground arith in
    let own = days_in_month-bounds x.year x.month in
    let ends = days_in_month-bounds y m in
    elim (Bool-cases (ltb (12 * x.year + x.month) (12 * y + m))) [
      | inl before ↦ inl (let lt = ltb→lt _ _ before in omega arith)
      | inr h ↦ elim (Bool-cases (ltb (12 * y + m) (12 * x.year + x.month))) [
        | inl after ↦ inr (let lt = ltb→lt _ _ after in omega arith)
        | inr same ↦
            let same_month : x.month ≡ m = ground arith in
            let same_year : x.year ≡ y = ground arith in
            inl (rw (← same_month) (rw (← same_year) (omega arith)))
      ]
    ]

split_keys :
    (a b e n x : ℕ)
    → a ≤ e
    → e < n
    → (x ≤ e) ⊎ (n ≤ x)
    → one_if (leb a x && leb x (if leb e b then e else b)) + one_if (leb n x && leb x b)
      ≡ one_if (leb a x && leb x b)
split_keys a b e n x h k (inl g) = ground arith
split_keys a b e n x h k (inr g) = ground arith

split_days :
    (a e n b x : Day)
    → day_le a x ≡ leb (key a) (key x)
    → day_le x e ≡ leb (key x) (key e)
    → day_le n x ≡ leb (key n) (key x)
    → day_le x b ≡ leb (key x) (key b)
    → day_le e b ≡ leb (key e) (key b)
    → one_if (leb (key a) (key x) && leb (key x) (if leb (key e) (key b) then key e else key b))
        + one_if (leb (key n) (key x) && leb (key x) (key b))
      ≡ one_if (leb (key a) (key x) && leb (key x) (key b))
    → one_if (between a (if day_le e b then e else b) x) + one_if (between n b x)
      ≡ one_if (between a b x)
split_days a e n b x ax xe nx xb eb keys = elim (Bool-cases (leb (key e) (key b))) [
  | inl t ↦ rw (eb ∙ t) (rw ax (rw xe (rw nx (rw xb (rw t at keys)))))
  | inr t ↦ rw (eb ∙ t) (rw ax (rw nx (rw xb (rw t at keys))))
]

no_days :
    (a x b : Day)
    → day_le a x ≡ leb (key a) (key x)
    → day_le x b ≡ leb (key x) (key b)
    → leb (key a) (key b) ≡ false
    → one_if (between a b x) ≡ 0
no_days a x b ax xb h = rw ax (rw xb (ground arith))

module _ (b x : Day) (hb : IsDate b) (hx : IsDate x) where
  abbrev in_range : (d : Day) → IsDate d → InRange d
  in_range d h =
      let days = days_in_month-bounds d.year d.month in (h.month_low, h.month_high, omega arith)

  split_month :
      (y m ny nm : ℕ) (a : Day)
      → 1 ≤ m
      → m ≤ 12
      → 1 ≤ nm
      → nm ≤ 12
      → a.year ≡ y
      → a.month ≡ m
      → a.day ≤ days_in_month y m
      → ny ≡ (if ltb 12 (m + 1) then y + 1 else y)
      → nm ≡ (if ltb 12 (m + 1) then 1 else m + 1)
      → one_if (between a (if day_le (month_end y m) b then month_end y m else b) x)
          + one_if (between (record { year = ny; month = nm; day = 1 }) b x)
        ≡ one_if (between a b x)
  split_month y m ny nm a h1 h2 n1 n2 hy hm hd hny hnm =
      let days = days_in_month-bounds y m in
      let xs = in_range x hx in
      let bs = in_range b hb in
      let starts : InRange a = (omega arith, omega arith, omega arith) in
      let es : InRange (month_end y m) = (h1, h2, omega arith) in
      let first : Day = record { year = ny; month = nm; day = 1 } in
      let fs : InRange first = (n1, n2, omega arith) in
      let next : 12 * ny + nm ≡ 12 * y + m + 1 = ground arith in
      let keys =
        split_keys (key a) (key b) (key (month_end y m)) (key first) (key x) (omega arith)
          (omega arith) (no_gap y m ny nm x h1 h2 hny hnm hx) in
      split_days a (month_end y m) first b x (day_le-key a x starts xs)
        (day_le-key x (month_end y m) xs es) (day_le-key first x fs xs) (day_le-key x b xs bs)
        (day_le-key (month_end y m) b es bs) keys

  spans-owners :
      (fuel y m : ℕ) (a : Day)
      → 100 ≤ y
      → 1 ≤ m
      → m ≤ 12
      → a.year ≡ y
      → a.month ≡ m
      → a.day ≤ days_in_month y m
      → 1 ≤ fuel
      → 12 * b.year + b.month + 2 ≤ fuel + 12 * y + m
      → (ss : List MonthlySpan) × (spans_from fuel y m a b ≡ some ss)
        × (owners x ss ≡ one_if (between a b x))
  unfolding spans_from
  spans-owners zero y m a full h1 h2 hy hm hd hf hB = ground arith
  spans-owners (suc fuel) y m a full h1 h2 hy hm hd hf hB =
      let nm = if ltb 12 (m + 1) then 1 else m + 1 in
      let ny = if ltb 12 (m + 1) then y + 1 else y in
      let n0 : 100 ≤ ny = ground arith in
      let n1 : 1 ≤ nm = ground arith in
      let n2 : nm ≤ 12 = ground arith in
      let days = days_in_month-bounds y m in
      let next_days = days_in_month-bounds ny nm in
      let next : 12 * ny + nm ≡ 12 * y + m + 1 = ground arith in
      let starts : InRange a = (omega arith, omega arith, omega arith) in
      let bs = in_range b hb in
      elim (Bool-cases (day_le a b)) [
        | inl t ↦
            let before : key a ≤ key b =
              leb→le (key a) (key b) (sym (day_le-key a b starts bs) ∙ t) in
            let (rest, made, count) =
              spans-owners fuel ny nm (record { year = ny; month = nm; day = 1 }) n0 n1 n2 refl refl
                (omega arith) (omega arith) (omega arith) in
            let span : MonthlySpan = record {
              month = m;
              year = y;
              start_date = a;
              end_date = if day_le (month_end y m) b then month_end y m else b;
            } in
            (
              span ∷ rest,
              spans_from-step fuel y m a b full t made,
              owners-cons x span rest
                  ∙ ap (λ k. one_if (covers x span) + k) count
                  ∙ split_month y m ny nm a h1 h2 n1 n2 hy hm hd refl refl,
            )
        | inr t ↦ (
          [],
          spans_from-stop fuel y m a b t,
          sym (
              no_days a x b (day_le-key a x starts (in_range x hx))
                (day_le-key x b (in_range x hx) bs) (sym (day_le-key a b starts bs) ∙ t)),
        )
      ]

-- The spans of a financial year between two real dates, from the year 100 to the year 9999, divide it:
-- the loop ends, a real date of the year lies in exactly one span, and any other real date in none.
pub spans_divide_year :
    (start end x : Day)
    → IsDate start
    → IsDate end
    → IsDate x
    → 100 ≤ start.year
    → end.year ≤ 9999
    → (ss : List MonthlySpan) × (monthly_periods start end ≡ some ss)
      × (owners x ss ≡ (if day_le start x && day_le x end then 1 else 0))
spans_divide_year start end x hs he hx full short =
    let fuel = suc (suc (12 * end.year + end.month) - (12 * start.year + start.month)) in
    let (ss, made, count) =
      spans-owners end x he hx fuel start.year start.month start full hs.month_low hs.month_high
        refl refl hs.day_high (omega arith) (omega arith) in
    (ss, monthly_periods-full start end hs full short ∙ made, count)
