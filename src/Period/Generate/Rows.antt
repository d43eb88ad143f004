-- ===== src/Period/Generate/Rows.antt =====
-- The rows that core/period/application/generate-periods.use-case.ts writes, and what the guard of
-- posting finds among them.
use construction_erp_nestjs.Prelude.{
  ℕ, suc, ◌≤◌, ◌≡◌, ◌∙◌, refl, sym, ap, none, some, Bool, true, false, ◌&&◌, ◌||◌, List, [], ◌∷◌,
  ◌++◌, find, any, Bool-cases, inl, inr, ◌⊎◌, arith,
}
use construction_erp_nestjs.Prelude.Text.{Text, text_eq, text_eq_refl}
use construction_erp_nestjs.Errors.{ok}
use construction_erp_nestjs.Errors.Action.{for_each, >>=-eq-next}
use construction_erp_nestjs.Dates.{Day, iso}
use construction_erp_nestjs.Dates.Order.{iso_le}
use construction_erp_nestjs.Period.Aggregate.{AccountingPeriod, create, is_open, owns}
use construction_erp_nestjs.Period.Table.{PeriodState, in_year, save, save_many}
use construction_erp_nestjs.Period.Span.{MonthlySpan}
use construction_erp_nestjs.Period.Cover.{covers, owners}
use construction_erp_nestjs.Period.Generate.Spans.{period_of, periods_of}

append_assoc : {A : Type 0} (xs ys zs : List A) → (xs ++ ys) ++ zs ≡ xs ++ (ys ++ zs)
append_assoc [] ys zs = refl
append_assoc (x ∷ xs) ys zs = ap (λ r. x ∷ r) (append_assoc xs ys zs)

append_nil : {A : Type 0} (xs : List A) → xs ++ [] ≡ xs
append_nil [] = refl
append_nil (x ∷ xs) = ap (λ r. x ∷ r) (append_nil xs)

any-last :
    {A : Type 0} (f : A → Bool) (xs : List A) (a : A)
    → any f xs ≡ false
    → f a ≡ false
    → any f (xs ++ (a ∷ [])) ≡ false
any-last f [] a h g = rw g refl
any-last f (x ∷ xs) a h g = elim (Bool-cases (f x)) [
  | inl t ↦ let stop : true ≡ false = sym (ap (λ b. b || any f xs) t) ∙ h in cc
  | inr t ↦ rw t (any-last f xs a (sym (ap (λ b. b || any f xs) t) ∙ h) g)
]

save-appends :
    (p : AccountingPeriod) (s : PeriodState)
    → any (λ row. text_eq row.id p.id) s.rows ≡ false
    → save p s ≡ (ok tt, record s { rows = s.rows ++ (p ∷ []) })
unfolding save
save-appends p s absent = rw absent refl

module _ (new_id : ℕ → Text)
    (apart : (n m : ℕ) → text_eq (new_id n) (new_id m) ≡ true → n ≡ m) where
  ids_apart : (n k : ℕ) → suc n ≤ k → text_eq (new_id n) (new_id k) ≡ false
  ids_apart n k h = elim (Bool-cases (text_eq (new_id n) (new_id k))) [
    | inl same ↦ let e = apart n k same in ground arith
    | inr other ↦ other
  ]

  -- Periods with fresh ids are added at the end of the table.
  pub save_many-appends :
      (c fy : Text) (n : ℕ) (ss : List MonthlySpan) (s : PeriodState)
      → ((k : ℕ) → n ≤ k → any (λ row. text_eq row.id (new_id k)) s.rows ≡ false)
      → save_many (periods_of new_id c fy n ss) s
        ≡ (ok tt, record s { rows = s.rows ++ periods_of new_id c fy n ss })
  unfolding save_many create
  save_many-appends c fy n [] s fresh = λ i. (ok tt, record s { rows = sym (append_nil s.rows) i })
  save_many-appends c fy n (x ∷ ss) s fresh =
      let p = period_of new_id c fy n x in
      let t : PeriodState = record s { rows = s.rows ++ (p ∷ []) } in
      let saved = save-appends p s (fresh n (omega arith)) in
      >>=-eq-next (save p) (λ _. for_each save (periods_of new_id c fy (suc n) ss)) s tt
        (ap (λ q. q.0) saved)
      ∙ ap (λ q. for_each save (periods_of new_id c fy (suc n) ss) q.1) saved
      ∙ save_many-appends c fy (suc n) ss t
          (λ k h. any-last _ s.rows p (fresh k (omega arith)) (ids_apart n k h))
      ∙ (λ i. (
        ok tt,
        record s { rows = append_assoc s.rows (p ∷ []) (periods_of new_id c fy (suc n) ss) i },
      ))

pub find-skip :
    {A : Type 0} (f g : A → Bool) (xs ys : List A)
    → ((x : A) → f x ≡ true → g x ≡ true)
    → any g xs ≡ false
    → find f (xs ++ ys) ≡ find f ys
find-skip f g [] ys imp h = refl
find-skip f g (x ∷ xs) ys imp h = elim (Bool-cases (g x)) [
  | inl t ↦ let stop : any g (x ∷ xs) ≡ true = rw t refl in cc
  | inr t ↦
      let later = find-skip f g xs ys imp (sym (ap (λ b. b || any g xs) t) ∙ h) in
      elim (Bool-cases (f x)) [ inl u ↦ let stop = imp x u in cc | inr u ↦ rw u later ]
]

-- The guard's test of a generated period is whether its span covers the day.
period_of-owns :
    (new_id : ℕ → Text) (c fy : Text) (n : ℕ) (x : Day) (s : MonthlySpan)
    → (in_year c fy (period_of new_id c fy n s) && owns (iso x) (period_of new_id c fy n s))
      ≡ covers x s
unfolding owns create
period_of-owns new_id c fy n x s =
    rw (text_eq_refl c)
      (rw (text_eq_refl fy) (rw (iso_le s.start_date x) (rw (iso_le x s.end_date) refl)))

-- The guard finds an open period for a day that a span covers, and none for any other.
pub periods_of-found :
    (new_id : ℕ → Text) (c fy : Text) (n : ℕ) (x : Day) (ss : List MonthlySpan)
    → ((find (λ p. in_year c fy p && owns (iso x) p) (periods_of new_id c fy n ss) ≡ none)
        × (owners x ss ≡ 0))
      ⊎ ((p : AccountingPeriod) × (find
              (λ p. in_year c fy p && owns (iso x) p)
              (periods_of new_id c fy n ss)
            ≡ some p)
          × (is_open p ≡ true)
          × (1 ≤ owners x ss))
unfolding is_open create
periods_of-found new_id c fy n x [] = inl (refl, refl)
periods_of-found new_id c fy n x (s ∷ ss) = elim (Bool-cases (covers x s)) [
  | inl t ↦ inr (
    period_of new_id c fy n s,
    rw (period_of-owns new_id c fy n x s) (rw t refl),
    refl,
    rw t (omega arith),
  )
  | inr t ↦
      let test = period_of-owns new_id c fy n x s ∙ t in
      elim (periods_of-found new_id c fy (suc n) x ss) [
        | inl (nothing, count) ↦ inl (rw test nothing, rw t count)
        | inr (p, found, opened, count) ↦ inr (p, rw test found, opened, rw t count)
      ]
]
