-- ===== src/Period/YearLock.antt =====
-- The lock of a financial year (core/period/application: close-fy.use-case.ts and
-- reopen-period.use-case.ts): the year is locked when all its periods are closed.
pub mod Closing
use construction_erp_nestjs.Prelude.{
  ℕ, suc, ◌+◌, ◌≡◌, ◌∙◌, sym, subst, refl, ap, Option, none, some, Bool, true, false, ◌&&◌, ◌||◌,
  not, List, [], ◌∷◌, ◌++◌, map, find, filter, any, every, if◌then◌else◌, ◌==◌, ==_iff, All,
  and_true, Bool-cases, inl, inr, arith, ◌↔◌,
}
use construction_erp_nestjs.Prelude.Text.{Text, text_eq, text_eq_iff, text_eq_refl, text_le}
use construction_erp_nestjs.Errors.{ErrorCode, Failure, domain, Result, ok, err}
use construction_erp_nestjs.Errors.Action.{
  Action, lift, pure, throws, gets, modify, or_throw, throws_if, ◌>>=◌, ◌>>◌, after_bind, pure-eq,
  or_throw-ok, throws_if-ok, lift-ok, for_each, for_each-Reads,
}
use construction_erp_nestjs.Period.Aggregate.{AccountingPeriod, is_open, close, reopen}
use construction_erp_nestjs.Period.Table.{
  PeriodState, AuditRecord, find_by_id, save, save_many, audit, updated, is_current, in_year,
  insert_by_start, order_by_start, list_by_fy,
}
use construction_erp_nestjs.Period.Methods.{
  Actor, CloseFyResult, close_now, close_each, close_fy, reopen_period, is_empty,
}
use construction_erp_nestjs.Period.Guard.{close_now-ok, save-ok}

-- Every period of the company's year is closed.
abbrev pub IsLocked : Text → Text → PeriodState → Type 0
IsLocked c fy s = All (λ r. in_year c fy r ≡ true → is_open r ≡ false) s.rows

All-filter :
    {A : Type 0} (P : A → Type 0) (f : A → Bool) (xs : List A)
    → All (λ x. f x ≡ true → P x) xs ↔ All P (filter f xs)
All-filter P f [] = ((λ h. tt), (λ h. tt))
All-filter P f (x ∷ xs) = elim (Bool-cases (f x)) [
  | inl t ↦ (
    (λ h. rw t (h.0 t, (All-filter P f xs).0 h.1)),
    λ h.
        let g : P x × All P (filter f xs) =
          subst (λ b. All P (if b then x ∷ filter f xs else filter f xs)) t h in
        ((λ _. g.0), (All-filter P f xs).1 g.1),
  )
  | inr t ↦ (
    (λ h. rw t ((All-filter P f xs).0 h.1)),
    λ h.
        let g : All P (filter f xs) =
          subst (λ b. All P (if b then x ∷ filter f xs else filter f xs)) t h in
        ((λ e. cc), (All-filter P f xs).1 g),
  )
]

All-map :
    {A : Type 0} (P Q : A → Type 0) (f : A → A) (xs : List A)
    → ((x : A) → P x → Q (f x))
    → All P xs
    → All Q (map f xs)
All-map P Q f [] g h = tt
All-map P Q f (x ∷ xs) g h = (g x h.0, All-map P Q f xs g h.1)

pub All-each :
    {A : Type 0} (P Q : A → Type 0) (xs : List A) → ((x : A) → P x → Q x) → All P xs → All Q xs
All-each P Q [] g h = tt
All-each P Q (x ∷ xs) g h = (g x h.0, All-each P Q xs g h.1)

All-both :
    {A : Type 0} (P Q R : A → Type 0) (xs : List A)
    → ((x : A) → P x → Q x → R x)
    → All P xs
    → All Q xs
    → All R xs
All-both P Q R [] g h k = tt
All-both P Q R (x ∷ xs) g h k = (g x h.0 k.0, All-both P Q R xs g h.1 k.1)

or_false : (a b : Bool) → (a || b) ≡ false → (a ≡ false) × (b ≡ false)
or_false true b h = cc
or_false false b h = (refl, h)

All-none : {A : Type 0} (f : A → Bool) (xs : List A) → any f xs ≡ false → All (λ x. f x ≡ false) xs
All-none f [] h = tt
All-none f (x ∷ xs) h = let (a, b) = or_false (f x) (any f xs) h in (a, All-none f xs b)

pub not_open : (b : Bool) → (b ≡ true → false ≡ true) → b ≡ false
not_open true h = sym (h refl)
not_open false h = refl

-- A period that is not there is inserted.
pub save-new :
    (p : AccountingPeriod) (s : PeriodState) {u : Unit {0}} {t : PeriodState}
    → any (λ row. text_eq row.id p.id) s.rows ≡ false
    → save p s ≡ (ok u, t)
    → t.rows ≡ s.rows ++ (p ∷ [])
unfolding save
save-new p s absent h = ap (λ q. q.1.rows) (sym h) ∙ rw absent refl

All-append : {A : Type 0} (P : A → Type 0) (xs ys : List A) → All P xs → All P ys → All P (xs ++ ys)
All-append P [] ys h g = g
All-append P (x ∷ xs) ys h g = (h.0, All-append P xs ys h.1 g)

All-insert :
    (P : AccountingPeriod → Type 0) (p : AccountingPeriod) (qs : List AccountingPeriod)
    → (P p × All P qs) ↔ All P (insert_by_start p qs)
unfolding insert_by_start
All-insert P p [] = ((λ h. h), (λ h. h))
All-insert P p (q ∷ qs) = elim (Bool-cases (text_le p.start_date q.start_date)) [
  | inl t ↦ (
    (λ h. rw t h),
    λ h. subst (λ b. All P (if b then p ∷ q ∷ qs else q ∷ insert_by_start p qs)) t h,
  )
  | inr t ↦ (
    (λ h. let tail : P q × All P qs = h.1 in rw t (tail.0, (All-insert P p qs).0 (h.0, tail.1))),
    λ h.
        let g : P q × All P (insert_by_start p qs) =
          subst (λ b. All P (if b then p ∷ q ∷ qs else q ∷ insert_by_start p qs)) t h in
        let later = (All-insert P p qs).1 g.1 in (later.0, (g.0, later.1)),
  )
]

All-order :
    (P : AccountingPeriod → Type 0) (ps : List AccountingPeriod)
    → All P ps ↔ All P (order_by_start ps)
unfolding order_by_start
All-order P [] = ((λ h. h), (λ h. h))
All-order P (p ∷ ps) =
    let ih = All-order P ps in
    let here = All-insert P p (order_by_start ps) in
    ((λ h. here.0 (h.0, ih.0 h.1)), (λ h. let g = here.1 h in (g.0, ih.1 g.1)))

-- A property of the rows of a year is one of the periods that `listByFy` returns.
pub All-list_by_fy :
    (P : AccountingPeriod → Type 0) (c fy : Text) (s : PeriodState)
    → All (λ r. in_year c fy r ≡ true → P r) s.rows ↔ All P (list_by_fy c fy s)
unfolding list_by_fy
All-list_by_fy P c fy s =
    let rows = All-filter P (in_year c fy) s.rows in
    let sorted = All-order P (filter (in_year c fy) s.rows) in
    ((λ h. sorted.0 (rows.0 h)), (λ h. rows.1 (sorted.1 h)))

-- An open row of the year that one of the periods to save stands for.
abbrev pub IsPending : Text → Text → List AccountingPeriod → AccountingPeriod → Type 0
IsPending c fy qs r = in_year c fy r ≡ true → is_open r ≡ true → any (λ q. is_current q r) qs ≡ true

updated-IsPending :
    (c fy : Text) (q : AccountingPeriod) (qs : List AccountingPeriod) (r : AccountingPeriod)
    → is_open q ≡ false
    → IsPending c fy (q ∷ qs) r
    → IsPending c fy qs (updated q r)
unfolding is_open
updated-IsPending c fy q qs r shut pending = elim (Bool-cases (is_current q r)) [
  | inl t ↦ rw t (λ year opened. cc)
  | inr t ↦ rw t (λ year opened. sym (rw t refl) ∙ pending year opened)
]

save-IsPending :
    (c fy : Text) (q : AccountingPeriod) (qs : List AccountingPeriod) (s : PeriodState)
    {u : Unit {0}} {t : PeriodState}
    → is_open q ≡ false
    → All (IsPending c fy (q ∷ qs)) s.rows
    → save q s ≡ (ok u, t)
    → All (IsPending c fy qs) t.rows
save-IsPending c fy q qs s shut pending h =
    elim (Bool-cases (any (λ row. text_eq row.id q.id) s.rows)) [
      | inl there ↦ subst (All (IsPending c fy qs)) (sym (save-ok q s there h)) (
          All-map (IsPending c fy (q ∷ qs)) (IsPending c fy qs) (updated q) s.rows
            (λ r. updated-IsPending c fy q qs r shut) pending)
      | inr absent ↦ subst (All (IsPending c fy qs)) (sym (save-new q s absent h)) (
          All-append (IsPending c fy qs) s.rows (q ∷ [])
            (All-both (IsPending c fy (q ∷ qs)) (λ r. text_eq r.id q.id ≡ false) (IsPending c fy qs)
              s.rows (λ r pend other year opened. sym (rw other refl) ∙ pend year opened) pending
              (All-none (λ r. text_eq r.id q.id) s.rows absent))
            ((λ year opened. cc), tt))
    ]

-- The saves leave no row of the year open.
pub save_many-IsLocked :
    (c fy : Text) (qs : List AccountingPeriod) (s : PeriodState) {u : Unit {0}} {t : PeriodState}
    → All (λ q. is_open q ≡ false) qs
    → All (IsPending c fy qs) s.rows
    → save_many qs s ≡ (ok u, t)
    → IsLocked c fy t
unfolding save_many
save_many-IsLocked c fy [] s shut pending h = subst (IsLocked c fy) (pure-eq h).1 (
    All-each (IsPending c fy []) (λ r. in_year c fy r ≡ true → is_open r ≡ false) s.rows
      (λ r pend year. not_open (is_open r) (pend year)) pending)
save_many-IsLocked c fy (q ∷ qs) s shut pending h = after_bind (save q) _ s h λ u s1 saved rest.
    save_many-IsLocked c fy qs s1 shut.1 (save-IsPending c fy q qs s shut.0 pending saved) rest
