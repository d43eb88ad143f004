-- ===== src/Period/Guard.antt =====
-- What closing a period does to posting (core/period/application/period.service.ts): the guard, before
-- and after.
use construction_erp_nestjs.Prelude.{
  find-All, find-map, ℕ, ◌≡◌, ◌∙◌, sym, subst, refl, ap, some, Bool, true, false, ◌&&◌, not, List,
  [], ◌∷◌, map, find, any, if◌then◌else◌, ==_iff, All, and_true, Bool-cases, inl, inr,
}
use construction_erp_nestjs.Prelude.Text.{Text, text_eq, text_eq_iff, text_eq_refl}
use construction_erp_nestjs.Errors.{ErrorCode, domain, ok, err, ok_inj, throw_if, >>=-eq-ok}
use construction_erp_nestjs.Errors.Action.{
  throws, ◌>>=◌, after_bind, pure-eq, or_throw-ok, throws_if-ok, lift-ok,
}
use construction_erp_nestjs.Period.Aggregate.{AccountingPeriod, is_open, owns, close}
use construction_erp_nestjs.Period.Table.{
  PeriodState, find_owning, find_by_id, save, updated, is_current, in_year,
}
use construction_erp_nestjs.Period.Methods.{Actor, assert_open, read_clock, close_now, close_period}

-- The primary key: two rows with the same id are the same row.
abbrev pub HasKey : List AccountingPeriod → Type 0
HasKey rows = All (λ p. All (λ q. p.id ≡ q.id → p ≡ q) rows) rows

-- What `update` leaves alone.
updated-owns :
    (p row : AccountingPeriod) (c fy date : Text)
    → (in_year c fy (updated p row) && owns date (updated p row))
      ≡ (in_year c fy row && owns date row)
unfolding owns
updated-owns p row c fy date = elim (Bool-cases (is_current p row)) [
  | inl h ↦ rw h refl
  | inr h ↦ rw h refl
]

close-ok :
    (actor : Text) (now : ℕ) (p : AccountingPeriod) {q : AccountingPeriod}
    → close actor now p ≡ ok q
    → (q.id ≡ p.id) × (q.version ≡ p.version) × (is_open q ≡ false)
unfolding close is_open
close-ok actor now p h =
    let (u, checked, made) =
      >>=-eq-ok (throw_if (not (is_open p)) ErrorCode.period_already_closed) _ h in
    rw (← ok_inj made) (refl, refl, refl)

pub close_now-ok :
    (clock : ℕ → ℕ) (actor : Text) (p : AccountingPeriod) (s : PeriodState) {q : AccountingPeriod}
    {t : PeriodState}
    → close_now clock actor p s ≡ (ok q, t)
    → (q.id ≡ p.id) × (q.version ≡ p.version) × (is_open q ≡ false) × (t.rows ≡ s.rows)
unfolding close_now read_clock
close_now-ok clock actor p s h = after_bind _ _ s h λ u s1 checked h1.
    after_bind (read_clock clock) _ s1 h1 λ now s2 read h2.
      let made = lift-ok (close actor now p) {s = s2} h2 in
      let fields = close-ok actor now p made.0 in
      let kept = sym (ap (λ q. q.1.rows) read) in
      (
        fields.0,
        fields.1,
        fields.2,
        ap (λ x. x.rows) (sym made.1)
            ∙ kept
            ∙ ap (λ x. x.rows)
                (sym (throws_if-ok (not (is_open p)) ErrorCode.period_already_closed checked).1),
      )

-- A period that is there is updated in place.
pub save-ok :
    (p : AccountingPeriod) (s : PeriodState) {u : Unit {0}} {t : PeriodState}
    → any (λ row. text_eq row.id p.id) s.rows ≡ true
    → save p s ≡ (ok u, t)
    → t.rows ≡ map (updated p) s.rows
unfolding save ◌>>=◌
save-ok p s there h = elim (Bool-cases (any (is_current p) s.rows)) [
  | inl current ↦ ap (λ q. q.1.rows) (sym h) ∙ rw there (rw current refl)
  | inr stale ↦
      let e : save p s ≡ throws ErrorCode.optimistic_lock_conflict s = rw there (rw stale refl) in
      cc
]

close_period-ok :
    (clock : ℕ → ℕ) (id : Text) (actor : Actor) (s : PeriodState) {q : AccountingPeriod}
    {t : PeriodState}
    → close_period clock id actor s ≡ (ok q, t)
    → (p : AccountingPeriod) × (find_by_id id actor.company_id s ≡ some p)
      × (q.id ≡ p.id)
      × (q.version ≡ p.version)
      × (is_open q ≡ false)
      × ((s' : PeriodState) × (s'.rows ≡ s.rows)
          × (t' : PeriodState) × (save q s' ≡ (ok tt, t'))
          × (t.rows ≡ t'.rows))
unfolding close_period
close_period-ok clock id actor s {q} h = after_bind _ _ s h λ found s1 got h1.
    after_bind _ _ s1 h1 λ p s2 row h2. after_bind _ _ s2 h2 λ done s3 did h3.
      after_bind _ _ s3 h3 λ u s4 saved h4. after_bind _ _ s4 h4 λ v s5 noted h5.
        let start =
          ap (λ x. x.rows) (sym (or_throw-ok found ErrorCode.not_found row).1)
          ∙ ap (λ x. x.rows) (sym (pure-eq got).1) in
        let fields = close_now-ok clock actor.user_id p s2 did in
        rw (← (pure-eq h5).0) (
          p,
          ((pure-eq got).0 ∙ (or_throw-ok found ErrorCode.not_found row).0),
          fields.0,
          fields.1,
          fields.2,
          (
            s3,
            (fields.3 ∙ start),
            s4,
            saved,
            (ap (λ x. x.rows) (sym (pure-eq h5).1) ∙ ap (λ x. x.1.rows) (sym noted)),
          ),
        )

any-of-find :
    {A : Type 0} (f g : A → Bool) (xs : List A) {a : A}
    → find f xs ≡ some a
    → g a ≡ true
    → any g xs ≡ true
any-of-find f g [] e h = cc
any-of-find f g (x ∷ xs) {a} e h = elim (Bool-cases (f x)) [
  | inl t ↦
      let x_is : some x ≡ some a = sym (ap (λ b. if b then some x else find f xs) t) ∙ e in
      let x_eq : x ≡ a = cc in
      let gx : g x ≡ true = subst (λ y. g y ≡ true) (sym x_eq) h in rw gx refl
  | inr t ↦
      let later = any-of-find f g xs (sym (ap (λ b. if b then some x else find f xs) t) ∙ e) h in
      elim (Bool-cases (g x)) [ inl y ↦ rw y refl | inr n ↦ rw n later ]
]

updated-closed :
    (q p : AccountingPeriod)
    → q.id ≡ p.id
    → q.version ≡ p.version
    → is_open q ≡ false
    → is_open (updated q p) ≡ false
unfolding is_open
updated-closed q p same_id same_version shut =
    let current : is_current q p ≡ true =
      rw same_id (rw same_version (rw (text_eq_refl p.id) ((==_iff p.version p.version).1 refl))) in
    rw current shut

-- The guard refuses a date whose owning period is closed.
pub assert_open-closed :
    (c fy date : Text) (s : PeriodState) (p : AccountingPeriod)
    → find_owning c fy date s ≡ some p
    → is_open p ≡ false
    → assert_open c fy date s ≡ (err (domain ErrorCode.period_closed), s)
unfolding assert_open ◌>>=◌
assert_open-closed c fy date s p found shut = rw found (rw shut refl)

-- Once `close` of the period that owns a date has returned, the guard of posting refuses that date with
-- PERIOD_CLOSED, given that ids are keys of the rows.
pub close_blocks_posting :
    (clock : ℕ → ℕ) (fy date : Text) (actor : Actor) (s : PeriodState) (p : AccountingPeriod)
    {q : AccountingPeriod} {t : PeriodState}
    → HasKey s.rows
    → find_owning actor.company_id fy date s ≡ some p
    → close_period clock p.id actor s ≡ (ok q, t)
    → assert_open actor.company_id fy date t ≡ (err (domain ErrorCode.period_closed), t)
unfolding find_owning find_by_id
close_blocks_posting clock fy date actor s p {q} {t} key found h =
    let (p', by_id, ids, versions, shut, save) = close_period-ok clock p.id actor s h in
    let own = find-All _ _ s.rows key found in
    let hit = find-All _ _ s.rows own.0 by_id in
    let (there_id, same_company) = and_true (text_eq p'.id p.id) _ hit.1 in
    let same : p ≡ p' = hit.0 (sym ((text_eq_iff p'.id p.id).0 there_id)) in
    let same_id : q.id ≡ p.id = ids ∙ ap (λ x. x.id) (sym same) in
    let there : any (λ row. text_eq row.id q.id) s.rows ≡ true =
      any-of-find _ (λ row. text_eq row.id q.id) s.rows found (rw same_id (text_eq_refl p.id)) in
    let (s', rows', t', saved, rows_t) = save in
    let written = rows_t ∙ save-ok q s' (rw rows' there) saved ∙ ap (map (updated q)) rows' in
    assert_open-closed actor.company_id fy date t (updated q p)
      (ap (find (λ x. in_year actor.company_id fy x && owns date x)) written
        ∙ find-map _ (updated q) s.rows (λ x. updated-owns q x actor.company_id fy date) found)
      (updated-closed q p same_id (versions ∙ ap (λ x. x.version) (sym same)) shut)
