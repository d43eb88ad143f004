-- ===== src/Period/YearLock/Closing.antt =====
-- Closing a financial year locks it, and a locked year refuses to reopen a period
-- (core/period/application: close-fy.use-case.ts and reopen-period.use-case.ts).
use construction_erp_nestjs.Prelude.{
  find-All, ℕ, ◌≡◌, ◌∙◌, sym, subst, refl, ap, some, Bool, true, false, ◌||◌, not, List, [], ◌∷◌,
  find, any, every, if◌then◌else◌, ==_iff, All, and_true, Bool-cases, inl, inr,
}
use construction_erp_nestjs.Prelude.Text.{Text, text_eq, text_eq_refl}
use construction_erp_nestjs.Errors.{ErrorCode, domain, Result, ok, err}
use construction_erp_nestjs.Errors.Action.{
  Action, throws_if, ◌>>=◌, after_bind, pure-eq, throws_if-ok, for_each,
}
use construction_erp_nestjs.Period.Aggregate.{AccountingPeriod, is_open}
use construction_erp_nestjs.Period.Table.{
  PeriodState, AuditRecord, find_by_id, audit, is_current, in_year, list_by_fy,
}
use construction_erp_nestjs.Period.Methods.{
  Actor, CloseFyResult, close_each, close_fy, reopen_period, is_empty,
}
use construction_erp_nestjs.Period.Guard.{close_now-ok}
use construction_erp_nestjs.Period.YearLock.{
  All-each, IsLocked, IsPending, All-list_by_fy, save_many-IsLocked,
}

or_left : (a b : Bool) → a ≡ true → (a || b) ≡ true
or_left a b h = rw h refl

or_right : (a b : Bool) → b ≡ true → (a || b) ≡ true
or_right true b h = refl
or_right false b h = h

stands_for : (q p : AccountingPeriod) → q.id ≡ p.id → q.version ≡ p.version → is_current q p ≡ true
stands_for q p same_id same_version =
    rw same_id (rw same_version (rw (text_eq_refl p.id) ((==_iff p.version p.version).1 refl)))

branch :
    {S A : Type 0} {b c : Bool} (m k : Action S A) (s : S) {r : Result A × S}
    → b ≡ c
    → (if b then m else k) s ≡ r
    → (if c then m else k) s ≡ r
branch m k s {r} e h = subst (λ b. (if b then m else k) s ≡ r) e h

list_branch :
    {b c : Bool} (q : AccountingPeriod) (rest : List AccountingPeriod × List AccountingPeriod)
    {r : List AccountingPeriod × List AccountingPeriod}
    → b ≡ c
    → (q ∷ rest.0, (if b then q ∷ rest.1 else rest.1)) ≡ r
    → (if c then q ∷ rest.1 else rest.1) ≡ r.1
list_branch q rest e h = ap (λ b. if b then q ∷ rest.1 else rest.1) (sym e) ∙ ap (λ x. x.1) h

audits-rows :
    (f : AccountingPeriod → AuditRecord) (ps : List AccountingPeriod) (s : PeriodState)
    {u : Unit {0}} {t : PeriodState}
    → for_each (λ p. audit (f p)) ps s ≡ (ok u, t)
    → t.rows ≡ s.rows
audits-rows f [] s h = ap (λ x. x.rows) (sym (pure-eq h).1)
audits-rows f (p ∷ ps) s h =
    after_bind (audit (f p)) _ s h
      λ u s1 noted rest. audits-rows f ps s1 rest ∙ ap (λ x. x.1.rows) (sym noted)

All-empty :
    (P : AccountingPeriod → Type 0) (ps : List AccountingPeriod) → is_empty ps ≡ true → All P ps
All-empty P [] h = tt
All-empty P (p ∷ ps) h = cc

module _ (clock : ℕ → ℕ) where
  -- The periods that `close_each` has closed: they are closed, and stand for the open ones.
  close_each-ok :
      (actor : Text) (ps : List AccountingPeriod) (s : PeriodState)
      {r : List AccountingPeriod × List AccountingPeriod} {t : PeriodState}
      → close_each clock actor ps s ≡ (ok r, t)
      → All (λ q. is_open q ≡ false) r.1
        × All (λ p. is_open p ≡ true → any (λ q. is_current q p) r.1 ≡ true) ps
        × (t.rows ≡ s.rows)
  unfolding close_each
  close_each-ok actor [] s h = rw (← (pure-eq h).0) (tt, tt, ap (λ x. x.rows) (sym (pure-eq h).1))
  close_each-ok actor (p ∷ ps) s {t = t} h = after_bind _ _ s h λ q s1 done h1.
      after_bind (close_each clock actor ps) _ s1 h1 λ rest s2 more h2.
        let later = close_each-ok actor ps s1 more in
        let rows = ap (λ x. x.rows) (sym (pure-eq h2).1) ∙ later.2 in
        elim (Bool-cases (is_open p)) [
          | inl opened ↦
              let f = close_now-ok clock actor p s (branch _ _ s opened done) in
              let made = list_branch q rest opened (pure-eq h2).0 in
              subst
                (λ qs.
                  All (λ q. is_open q ≡ false) qs
                  × All (λ p. is_open p ≡ true → any (λ q. is_current q p) qs ≡ true) (p ∷ ps)
                  × (t.rows ≡ s.rows))
                made
                (
                  (f.2, later.0),
                  (
                    (λ _. or_left _ _ (stands_for q p f.0 f.1)),
                    All-each _ _ ps (λ x old o. or_right _ _ (old o)) later.1,
                  ),
                  (rows ∙ f.3),
                )
          | inr shut ↦
              let made = list_branch q rest shut (pure-eq h2).0 in
              subst
                (λ qs.
                  All (λ q. is_open q ≡ false) qs
                  × All (λ p. is_open p ≡ true → any (λ q. is_current q p) qs ≡ true) (p ∷ ps)
                  × (t.rows ≡ s.rows))
                made
                (
                  later.0,
                  ((λ o. cc), later.1),
                  (rows ∙ ap (λ x. x.rows) (sym (pure-eq (branch _ _ s shut done)).1)),
                )
        ]

  -- `CloseFyUseCase` leaves the year locked.
  pub close_fy-IsLocked :
      (fy : Text) (actor : Actor) (s : PeriodState) {r : CloseFyResult} {t : PeriodState}
      → close_fy clock fy actor s ≡ (ok r, t)
      → IsLocked actor.company_id fy t
  unfolding close_fy
  close_fy-IsLocked fy actor s h = after_bind _ _ s h λ all s1 listed h1.
      after_bind (throws_if (is_empty all) ErrorCode.no_periods_for_fy) _ s1 h1
        λ u s2 some_there h2. after_bind _ _ s2 h2 λ closing s3 closed h3.
          after_bind _ _ s3 h3 λ v s4 saved h4. after_bind _ _ s4 h4 λ w s5 noted h5.
            let f = close_each-ok actor.user_id all s2 closed in
            let rows =
              f.2
              ∙ ap (λ x. x.rows)
                  (sym (throws_if-ok (is_empty all) ErrorCode.no_periods_for_fy some_there).1)
              ∙ ap (λ x. x.rows) (sym (pure-eq listed).1) in
            let pending : All (IsPending actor.company_id fy closing.1) s.rows =
              (All-list_by_fy (λ p. is_open p ≡ true → any (λ q. is_current q p) closing.1 ≡ true)
                  actor.company_id fy s).1
                (rw (pure-eq listed).0 f.1) in
            let locked =
              save_many-IsLocked actor.company_id fy closing.1 s3 f.0
                (subst (All (IsPending actor.company_id fy closing.1)) (sym rows) pending) saved in
            subst (IsLocked actor.company_id fy) (pure-eq h5).1 (
              subst
                (λ rows. All (λ r. in_year actor.company_id fy r ≡ true → is_open r ≡ false) rows)
                (sym (audits-rows _ closing.1 s4 noted)) locked)

listed_not_empty :
    (c fy : Text) (s : PeriodState) (p : AccountingPeriod) (f : AccountingPeriod → Bool)
    → find f s.rows ≡ some p
    → in_year c fy p ≡ true
    → is_empty (list_by_fy c fy s) ≡ false
listed_not_empty c fy s p f found year = elim (Bool-cases (is_empty (list_by_fy c fy s))) [
  | inl none_there ↦
      none_there
      ∙ sym (
          (find-All (λ r. in_year c fy r ≡ true → false ≡ true) f s.rows
              ((All-list_by_fy (λ r. false ≡ true) c fy s).1
                (All-empty (λ r. false ≡ true) (list_by_fy c fy s) none_there))
              found).0
            year)
  | inr some_there ↦ some_there
]

every_closed :
    (ps : List AccountingPeriod)
    → All (λ p. is_open p ≡ false) ps
    → every (λ p. not (is_open p)) ps ≡ true
every_closed [] h = refl
every_closed (p ∷ ps) h = rw h.0 (every_closed ps h.1)

locked_year_refuses :
    (id fy : Text) (actor : Actor) (s : PeriodState) (p : AccountingPeriod)
    → IsLocked actor.company_id fy s
    → find_by_id id actor.company_id s ≡ some p
    → p.financial_year_id ≡ fy
    → reopen_period id actor s ≡ (err (domain ErrorCode.period_fy_locked), s)
unfolding reopen_period find_by_id ◌>>=◌
locked_year_refuses id fy actor s p locked found year =
    let hit =
      find-All (λ r. in_year actor.company_id fy r ≡ true → is_open r ≡ false) _ s.rows locked
        found in
    let (own_id, own_company) =
      and_true (text_eq p.id id) (text_eq p.company_id actor.company_id) hit.1 in
    let there =
      listed_not_empty actor.company_id p.financial_year_id s p _ found
        (rw own_company (text_eq_refl p.financial_year_id)) in
    let shut = every_closed _ (
      (All-list_by_fy (λ r. is_open r ≡ false) actor.company_id p.financial_year_id s).0
        (subst (λ x. IsLocked actor.company_id x s) (sym year) locked)) in
    rw found (rw there (rw shut refl))

-- Once a financial year has been closed, no period of it can be reopened: every attempt of a user of the
-- company is refused with PERIOD_FY_LOCKED and changes nothing.
pub closed_year_refuses_reopen :
    (clock : ℕ → ℕ) (fy id : Text) (actor other : Actor) (s : PeriodState) (p : AccountingPeriod)
    {r : CloseFyResult} {t : PeriodState}
    → close_fy clock fy actor s ≡ (ok r, t)
    → other.company_id ≡ actor.company_id
    → find_by_id id other.company_id t ≡ some p
    → p.financial_year_id ≡ fy
    → reopen_period id other t ≡ (err (domain ErrorCode.period_fy_locked), t)
closed_year_refuses_reopen clock fy id actor other s p {t} h company found year =
    locked_year_refuses id fy other t p
      (subst (λ c. IsLocked c fy t) (sym company) (close_fy-IsLocked clock fy actor s h)) found year
