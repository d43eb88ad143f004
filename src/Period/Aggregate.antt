-- ===== src/Period/Aggregate.antt =====
-- The aggregate of core/period/domain/accounting-period.ts and its two transitions.
use construction_erp_nestjs.Prelude.{
  ℕ, ◌≡◌, refl, sym, Option, ◌⊎◌, inl, inr, none, some, Bool, true, false, ◌&&◌, not,
}
use construction_erp_nestjs.Prelude.Text.{Text, text_le}
use construction_erp_nestjs.Errors.{ErrorCode, Result, ok, throw, throw_if, ◌>>◌}

pub data PeriodStatus : Type 0 where
  open_ closed : PeriodStatus

-- The dates are the texts YYYY-MM-DD of `DateOnly.value`.
pub record AccountingPeriod : Type 0 where
  pub id : Text
  pub company_id : Text
  pub financial_year_id : Text
  pub name : Text
  pub start_date : Text
  pub end_date : Text
  pub status : PeriodStatus
  pub closed_at : Option ℕ
  pub closed_by : Option Text
  pub version : ℕ

unfoldable pub create : Text → Text → Text → Text → Text → Text → AccountingPeriod
create id company_id financial_year_id name start_date end_date = record {
  id = id;
  company_id = company_id;
  financial_year_id = financial_year_id;
  name = name;
  start_date = start_date;
  end_date = end_date;
  status = open_;
  closed_at = none;
  closed_by = none;
  version = 1;
}

unfoldable pub is_open : AccountingPeriod → Bool
is_open p = elim p.status [ open_ ↦ true | closed ↦ false ]

-- `close(actorId, clock)` where the clock reads `now`.
unfoldable pub close : Text → ℕ → AccountingPeriod → Result AccountingPeriod
unfolding is_open
close actor now p = do
  throw_if (not (is_open p)) ErrorCode.period_already_closed
  ok (record p { status = closed; closed_at = some now; closed_by = some actor })

unfoldable pub reopen : AccountingPeriod → Result AccountingPeriod
unfolding is_open
reopen p = do
  throw_if (is_open p) ErrorCode.period_already_open
  ok (record p { status = open_; closed_at = none; closed_by = none })

-- `owns(date)`: both ends belong to the period.
unfoldable pub owns : Text → AccountingPeriod → Bool
owns date p = text_le p.start_date date && text_le date p.end_date

-- A period carries the stamp of its closing exactly while it is closed.
pub data IsStamped : PeriodStatus → Option ℕ → Option Text → Type 0 where
  unstamped : IsStamped open_ none none
  stamped : {now : ℕ} {actor : Text} → IsStamped closed (some now) (some actor)

abbrev pub HasStamp : AccountingPeriod → Type 0
HasStamp p = IsStamped p.status p.closed_at p.closed_by

stamp_cases :
    {s : PeriodStatus} {a : Option ℕ} {b : Option Text}
    → IsStamped s a b
    → ((s ≡ open_) × (a ≡ none) × (b ≡ none))
      ⊎ ((s ≡ closed) × ((now : ℕ) × (actor : Text) × (a ≡ some now) × (b ≡ some actor)))
stamp_cases unstamped = inl (refl, refl, refl)
stamp_cases (stamped {now} {actor}) = inr (refl, (now, actor, refl, refl))

-- `close` and `reopen` are inverse to each other, on periods that are stamped exactly while they are
-- closed. An open period is closed with the stamp of who closed it when, the closed one is refused to
-- be closed again, and it reopens as the period that it was. A closed period reopens, the open one is
-- refused to be reopened again, and closing it by the same user at the same time gives it back.
pub close-reopen :
    (actor : Text) (now : ℕ) (p : AccountingPeriod)
    → HasStamp p
    → ((is_open p ≡ true)
        × (reopen p ≡ throw ErrorCode.period_already_open)
        × ((q : AccountingPeriod) × (close actor now p ≡ ok q)
            × (is_open q ≡ false)
            × (q.closed_at ≡ some now)
            × (q.closed_by ≡ some actor)
            × HasStamp q
            × (close actor now q ≡ throw ErrorCode.period_already_closed)
            × (reopen q ≡ ok p)))
      ⊎ ((is_open p ≡ false)
          × (close actor now p ≡ throw ErrorCode.period_already_closed)
          × ((q : AccountingPeriod) × (closer : Text) × (at : ℕ) × (reopen p ≡ ok q)
              × (is_open q ≡ true)
              × HasStamp q
              × (reopen q ≡ throw ErrorCode.period_already_open)
              × (close closer at q ≡ ok p)))
unfolding close reopen is_open
close-reopen actor now p h = elim (stamp_cases h) [
  | inl (e, f, g) ↦ inl (
    (rw e refl),
    (rw e refl),
    (
      record p { status = closed; closed_at = some now; closed_by = some actor },
      (rw e refl),
      refl,
      refl,
      refl,
      stamped,
      refl,
      (λ i. ok (record p { status = sym e i; closed_at = sym f i; closed_by = sym g i })),
    ),
  )
  | inr (e, stamp) ↦
      let (at, closer, f, g) = stamp in
      inr (
        (rw e refl),
        (rw e refl),
        (
          record p { status = open_; closed_at = none; closed_by = none },
          closer,
          at,
          (rw e refl),
          refl,
          unstamped,
          refl,
          (λ i. ok (record p { status = sym e i; closed_at = sym f i; closed_by = sym g i })),
        ),
      )
]
