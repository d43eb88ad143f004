-- ===== src/Books/Store.antt =====
-- What the posting service relies on holds of the ports that core/posting/posting.module.ts binds: the
-- repository of core/posting/infrastructure/typeorm-journal-entry.repository.ts keeps and finds entries.
use construction_erp_nestjs.Prelude.{
  ℕ, ◌≡◌, ◌∙◌, sym, refl, ap, Option, none, some, Bool, true, List, [], ◌∷◌, ◌++◌, find, any,
  if◌then◌else◌, and_true, Bool-cases, inl, inr, subst,
}
use construction_erp_nestjs.Prelude.Text.{Text, text_eq, text_eq_iff, text_eq_refl}
use construction_erp_nestjs.Errors.{ok, err, query_failed, ok_inj}
use construction_erp_nestjs.Errors.Action.{>>=-Reads}
use construction_erp_nestjs.Decimal.{DecimalLib}
use construction_erp_nestjs.Posting.Entry.{JournalEntry}
use construction_erp_nestjs.Posting.Service.{ReadOnly, EntryStore}
use construction_erp_nestjs.Posting.Service.Order.{or_throw-Reads, throws_if-Reads}
use construction_erp_nestjs.Period.Table.{PeriodState}
use construction_erp_nestjs.Period.Methods.{assert_open}
use construction_erp_nestjs.Books.{
  Books, to_domain, is_row, is_reversal_row, order_by_no, find_entry, reversal_exists, insert_entry,
  books_ports,
}

-- The guard of posting only reads the periods.
assert_open-reads : (c fy date : Text) (s : PeriodState) → (assert_open c fy date s).1 ≡ s
unfolding assert_open
assert_open-reads c fy date =
    >>=-Reads _ _ (λ s. refl)
      λ found. >>=-Reads _ _ (or_throw-Reads found _) λ p. throws_if-Reads _ _

find-append :
    {A : Type 0} (f : A → Bool) (xs ys : List A) {a : A}
    → find f xs ≡ some a
    → find f (xs ++ ys) ≡ some a
find-append f [] ys e = cc
find-append f (x ∷ xs) ys {a} e = elim (Bool-cases (f x)) [
  | inl t ↦
      ap (λ b. if b then some x else find f (xs ++ ys)) t
      ∙ sym (ap (λ b. if b then some x else find f xs) t)
      ∙ e
  | inr t ↦
      ap (λ b. if b then some x else find f (xs ++ ys)) t
      ∙ find-append f xs ys (sym (ap (λ b. if b then some x else find f xs) t) ∙ e)
]

any-append :
    {A : Type 0} (f : A → Bool) (xs : List A) (a : A) → f a ≡ true → any f (xs ++ (a ∷ [])) ≡ true
any-append f [] a h = rw h refl
any-append f (x ∷ xs) a h = elim (Bool-cases (f x)) [
  | inl t ↦ rw t refl
  | inr t ↦ rw t (any-append f xs a h)
]

pub find-holds : {A : Type 0} (f : A → Bool) (xs : List A) {a : A} → find f xs ≡ some a → f a ≡ true
find-holds f [] e = cc
find-holds f (x ∷ xs) {a} e = elim (Bool-cases (f x)) [
  | inl t ↦
      let x_is : some x ≡ some a = sym (ap (λ b. if b then some x else find f xs) t) ∙ e in
      let x_eq : x ≡ a = cc in subst (λ y. f y ≡ true) x_eq t
  | inr t ↦ find-holds f xs (sym (ap (λ b. if b then some x else find f xs) t) ∙ e)
]

module _ ⦃d : DecimalLib⦄ where
  to_domain-some :
      (o : Option JournalEntry) {e : JournalEntry}
      → to_domain o ≡ some e
      → (r : JournalEntry) × (o ≡ some r) × (r.id ≡ e.id) × (r.company_id ≡ e.company_id)
  to_domain-some none h = cc
  to_domain-some (some r) {e} h =
      let same : record r { lines = order_by_no r.lines } ≡ e = cc in
      (r, refl, ap (λ x. x.id) same, ap (λ x. x.company_id) same)

  found_by_key :
      (id c : Text) (e : JournalEntry) (s : Books)
      → find_entry id c s ≡ some e
      → (e.id ≡ id) × (e.company_id ≡ c)
  unfolding find_entry
  found_by_key id c e s h =
      let (r, found, same_id, same_company) = to_domain-some (find (is_row id c) s.entries) h in
      let hit = and_true (text_eq r.id id) _ (find-holds (is_row id c) s.entries found) in
      (
        sym same_id ∙ (text_eq_iff r.id id).0 hit.0,
        sym same_company ∙ (text_eq_iff r.company_id c).0 hit.1,
      )

  insert-keeps :
      (e : JournalEntry) (id c : Text) (o : JournalEntry) (s : Books)
      → find_entry id c s ≡ some o
      → find_entry id c (insert_entry e s).1 ≡ some o
  unfolding find_entry insert_entry
  insert-keeps e id c o s h = elim (Bool-cases (any (λ r. text_eq r.id e.id) s.entries)) [
    | inl taken ↦ rw taken h
    | inr fresh ↦
        let (r, found, _, _) = to_domain-some (find (is_row id c) s.entries) h in
        rw fresh (ap to_domain (find-append (is_row id c) s.entries (e ∷ []) found ∙ sym found) ∙ h)
  ]

  insert-known :
      (e : JournalEntry) (id : Text) (s t : Books)
      → insert_entry e s ≡ (ok tt, t)
      → e.reversal_of ≡ some id
      → reversal_exists id e.company_id t ≡ true
  unfolding insert_entry reversal_exists
  insert-known e id s t h link = elim (Bool-cases (any (λ r. text_eq r.id e.id) s.entries)) [
    | inl taken ↦ let stopped : insert_entry e s ≡ (err query_failed, s) = rw taken refl in cc
    | inr fresh ↦
        let made : insert_entry e s ≡ (ok tt, record s { entries = s.entries ++ (e ∷ []) }) =
          rw fresh refl in
        subst (λ x. any (is_reversal_row id e.company_id) x ≡ true)
          (ap (λ q. q.1.entries) (sym made ∙ h))
          (any-append (is_reversal_row id e.company_id) s.entries e
            (rw link (rw (text_eq_refl id) (text_eq_refl e.company_id))))
  ]

-- The ports that the program binds are what the posting service relies on: the guards and reads write
-- nothing; entries are found by their id and company, no operation removes or changes one, and a saved
-- reversal is known from then on.
pub books_ports_keep :
    ⦃d : DecimalLib⦄ (new_id series_id : ℕ → Text) (clock touch : ℕ → ℕ)
    → ReadOnly Books (books_ports new_id series_id clock touch)
      × EntryStore (books_ports new_id series_id clock touch)
unfolding books_ports find_entry
books_ports_keep new_id series_id clock touch = (
  record {
    assert_open_reads =
        λ c fy date s i. record s { periods = assert_open-reads c fy date s.periods i };
    assert_not_closed_reads = λ c project s. refl;
    assert_references_reads = λ cmd s. refl;
    find_by_id_reads = λ id c s. refl;
    exists_reversal_of_reads = λ id c s. refl;
  },
  record {
    found_key = λ id c o s h. found_by_key id c o s (ok_inj h);
    next_keeps = λ v k fy id c o s h. h;
    next_id_keeps = λ id c o s h. h;
    now_keeps = λ id c o s h. h;
    save_keeps = λ e id c o s h. ap ok (insert-keeps e id c o s (ok_inj h));
    save_known = λ e id s t h link. ap ok (insert-known e id s t h link);
  },
)
