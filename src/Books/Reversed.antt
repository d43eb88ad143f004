-- ===== src/Books/Reversed.antt =====
-- A reversal in the books (core/posting/application/posting.service.ts over
-- core/posting/infrastructure/typeorm-journal-entry.repository.ts).
use construction_erp_nestjs.Prelude.{
  ℕ, ◌≡◌, ◌∙◌, refl, sym, ap, subst, some, true, ◌++◌, [], ◌∷◌, find, any, and_true, Bool-cases,
  inl, inr,
}
use construction_erp_nestjs.Prelude.Text.{Text, text_eq, text_eq_refl}
use construction_erp_nestjs.Errors.{ErrorCode, domain, query_failed, ok, err}
use construction_erp_nestjs.Decimal.{DecimalLib}
use construction_erp_nestjs.Posting.Entry.{JournalEntry}
use construction_erp_nestjs.Posting.Service.{Ports, reverse}
use construction_erp_nestjs.Posting.Service.Reversal.{reverse-IsReversalOf}
use construction_erp_nestjs.Posting.Service.Refusal.{reverse_refuses_reversal}
use construction_erp_nestjs.Period.Generate.Rows.{find-skip}
use construction_erp_nestjs.Books.{
  Books, order_by_no, to_domain, is_row, find_entry, insert_entry, books_ports,
}
use construction_erp_nestjs.Books.Store.{books_ports_keep}

module _ ⦃d : DecimalLib⦄ where
  -- An entry that was inserted is found, with its lines in order.
  inserted-found :
      (e : JournalEntry) (s t : Books)
      → insert_entry e s ≡ (ok tt, t)
      → find_entry e.id e.company_id t ≡ some (record e { lines = order_by_no e.lines })
  unfolding insert_entry find_entry
  inserted-found e s t h = elim (Bool-cases (any (λ r. text_eq r.id e.id) s.entries)) [
    | inl taken ↦ let stopped : insert_entry e s ≡ (err query_failed, s) = rw taken refl in cc
    | inr fresh ↦
        let made : insert_entry e s ≡ (ok tt, record s { entries = s.entries ++ (e ∷ []) }) =
          rw fresh refl in
        let own : is_row e.id e.company_id e ≡ true =
          rw (text_eq_refl e.id) (text_eq_refl e.company_id) in
        let skipped =
          find-skip (is_row e.id e.company_id) (λ r. text_eq r.id e.id) s.entries (e ∷ [])
            (λ r hit. (and_true (text_eq r.id e.id) _ hit).0) fresh in
        let last : find (is_row e.id e.company_id) (e ∷ []) ≡ some e = rw own refl in
        subst
          (λ x.
            to_domain (find (is_row e.id e.company_id) x)
            ≡ some (record e { lines = order_by_no e.lines }))
          (ap (λ q. q.1.entries) (sym made ∙ h)) (ap to_domain (skipped ∙ last))
  ]

  -- A reversal that was written is final: reversing it in turn, from the state that it left, is refused
  -- with CANNOT_REVERSE_REVERSAL and writes nothing.
  pub reversal_stays :
      (new_id series_id : ℕ → Text) (clock touch : ℕ → ℕ) (id c reason by reason2 by2 : Text)
      (s : Books) {e : JournalEntry} {t : Books}
      → reverse (books_ports new_id series_id clock touch) id c reason by s ≡ (ok e, t)
      → reverse (books_ports new_id series_id clock touch) e.id c reason2 by2 t
        ≡ (err (domain ErrorCode.cannot_reverse_reversal), t)
  unfolding books_ports
  reversal_stays new_id series_id clock touch id c reason by reason2 by2 s {e} {t} h =
      let p : Ports Books = books_ports new_id series_id clock touch in
      let (r, k) = books_ports_keep new_id series_id clock touch in
      let (o, found, normal, mirrors, kept, drawn, written) =
        reverse-IsReversalOf p r k id c reason by s h in
      let company : e.company_id ≡ c = mirrors.company ∙ (k.found_key id c o s found).1 in
      let again =
        subst (λ x. find_entry e.id x t ≡ some (record e { lines = order_by_no e.lines })) company
          (inserted-found e written.0 t written.1) in
      reverse_refuses_reversal p r e.id c reason2 by2 t (record e { lines = order_by_no e.lines })
        (ap ok again) mirrors.marked
