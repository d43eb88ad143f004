-- ===== src/Posting/Service/Refusal.antt =====
-- What `reverse` of core/posting/application/posting.service.ts refuses: a reversal, and a second
-- reversal of one entry.
use construction_erp_nestjs.Prelude.{◌≡◌, ◌∙◌, refl, ap, subst, some, true, false}
use construction_erp_nestjs.Errors.{ErrorCode, Failure, domain, ok, err}
use construction_erp_nestjs.Errors.Action.{
  Action, Reads, pure, throws, throws_if, ◌>>=◌, >>=-eq-next, >>=-eq-err,
}
use construction_erp_nestjs.Decimal.{DecimalLib}
use construction_erp_nestjs.Prelude.Text.{Text}
use construction_erp_nestjs.Posting.Entry.{JournalEntry}
use construction_erp_nestjs.Posting.Service.{
  Ports, ReadOnly, EntryStore, Finds, reversible, reverse,
}
use construction_erp_nestjs.Posting.Service.Order.{throws_if-Reads}
use construction_erp_nestjs.Posting.Service.Reversal.{reverse-IsReversalOf}

-- A method that begins with a read goes on in the same state.
after_read :
    {S A B : Type 0} (m : Action S A) (f : A → Action S B) (s : S) (a : A)
    → Reads m
    → (m s).0 ≡ ok a
    → (m >>= f) s ≡ f a s
after_read m f s a reads h = >>=-eq-next m f s a h ∙ ap (f a) (reads s)

after_throw :
    {S A B : Type 0} (m : Action S A) (f : A → Action S B) (s : S) (e : Failure)
    → Reads m
    → (m s).0 ≡ err e
    → (m >>= f) s ≡ (err e, s)
after_throw m f s e reads h = >>=-eq-err m f s e h ∙ ap (λ t. (err e, t)) (reads s)

module _ ⦃d : DecimalLib⦄ {S : Type 0} (p : Ports S) (r : ReadOnly S p) where
  refused :
      (id c : Text) (e : Failure) (reason by : Text) (s : S)
      → reversible p id c s ≡ (err e, s)
      → reverse p id c reason by s ≡ (err e, s)
  unfolding reverse
  refused id c e reason by s h =
      >>=-eq-err (reversible p id c) _ s e (ap (λ q. q.0) h) ∙ ap (λ q. (err e, q.1)) h

  -- With guards that write nothing, an entry that is itself a reversal is refused with
  -- CANNOT_REVERSE_REVERSAL, and nothing is written.
  pub reverse_refuses_reversal :
      (id c reason by : Text) (s : S) (o : JournalEntry)
      → Finds p id c o s
      → o.is_reversal ≡ true
      → reverse p id c reason by s ≡ (err (domain ErrorCode.cannot_reverse_reversal), s)
  unfolding reversible
  reverse_refuses_reversal id c reason by s o found h = refused id c _ reason by s (
      after_read _ _ s (some o) (r.find_by_id_reads id c) found
      ∙ after_read (pure o) _ s o (λ _. refl) refl
      ∙ after_throw (throws_if o.is_reversal _) _ s _ (throws_if-Reads o.is_reversal _) (rw h refl))

  -- An entry of which a saved reversal is known is refused with ALREADY_REVERSED.
  reverse_refuses_reversed :
      (id c reason by : Text) (s : S) (o : JournalEntry)
      → Finds p id c o s
      → o.is_reversal ≡ false
      → (p.exists_reversal_of id c s).0 ≡ ok true
      → reverse p id c reason by s ≡ (err (domain ErrorCode.already_reversed), s)
  unfolding reversible
  reverse_refuses_reversed id c reason by s o found h known = refused id c _ reason by s (
      after_read _ _ s (some o) (r.find_by_id_reads id c) found
      ∙ after_read (pure o) _ s o (λ _. refl) refl
      ∙ after_read (throws_if o.is_reversal _) _ s tt (throws_if-Reads o.is_reversal _) (rw h refl)
      ∙ after_read _ _ s true (r.exists_reversal_of_reads id c) known
      ∙ after_throw (throws ErrorCode.already_reversed) _ s _ (λ _. refl) refl)

  -- An entry is reversed at most once: after a reversal that returned, a second one from the state it
  -- left is refused with ALREADY_REVERSED and writes nothing, given guards that write nothing and a
  -- store that finds entries by their key, keeps them, and knows a saved reversal.
  pub reverse_once :
      (k : EntryStore p) (id c reason by reason2 by2 : Text) (s : S) {e : JournalEntry} {t : S}
      → reverse p id c reason by s ≡ (ok e, t)
      → reverse p id c reason2 by2 t ≡ (err (domain ErrorCode.already_reversed), t)
  reverse_once k id c reason by reason2 by2 s {e} {t} h =
      let (o, found, normal, mirror, kept, drawn, save) =
        reverse-IsReversalOf p r k id c reason by s h in
      let key = k.found_key id c o s found in
      let known = k.save_known e o.id save.0 t save.1 mirror.linked in
      reverse_refuses_reversed id c reason2 by2 t o kept normal (
        subst (λ x. (p.exists_reversal_of x c t).0 ≡ ok true) key.0
          (subst (λ x. (p.exists_reversal_of o.id x t).0 ≡ ok true) (mirror.company ∙ key.1) known))
