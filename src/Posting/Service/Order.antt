-- ===== src/Posting/Service/Order.antt =====
-- The order of the steps of core/posting/application/posting.service.ts: every check comes before
-- the number and the write, and a command that passed the checks makes an entry.
use construction_erp_nestjs.Prelude.{
  ◌≡◌, ◌∙◌, refl, ap, inl, inr, ◌⊎◌, Option, none, some, Bool, true, false, false, List, map, All,
}
use construction_erp_nestjs.Errors.{
  ErrorCode, Failure, ok, err, Result-cases, >>=-eq-ok as ok_of_bind,
}
use construction_erp_nestjs.Errors.Action.{
  Reads, or_throw, throws_if, >>=-eq-ok, >>=-eq-err, >>=-eq-next, >>=-Reads, for_each-Reads,
  with_state,
}
use construction_erp_nestjs.Decimal.{DecimalLib}
use construction_erp_nestjs.Posting.Command.{PostingCommand}
use construction_erp_nestjs.Posting.Tags.Complete.{IsTagged, assert_tags_iff}
use construction_erp_nestjs.Posting.Entry.{JournalLine, checked_lines, assert_postable}
use construction_erp_nestjs.Posting.Entry.Invariant.{IsWellFormed, checked_lines_iff}
use construction_erp_nestjs.Posting.Service.{Ports, ReadOnly, validate, write_entry, post}

pub or_throw-Reads : {S A : Type 0} (o : Option A) (c : ErrorCode) → Reads {S = S} (or_throw o c)
or_throw-Reads none c s = refl
or_throw-Reads (some a) c s = refl

pub throws_if-Reads : {S : Type 0} (b : Bool) (c : ErrorCode) → Reads {S = S} (throws_if b c)
throws_if-Reads true c s = refl
throws_if-Reads false c s = refl

module _ ⦃d : DecimalLib⦄ {S : Type 0} (p : Ports S) (r : ReadOnly S p) where
  pub validate-Reads : (cmd : PostingCommand) → Reads (validate p cmd)
  unfolding validate
  validate-Reads cmd = >>=-Reads _ _ (r.assert_open_reads _ _ _) λ _.
      >>=-Reads _ _ (for_each-Reads _ _ (r.assert_not_closed_reads _)) λ _.
        >>=-Reads _ _ (λ s. refl) λ _. >>=-Reads _ _ (r.assert_references_reads cmd) λ _. λ s. refl

  -- With guards that write nothing, a command that fails a check fails there, and leaves the state as
  -- it was: it consumes no number and writes no entry. One that passes all checks goes on from that
  -- same state.
  pub post_rejects_or_writes :
      (cmd : PostingCommand) (s : S)
      → ((e : Failure) × ((validate p cmd s).0 ≡ err e) × (post p cmd s ≡ (err e, s)))
        ⊎ (((validate p cmd s).0 ≡ ok tt) × (post p cmd s ≡ write_entry p cmd s))
  unfolding post
  post_rejects_or_writes cmd s = elim (Result-cases (validate p cmd s).0) [
    | inl (u, passed) ↦ inr (
      passed,
      >>=-eq-next (validate p cmd) _ s u passed ∙ ap (write_entry p cmd) (validate-Reads cmd s),
    )
    | inr (e, failed) ↦ inl (
      e,
      failed,
      >>=-eq-err (validate p cmd) _ s e failed ∙ ap (λ t. (err e, t)) (validate-Reads cmd s),
    )
  ]

  -- With guards that write nothing, a command that passes the checks is complete for the tag matrix and makes an entry: the checks that
  -- the entry repeats after the number is drawn cannot fail, so no number is lost to them.
  pub validated_makes_entry :
      (cmd : PostingCommand) (s : S)
      → (validate p cmd s).0 ≡ ok tt
      → All (IsTagged cmd.voucher_type) cmd.lines
        × ((js : List JournalLine) × (checked_lines (map (λ l. l.line) cmd.lines) ≡ ok js)
            × IsWellFormed (map (λ l. l.line) cmd.lines) js)
  unfolding validate assert_postable
  validated_makes_entry cmd s h =
      let (a, open_period, h1) = >>=-eq-ok _ _ s (with_state (validate p cmd) s (ok tt) h) in
      let (b, projects, h2) = >>=-eq-ok _ _ _ h1 in
      let (c, tags, h3) = >>=-eq-ok _ _ _ h2 in
      let (u, masters, h4) = >>=-eq-ok _ _ _ h3 in
      let (js, made, rest) =
        ok_of_bind (checked_lines (map (λ l. l.line) cmd.lines)) _ (ap (λ q. q.0) h4) in
      ((assert_tags_iff cmd).0 tags, (js, made, (checked_lines_iff _ js).0 made))
