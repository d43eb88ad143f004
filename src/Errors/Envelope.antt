-- ===== src/Errors/Envelope.antt =====
-- The error envelope of infrastructure/http/all-exceptions.filter.ts: what a thrown value becomes. The
-- messages and details are left out.
use construction_erp_nestjs.Prelude.{
  ℕ, ◌≤◌, ◌==◌, ◌≡◌, refl, sym, ap, subst, ◌⊎◌, inl, inr, arith, ◌↔◌, if◌then◌else◌, leb,
}
use construction_erp_nestjs.Errors.Codes.{
  ErrorCode, Failure, domain, http_exception, range_error, plain_error, query_failed,
}
use construction_erp_nestjs.Errors.Http.{status_number, domain_error_status}

-- `body.error.code`: a domain error keeps its code, an HttpException has one by its status, and any other
-- value is redacted to `INTERNAL_ERROR`.
pub data EnvelopeCode : Type 0 where
  own : ErrorCode → EnvelopeCode
  bad_request unauthorized forbidden not_found conflict unprocessable_entity internal_error error :
      EnvelopeCode

pub record Envelope : Type 0 where
  pub status : ℕ
  pub code : EnvelopeCode

-- `codeFromStatus`.
unfoldable pub code_from_status : ℕ → EnvelopeCode
code_from_status s =
    if s == 400
    then EnvelopeCode.bad_request
    else if s == 401
    then EnvelopeCode.unauthorized
    else if s == 403
    then EnvelopeCode.forbidden
    else if s == 404
    then EnvelopeCode.not_found
    else if s == 409
    then EnvelopeCode.conflict
    else if s == 422
    then EnvelopeCode.unprocessable_entity
    else if leb 500 s
    then EnvelopeCode.internal_error
    else EnvelopeCode.error

unfoldable pub to_envelope : Failure → Envelope
unfolding domain_error_status code_from_status
to_envelope (domain c) = record {
  status = status_number (domain_error_status c);
  code = EnvelopeCode.own c;
}
to_envelope (http_exception s) = record { status = s; code = code_from_status s }
to_envelope _ = record { status = 500; code = EnvelopeCode.internal_error }

-- The domain codes that stand for something that does not exist.
abbrev pub IsMissing : ErrorCode → Type 0
IsMissing c =
    (c ≡ ErrorCode.not_found)
    ⊎ ((c ≡ ErrorCode.no_periods_for_fy) ⊎ (c ≡ ErrorCode.financial_year_not_found))

-- A domain error is answered by 404 exactly when its code stands for something missing.
domain_error_status-not_found :
    (c : ErrorCode) → (status_number (domain_error_status c) ≡ 404) ↔ IsMissing c
unfolding domain_error_status
domain_error_status-not_found ErrorCode.validation = ground arith
domain_error_status-not_found _ = ground arith

domain_error_status-client : (c : ErrorCode) → status_number (domain_error_status c) ≤ 499
unfolding domain_error_status
domain_error_status-client ErrorCode.validation = omega arith
domain_error_status-client _ = omega arith

code_from_status-server : (s : ℕ) → (500 ≤ s) ↔ (code_from_status s ≡ EnvelopeCode.internal_error)
unfolding code_from_status
code_from_status-server s = ground arith

-- A server status, 500 or above, is answered exactly with the code INTERNAL_ERROR, so by no domain error;
-- and 404 is answered exactly for the domain codes of something missing and for an HttpException of
-- status 404.
pub to_envelope_status :
    (e : Failure)
    → ((500 ≤ (to_envelope e).status) ↔ ((to_envelope e).code ≡ EnvelopeCode.internal_error))
      × (((to_envelope e).status ≡ 404)
          ↔ (((c : ErrorCode) × (e ≡ domain c) × IsMissing c) ⊎ (e ≡ http_exception 404)))
unfolding to_envelope
to_envelope_status (domain c) =
    let client = domain_error_status-client c in
    (
      ((λ h. absurd (omega (arith, h, client))), (λ h. cc)),
      (
        (λ h. inl (c, refl, (domain_error_status-not_found c).0 h)),
        (λ h. elim h [
          | inl (k, same, missing) ↦
              let is : c ≡ k = cc in
              (domain_error_status-not_found c).1 (subst IsMissing (sym is) missing)
          | inr other ↦ cc
        ]),
      ),
    )
to_envelope_status (http_exception s) = (
  code_from_status-server s,
  ((λ h. inr (ap http_exception h)), (λ h. elim h [ inl (k, same, missing) ↦ cc | inr is ↦ cc ])),
)
to_envelope_status range_error = (
  ((λ h. refl), (λ h. omega arith)),
  ((λ h. absurd (omega (arith, h))), (λ h. elim h [ inl (c, same, missing) ↦ cc | inr same ↦ cc ])),
)
to_envelope_status plain_error = (
  ((λ h. refl), (λ h. omega arith)),
  ((λ h. absurd (omega (arith, h))), (λ h. elim h [ inl (c, same, missing) ↦ cc | inr same ↦ cc ])),
)
to_envelope_status query_failed = (
  ((λ h. refl), (λ h. omega arith)),
  ((λ h. absurd (omega (arith, h))), (λ h. elim h [ inl (c, same, missing) ↦ cc | inr same ↦ cc ])),
)
