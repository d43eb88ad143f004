-- ===== src/Numbering/Unique.antt =====
-- What a formatted number says (core/numbering/domain/numbering-series.ts).
use construction_erp_nestjs.Prelude.{
  not-false, ℕ, zero, suc, ◌+◌, ◌-◌, ◌*◌, ◌/◌, ◌%◌, ◌<◌, ◌≡◌, ◌∙◌, sym, ap, refl, true, false, not,
  [], ◌∷◌, ◌++◌, replicate, length, ltb, arith, Bool-cases, inl, inr, any, every, and_true, ◌==◌,
  ◌↔◌, subst, ◌⊎◌, ◌≤◌, All,
}
use construction_erp_nestjs.Prelude.Text.{Text, codes, pad_start, trim, is_empty}
use construction_erp_nestjs.Errors.{ErrorCode, ok, throw, ok_inj, throw_if, throw_if-ok, >>=-eq-ok}
use construction_erp_nestjs.Numbering.Format.{
  digits_from, to_string, format_voucher_number, normalize_prefix, is_prefix, is_safe,
  is_alphanumeric,
}

-- The number that a text of digits writes.
abbrev value_from : ℕ → Text → ℕ
value_from acc [] = acc
value_from acc (c ∷ cs) = value_from (acc * 10 + (c - 48)) cs

value_from-append :
    (acc : ℕ) (xs ys : Text) → value_from acc (xs ++ ys) ≡ value_from (value_from acc xs) ys
value_from-append acc [] ys = refl
value_from-append acc (x ∷ xs) ys = value_from-append (acc * 10 + (x - 48)) xs ys

value_from-digits : (fuel n : ℕ) → n < fuel → value_from 0 (digits_from fuel n) ≡ n
unfolding digits_from
value_from-digits zero n h = ground arith
value_from-digits (suc fuel) n h = elim (Bool-cases (ltb n 10)) [
  | inl t ↦ rw t (omega arith)
  | inr t ↦
      let big : 10 < suc n = ground arith in
      rw t (
        value_from-append 0 (digits_from fuel (n / 10)) ((48 + n % 10) ∷ [])
        ∙ rw (value_from-digits fuel (n / 10) (omega arith)) (omega arith))
]

value_from-pad : (k : ℕ) (s : Text) → value_from 0 (replicate k 48 ++ s) ≡ value_from 0 s
value_from-pad zero s = refl
value_from-pad (suc k) s = value_from-pad k s

value_from-padded : (width n : ℕ) → value_from 0 (pad_start width 48 (to_string n)) ≡ n
unfolding pad_start to_string
value_from-padded width n =
    value_from-pad (width - length (digits_from (suc n) n)) (digits_from (suc n) n)
    ∙ value_from-digits (suc n) n (omega arith)

append_cancel : (xs ys zs : Text) → xs ++ ys ≡ xs ++ zs → ys ≡ zs
append_cancel [] ys zs h = h
append_cancel (x ∷ xs) ys zs h = append_cancel xs ys zs cc

-- Two sequence numbers that are formatted alike, with one prefix, year label and padding, are equal.
pub format_injective :
    (prefix label : Text) (a b width : ℕ)
    → format_voucher_number prefix label a width ≡ format_voucher_number prefix label b width
    → a ≡ b
unfolding format_voucher_number to_string pad_start
format_injective prefix label a b width h =
    let sequences = append_cancel (prefix ++ codes "/" ++ label ++ codes "/") _ _ h in
    sym (value_from-padded width a) ∙ ap (value_from 0) sequences ∙ value_from-padded width b

-- The letters, digits and marks that a prefix may hold, as ranges of codes.
abbrev pub IsAlphanumeric : ℕ → Type 0
IsAlphanumeric c = ((65 ≤ c) × (c ≤ 90)) ⊎ (((97 ≤ c) × (c ≤ 122)) ⊎ ((48 ≤ c) × (c ≤ 57)))

abbrev pub IsSafe : ℕ → Type 0
IsSafe c = IsAlphanumeric c ⊎ ((c ≡ 45) ⊎ ((c ≡ 95) ⊎ (c ≡ 46)))

-- A letter or a digit, then letters, digits, `-`, `_` and `.`.
abbrev pub IsPrefixText : Text → Type 0
IsPrefixText [] = ⊥
IsPrefixText (c ∷ s) = IsAlphanumeric c × All IsSafe s

is_alphanumeric_iff : (c : ℕ) → (is_alphanumeric c ≡ true) ↔ IsAlphanumeric c
is_alphanumeric_iff c = ground arith

is_safe_iff : (c : ℕ) → (is_safe c ≡ true) ↔ IsSafe c
is_safe_iff c = ground arith

every-IsSafe : (s : Text) → (every is_safe s ≡ true) ↔ All IsSafe s
every-IsSafe [] = ((λ h. tt), (λ h. refl))
every-IsSafe (c ∷ s) = (
  (λ h.
      let (safe, rest) = and_true (is_safe c) (every is_safe s) h in
      ((is_safe_iff c).0 safe, (every-IsSafe s).0 rest)),
  (λ h. rw ((is_safe_iff c).1 h.0) ((every-IsSafe s).1 h.1)),
)

is_prefix_iff : (s : Text) → (is_prefix s ≡ true) ↔ IsPrefixText s
unfolding is_prefix
is_prefix_iff [] = ((λ h. cc), (λ h. absurd h))
is_prefix_iff (c ∷ s) = (
  (λ h.
      let (first, rest) = and_true (is_alphanumeric c) (every is_safe s) h in
      ((is_alphanumeric_iff c).0 first, (every-IsSafe s).0 rest)),
  (λ h. rw ((is_alphanumeric_iff c).1 h.0) ((every-IsSafe s).1 h.1)),
)

safe_no_slash : (s : Text) → All IsSafe s → any (◌==◌ 47) s ≡ false
safe_no_slash [] h = refl
safe_no_slash (c ∷ s) h =
    let safe = h.0 in let other : (47 == c) ≡ false = ground arith in rw other (safe_no_slash s h.1)

IsPrefixText-plain : (s : Text) → IsPrefixText s → (is_empty s ≡ false) × (any (◌==◌ 47) s ≡ false)
IsPrefixText-plain [] h = absurd h
IsPrefixText-plain (c ∷ s) h =
    let first = h.0 in
    let other : (47 == c) ≡ false = ground arith in (refl, rw other (safe_no_slash s h.1))

refused_or_allowed :
    (raw : Text) → (normalize_prefix raw ≡ throw ErrorCode.validation) ⊎ IsPrefixText (trim raw)
unfolding normalize_prefix
refused_or_allowed raw = elim (Bool-cases (is_prefix (trim raw))) [
  | inl t ↦ inr ((is_prefix_iff (trim raw)).0 t)
  | inr t ↦ inl (elim (Bool-cases (is_empty (trim raw))) [
    | inl empty ↦ rw empty refl
    | inr filled ↦ elim (Bool-cases (any (◌==◌ 47) (trim raw))) [
      | inl slash ↦ rw filled (rw slash refl)
      | inr plain ↦ rw filled (rw plain (rw t refl))
    ]
  ])
]

-- A prefix is accepted exactly when the trimmed input begins with a letter or a digit and goes on with
-- letters, digits, `-`, `_` and `.`; what is returned is the trimmed input, and holds no separator `/`.
-- Any other input is refused with VALIDATION_ERROR.
pub normalize_prefix_iff :
    (raw prefix : Text)
    → ((normalize_prefix raw ≡ ok prefix)
        ↔ ((prefix ≡ trim raw) × IsPrefixText prefix × (any (◌==◌ 47) prefix ≡ false)))
      × ((normalize_prefix raw ≡ throw ErrorCode.validation) ⊎ IsPrefixText (trim raw))
unfolding normalize_prefix
normalize_prefix_iff raw prefix = (
  (
    (λ h.
        let (u, filled, h1) = >>=-eq-ok (throw_if (is_empty (trim raw)) ErrorCode.validation) _ h in
        let (v, plain, h2) =
          >>=-eq-ok (throw_if (any (◌==◌ 47) (trim raw)) ErrorCode.validation) _ h1 in
        let (w, safe, h3) =
          >>=-eq-ok (throw_if (not (is_prefix (trim raw))) ErrorCode.validation) _ h2 in
        rw (← ok_inj h3) (
          refl,
          (is_prefix_iff (trim raw)).0
              (not-false (throw_if-ok (not (is_prefix (trim raw))) _ safe)),
          throw_if-ok (any (◌==◌ 47) (trim raw)) _ plain,
        )),
    (λ h.
        let good : IsPrefixText (trim raw) = subst IsPrefixText h.0 h.1 in
        let parts = IsPrefixText-plain (trim raw) good in
        rw parts.0 (rw parts.1 (rw ((is_prefix_iff (trim raw)).1 good) (ap ok (sym h.0))))),
  ),
  refused_or_allowed raw,
)
