-- ===== src/Purchase/Match/Decides.antt =====
-- What the match status of a line says of its quantities (modules/purchase/domain/match.ts).
use construction_erp_nestjs.Prelude.{
  ◌≡◌, ◌∙◌, ◌⊎◌, sym, subst, Bool, true, false, Bool-cases, inl, inr, arith, ==_iff,
}
use construction_erp_nestjs.Prelude.Int.{
  ℤ, pos, ◌+ℤ◌, ◌-ℤ◌, ◌≤ℤ◌, ◌<ℤ◌, eqb_ℤ, ltb_ℤ, +ℤ_parts, -ℤ_parts, eq_of_parts, parts_eq,
  le_of_false,
}
use construction_erp_nestjs.Decimal.{
  DecimalLib, Exact, Fits, Num, of_number, minus, is_zero, is_negative, greater_than, less_than,
}
use construction_erp_nestjs.Purchase.Match.{MatchStatus, match_status_of, open_qty_of}

-- What a status says of the billed and the received quantity, and of the one that is still due.
abbrev pub Says : MatchStatus → ℤ → ℤ → ℤ → Type 0
Says MatchStatus.pending_receipt billed received due = (received ≡ pos 0) × (due ≡ billed)
Says MatchStatus.under_received billed received due =
    (pos 0 <ℤ received) × (received <ℤ billed) × (received +ℤ due ≡ billed)
Says MatchStatus.matched billed received due =
    (pos 0 <ℤ received) × (received ≡ billed) × (due ≡ pos 0)
Says MatchStatus.over_received billed received due =
    (pos 0 <ℤ received) × (billed <ℤ received) × (due ≡ pos 0)

-- What is due: nothing when all is received, else the rest.
abbrev IsDue : ℤ → ℤ → ℤ → Type 0
IsDue billed received due =
    ((billed ≤ℤ received) × (due ≡ pos 0)) ⊎ ((received ≤ℤ billed) × (received +ℤ due ≡ billed))

below_or_equal : (a b : ℤ) → a ≤ℤ b → (a <ℤ b) ⊎ (a ≡ b)
below_or_equal a b h = elim (Bool-cases (eqb_ℤ a b)) [
  | inl t ↦ inr (eq_of_parts a b ((==_iff _ _).0 t))
  | inr t ↦ inl (ground arith)
]

less_of_false : (a b : ℤ) (t : Bool) → (a ≡ b → t ≡ true) → t ≡ false → a ≤ℤ b → a <ℤ b
less_of_false a b t equal answer h = elim (below_or_equal a b h) [
  | inl below ↦ below
  | inr same ↦ let both : true ≡ false = sym (equal same) ∙ answer in cc
]

IsDue-difference :
    (billed received due : ℤ)
    → due ≡ billed -ℤ received
    → pos 0 ≤ℤ (billed -ℤ received)
    → IsDue billed received due
IsDue-difference b r due is sign = inr (
  omega (arith, -ℤ_parts b r),
  eq_of_parts (r +ℤ due) b (omega (arith, -ℤ_parts b r, +ℤ_parts r due, parts_eq is)),
)

IsDue-nothing :
    (billed received due : ℤ)
    → due ≡ pos 0
    → (billed -ℤ received) ≤ℤ pos 0
    → IsDue billed received due
IsDue-nothing b r due is sign = inl (omega (arith, -ℤ_parts b r), is)

due_pending : (b r due : ℤ) → IsDue b r due → r ≡ pos 0 → pos 0 <ℤ b → due ≡ b
due_pending b r due (inl h) none_yet some_billed =
    let e = parts_eq none_yet in let low = h.0 in eq_of_parts due b (omega (arith, e))
due_pending b r due (inr h) none_yet some_billed =
    let total = parts_eq h.1 in
    eq_of_parts due b (omega (arith, total, parts_eq none_yet, +ℤ_parts r due))

due_over : (b r due : ℤ) → IsDue b r due → b ≤ℤ r → due ≡ pos 0
due_over b r due (inl h) all = h.1
due_over b r due (inr h) all =
    let low = h.0 in
    let total = parts_eq h.1 in eq_of_parts due (pos 0) (omega (arith, total, +ℤ_parts r due))

due_under : (b r due : ℤ) → IsDue b r due → r <ℤ b → r +ℤ due ≡ b
due_under b r due (inl h) some_left = let low = h.0 in eq_of_parts (r +ℤ due) b (omega arith)
due_under b r due (inr h) some_left = h.1

module _ ⦃d : DecimalLib⦄ (x : Exact d) where
  -- `isNegative` may hold of a zero, which leaves the quantity due at zero all the same.
  low_of_negative : (a : Num) → x.IsStored a → is_negative a ≡ true → x.units a ≤ℤ pos 0
  low_of_negative a h t = elim (Bool-cases (ltb_ℤ (pos 0) (x.units a))) [
    | inr low ↦ ground arith
    | inl high ↦
        let above : pos 0 <ℤ x.units a = ground arith in
        let both = sym t ∙ x.is_negative_pos a h above in cc
  ]

  open_qty_of-IsDue :
      (billed received : Num)
      → x.IsStored billed
      → x.IsStored received
      → Fits (x.units billed -ℤ x.units received)
      → IsDue (x.units billed) (x.units received) (x.units (open_qty_of billed received))
  unfolding open_qty_of
  open_qty_of-IsDue billed received hb hr fits =
      let difference = x.minus_units billed received hb hr in
      let stored = x.minus_stored billed received hb hr fits in
      elim (Bool-cases (is_negative (minus billed received))) [
        | inl t ↦ rw t (
            IsDue-nothing (x.units billed) (x.units received) (x.units (of_number 0))
              (x.of_number_units 0 (omega arith))
              (subst (λ z. z ≤ℤ pos 0) difference (low_of_negative _ stored t)))
        | inr t ↦ rw t (
            IsDue-difference (x.units billed) (x.units received) (x.units (minus billed received))
              difference (subst (λ z. pos 0 ≤ℤ z) difference (x.is_negative_false _ stored t)))
      ]

  -- For a billed quantity above zero and a received one that is not negative, the match status says how
  -- they compare and what the open quantity is: all that was billed when nothing was received, the rest
  -- when less was, and zero when as much or more was.
  pub match_status-Says :
      (billed received : Num)
      → x.IsStored billed
      → x.IsStored received
      → Fits (x.units billed -ℤ x.units received)
      → pos 0 <ℤ x.units billed
      → pos 0 ≤ℤ x.units received
      → Says
          (match_status_of billed received)
          (x.units billed)
          (x.units received)
          (x.units (open_qty_of billed received))
  unfolding match_status_of
  match_status-Says billed received hb hr fits some_billed sign =
      let due = open_qty_of-IsDue billed received hb hr fits in
      let b = x.units billed in
      let r = x.units received in
      elim (Bool-cases (is_zero received)) [
        | inl t ↦
            let nothing = (x.is_zero_iff received hr).0 t in
            rw t (nothing, due_pending b r _ due nothing some_billed)
        | inr t ↦
            let zero_case : pos 0 ≡ r → is_zero received ≡ true =
              λ e. (x.is_zero_iff received hr).1 (sym e) in
            let some_received = less_of_false (pos 0) r (is_zero received) zero_case t sign in
            elim (Bool-cases (greater_than received billed)) [
              | inl over ↦
                  let more = (x.greater_than_iff received billed hr hb).0 over in
                  rw t (rw over (some_received, more, due_over b r _ due (omega arith)))
              | inr not_over ↦
                  let at_most =
                    le_of_false b r (greater_than received billed)
                      (x.greater_than_iff received billed hr hb).1 not_over in
                  elim (Bool-cases (less_than received billed)) [
                    | inl under ↦
                        let less = (x.less_than_iff received billed hr hb).0 under in
                        rw t
                          (rw not_over (rw under (some_received, less, due_under b r _ due less)))
                    | inr not_under ↦
                        let at_least =
                          le_of_false r b (less_than received billed)
                            (x.less_than_iff received billed hr hb).1 not_under in
                        rw t (
                          rw not_over (
                            rw not_under (
                              some_received,
                              eq_of_parts r b (omega arith),
                              due_over b r _ due at_least,
                            )))
                  ]
            ]
      ]
