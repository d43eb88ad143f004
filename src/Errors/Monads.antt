-- ===== src/Errors/Monads.antt =====
-- The two shapes of fallible code. `Result` is a pure function that may throw. `Action` is a method
-- that also reads and writes the state `S` of its transaction: what was written before a throw stays
-- in the state, and is undone by the transaction that the method runs in.
use construction_erp_nestjs.Prelude.{Bool, true, false, ◌≡◌, refl, ◌⊎◌, inl, inr}
use construction_erp_nestjs.Errors.Codes.{ErrorCode, Failure, domain}

pub data Result (Value : Type 0) : Type 0 where
  err : Failure → Result Value
  ok : Value → Result Value

-- `throw new DomainError(code)`.
abbrev pub throw : {Value : Type 0} → ErrorCode → Result Value
throw code = err (domain code)

-- `if (b) throw …`.
abbrev pub throw_if : Bool → ErrorCode → Result (Unit {0})
throw_if false code = ok tt
throw_if true code = throw code

infixl 5 ◌>>=◌ ◌>>◌
abbrev pub ◌>>=◌ : {V W : Type 0} → Result V → (V → Result W) → Result W
err failure >>= next = err failure
ok value >>= next = next value

abbrev pub ◌>>◌ : {W : Type 0} → Result (Unit {0}) → Result W → Result W
check >> rest = check >>= λ _. rest

-- A chain that ends well passed its first step.
pub >>=-eq-ok :
    {V W : Type 0} (first : Result V) (next : V → Result W) {w : W}
    → (first >>= next) ≡ ok w
    → (v : V) × (first ≡ ok v) × (next v ≡ ok w)
>>=-eq-ok (err failure) next end = cc
>>=-eq-ok (ok value) next end = (value, refl, end)

pub ok_inj : {A : Type 0} {a b : A} → ok a ≡ ok b → a ≡ b
ok_inj h = cc

pub Result-cases :
    {A : Type 0} (r : Result A) → ((a : A) × (r ≡ ok a)) ⊎ ((e : Failure) × (r ≡ err e))
Result-cases (ok a) = inl (a, refl)
Result-cases (err e) = inr (e, refl)

pub throw_if-ok : (b : Bool) (c : ErrorCode) {u : Unit {0}} → throw_if b c ≡ ok u → b ≡ false
throw_if-ok true c h = cc
throw_if-ok false c h = refl
