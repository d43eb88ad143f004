-- ===== src/Errors/Action.antt =====
-- A method on the state `S` of a transaction that may throw, and its `do` notation.
use construction_erp_nestjs.Prelude.{
  Bool, true, false, Option, none, some, ◌≡◌, refl, ap, ◌∙◌, List, [], ◌∷◌,
}
use construction_erp_nestjs.Errors.Codes.{ErrorCode, Failure, domain}
use construction_erp_nestjs.Errors.Monads.{Result, ok, err, ok_inj}

abbrev pub Action : Type 0 → Type 0 → Type 0
Action S A = S → Result A × S

module _ {S A : Type 0} where
  abbrev pub pure : A → Action S A
  pure a s = (ok a, s)

  abbrev pub throws : ErrorCode → Action S A
  throws c s = (err (domain c), s)

  -- A pure function that may throw, called by a method.
  abbrev pub lift : Result A → Action S A
  lift r s = (r, s)

  abbrev pub gets : (S → A) → Action S A
  gets f s = (ok (f s), s)

  -- `if (!row) throw …`.
  abbrev pub or_throw : Option A → ErrorCode → Action S A
  or_throw none c = throws c
  or_throw (some a) c = pure a

abbrev pub modify : {S : Type 0} → (S → S) → Action S (Unit {0})
modify f s = (ok tt, f s)

abbrev pub throws_if : {S : Type 0} → Bool → ErrorCode → Action S (Unit {0})
throws_if true c = throws c
throws_if false c = pure tt

infixl 5 ◌>>=◌ ◌>>◌
unfoldable pub ◌>>=◌ : {S A B : Type 0} → Action S A → (A → Action S B) → Action S B
◌>>=◌ m f s = let (r, s') = m s in elim r [ ok a ↦ f a s' | err e ↦ (err e, s') ]

abbrev pub ◌>>◌ : {S B : Type 0} → Action S (Unit {0}) → Action S B → Action S B
m >> k = m >>= λ _. k

-- `for (const x of xs) await body(x)`.
abbrev pub for_each : {S A : Type 0} → (A → Action S (Unit {0})) → List A → Action S (Unit {0})
for_each body [] = pure tt
for_each body (x ∷ xs) = body x >> for_each body xs

-- Inversion of a bind that ends well.
bind_ok :
    {S A B : Type 0} (r : Result A) (s : S) (f : A → Action S B) {b : B} {t : S}
    → (elim r as (λ _. Result B × S) [ ok a ↦ f a s | err e ↦ (err e, s) ]) ≡ (ok b, t)
    → (a : A) × (r ≡ ok a) × (f a s ≡ (ok b, t))
bind_ok (ok a) s f h = (a, refl, h)
bind_ok (err e) s f h = cc

bind_err :
    {S A B : Type 0} (r : Result A) (s : S) (f : A → Action S B) (e : Failure)
    → r ≡ err e
    → (elim r as (λ _. Result B × S) [ ok a ↦ f a s | err e ↦ (err e, s) ]) ≡ (err e, s)
bind_err (ok a) s f e h = cc
bind_err (err d) s f e h = cc

bind_next :
    {S A B : Type 0} (r : Result A) (s : S) (f : A → Action S B) (a : A)
    → r ≡ ok a
    → (elim r as (λ _. Result B × S) [ ok a ↦ f a s | err e ↦ (err e, s) ]) ≡ f a s
bind_next (ok c) s f a h = cc
bind_next (err d) s f a h = cc

module _ {S A B : Type 0} (m : Action S A) (f : A → Action S B) (s : S) where
  pub >>=-eq-ok :
      {b : B} {t : S}
      → (m >>= f) s ≡ (ok b, t)
      → (a : A) × ((m s).0 ≡ ok a) × (f a (m s).1 ≡ (ok b, t))
  unfolding ◌>>=◌
  >>=-eq-ok h = bind_ok (m s).0 (m s).1 f h

  -- A method whose first part throws ends there.
  pub >>=-eq-err : (e : Failure) → (m s).0 ≡ err e → (m >>= f) s ≡ (err e, (m s).1)
  unfolding ◌>>=◌
  >>=-eq-err e h = bind_err (m s).0 (m s).1 f e h

  pub >>=-eq-next : (a : A) → (m s).0 ≡ ok a → (m >>= f) s ≡ f a (m s).1
  unfolding ◌>>=◌
  >>=-eq-next a h = bind_next (m s).0 (m s).1 f a h

-- A method that writes nothing, whatever it returns.
abbrev pub Reads : {S A : Type 0} → Action S A → Type 0
Reads {S} m = (s : S) → (m s).1 ≡ s

bind-Reads :
    {S A B : Type 0} (r : Result A) (s t : S) (f : A → Action S B)
    → s ≡ t
    → ((a : A) → Reads (f a))
    → (elim r as (λ _. Result B × S) [ ok a ↦ f a s | err e ↦ (err e, s) ]).1 ≡ t
bind-Reads (ok a) s t f h reads = reads a s ∙ h
bind-Reads (err e) s t f h reads = h

pub >>=-Reads :
    {S A B : Type 0} (m : Action S A) (f : A → Action S B)
    → Reads m
    → ((a : A) → Reads (f a))
    → Reads (m >>= f)
unfolding ◌>>=◌
>>=-Reads m f hm hf s = bind-Reads (m s).0 (m s).1 s f (hm s) hf

pub for_each-Reads :
    {S A : Type 0} (body : A → Action S (Unit {0})) (xs : List A)
    → ((x : A) → Reads (body x))
    → Reads (for_each body xs)
for_each-Reads body [] h s = refl
for_each-Reads body (x ∷ xs) h s =
    >>=-Reads (body x) (λ _. for_each body xs) (h x) (λ _. for_each-Reads body xs h) s

-- The result of a method, with the state it leaves.
pub with_state :
    {S A : Type 0} (m : Action S A) (s : S) (r : Result A) → (m s).0 ≡ r → m s ≡ (r, (m s).1)
with_state m s r e i = (e i, (m s).1)

-- A bind that ends well ended well in both parts: the proof goes on from the value and the state
-- between them.
pub after_bind :
    {S A B Q : Type 0} (m : Action S A) (f : A → Action S B) (s : S) {b : B} {t : S}
    → (m >>= f) s ≡ (ok b, t)
    → ((a : A) (s' : S) → m s ≡ (ok a, s') → f a s' ≡ (ok b, t) → Q)
    → Q
after_bind m f s h next =
    let (a, e, rest) = >>=-eq-ok m f s h in next a (m s).1 (with_state m s (ok a) e) rest

-- The end of a method: what it returned, and the state it left.
pub pure-eq : {S A : Type 0} {a b : A} {s t : S} → pure {S = S} a s ≡ (ok b, t) → (a ≡ b) × (s ≡ t)
pure-eq h = (ok_inj (λ i. (h i).0), λ i. (h i).1)

pub or_throw-ok :
    {S A : Type 0} (o : Option A) (c : ErrorCode) {a : A} {s t : S}
    → or_throw o c s ≡ (ok a, t)
    → (o ≡ some a) × (s ≡ t)
or_throw-ok none c h = cc
or_throw-ok (some b) c h = (ap some (pure-eq h).0, (pure-eq h).1)

pub throws_if-ok :
    {S : Type 0} (b : Bool) (c : ErrorCode) {u : Unit {0}} {s t : S}
    → throws_if b c s ≡ (ok u, t)
    → (b ≡ false) × (s ≡ t)
throws_if-ok true c h = cc
throws_if-ok false c h = (refl, (pure-eq h).1)

pub lift-ok :
    {S A : Type 0} (r : Result A) {a : A} {s t : S} → lift r s ≡ (ok a, t) → (r ≡ ok a) × (s ≡ t)
lift-ok r h = ((λ i. (h i).0), (λ i. (h i).1))

-- A bind whose first part is known to end well.
pub bind_to :
    {S A B : Type 0} (m : Action S A) (f : A → Action S B) (s : S) {a : A} {t : S}
    → m s ≡ (ok a, t)
    → (m >>= f) s ≡ f a t
bind_to m f s {a} h = >>=-eq-next m f s a (ap (λ q. q.0) h) ∙ ap (λ q. f a q.1) h

-- A bind whose first part is known to throw.
pub bind_stops :
    {S A B : Type 0} (m : Action S A) (f : A → Action S B) (s : S) {e : Failure} {t : S}
    → m s ≡ (err e, t)
    → (m >>= f) s ≡ (err e, t)
bind_stops m f s {e} h = >>=-eq-err m f s e (ap (λ q. q.0) h) ∙ ap (λ q. (err e, q.1)) h
