-- ===== src/Prelude/Lists.antt =====
-- Lists measured and searched by native numbers and Boolean tests.
use Prim.Native.Nat.{ℕ, zero, suc, ◌+◌, ◌≤◌}
use mathlib.Core.Path.{◌≡◌, refl, ap, sym, subst, ◌∙◌}
use mathlib.Core.Logic.{inl, inr}
use mathlib.Core.Bool.{Bool, true, false, ◌&&◌, ◌||◌}
use mathlib.Core.List.{List, [], ◌∷◌, ◌++◌, map}
use mathlib.Core.Option.{Option, none, some}
use native.Mathlib.Omega.{arith}
use construction_erp_nestjs.Prelude.Tests.{if◌then◌else◌, Bool-cases}

module _ {ℓ} {A : Type ℓ} where
  abbrev pub length : List A → ℕ
  length [] = 0
  length (x ∷ xs) = suc (length xs)

  -- The array methods `every`, `some`, `find` and `filter` of the source, on a Boolean test.
  abbrev pub every : (A → Bool) → List A → Bool
  every p [] = true
  every p (x ∷ xs) = p x && every p xs

  abbrev pub any : (A → Bool) → List A → Bool
  any p [] = false
  any p (x ∷ xs) = p x || any p xs

  abbrev pub find : (A → Bool) → List A → Option A
  find p [] = none
  find p (x ∷ xs) = if p x then some x else find p xs

  abbrev pub filter : (A → Bool) → List A → List A
  filter p [] = []
  filter p (x ∷ xs) = if p x then x ∷ filter p xs else filter p xs

  abbrev pub replicate : ℕ → A → List A
  replicate zero a = []
  replicate (suc n) a = a ∷ replicate n a

  -- A predicate of every element; it computes to a tuple.
  abbrev pub All {κ} : (A → Type κ) → List A → Type κ
  All P [] = Unit
  All P (x ∷ xs) = P x × All P xs

  pub length-append : (xs ys : List A) → length (xs ++ ys) ≡ length xs + length ys
  length-append [] ys = omega arith
  length-append (x ∷ xs) ys = omega (arith, length-append xs ys)

  pub length-replicate : (n : ℕ) (a : A) → length (replicate n a) ≡ n
  length-replicate zero a = refl
  length-replicate (suc n) a = ap suc (length-replicate n a)

  pub length-filter-le : (p : A → Bool) (xs : List A) → length (filter p xs) ≤ length xs
  length-filter-le p [] = omega arith
  length-filter-le p (x ∷ xs) = ground (arith, length-filter-le p xs)

pub find-All :
    {A : Type 0} (P : A → Type 0) (f : A → Bool) (xs : List A) {a : A}
    → All P xs
    → find f xs ≡ some a
    → P a × (f a ≡ true)
find-All P f [] h e = cc
find-All P f (x ∷ xs) {a} h e = elim (Bool-cases (f x)) [
  | inl t ↦
      let x_is : some x ≡ some a = sym (ap (λ b. if b then some x else find f xs) t) ∙ e in
      let x_eq : x ≡ a = cc in (subst P x_eq h.0, subst (λ y. f y ≡ true) x_eq t)
  | inr t ↦ find-All P f xs h.1 (sym (ap (λ b. if b then some x else find f xs) t) ∙ e)
]

-- A search that an update does not disturb finds the updated row.
pub find-map :
    {A : Type 0} (f : A → Bool) (u : A → A) (xs : List A) {a : A}
    → ((x : A) → f (u x) ≡ f x)
    → find f xs ≡ some a
    → find f (map u xs) ≡ some (u a)
find-map f u [] same e = cc
find-map f u (x ∷ xs) {a} same e = elim (Bool-cases (f x)) [
  | inl t ↦
      let x_is : some x ≡ some a = sym (ap (λ b. if b then some x else find f xs) t) ∙ e in
      ap (λ b. if b then some (u x) else find f (map u xs)) (same x ∙ t)
      ∙ (let y : x ≡ a = cc in ap (λ y. some (u y)) y)
  | inr t ↦
      ap (λ b. if b then some (u x) else find f (map u xs)) (same x ∙ t)
      ∙ find-map f u xs same (sym (ap (λ b. if b then some x else find f xs) t) ∙ e)
]
