-- ===== src/Common/Lists.antt =====
-- Lists measured and indexed by native numbers, under the library's names, and Boolean searches.
use Prim.Native.Nat.{ℕ, zero, suc, ◌+◌, ◌≤◌}
use mathlib.Core.Path.{◌≡◌, refl, sym, ap, ◌∙◌}
use mathlib.Core.Logic.{inl, inr}
use mathlib.Core.Bool.{Bool, true, false, ◌||◌, ◌&&◌}
use mathlib.Core.List.{List, [], ◌∷◌, ◌++◌}
use mathlib.Core.Option.{Option, none, some}
use native.Mathlib.Omega.{arith}
use predictive_analysis.Common.Tests.{Eq, ◌==◌, if◌then◌else◌, Bool-cases}

module _ {ℓ} {A : Type ℓ} where
  abbrev pub length : List A → ℕ
  length [] = 0
  length (x ∷ xs) = suc (length xs)

  abbrev pub get_elem? : List A → ℕ → Option A
  get_elem? [] i = none
  get_elem? (x ∷ xs) zero = some x
  get_elem? (x ∷ xs) (suc i) = get_elem? xs i

  pub length-append : (xs ys : List A) → length (xs ++ ys) ≡ length xs + length ys
  length-append [] ys = omega arith
  length-append (x ∷ xs) ys = omega (arith, length-append xs ys)

  -- Python's `any(p(x) for x in xs)`, `all(...)` and `[x for x in xs if p(x)]`.
  abbrev pub any : (A → Bool) → List A → Bool
  any p [] = false
  any p (x ∷ xs) = p x || any p xs

  abbrev pub all : (A → Bool) → List A → Bool
  all p [] = true
  all p (x ∷ xs) = p x && all p xs

  abbrev pub select : (A → Bool) → List A → List A
  select p [] = []
  select p (x ∷ xs) = let rest = select p xs in if p x then x ∷ rest else rest

  abbrev pub last? : List A → Option A
  last? [] = none
  last? (x ∷ []) = some x
  last? (x ∷ (y ∷ ys)) = last? (y ∷ ys)

  -- Every element has the property.
  abbrev pub All {κ} : (A → Type κ) → List A → Type κ
  All P [] = Unit
  All P (x ∷ xs) = P x × All P xs

  pub length-select : (p : A → Bool) (xs : List A) → length (select p xs) ≤ length xs
  length-select p [] = omega arith
  length-select p (x ∷ xs) = ground (arith, length-select p xs)

module _ {ℓ κ} {A : Type ℓ} (P : A → Type κ) where
  pub All-append : (xs ys : List A) → All P xs → All P ys → All P (xs ++ ys)
  All-append [] ys h k = k
  All-append (x ∷ xs) ys h k = (h.0, All-append xs ys h.1 k)

module _ {ℓ} {A : Type ℓ} ⦃e : Eq A⦄ where
  -- Python's `x in xs`.
  abbrev pub contains : List A → A → Bool
  contains xs a = any (λ x. x == a) xs

  -- The distinct elements: each is kept at its last occurrence.
  abbrev pub distinct : List A → List A
  distinct [] = []
  distinct (x ∷ xs) = let rest = distinct xs in if contains rest x then rest else x ∷ rest

  pub any-false :
      (p : A → Bool) (xs : List A) → any p xs ≡ false → (a : A) → contains xs a ≡ true → p a ≡ false
  any-false p [] h a k = cc
  any-false p (x ∷ xs) h a k =
      let parts : (p x ≡ false) × (any p xs ≡ false) = ground (arith, h) in
      elim (Bool-cases (x == a)) [
        | inl q ↦ sym (ap p ((e.same_iff x a).0 q)) ∙ parts.0
        | inr q ↦ any-false p xs parts.1 a (rw q at k)
      ]

  pub none_any :
      (p : A → Bool) (xs : List A)
      → ((a : A) → contains xs a ≡ true → p a ≡ false)
      → any p xs ≡ false
  none_any p [] h = refl
  none_any p (x ∷ xs) h =
      let here : p x ≡ false = h x (ground (arith, e.same_iff x x)) in
      let rest : any p xs ≡ false = none_any p xs (λ a k. h a (ground arith)) in ground arith

  pub contains-append :
      (xs ys : List A) (a : A) → contains (xs ++ ys) a ≡ (contains xs a || contains ys a)
  contains-append [] ys a = refl
  contains-append (x ∷ xs) ys a = ground (arith, contains-append xs ys a)
