-- ===== src/Common/Sorting.antt =====
-- Python's `sorted`: a stable sort by a Boolean order, as an insertion sort.
use mathlib.Core.List.{Perm}
use mathlib.Core.List.Perm
use predictive_analysis.Common.Tests.{if◌then◌else◌, Bool-cases}
use predictive_analysis.Common.Lists.{All, length, any}
use Prim.Native.Nat.{suc}
use mathlib.Core.Path.{◌≡◌, refl}
use mathlib.Core.Logic.{inl, inr}
use mathlib.Core.Bool.{Bool, true, false, ◌||◌}
use mathlib.Core.List.{List, [], ◌∷◌}
use native.Mathlib.Omega.{arith}

module _ {ℓ} {A : Type ℓ} (le : A → A → Bool) where
  abbrev pub insert_by : A → List A → List A
  insert_by x [] = x ∷ []
  insert_by x (y ∷ ys) = let rest = insert_by x ys in if le x y then x ∷ (y ∷ ys) else y ∷ rest

  unfoldable pub sort_by : List A → List A
  sort_by [] = []
  sort_by (x ∷ xs) = insert_by x (sort_by xs)

  -- Each element is at most every later one.
  abbrev pub IsSorted : List A → Type 0
  IsSorted [] = Unit
  IsSorted (x ∷ xs) = All (λ y. le x y ≡ true) xs × IsSorted xs

  insert_by-perm : (x : A) (ys : List A) → Perm (insert_by x ys) (x ∷ ys)
  insert_by-perm x [] = Perm.refl (x ∷ [])
  insert_by-perm x (y ∷ ys) = elim (Bool-cases (le x y)) [
    | inl p ↦ rw p (Perm.refl (x ∷ (y ∷ ys)))
    | inr p ↦ rw p (Perm.trans (Perm.cons y (insert_by-perm x ys)) (Perm.swap x y ys))
  ]

  pub sort_by-perm : (xs : List A) → Perm (sort_by xs) xs
  unfolding sort_by
  sort_by-perm [] = Perm.refl []
  sort_by-perm (x ∷ xs) = Perm.trans (insert_by-perm x (sort_by xs)) (Perm.cons x (sort_by-perm xs))

  length-insert_by : (x : A) (ys : List A) → length (insert_by x ys) ≡ suc (length ys)
  length-insert_by x [] = refl
  length-insert_by x (y ∷ ys) = ground (arith, length-insert_by x ys)

  pub length-sort_by : (xs : List A) → length (sort_by xs) ≡ length xs
  unfolding sort_by
  length-sort_by [] = refl
  length-sort_by (x ∷ xs) = omega (arith, length-insert_by x (sort_by xs), length-sort_by xs)

  pub any-insert_by :
      (p : A → Bool) (x : A) (ys : List A) → any p (insert_by x ys) ≡ (p x || any p ys)
  any-insert_by p x [] = refl
  any-insert_by p x (y ∷ ys) = ground (arith, any-insert_by p x ys)

  pub any-sort_by : (p : A → Bool) (xs : List A) → any p (sort_by xs) ≡ any p xs
  unfolding sort_by
  any-sort_by p [] = refl
  any-sort_by p (x ∷ xs) = ground (arith, any-insert_by p x (sort_by xs), any-sort_by p xs)

  module _ {κ} (P : A → Type κ) where
    All-insert_by : (x : A) (ys : List A) → P x → All P ys → All P (insert_by x ys)
    All-insert_by x [] p h = (p, h)
    All-insert_by x (y ∷ ys) p h = elim (Bool-cases (le x y)) [
      | inl q ↦ rw q (p, h)
      | inr q ↦ rw q (h.0, All-insert_by x ys p h.1)
    ]

    pub All-sort_by : (xs : List A) → All P xs → All P (sort_by xs)
    unfolding sort_by
    All-sort_by [] h = h
    All-sort_by (x ∷ xs) h = All-insert_by x (sort_by xs) h.0 (All-sort_by xs h.1)

    insert_by-All : (x : A) (ys : List A) → All P (insert_by x ys) → P x × All P ys
    insert_by-All x [] h = (h.0, tt)
    insert_by-All x (y ∷ ys) h = elim (Bool-cases (le x y)) [
      | inl q ↦ (rw q at h)
      | inr q ↦
          let k : P y × All P (insert_by x ys) = rw q at h in
          let rest = insert_by-All x ys k.1 in (rest.0, (k.0, rest.1))
    ]

    pub sort_by-All : (xs : List A) → All P (sort_by xs) → All P xs
    unfolding sort_by
    sort_by-All [] h = h
    sort_by-All (x ∷ xs) h = let k = insert_by-All x (sort_by xs) h in (k.0, sort_by-All xs k.1)

  module _ (total : (x y : A) → le x y ≡ false → le y x ≡ true)
      (trans : (x y z : A) → le x y ≡ true → le y z ≡ true → le x z ≡ true) where
    weaken :
        (x y : A) (ys : List A)
        → le x y ≡ true
        → All (λ z. le y z ≡ true) ys
        → All (λ z. le x z ≡ true) ys
    weaken x y [] p h = tt
    weaken x y (z ∷ zs) p h = (trans x y z p h.0, weaken x y zs p h.1)

    insert_by-IsSorted : (x : A) (ys : List A) → IsSorted ys → IsSorted (insert_by x ys)
    insert_by-IsSorted x [] h = (tt, tt)
    insert_by-IsSorted x (y ∷ ys) h = elim (Bool-cases (le x y)) [
      | inl q ↦ rw q ((q, weaken x y ys q h.0), h)
      | inr q ↦
          rw q
            (All-insert_by (λ z. le y z ≡ true) x ys (total x y q) h.0, insert_by-IsSorted x ys h.1)
    ]

    pub sort_by-IsSorted : (xs : List A) → IsSorted (sort_by xs)
    unfolding sort_by
    sort_by-IsSorted [] = tt
    sort_by-IsSorted (x ∷ xs) = insert_by-IsSorted x (sort_by xs) (sort_by-IsSorted xs)
