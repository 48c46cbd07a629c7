-- ===== src/Common/Sets.antt =====
-- `sorted(set(xs))` of texts: the sorted list of the distinct elements depends on the elements alone.
use predictive_analysis.Common.Tests.{Eq, ◌==◌, Bool-cases}
use predictive_analysis.Common.Lists.{All, contains, distinct}
use predictive_analysis.Common.Sorting.{
  insert_by, sort_by, IsSorted, sort_by-IsSorted, any-sort_by, any-insert_by,
}
use predictive_analysis.Common.Sums.{NoRepeats, NoRepeats-distinct, contains-distinct}
use predictive_analysis.Common.Codes.{Text, text_eq, codes_le}
use mathlib.Core.Path.{◌≡◌, refl, sym, ap, ap₂, ◌∙◌}
use mathlib.Core.Logic.{inl, inr}
use mathlib.Core.Bool.{Bool, true, false}
use mathlib.Core.List.{List, [], ◌∷◌}
use native.Mathlib.Omega.{arith}

module _ {ℓ} {K : Type ℓ} ⦃e : Eq K⦄ (le : K → K → Bool) where
  NoRepeats-insert_by :
      (k : K) (ks : List K) → contains ks k ≡ false → NoRepeats ks → NoRepeats (insert_by le k ks)
  NoRepeats-insert_by k [] h u = (refl, tt)
  NoRepeats-insert_by k (j ∷ ks) h u = elim (Bool-cases (le k j)) [
    | inl p ↦ rw p (h, u)
    | inr p ↦
        let apart : ((j == k) ≡ false) × (contains ks k ≡ false) = ground (arith, h) in
        let other : (k == j) ≡ false = ground (arith, apart.0, e.same_iff j k, e.same_iff k j) in
        rw p
          (any-insert_by le (λ i. i == j) k ks ∙ rw other u.0, NoRepeats-insert_by k ks apart.1 u.1)
  ]

  NoRepeats-sort_by : (ks : List K) → NoRepeats ks → NoRepeats (sort_by le ks)
  unfolding sort_by
  NoRepeats-sort_by [] u = tt
  NoRepeats-sort_by (k ∷ ks) u =
      NoRepeats-insert_by k (sort_by le ks) (any-sort_by le (λ j. j == k) ks ∙ u.0)
        (NoRepeats-sort_by ks u.1)

  contains_head : (x : K) (xs : List K) → contains (x ∷ xs) x ≡ true
  contains_head x xs = ground (arith, e.same_iff x x)

  tail_same :
      (x y : K) (xs ys : List K)
      → x ≡ y
      → contains xs x ≡ false
      → contains ys y ≡ false
      → (k : K) → contains (x ∷ xs) k ≡ contains (y ∷ ys) k
      → contains xs k ≡ contains ys k
  tail_same x y xs ys heads u v k same = elim (Bool-cases (x == k)) [
    | inl p ↦
        let q : x ≡ k = (e.same_iff x k).0 p in
        ap (contains xs) (sym q) ∙ u ∙ sym v ∙ ap (contains ys) (sym heads ∙ q)
    | inr p ↦
        let q : (y == k) ≡ false = ap (λ z. z == k) (sym heads) ∙ p in ground (arith, p, q, same)
  ]

  -- An element of a sorted list is at least its bound.
  at_least_bound :
      (x y : K) (ys : List K) → All (λ z. le x z ≡ true) ys → contains ys y ≡ true → le x y ≡ true
  at_least_bound x y [] h k = cc
  at_least_bound x y (z ∷ ys) h k = elim (Bool-cases (z == y)) [
    | inl p ↦ sym (ap (le x) ((e.same_iff z y).0 p)) ∙ h.0
    | inr p ↦ at_least_bound x y ys h.1 (rw p at k)
  ]

  module _ (antisym : (x y : K) → le x y ≡ true → le y x ≡ true → x ≡ y) where
    -- Sorted lists without repeats that have the same elements are the same list.
    sorted_unique :
        (xs ys : List K)
        → IsSorted le xs
        → IsSorted le ys
        → NoRepeats xs
        → NoRepeats ys
        → ((k : K) → contains xs k ≡ contains ys k)
        → xs ≡ ys
    sorted_unique [] [] s t u v same = refl
    sorted_unique [] (y ∷ ys) s t u v same = cc (same y, contains_head y ys)
    sorted_unique (x ∷ xs) [] s t u v same = cc (same x, contains_head x xs)
    sorted_unique (x ∷ xs) (y ∷ ys) s t u v same =
        let heads : x ≡ y = elim (Bool-cases (x == y)) [
          | inl p ↦ (e.same_iff x y).0 p
          | inr p ↦
              let q : (y == x) ≡ false = ground (arith, p, e.same_iff x y, e.same_iff y x) in
              let x_later : contains ys x ≡ true = ground (arith, same x, contains_head x xs, q) in
              let y_later : contains xs y ≡ true = ground (arith, same y, contains_head y ys, p) in
              antisym x y (at_least_bound x y xs s.0 y_later) (at_least_bound y x ys t.0 x_later)
        ] in
        let tails = λ (k : K). tail_same x y xs ys heads u.0 v.0 k (same k) in
        ap₂ (λ z zs. z ∷ zs) heads (sorted_unique xs ys s.1 t.1 u.1 v.1 tails)

codes_le_antisym : (s t : Text) → codes_le s t ≡ true → codes_le t s ≡ true → s ≡ t
codes_le_antisym [] [] h k = refl
codes_le_antisym [] (b ∷ t) h k = cc
codes_le_antisym (a ∷ s) [] h k = cc
codes_le_antisym (a ∷ s) (b ∷ t) h k = ground (arith, codes_le_antisym s t)

codes_le_total : (s t : Text) → codes_le s t ≡ false → codes_le t s ≡ true
codes_le_total [] t h = cc
codes_le_total (a ∷ s) [] h = refl
codes_le_total (a ∷ s) (b ∷ t) h = ground (arith, codes_le_total s t)

codes_le_trans : (s t r : Text) → codes_le s t ≡ true → codes_le t r ≡ true → codes_le s r ≡ true
codes_le_trans [] t r h k = refl
codes_le_trans (a ∷ s) [] r h k = cc
codes_le_trans (a ∷ s) (b ∷ t) [] h k = cc
codes_le_trans (a ∷ s) (b ∷ t) (c ∷ r) h k = ground (arith, codes_le_trans s t r)

-- `sorted(set(xs))`
unfoldable pub sorted_set : List Text → List Text
sorted_set xs = sort_by codes_le (distinct xs)

pub contains-sorted_set : (xs : List Text) (s : Text) → contains (sorted_set xs) s ≡ contains xs s
unfolding sorted_set
contains-sorted_set xs s = any-sort_by codes_le (λ t. t == s) (distinct xs) ∙ contains-distinct s xs

pub NoRepeats-sorted_set : (xs : List Text) → NoRepeats (sorted_set xs)
unfolding sorted_set
NoRepeats-sorted_set xs = NoRepeats-sort_by codes_le (distinct xs) (NoRepeats-distinct xs)

pub sorted_set_unique :
    (xs ys : List Text)
    → ((s : Text) → contains xs s ≡ contains ys s)
    → sorted_set xs ≡ sorted_set ys
unfolding sorted_set
sorted_set_unique xs ys same =
    sorted_unique codes_le codes_le_antisym (sorted_set xs) (sorted_set ys)
      (sort_by-IsSorted codes_le codes_le_total codes_le_trans (distinct xs))
      (sort_by-IsSorted codes_le codes_le_total codes_le_trans (distinct ys))
      (NoRepeats-sorted_set xs) (NoRepeats-sorted_set ys)
      (λ s. contains-sorted_set xs s ∙ same s ∙ sym (contains-sorted_set ys s))
