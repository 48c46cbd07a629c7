-- ===== src/Common/Sums.antt =====
-- Sums over the distinct keys of a dict.
use Prim.Native.Nat.{ℕ, ◌+◌}
use mathlib.Core.Path.{◌≡◌, refl, sym, ◌∙◌, ap}
use mathlib.Core.Logic.{inl, inr}
use mathlib.Core.Bool.{Bool, true, false, not, ◌||◌}
use mathlib.Core.List.{List, [], ◌∷◌, ◌++◌}
use native.Mathlib.Omega.{arith}
use predictive_analysis.Common.Tests.{Eq, ◌==◌, if◌then◌else◌, Bool-cases}
use predictive_analysis.Common.Lists.{contains, distinct, length, All, select}
use predictive_analysis.Common.Dict.{Dict, keys, get_or, append_to, put, contains-keys-put}
use predictive_analysis.Common.Sorting.{sort_by, insert_by}

module _ {ℓ} {K : Type ℓ} where
  abbrev pub sum_over : (K → ℕ) → List K → ℕ
  sum_over f [] = 0
  sum_over f (k ∷ ks) = f k + sum_over f ks

  module _ (le : K → K → Bool) (f : K → ℕ) where
    sum_over-insert_by :
        (k : K) (ks : List K) → sum_over f (insert_by le k ks) ≡ f k + sum_over f ks
    sum_over-insert_by k [] = refl
    sum_over-insert_by k (j ∷ ks) = ground (arith, sum_over-insert_by k ks)

    pub sum_over-sort_by : (ks : List K) → sum_over f (sort_by le ks) ≡ sum_over f ks
    unfolding sort_by
    sum_over-sort_by [] = refl
    sum_over-sort_by (k ∷ ks) =
        omega (arith, sum_over-insert_by k (sort_by le ks), sum_over-sort_by ks)

module _ {ℓ} {K : Type ℓ} ⦃e : Eq K⦄ where
  All-contains-cons :
      (x : K) (xs ks : List K)
      → All (λ k. contains xs k ≡ true) ks
      → All (λ k. contains (x ∷ xs) k ≡ true) ks
  All-contains-cons x xs [] h = tt
  All-contains-cons x xs (k ∷ ks) h = (ground (arith, h.0), All-contains-cons x xs ks h.1)

  pub All-contains : (ks js : List K) → All (λ k. contains (ks ++ js) k ≡ true) ks
  All-contains [] js = tt
  All-contains (k ∷ ks) js =
      (rw ((e.same_iff k k).1 refl) refl, All-contains-cons k (ks ++ js) ks (All-contains ks js))

  -- No element occurs again later.
  abbrev pub NoRepeats : List K → Type 0
  NoRepeats [] = Unit
  NoRepeats (k ∷ ks) = (contains ks k ≡ false) × NoRepeats ks

  met : (j k : K) (ks : List K) → contains ks j ≡ true → contains ks k ≡ (j == k || contains ks k)
  met j k ks m = elim (Bool-cases (j == k)) [
    | inl p ↦ rw p (ap (contains ks) (sym ((e.same_iff j k).0 p)) ∙ m)
    | inr p ↦ rw p refl
  ]

  pub contains-distinct : (k : K) (ks : List K) → contains (distinct ks) k ≡ contains ks k
  contains-distinct k [] = refl
  contains-distinct k (j ∷ ks) = elim (Bool-cases (contains (distinct ks) j)) [
    | inl m ↦ rw m (contains-distinct k ks ∙ met j k ks (sym (contains-distinct j ks) ∙ m))
    | inr m ↦ rw (m, contains-distinct k ks) refl
  ]

  pub All-contains-distinct :
      (ks js : List K)
      → All (λ k. contains js k ≡ true) ks
      → All (λ k. contains (distinct js) k ≡ true) ks
  All-contains-distinct [] js h = tt
  All-contains-distinct (k ∷ ks) js h =
      (contains-distinct k js ∙ h.0, All-contains-distinct ks js h.1)

  pub All-distinct : (P : K → Type 0) (ks : List K) → All P ks → All P (distinct ks)
  All-distinct P [] h = tt
  All-distinct P (k ∷ ks) h = elim (Bool-cases (contains (distinct ks) k)) [
    | inl m ↦ rw m (All-distinct P ks h.1)
    | inr m ↦ rw m (h.0, All-distinct P ks h.1)
  ]

  pub NoRepeats-distinct : (ks : List K) → NoRepeats (distinct ks)
  NoRepeats-distinct [] = tt
  NoRepeats-distinct (k ∷ ks) = elim (Bool-cases (contains (distinct ks) k)) [
    | inl m ↦ rw m (NoRepeats-distinct ks)
    | inr m ↦ rw m (m, NoRepeats-distinct ks)
  ]

  ne_sym : (j k : K) → (j == k) ≡ false → (k == j) ≡ false
  ne_sym j k p = ground (arith, e.same_iff j k, e.same_iff k j)

  sum_over-zero : (ks : List K) → sum_over (λ k. 0) ks ≡ 0
  sum_over-zero [] = refl
  sum_over-zero (k ∷ ks) = omega (arith, sum_over-zero ks)

  -- A sum where one element counts for n and else as in f, in which it counts for nothing.
  sum_over-one :
      (k : K) (n : ℕ) (f : K → ℕ) (ks : List K)
      → f k ≡ 0
      → NoRepeats ks
      → sum_over (λ j. if k == j then n else f j) ks
        ≡ (if contains ks k then n else 0) + sum_over f ks
  sum_over-one k n f [] z h = omega arith
  sum_over-one k n f (j ∷ ks) z h = elim (Bool-cases (j == k)) [
    | inl p ↦
        let q : j ≡ k = (e.same_iff j k).0 p in
        rw (p, (e.same_iff k j).1 (sym q), sum_over-one k n f ks z h.1)
          (rw (sym (ap (contains ks) q) ∙ h.0) (omega (arith, ap f q ∙ z)))
    | inr p ↦ rw (p, ne_sym j k p, sum_over-one k n f ks z h.1) (omega arith)
  ]

  module _ {κ} {V : Type κ} where
    pub contains-append_to :
        (k j : K) (v : V) (d : Dict K (List V))
        → contains (keys (append_to k v d)) j ≡ (k == j || contains (keys d) j)
    contains-append_to k j v [] = refl
    contains-append_to k j v ((i, vs) ∷ d) =
        ground (arith, contains-append_to k j v d, e.same_iff i k, e.same_iff i j, e.same_iff k j)

    pub NoRepeats-append_to :
        (k : K) (v : V) (d : Dict K (List V))
        → NoRepeats (keys d)
        → NoRepeats (keys (append_to k v d))
    NoRepeats-append_to k v [] h = (refl, tt)
    NoRepeats-append_to k v ((i, vs) ∷ d) h = elim (Bool-cases (i == k)) [
      | inl p ↦ rw p h
      | inr p ↦
          rw p (contains-append_to k i v d ∙ rw (ne_sym i k p) h.0, NoRepeats-append_to k v d h.1)
    ]

    -- The values of a dict, measured; the same over the keys, if none occurs twice.
    abbrev pub lengths : Dict K (List V) → ℕ
    lengths [] = 0
    lengths ((k, vs) ∷ d) = length vs + lengths d

    abbrev pub length_at : Dict K (List V) → K → ℕ
    length_at d k = length (get_or k [] d)

    length_at-fresh :
        (k : K) (d : Dict K (List V)) → contains (keys d) k ≡ false → length_at d k ≡ 0
    length_at-fresh k [] h = refl
    length_at-fresh k ((i, vs) ∷ d) h = ground (arith, length_at-fresh k d)

    sum_over-cons :
        (k : K) (vs : List V) (d : Dict K (List V)) (ks : List K)
        → sum_over (length_at ((k, vs) ∷ d)) ks
          ≡ sum_over (λ j. if k == j then length vs else length_at d j) ks
    sum_over-cons k vs d [] = refl
    sum_over-cons k vs d (j ∷ ks) = ground (arith, sum_over-cons k vs d ks)

    -- Over any list of distinct keys that has the dict's, the lengths at the keys add up to the
    -- lengths of the values.
    pub sum_over-lengths :
        (d : Dict K (List V)) (ks : List K)
        → NoRepeats (keys d)
        → NoRepeats ks
        → All (λ k. contains ks k ≡ true) (keys d)
        → sum_over (length_at d) ks ≡ lengths d
    sum_over-lengths [] ks u n h = sum_over-zero ks
    sum_over-lengths ((k, vs) ∷ d) ks u n h =
        sum_over-cons k vs d ks
        ∙ (sum_over-one k (length vs) (length_at d) ks (length_at-fresh k d u.0) n
            ∙ rw h.0 (ap (λ m. length vs + m) (sum_over-lengths d ks u.1 n h.1)))

module _ {ℓ} {K : Type ℓ} ⦃e : Eq K⦄ where
  length-select_sum :
      (p : K → Bool) (ks : List K) → length (select p ks) ≡ sum_over (λ k. if p k then 1 else 0) ks
  length-select_sum p [] = refl
  length-select_sum p (k ∷ ks) = ground (arith, length-select_sum p ks)

  sum_over_agree :
      (f g : K → ℕ) (ks : List K) → ((k : K) → f k ≡ g k) → sum_over f ks ≡ sum_over g ks
  sum_over_agree f g [] h = refl
  sum_over_agree f g (k ∷ ks) h = omega (arith, h k, sum_over_agree f g ks h)

  -- Two lists without repeats share as many elements seen from either.
  pub length-shared :
      (ks js : List K)
      → NoRepeats ks
      → NoRepeats js
      → length (select (contains js) ks) ≡ length (select (contains ks) js)
  length-shared [] js h u = sym (length-select_sum (λ k. false) js ∙ sum_over-zero js)
  length-shared (k ∷ ks) js h u =
      let shared : (j : K) → ℕ = λ j. if contains ks j then 1 else 0 in
      let split =
        sum_over_agree (λ j. if k == j then 1 else shared j)
          (λ j. if contains (k ∷ ks) j then 1 else 0) js (λ j. ground arith) in
      let more = sum_over-one k 1 shared js (rw h.0 refl) u in
      let left = length-select_sum (contains (k ∷ ks)) js in
      let right = length-select_sum (contains ks) js in
      ground (arith, length-shared ks js h.1 u, split, more, left, right)

  pub NoRepeats-put :
      {V : Type 0} (k : K) (v : V) (d : Dict K V)
      → NoRepeats (keys d)
      → NoRepeats (keys (put k v d))
  NoRepeats-put k v [] h = (refl, tt)
  NoRepeats-put k v ((i, w) ∷ d) h = elim (Bool-cases (i == k)) [
    | inl p ↦ rw p h
    | inr p ↦ rw p (contains-keys-put k i v d ∙ rw (ne_sym i k p) h.0, NoRepeats-put k v d h.1)
  ]

  pub length-select-not :
      (p : K → Bool) (ks : List K)
      → length (select p ks) + length (select (λ k. not (p k)) ks) ≡ length ks
  length-select-not p [] = refl
  length-select-not p (k ∷ ks) = ground (arith, length-select-not p ks)
