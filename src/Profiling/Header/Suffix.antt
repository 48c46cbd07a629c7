-- ===== src/Profiling/Header/Suffix.antt =====
-- The loop that looks for a free suffix ends: a name in use blocks one suffix at most.
use predictive_analysis.Common.{
  ℕ, zero, suc, ◌+◌, ◌≤◌, ◌<◌, Bool, true, false, ◌≡◌, ap, refl, Option, none, some, List, [], ◌∷◌,
  ◌++◌, arith, leb, ◌==◌, if◌then◌else◌, contains, length, Bool-cases, inl, inr,
}
use predictive_analysis.Common.Codes.{
  Text, text_eq, number, read_number, read_number-number, after_prefix, after_prefix-append,
  same_codes_iff,
}
use predictive_analysis.Profiling.Header.{with_suffix, free_suffix, disambiguate, underscore}

abbrev at_least : ℕ → Option Text → Bool
at_least n none = false
at_least n (some digits) = leb n (read_number digits)

-- The name reads as the canonical name with a suffix from n on.
abbrev blocks : Text → ℕ → Text → Bool
blocks canonical n name = at_least n (after_prefix (canonical ++ underscore ∷ []) name)

abbrev blockers : Text → ℕ → List Text → ℕ
blockers canonical n [] = 0
blockers canonical n (name ∷ names) =
    (if blocks canonical n name then 1 else 0) + blockers canonical n names

blockers-le :
    (canonical : Text) (n : ℕ) (names : List Text) → blockers canonical n names ≤ length names
blockers-le canonical n [] = omega arith
blockers-le canonical n (name ∷ names) = ground (arith, blockers-le canonical n names)

at_least-suc :
    (n : ℕ) (digits : Option Text) → at_least (n + 1) digits ≡ true → at_least n digits ≡ true
at_least-suc n none h = cc
at_least-suc n (some digits) h = ground arith

blockers-suc :
    (canonical : Text) (n : ℕ) (names : List Text)
    → blockers canonical (n + 1) names ≤ blockers canonical n names
blockers-suc canonical n [] = omega arith
blockers-suc canonical n (name ∷ names) = ground (
  arith,
  blockers-suc canonical n names,
  at_least-suc n (after_prefix (canonical ++ underscore ∷ []) name),
)

append-cons : (s : Text) (c : ℕ) (t : Text) → s ++ (c ∷ t) ≡ (s ++ c ∷ []) ++ t
append-cons [] c t = refl
append-cons (a ∷ s) c t = ap (λ r. a ∷ r) (append-cons s c t)

suffix_read :
    (canonical : Text) (n : ℕ)
    → after_prefix (canonical ++ underscore ∷ []) (with_suffix canonical n) ≡ some (number n)
suffix_read canonical n =
    rw (append-cons canonical underscore (number n))
      (after_prefix-append (canonical ++ underscore ∷ []) (number n))

-- The suffix blocks itself, and no later one.
blocks_self :
    (canonical : Text) (n : ℕ)
    → (blocks canonical n (with_suffix canonical n) ≡ true)
      × (blocks canonical (n + 1) (with_suffix canonical n) ≡ false)
blocks_self canonical n = (
  rw (suffix_read canonical n, read_number-number n) (ground arith),
  rw (suffix_read canonical n, read_number-number n) (ground arith),
)

blockers-met :
    (canonical : Text) (n : ℕ) (names : List Text)
    → contains names (with_suffix canonical n) ≡ true
    → blockers canonical (n + 1) names < blockers canonical n names
blockers-met canonical n [] h = cc
blockers-met canonical n (name ∷ names) h = elim (Bool-cases (name == with_suffix canonical n)) [
  | inl p ↦
      let q : name ≡ with_suffix canonical n =
        (same_codes_iff name (with_suffix canonical n)).0 p in
      rw q (
        rw ((blocks_self canonical n).0, (blocks_self canonical n).1)
          (omega (arith, blockers-suc canonical n names)))
  | inr p ↦ ground (
    arith,
    blockers-met canonical n names (rw p at h),
    at_least-suc n (after_prefix (canonical ++ underscore ∷ []) name),
  )
]

-- If the fuel is at least the number of names that block a suffix from here on, the suffix that the
-- loop finds is free.
pub free_suffix-fresh :
    (fuel : ℕ) (used : List Text) (canonical : Text) (n : ℕ)
    → blockers canonical n used ≤ fuel
    → contains used (with_suffix canonical (free_suffix fuel used canonical n)) ≡ false
unfolding free_suffix
free_suffix-fresh zero used canonical n h =
    elim (Bool-cases (contains used (with_suffix canonical n))) [
      | inl p ↦ absurd (omega (arith, blockers-met canonical n used p))
      | inr p ↦ p
    ]
free_suffix-fresh (suc fuel) used canonical n h =
    elim (Bool-cases (contains used (with_suffix canonical n))) [
      | inl p ↦ rw p (
          free_suffix-fresh fuel used canonical (n + 1)
            (omega (arith, blockers-met canonical n used p)))
      | inr p ↦ rw p p
    ]

-- As many turns as there are names in use are enough for the loop to find a free suffix, so the name
-- that a field gets is in use by no field before it.
pub disambiguate-fresh :
    (used : List Text) (canonical : Text) → contains used (disambiguate used canonical) ≡ false
unfolding disambiguate
disambiguate-fresh used canonical = elim (Bool-cases (contains used canonical)) [
  | inl p ↦ rw p (free_suffix-fresh (length used) used canonical 2 (blockers-le canonical 2 used))
  | inr p ↦ rw p p
]
