-- ===== src/History/Gaps/Neighbours.antt =====
-- Which pairs of times are the gaps of a charger.
use mathlib.Core.Path.{subst}
use predictive_analysis.Common.{
  ℕ, ◌-◌, ◌*◌, ◌≤◌, ◌<◌, Bool, true, false, not, ◌&&◌, ◌||◌, Option, List, [], ◌∷◌, map, ◌≡◌, ◌∙◌,
  refl, sym, ap, arith, ltb, leb, eqb, any, contains, ◌==◌, nat_eq, All, Bool-cases, inl, inr, ◌⊎◌,
}
use predictive_analysis.Common.Sorting.{sort_by, IsSorted, any-sort_by}
use predictive_analysis.History.Sampling.{
  SamplingProfile, Paired, paired_le, sorted_times, analyze_sampling,
}
use predictive_analysis.History.Sampling.Totals.{sorted_times-IsSorted, not_below}
use predictive_analysis.History.Gaps.{
  HistoricalGap, GapDetector, threshold, gaps_over, profile_or, expected_for, detect_gaps,
  total_duration,
}
use predictive_analysis.History.Gaps.Bounds.{IsGapOver, detect_gaps-bounds}

-- The gap runs from the one time to the other.
abbrev pub runs : ℕ → ℕ → HistoricalGap → Bool
runs a b g = eqb g.gap_start a && eqb g.gap_end b

abbrev pub between : ℕ → ℕ → ℕ → Bool
between a b t = ltb a t && ltb t b

-- Both are event times, none lies between them, and they are further apart than the limit.
abbrev pub apart : ℕ → ℕ → ℕ → List ℕ → Bool
apart limit a b times =
    ltb limit ((b - a) * 20)
    && (contains times a && (contains times b && not (any (between a b) times)))

none_between :
    (a b : ℕ) (times : List ℕ) → All (λ t. leb b t ≡ true) times → any (between a b) times ≡ false
none_between a b [] h = refl
none_between a b (t ∷ times) h = ground (arith, none_between a b times h.1, h.0)

order : (a b : ℕ) → (a < b) ⊎ (a ≡ b) ⊎ (b < a)
order a b = ground arith

first_pair_met :
    (limit a b curr : ℕ) (times : List ℕ)
    → a < curr
    → b ≡ curr
    → All (λ t. leb curr t ≡ true) times
    → apart limit a b (a ∷ (curr ∷ times)) ≡ (ltb limit ((curr - a) * 20) && eqb curr b)
first_pair_met limit a b curr times h p k =
    let none_later : any (between a b) times ≡ false =
      none_between a b times (subst (λ c. All (λ t. leb c t ≡ true) times) (sym p) k) in
    ground (arith, h, p, none_later)

-- The head of a sorted list, which has no time before it.
first_pair :
    (limit a b curr : ℕ) (times : List ℕ)
    → a < curr
    → All (λ t. leb curr t ≡ true) times
    → apart limit a b (a ∷ (curr ∷ times)) ≡ (ltb limit ((curr - a) * 20) && eqb curr b)
first_pair limit a b curr times h k = elim (order b curr) [
  | inl p ↦ ground (arith, h, p, not_below b curr times p k)
  | inr (inl p) ↦ first_pair_met limit a b curr times h p k
  | inr (inr p) ↦ ground (arith, h, p)
]

runs-gaps_over :
    (limit : ℕ) (expected : Option ℕ) (a b prev curr : ℕ) (times : List ℕ)
    → any (runs a b) (gaps_over limit expected (prev ∷ (curr ∷ times))) ≡ (
        (ltb limit ((curr - prev) * 20) && (eqb prev a && eqb curr b))
        || any (runs a b) (gaps_over limit expected (curr ∷ times)))
runs-gaps_over limit expected a b prev curr times =
    elim (Bool-cases (ltb limit ((curr - prev) * 20))) [ inl p ↦ rw p refl | inr p ↦ rw p refl ]

-- A time that is not in the list starts no pair.
absent_apart :
    (limit a b : ℕ) (times : List ℕ) → contains times a ≡ false → apart limit a b times ≡ false
absent_apart limit a b times h = rw h (ground arith)

first_pair_added :
    (limit a b curr : ℕ) (times : List ℕ)
    → a < curr
    → All (λ t. leb curr t ≡ true) times
    → ((ltb limit ((curr - a) * 20) && (eqb a a && eqb curr b)) || apart limit a b (curr ∷ times))
      ≡ apart limit a b (a ∷ (curr ∷ times))
first_pair_added limit a b curr times h k =
    let absent : contains (curr ∷ times) a ≡ false =
      ground (arith, h, not_below a curr times h k) in
    rw (absent_apart limit a b (curr ∷ times) absent, first_pair limit a b curr times h k)
      (ground arith)

-- What the first of a sorted list adds to the pairs that are apart.
apart-cons :
    (limit a b prev curr : ℕ) (times : List ℕ)
    → IsSorted leb (prev ∷ (curr ∷ times))
    → ((ltb limit ((curr - prev) * 20) && (eqb prev a && eqb curr b))
        || apart limit a b (curr ∷ times))
      ≡ apart limit a b (prev ∷ (curr ∷ times))
apart-cons limit a b prev curr times h = elim (order a prev) [
  | inl p ↦
      let absent : contains (curr ∷ times) a ≡ false = not_below a prev (curr ∷ times) p h.0 in
      ground (arith, p, absent)
  | inr (inl p) ↦ elim (Bool-cases (ltb prev curr)) [
    | inl q ↦
        subst
          (λ c.
            ((ltb limit ((curr - c) * 20) && (eqb c a && eqb curr b))
              || apart limit a b (curr ∷ times))
            ≡ apart limit a b (c ∷ (curr ∷ times)))
          p (first_pair_added limit a b curr times (ground (arith, p, q)) h.1.0)
    | inr q ↦ ground (arith, p, q, h.0.0)
  ]
  | inr (inr p) ↦ ground (arith, p)
]

gaps_over-apart :
    (limit : ℕ) (expected : Option ℕ) (a b : ℕ) (times : List ℕ)
    → IsSorted leb times
    → any (runs a b) (gaps_over limit expected times) ≡ apart limit a b times
gaps_over-apart limit expected a b [] h = ground arith
gaps_over-apart limit expected a b (t ∷ []) h = ground arith
gaps_over-apart limit expected a b (prev ∷ (curr ∷ times)) h =
    runs-gaps_over limit expected a b prev curr times
    ∙ ap (λ rest. (ltb limit ((curr - prev) * 20) && (eqb prev a && eqb curr b)) || rest)
        (gaps_over-apart limit expected a b (curr ∷ times) h.1)
    ∙ apart-cons limit a b prev curr times h

-- The event times as they are given.
abbrev pub gap_times : List Paired → List ℕ
gap_times paired = map (λ (p : Paired). p.0) paired

any-map :
    (test : ℕ → Bool) (paired : List Paired)
    → any test (gap_times paired) ≡ any (λ (p : Paired). test p.0) paired
any-map test [] = refl
any-map test (p ∷ paired) = ground (arith, any-map test paired)

any-sorted_times :
    (test : ℕ → Bool) (paired : List Paired)
    → any test (sorted_times paired) ≡ any test (gap_times paired)
any-sorted_times test paired =
    any-map test (sort_by paired_le paired)
    ∙ any-sort_by paired_le (λ (p : Paired). test p.0) paired
    ∙ sym (any-map test paired)

any-detect_gaps :
    (policy : GapDetector) (paired : List Paired) (profile : Option SamplingProfile) (a b : ℕ)
    → any (runs a b) (detect_gaps policy paired profile)
      ≡ apart (threshold policy (expected_for (profile_or profile paired))) a b (gap_times paired)
unfolding detect_gaps
any-detect_gaps policy paired profile a b =
    let expected = expected_for (profile_or profile paired) in
    gaps_over-apart (threshold policy expected) expected a b (sorted_times paired)
      (sorted_times-IsSorted paired)
    ∙ rw
        (
          any-sorted_times (λ t. t == a) paired,
          any-sorted_times (λ t. t == b) paired,
          any-sorted_times (between a b) paired,
        )
        refl

-- For any two times, some gap runs from the one to the other exactly when both are event times, no event
-- time lies between them, and they are further apart than the threshold. Each gap lasts from its
-- start to its end, which are the event times before and after it, and together the gaps are not
-- longer than the duration that the times cover.
pub detect_gaps-apart :
    (policy : GapDetector) (paired : List Paired) (profile : Option SamplingProfile) (a b : ℕ)
    → (any (runs a b) (detect_gaps policy paired profile)
        ≡ apart
            (threshold policy (expected_for (profile_or profile paired)))
            a
            b
            (gap_times paired))
      × All
          (IsGapOver (threshold policy (expected_for (profile_or profile paired))))
          (detect_gaps policy paired profile)
      × (total_duration (detect_gaps policy paired profile)
          ≤ (analyze_sampling paired).coverage_duration_seconds)
detect_gaps-apart policy paired profile a b =
    let bounds = detect_gaps-bounds policy paired profile in
    (any-detect_gaps policy paired profile a b, bounds.1, bounds.0)
