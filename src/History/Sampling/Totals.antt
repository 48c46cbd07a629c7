-- ===== src/History/Sampling/Totals.antt =====
-- What the profile of the times of a charger adds up to.
use predictive_analysis.Common.{
  ℕ, ◌+◌, ◌<◌, true, false, List, [], ◌∷◌, map, ◌≡◌, ◌∙◌, refl, arith, leb, eqb, length, last?,
  contains, distinct, nat_eq, All, Bool-cases, inl, inr,
}
use predictive_analysis.Common.Sorting.{sort_by, IsSorted, sort_by-IsSorted}
use predictive_analysis.Common.Sums.{contains-distinct}
use predictive_analysis.History.Sampling.{
  Paired, paired_le, sorted_times, deltas, same_seconds, value_or, coverage_of, profile_of,
  analyze_sampling,
}

paired_le_total : (a b : Paired) → paired_le a b ≡ false → paired_le b a ≡ true
paired_le_total (a, m) (b, n) h = ground arith

paired_le_trans :
    (a b c : Paired) → paired_le a b ≡ true → paired_le b c ≡ true → paired_le a c ≡ true
paired_le_trans (a, m) (b, n) (c, o) h k = ground arith

times_from :
    (p : Paired) (ps : List Paired)
    → All (λ q. paired_le p q ≡ true) ps
    → All (λ t. leb p.0 t ≡ true) (map (λ (q : Paired). q.0) ps)
times_from p [] h = tt
times_from p (q ∷ ps) h = (ground (arith, h.0), times_from p ps h.1)

times-IsSorted :
    (ps : List Paired) → IsSorted paired_le ps → IsSorted leb (map (λ (q : Paired). q.0) ps)
times-IsSorted [] h = tt
times-IsSorted (p ∷ ps) h = (times_from p ps h.0, times-IsSorted ps h.1)

pub sorted_times-IsSorted : (paired : List Paired) → IsSorted leb (sorted_times paired)
sorted_times-IsSorted paired =
    times-IsSorted (sort_by paired_le paired)
      (sort_by-IsSorted paired_le paired_le_total paired_le_trans paired)

-- A time below all of a list is not in it.
pub not_below :
    (a b : ℕ) (times : List ℕ) → a < b → All (λ t. leb b t ≡ true) times → contains times a ≡ false
not_below a b [] h k = refl
not_below a b (t ∷ times) h k = ground (arith, not_below a b times h k.1, k.0)

distinct-same_seconds :
    (times : List ℕ)
    → IsSorted leb times
    → length (distinct times) + same_seconds times ≡ length times
distinct-same_seconds [] h = omega arith
distinct-same_seconds (a ∷ []) h = omega arith
distinct-same_seconds (a ∷ (b ∷ times)) h = elim (Bool-cases (eqb a b)) [
  | inl p ↦
      let met : contains (distinct (b ∷ times)) a ≡ true =
        contains-distinct a (b ∷ times) ∙ ground (arith, p) in
      rw (p, met) (omega (arith, distinct-same_seconds (b ∷ times) h.1))
  | inr p ↦
      let below : a < b = ground (arith, p, h.0.0) in
      let met : contains (distinct (b ∷ times)) a ≡ false =
        contains-distinct a (b ∷ times) ∙ ground (arith, below, not_below a b times below h.1.0) in
      rw (p, met) (omega (arith, distinct-same_seconds (b ∷ times) h.1))
]

abbrev pub sum_of : List ℕ → ℕ
sum_of [] = 0
sum_of (n ∷ ns) = n + sum_of ns

-- The deltas of a sorted list lead from its first to its last time.
telescope :
    (a : ℕ) (times : List ℕ)
    → IsSorted leb (a ∷ times)
    → a + sum_of (deltas (a ∷ times)) ≡ value_or 0 (last? (a ∷ times))
telescope a [] h = omega arith
telescope a (b ∷ times) h = ground (arith, telescope b times h.1, h.0.0)

pub coverage_of-sum :
    (times : List ℕ) → IsSorted leb times → coverage_of times ≡ sum_of (deltas times)
coverage_of-sum [] h = omega arith
coverage_of-sum (a ∷ times) h = omega (arith, telescope a times h)

pub profile_of-counts :
    (times ds : List ℕ) (coverage : ℕ)
    → ((profile_of times ds coverage).observation_count ≡ length times)
      × ((profile_of times ds coverage).distinct_timestamps ≡ length (distinct times))
      × ((profile_of times ds coverage).same_second_frame_count ≡ same_seconds times)
      × ((profile_of times ds coverage).coverage_duration_seconds ≡ coverage)
profile_of-counts times [] coverage = (refl, refl, refl, refl)
profile_of-counts times (d ∷ ds) coverage = (refl, refl, refl, refl)

-- In the profile of the times of a charger, every frame starts a new second or repeats one, and the
-- positive intervals between the sorted times add up to the duration that is covered.
pub analyze_sampling-totals :
    (paired : List Paired)
    → ((analyze_sampling paired).distinct_timestamps
          + (analyze_sampling paired).same_second_frame_count
        ≡ (analyze_sampling paired).observation_count)
      × ((analyze_sampling paired).coverage_duration_seconds
          ≡ sum_of (deltas (sorted_times paired)))
unfolding analyze_sampling
analyze_sampling-totals paired =
    let times = sorted_times paired in
    let sorted = sorted_times-IsSorted paired in
    let counts = profile_of-counts times (deltas times) (coverage_of times) in
    (
      omega (arith, counts.0, counts.1, counts.2, distinct-same_seconds times sorted),
      counts.3 ∙ coverage_of-sum times sorted,
    )
