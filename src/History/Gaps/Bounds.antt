-- ===== src/History/Gaps/Bounds.antt =====
-- How much time the gaps of a charger take, and what makes its history enough for research.
use predictive_analysis.Common.{
  ℕ, ◌+◌, ◌-◌, ◌*◌, ◌≤◌, ◌<◌, Bool, true, false, not, ◌&&◌, Option, none, List, [], ◌∷◌, ◌≡◌, ◌∙◌,
  ◌↔◌, refl, ap, arith, ltb, leb, All, Bool-cases, inl, inr,
}
use predictive_analysis.Common.Sorting.{IsSorted}
use predictive_analysis.History.Sampling.{
  SamplingProfile, Paired, sorted_times, deltas, coverage_of, analyze_sampling,
}
use predictive_analysis.History.Sampling.Totals.{
  sorted_times-IsSorted, sum_of, coverage_of-sum, profile_of-counts,
}
use predictive_analysis.History.Gaps.{
  HistoricalGap, GapDetector, threshold, gaps_over, profile_or, expected_for, detect_gaps,
  total_duration, reasons_of, no_reasons, history_days_of, evaluate_eligibility, when, Reason,
}

-- The gap is longer than the limit and lasts from its start to its end, which are the event times
-- before and after it.
abbrev pub IsGapOver : ℕ → HistoricalGap → Type 0
IsGapOver limit g =
    (limit < g.gap_duration_seconds * 20)
    × (g.gap_start + g.gap_duration_seconds ≡ g.gap_end)
    × (g.previous_event_time ≡ g.gap_start)
    × (g.next_event_time ≡ g.gap_end)

gaps_over-bounds :
    (limit : ℕ) (expected : Option ℕ) (times : List ℕ)
    → IsSorted leb times
    → (total_duration (gaps_over limit expected times) ≤ sum_of (deltas times))
      × All (IsGapOver limit) (gaps_over limit expected times)
gaps_over-bounds limit expected [] h = (omega arith, tt)
gaps_over-bounds limit expected (prev ∷ []) h = (omega arith, tt)
gaps_over-bounds limit expected (prev ∷ (curr ∷ times)) h =
    let rest = gaps_over-bounds limit expected (curr ∷ times) h.1 in
    let ordered : prev ≤ curr = ground (arith, h.0.0) in
    elim (Bool-cases (ltb limit ((curr - prev) * 20))) [
      | inl p ↦ rw p (
        ground (arith, p, ordered, rest.0),
        ((ground (arith, p), omega (arith, ordered), refl, refl), rest.1),
      )
      | inr p ↦ rw p (ground (arith, rest.0), rest.1)
    ]

-- Each gap is longer than the threshold and lasts from one time to a later one, and together the gaps
-- are not longer than the duration that the times cover.
pub detect_gaps-bounds :
    (policy : GapDetector) (paired : List Paired) (profile : Option SamplingProfile)
    → (total_duration (detect_gaps policy paired profile)
        ≤ (analyze_sampling paired).coverage_duration_seconds)
      × All
          (IsGapOver (threshold policy (expected_for (profile_or profile paired))))
          (detect_gaps policy paired profile)
unfolding detect_gaps analyze_sampling
detect_gaps-bounds policy paired profile =
    let times = sorted_times paired in
    let sorted = sorted_times-IsSorted paired in
    let expected = expected_for (profile_or profile paired) in
    let gaps = gaps_over-bounds (threshold policy expected) expected times sorted in
    (
      omega (
        arith,
        gaps.0,
        coverage_of-sum times sorted,
        (profile_of-counts times (deltas times) (coverage_of times)).3,
      ),
      gaps.1,
    )

no_reasons-when :
    (test : Bool) (reason : Reason) (rest : List Reason)
    → no_reasons (when test reason rest) ≡ (not test && no_reasons rest)
no_reasons-when true reason rest = refl
no_reasons-when false reason rest = refl

reasons_iff :
    (days observations coverage unobserved : ℕ)
    → unobserved ≤ coverage
    → (no_reasons (reasons_of days observations coverage unobserved) ≡ true)
      ↔ ((7 ≤ days) × (100 ≤ observations) × (unobserved * 100 ≤ coverage * 35))
reasons_iff days observations coverage unobserved h =
    let parts : no_reasons (reasons_of days observations coverage unobserved) ≡ (
        not (ltb days 7)
        && (not (ltb observations 100)
            && (not (ltb 0 coverage && ltb (coverage * 35) (unobserved * 100)) && true))) =
      no_reasons-when _ Reason.insufficient_depth _
      ∙ ap (λ b. not (ltb days 7) && b)
          (no_reasons-when _ Reason.insufficient_observations _
            ∙ ap (λ b. not (ltb observations 100) && b)
                (no_reasons-when _ Reason.excessive_gaps [])) in
    rw parts (λ k. ground (arith, k), λ k. ground (arith, k))

ready_iff :
    (profile : SamplingProfile) (gaps : List HistoricalGap) (signal_count active_days : ℕ)
    → total_duration gaps ≤ profile.coverage_duration_seconds
    → ((evaluate_eligibility profile gaps signal_count active_days).pattern_research_ready ≡ true)
      ↔ ((7 ≤ history_days_of active_days profile.coverage_duration_seconds)
          × (100 ≤ profile.observation_count)
          × (total_duration gaps * 100 ≤ profile.coverage_duration_seconds * 35))
unfolding evaluate_eligibility
ready_iff profile gaps signal_count active_days h =
    let days = history_days_of active_days profile.coverage_duration_seconds in
    let enough =
      reasons_iff days profile.observation_count profile.coverage_duration_seconds
        (total_duration gaps) h in
    elim (Bool-cases (leb profile.observation_count 1)) [
      | inl p ↦ rw p (λ k. cc k, λ k. absurd (ground (arith, p, k.1)))
      | inr p ↦ rw p enough
    ]

-- A charger's history, with the gaps of its own times, is ready for research if and only if it has seven
-- days, a hundred observations, and gaps in 35 percent of the covered time at most.
pub evaluate_eligibility-ready :
    (policy : GapDetector) (paired : List Paired) (signal_count active_days : ℕ)
    → let profile = analyze_sampling paired in
      let gaps = detect_gaps policy paired none in
      ((evaluate_eligibility profile gaps signal_count active_days).pattern_research_ready ≡ true)
      ↔ ((7 ≤ history_days_of active_days profile.coverage_duration_seconds)
          × (100 ≤ profile.observation_count)
          × (total_duration gaps * 100 ≤ profile.coverage_duration_seconds * 35))
unfolding evaluate_eligibility
evaluate_eligibility-ready policy paired signal_count active_days =
    ready_iff (analyze_sampling paired) (detect_gaps policy paired none) signal_count active_days
      (detect_gaps-bounds policy paired none).0
