-- ===== src/Ingestion/Coverage/Gaps.antt =====
-- The gaps of a day lie inside its span, and a longer gap is no less severe.
use predictive_analysis.Common.{
  ℕ, ◌+◌, ◌-◌, ◌/◌, ◌≤◌, List, [], ◌∷◌, ◌≡◌, true, false, String, nat_eq, arith, All, leb,
  Bool-cases, inl, inr,
}
use predictive_analysis.Common.Sorting.{IsSorted, sort_by-IsSorted}
use predictive_analysis.Ingestion.Coverage.{
  CoveragePolicy, GapSeverity, minor, moderate, major, critical, classify_gap, gaps_from,
  detect_gaps, gap_between, gap_threshold, total_gap, last_or, span_of, FileContribution,
  day_timestamps, count_files,
}
use predictive_analysis.Common.Dict.{keys}
use predictive_analysis.Ingestion.Coverage.Evaluation.{evaluate_charger_day}

abbrev pub rank : GapSeverity → ℕ
rank minor = 0
rank moderate = 1
rank major = 2
rank critical = 3

-- A longer gap is at least as severe as a shorter one, whatever the configured bands are.
pub classify_gap_mono :
    (p : CoveragePolicy) (shorter longer : ℕ)
    → shorter ≤ longer
    → rank (classify_gap p shorter) ≤ rank (classify_gap p longer)
unfolding classify_gap
classify_gap_mono p shorter longer h = ground arith

floors : (a b c : ℕ) → a ≤ b → b ≤ c → (b - a) / 1000000 + (c - b) / 1000000 ≤ (c - a) / 1000000
floors a b c h k = omega arith

last_or-le :
    (t : ℕ) (ts : List ℕ) → All (λ u. leb t u ≡ true) ts → IsSorted leb ts → t ≤ last_or t ts
last_or-le t [] h k = omega arith
last_or-le t (u ∷ ts) h k = ground (arith, h.0, last_or-le u ts k.0 k.1)

total_gap-gaps_from :
    (p : CoveragePolicy) (t : ℕ) (ts : List ℕ)
    → All (λ u. leb t u ≡ true) ts
    → IsSorted leb ts
    → total_gap (gaps_from p t ts) ≤ (last_or t ts - t) / 1000000
unfolding gaps_from gap_between
total_gap-gaps_from p t [] h k = omega arith
total_gap-gaps_from p t (u ∷ ts) h k =
    let ih = total_gap-gaps_from p u ts k.0 k.1 in
    let t_le : t ≤ u = ground (arith, h.0) in
    let bound = floors t u (last_or u ts) t_le (last_or-le u ts k.0 k.1) in
    elim (Bool-cases (leb (u - t) (gap_threshold p))) [
      | inl q ↦ rw q (omega (arith, ih, bound))
      | inr q ↦ rw q (omega (arith, ih, bound))
    ]

total_gap-detect_gaps :
    (p : CoveragePolicy) (ts : List ℕ) → IsSorted leb ts → total_gap (detect_gaps p ts) ≤ span_of ts
unfolding detect_gaps
total_gap-detect_gaps p [] h = omega arith
total_gap-detect_gaps p (t ∷ ts) h = total_gap-gaps_from p t ts h.0 h.1

leb_total : (a b : ℕ) → leb a b ≡ false → leb b a ≡ true
leb_total a b h = ground arith

leb_trans : (a b c : ℕ) → leb a b ≡ true → leb b c ≡ true → leb a c ≡ true
leb_trans a b c h k = ground arith

-- The time that is lost in gaps is at most the time between the first and the last observation.
pub total_gap-evaluate_charger_day :
    (charger_id : String) (day_start day_end : ℕ) (items : List FileContribution)
    (p : CoveragePolicy)
    → let e = evaluate_charger_day charger_id day_start day_end items p in
      e.total_gap_seconds ≤ e.coverage_seconds
unfolding evaluate_charger_day day_timestamps
total_gap-evaluate_charger_day charger_id day_start day_end items p =
    total_gap-detect_gaps p (day_timestamps day_start day_end items)
      (sort_by-IsSorted leb leb_total leb_trans (keys (count_files day_start day_end items [])))
