-- ===== src/Examples/FileDays.antt =====
-- The days of a small file, in a zone five and a half hours ahead.
use predictive_analysis.Common.{
  nat_eq, ℕ, ◌+◌, ◌-◌, some, List, [], ◌∷◌, ◌≡◌, refl, map, any, contains,
}
use predictive_analysis.Common.Dict.{Dict}
use predictive_analysis.Common.Codes.{Text}
use predictive_analysis.Common.Text.{codes}
use predictive_analysis.Common.Sorting.{sort_by}
use predictive_analysis.Ingestion.FileDays.{
  build_file_days, contribution_of, timestamps_utc, dominant_identifier,
}
use predictive_analysis.Ingestion.FileDays.RoundTrip.{build_file_days-timestamps_utc}

abbrev local_clock : ℕ → ℕ
local_clock t = t + 19800000000

abbrev at_local_clock : ℕ → ℕ
at_local_clock w = w - 19800000000

-- Late in the evening of one day, and early on the next.
abbrev two_stamps : List ℕ
two_stamps = 80000000000 ∷ (1000000 ∷ [])

abbrev two_chargers : Dict Text ℕ
two_chargers = (codes "A", 4) ∷ ((codes "B", 9) ∷ [])

two_days :
    map
      (λ c. c.event_second_offsets)
      (build_file_days local_clock at_local_clock two_stamps two_chargers [])
    ≡ (19801 ∷ []) ∷ ((13400 ∷ []) ∷ [])
unfolding build_file_days contribution_of sort_by
two_days = refl

busier_charger : dominant_identifier two_chargers ≡ some (codes "B")
unfolding dominant_identifier sort_by
busier_charger = refl

build_file_days-timestamps_utc_example :
    any
      (λ c. contains (timestamps_utc local_clock at_local_clock c) 1000000)
      (build_file_days local_clock at_local_clock two_stamps two_chargers [])
    ≡ contains two_stamps 1000000
build_file_days-timestamps_utc_example =
    build_file_days-timestamps_utc local_clock at_local_clock two_stamps two_chargers [] 1000000
      ((refl, refl), ((refl, refl), tt))
