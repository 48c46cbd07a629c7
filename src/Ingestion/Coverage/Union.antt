-- ===== src/Ingestion/Coverage/Union.antt =====
-- The timestamps of a charger-day are the union of those of its files.
use predictive_analysis.Common.{
  ℕ, ◌+◌, Bool, false, ◌||◌, ◌&&◌, List, [], ◌∷◌, ◌≡◌, refl, ◌∙◌, ap, arith, any, select, distinct,
  contains, ◌==◌, nat_eq, leb, eqb_iff, Bool-cases, inl, inr,
}
use predictive_analysis.Common.Dict.{Dict, get_or, put, keys}
use predictive_analysis.Common.Sorting.{any-sort_by}
use predictive_analysis.Common.Sums.{contains-distinct}
use predictive_analysis.Ingestion.Coverage.{
  FileContribution, in_day, count_stamps, count_files, day_timestamps,
}

contains-put :
    (k v t : ℕ) (d : Dict ℕ ℕ) → contains (keys (put k v d)) t ≡ (k == t || contains (keys d) t)
contains-put k v t [] = ground arith
contains-put k v t ((j, w) ∷ d) = ground (arith, contains-put k v t d, eqb_iff j k)

contains-count_stamps :
    (stamps : List ℕ) (seen : Dict ℕ ℕ) (t : ℕ)
    → contains (keys (count_stamps stamps seen)) t ≡ (contains stamps t || contains (keys seen) t)
contains-count_stamps [] seen t = refl
contains-count_stamps (s ∷ stamps) seen t =
    let v = get_or s 0 seen + 1 in
    ground (arith, contains-count_stamps stamps (put s v seen) t, contains-put s v t seen)

contains-select :
    (p : ℕ → Bool) (ts : List ℕ) (t : ℕ) → contains (select p ts) t ≡ (p t && contains ts t)
contains-select p [] t = ground arith
contains-select p (s ∷ ts) t = elim (Bool-cases (s == t)) [
  | inl e ↦ rw ((eqb_iff s t).0 e) (ground (arith, contains-select p ts t, eqb_iff t t))
  | inr e ↦ ground (arith, contains-select p ts t)
]

-- The time is in the day, and one of the files has it.
abbrev pub is_observed : ℕ → ℕ → List FileContribution → ℕ → Bool
is_observed day_start day_end items t =
    in_day day_start day_end t
    && any (λ (item : FileContribution). contains item.timestamps t) items

or_false : (b : Bool) → (b || false) ≡ b
or_false b = ground arith

regroup : (d a c s : Bool) → ((d && a) || ((d && c) || s)) ≡ ((d && (c || a)) || s)
regroup d a c s = ground arith

contains-count_files :
    (day_start day_end : ℕ) (items : List FileContribution) (seen : Dict ℕ ℕ) (t : ℕ)
    → contains (keys (count_files day_start day_end items seen)) t
      ≡ (is_observed day_start day_end items t || contains (keys seen) t)
unfolding count_files
contains-count_files day_start day_end [] seen t = ground arith
contains-count_files day_start day_end (item ∷ items) seen t =
    let stamps = distinct (select (in_day day_start day_end) item.timestamps) in
    contains-count_files day_start day_end items (count_stamps stamps seen) t
    ∙ ap (λ b. is_observed day_start day_end items t || b)
        (contains-count_stamps stamps seen t
          ∙ ap (λ b. b || contains (keys seen) t)
              (contains-distinct t (select (in_day day_start day_end) item.timestamps)
                ∙ contains-select (in_day day_start day_end) item.timestamps t))
    ∙ regroup (in_day day_start day_end t)
        (any (λ (item : FileContribution). contains item.timestamps t) items)
        (contains item.timestamps t) (contains (keys seen) t)

-- A time counts for a charger-day exactly when it is in the day and some file of the day has it.
pub day_timestamps_iff :
    (day_start day_end : ℕ) (items : List FileContribution) (t : ℕ)
    → contains (day_timestamps day_start day_end items) t ≡ is_observed day_start day_end items t
unfolding day_timestamps
day_timestamps_iff day_start day_end items t =
    any-sort_by leb (λ x. x == t) (keys (count_files day_start day_end items []))
    ∙ contains-count_files day_start day_end items [] t
    ∙ or_false (is_observed day_start day_end items t)
