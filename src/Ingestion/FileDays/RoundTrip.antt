-- ===== src/Ingestion/FileDays/RoundTrip.antt =====
-- The days of a file hold its timestamps.
use predictive_analysis.Common.{
  ℕ, ◌+◌, ◌*◌, ◌%◌, Bool, ◌||◌, List, [], ◌∷◌, map, ◌≡◌, ◌∙◌, refl, sym, ap, ap₂, arith, ◌==◌, leb,
  nat_eq, eqb, eqb_iff, any, contains, distinct, All, All-append, Bool-cases, inl, inr,
  contains-append,
}
use predictive_analysis.Common.Dict.{Dict, append_to, keys}
use predictive_analysis.Common.Sums.{contains-distinct, All-distinct}
use predictive_analysis.Common.Sorting.{sort_by, any-sort_by, All-sort_by}
use predictive_analysis.Common.Codes.{Text, text_eq, codes_le}
use predictive_analysis.Ingestion.FileDays.{
  Day, day_le, day_length, microseconds, date_of, by_date, offset_of, contribution_of,
  build_file_days, timestamps_utc,
}

-- A day of the list has the timestamp.
abbrev has_stamp : ℕ → List Day → Bool
has_stamp t days = any (λ (d : Day). contains d.1 t) days

has_stamp-append_to :
    (date stamp t : ℕ) (days : List Day)
    → has_stamp t (append_to date stamp days) ≡ (eqb stamp t || has_stamp t days)
has_stamp-append_to date stamp t [] = ground arith
has_stamp-append_to date stamp t ((d, ts) ∷ days) = elim (Bool-cases (eqb d date)) [
  | inl p ↦ rw (p, contains-append ts (stamp ∷ []) t) (ground arith)
  | inr p ↦ rw p (ground (arith, has_stamp-append_to date stamp t days))
]

module _ (wall_clock : ℕ → ℕ) (at_wall_clock : ℕ → ℕ) where
  -- The wall clock shows a whole second, and leads back to the timestamp.
  abbrev pub IsReadable : ℕ → Type 0
  IsReadable t = (at_wall_clock (wall_clock t) ≡ t) × (wall_clock t % microseconds ≡ 0)

  -- The timestamps of a day lie on its date and are readable.
  abbrev IsDay : Day → Type 0
  IsDay d = All (λ t. (date_of wall_clock at_wall_clock t ≡ d.0) × IsReadable t) d.1

  append_to-IsDay :
      (stamp : ℕ) (days : List Day)
      → IsReadable stamp
      → All IsDay days
      → All IsDay (append_to (date_of wall_clock at_wall_clock stamp) stamp days)
  append_to-IsDay stamp [] r h = (((refl, r), tt), tt)
  append_to-IsDay stamp ((d, ts) ∷ days) r h =
      elim (Bool-cases (eqb d (date_of wall_clock at_wall_clock stamp))) [
        | inl p ↦
            let same : date_of wall_clock at_wall_clock stamp ≡ d =
              sym ((eqb_iff d (date_of wall_clock at_wall_clock stamp)).0 p) in
            rw p (
              All-append (λ t. (date_of wall_clock at_wall_clock t ≡ d) × IsReadable t) ts
                  (stamp ∷ []) h.0 ((same, r), tt),
              h.1,
            )
        | inr p ↦ rw p (h.0, append_to-IsDay stamp days r h.1)
      ]

  by_date-IsDay :
      (stamps : List ℕ) (days : List Day)
      → All IsReadable stamps
      → All IsDay days
      → All IsDay (by_date wall_clock at_wall_clock stamps days)
  by_date-IsDay [] days r h = h
  by_date-IsDay (stamp ∷ stamps) days r h =
      by_date-IsDay stamps (append_to (date_of wall_clock at_wall_clock stamp) stamp days) r.1
        (append_to-IsDay stamp days r.0 h)

  has_stamp-by_date :
      (t : ℕ) (stamps : List ℕ) (days : List Day)
      → has_stamp t (by_date wall_clock at_wall_clock stamps days)
        ≡ (contains stamps t || has_stamp t days)
  has_stamp-by_date t [] days = refl
  has_stamp-by_date t (stamp ∷ stamps) days = ground (
    arith,
    has_stamp-by_date t stamps (append_to (date_of wall_clock at_wall_clock stamp) stamp days),
    has_stamp-append_to (date_of wall_clock at_wall_clock stamp) stamp t days,
  )

  offset_lem :
      (d t : ℕ)
      → date_of wall_clock at_wall_clock t ≡ d
      → wall_clock t % microseconds ≡ 0
      → d * day_length + offset_of wall_clock at_wall_clock d t * microseconds ≡ wall_clock t
  offset_lem d t h k = omega (arith, h, k)

  read_back :
      (d : ℕ) (ts : List ℕ)
      → All (λ t. (date_of wall_clock at_wall_clock t ≡ d) × IsReadable t) ts
      → map
          (λ offset. at_wall_clock (d * day_length + offset * microseconds))
          (map (offset_of wall_clock at_wall_clock d) ts)
        ≡ ts
  read_back d [] h = refl
  read_back d (t ∷ ts) h =
      ap₂ (λ x xs. x ∷ xs) (ap at_wall_clock (offset_lem d t h.0.0 h.0.1.1) ∙ h.0.1.0)
        (read_back d ts h.1)

  times_of-contribution_of :
      (connectors smrs : List Text) (d : Day)
      → IsDay d
      → timestamps_utc wall_clock at_wall_clock
          (contribution_of wall_clock at_wall_clock connectors smrs d)
        ≡ sort_by leb (distinct d.1)
  unfolding timestamps_utc contribution_of
  times_of-contribution_of connectors smrs (date, ts) h =
      read_back date (sort_by leb (distinct ts)) (
        All-sort_by leb (λ t. (date_of wall_clock at_wall_clock t ≡ date) × IsReadable t)
          (distinct ts)
          (All-distinct (λ t. (date_of wall_clock at_wall_clock t ≡ date) × IsReadable t) ts h))

  any-contributions :
      (connectors smrs : List Text) (t : ℕ) (days : List Day)
      → All IsDay days
      → any
          (λ c. contains (timestamps_utc wall_clock at_wall_clock c) t)
          (map (contribution_of wall_clock at_wall_clock connectors smrs) days)
        ≡ has_stamp t days
  any-contributions connectors smrs t [] h = refl
  any-contributions connectors smrs t (d ∷ days) h =
      let here : contains
            (timestamps_utc wall_clock at_wall_clock
              (contribution_of wall_clock at_wall_clock connectors smrs d))
            t
          ≡ contains d.1 t =
        ap (λ ts. contains ts t) (times_of-contribution_of connectors smrs d h.0)
        ∙ any-sort_by leb (λ s. s == t) (distinct d.1)
        ∙ contains-distinct t d.1 in
      ground (arith, here, any-contributions connectors smrs t days h.1)

  -- If the wall clock of the zone leads back to every timestamp of a file and shows a whole second
  -- there, the timestamps that are rebuilt from the offsets of the file's days are its timestamps.
  pub build_file_days-timestamps_utc :
      (stamps : List ℕ) (connectors smrs : Dict Text ℕ) (t : ℕ)
      → All IsReadable stamps
      → any
          (λ c. contains (timestamps_utc wall_clock at_wall_clock c) t)
          (build_file_days wall_clock at_wall_clock stamps connectors smrs)
        ≡ contains stamps t
  unfolding build_file_days
  build_file_days-timestamps_utc stamps connectors smrs t h =
      let days = by_date wall_clock at_wall_clock stamps [] in
      any-contributions (sort_by codes_le (keys connectors)) (sort_by codes_le (keys smrs)) t
        (sort_by day_le days) (All-sort_by day_le IsDay days (by_date-IsDay stamps [] h tt))
      ∙ any-sort_by day_le (λ d. contains d.1 t) days
      ∙ has_stamp-by_date t stamps []
      ∙ ground arith
