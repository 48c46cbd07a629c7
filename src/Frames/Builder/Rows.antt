-- ===== src/Frames/Builder/Rows.antt =====
-- No row is lost and none is made up: the frames of a group hold the rows of the group.
use predictive_analysis.Common.{
  ℕ, zero, suc, ◌+◌, ◌≤◌, Bool, true, false, ◌≡◌, Option, none, List, [], ◌∷◌, arith, refl, ◌==◌,
  length, length-append, max, if◌then◌else◌, Bool-cases, inl, inr, ◌∙◌, sym, nat_eq, All, ltb,
}
use predictive_analysis.Common.Dict.{Dict, values, append_to}
use predictive_analysis.Common.Sorting.{sort_by, length-sort_by}
use predictive_analysis.Frames.Models.{
  LogicalPosition, position_eq, same_position_iff, RawRowRef, TimestampGroup, greatest,
  is_evenly_occupied,
}
use predictive_analysis.Frames.Groups.{count_into, describe_occupancy, implied_frame_count}
use predictive_analysis.Frames.Groups.Counting.{rows_at, rows_at-le, rows_at-sort_by}
use predictive_analysis.Frames.Builder.{
  Buckets, slice, candidates_from, total_rows_assigned, bucket_into, build_frame_candidates,
  buckets_of, occurrence_le, is_empty_dict, next_size, no_rows,
}
use predictive_analysis.Frames.Builder.Slices.{bucket_total, slice_total, slice_total-All}

bucket_total-append_to :
    (p : LogicalPosition) (r : RawRowRef) (d : Buckets)
    → bucket_total (append_to p r d) ≡ bucket_total d + 1
bucket_total-append_to p r [] = refl
bucket_total-append_to p r ((q, rows) ∷ d) =
    ground (arith, bucket_total-append_to p r d, length-append rows (r ∷ []))

bucket_total-bucket_into :
    (rows : List RawRowRef) (d : Buckets)
    → bucket_total (bucket_into rows d) ≡ bucket_total d + length rows
unfolding bucket_into
bucket_total-bucket_into [] d = omega arith
bucket_total-bucket_into (r ∷ rows) d = omega (
  arith,
  bucket_total-bucket_into rows (append_to r.position r d),
  bucket_total-append_to r.position r d,
)

-- Every bucket is at most as long as what the function says of its position.
abbrev Within : (LogicalPosition → ℕ) → Buckets → Type 0
Within f d = All (λ (e : LogicalPosition × List RawRowRef). length e.1 ≤ f e.0) d

Within-weaken :
    (f g : LogicalPosition → ℕ) (d : Buckets)
    → ((p : LogicalPosition) → f p ≤ g p)
    → Within f d
    → Within g d
Within-weaken f g [] w h = tt
Within-weaken f g ((p, rows) ∷ d) w h = (omega (arith, h.0, w p), Within-weaken f g d w h.1)

-- The rows at a position, one more where the row stands.
abbrev with_row : RawRowRef → (LogicalPosition → ℕ) → LogicalPosition → ℕ
with_row r f p = if r.position == p then f p + 1 else f p

Within-append_to :
    (f : LogicalPosition → ℕ) (r : RawRowRef) (d : Buckets)
    → Within f d
    → Within (with_row r f) (append_to r.position r d)
Within-append_to f r [] h = (ground (arith, same_position_iff r.position r.position), tt)
Within-append_to f r ((q, rows) ∷ d) h = elim (Bool-cases (q == r.position)) [
  | inl e ↦ rw e (
    ground (
      arith,
      h.0,
      length-append rows (r ∷ []),
      same_position_iff q r.position,
      same_position_iff r.position q,
    ),
    Within-weaken f (with_row r f) d (λ p. ground arith) h.1,
  )
  | inr e ↦ rw e (ground (arith, h.0), Within-append_to f r d h.1)
]

Within-bucket_into :
    (f : LogicalPosition → ℕ) (rows : List RawRowRef) (d : Buckets)
    → Within f d
    → Within (λ p. f p + rows_at p rows) (bucket_into rows d)
unfolding bucket_into
Within-bucket_into f [] d h = Within-weaken f (λ p. f p + 0) d (λ p. omega arith) h
Within-bucket_into f (r ∷ rows) d h =
    Within-weaken (λ p. with_row r f p + rows_at p rows) (λ p. f p + rows_at p (r ∷ rows))
      (bucket_into rows (append_to r.position r d)) (λ p. ground arith)
      (Within-bucket_into (with_row r f) rows (append_to r.position r d) (Within-append_to f r d h))

-- The group's counts are those that `build_timestamp_groups` makes of its rows.
abbrev pub IsCounted : TimestampGroup → Type 0
IsCounted g = g.occurrences ≡ count_into g.rows []

pub buckets_of-Within :
    (g : TimestampGroup)
    → IsCounted g
    → Within (λ p. greatest (values g.occurrences)) (buckets_of g)
buckets_of-Within g c =
    Within-weaken (λ p. 0 + rows_at p (sort_by occurrence_le g.rows))
      (λ p. greatest (values g.occurrences)) (buckets_of g)
      (λ p. rw (c, rows_at-sort_by occurrence_le p g.rows) (omega (arith, rows_at-le p g.rows)))
      (Within-bucket_into (λ p. 0) (sort_by occurrence_le g.rows) [] tt)

pub bucket_total-buckets_of : (g : TimestampGroup) → bucket_total (buckets_of g) ≡ length g.rows
bucket_total-buckets_of g = omega (
  arith,
  bucket_total-bucket_into (sort_by occurrence_le g.rows) [],
  length-sort_by occurrence_le g.rows,
)

length-is_empty_dict : (d : Dict LogicalPosition RawRowRef) → is_empty_dict d ≡ true → length d ≡ 0
length-is_empty_dict [] h = refl
length-is_empty_dict (_ ∷ _) h = cc

module _ (g : TimestampGroup) (below : ℕ) (is_even : Bool) (count : ℕ) (buckets : Buckets) where
  total-candidates_from :
      (k left : ℕ) (previous : Option ℕ)
      → total_rows_assigned (candidates_from g below is_even count buckets k left previous)
        ≡ slice_total k left buckets
  unfolding candidates_from total_rows_assigned
  total-candidates_from k zero previous = refl
  total-candidates_from k (suc left) previous =
      let rows = slice k buckets in
      elim (Bool-cases (is_empty_dict rows)) [
        | inl e ↦ rw e (
            omega (arith, total-candidates_from (k + 1) left previous, length-is_empty_dict rows e))
        | inr e ↦
            rw e (
              omega
                (arith, total-candidates_from (k + 1) left (next_size k (length rows) previous)))
      ]

no_rows-eq-nil : (rows : List RawRowRef) → no_rows rows ≡ true → length rows ≡ 0
no_rows-eq-nil [] h = refl
no_rows-eq-nil (_ ∷ _) h = cc

-- If the occurrences of a group count its rows and the deepest position is occupied at most as
-- often as the configured maximum, the frames of the group together hold as many rows as it.
pub build-conserves_rows :
    (g : TimestampGroup) (below limit : ℕ)
    → IsCounted g
    → implied_frame_count (describe_occupancy g) ≤ limit
    → total_rows_assigned (build_frame_candidates g below limit) ≡ length g.rows
unfolding build_frame_candidates total_rows_assigned
build-conserves_rows g below limit c h = elim (Bool-cases (no_rows g.rows)) [
  | inl e ↦ rw e (sym (no_rows-eq-nil g.rows e))
  | inr e ↦ rw e (
      rw (not_past_limit limit (max (greatest (values g.occurrences)) 1) h) (
        total-candidates_from g below (is_evenly_occupied g)
          (max (greatest (values g.occurrences)) 1) (buckets_of g) 0
          (max (greatest (values g.occurrences)) 1) none
        ∙ (slice_total-All (max (greatest (values g.occurrences)) 1) (buckets_of g) (
              Within-weaken (λ p. greatest (values g.occurrences))
                (λ p. max (greatest (values g.occurrences)) 1) (buckets_of g) (λ p. omega arith)
                (buckets_of-Within g c))
            ∙ bucket_total-buckets_of g)))
]
  where
    not_past_limit : (l n : ℕ) → n ≤ l → ltb l n ≡ false
    not_past_limit l n h = ground arith
