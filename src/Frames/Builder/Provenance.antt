-- ===== src/Frames/Builder/Provenance.antt =====
-- Where the rows of a frame come from: each is a row of the group, at its own position.
use mathlib.Core.List.{Mem, mem-cons_self, mem-cons_of_mem}
use predictive_analysis.Common.{
  ℕ, zero, suc, ◌+◌, Bool, ◌≡◌, Option, none, List, [], ◌∷◌, refl, ◌==◌, length, max, Bool-cases,
  inl, inr, sym, nat_eq, All, All-append, get_elem?, ltb,
}
use predictive_analysis.Common.Dict.{Dict, values, append_to}
use predictive_analysis.Common.Sorting.{sort_by, All-sort_by}
use predictive_analysis.Frames.Models.{
  LogicalPosition, position_eq, same_position_iff, RawRowRef, TimestampGroup, greatest,
  is_evenly_occupied,
}
use predictive_analysis.Frames.Builder.{
  Buckets, slice, cons_some, candidates_from, bucket_into, build_frame_candidates, buckets_of,
  occurrence_le, is_empty_dict, next_size, no_rows,
}

module _ {ℓ} (P : RawRowRef → Type ℓ) where
  -- A row with the property, at the position under which it is filed.
  abbrev pub FiledAt : LogicalPosition → RawRowRef → Type ℓ
  FiledAt p r = P r × (r.position ≡ p)

  -- Every row of a frame is so.
  abbrev pub IsFiled : Dict LogicalPosition RawRowRef → Type ℓ
  IsFiled d = All (λ (e : LogicalPosition × RawRowRef). FiledAt e.0 e.1) d

  abbrev BucketsFiled : Buckets → Type ℓ
  BucketsFiled d = All (λ (e : LogicalPosition × List RawRowRef). All (FiledAt e.0) e.1) d

  BucketsFiled-append_to :
      (r : RawRowRef) (d : Buckets) → P r → BucketsFiled d → BucketsFiled (append_to r.position r d)
  BucketsFiled-append_to r [] p h = (((p, refl), tt), tt)
  BucketsFiled-append_to r ((q, rows) ∷ d) p h = elim (Bool-cases (q == r.position)) [
    | inl e ↦ rw e (
      All-append (FiledAt q) rows (r ∷ []) h.0
          ((p, sym ((same_position_iff q r.position).0 e)), tt),
      h.1,
    )
    | inr e ↦ rw e (h.0, BucketsFiled-append_to r d p h.1)
  ]

  BucketsFiled-bucket_into :
      (rows : List RawRowRef) (d : Buckets)
      → All P rows
      → BucketsFiled d
      → BucketsFiled (bucket_into rows d)
  unfolding bucket_into
  BucketsFiled-bucket_into [] d p h = h
  BucketsFiled-bucket_into (r ∷ rows) d p h =
      BucketsFiled-bucket_into rows (append_to r.position r d) p.1
        (BucketsFiled-append_to r d p.0 h)

  All-get_elem? :
      (p : LogicalPosition) (rows : List RawRowRef) (k : ℕ) (rest : Dict LogicalPosition RawRowRef)
      → All (FiledAt p) rows
      → IsFiled rest
      → IsFiled (cons_some p (get_elem? rows k) rest)
  All-get_elem? p [] k rest h t = t
  All-get_elem? p (r ∷ rows) zero rest h t = (h.0, t)
  All-get_elem? p (r ∷ rows) (suc k) rest h t = All-get_elem? p rows k rest h.1 t

  IsFiled-slice : (k : ℕ) (d : Buckets) → BucketsFiled d → IsFiled (slice k d)
  unfolding slice
  IsFiled-slice k [] h = tt
  IsFiled-slice k ((p, rows) ∷ d) h = All-get_elem? p rows k (slice k d) h.0 (IsFiled-slice k d h.1)

  module _ (g : TimestampGroup) (below : ℕ) (is_even : Bool) (count : ℕ) (buckets : Buckets) where
    All-candidates_from :
        (k left : ℕ) (previous : Option ℕ)
        → BucketsFiled buckets
        → All
            (λ c. IsFiled c.rows_by_position)
            (candidates_from g below is_even count buckets k left previous)
    unfolding candidates_from
    All-candidates_from k zero previous h = tt
    All-candidates_from k (suc left) previous h =
        elim (Bool-cases (is_empty_dict (slice k buckets))) [
          | inl e ↦ rw e (All-candidates_from (k + 1) left previous h)
          | inr e ↦ rw e (
            IsFiled-slice k buckets h,
            All-candidates_from (k + 1) left (next_size k (length (slice k buckets)) previous) h,
          )
        ]

  BucketsFiled-buckets_of : (g : TimestampGroup) → All P g.rows → BucketsFiled (buckets_of g)
  BucketsFiled-buckets_of g h =
      BucketsFiled-bucket_into (sort_by occurrence_le g.rows) []
        (All-sort_by occurrence_le P g.rows h) tt

  pub All-build :
      (g : TimestampGroup) (below limit : ℕ)
      → All P g.rows
      → All (λ c. IsFiled c.rows_by_position) (build_frame_candidates g below limit)
  unfolding build_frame_candidates
  All-build g below limit h = elim (Bool-cases (no_rows g.rows)) [
    | inl e ↦ rw e tt
    | inr e ↦ rw e (elim (Bool-cases (ltb limit (max (greatest (values g.occurrences)) 1))) [
      | inl q ↦ rw q (IsFiled-slice 0 (buckets_of g) (BucketsFiled-buckets_of g h), tt)
      | inr q ↦ rw q (
          All-candidates_from g below (is_evenly_occupied g)
            (max (greatest (values g.occurrences)) 1) (buckets_of g) 0
            (max (greatest (values g.occurrences)) 1) none (BucketsFiled-buckets_of g h))
    ])
  ]

All-Mem-cons :
    {A : Type 0} (x : A) (xs ys : List A) → All (λ y. Mem y xs) ys → All (λ y. Mem y (x ∷ xs)) ys
All-Mem-cons x xs [] h = tt
All-Mem-cons x xs (y ∷ ys) h = (mem-cons_of_mem x h.0, All-Mem-cons x xs ys h.1)

All-Mem : {A : Type 0} (xs : List A) → All (λ y. Mem y xs) xs
All-Mem [] = tt
All-Mem (x ∷ xs) = (mem-cons_self, All-Mem-cons x xs xs (All-Mem xs))

-- Every row of every frame is a row of the group, and stands at its own position.
pub build-rows_of_group :
    (g : TimestampGroup) (below limit : ℕ)
    → All
        (λ c. IsFiled (λ r. Mem r g.rows) c.rows_by_position)
        (build_frame_candidates g below limit)
build-rows_of_group g below limit = All-build (λ r. Mem r g.rows) g below limit (All-Mem g.rows)
