-- ===== src/Frames/Builder/Slices.antt =====
-- The slices of the buckets: their sizes add up, and a later slice holds no position that an
-- earlier one lacks.
use predictive_analysis.Common.{
  ℕ, zero, suc, ◌+◌, ◌-◌, ◌≤◌, ◌<◌, min, true, ◌⊎◌, ◌≡◌, none, List, [], ◌∷◌, arith, refl, length,
  inl, inr, nat_eq, All, get_elem?, is_some,
}
use predictive_analysis.Frames.Models.{LogicalPosition, position_eq, RawRowRef}
use predictive_analysis.Frames.Builder.{Buckets, slice}

-- The rows in all buckets together.
abbrev pub bucket_total : Buckets → ℕ
bucket_total [] = 0
bucket_total ((p, rows) ∷ d) = length rows + bucket_total d

-- The rows in the slices k, k + 1, ..., of which there are as many as the second number.
abbrev pub slice_total : ℕ → ℕ → Buckets → ℕ
slice_total k zero d = 0
slice_total k (suc n) d = length (slice k d) + slice_total (k + 1) n d

-- One bucket's share of them.
abbrev share : ℕ → ℕ → List RawRowRef → ℕ
share k n rows = min n (length rows - k)

get_elem?_bounds :
    (rows : List RawRowRef) (k : ℕ)
    → ((k < length rows) × (is_some (get_elem? rows k) ≡ true))
      ⊎ ((length rows ≤ k) × (get_elem? rows k ≡ none))
get_elem?_bounds [] k = inr (omega arith, refl)
get_elem?_bounds (r ∷ rows) zero = inl (omega arith, refl)
get_elem?_bounds (r ∷ rows) (suc k) = ground (arith, get_elem?_bounds rows k)

slice_total-cons :
    (k n : ℕ) (p : LogicalPosition) (rows : List RawRowRef) (d : Buckets)
    → slice_total k n ((p, rows) ∷ d) ≡ share k n rows + slice_total k n d
unfolding slice
slice_total-cons k zero p rows d = omega arith
slice_total-cons k (suc n) p rows d =
    ground (arith, slice_total-cons (k + 1) n p rows d, get_elem?_bounds rows k)

slice_total-[] : (k n : ℕ) → slice_total k n [] ≡ 0
unfolding slice
slice_total-[] k zero = refl
slice_total-[] k (suc n) = omega (arith, slice_total-[] (k + 1) n)

-- With enough slices every row of every bucket is in one of them.
pub slice_total-All :
    (n : ℕ) (d : Buckets)
    → All (λ (e : LogicalPosition × List RawRowRef). length e.1 ≤ n) d
    → slice_total 0 n d ≡ bucket_total d
slice_total-All n [] h = slice_total-[] 0 n
slice_total-All n ((p, rows) ∷ d) h =
    omega (arith, slice_total-cons 0 n p rows d, slice_total-All n d h.1)
