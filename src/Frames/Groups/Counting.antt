-- ===== src/Frames/Groups/Counting.antt =====
-- The occurrence counts of a group are the numbers of its rows at each position.
use predictive_analysis.Common.{
  ℕ, ◌+◌, ◌≤◌, Bool, ◌≡◌, List, [], ◌∷◌, arith, refl, ◌==◌, if◌then◌else◌, nat_eq,
}
use predictive_analysis.Common.Dict.{Dict, values, get_or, put, get_or-put}
use predictive_analysis.Common.Sorting.{sort_by, insert_by}
use predictive_analysis.Frames.Models.{
  LogicalPosition, position_eq, same_position_iff, RawRowRef, greatest,
}
use predictive_analysis.Frames.Groups.{count_into}

-- How many of the rows occupy the position.
abbrev pub rows_at : LogicalPosition → List RawRowRef → ℕ
rows_at p [] = 0
rows_at p (r ∷ rows) = let rest = rows_at p rows in if r.position == p then rest + 1 else rest

pub get_or-count_into :
    (p : LogicalPosition) (rows : List RawRowRef) (d : Dict LogicalPosition ℕ)
    → get_or p 0 (count_into rows d) ≡ get_or p 0 d + rows_at p rows
unfolding count_into
get_or-count_into p [] d = omega arith
get_or-count_into p (r ∷ rows) d =
    let e : LogicalPosition = r.position in
    ground (
      arith,
      get_or-count_into p rows (put e (get_or e 0 d + 1) d),
      get_or-put e p (get_or e 0 d + 1) 0 d,
      same_position_iff e p,
    )

pub get_or-le-greatest :
    (p : LogicalPosition) (d : Dict LogicalPosition ℕ) → get_or p 0 d ≤ greatest (values d)
get_or-le-greatest p [] = omega arith
get_or-le-greatest p ((q, n) ∷ d) = ground (arith, get_or-le-greatest p d)

-- No position has more rows than the deepest occupied one.
pub rows_at-le :
    (p : LogicalPosition) (rows : List RawRowRef)
    → rows_at p rows ≤ greatest (values (count_into rows []))
rows_at-le p rows =
    omega (arith, get_or-count_into p rows [], get_or-le-greatest p (count_into rows []))

module _ (le : RawRowRef → RawRowRef → Bool) (p : LogicalPosition) where
  rows_at-insert_by :
      (r : RawRowRef) (rows : List RawRowRef)
      → rows_at p (insert_by le r rows) ≡ rows_at p (r ∷ rows)
  rows_at-insert_by r [] = refl
  rows_at-insert_by r (s ∷ rows) = ground (arith, rows_at-insert_by r rows)

  pub rows_at-sort_by : (rows : List RawRowRef) → rows_at p (sort_by le rows) ≡ rows_at p rows
  unfolding sort_by
  rows_at-sort_by [] = refl
  rows_at-sort_by (r ∷ rows) =
      ground (arith, rows_at-insert_by r (sort_by le rows), rows_at-sort_by rows)
