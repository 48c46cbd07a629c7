-- ===== src/Frames/Topology/Padding.antt =====
-- The loop that pads the observed labels ends, with as many labels as were declared.
use predictive_analysis.Common.{
  ℕ, zero, suc, ◌+◌, ◌-◌, ◌≤◌, ◌<◌, true, ◌≡◌, List, [], ◌∷◌, ◌++◌, String, arith, string_eq,
  eq_iff, contains, length, length-append, leb, ltb, if◌then◌else◌, Bool-cases, inl, inr,
}
use predictive_analysis.Common.Decimal.{decimal, to_int, to_int-decimal}
use predictive_analysis.Frames.Topology.{pad}

-- The labels that read as a number from the ordinal on: those that can still be met.
abbrev blockers : ℕ → List String → ℕ
blockers ordinal [] = 0
blockers ordinal (x ∷ xs) =
    let rest = blockers ordinal xs in if leb ordinal (to_int x) then rest + 1 else rest

blockers-le : (ordinal : ℕ) (xs : List String) → blockers ordinal xs ≤ length xs
blockers-le ordinal [] = omega arith
blockers-le ordinal (x ∷ xs) = ground (arith, blockers-le ordinal xs)

blockers-suc : (ordinal : ℕ) (xs : List String) → blockers (ordinal + 1) xs ≤ blockers ordinal xs
blockers-suc ordinal [] = omega arith
blockers-suc ordinal (x ∷ xs) = ground (arith, blockers-suc ordinal xs)

blockers-append :
    (ordinal : ℕ) (xs ys : List String)
    → blockers ordinal (xs ++ ys) ≡ blockers ordinal xs + blockers ordinal ys
blockers-append ordinal [] ys = omega arith
blockers-append ordinal (x ∷ xs) ys = ground (arith, blockers-append ordinal xs ys)

-- A label that is met is no blocker afterwards.
blockers-met :
    (ordinal : ℕ) (xs : List String)
    → contains xs (decimal ordinal) ≡ true
    → blockers (ordinal + 1) xs < blockers ordinal xs
blockers-met ordinal [] h = cc
blockers-met ordinal (x ∷ xs) h = ground (
  arith,
  blockers-met ordinal xs,
  blockers-suc ordinal xs,
  eq_iff x (decimal ordinal),
  to_int-decimal ordinal,
)

blockers-fresh : (ordinal : ℕ) → blockers (ordinal + 1) (decimal ordinal ∷ []) ≡ 0
blockers-fresh ordinal = ground (arith, to_int-decimal ordinal)

length-pad_from :
    (fuel declared : ℕ) (padded : List String) (ordinal : ℕ)
    → length padded ≤ declared
    → declared - length padded + blockers ordinal padded ≤ fuel
    → length (pad fuel declared padded ordinal) ≡ declared
unfolding pad
length-pad_from zero declared padded ordinal h f = omega arith
length-pad_from (suc fuel) declared padded ordinal h f =
    elim (Bool-cases (ltb (length padded) declared)) [
      | inl e ↦ rw e (elim (Bool-cases (contains padded (decimal ordinal))) [
        | inl m ↦ rw m (
            length-pad_from fuel declared padded (ordinal + 1) h
              (omega (arith, blockers-met ordinal padded m)))
        | inr m ↦ rw m (
            length-pad_from fuel declared (padded ++ decimal ordinal ∷ []) (ordinal + 1)
              (ground (arith, length-append padded (decimal ordinal ∷ [])))
              (ground (
                arith,
                length-append padded (decimal ordinal ∷ []),
                blockers-append (ordinal + 1) padded (decimal ordinal ∷ []),
                blockers-fresh ordinal,
                blockers-suc ordinal padded,
              )))
      ])
      | inr e ↦ rw e (ground arith)
    ]

-- If no more labels are observed than declared, as many turns of the padding loop as labels are
-- declared end with exactly as many labels as declared.
pub length-pad :
    (declared : ℕ) (observed : List String)
    → length observed ≤ declared
    → length (pad declared declared observed 1) ≡ declared
length-pad declared observed h =
    length-pad_from declared declared observed 1 h (omega (arith, blockers-le 1 observed))
