-- ===== src/History/Counters/Steps.antt =====
-- What the report of a counter says of its values.
use predictive_analysis.Common.{
  ℕ, suc, ◌+◌, ◌≤◌, Bool, Option, none, some, List, [], ◌∷◌, ◌++◌, map, ◌≡◌, ◌∙◌, refl, ap, ap₂,
  arith, if◌then◌else◌, ltb, eqb, length, last?, get_elem?, Bool-cases, Option-cases, inl, inr,
}
use predictive_analysis.Common.Sorting.{sort_by, length-sort_by}
use predictive_analysis.History.Counters.{
  Observation, CounterTransition, CounterAnalysisReport, CounterState, observation_le, no_values,
  is_reset, later_step, observe_all, change, report_of, analyze, first_step,
}

abbrev value_before : Option ℕ → List ℕ → List ℕ
value_before none rest = rest
value_before (some v) rest = v ∷ rest

-- The values that are not null, in order.
abbrev pub values_of : List Observation → List ℕ
values_of [] = []
values_of (obs ∷ later) = value_before obs.value (values_of later)

-- The neighbours in a list that a test accepts.
abbrev pub count_steps : (ℕ → ℕ → Bool) → List ℕ → ℕ
count_steps test [] = 0
count_steps test (a ∷ []) = 0
count_steps test (a ∷ (b ∷ vs)) = (if test a b then 1 else 0) + count_steps test (b ∷ vs)

abbrev pub currents : List CounterTransition → List ℕ
currents steps = map (λ (t : CounterTransition). t.current_value) steps

currents-append : (a b : List CounterTransition) → currents (a ++ b) ≡ currents a ++ currents b
currents-append [] b = refl
currents-append (t ∷ a) b = ap (λ vs. t.current_value ∷ vs) (currents-append a b)

append_assoc : (a : List ℕ) (v : ℕ) (b : List ℕ) → (a ++ v ∷ []) ++ b ≡ a ++ (v ∷ b)
append_assoc [] v b = refl
append_assoc (x ∷ a) v b = ap (λ vs. x ∷ vs) (append_assoc a v b)

-- The state t follows from s by the values vs, after the value p.
abbrev Follows : ℕ → List ℕ → CounterState → CounterState → Type 0
Follows p vs s t =
    (t.first_val ≡ s.first_val)
    × (t.last_val ≡ last? (p ∷ vs))
    × (t.non_null ≡ s.non_null + length vs)
    × (t.increases ≡ s.increases + count_steps ltb (p ∷ vs))
    × (t.unchanged ≡ s.unchanged + count_steps eqb (p ∷ vs))
    × (t.decreases ≡ s.decreases + count_steps (λ a b. ltb b a) (p ∷ vs))
    × (t.resets + s.decreases ≤ s.resets + t.decreases)
    × (currents t.steps ≡ currents s.steps ++ vs)

-- One step by a value.
abbrev Steps : ℕ → ℕ → CounterState → CounterState → Type 0
Steps p v s t =
    (t.first_val ≡ s.first_val)
    × (t.prev_val ≡ some v)
    × (t.last_val ≡ some v)
    × (t.non_null ≡ suc s.non_null)
    × (t.increases ≡ s.increases + (if ltb p v then 1 else 0))
    × (t.unchanged ≡ s.unchanged + (if eqb p v then 1 else 0))
    × (t.decreases ≡ s.decreases + (if ltb v p then 1 else 0))
    × (t.resets + s.decreases ≤ s.resets + t.decreases)
    × (currents t.steps ≡ currents s.steps ++ v ∷ [])

later_step-Steps :
    (obs : Observation) (p v : ℕ) (s : CounterState) → Steps p v s (later_step obs p v s)
later_step-Steps obs p v s = elim (Bool-cases (ltb p v)) [
  | inl up ↦ rw up (
    refl,
    refl,
    refl,
    refl,
    omega arith,
    ground arith,
    ground arith,
    omega arith,
    currents-append s.steps _,
  )
  | inr not_up ↦ elim (Bool-cases (eqb v p)) [
    | inl level ↦
        rw (not_up, level)
          (
            refl,
            refl,
            refl,
            refl,
            ground arith,
            ground arith,
            ground arith,
            omega arith,
            currents-append s.steps _,
          )
    | inr not_level ↦ elim (Bool-cases (is_reset s.max_seen v)) [
      | inl reset ↦
          rw (not_up, not_level, reset)
            (
              refl,
              refl,
              refl,
              refl,
              ground arith,
              ground arith,
              ground arith,
              omega arith,
              currents-append s.steps _,
            )
      | inr no_reset ↦
          rw (not_up, not_level, no_reset)
            (
              refl,
              refl,
              refl,
              refl,
              ground arith,
              ground arith,
              ground arith,
              omega arith,
              currents-append s.steps _,
            )
    ]
  ]
]

Follows-cons :
    (p v : ℕ) (vs : List ℕ) (s t u : CounterState)
    → Steps p v s t
    → Follows v vs t u
    → Follows p (v ∷ vs) s u
Follows-cons p v vs s t u (f, prev, l, n, i, e, d, r, c) (f2, l2, n2, i2, e2, d2, r2, c2) = (
  f2 ∙ f,
  l2,
  omega (arith, n, n2),
  omega (arith, i, i2),
  omega (arith, e, e2),
  omega (arith, d, d2),
  omega (arith, r, r2, d, d2),
  c2 ∙ ap (λ cs. cs ++ vs) c ∙ append_assoc (currents s.steps) v vs,
)

append_nil : (vs : List ℕ) → vs ≡ vs ++ []
append_nil [] = refl
append_nil (v ∷ vs) = ap (λ ws. v ∷ ws) (append_nil vs)

observe_all-Follows :
    (later : List Observation) (p : ℕ) (s : CounterState)
    → s.prev_val ≡ some p
    → s.last_val ≡ some p
    → Follows p (values_of later) s (observe_all later s)
unfolding observe_all
observe_all-Follows [] p s hp hl = (
  refl,
  hl,
  omega arith,
  omega arith,
  omega arith,
  omega arith,
  omega arith,
  append_nil (currents s.steps),
)
observe_all-Follows (obs ∷ later) p s hp hl = elim (Option-cases obs.value) [
  | inl e ↦ rw e (observe_all-Follows later p s hp hl)
  | inr (v, e) ↦
      let steps = later_step-Steps obs p v s in
      let next = later_step obs p v s in
      rw (e, hp)
        (Follows-cons p v (values_of later) s next (observe_all later next) steps
          (observe_all-Follows later v next steps.1 steps.2))
]

-- The report of the values of a counter, computed from the list of the values alone.
abbrev pub Describes : List ℕ → CounterAnalysisReport → Type 0
Describes vs r =
    (currents r.transitions ≡ vs)
    × (r.non_null_observations ≡ length vs)
    × (r.first_value ≡ get_elem? vs 0)
    × (r.last_value ≡ last? vs)
    × (r.net_change ≡ change (get_elem? vs 0) (last? vs))
    × (r.increase_count ≡ count_steps ltb vs)
    × (r.unchanged_count ≡ count_steps eqb vs)
    × (r.decrease_count ≡ count_steps (λ a b. ltb b a) vs)
    × (r.reset_candidate_count ≤ r.decrease_count)

observe_all-Describes :
    (total : ℕ) (ordered : List Observation)
    → Describes (values_of ordered) (report_of total (observe_all ordered no_values))
unfolding observe_all
observe_all-Describes total [] = (refl, refl, refl, refl, refl, refl, refl, refl, omega arith)
observe_all-Describes total (obs ∷ later) = elim (Option-cases obs.value) [
  | inl e ↦ rw e (observe_all-Describes total later)
  | inr (v, e) ↦
      let follows = observe_all-Follows later v (first_step obs v no_values) refl refl in
      rw e (
        follows.7,
        omega (arith, follows.2),
        follows.0,
        follows.1,
        ap₂ change follows.0 follows.1,
        omega (arith, follows.3),
        omega (arith, follows.4),
        omega (arith, follows.5),
        omega (arith, follows.6),
      )
]

-- The report describes the values of the observations in the order of their times: the transitions
-- pass through them one by one, the first, the last and the net change are theirs, the counts are
-- those of the rises, the repeats and the falls between neighbours, and a reset is a fall.
pub analyze-Describes :
    (observations : List Observation)
    → Describes (values_of (sort_by observation_le observations)) (analyze observations)
      × ((analyze observations).total_observations ≡ length observations)
unfolding analyze
analyze-Describes observations =
    let ordered = sort_by observation_le observations in
    (observe_all-Describes (length ordered) ordered, length-sort_by observation_le observations)
