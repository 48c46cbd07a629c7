-- ===== src/History/Presence/Intervals.antt =====
-- What the tracker says of each component.
use mathlib.Core.Option.{some-injective}
use predictive_analysis.Common.{
  ℕ, ◌+◌, ◌≤◌, true, Option, none, some, List, [], ◌∷◌, ◌≡◌, ◌∙◌, refl, sym, ap, arith,
  if◌then◌else◌, eqb, eqb_iff, leb, nat_eq, length, contains, min, max, All, Bool-cases, inl, inr,
  ◌⊎◌,
}
use predictive_analysis.Common.Dict.{Dict, get, put, get-put}
use predictive_analysis.Common.Sorting.{sort_by}
use predictive_analysis.History.Presence.{
  ComponentPresence, Sighting, sighting_le, seen, track_all, track_presence,
}

-- The times at which a component is seen.
abbrev pub times_of : ℕ → List Sighting → List ℕ
times_of id [] = []
times_of id ((j, time) ∷ later) =
    let rest = times_of id later in if eqb j id then time ∷ rest else rest

min_either : (a b : ℕ) → (min a b ≡ a) ⊎ (min a b ≡ b)
min_either a b = elim (Bool-cases (leb a b)) [
  | inl p ↦ inl (ground (arith, p))
  | inr p ↦ inr (ground (arith, p))
]

max_either : (a b : ℕ) → (max a b ≡ a) ⊎ (max a b ≡ b)
max_either a b = elim (Bool-cases (leb b a)) [
  | inl p ↦ inl (ground (arith, p))
  | inr p ↦ inr (ground (arith, p))
]

among :
    (time bound : ℕ) (times : List ℕ)
    → (bound ≡ time) ⊎ (contains times bound ≡ true)
    → contains (time ∷ times) bound ≡ true
among time bound times (inl e) = ground (arith, e)
among time bound times (inr m) = ground (arith, m)

module _ (date_of : ℕ → ℕ) where
  -- The presence after the times of one component.
  abbrev after_times : ℕ → List ℕ → Option ComponentPresence → Option ComponentPresence
  after_times id [] p = p
  after_times id (time ∷ times) p = after_times id times (some (seen date_of id time p))

  get-track_all :
      (id : ℕ) (sightings : List Sighting) (presence : Dict ℕ ComponentPresence)
      → get id (track_all date_of sightings presence)
        ≡ after_times id (times_of id sightings) (get id presence)
  unfolding track_all
  get-track_all id [] presence = refl
  get-track_all id ((j, time) ∷ later) presence =
      let next = seen date_of j time (get j presence) in
      let rest = get-track_all id later (put j next presence) in
      let found = get-put j id next presence in
      elim (Bool-cases (eqb j id)) [
        | inl p ↦
            let same : j ≡ id = (eqb_iff j id).0 p in
            let here : get id (put j next presence)
                ≡ some (seen date_of id time (get id presence)) =
              found ∙ rw p (ap (λ i. some (seen date_of i time (get i presence))) same) in
            rw p (rest ∙ ap (after_times id (times_of id later)) here)
        | inr p ↦
            let here : get id (put j next presence) ≡ get id presence = found ∙ rw p refl in
            rw p (rest ∙ ap (after_times id (times_of id later)) here)
      ]

  -- The presence sums up the times: their number, the earliest and the latest.
  abbrev pub SumsUp : List ℕ → ComponentPresence → Type 0
  SumsUp times p =
      (p.observation_count ≡ length times)
      × All (λ t. (p.first_seen ≤ t) × (t ≤ p.last_seen)) times
      × (contains times p.first_seen ≡ true)
      × (contains times p.last_seen ≡ true)

  -- The presence q goes on from p by the times.
  abbrev GoesOn : List ℕ → ComponentPresence → ComponentPresence → Type 0
  GoesOn times p q =
      (q.observation_count ≡ p.observation_count + length times)
      × (q.first_seen ≤ p.first_seen)
      × (p.last_seen ≤ q.last_seen)
      × All (λ t. (q.first_seen ≤ t) × (t ≤ q.last_seen)) times
      × ((q.first_seen ≡ p.first_seen) ⊎ (contains times q.first_seen ≡ true))
      × ((q.last_seen ≡ p.last_seen) ⊎ (contains times q.last_seen ≡ true))

  -- A bound that the first time may have set.
  bound_found :
      (bound old new time : ℕ) (times : List ℕ)
      → (new ≡ old) ⊎ (new ≡ time)
      → (bound ≡ new) ⊎ (contains times bound ≡ true)
      → (bound ≡ old) ⊎ (contains (time ∷ times) bound ≡ true)
  bound_found bound old new time times (inl a) (inl b) = inl (b ∙ a)
  bound_found bound old new time times (inr a) (inl b) = inr (ground (arith, a, b))
  bound_found bound old new time times a (inr b) = inr (ground (arith, b))

  after_times-GoesOn :
      (id : ℕ) (times : List ℕ) (p q : ComponentPresence)
      → after_times id times (some p) ≡ some q
      → GoesOn times p q
  after_times-GoesOn id [] p q h =
      rw (← some-injective _ _ h) (omega arith, omega arith, omega arith, tt, inl refl, inl refl)
  after_times-GoesOn id (time ∷ times) p q h =
      let next = seen date_of id time (some p) in
      let (count, first, last, all, from_first, from_last) = after_times-GoesOn id times next q h in
      (
        omega (arith, count),
        omega (arith, first),
        omega (arith, last),
        ((omega (arith, first), omega (arith, last)), all),
        bound_found q.first_seen p.first_seen next.first_seen time times
            (min_either p.first_seen time) from_first,
        bound_found q.last_seen p.last_seen next.last_seen time times (max_either p.last_seen time)
            from_last,
      )

  after_times-SumsUp :
      (id : ℕ) (times : List ℕ) (q : ComponentPresence)
      → after_times id times none ≡ some q
      → SumsUp times q
  after_times-SumsUp id [] q h = cc
  after_times-SumsUp id (time ∷ times) q h =
      let start = seen date_of id time none in
      let (count, first, last, all, from_first, from_last) =
        after_times-GoesOn id times start q h in
      (
        omega (arith, count),
        ((first, last), all),
        among time q.first_seen times from_first,
        among time q.last_seen times from_last,
      )

  -- The presence of a component counts its sightings, and its interval runs from the earliest of
  -- them to the latest.
  pub track_presence-SumsUp :
      (observations : List Sighting) (id : ℕ) (p : ComponentPresence)
      → get id (track_presence date_of observations) ≡ some p
      → SumsUp (times_of id (sort_by sighting_le observations)) p
  unfolding track_presence
  track_presence-SumsUp observations id p h =
      let ordered = sort_by sighting_le observations in
      after_times-SumsUp id (times_of id ordered) p (sym (get-track_all id ordered []) ∙ h)
