-- ===== src/Frames/Replay/Canonical.antt =====
-- Later frames are compared with the first one, which is the canonical frame of its event time.
use predictive_analysis.Common.{
  ℕ, ◌<◌, min, true, false, ◌≡◌, some, List, [], ◌∷◌, arith, refl, length, Bool-cases, Option-cases,
  inl, inr, nat_eq, string_eq, eqb_iff, All, String,
}
use predictive_analysis.Common.Dict.{Dict, keys, get, get_or, put, get_or-put}
use predictive_analysis.Frames.Models.{position_eq, DuplicateClassification}
use predictive_analysis.Frames.Groups.{least}
use predictive_analysis.Frames.Builder.{FrameCandidate}
use predictive_analysis.Frames.Replay.{
  ClassifiedFrame, Seen, Payload, classify_first, classify_next, classify_rest, classify_group,
  fingerprint_of, compare_canonical, remember, nonempty, payload_of, matching_positions,
  differing_positions,
}
use predictive_analysis.Frames.Replay.Verdicts.{classify_next-cases}

-- What the verdict on a later frame says of its payload and that of the first frame.
abbrev pub Compares : FrameCandidate → ClassifiedFrame → DuplicateClassification → Type 0
Compares first f DuplicateClassification.same_timestamp_distinct_frame =
    (nonempty (differing_positions (payload_of f.candidate) (payload_of first)) ≡ true)
    × (f.differing_positions ≡ differing_positions (payload_of f.candidate) (payload_of first))
Compares first f DuplicateClassification.partial_frame_replay =
    (nonempty (differing_positions (payload_of f.candidate) (payload_of first)) ≡ false)
    × (nonempty (matching_positions (payload_of f.candidate) (payload_of first)) ≡ true)
    × (f.replay_of_sequence ≡ some first.sequence)
Compares first f DuplicateClassification.ambiguous =
    (nonempty (differing_positions (payload_of f.candidate) (payload_of first)) ≡ false)
    × (nonempty (matching_positions (payload_of f.candidate) (payload_of first)) ≡ false)
Compares first f DuplicateClassification.full_frame_replay = Unit
Compares first f DuplicateClassification.unique = ⊥
Compares first f DuplicateClassification.exact_row_duplicate = ⊥

abbrev pub ComparesWith : FrameCandidate → ClassifiedFrame → Type 0
ComparesWith first f = Compares first f f.classification

-- The first frame has the lowest of the remembered sequences.
record IsFirst (first : FrameCandidate) (s : Seen) : Type 0 where
  lowest : least (keys s.payloads) ≡ first.sequence
  remembered : 0 < length s.payloads
  payload : get_or first.sequence [] s.payloads ≡ payload_of first

least-put :
    (k : ℕ) (v : Payload) (d : Dict ℕ Payload)
    → 0 < length d
    → least (keys (put k v d)) ≡ min (least (keys d)) k
least-put k v [] h = absurd (omega arith)
least-put k v ((j, w) ∷ []) h = ground (arith, eqb_iff j k)
least-put k v ((j, w) ∷ ((i, u) ∷ d)) h =
    ground (arith, eqb_iff j k, eqb_iff i k, least-put k v ((i, u) ∷ d))

length-put : (k : ℕ) (v : Payload) (d : Dict ℕ Payload) → 0 < length (put k v d)
length-put k v [] = omega arith
length-put k v ((j, w) ∷ d) = ground arith

-- A later frame that is remembered has a higher sequence.
IsFirst-remember :
    (first c : FrameCandidate) (x : String) (s : Seen)
    → first.sequence < c.sequence
    → IsFirst first s
    → IsFirst first (remember c x s)
IsFirst-remember first c x s h i = record {
  lowest = omega (arith, least-put c.sequence (payload_of c) s.payloads i.remembered, i.lowest);
  remembered = length-put c.sequence (payload_of c) s.payloads;
  payload =
      ground (arith, i.payload, get_or-put c.sequence first.sequence (payload_of c) [] s.payloads);
}

-- The sequences of the later candidates are above that of the first.
abbrev pub Above : FrameCandidate → List FrameCandidate → Type 0
Above first cs = All (λ c. first.sequence < c.sequence) cs

module _ (sha256 : String → String) where
  candidate-next : (s : Seen) (c : FrameCandidate) → (classify_next sha256 s c).0.candidate ≡ c
  unfolding classify_next
  candidate-next s c = ground arith

  Compares-canonical :
      (first c : FrameCandidate) (x : String) (s : Seen)
      → ComparesWith first (compare_canonical c x s first.sequence (payload_of first)).0
  unfolding compare_canonical
  Compares-canonical first c x s =
      let differing = differing_positions (payload_of c) (payload_of first) in
      let matching = matching_positions (payload_of c) (payload_of first) in
      elim (Bool-cases (nonempty differing)) [
        | inl d ↦ rw d (d, refl)
        | inr d ↦ rw d (elim (Bool-cases (nonempty matching)) [
          | inl m ↦ rw m (d, m, refl)
          | inr m ↦ rw m (d, m)
        ])
      ]

  classify_next-Compares :
      (first c : FrameCandidate) (s : Seen)
      → IsFirst first s
      → ComparesWith first (classify_next sha256 s c).0
  unfolding classify_next
  classify_next-Compares first c s i =
      elim (Option-cases (get (fingerprint_of sha256 c) s.fingerprints)) [
        | inl e ↦
            rw (e, i.lowest, i.payload) (Compares-canonical first c (fingerprint_of sha256 c) s)
        | inr (n, e) ↦ rw e tt
      ]

  classify_next-IsFirst :
      (first c : FrameCandidate) (s : Seen)
      → first.sequence < c.sequence
      → IsFirst first s
      → IsFirst first (classify_next sha256 s c).1
  classify_next-IsFirst first c s h i = elim (classify_next-cases sha256 s c) [
    | inl (k, e) ↦
        rw (e, candidate-next s c)
          (IsFirst-remember first c (classify_next sha256 s c).0.frame_fingerprint s h i)
    | inr (k, e) ↦ rw e i
  ]

  classify_rest-Compares :
      (first : FrameCandidate) (cs : List FrameCandidate) (s : Seen)
      → Above first cs
      → IsFirst first s
      → All (ComparesWith first) (classify_rest sha256 s cs)
  unfolding classify_rest
  classify_rest-Compares first [] s h i = tt
  classify_rest-Compares first (c ∷ cs) s h i = (
    classify_next-Compares first c s i,
    classify_rest-Compares first cs (classify_next sha256 s c).1 h.1
        (classify_next-IsFirst first c s h.0 i),
  )

  -- Provided the later candidates have higher sequences than the first: the first frame is unique,
  -- and no later one is. A later frame that is classified as distinct contradicts the first one at
  -- shared positions, which are those it reports; one classified as a partial replay names the
  -- first one, shares a position with it and contradicts it at none; an ambiguous one shares none.
  pub classify-ComparesWith_first :
      (c : FrameCandidate) (cs : List FrameCandidate)
      → Above c cs
      → (f : ClassifiedFrame) × (fs : List ClassifiedFrame) × (classify_group sha256 (c ∷ cs)
          ≡ f ∷ fs)
        × (f.classification ≡ DuplicateClassification.unique)
        × All (ComparesWith c) fs
  unfolding classify_group
  classify-ComparesWith_first c cs h = (
    (classify_first sha256 c).0,
    classify_rest sha256 (classify_first sha256 c).1 cs,
    refl,
    refl,
    classify_rest-Compares c cs (classify_first sha256 c).1 h
        (record { lowest = refl; remembered = omega arith; payload = ground arith }),
  )
