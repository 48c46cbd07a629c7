-- ===== src/Frames/Replay/Verdicts.antt =====
-- What the verdicts of `classify_group` mean, for any candidates in any order of sequences.
use predictive_analysis.Common.{
  ℕ, Bool, true, false, ◌≡◌, ◌≢◌, ◌⊎◌, none, some, List, [], ◌∷◌, map, arith, refl, ◌==◌,
  Option-cases, inl, inr, ap, nat_eq, string_eq, eq_iff, any, ◌&&◌, String,
}
use predictive_analysis.Common.Dict.{get, get-put}
use predictive_analysis.Frames.Models.{position_eq, DuplicateClassification}
use predictive_analysis.Frames.Builder.{FrameCandidate}
use predictive_analysis.Frames.Replay.{
  ClassifiedFrame, Seen, classify_first, classify_next, classify_rest, classify_group,
  fingerprint_of, remember,
}

-- A frame that is no replay: its payload and its fingerprint were remembered.
abbrev kept_class : DuplicateClassification → Bool
kept_class DuplicateClassification.full_frame_replay = false
kept_class DuplicateClassification.partial_frame_replay = false
kept_class _ = true

abbrev pub is_kept : ClassifiedFrame → Bool
is_kept f = kept_class f.classification

-- A kept frame with the fingerprint; and one that has the sequence, too.
abbrev pub has_fingerprint : String → ClassifiedFrame → Bool
has_fingerprint x k = is_kept k && k.frame_fingerprint == x

abbrev pub has_both : String → ℕ → ClassifiedFrame → Bool
has_both x n k = has_fingerprint x k && k.candidate.sequence == n

-- `seen_fingerprints` holds the fingerprints of the kept frames among the earlier results.
record IsIndex (s : Seen) (earlier : List ClassifiedFrame) : Type 0 where
  known : (x : String) (n : ℕ) → get x s.fingerprints ≡ some n → any (has_both x n) earlier ≡ true
  fresh : (x : String) → get x s.fingerprints ≡ none → any (has_fingerprint x) earlier ≡ false

-- What a verdict says of the earlier results, which are given in reverse.
pub record IsJust (f : ClassifiedFrame) (earlier : List ClassifiedFrame) : Type 0 where
  -- A full replay names a kept frame of the same fingerprint.
  pub replay :
      f.classification ≡ DuplicateClassification.full_frame_replay
      → (n : ℕ) × (f.replay_of_sequence ≡ some n)
        × (any (has_both f.frame_fingerprint n) earlier ≡ true)
  -- What is no full replay has a fingerprint that no kept frame has.
  pub new :
      f.classification ≢ DuplicateClassification.full_frame_replay
      → any (has_fingerprint f.frame_fingerprint) earlier ≡ false

abbrev pub AllJust : List ClassifiedFrame → List ClassifiedFrame → Type 0
AllJust [] earlier = Unit
AllJust (f ∷ fs) earlier = IsJust f earlier × AllJust fs (f ∷ earlier)

-- The fingerprint of a text that is remembered, for any text.
IsIndex-remember :
    (s : Seen) (earlier : List ClassifiedFrame) (f : ClassifiedFrame)
    → is_kept f ≡ true
    → IsIndex s earlier
    → IsIndex (remember f.candidate f.frame_fingerprint s) (f ∷ earlier)
IsIndex-remember s earlier f k i = record {
  known = λ x n h. ground (
    arith,
    i.known x n,
    get-put f.frame_fingerprint x f.candidate.sequence s.fingerprints,
    eq_iff f.frame_fingerprint x,
  );
  fresh = λ x h. ground (
    arith,
    i.fresh x,
    get-put f.frame_fingerprint x f.candidate.sequence s.fingerprints,
    eq_iff f.frame_fingerprint x,
  );
}

IsIndex-skip :
    (s : Seen) (earlier : List ClassifiedFrame) (f : ClassifiedFrame)
    → is_kept f ≡ false
    → IsIndex s earlier
    → IsIndex s (f ∷ earlier)
IsIndex-skip s earlier f k i = record {
  known = λ x n h. rw k (i.known x n h);
  fresh = λ x h. rw k (i.fresh x h);
}

module _ (sha256 : String → String) where
  candidate-classify_next :
      (s : Seen) (c : FrameCandidate) → (classify_next sha256 s c).0.candidate ≡ c
  unfolding classify_next
  candidate-classify_next s c = ground arith

  classify_rest-candidates :
      (s : Seen) (cs : List FrameCandidate)
      → map (λ (f : ClassifiedFrame). f.candidate) (classify_rest sha256 s cs) ≡ cs
  unfolding classify_rest
  classify_rest-candidates s [] = refl
  classify_rest-candidates s (c ∷ cs) =
      cc (candidate-classify_next s c, classify_rest-candidates (classify_next sha256 s c).1 cs)

  -- Every candidate is classified, once and in its order: nothing is dropped as a duplicate.
  pub classify-keeps_candidates :
      (cs : List FrameCandidate)
      → map (λ (f : ClassifiedFrame). f.candidate) (classify_group sha256 cs) ≡ cs
  unfolding classify_group
  classify-keeps_candidates [] = refl
  classify-keeps_candidates (c ∷ cs) =
      ap (λ l. c ∷ l) (classify_rest-candidates (classify_first sha256 c).1 cs)

  classify_next-IsJust :
      (s : Seen) (earlier : List ClassifiedFrame) (c : FrameCandidate)
      → IsIndex s earlier
      → IsJust (classify_next sha256 s c).0 earlier
  unfolding classify_next
  classify_next-IsJust s earlier c i =
      elim (Option-cases (get (fingerprint_of sha256 c) s.fingerprints)) [
        | inl e ↦ rw e (record {
          replay = λ h. ground arith;
          new = λ h. ground (arith, i.fresh (fingerprint_of sha256 c) e);
        })
        | inr (n, e) ↦ rw e (record {
          replay = λ h. (n, refl, i.known (fingerprint_of sha256 c) n e);
          new = λ h. absurd (h refl);
        })
      ]

  -- A turn either remembers the frame that it keeps or leaves the dicts alone.
  pub classify_next-cases :
      (s : Seen) (c : FrameCandidate)
      → let (f, s') = classify_next sha256 s c in
        (is_kept f ≡ true) × (s' ≡ remember f.candidate f.frame_fingerprint s)
        ⊎ (is_kept f ≡ false) × (s' ≡ s)
  unfolding classify_next
  classify_next-cases s c = ground arith

  classify_next-IsIndex :
      (s : Seen) (earlier : List ClassifiedFrame) (c : FrameCandidate)
      → IsIndex s earlier
      → IsIndex (classify_next sha256 s c).1 ((classify_next sha256 s c).0 ∷ earlier)
  classify_next-IsIndex s earlier c i = elim (classify_next-cases s c) [
    | inl (k, e) ↦ rw e (IsIndex-remember s earlier (classify_next sha256 s c).0 k i)
    | inr (k, e) ↦ rw e (IsIndex-skip s earlier (classify_next sha256 s c).0 k i)
  ]

  classify_rest-AllJust :
      (s : Seen) (earlier : List ClassifiedFrame) (cs : List FrameCandidate)
      → IsIndex s earlier
      → AllJust (classify_rest sha256 s cs) earlier
  unfolding classify_rest
  classify_rest-AllJust s earlier [] i = tt
  classify_rest-AllJust s earlier (c ∷ cs) i = (
    classify_next-IsJust s earlier c i,
    classify_rest-AllJust (classify_next sha256 s c).1 ((classify_next sha256 s c).0 ∷ earlier) cs
        (classify_next-IsIndex s earlier c i),
  )

  IsIndex-nothing : IsIndex (record { fingerprints = []; payloads = [] }) []
  IsIndex-nothing = record { known = λ x n h. cc; fresh = λ x h. refl }

  -- A frame is a full replay exactly when an earlier frame that is no replay has its fingerprint,
  -- and then it names such a frame; an earlier partial replay makes no full replay.
  pub classify-full_replays : (cs : List FrameCandidate) → AllJust (classify_group sha256 cs) []
  unfolding classify_group
  classify-full_replays [] = tt
  classify-full_replays (c ∷ cs) = (
    record { replay = λ h. cc; new = λ h. refl },
    classify_rest-AllJust (classify_first sha256 c).1 ((classify_first sha256 c).0 ∷ []) cs (
        IsIndex-remember (record { fingerprints = []; payloads = [] }) []
          (classify_first sha256 c).0 refl IsIndex-nothing),
  )
