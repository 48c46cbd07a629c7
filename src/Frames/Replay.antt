-- ===== src/Frames/Replay.antt =====
-- pipelines/frame_reconstruction/replay_detector.py, with the frame fingerprint of
-- canonical_serializer.py: which frames at one event time repeat an earlier one. SHA-256, which
-- the program calls, is a parameter.
pub mod Verdicts
pub mod Canonical
use Prim.Native.String.{◌++◌ as append}
use predictive_analysis.Common.{
  ℕ, Bool, true, false, Option, none, some, List, [], ◌∷◌, ◌++◌, map, String, not, ◌==◌, string_eq,
  nat_eq, select, contains, length, if◌then◌else◌,
}
use predictive_analysis.Common.Dict
use predictive_analysis.Common.Dict.{Dict, keys, get, get_or, put}
use predictive_analysis.Common.Sorting.{sort_by}
use predictive_analysis.Common.Text.{text_le}
use predictive_analysis.Frames.Models.{
  LogicalPosition, position_eq, position_le, RawRowRef, FrameStatus, DuplicateClassification,
  ReconstructionIssueType, is_canonical_class,
}
use predictive_analysis.Frames.Groups.{least}
use predictive_analysis.Frames.Builder.{
  FrameCandidate, Note, candidate_missing, candidate_unexpected,
}

-- `str(position)`
abbrev pub position_text : LogicalPosition → String
position_text p = append "C" (append p.connector_id (append "/S" p.smr_id))

-- `sep.join(parts)`
abbrev pub join : String → List String → String
join sep [] = ""
join sep (s ∷ []) = s
join sep (s ∷ (t ∷ rest)) = append s (append sep (join sep (t ∷ rest)))

abbrev pair_text : String × String → String
pair_text e = append e.0 (append "=" e.1)

abbrev pair_le : String × String → String × String → Bool
pair_le a b = if a.0 == b.0 then text_le a.1 b.1 else text_le a.0 b.0

-- `CanonicalSerializer.frame_fingerprint`
unfoldable pub frame_fingerprint : (String → String) → Dict String String → String
frame_fingerprint sha256 fingerprints =
    sha256 (join "\u{1e}" (map pair_text (sort_by pair_le fingerprints)))

-- The notes that a classified frame carries: its candidate's, or one of the detector's own.
pub data FrameNote : Type 0 where
  of_candidate : Option Note → FrameNote
  repeats_positions : ℕ → FrameNote
  shares_no_position : FrameNote

pub record ClassifiedFrame : Type 0 where
  pub candidate : FrameCandidate
  pub frame_fingerprint : String
  pub classification : DuplicateClassification
  pub replay_of_sequence : Option ℕ
  pub issues : List ReconstructionIssueType
  pub differing_positions : List LogicalPosition
  pub note : FrameNote

-- `ClassifiedFrame.is_canonical`
abbrev pub is_canonical : ClassifiedFrame → Bool
is_canonical f = is_canonical_class f.classification

abbrev pub Payload : Type 0
Payload = Dict LogicalPosition String

-- `{position: row.row_fingerprint for position, row in rows_by_position.items()}`
unfoldable pub payload_of : FrameCandidate → Payload
payload_of c =
    map (λ (e : LogicalPosition × RawRowRef). (e.0, e.1.row_fingerprint)) c.rows_by_position

-- The entries of a dict comprehension: a later entry replaces the value of an equal key.
abbrev put_all : Dict String String → Dict String String → Dict String String
put_all [] d = d
put_all ((k, v) ∷ rest) d = put_all rest (put k v d)

-- `_position_fingerprints`
unfoldable pub position_fingerprints : FrameCandidate → Dict String String
unfolding payload_of
position_fingerprints c =
    put_all (map (λ (e : LogicalPosition × String). (position_text e.0, e.1)) (payload_of c)) []

abbrev shared_positions : Payload → Payload → List LogicalPosition
shared_positions subject canonical = select (λ p. contains (keys canonical) p) (keys subject)

abbrev agree_at : Payload → Payload → LogicalPosition → Bool
agree_at subject canonical p = get_or p "" subject == get_or p "" canonical

-- The two results of `_compare`.
unfoldable pub matching_positions : Payload → Payload → List LogicalPosition
matching_positions subject canonical =
    sort_by position_le (select (agree_at subject canonical) (shared_positions subject canonical))

unfoldable pub differing_positions : Payload → Payload → List LogicalPosition
differing_positions subject canonical =
    sort_by position_le
      (select (λ p. not (agree_at subject canonical p)) (shared_positions subject canonical))

abbrev pub nonempty : List LogicalPosition → Bool
nonempty [] = false
nonempty (_ ∷ _) = true

abbrev is_ambiguous : FrameStatus → Bool
is_ambiguous FrameStatus.ambiguous = true
is_ambiguous _ = false

-- The issues that do not depend on duplication.
unfoldable pub structural_issues : FrameCandidate → List ReconstructionIssueType
structural_issues c =
    (if nonempty (candidate_unexpected c)
      then ReconstructionIssueType.frame_unexpected_position ∷ []
      else [])
    ++ (if is_ambiguous c.status
        then ReconstructionIssueType.ambiguous_frame_boundary ∷ []
        else if nonempty (candidate_missing c)
        then ReconstructionIssueType.frame_missing_position ∷ []
        else [])

-- `note=(candidate.note or f"...")`
abbrev note_or : Option Note → FrameNote → FrameNote
note_or none other = other
note_or (some n) other = of_candidate (some n)

abbrev classified :
    FrameCandidate
    → String
    → DuplicateClassification
    → Option ℕ
    → List ReconstructionIssueType
    → List LogicalPosition
    → FrameNote
    → ClassifiedFrame
classified c fingerprint kind replay_of extra differing note = record {
  candidate = c;
  frame_fingerprint = fingerprint;
  classification = kind;
  replay_of_sequence = replay_of;
  issues = structural_issues c ++ extra;
  differing_positions = differing;
  note = note;
}

-- The dicts of the loop: `seen_fingerprints` and `canonical_payloads`.
pub record Seen : Type 0 where
  pub fingerprints : Dict String ℕ
  pub payloads : Dict ℕ Payload

-- `seen_fingerprints[fingerprint] = sequence; canonical_payloads[sequence] = payload`
abbrev remember : FrameCandidate → String → Seen → Seen
remember c fingerprint s = record {
  fingerprints = put fingerprint c.sequence s.fingerprints;
  payloads = put c.sequence (payload_of c) s.payloads;
}

-- The comparison with the earliest canonical frame, once no fingerprint matched.
unfoldable pub compare_canonical :
    FrameCandidate → String → Seen → ℕ → Payload → ClassifiedFrame × Seen
compare_canonical c fingerprint s sequence canonical =
    let matching = matching_positions (payload_of c) canonical in
    let differing = differing_positions (payload_of c) canonical in
    if nonempty differing
    then (
      classified c fingerprint DuplicateClassification.same_timestamp_distinct_frame none
          (ReconstructionIssueType.same_timestamp_distinct_frame ∷ []) differing
          (of_candidate c.note),
      remember c fingerprint s,
    )
    else if nonempty matching
    then (
      classified c fingerprint DuplicateClassification.partial_frame_replay (some sequence)
          (ReconstructionIssueType.partial_frame_replay ∷ []) []
          (note_or c.note (repeats_positions (length matching))),
      s,
    )
    else (
      classified c fingerprint DuplicateClassification.ambiguous none
          (ReconstructionIssueType.ambiguous_frame_boundary ∷ []) [] shares_no_position,
      remember c fingerprint s,
    )

abbrev against_seen : FrameCandidate → String → Seen → Option ℕ → ClassifiedFrame × Seen
against_seen c fingerprint s (some sequence) = (
  classified c fingerprint DuplicateClassification.full_frame_replay (some sequence)
      (ReconstructionIssueType.full_frame_replay ∷ []) [] (of_candidate c.note),
  s,
)
against_seen c fingerprint s none =
    let sequence = least (keys s.payloads) in
    compare_canonical c fingerprint s sequence (get_or sequence [] s.payloads)

module _ (sha256 : String → String) where
  abbrev pub fingerprint_of : FrameCandidate → String
  fingerprint_of c = frame_fingerprint sha256 (position_fingerprints c)

  -- The turn of the loop for the first candidate, when there are no results.
  unfoldable pub classify_first : FrameCandidate → ClassifiedFrame × Seen
  classify_first c = (
    classified c (fingerprint_of c) DuplicateClassification.unique none [] [] (of_candidate c.note),
    remember c (fingerprint_of c) (record { fingerprints = []; payloads = [] }),
  )

  -- The turn for a later candidate.
  unfoldable pub classify_next : Seen → FrameCandidate → ClassifiedFrame × Seen
  unfolding compare_canonical
  classify_next s c = against_seen c (fingerprint_of c) s (get (fingerprint_of c) s.fingerprints)

  unfoldable pub classify_rest : Seen → List FrameCandidate → List ClassifiedFrame
  classify_rest s [] = []
  classify_rest s (c ∷ cs) = (classify_next s c).0 ∷ classify_rest (classify_next s c).1 cs

  unfoldable pub classify_group : List FrameCandidate → List ClassifiedFrame
  unfolding classify_first
  classify_group [] = []
  classify_group (c ∷ cs) = (classify_first c).0 ∷ classify_rest (classify_first c).1 cs
