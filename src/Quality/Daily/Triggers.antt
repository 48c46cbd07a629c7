-- ===== src/Quality/Daily/Triggers.antt =====
-- When the rules of a charger-day speak.
use predictive_analysis.Common.{
  ℕ, Bool, true, false, ◌&&◌, ◌||◌, List, [], ◌∷◌, ◌++◌, ◌≡◌, ◌∙◌, refl, ap₂, arith, ltb, leb, any,
  select, length, if◌then◌else◌, Bool-cases, inl, inr,
}
use predictive_analysis.Common.Codes.{Text}
use predictive_analysis.Common.Sorting.{any-sort_by}
use predictive_analysis.Ingestion.Coverage.{GapCandidate, CompletenessStatus}
use predictive_analysis.Quality.Kinds.{QualityIssueType, QualitySeverity}
use predictive_analysis.Quality.Daily.{
  ChargerDayContext, DailyQualitySeverities, DailyFinding, severity_of, parse_gap_severity,
  gap_order, is_missing, is_late_status, has_data,
}
use predictive_analysis.Quality.Daily.Rules.{
  completeness_of, gap_finding, mismatch_findings, shows_cadence, shortfall, run_rules, daily_rules,
  daily_le, evaluate_charger_day_rules,
}

-- What a rule looks for: its code, the configured severity, and whether the charger-day shows it.
pub record Trigger : Type 0 where
  pub code : QualityIssueType
  pub configured : Text
  pub holds : Bool

abbrev pub is_partial : CompletenessStatus → Bool
is_partial CompletenessStatus.partial = true
is_partial status = false

abbrev pub is_severely_incomplete : CompletenessStatus → Bool
is_severely_incomplete CompletenessStatus.severely_incomplete = true
is_severely_incomplete status = false

abbrev pub triggers : ChargerDayContext → DailyQualitySeverities → List Trigger
triggers ctx cfg =
    let ev = ctx.evaluation in
    let floor = gap_order (parse_gap_severity cfg.gap_min_severity) in
    record {
      code = QualityIssueType.missing_charger_data;
      configured = cfg.missing_charger_data;
      holds = is_missing ctx.arrival_status;
    }
    ∷ (record {
      code = QualityIssueType.late_file;
      configured = cfg.late_file;
      holds = is_late_status ctx.arrival_status;
    }
        ∷ (record {
          code = QualityIssueType.partial_day;
          configured = cfg.partial_day;
          holds = is_partial ev.completeness_status;
        }
            ∷ (record {
              code = QualityIssueType.severely_incomplete_day;
              configured = cfg.severely_incomplete_day;
              holds = is_severely_incomplete ev.completeness_status;
            }
                ∷ (record {
                  code = QualityIssueType.telemetry_gap;
                  configured = cfg.telemetry_gap;
                  holds = any (λ (g : GapCandidate). leb floor (gap_order g.severity)) ev.gaps;
                }
                    ∷ (record {
                      code = QualityIssueType.abnormal_sampling_interval;
                      configured = cfg.abnormal_sampling_interval;
                      holds = shows_cadence ev;
                    }
                        ∷ (record {
                          code = QualityIssueType.missing_expected_connector;
                          configured = cfg.missing_expected_connector;
                          holds =
                              has_data ev
                              && ltb 0 (
                                  shortfall ctx.expected_connectors
                                    (length ev.connectors_detected));
                        }
                            ∷ (record {
                              code = QualityIssueType.missing_expected_smr;
                              configured = cfg.missing_expected_smr;
                              holds =
                                  has_data ev
                                  && ltb 0 (shortfall ctx.expected_smrs (length ev.smrs_detected));
                            }
                                ∷ (record {
                                  code = QualityIssueType.multiple_files_same_charger_day;
                                  configured = cfg.multiple_files_same_charger_day;
                                  holds = ltb 1 ev.file_count;
                                }
                                    ∷ (record {
                                      code = QualityIssueType.overlapping_file_coverage;
                                      configured = cfg.overlapping_file_coverage;
                                      holds = ltb 0 ev.overlapping_timestamp_count;
                                    }
                                        ∷ (record {
                                          code = QualityIssueType.event_date_filename_mismatch;
                                          configured = cfg.event_date_filename_mismatch;
                                          holds =
                                              any (λ (m : Text × ℕ). true)
                                                ctx.filename_date_mismatches;
                                        }
                                            ∷ []))))))))))

any-append :
    (p : DailyFinding → Bool) (xs ys : List DailyFinding)
    → any p (xs ++ ys) ≡ (any p xs || any p ys)
any-append p [] ys = refl
any-append p (x ∷ xs) ys = ground (arith, any-append p xs ys)

module _ (P : QualityIssueType → QualitySeverity → Bool) where
  -- Some finding passes the test.
  abbrev pub shown : List DailyFinding → Bool
  shown fs = any (λ f. P f.rule_code f.severity) fs

  -- Some trigger that holds passes the test, with its severity.
  abbrev pub due : List Trigger → Bool
  due ts = any (λ (t : Trigger). t.holds && P t.code (severity_of t.configured)) ts

  shown-completeness_of :
      (ctx : ChargerDayContext) (cfg : DailyQualitySeverities) (status : CompletenessStatus)
      → shown (completeness_of ctx cfg status) ≡ (
          (is_partial status && P QualityIssueType.partial_day (severity_of cfg.partial_day))
          || (is_severely_incomplete status
              && P QualityIssueType.severely_incomplete_day
                  (severity_of cfg.severely_incomplete_day)))
  shown-completeness_of ctx cfg CompletenessStatus.partial = ground arith
  shown-completeness_of ctx cfg CompletenessStatus.severely_incomplete = ground arith
  shown-completeness_of ctx cfg CompletenessStatus.complete = refl
  shown-completeness_of ctx cfg CompletenessStatus.no_data = refl
  shown-completeness_of ctx cfg CompletenessStatus.unknown = refl

  shown-gap_finding :
      (ctx : ChargerDayContext) (cfg : DailyQualitySeverities) (p : GapCandidate → Bool)
      (gaps : List GapCandidate)
      → shown (gap_finding ctx cfg (select p gaps))
        ≡ (any p gaps && P QualityIssueType.telemetry_gap (severity_of cfg.telemetry_gap))
  shown-gap_finding ctx cfg p [] = refl
  shown-gap_finding ctx cfg p (g ∷ gaps) = elim (Bool-cases (p g)) [
    | inl h ↦ rw h (ground arith)
    | inr h ↦ rw h (shown-gap_finding ctx cfg p gaps)
  ]

  shown-mismatch_findings :
      (ctx : ChargerDayContext) (cfg : DailyQualitySeverities) (ms : List (Text × ℕ))
      → shown (mismatch_findings ctx cfg ms) ≡ (
          any (λ (m : Text × ℕ). true) ms
          && P QualityIssueType.event_date_filename_mismatch
              (severity_of cfg.event_date_filename_mismatch))
  shown-mismatch_findings ctx cfg [] = refl
  shown-mismatch_findings ctx cfg (m ∷ ms) = ground (arith, shown-mismatch_findings ctx cfg ms)

  -- A rule that yields one finding if it speaks at all.
  shown_if :
      (b : Bool) (f : DailyFinding)
      → shown (if b then f ∷ [] else []) ≡ (b && P f.rule_code f.severity)
  shown_if true f = ground arith
  shown_if false f = refl

  shown_unless :
      (a b : ℕ) (f : DailyFinding)
      → shown (if leb a b then [] else f ∷ []) ≡ (ltb b a && P f.rule_code f.severity)
  shown_unless a b f = ground arith

  shown_pair :
      (b c d : Bool) (f g : DailyFinding)
      → shown (if b then (if c then f ∷ [] else []) ++ (if d then g ∷ [] else []) else [])
        ≡ (((b && c) && P f.rule_code f.severity) || ((b && d) && P g.rule_code g.severity))
  shown_pair true true d f g = ground arith
  shown_pair true false d f g = ground arith
  shown_pair false c d f g = refl

  -- One more rule: it has one trigger, or two.
  one_rule :
      (xs ys : List DailyFinding) {b c : Bool}
      → shown xs ≡ b
      → shown ys ≡ c
      → shown (xs ++ ys) ≡ (b || c)
  one_rule xs ys h k = any-append (λ f. P f.rule_code f.severity) xs ys ∙ ap₂ (λ x y. x || y) h k

  two_rules :
      (xs ys : List DailyFinding) (a b : Bool) {c : Bool}
      → shown xs ≡ (a || b)
      → shown ys ≡ c
      → shown (xs ++ ys) ≡ (a || (b || c))
  two_rules xs ys a b h k = any-append (λ f. P f.rule_code f.severity) xs ys ∙ ground (arith, h, k)

  module _ (sha256 : Text → Text) (date_text : ℕ → Text) (time_text : ℕ → Text) where
    -- Whatever code and severity a test accepts, the rules yield a finding that passes it exactly when
    -- the charger-day meets the condition of some rule whose code, with the severity that is
    -- configured for it, passes it.
    pub evaluate_charger_day_rules-shown :
        (ctx : ChargerDayContext) (cfg : DailyQualitySeverities)
        → shown (evaluate_charger_day_rules sha256 date_text time_text ctx cfg)
          ≡ due (triggers ctx cfg)
    unfolding evaluate_charger_day_rules
    evaluate_charger_day_rules-shown ctx cfg =
        any-sort_by (daily_le sha256 date_text time_text) (λ f. P f.rule_code f.severity)
          (run_rules daily_rules ctx cfg)
        ∙ one_rule _ _ (shown_if (is_missing ctx.arrival_status) _) (
            one_rule _ _ (shown_if (is_late_status ctx.arrival_status) _) (
              two_rules _ _ _ _ (shown-completeness_of ctx cfg ctx.evaluation.completeness_status) (
                one_rule _ _ (shown-gap_finding ctx cfg _ ctx.evaluation.gaps) (
                  one_rule _ _ (shown_if (shows_cadence ctx.evaluation) _) (
                    two_rules _ _ _ _ (shown_pair (has_data ctx.evaluation) _ _ _ _) (
                      one_rule _ _ (shown_unless ctx.evaluation.file_count 1 _) (
                        one_rule _ _ (shown_unless ctx.evaluation.overlapping_timestamp_count 0 _) (
                          one_rule _ _
                            (shown-mismatch_findings ctx cfg ctx.filename_date_mismatches)
                            refl))))))))
