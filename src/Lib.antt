-- ===== src/Lib.antt =====
-- Charger telemetry platform: its pure decision code, modelled and proved.
--
-- Files of EV charger telemetry are ingested once a day. The header of a file is parsed, its columns
-- are resolved against a data dictionary and compared with the schema that is registered, and rules
-- over its profile yield quality findings. Every file walks through a fixed state machine; its rows
-- are grouped by charger and second and reconstructed into frames (one row for each connector and
-- power module), frames that were sent twice are classified, and the counters of the pass are kept
-- beside the frames. A frame is normalized into the fields of its tables; over a charger's history
-- events, counters, the sampling, gaps and the presence of components are analysed.
--
-- Profiling/Header: pipelines/profiling/header_parser.py. Suffix, Unique, Identity and Fingerprint
--   are about the names, the identities and the fingerprint of a header.
-- Validation: pipelines/validation. Fields (the enums and the specification of a field), Dictionary
--   and Resolution (dictionary.py: the registry, and the resolution of a header against it),
--   Classifier (classifier.py), Compatibility (compatibility.py), Coverage (coverage.py).
-- Normalization: pipelines/normalization. Coercion (coercion.py), Resolver and Frame
--   (payload_resolver.py: a field, and all the tables of a frame).
-- Ingestion/StateMachine: pipelines/ingestion/state_machine.py and `_transition` of
--   backend/app/services/ingestion_service.py. FileStatus, the table ALLOWED_TRANSITIONS, the guard
--   assert_transition_allowed; Reach is the relation that the table spans, Runs sequences of
--   writes, Stages the order of admission.
-- Ingestion/FileDays: pipelines/ingestion/file_day.py, the split of a file by local date.
-- Ingestion/Coverage: pipelines/ingestion/coverage.py. The policy, the gaps and the timestamps of a
--   charger-day; Evaluation is evaluate_charger_day as a whole, _primary_file and is_late.
-- Frames: pipelines/frame_reconstruction. Models (models.py), LogicalKeys (logical_keys.py, the pass
--   over the rows), Groups (timestamp_groups.py), Builder (frame_builder.py), Replay
--   (replay_detector.py and the frame fingerprint of canonical_serializer.py), Topology
--   (topology.py), Diagnostics (diagnostics.py), Reconstruction (reconstruction_service.py, which
--   composes the others).
-- Quality: pipelines/quality. Kinds (the enums), Findings (base.py, and the observations of
--   pipelines/profiling/profiler.py that the rules read), Rules (rules.py), Daily (daily_rules.py, over
--   the evaluation of Ingestion/Coverage), Scoring and
--   Dimensions (scoring.py: the weighted mean, and the five scores with the whole computation).
-- Events: pipelines/events. Models (models.py), Alarms (alarm_reconstructor.py), Transitions
--   (state_transition_detector.py), Configuration (config_change_detector.py), Sessions
--   (session_reconstructor.py: Reconstruction holds the loop).
-- History: pipelines/history. Counters (counter_analyzer.py), Sampling (sampling_analyzer.py), Gaps
--   (gap_detector.py and eligibility_evaluator.py; Neighbours is about the pairs of times), Presence (topology_tracker.py).
-- Common: lists, association lists, sets, sorting, sums, integers, texts and numerals that the
--   components share.
-- Examples: concrete runs.
--
-- Conventions. A datetime is the number of its microseconds since an epoch; a percentage, a threshold
-- or the value of a counter is a number of thousandths, so divisions are exact comparisons of products
-- where the source uses floats; a Decimal is a number of millionths. The times of a sampling profile
-- are in seconds and its medians in half seconds. A dict is an association list in insertion order, a
-- frozenset a list without repeats. A cell is an optional text, since the readers load every column as
-- text. A text that the source walks by characters is the list of its code points; `lower`,
-- `casefold` and `isdigit` are those of ASCII. A note is a constructor that carries what the source's
-- text shows.
--
-- Fuel: `Topology.pad`, the loop that invents labels, runs on fuel; the declared number of labels is
-- given, and length-pad shows that it is enough. `Decimal.decimal`, which prints a number, runs on
-- fuel above the number, which is above the count of its digits. `free_suffix`, the search for a
-- suffix that no column of a header has, runs on the number of the names in use, and
-- disambiguate-fresh shows that it is enough. All other loops are structural.
--
-- Parameters: SHA-256, the row fingerprint of canonical_serializer.py, the match of a dictionary's
-- regular expression, Python's parsing of floats, decimals and datetimes, the calendar date and the
-- wall clock of a time zone, and the bounds of a business date, which a time zone database gives.
--
-- Not modelled: the loading of YAML, normalizers.py (which fills database rows from resolved fields),
-- the polars expressions of profiler.py, the services of backend/app/services but for `_transition`, the statistics of
-- pipelines/research, database sessions, the HTTP interface, file storage, logging and run times.
pub mod Common
pub mod Events
pub mod Frames
pub mod History
pub mod Ingestion
pub mod Normalization
pub mod Profiling
pub mod Quality
pub mod Validation
pub mod Examples
