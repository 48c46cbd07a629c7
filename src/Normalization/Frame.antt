-- ===== src/Normalization/Frame.antt =====
-- CanonicalFramePayloadResolver.resolve_frame of pipelines/normalization/payload_resolver.py: every
-- position of a header, resolved across the raw rows of a frame. The keys of the frame that the
-- payload only carries are left out.
pub mod Conflicts
use predictive_analysis.Common.{
  ℕ, ◌+◌, Bool, true, false, ◌&&◌, ◌||◌, Option, none, some, List, [], ◌∷◌, ◌++◌, String,
  if◌then◌else◌, ◌==◌, ltb, not, nat_eq, eqb,
}
use predictive_analysis.Common.Dict.{Dict, get_or, put, append_to}
use predictive_analysis.Common.Text.{codes, one_of}
use predictive_analysis.Common.Codes.{Text, text_eq}
use predictive_analysis.Common.Integers.{ℤ, integer_eq}
use predictive_analysis.Validation.Dictionary.{FieldSpec, DictionaryRegistry}
use predictive_analysis.Validation.Resolution.{resolve_field}
use predictive_analysis.Normalization.Coercion.{PythonValues, coerce_integer, is_blank}
use predictive_analysis.Normalization.Resolver.{RawRow, cell, FieldResolution, resolve_scalar_field}

-- The dictionary file that a definition comes from, `spec.origin`.
pub data Origin : Type 0 where
  identity charger connector rectifier smr contactor alarm session counters communication : Origin
  configuration other : Origin

abbrev origin_of : Text → Origin
origin_of t =
    if t == codes "identity.yaml"
    then Origin.identity
    else if t == codes "charger.yaml"
    then Origin.charger
    else if t == codes "connector.yaml"
    then Origin.connector
    else if t == codes "rectifier.yaml"
    then Origin.rectifier
    else if t == codes "smr.yaml"
    then Origin.smr
    else if t == codes "contactor.yaml"
    then Origin.contactor
    else if t == codes "alarm.yaml"
    then Origin.alarm
    else if t == codes "session.yaml"
    then Origin.session
    else if t == codes "counters.yaml"
    then Origin.counters
    else if t == codes "communication.yaml"
    then Origin.communication
    else if t == codes "configuration.yaml"
    then Origin.configuration
    else Origin.other

-- An entry of `payload.conflicts`; the component is the connector, rectifier or SMR, where scoped.
pub record Conflict : Type 0 where
  pub field : Text
  pub position : ℕ
  pub component : Option ℤ
  pub kind : String
  pub values : List Text

pub record Sentinel : Type 0 where
  pub field : Text
  pub position : ℕ
  pub component : ℤ
  pub raw : Option Text

-- `a or b` of two cells.
abbrev cell_or : Option Text → Option Text → Option Text
cell_or none b = b
cell_or (some a) b = if is_blank a then b else some a

-- `n or 1`
abbrev or_one : Option ℤ → ℤ
or_one none = ℤ.pos 1
or_one (some n) = if n == ℤ.pos 0 then ℤ.pos 1 else n

abbrev stop_reason : Text
stop_reason = codes "Last Charge Session Stop Reason"

module _ (P : PythonValues) where
  abbrev pub FieldTable : Type 0
  FieldTable = Dict Text (FieldResolution P)

  abbrev pub ComponentTable : Type 0
  ComponentTable = Dict ℤ FieldTable

  pub record ResolvedFramePayload : Type 0 where
    pub site_metadata : FieldTable
    pub charger_telemetry : FieldTable
    pub connector_telemetry : ComponentTable
    pub rectifier_telemetry : ComponentTable
    pub smr_telemetry : ComponentTable
    pub contactor_observation : FieldTable
    pub alarm_observation : FieldTable
    pub session_observation : ComponentTable
    pub lifecycle_counters : FieldTable
    pub communication_observation : FieldTable
    pub configuration_snapshot : FieldTable
    pub conflicts : List Conflict
    pub sentinels_masked : List Sentinel

  abbrev empty_payload : ResolvedFramePayload
  empty_payload = record {
    site_metadata = [];
    charger_telemetry = [];
    connector_telemetry = [];
    rectifier_telemetry = [];
    smr_telemetry = [];
    contactor_observation = [];
    alarm_observation = [];
    session_observation = [];
    lifecycle_counters = [];
    communication_observation = [];
    configuration_snapshot = [];
    conflicts = [];
    sentinels_masked = [];
  }

  -- `coerce_integer(row.get(a) or row.get(b)) or 1`
  abbrev number_of : Option Text → ℤ
  number_of none = ℤ.pos 1
  number_of (some text) = or_one (coerce_integer P text)

  abbrev component_of : String → String → RawRow → ℤ
  component_of header canonical row =
      number_of (cell_or (cell row (codes header)) (cell row (codes canonical)))

  -- `rows_by_connector` and the like.
  abbrev pub rows_by : (RawRow → ℤ) → List RawRow → Dict ℤ (List RawRow) → Dict ℤ (List RawRow)
  rows_by component [] groups = groups
  rows_by component (row ∷ rows) groups =
      rows_by component rows (append_to (component row) row groups)

  -- The entries that a resolution adds to the conflicts and to the masked sentinels.
  unfoldable pub log_conflict :
      FieldResolution P → Option ℤ → String → List Conflict → List Conflict
  log_conflict res component kind conflicts =
      if res.has_conflict
      then conflicts
        ++ record {
          field = res.canonical_name;
          position = res.source_position;
          component = component;
          kind = kind;
          values = res.conflict_values;
        }
          ∷ []
      else conflicts

  abbrev log_sentinel : FieldResolution P → ℤ → List Sentinel → List Sentinel
  log_sentinel res component sentinels =
      if res.masked_sentinel
      then sentinels
        ++ record {
          field = res.canonical_name;
          position = res.source_position;
          component = component;
          raw = res.raw_value;
        }
          ∷ []
      else sentinels

  abbrev put_component : ℤ → FieldResolution P → ComponentTable → ComponentTable
  put_component id res table = put id (put res.canonical_name res (get_or id [] table)) table

  -- The tables, the conflicts and the sentinels of the components so far.
  pub record Scoped : Type 0 where
    pub table : ComponentTable
    pub logged : List Conflict
    pub masked : List Sentinel

  abbrev pub resolve_component : ℕ → Text → FieldSpec → String → ℤ → List RawRow → Scoped → Scoped
  resolve_component position header spec kind id rows s =
      let res = resolve_scalar_field P position header spec rows in
      record {
        table = put_component id res s.table;
        logged = log_conflict res (some id) kind s.logged;
        masked = log_sentinel res id s.masked;
      }

  -- `for conn_id, conn_rows in rows_by_connector.items()`; a component is skipped by a test.
  unfoldable pub resolve_scoped :
      ℕ → Text → FieldSpec → String → (ℤ → Bool) → Dict ℤ (List RawRow) → Scoped → Scoped
  resolve_scoped position header spec kind skipped [] s = s
  resolve_scoped position header spec kind skipped ((id, rows) ∷ groups) s =
      resolve_scoped position header spec kind skipped groups
        (if skipped id then s else resolve_component position header spec kind id rows s)

  -- The rows of the frame, by connector, rectifier and SMR.
  pub record Groups : Type 0 where
    pub all : List RawRow
    pub by_connector : Dict ℤ (List RawRow)
    pub by_rectifier : Dict ℤ (List RawRow)
    pub by_smr : Dict ℤ (List RawRow)

  unfoldable pub group_rows : List RawRow → Groups
  group_rows rows = record {
    all = rows;
    by_connector = rows_by (component_of "Connector No" "connector_no") rows [];
    by_rectifier = rows_by (component_of "Rectifier Number" "rectifier_number") rows [];
    by_smr = rows_by (component_of "Smr No." "smr_no") rows [];
  }

  -- The connectors that a stop reason is not about.
  abbrev other_connector : Text → ℤ → Bool
  other_connector name id =
      name == codes "last_charge_session_stop_reason" && not (id == ℤ.pos 1)
      || name == codes "last_charge_session_stop_reason_secondary" && not (id == ℤ.pos 2)

  abbrev scoped : ComponentTable → ResolvedFramePayload → Scoped
  scoped table p = record { table = table; logged = p.conflicts; masked = p.sentinels_masked }

  abbrev every : ℤ → Bool
  every id = false

  abbrev with_site : Text → FieldResolution P → ResolvedFramePayload → ResolvedFramePayload
  with_site name res p = record p { site_metadata = put name res p.site_metadata }

  -- One position, by the file of its definition.
  unfoldable pub resolve_position :
      Origin → ℕ → Text → FieldSpec → Groups → ResolvedFramePayload → ResolvedFramePayload
  unfolding resolve_scoped
  resolve_position Origin.identity position header spec rows p =
      if spec.canonical_name == codes "charging_station"
      then with_site spec.canonical_name (resolve_scalar_field P position header spec rows.all) p
      else p
  resolve_position Origin.charger position header spec rows p =
      let res = resolve_scalar_field P position header spec rows.all in
      record p {
        charger_telemetry = put spec.canonical_name res p.charger_telemetry;
        conflicts = log_conflict res none "REPEATED_FIELD_CONFLICT" p.conflicts;
      }
  resolve_position Origin.connector position header spec rows p =
      let s =
        resolve_scoped position header spec "CONNECTOR_FIELD_CONFLICT" every rows.by_connector
          (scoped p.connector_telemetry p) in
      record p { connector_telemetry = s.table; conflicts = s.logged; sentinels_masked = s.masked }
  resolve_position Origin.rectifier position header spec rows p =
      let s =
        resolve_scoped position header spec "RECTIFIER_FIELD_CONFLICT" every rows.by_rectifier
          (scoped p.rectifier_telemetry p) in
      record p { rectifier_telemetry = s.table; conflicts = s.logged; sentinels_masked = s.masked }
  resolve_position Origin.smr position header spec rows p =
      let s =
        resolve_scoped position header spec "SMR_FIELD_CONFLICT" every rows.by_smr
          (scoped p.smr_telemetry p) in
      record p { smr_telemetry = s.table; conflicts = s.logged; sentinels_masked = s.masked }
  resolve_position Origin.contactor position header spec rows p =
      let res = resolve_scalar_field P position header spec rows.all in
      record p {
        contactor_observation = put spec.canonical_name res p.contactor_observation;
        conflicts = log_conflict res none "REPEATED_FIELD_CONFLICT" p.conflicts;
      }
  resolve_position Origin.alarm position header spec rows p =
      let res = resolve_scalar_field P position header spec rows.all in
      record p {
        alarm_observation = put spec.canonical_name res p.alarm_observation;
        conflicts = log_conflict res none "REPEATED_FIELD_CONFLICT" p.conflicts;
      }
  resolve_position Origin.session position header spec rows p =
      let s =
        resolve_scoped position header spec "CONNECTOR_FIELD_CONFLICT"
          (other_connector spec.canonical_name) rows.by_connector
          (scoped p.session_observation p) in
      record p { session_observation = s.table; conflicts = s.logged }
  resolve_position Origin.counters position header spec rows p =
      let res = resolve_scalar_field P position header spec rows.all in
      record p { lifecycle_counters = put spec.canonical_name res p.lifecycle_counters }
  resolve_position Origin.communication position header spec rows p =
      let res = resolve_scalar_field P position header spec rows.all in
      record p {
        communication_observation = put spec.canonical_name res p.communication_observation;
        conflicts = log_conflict res none "REPEATED_FIELD_CONFLICT" p.conflicts;
      }
  resolve_position Origin.configuration position header spec rows p =
      let res = resolve_scalar_field P position header spec rows.all in
      record p { configuration_snapshot = put spec.canonical_name res p.configuration_snapshot }
  resolve_position Origin.other position header spec rows p = p

  -- `rule.pattern.match(source_name)`
  module _ (matches : Text → Text → Bool) where
    -- The occurrence of a header, with the exception for the second stop reason.
    abbrev occurrence_of : Text → ℕ → ℕ → ℕ
    occurrence_of header position occurrence =
        if header == stop_reason && ltb 150 position then 2 else occurrence

    -- The loops over the header: each definition is found with the counts so far, and its position
    -- resolved.
    unfoldable pub resolve_positions :
        DictionaryRegistry
        → ℕ
        → Dict Text ℕ
        → List Text
        → Groups
        → ResolvedFramePayload
        → ResolvedFramePayload
    unfolding resolve_position
    resolve_positions registry position counts [] rows p = p
    resolve_positions registry position counts (header ∷ headers) rows p =
        let occurrence = get_or header 0 counts + 1 in
        let found =
          resolve_field matches registry header (occurrence_of header position occurrence) position
            header in
        let spec = found.spec in
        resolve_positions registry (position + 1) (put header occurrence counts) headers rows
          (resolve_position (origin_of spec.origin) position header spec rows p)

    abbrev resolve_rows : DictionaryRegistry → List Text → List RawRow → ResolvedFramePayload
    resolve_rows registry headers [] = empty_payload
    resolve_rows registry headers (row ∷ rows) =
        resolve_positions registry 1 [] headers (group_rows (row ∷ rows)) empty_payload

    unfoldable pub resolve_frame :
        DictionaryRegistry → List RawRow → List Text → ResolvedFramePayload
    unfolding resolve_positions group_rows
    resolve_frame registry raw_rows headers = resolve_rows registry headers raw_rows
