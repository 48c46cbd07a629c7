-- ===== src/Normalization/Frame/Conflicts.antt =====
-- The conflicts that a resolved frame logs.
use predictive_analysis.Common.{
  ℕ, ◌+◌, ◌≤◌, Bool, true, false, Option, none, some, List, [], ◌∷◌, ◌≡◌, arith, String, ◌==◌,
  if◌then◌else◌, length, All, All-append, Bool-cases, inl, inr,
}
use predictive_analysis.Common.Dict.{Dict, get_or, put}
use predictive_analysis.Common.Sums.{NoRepeats}
use predictive_analysis.Common.Sets.{sorted_set, NoRepeats-sorted_set}
use predictive_analysis.Common.Text.{codes}
use predictive_analysis.Common.Codes.{Text, text_eq}
use predictive_analysis.Common.Integers.{ℤ}
use predictive_analysis.Validation.Dictionary.{FieldSpec, DictionaryRegistry}
use predictive_analysis.Validation.Resolution.{resolve_field}
use predictive_analysis.Normalization.Coercion.{PythonValues}
use predictive_analysis.Normalization.Resolver.{
  RawRow, FieldResolution, raw_vals, resolution_of, resolve_scalar_field,
}
use predictive_analysis.Normalization.Frame.{
  Origin, origin_of, Conflict, Groups, ResolvedFramePayload, Scoped, log_conflict, resolve_scoped,
  resolve_position, resolve_positions, resolve_frame, group_rows, resolve_component, with_site,
  scoped, every, other_connector, occurrence_of, empty_payload,
}

-- The conflict lists two values at least, and none twice.
abbrev pub IsReal : Conflict → Type 0
IsReal c = (2 ≤ length c.values) × NoRepeats c.values

module _ (P : PythonValues) where
  -- A conflict of the resolution is real.
  abbrev IsSound : FieldResolution P → Type 0
  IsSound r = r.has_conflict ≡ true → (2 ≤ length r.conflict_values) × NoRepeats r.conflict_values

  resolution_of-IsSound :
      (position : ℕ) (spec : FieldSpec) (vals : List Text)
      → NoRepeats vals
      → IsSound (resolution_of P position spec vals)
  unfolding resolution_of
  resolution_of-IsSound position spec [] u h = cc
  resolution_of-IsSound position spec (x ∷ []) u h = cc
  resolution_of-IsSound position spec (x ∷ (y ∷ more)) u h = (omega arith, u)

  resolve_scalar_field-IsSound :
      (position : ℕ) (header : Text) (spec : FieldSpec) (rows : List RawRow)
      → IsSound (resolve_scalar_field P position header spec rows)
  unfolding resolve_scalar_field
  resolve_scalar_field-IsSound position header spec rows =
      let vals = raw_vals header spec rows in
      resolution_of-IsSound position spec (sorted_set vals) (NoRepeats-sorted_set vals)

  log_conflict-IsReal :
      (res : FieldResolution P) (component : Option ℤ) (kind : String) (conflicts : List Conflict)
      → IsSound res
      → All IsReal conflicts
      → All IsReal (log_conflict P res component kind conflicts)
  unfolding log_conflict
  log_conflict-IsReal res component kind conflicts sound h = elim (Bool-cases res.has_conflict) [
    | inl p ↦ rw p (All-append IsReal conflicts _ h (sound p, tt))
    | inr p ↦ rw p h
  ]

  -- One position keeps the conflicts real.
  log_scalar-IsReal :
      (position : ℕ) (header : Text) (spec : FieldSpec) (rows : List RawRow) (component : Option ℤ)
      (kind : String) (conflicts : List Conflict)
      → All IsReal conflicts
      → All IsReal (
          log_conflict P
            (resolve_scalar_field P position header spec rows)
            component
            kind
            conflicts)
  log_scalar-IsReal position header spec rows component kind conflicts h =
      log_conflict-IsReal (resolve_scalar_field P position header spec rows) component kind
        conflicts (resolve_scalar_field-IsSound position header spec rows) h

  either_scoped-IsReal :
      (b : Bool) (s t : Scoped P)
      → All IsReal s.logged
      → All IsReal t.logged
      → All IsReal (if b then s else t).logged
  either_scoped-IsReal true s t h k = h
  either_scoped-IsReal false s t h k = k

  resolve_scoped-IsReal :
      (position : ℕ) (header : Text) (spec : FieldSpec) (kind : String) (skipped : ℤ → Bool)
      (groups : Dict ℤ (List RawRow)) (s : Scoped P)
      → All IsReal s.logged
      → All IsReal (resolve_scoped P position header spec kind skipped groups s).logged
  unfolding resolve_scoped
  resolve_scoped-IsReal position header spec kind skipped [] s h = h
  resolve_scoped-IsReal position header spec kind skipped ((id, rows) ∷ groups) s h =
      let next = resolve_component P position header spec kind id rows s in
      resolve_scoped-IsReal position header spec kind skipped groups
        (if skipped id then s else next)
        (either_scoped-IsReal (skipped id) s next h
          (log_scalar-IsReal position header spec rows (some id) kind s.logged h))

  either_payload-IsReal :
      (b : Bool) (p q : ResolvedFramePayload P)
      → All IsReal p.conflicts
      → All IsReal q.conflicts
      → All IsReal (if b then p else q).conflicts
  either_payload-IsReal true p q h k = h
  either_payload-IsReal false p q h k = k

  resolve_position-IsReal :
      (o : Origin) (position : ℕ) (header : Text) (spec : FieldSpec) (rows : Groups P)
      (p : ResolvedFramePayload P)
      → All IsReal p.conflicts
      → All IsReal (resolve_position P o position header spec rows p).conflicts
  unfolding resolve_position
  resolve_position-IsReal Origin.identity position header spec rows p h =
      either_payload-IsReal (spec.canonical_name == codes "charging_station")
        (with_site P spec.canonical_name (resolve_scalar_field P position header spec rows.all) p) p
        h h
  resolve_position-IsReal Origin.charger position header spec rows p h =
      log_scalar-IsReal position header spec rows.all none "REPEATED_FIELD_CONFLICT" p.conflicts h
  resolve_position-IsReal Origin.connector position header spec rows p h =
      resolve_scoped-IsReal position header spec "CONNECTOR_FIELD_CONFLICT" (every P)
        rows.by_connector (scoped P p.connector_telemetry p) h
  resolve_position-IsReal Origin.rectifier position header spec rows p h =
      resolve_scoped-IsReal position header spec "RECTIFIER_FIELD_CONFLICT" (every P)
        rows.by_rectifier (scoped P p.rectifier_telemetry p) h
  resolve_position-IsReal Origin.smr position header spec rows p h =
      resolve_scoped-IsReal position header spec "SMR_FIELD_CONFLICT" (every P) rows.by_smr
        (scoped P p.smr_telemetry p) h
  resolve_position-IsReal Origin.contactor position header spec rows p h =
      log_scalar-IsReal position header spec rows.all none "REPEATED_FIELD_CONFLICT" p.conflicts h
  resolve_position-IsReal Origin.alarm position header spec rows p h =
      log_scalar-IsReal position header spec rows.all none "REPEATED_FIELD_CONFLICT" p.conflicts h
  resolve_position-IsReal Origin.session position header spec rows p h =
      resolve_scoped-IsReal position header spec "CONNECTOR_FIELD_CONFLICT"
        (other_connector P spec.canonical_name) rows.by_connector (scoped P p.session_observation p)
        h
  resolve_position-IsReal Origin.counters position header spec rows p h = h
  resolve_position-IsReal Origin.communication position header spec rows p h =
      log_scalar-IsReal position header spec rows.all none "REPEATED_FIELD_CONFLICT" p.conflicts h
  resolve_position-IsReal Origin.configuration position header spec rows p h = h
  resolve_position-IsReal Origin.other position header spec rows p h = h

  module _ (matches : Text → Text → Bool) where
    resolve_positions-IsReal :
        (registry : DictionaryRegistry) (position : ℕ) (counts : Dict Text ℕ) (headers : List Text)
        (rows : Groups P) (p : ResolvedFramePayload P)
        → All IsReal p.conflicts
        → All IsReal (resolve_positions P matches registry position counts headers rows p).conflicts
    unfolding resolve_positions
    resolve_positions-IsReal registry position counts [] rows p h = h
    resolve_positions-IsReal registry position counts (header ∷ headers) rows p h =
        let occurrence = get_or header 0 counts + 1 in
        let spec =
          (resolve_field matches registry header
            (occurrence_of P matches header position occurrence) position header).spec in
        let next = resolve_position P (origin_of spec.origin) position header spec rows p in
        resolve_positions-IsReal registry (position + 1) (put header occurrence counts) headers rows
          next (resolve_position-IsReal (origin_of spec.origin) position header spec rows p h)

    -- Every conflict that a resolved frame logs lists two different values at least, none of them
    -- twice.
    pub resolve_frame-IsReal :
        (registry : DictionaryRegistry) (raw_rows : List RawRow) (headers : List Text)
        → All IsReal (resolve_frame P matches registry raw_rows headers).conflicts
    unfolding resolve_frame
    resolve_frame-IsReal registry [] headers = tt
    resolve_frame-IsReal registry (row ∷ rows) headers =
        resolve_positions-IsReal registry 1 [] headers (group_rows P (row ∷ rows)) (empty_payload P)
          tt
