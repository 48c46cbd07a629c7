-- ===== src/Events/Configuration.antt =====
-- pipelines/events/config_change_detector.py: the differences of configuration snapshots. A value is
-- optional, as JSON's null is: `dict.get` does not tell a missing key from a null value.
use predictive_analysis.Common.{
  ℕ, ◌≡◌, refl, ◌∙◌, sym, ap, ◌⊎◌, Bool, true, false, not, Option, none, some, List, [], ◌∷◌, ◌++◌,
  String, ◌||◌, ◌&&◌, ◌==◌, string_eq, Eq, leb, ltb, if◌then◌else◌, inl, inr, Bool-cases, arith,
  length, contains, distinct, contains-append,
}
use predictive_analysis.Common.Sums.{contains-distinct}
use predictive_analysis.Common.Dict.{Dict, get, keys}
use predictive_analysis.Common.Sorting.{sort_by, any-sort_by}
use predictive_analysis.Common.Text.{text_le}

pub record ConfigSnapshotObservation (V : Type 0) : Type 0 where
  pub event_time : ℕ
  pub config_hash : String
  pub config_json : Dict String (Option V)

-- The old and the new value of a field.
pub record FieldChange (V : Type 0) : Type 0 where
  pub old : Option V
  pub new : Option V

pub record ReconstructedConfigChange (V : Type 0) : Type 0 where
  pub charger_id : String
  pub change_time : ℕ
  pub old_config_hash : String
  pub new_config_hash : String
  pub changed_fields_json : Dict String (FieldChange V)
  pub previous_config_json : Dict String (Option V)
  pub new_config_json : Dict String (Option V)
  pub reconstruction_version : String

module _ {V : Type 0} where
  abbrev joined : Option (Option V) → Option V
  joined none = none
  joined (some v) = v

  -- `config.get(k)`
  abbrev pub value_of : Dict String (Option V) → String → Option V
  value_of config k = joined (get k config)

  -- `sorted(set(old.keys()) | set(new.keys()))`
  abbrev all_keys : Dict String (Option V) → Dict String (Option V) → List String
  all_keys old new = sort_by text_le (distinct (keys old ++ keys new))

  abbrev snapshot_le : ConfigSnapshotObservation V → ConfigSnapshotObservation V → Bool
  snapshot_le a b = leb a.event_time b.event_time

  abbrev no_fields : Dict String (FieldChange V) → Bool
  no_fields [] = true
  no_fields (_ ∷ _) = false

if_and_false : {A : Type 0} (x : A) (b : Bool) → (if b && false then some x else none) ≡ none
if_and_false x true = refl
if_and_false x false = refl

module _ {V : Type 0} ⦃e : Eq V⦄ where
  abbrev same_value : Option V → Option V → Bool
  same_value none none = true
  same_value (some v) (some w) = v == w
  same_value _ _ = false

  -- `for k in all_keys`
  abbrev diff_over :
      Dict String (Option V) → Dict String (Option V) → List String → Dict String (FieldChange V)
  diff_over old new [] = []
  diff_over old new (k ∷ ks) =
      let rest = diff_over old new ks in
      if same_value (value_of old k) (value_of new k)
      then rest
      else (k, record { old = value_of old k; new = value_of new k }) ∷ rest

  unfoldable pub diff_of :
      Dict String (Option V) → Dict String (Option V) → Dict String (FieldChange V)
  diff_of old new = diff_over old new (all_keys old new)

  abbrev cons_change :
      String
      → String
      → ConfigSnapshotObservation V
      → ConfigSnapshotObservation V
      → List (ReconstructedConfigChange V)
      → List (ReconstructedConfigChange V)
  cons_change charger_id version prev curr later =
      let diff = diff_of prev.config_json curr.config_json in
      if curr.config_hash == prev.config_hash || no_fields diff
      then later
      else record {
        charger_id = charger_id;
        change_time = curr.event_time;
        old_config_hash = prev.config_hash;
        new_config_hash = curr.config_hash;
        changed_fields_json = diff;
        previous_config_json = prev.config_json;
        new_config_json = curr.config_json;
        reconstruction_version = version;
      }
        ∷ later

  -- `for curr in ordered[1:]`, with the snapshot before.
  unfoldable pub changes_after :
      String
      → String
      → ConfigSnapshotObservation V
      → List (ConfigSnapshotObservation V)
      → List (ReconstructedConfigChange V)
  unfolding diff_of
  changes_after charger_id version prev [] = []
  changes_after charger_id version prev (curr ∷ rest) =
      cons_change charger_id version prev curr (changes_after charger_id version curr rest)

  abbrev changes_over :
      String → String → List (ConfigSnapshotObservation V) → List (ReconstructedConfigChange V)
  changes_over charger_id version [] = []
  changes_over charger_id version (first ∷ rest) = changes_after charger_id version first rest

  unfoldable pub detect_changes :
      String → String → List (ConfigSnapshotObservation V) → List (ReconstructedConfigChange V)
  unfolding changes_after
  detect_changes charger_id version snapshots =
      if ltb (length snapshots) 2
      then []
      else changes_over charger_id version (sort_by snapshot_le snapshots)

  -- The value of a field once a difference is applied to the old configuration.
  abbrev changed_or : Option V → Option (FieldChange V) → Option V
  changed_or v none = v
  changed_or v (some c) = c.new

  abbrev pub patched : Dict String (Option V) → Dict String (FieldChange V) → String → Option V
  patched old diff k = changed_or (value_of old k) (get k diff)

  same_value-eq : (v w : Option V) → same_value v w ≡ true → v ≡ w
  same_value-eq none none h = refl
  same_value-eq (some v) (some w) h = ap some ((e.same_iff v w).0 h)
  same_value-eq none (some w) h = cc
  same_value-eq (some v) none h = cc

  get-diff_over :
      (old new : Dict String (Option V)) (ks : List String) (k : String)
      → get k (diff_over old new ks) ≡ (
          if contains ks k && not (same_value (value_of old k) (value_of new k))
          then some (record { old = value_of old k; new = value_of new k })
          else none)
  get-diff_over old new [] k = refl
  get-diff_over old new (j ∷ ks) k = elim (Bool-cases (j == k)) [
    | inl p ↦ rw ((string_eq.same_iff j k).0 p) (
        at_key (get-diff_over old new ks k)
          (Bool-cases (same_value (value_of old k) (value_of new k))))
    | inr p ↦ elim (Bool-cases (same_value (value_of old j) (value_of new j))) [
      | inl s ↦ rw (s, p) (get-diff_over old new ks k)
      | inr s ↦ rw (s, p) (get-diff_over old new ks k)
    ]
  ]
    where
      at_key :
          get k (diff_over old new ks) ≡ (
            if contains ks k && not (same_value (value_of old k) (value_of new k))
            then some (record { old = value_of old k; new = value_of new k })
            else none)
          → (same_value (value_of old k) (value_of new k) ≡ true)
            ⊎ (same_value (value_of old k) (value_of new k) ≡ false)
          → get k (diff_over old new (k ∷ ks)) ≡ (
              if contains (k ∷ ks) k && not (same_value (value_of old k) (value_of new k))
              then some (record { old = value_of old k; new = value_of new k })
              else none)
      at_key ih (inl s) =
          rw (s, (string_eq.same_iff k k).1 refl) (ih ∙ rw s (if_and_false _ (contains ks k)))
      at_key ih (inr s) = rw (s, (string_eq.same_iff k k).1 refl) refl

  get-contains :
      (config : Dict String (Option V)) (k : String)
      → contains (keys config) k ≡ false
      → get k config ≡ none
  get-contains [] k h = refl
  get-contains ((j, v) ∷ config) k h = ground (arith, get-contains config k)

  contains-all_keys :
      (old new : Dict String (Option V)) (k : String)
      → contains (all_keys old new) k ≡ (contains (keys old) k || contains (keys new) k)
  contains-all_keys old new k =
      any-sort_by text_le (λ x. x == k) (distinct (keys old ++ keys new))
      ∙ contains-distinct k (keys old ++ keys new)
      ∙ contains-append (keys old) (keys new) k

  missing-both :
      (old new : Dict String (Option V)) (k : String)
      → contains (all_keys old new) k ≡ false
      → (get k old ≡ none) × (get k new ≡ none)
  missing-both old new k h =
      let none_of : (contains (keys old) k || contains (keys new) k) ≡ false =
        sym (contains-all_keys old new k) ∙ h in
      (get-contains old k (ground arith), get-contains new k (ground arith))

  -- The difference of two configurations, applied to the old one, gives the new one: every field
  -- then has its new value, and a field that is missing counts as null.
  pub patched-diff_of :
      (old new : Dict String (Option V)) (k : String)
      → patched old (diff_of old new) k ≡ value_of new k
  unfolding diff_of
  patched-diff_of old new k = elim (Bool-cases (contains (all_keys old new) k)) [
    | inl c ↦
        rw (get-diff_over old new (all_keys old new) k, c)
          (at_listed (Bool-cases (same_value (value_of old k) (value_of new k))))
    | inr c ↦
        rw (get-diff_over old new (all_keys old new) k, c)
          (rw (missing-both old new k c).0 (rw (missing-both old new k c).1 refl))
  ]
    where
      at_listed :
          (same_value (value_of old k) (value_of new k) ≡ true)
            ⊎ (same_value (value_of old k) (value_of new k) ≡ false)
          → changed_or (value_of old k) (
              if not (same_value (value_of old k) (value_of new k))
              then some (record { old = value_of old k; new = value_of new k })
              else none)
            ≡ value_of new k
      at_listed (inl s) = rw s (same_value-eq (value_of old k) (value_of new k) s)
      at_listed (inr s) = rw s refl
