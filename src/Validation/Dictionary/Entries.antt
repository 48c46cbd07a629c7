-- ===== src/Validation/Dictionary/Entries.antt =====
-- What a registry that loads without an error holds.
use predictive_analysis.Common.{
  ℕ, false, Option, none, some, List, [], ◌∷◌, ◌≡◌, ◌∙◌, refl, ap, Eq, contains, All, arith,
  Bool-cases, Option-cases, inl, inr,
}
use predictive_analysis.Common.Dict.{Dict, get, put, keys, get-put, contains-keys}
use predictive_analysis.Common.Sums.{NoRepeats}
use predictive_analysis.Common.Codes.{Text, text_eq, AllFresh-cons}
use predictive_analysis.Validation.Compatibility.{identity_eq}
use predictive_analysis.Validation.Dictionary.{
  FieldSpec, UnitSymbols, PatternRule, DictionaryRegistry, Loaded, register, register_at,
  register_all, then_load, first_repeat, canonical_names_of, all_specs, validate, load,
  empty_registry, with_normalized,
}

abbrev as_registry : DictionaryRegistry → Loaded → DictionaryRegistry
as_registry r (Loaded.loaded s) = s
as_registry r (Loaded.failed e) = r

loaded_injective : (r s : DictionaryRegistry) → Loaded.loaded r ≡ Loaded.loaded s → r ≡ s
loaded_injective r s e = ap (as_registry r) e

then_load-loaded :
    (l : Loaded) (next : DictionaryRegistry → Loaded) (r : DictionaryRegistry)
    → then_load l next ≡ Loaded.loaded r
    → (s : DictionaryRegistry) × (l ≡ Loaded.loaded s) × (next s ≡ Loaded.loaded r)
then_load-loaded (Loaded.loaded s) next r e = (s, refl, e)
then_load-loaded (Loaded.failed f) next r e = cc

-- The entry of the definition is where `resolve` looks for it first.
abbrev entry_at : Option ℕ → Text → DictionaryRegistry → Option FieldSpec
entry_at none name r = get name r.by_name
entry_at (some occurrence) name r = get (name, occurrence) r.by_identity

abbrev pub IsEntry : DictionaryRegistry → FieldSpec → Type 0
IsEntry r s = entry_at s.source_occurrence s.source_name r ≡ some s

module _ {K : Type 0} ⦃e : Eq K⦄ where
  -- A new key leaves the others as they were.
  get-put_fresh :
      (k j : K) (v w : FieldSpec) (d : Dict K FieldSpec)
      → contains (keys d) k ≡ false
      → get j d ≡ some w
      → get j (put k v d) ≡ some w
  get-put_fresh k j v w d fresh h =
      ground (arith, fresh, h, get-put k j v d, e.same_iff k j, contains-keys j w d h)

  get-put_self : (k : K) (v : FieldSpec) (d : Dict K FieldSpec) → get k (put k v d) ≡ some v
  get-put_self k v d = ground (arith, get-put k k v d, e.same_iff k k)

-- Every entry of the first registry is one of the second.
abbrev Keeps : DictionaryRegistry → DictionaryRegistry → Type 0
Keeps r t =
    (o : Option ℕ) (name : Text) (s : FieldSpec)
    → entry_at o name r ≡ some s
    → entry_at o name t ≡ some s

keeps_named :
    (o : Option ℕ) (spec : FieldSpec) (name : Text) (s : FieldSpec) (r : DictionaryRegistry)
    → contains (keys r.by_name) spec.source_name ≡ false
    → entry_at o name r ≡ some s
    → entry_at o name (record r { by_name = put spec.source_name spec r.by_name }) ≡ some s
keeps_named none spec name s r p e = get-put_fresh spec.source_name name spec s r.by_name p e
keeps_named (some n) spec name s r p e = e

keeps_identified :
    (o : Option ℕ) (n : ℕ) (spec : FieldSpec) (name : Text) (s : FieldSpec) (r : DictionaryRegistry)
    → contains (keys r.by_identity) (spec.source_name, n) ≡ false
    → entry_at o name r ≡ some s
    → entry_at o name (record r { by_identity = put (spec.source_name, n) spec r.by_identity })
      ≡ some s
keeps_identified none n spec name s r p e = e
keeps_identified (some m) n spec name s r p e =
    get-put_fresh (spec.source_name, n) (name, m) spec s r.by_identity p e

register_at-Keeps :
    (o : Option ℕ) (spec : FieldSpec) (r t : DictionaryRegistry)
    → register_at o spec r ≡ Loaded.loaded t
    → (entry_at o spec.source_name t ≡ some spec) × Keeps r t
register_at-Keeps none spec r t h = elim (Bool-cases (contains (keys r.by_name) spec.source_name)) [
  | inl p ↦ cc (rw p at h)
  | inr p ↦
      rw (← loaded_injective _ _ (rw p at h)) (
        get-put_self spec.source_name spec r.by_name,
        λ o name s e. keeps_named o spec name s r p e,
      )
]
register_at-Keeps (some n) spec r t h =
    elim (Bool-cases (contains (keys r.by_identity) (spec.source_name, n))) [
      | inl p ↦ cc (rw p at h)
      | inr p ↦ rw (← loaded_injective _ _ (rw p at h)) (
        get-put_self (spec.source_name, n) spec r.by_identity,
        λ o name s e. keeps_identified o n spec name s r p e,
      )
    ]

with_normalized-Keeps :
    (spec : FieldSpec) (r : DictionaryRegistry) → Keeps r (with_normalized spec r)
with_normalized-Keeps spec r none name s e = e
with_normalized-Keeps spec r (some n) name s e = e

register_all-Keeps :
    (specs : List FieldSpec) (r t : DictionaryRegistry)
    → register_all specs r ≡ Loaded.loaded t
    → Keeps r t × All (IsEntry t) specs
unfolding register_all register
register_all-Keeps [] r t h = rw (← loaded_injective _ _ h) ((λ o name s e. e), tt)
register_all-Keeps (spec ∷ specs) r t h =
    let step = then_load-loaded (register spec r) (λ s. register_all specs s) t h in
    let here =
      register_at-Keeps spec.source_occurrence spec (with_normalized spec r) step.0 step.1 in
    let later = register_all-Keeps specs step.0 t step.2 in
    (
      λ o name s e. later.0 o name s (here.1 o name s (with_normalized-Keeps spec r o name s e)),
      (later.0 spec.source_occurrence spec.source_name spec here.0, later.1),
    )

first_repeat-NoRepeats :
    (seen names : List Text)
    → first_repeat seen names ≡ none
    → All (λ name. contains seen name ≡ false) names × NoRepeats names
first_repeat-NoRepeats seen [] h = (tt, tt)
first_repeat-NoRepeats seen (name ∷ names) h = elim (Bool-cases (contains seen name)) [
  | inl p ↦ cc (rw p at h)
  | inr p ↦
      let rest = first_repeat-NoRepeats (name ∷ seen) names (rw p at h) in
      let split = AllFresh-cons name seen names rest.0 in ((p, split.1), (split.0, rest.1))
]

validate-loaded :
    (r t : DictionaryRegistry)
    → validate r ≡ Loaded.loaded t
    → (r ≡ t) × NoRepeats (canonical_names_of (all_specs r))
unfolding validate
validate-loaded r t h = elim (Option-cases (first_repeat [] (canonical_names_of (all_specs r)))) [
  | inl p ↦ (
    loaded_injective _ _ (rw p at h),
    (first_repeat-NoRepeats [] (canonical_names_of (all_specs r)) p).1,
  )
  | inr (name, p) ↦ cc (rw p at h)
]

same_entry :
    (o : Option ℕ) (name : Text) (r : DictionaryRegistry) (patterns : List PatternRule)
    → entry_at o name (record r { patterns = patterns }) ≡ entry_at o name r
same_entry none name r patterns = refl
same_entry (some n) name r patterns = refl

IsEntry-patterns :
    (specs : List FieldSpec) (r : DictionaryRegistry) (patterns : List PatternRule)
    → All (IsEntry r) specs
    → All (IsEntry (record r { patterns = patterns })) specs
IsEntry-patterns [] r patterns h = tt
IsEntry-patterns (s ∷ specs) r patterns h = (
  same_entry s.source_occurrence s.source_name r patterns ∙ h.0,
  IsEntry-patterns specs r patterns h.1,
)

-- A dictionary that loads holds every definition of its files under its name, or under its name and
-- occurrence where it declares one, and no two of its entries have the same canonical name.
pub load-IsEntry :
    (units : UnitSymbols) (specs : List FieldSpec) (patterns : List PatternRule)
    (r : DictionaryRegistry)
    → load units specs patterns ≡ Loaded.loaded r
    → All (IsEntry r) specs × NoRepeats (canonical_names_of (all_specs r))
unfolding load
load-IsEntry units specs patterns r h =
    let step =
      then_load-loaded (register_all specs (empty_registry units))
        (λ s. validate (record s { patterns = patterns })) r h in
    let entries = (register_all-Keeps specs (empty_registry units) step.0 step.1).1 in
    let valid = validate-loaded (record step.0 { patterns = patterns }) r step.2 in
    rw (← valid.0) (IsEntry-patterns specs step.0 patterns entries, valid.1)
