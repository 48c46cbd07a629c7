-- ===== src/Quality/Rules/Collisions.antt =====
-- Findings of one field that share an issue hash. A table row is unique by file and issue hash, and the
-- findings of a file are inserted together.
use mathlib.Core.Path.{subst}
use predictive_analysis.Common.{
  ℕ, ◌≤◌, ◌<◌, ◌+◌, ◌++◌, true, false, ◌&&◌, ◌||◌, none, some, List, [], ◌∷◌, map, ◌≡◌, ◌∙◌, refl,
  sym, arith, ◌==◌, ltb, length, contains, All, Bool-cases, inl, inr,
}
use predictive_analysis.Common.Dict.{Dict, get}
use predictive_analysis.Common.Sums.{NoRepeats}
use predictive_analysis.Common.Codes.{Text, text_eq, same_codes_iff}
use predictive_analysis.Validation.Dictionary.{FieldSpec}
use predictive_analysis.Quality.Kinds.{QualityIssueType, QualitySeverity}
use predictive_analysis.Quality.Findings.{
  QualityFinding, QualityContext, FieldProfile, pairs, issue_hash,
}
use predictive_analysis.Quality.Rules.{
  field_finding, each_of, sentinel_value, sentinel_names, sentinel_hits_of,
}

-- Two elements that are all the same repeat.
same_repeats :
    {A : Type 0} (f : A → Text) (t : Text) (xs : List A)
    → All (λ x. f x ≡ t) xs
    → 2 ≤ length xs
    → ¬ NoRepeats (map f xs)
same_repeats f t [] h k u = absurd (omega (arith, k))
same_repeats f t (x ∷ []) h k u = absurd (omega (arith, k))
same_repeats f t (x ∷ (y ∷ xs)) h k u =
    let met : (f y == f x) ≡ true = (same_codes_iff (f y) (f x)).1 (h.1.0 ∙ sym h.0) in
    absurd (ground (arith, u.0, met))

-- The value is a declared sentinel of the field, and was counted so often, at least once.
abbrev pub Occurs : FieldSpec → Dict Text ℕ → Text → ℕ → Type 0
Occurs spec hits v m = (contains (sentinel_names spec) v ≡ true) × (get v hits ≡ some m) × (0 < m)

-- The first entry of the dict is the value's: it is a hit.
first_hit :
    (spec : FieldSpec) (value : Text) (count : ℕ) (hits : Dict Text ℕ) (v : Text) (m : ℕ)
    → (value == v) ≡ true
    → Occurs spec ((value, count) ∷ hits) v m
    → length (sentinel_hits_of spec ((value, count) ∷ hits))
      ≡ 1 + length (sentinel_hits_of spec hits)
unfolding sentinel_hits_of
first_hit spec value count hits v m p o =
    let same : v ≡ value = sym ((same_codes_iff value v).0 p) in
    let declared : contains (sentinel_names spec) value ≡ true =
      subst (λ x. contains (sentinel_names spec) x ≡ true) same o.0 in
    let counted : some count ≡ some m = rw p at o.1 in
    let positive : 0 < count = ground (arith, counted, o.2) in
    let kept : (contains (sentinel_names spec) value && ltb 0 count) ≡ true =
      rw declared (ground (arith, positive)) in
    rw kept (omega arith)

-- Another entry does not take a hit away, and leaves the value with the rest.
later_hit :
    (spec : FieldSpec) (value : Text) (count : ℕ) (hits : Dict Text ℕ)
    → length (sentinel_hits_of spec hits) ≤ length (sentinel_hits_of spec ((value, count) ∷ hits))
unfolding sentinel_hits_of
later_hit spec value count hits =
    elim (Bool-cases (contains (sentinel_names spec) value && ltb 0 count)) [
      | inl p ↦ rw p (omega arith)
      | inr p ↦ rw p (omega arith)
    ]

Occurs-later :
    (spec : FieldSpec) (value : Text) (count : ℕ) (hits : Dict Text ℕ) (v : Text) (m : ℕ)
    → (value == v) ≡ false
    → Occurs spec ((value, count) ∷ hits) v m
    → Occurs spec hits v m
Occurs-later spec value count hits v m p o = (o.0, rw p at o.1, o.2)

one_hit :
    (spec : FieldSpec) (hits : Dict Text ℕ) (v : Text) (m : ℕ)
    → Occurs spec hits v m
    → 1 ≤ length (sentinel_hits_of spec hits)
one_hit spec [] v m o = cc o.1
one_hit spec ((value, count) ∷ hits) v m o = elim (Bool-cases (value == v)) [
  | inl p ↦ omega (arith, first_hit spec value count hits v m p o)
  | inr p ↦ omega (
    arith,
    one_hit spec hits v m (Occurs-later spec value count hits v m p o),
    later_hit spec value count hits,
  )
]

differ : (value v w : Text) → (value == v) ≡ true → (v == w) ≡ false → (value == w) ≡ false
differ value v w p h = rw ((same_codes_iff value v).0 p) h

two_hits :
    (spec : FieldSpec) (hits : Dict Text ℕ) (v w : Text) (m n : ℕ)
    → (v == w) ≡ false
    → Occurs spec hits v m
    → Occurs spec hits w n
    → 2 ≤ length (sentinel_hits_of spec hits)
two_hits spec [] v w m n d o q = cc o.1
two_hits spec ((value, count) ∷ hits) v w m n d o q = elim (Bool-cases (value == v)) [
  | inl p ↦ omega (
    arith,
    first_hit spec value count hits v m p o,
    one_hit spec hits w n (Occurs-later spec value count hits w n (differ value v w p d) q),
  )
  | inr p ↦ elim (Bool-cases (value == w)) [
    | inl k ↦ omega (
      arith,
      first_hit spec value count hits w n k q,
      one_hit spec hits v m (Occurs-later spec value count hits v m p o),
    )
    | inr k ↦ omega (
      arith,
      later_hit spec value count hits,
      two_hits spec hits v w m n d (Occurs-later spec value count hits v m p o)
          (Occurs-later spec value count hits w n k q),
    )
  ]
]

-- A list whose images do not repeat is one of parts whose images do not.
module _ {A : Type 0} (f : A → Text) where
  contains-map_append :
      (xs ys : List A) (t : Text)
      → contains (map f (xs ++ ys)) t ≡ (contains (map f xs) t || contains (map f ys) t)
  contains-map_append [] ys t = refl
  contains-map_append (x ∷ xs) ys t = ground (arith, contains-map_append xs ys t)

  NoRepeats-parts :
      (xs ys : List A) → NoRepeats (map f (xs ++ ys)) → NoRepeats (map f xs) × NoRepeats (map f ys)
  NoRepeats-parts [] ys u = (tt, u)
  NoRepeats-parts (x ∷ xs) ys u =
      let rest = NoRepeats-parts xs ys u.1 in
      ((ground (arith, u.0, contains-map_append xs ys (f x)), rest.0), rest.1)

NoRepeats-each_of :
    {B : Type 0} (f : QualityFinding → Text) (g : B → List QualityFinding) (before after : List B)
    (b : B)
    → NoRepeats (map f (each_of g (before ++ b ∷ after)))
    → NoRepeats (map f (g b))
NoRepeats-each_of f g [] after b u = (NoRepeats-parts f (g b) (each_of g after) u).0
NoRepeats-each_of f g (c ∷ before) after b u =
    NoRepeats-each_of f g before after b
      (NoRepeats-parts f (g c) (each_of g (before ++ b ∷ after)) u).1

module _ (sha256 : Text → Text) where
  -- The hash of a finding of the rule about the field.
  abbrev field_hash : QualityIssueType → QualitySeverity → FieldSpec → Text
  field_hash code severity spec = issue_hash sha256 (field_finding code severity spec none 1)

  sentinel_hits_of-hash :
      (spec : FieldSpec) (hits : Dict Text ℕ)
      → All
          (λ f.
            issue_hash sha256 f
            ≡ field_hash QualityIssueType.sentinel_value QualitySeverity.warning spec)
          (sentinel_hits_of spec hits)
  unfolding sentinel_hits_of issue_hash
  sentinel_hits_of-hash spec [] = tt
  sentinel_hits_of-hash spec ((value, count) ∷ hits) =
      elim (Bool-cases (contains (sentinel_names spec) value && ltb 0 count)) [
        | inl p ↦ rw p (refl, sentinel_hits_of-hash spec hits)
        | inr p ↦ rw p (sentinel_hits_of-hash spec hits)
      ]

  hits_hash :
      (spec : FieldSpec) (hits : Dict Text ℕ)
      → 2 ≤ length (sentinel_hits_of spec hits)
      → ¬ NoRepeats (map (issue_hash sha256) (sentinel_hits_of spec hits))
  hits_hash spec hits h =
      same_repeats (issue_hash sha256)
        (field_hash QualityIssueType.sentinel_value QualitySeverity.warning spec)
        (sentinel_hits_of spec hits) (sentinel_hits_of-hash spec hits) h

  -- If the file has a column with a definition, and two different sentinels that the definition
  -- declares were both counted in that column, the findings of the sentinel rule for the file repeat an
  -- issue hash.
  pub sentinel_value-repeats :
      (context : QualityContext) (before after : List (FieldSpec × FieldProfile)) (spec : FieldSpec)
      (observed : FieldProfile) (v w : Text) (m n : ℕ)
      → pairs context ≡ before ++ (spec, observed) ∷ after
      → (v == w) ≡ false
      → Occurs spec observed.sentinel_hits v m
      → Occurs spec observed.sentinel_hits w n
      → ¬ NoRepeats (map (issue_hash sha256) (sentinel_value context))
  unfolding sentinel_value
  sentinel_value-repeats context before after spec observed v w m n at_pair different first second
        u =
      let g : FieldSpec × FieldProfile → List QualityFinding =
        λ p. sentinel_hits_of p.0 p.1.sentinel_hits in
      hits_hash spec observed.sentinel_hits
        (two_hits spec observed.sentinel_hits v w m n different first second)
        (NoRepeats-each_of (issue_hash sha256) g before after (spec, observed)
          (subst (λ ps. NoRepeats (map (issue_hash sha256) (each_of g ps))) at_pair u))
