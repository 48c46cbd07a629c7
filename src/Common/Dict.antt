-- ===== src/Common/Dict.antt =====
-- Python's `dict`: an association list in insertion order, in which a key occurs once.
use mathlib.Core.Path.{◌≡◌, refl}
use mathlib.Core.Option.{Option, none, some}
use mathlib.Core.List.{List, [], ◌∷◌, ◌++◌, map}
use native.Mathlib.Omega.{arith}
use predictive_analysis.Common.Tests.{Eq, ◌==◌, if◌then◌else◌, Bool-cases}
use predictive_analysis.Common.Lists.{contains}
use mathlib.Core.Bool.{true, ◌||◌}
use mathlib.Core.Logic.{inl, inr}

abbrev pub Dict {ℓ κ} : Type ℓ → Type κ → Type (ℓ ⊔ κ)
Dict K V = List (K × V)

module _ {ℓ κ} {K : Type ℓ} {V : Type κ} ⦃e : Eq K⦄ where
  -- d.get(k)
  abbrev pub get : K → Dict K V → Option V
  get k [] = none
  get k ((j, v) ∷ d) = if j == k then some v else get k d

  -- d.get(k, v)
  abbrev pub get_or : K → V → Dict K V → V
  get_or k v [] = v
  get_or k v ((j, w) ∷ d) = if j == k then w else get_or k v d

  -- d[k] = v
  abbrev pub put : K → V → Dict K V → Dict K V
  put k v [] = (k, v) ∷ []
  put k v ((j, w) ∷ d) = let rest = put k v d in if j == k then (j, v) ∷ d else (j, w) ∷ rest

  abbrev pub keys : Dict K V → List K
  keys d = map (λ (p : K × V). p.0) d

  abbrev pub values : Dict K V → List V
  values d = map (λ (p : K × V). p.1) d

  pub get-put :
      (k j : K) (v : V) (d : Dict K V) → get j (put k v d) ≡ (if k == j then some v else get j d)
  get-put k j v [] = refl
  get-put k j v ((i, w) ∷ d) =
      ground (arith, e.same_iff k j, e.same_iff i k, e.same_iff i j, get-put k j v d)

  pub get_or-put :
      (k j : K) (v u : V) (d : Dict K V)
      → get_or j u (put k v d) ≡ (if k == j then v else get_or j u d)
  get_or-put k j v u [] = refl
  get_or-put k j v u ((i, w) ∷ d) =
      ground (arith, e.same_iff k j, e.same_iff i k, e.same_iff i j, get_or-put k j v u d)

module _ {ℓ κ} {K : Type ℓ} {V : Type κ} ⦃e : Eq K⦄ where
  -- d.setdefault(k, []).append(v)
  abbrev pub append_to : K → V → Dict K (List V) → Dict K (List V)
  append_to k v [] = (k, v ∷ []) ∷ []
  append_to k v ((j, vs) ∷ d) =
      let rest = append_to k v d in if j == k then (j, vs ++ v ∷ []) ∷ d else (j, vs) ∷ rest

  pub get_or-append_to :
      (k j : K) (v : V) (d : Dict K (List V))
      → get_or j [] (append_to k v d) ≡ (if k == j then get_or j [] d ++ v ∷ [] else get_or j [] d)
  get_or-append_to k j v [] = ground arith
  get_or-append_to k j v ((i, vs) ∷ d) =
      ground (arith, e.same_iff k j, e.same_iff i k, e.same_iff i j, get_or-append_to k j v d)

module _ {ℓ κ} {K : Type ℓ} {V : Type κ} ⦃e : Eq K⦄ where
  pub contains-keys : (k : K) (v : V) (d : Dict K V) → get k d ≡ some v → contains (keys d) k ≡ true
  contains-keys k v [] h = cc
  contains-keys k v ((j, w) ∷ d) h = ground (arith, contains-keys k v d)

  pub get-keys : (k : K) (d : Dict K V) → contains (keys d) k ≡ true → (v : V) × (get k d ≡ some v)
  get-keys k [] h = cc
  get-keys k ((j, w) ∷ d) h = elim (Bool-cases (j == k)) [
    | inl p ↦ (w, rw p refl)
    | inr p ↦ let rest = get-keys k d (rw p at h) in (rest.0, rw p rest.1)
  ]

  pub contains-keys-put :
      (k j : K) (v : V) (d : Dict K V)
      → contains (keys (put k v d)) j ≡ (k == j || contains (keys d) j)
  contains-keys-put k j v [] = refl
  contains-keys-put k j v ((i, w) ∷ d) =
      ground (arith, contains-keys-put k j v d, e.same_iff i k, e.same_iff i j, e.same_iff k j)
