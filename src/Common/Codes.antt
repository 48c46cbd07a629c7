-- ===== src/Common/Codes.antt =====
-- Texts as lists of code points, where the program walks their characters.
use Prim.Native.Char.{code}
use Prim.Native.Nat.{ℕ, ◌+◌, ◌-◌, ◌*◌}
use Prim.Native.String.{String}
use mathlib.Core.Path.{◌≡◌, refl, ◌∙◌}
use mathlib.Core.Logic.{◌↔◌}
use mathlib.Core.Bool.{Bool, true, false, ◌&&◌, ◌||◌}
use mathlib.Core.Option.{Option, none, some}
use mathlib.Core.List.{List, [], ◌∷◌, ◌++◌}
use native.Mathlib.Omega.{arith}
use predictive_analysis.Common.Tests.{ltb, eqb, if◌then◌else◌, Eq, ◌==◌, nat_eq, eqb_iff}
use predictive_analysis.Common.Lists.{contains, All}
use predictive_analysis.Common.Text.{codes, same_codes}
use predictive_analysis.Common.Decimal.{decimal, to_int, read_digits, to_int-decimal}

abbrev pub Text : Type 0
Text = List ℕ

pub same_codes_iff : (s t : Text) → (same_codes s t ≡ true) ↔ (s ≡ t)
same_codes_iff [] [] = (λ _. refl, λ _. refl)
same_codes_iff [] (b ∷ t) = (λ h. cc, λ h. cc)
same_codes_iff (a ∷ s) [] = (λ h. cc, λ h. cc)
same_codes_iff (a ∷ s) (b ∷ t) = (
  λ h. ground (arith, same_codes_iff s t, eqb_iff a b),
  λ h. ground (arith, same_codes_iff s t, eqb_iff a b),
)

instance abbrev pub text_eq : Eq Text
text_eq = record { same = same_codes; same_iff = same_codes_iff }

-- The order of texts by code points.
abbrev pub codes_le : Text → Text → Bool
codes_le [] t = true
codes_le (a ∷ s) [] = false
codes_le (a ∷ s) (b ∷ t) = ltb a b || eqb a b && codes_le s t

-- `text.lstrip(...)` and `text.rstrip(...)`, of the characters that a test accepts.
module _ (p : ℕ → Bool) where
  abbrev pub lstrip_by : Text → Text
  lstrip_by [] = []
  lstrip_by (c ∷ s) = let rest = lstrip_by s in if p c then rest else c ∷ s

  abbrev keep_by : ℕ → Text → Text
  keep_by c [] = if p c then [] else c ∷ []
  keep_by c (d ∷ s) = c ∷ (d ∷ s)

  abbrev pub rstrip_by : Text → Text
  rstrip_by [] = []
  rstrip_by (c ∷ s) = keep_by c (rstrip_by s)

  abbrev pub strip_by : Text → Text
  strip_by s = lstrip_by (rstrip_by s)

-- `str(n)`
abbrev pub number : ℕ → Text
number n = codes (decimal n)

read_codes : ℕ → Text → ℕ
read_codes acc [] = acc
read_codes acc (c ∷ s) = read_codes (acc * 10 + (c - 48)) s

read_codes-codes : (acc : ℕ) (s : String) → read_codes acc (codes s) ≡ read_digits acc s
unfolding read_codes
read_codes-codes acc String.[] = refl
read_codes-codes acc (String.◌∷◌ c s) = read_codes-codes (acc * 10 + (code c - 48)) s

-- `int(text)`
pub read_number : Text → ℕ
unfolding read_codes
read_number s = read_codes 0 s

pub read_number-number : (n : ℕ) → read_number (number n) ≡ n
unfolding read_number to_int
read_number-number n = read_codes-codes 0 (decimal n) ∙ to_int-decimal n

-- The text after a prefix, if the text has it.
abbrev pub after_prefix : Text → Text → Option Text
after_prefix [] t = some t
after_prefix (a ∷ s) [] = none
after_prefix (a ∷ s) (b ∷ t) = let rest = after_prefix s t in if eqb a b then rest else none

pub after_prefix-append : (s t : Text) → after_prefix s (s ++ t) ≡ some t
after_prefix-append [] t = refl
after_prefix-append (a ∷ s) t = ground (arith, after_prefix-append s t)

-- None of the names is in use.
abbrev pub AllFresh : List Text → List Text → Type 0
AllFresh used names = All (λ name. contains used name ≡ false) names

text_ne_sym : (s t : Text) → (s == t) ≡ false → (t == s) ≡ false
text_ne_sym s t h = ground (arith, same_codes_iff s t, same_codes_iff t s)

pub AllFresh-cons :
    (name : Text) (used names : List Text)
    → AllFresh (name ∷ used) names
    → (contains names name ≡ false) × AllFresh used names
AllFresh-cons name used [] h = (refl, tt)
AllFresh-cons name used (n ∷ names) h =
    let later = AllFresh-cons name used names h.1 in
    let other : ((name == n) ≡ false) × (contains used n ≡ false) = ground (arith, h.0) in
    (rw (text_ne_sym name n other.0) later.0, (other.1, later.1))
