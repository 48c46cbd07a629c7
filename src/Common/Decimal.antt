-- ===== src/Common/Decimal.antt =====
-- `str(n)` and `int(text)` for natural numbers in decimal digits.
use Prim.Native.Char.{Char, code}
use Prim.Native.String.{String}
use Prim.Native.Nat.{ℕ, zero, suc, ◌+◌, ◌-◌, ◌*◌, ◌/◌, ◌%◌, ◌<◌}
use mathlib.Core.Path.{◌≡◌, refl, ◌∙◌, ap}
use mathlib.Core.Logic.{inl, inr}
use native.Mathlib.Omega.{arith}
use predictive_analysis.Common.Tests.{ltb, if◌then◌else◌, Bool-cases}

abbrev digit : ℕ → Char
digit zero = "0"
digit (suc zero) = "1"
digit (suc (suc zero)) = "2"
digit (suc (suc (suc zero))) = "3"
digit (suc (suc (suc (suc zero)))) = "4"
digit (suc (suc (suc (suc (suc zero))))) = "5"
digit (suc (suc (suc (suc (suc (suc zero)))))) = "6"
digit (suc (suc (suc (suc (suc (suc (suc zero))))))) = "7"
digit (suc (suc (suc (suc (suc (suc (suc (suc zero)))))))) = "8"
digit _ = "9"

-- The digits of n before a text that follows them; the fuel is above n.
digits_before : ℕ → ℕ → String → String
digits_before zero n rest = rest
digits_before (suc fuel) n rest =
    let more = digits_before fuel (n / 10) (String.◌∷◌ (digit (n % 10)) rest) in
    if ltb n 10 then String.◌∷◌ (digit n) rest else more

-- `str(n)`
unfoldable pub decimal : ℕ → String
unfolding digits_before
decimal n = digits_before (suc n) n String.[]

abbrev pub read_digits : ℕ → String → ℕ
read_digits acc String.[] = acc
read_digits acc (String.◌∷◌ c s) = read_digits (acc * 10 + (code c - 48)) s

-- `int(text)`
unfoldable pub to_int : String → ℕ
to_int s = read_digits 0 s

code-digit : (n : ℕ) → n < 10 → code (digit n) - 48 ≡ n
code-digit zero h = refl
code-digit (suc zero) h = refl
code-digit (suc (suc zero)) h = refl
code-digit (suc (suc (suc zero))) h = refl
code-digit (suc (suc (suc (suc zero)))) h = refl
code-digit (suc (suc (suc (suc (suc zero))))) h = refl
code-digit (suc (suc (suc (suc (suc (suc zero)))))) h = refl
code-digit (suc (suc (suc (suc (suc (suc (suc zero))))))) h = refl
code-digit (suc (suc (suc (suc (suc (suc (suc (suc zero)))))))) h = refl
code-digit (suc (suc (suc (suc (suc (suc (suc (suc (suc zero))))))))) h = refl
code-digit (suc (suc (suc (suc (suc (suc (suc (suc (suc (suc n)))))))))) h = absurd (omega arith)

read-digits_before :
    (fuel n : ℕ) (rest : String)
    → n < fuel
    → read_digits 0 (digits_before fuel n rest) ≡ read_digits n rest
unfolding digits_before
read-digits_before zero n rest h = absurd (omega arith)
read-digits_before (suc fuel) n rest h = elim (Bool-cases (ltb n 10)) [
  | inl e ↦ rw e (ap (λ m. read_digits m rest) (omega (arith, code-digit n (ground arith))))
  | inr e ↦ rw e (
      read-digits_before fuel (n / 10) (String.◌∷◌ (digit (n % 10)) rest) (ground arith)
      ∙ ap (λ m. read_digits m rest) (omega (arith, code-digit (n % 10) (omega arith))))
]

pub to_int-decimal : (n : ℕ) → to_int (decimal n) ≡ n
unfolding to_int decimal
to_int-decimal n = read-digits_before (suc n) n String.[] (omega arith)
