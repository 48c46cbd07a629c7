-- ===== src/Common/Integers.antt =====
-- Integers over the native numbers: `pos n` is n, and `negsuc n` is the negative of n + 1.
use Prim.Native.Nat.{ℕ, suc, ◌+◌, ◌-◌, ◌*◌}
use mathlib.Core.Path.{◌≡◌, ap}
use mathlib.Core.Logic.{◌↔◌}
use mathlib.Core.Bool.{Bool, true, false}
use predictive_analysis.Common.Tests.{ltb, leb, eqb, eqb_iff, if◌then◌else◌, Eq}

pub data ℤ : Type 0 where
  pos negsuc : ℕ → ℤ

abbrev magnitude : ℤ → ℕ
magnitude (ℤ.pos n) = n
magnitude (ℤ.negsuc n) = n

abbrev same_integer : ℤ → ℤ → Bool
same_integer (ℤ.pos n) (ℤ.pos m) = eqb n m
same_integer (ℤ.negsuc n) (ℤ.negsuc m) = eqb n m
same_integer (ℤ.pos n) (ℤ.negsuc m) = false
same_integer (ℤ.negsuc n) (ℤ.pos m) = false

pub same_integer_iff : (i j : ℤ) → (same_integer i j ≡ true) ↔ (i ≡ j)
same_integer_iff (ℤ.pos n) (ℤ.pos m) =
    (λ h. ap ℤ.pos ((eqb_iff n m).0 h), λ e. (eqb_iff n m).1 (ap magnitude e))
same_integer_iff (ℤ.negsuc n) (ℤ.negsuc m) =
    (λ h. ap ℤ.negsuc ((eqb_iff n m).0 h), λ e. (eqb_iff n m).1 (ap magnitude e))
same_integer_iff (ℤ.pos n) (ℤ.negsuc m) = (λ h. cc, λ h. cc)
same_integer_iff (ℤ.negsuc n) (ℤ.pos m) = (λ h. cc, λ h. cc)

instance abbrev pub integer_eq : Eq ℤ
integer_eq = record { same = same_integer; same_iff = same_integer_iff }

-- The difference of two natural numbers.
abbrev pub minus : ℕ → ℕ → ℤ
minus n m = if ltb n m then ℤ.negsuc (m - n - 1) else ℤ.pos (n - m)

abbrev pub plus : ℤ → ℤ → ℤ
plus (ℤ.pos a) (ℤ.pos b) = ℤ.pos (a + b)
plus (ℤ.pos a) (ℤ.negsuc b) = minus a (suc b)
plus (ℤ.negsuc a) (ℤ.pos b) = minus b (suc a)
plus (ℤ.negsuc a) (ℤ.negsuc b) = ℤ.negsuc (suc (a + b))

-- A multiple.
abbrev pub scale : ℕ → ℤ → ℤ
scale k (ℤ.pos n) = ℤ.pos (k * n)
scale k (ℤ.negsuc n) = minus 0 (k * suc n)

abbrev pub at_most : ℤ → ℤ → Bool
at_most (ℤ.pos a) (ℤ.pos b) = leb a b
at_most (ℤ.pos a) (ℤ.negsuc b) = false
at_most (ℤ.negsuc a) (ℤ.pos b) = true
at_most (ℤ.negsuc a) (ℤ.negsuc b) = leb b a

-- The greater and the lesser of two.
abbrev pub greater : ℤ → ℤ → ℤ
greater a b = if at_most a b then b else a

abbrev pub lesser : ℤ → ℤ → ℤ
lesser a b = if at_most a b then a else b
