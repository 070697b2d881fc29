-- ===== src/Base/Int.antt =====
-- Python's integers.
use Prim.Native.Nat.{ℕ}
use mathlib.Core.Path.{◌≡◌}
use mathlib.Core.Logic.{◌↔◌}
use mathlib.Core.Bool.{Bool, true, false}
use native.Mathlib.Omega.{arith}
use trade_alerts.Base.Tests.{ltb, nat_eq}

-- `negsuc n` is -(n + 1)
pub data ℤ : Type 0 where
  pos : ℕ → ℤ
  negsuc : ℕ → ℤ

abbrev pub int_eq : ℤ → ℤ → Bool
int_eq (pos a) (pos b) = nat_eq a b
int_eq (negsuc a) (negsuc b) = nat_eq a b
int_eq _ _ = false

pub int_eq_iff : (a b : ℤ) → (int_eq a b ≡ true) ↔ (a ≡ b)
int_eq_iff (pos a) (pos b) = ((λ h. ground arith), (λ h. ground arith))
int_eq_iff (negsuc a) (negsuc b) = ((λ h. ground arith), (λ h. ground arith))
int_eq_iff (pos a) (negsuc b) = ((λ h. cc), (λ h. cc))
int_eq_iff (negsuc a) (pos b) = ((λ h. cc), (λ h. cc))

-- `z < n` for a number n that is not negative
abbrev pub int_ltb : ℤ → ℕ → Bool
int_ltb (pos a) n = ltb a n
int_ltb (negsuc a) n = true
