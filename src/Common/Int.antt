-- ===== src/Common/Int.antt =====
-- Go's `int`, where a caller may pass a negative one. `negsuc n` is -(n + 1).
use Prim.Native.Nat.{ℕ, ◌-◌, ◌^◌, ◌%◌, ◌<◌}
use mathlib.Core.Path.{◌≡◌, ap, sym, ◌∙◌}
use mathlib.Core.Logic.{ite, if_pos, if_neg}
use mathlib.Core.Bool.{Bool, true, false, false≢true}
use native.Mathlib.Omega.{arith}
use native.Mathlib.Decide.{ℕ_discrete}
use pqc_chat.Common.Tests.{ltb}

pub data ℤ : Type 0 where
  pos : ℕ → ℤ
  negsuc : ℕ → ℤ

unfoldable pub ℤ_discrete : Discrete ℤ
unfolding ℕ_discrete
ℤ_discrete (pos m) (pos n) = same (ℕ_discrete m n)
  where
    same : Dec (m ≡ n) → Dec (pos m ≡ pos n)
    same (yes p) = yes (ap pos p)
    same (no p) = no (λ e. p (cc))
ℤ_discrete (pos m) (negsuc n) = no (λ e. cc)
ℤ_discrete (negsuc m) (pos n) = no (λ e. cc)
ℤ_discrete (negsuc m) (negsuc n) = same (ℕ_discrete m n)
  where
    same : Dec (m ≡ n) → Dec (negsuc m ≡ negsuc n)
    same (yes p) = yes (ap negsuc p)
    same (no p) = no (λ e. p (cc))

-- `a < b`
abbrev pub ltℤ : ℤ → ℤ → Bool
ltℤ (pos a) (pos b) = ltb a b
ltℤ (pos a) (negsuc b) = false
ltℤ (negsuc a) (pos b) = true
ltℤ (negsuc a) (negsuc b) = ltb b a

-- `a - b` of two natural numbers
abbrev pub sub_ℕ : ℕ → ℕ → ℤ
sub_ℕ a b = elim (ltb a b) [ true ↦ negsuc (b - a - 1) | false ↦ pos (a - b) ]

-- `uint32(a)`
abbrev pub to_uint32 : ℤ → ℕ
to_uint32 (pos n) = n % 2 ^ 32
to_uint32 (negsuc n) = 2 ^ 32 - 1 - n % 2 ^ 32

pub to_uint32-lt : (a : ℤ) → to_uint32 a < 2 ^ 32
to_uint32-lt (pos n) = omega arith
to_uint32-lt (negsuc n) = omega arith

-- `a == b`
unfoldable pub eqℤ : ℤ → ℤ → Bool
unfolding ℤ_discrete
eqℤ a b = ite (ℤ_discrete a b) true false

pub eqℤ→eq : (a b : ℤ) → eqℤ a b ≡ true → a ≡ b
unfolding eqℤ
eqℤ→eq a b h = elim (ℤ_discrete a b) [
  | yes p ↦ p
  | no p ↦ absurd (false≢true (sym (if_neg (ℤ_discrete a b) p true false) ∙ h))
]

pub eqℤ_of : (a b : ℤ) → a ≡ b → eqℤ a b ≡ true
unfolding eqℤ
eqℤ_of a b e = if_pos (ℤ_discrete a b) e true false
