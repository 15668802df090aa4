-- ===== src/Merkle/PowerOfTwo.antt =====
-- `nextPowerOfTwo` and the depth that `VerifyInclusionProof` computes from it.
use Prim.Native.Nat.{zero-le}
use native.Mathlib.Nat.{pow-suc, pow-le-pow_right}
use pqc_chat.Common.{
  ℕ, zero, suc, ◌+◌, ◌*◌, ◌/◌, ◌%◌, ◌^◌, ◌≤◌, ◌<◌, ◌≡◌, refl, ap, ◌⊎◌, inl, inr, true, arith, ltb,
  Bool-cases, ltb→lt, lt→ltb, dec_le, subst,
}
use pqc_chat.Result.{ok, diverges}
use pqc_chat.Merkle.{word_lt, next_power_loop, next_power_of_two, depth_loop}

pow_bound : (k : ℕ) → k ≤ 62 → 2 ^ k ≤ 2 ^ 62
pow_bound k h = pow-le-pow_right {n = 2} (omega arith) h

-- The test of the loop is the one on numbers while `p` is not negative.
word_lt-eq : (p n : ℕ) → p < 2 ^ 63 → word_lt p n ≡ ltb p n
word_lt-eq p n h = ground arith

double : (k : ℕ) → k ≤ 62 → 2 ^ k * 2 % 2 ^ 64 ≡ 2 ^ suc k
double k h = omega (arith, pow_bound k, pow-suc 2 k)

-- 2 ^ d is the first power of two from 2 ^ k on that is not below `n`.
abbrev pub IsNextPower : ℕ → ℕ → ℕ → Type 0
IsNextPower k n d = (k ≤ d) × (d ≤ 62) × (n ≤ 2 ^ d) × ((d ≡ k) ⊎ (2 ^ d < 2 * n))

room : (k n : ℕ) → k ≤ 62 → n ≤ 2 ^ 62 → 2 ^ k < n → k ≤ 61
room k n hk hn h = elim (dec_le k 61) [
  | yes p ↦ p
  | no p ↦ absurd (omega (arith, ap (λ (x : ℕ). 2 ^ x) (at_top p)))
]
  where
    at_top : ¬ (k ≤ 61) → k ≡ 62
    at_top p = omega arith

tighten : (k n d : ℕ) → 2 ^ k < n → (d ≡ suc k) ⊎ (2 ^ d < 2 * n) → 2 ^ d < 2 * n
tighten k n d h (inl e) = rw e (omega (arith, pow-suc 2 k))
tighten k n d h (inr t) = t

next_power_loop-ok :
    (fuel k n : ℕ)
    → n ≤ 2 ^ 62
    → k ≤ 62
    → 62 < fuel + k
    → (d : ℕ) × (next_power_loop fuel (2 ^ k) n ≡ ok (2 ^ d)) × IsNextPower k n d
unfolding next_power_loop
next_power_loop-ok zero k n hn hk hf = absurd (omega arith)
next_power_loop-ok (suc fuel) k n hn hk hf = elim (Bool-cases (ltb (2 ^ k) n)) [
  | inr done ↦ (
    k,
    rw (word_lt-eq (2 ^ k) n (omega (arith, pow_bound k hk))) (rw done),
    (omega arith, hk, ground arith, inl refl),
  )
  | inl more ↦
      let below : 2 ^ k < n = ltb→lt (2 ^ k) n more in
      let small : k ≤ 61 = room k n hk hn below in
      let (d, e, (lo, hi, big, tight)) =
        next_power_loop-ok fuel (suc k) n hn (omega arith) (omega arith) in
      (
        d,
        rw (word_lt-eq (2 ^ k) n (omega (arith, pow_bound k hk))) (rw (more, double k hk) e),
        (omega arith, hi, big, inr (tighten k n d below tight)),
      )
]

-- For every `n` up to 2 ^ 62, `nextPowerOfTwo` returns a power 2 ^ d that is at least `n`, at most
-- 2 ^ 62, and less than twice `n` unless it is 1.
pub next_power_of_two-ok :
    (n : ℕ) → n ≤ 2 ^ 62 → (d : ℕ) × (next_power_of_two n ≡ ok (2 ^ d)) × IsNextPower 0 n d
unfolding next_power_of_two
next_power_of_two-ok n h = next_power_loop-ok 65 0 n h (omega arith) (omega arith)

-- A loop that has reached 0 stays there.
next_power_loop_zero : (fuel n : ℕ) → 0 < n → next_power_loop fuel 0 n ≡ diverges
unfolding next_power_loop
next_power_loop_zero zero n h = refl
next_power_loop_zero (suc fuel) n h = ground (arith, next_power_loop_zero fuel n h)

next_power_loop_top : (fuel n : ℕ) → 0 < n → next_power_loop fuel (2 ^ 63) n ≡ diverges
unfolding next_power_loop
next_power_loop_top zero n h = refl
next_power_loop_top (suc fuel) n h = ground (arith, next_power_loop_zero fuel n h)

always_below : (k n : ℕ) → k ≤ 62 → 2 ^ 62 < n → word_lt (2 ^ k) n ≡ true
always_below k n h big =
    rw (word_lt-eq (2 ^ k) n (omega (arith, pow_bound k h)))
      (lt→ltb (2 ^ k) n (omega (arith, pow_bound k h)))

next_power_loop_overflows :
    (fuel k n : ℕ) → k ≤ 63 → 2 ^ 62 < n → next_power_loop fuel (2 ^ k) n ≡ diverges
unfolding next_power_loop
next_power_loop_overflows zero k n hk h = refl
next_power_loop_overflows (suc fuel) k n hk h = elim (dec_le k 62) [
  | yes p ↦
      rw (always_below k n p h, double k p)
        (next_power_loop_overflows fuel (suc k) n (omega arith) h)
  | no p ↦
      subst (λ j. next_power_loop (suc fuel) (2 ^ j) n ≡ diverges) (top_only p)
        (next_power_loop_top (suc fuel) n (omega arith))
]
  where
    top_only : ¬ (k ≤ 62) → 63 ≡ k
    top_only p = omega arith

-- For a size above 2 ^ 62 `nextPowerOfTwo` never returns, however many rounds its loop makes.
pub next_power_of_two-diverges : (fuel n : ℕ) → 2 ^ 62 < n → next_power_loop fuel 1 n ≡ diverges
next_power_of_two-diverges fuel n h = next_power_loop_overflows fuel 0 n (omega arith) h

-- The loop over `depth` counts the doublings.
pub depth_loop-pow : (fuel d depth : ℕ) → d ≤ fuel → depth_loop fuel (2 ^ d) depth ≡ depth + d
unfolding depth_loop
depth_loop-pow zero d depth h = omega arith
depth_loop-pow (suc fuel) zero depth h = omega arith
depth_loop-pow (suc fuel) (suc d) depth h =
    let half : 2 ^ suc d / 2 ≡ 2 ^ d = omega (arith, pow-suc 2 d) in
    let more : 1 < 2 ^ suc d =
      omega (arith, pow-suc 2 d, pow-le-pow_right {n = 2} (omega arith) zero-le) in
    rw (lt→ltb 1 (2 ^ suc d) more, half)
      (omega (arith, depth_loop-pow fuel d (depth + 1) (omega arith)))
