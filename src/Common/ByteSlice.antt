-- ===== src/Common/ByteSlice.antt =====
-- Byte slices, and Go strings, as lists of numbers below 256; big-endian words; hashes compared.
use Prim.Native.Char.{code}
use Prim.Native.String.{String}
use Prim.Native.Nat.{ℕ, ◌+◌, ◌*◌, ◌/◌, ◌%◌, ◌^◌, ◌<◌}
use mathlib.Core.Path.{◌≡◌, refl, ap₂}
use mathlib.Core.Logic.{◌≢◌, ite, if_pos, if_neg}
use mathlib.Core.Bool.{Bool, true, false, false≢true}
use mathlib.Core.List.{List, [], ◌∷◌, ◌++◌}
use native.Mathlib.Decide.{ℕ_discrete}
use native.Mathlib.Omega.{arith}
use pqc_chat.Common.Lists.{length}

abbrev pub Bytes : Type 0
Bytes = List ℕ

-- The bytes of a string literal that is ASCII.
abbrev pub codes : String → Bytes
codes String.[] = []
codes (String.◌∷◌ c s) = code c ∷ codes s

unfoldable pub Bytes_discrete : Discrete Bytes
unfolding ℕ_discrete
Bytes_discrete [] [] = yes refl
Bytes_discrete [] (y ∷ ys) = no (λ e. cc)
Bytes_discrete (x ∷ xs) [] = no (λ e. cc)
Bytes_discrete (x ∷ xs) (y ∷ ys) = join (ℕ_discrete x y) (Bytes_discrete xs ys)
  where
    join : Dec (x ≡ y) → Dec (xs ≡ ys) → Dec ((x ∷ xs) ≡ (y ∷ ys))
    join (yes p) (yes q) = yes (ap₂ ◌∷◌ p q)
    join (yes p) (no q) = no (λ e. q (cc))
    join (no p) _ = no (λ e. p (cc))

-- Two hashes or slices compared, as `==` on arrays, `bytes.Equal` and `==` on strings do.
unfoldable pub bytes_equal : Bytes → Bytes → Bool
unfolding Bytes_discrete
bytes_equal a b = ite (Bytes_discrete a b) true false

pub bytes_equal→eq : (a b : Bytes) → bytes_equal a b ≡ true → a ≡ b
unfolding bytes_equal
bytes_equal→eq a b h = elim (Bytes_discrete a b) [
  | yes p ↦ p
  | no p ↦ absurd (false≢true (rw (if_neg _ p) at h))
]

pub bytes_equal_refl : (a : Bytes) → bytes_equal a a ≡ true
unfolding bytes_equal
bytes_equal_refl a = rw (if_pos _ refl)

pub bytes_equal_ne : (a b : Bytes) → a ≢ b → bytes_equal a b ≡ false
unfolding bytes_equal
bytes_equal_ne a b h = rw (if_neg _ h)

-- `binary.BigEndian.AppendUint32` of `uint32(n)`, on an empty buffer.
unfoldable pub be32 : ℕ → Bytes
be32 n = (n / 2 ^ 24 % 256) ∷ (n / 2 ^ 16 % 256) ∷ (n / 2 ^ 8 % 256) ∷ (n % 256) ∷ []

-- `binary.BigEndian.AppendUint64` of `uint64(n)`, on an empty buffer.
unfoldable pub be64 : ℕ → Bytes
unfolding be32
be64 n = be32 (n / 2 ^ 32) ++ be32 n

-- `binary.BigEndian.Uint32` of the bytes that it reads.
abbrev pub uint32_of : ℕ → ℕ → ℕ → ℕ → ℕ
uint32_of a b c d = a * 2 ^ 24 + b * 2 ^ 16 + c * 2 ^ 8 + d

pub uint32_of-be32 :
    (n : ℕ)
    → n < 2 ^ 32
    → uint32_of (n / 2 ^ 24 % 256) (n / 2 ^ 16 % 256) (n / 2 ^ 8 % 256) (n % 256) ≡ n
uint32_of-be32 n h = omega arith

pub length-be32 : (n : ℕ) → length (be32 n) ≡ 4
unfolding be32
length-be32 n = refl

pub be32_injective : (m n : ℕ) → m < 2 ^ 32 → n < 2 ^ 32 → be32 m ≡ be32 n → m ≡ n
unfolding be32
be32_injective m n hm hn e = ground arith

-- Two concatenations with first parts of one length agree part by part.
pub append_injective :
    (xs ys us vs : Bytes) → length xs ≡ length ys → xs ++ us ≡ ys ++ vs → (xs ≡ ys) × (us ≡ vs)
append_injective [] [] us vs h e = (refl, e)
append_injective [] (y ∷ ys) us vs h e = absurd (omega arith)
append_injective (x ∷ xs) [] us vs h e = absurd (omega arith)
append_injective (x ∷ xs) (y ∷ ys) us vs h e =
    let ih : (xs ≡ ys) × (us ≡ vs) = append_injective xs ys us vs (omega arith) (cc) in
    (ap₂ ◌∷◌ (cc) ih.0, ih.1)
