-- ===== src/Common/Decimal.antt =====
-- `%d` of `fmt.Sprintf`, for numbers that are not negative.
use Prim.Native.Nat.{ℕ, zero, suc, ◌+◌, ◌/◌, ◌%◌}
use mathlib.Core.List.{[], ◌∷◌, ◌++◌}
use pqc_chat.Common.Tests.{ltb, if◌then◌else◌}
use pqc_chat.Common.ByteSlice.{Bytes}

digits_loop : ℕ → ℕ → Bytes
digits_loop zero n = []
digits_loop (suc fuel) n =
    let front = digits_loop fuel (n / 10) ++ (n % 10 + b'0') ∷ [] in
    if ltb n 10 then (n + b'0') ∷ [] else front

-- An `int` has at most 19 digits.
unfoldable pub decimal : ℕ → Bytes
unfolding digits_loop
decimal n = digits_loop 19 n
