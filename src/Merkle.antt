-- ===== src/Merkle.antt =====
-- crypto/merkle/merkle.go. SHA-256 is a parameter. A `Hash` is a list of bytes; the lemmas that need
-- its 32 bytes say so. `panic` is an index out of range, `diverges` a loop that does not end.
pub mod PowerOfTwo
pub mod Levels
pub mod Proofs
pub mod Completeness
pub mod Soundness
pub mod Accepted
use pqc_chat.Common.{
  ℕ, zero, suc, ◌+◌, ◌-◌, ◌*◌, ◌/◌, ◌%◌, ◌^◌, max, Bool, true, false, ◌||◌, List, [], ◌∷◌, ◌++◌,
  Option, none, some, length, get_elem?, Bytes, codes, bytes_equal, ltb, leb, ◌==◌, if◌then◌else◌,
}
use pqc_chat.Common.Int.{ℤ, pos, negsuc}
use pqc_chat.Common.Decimal.{decimal}
use pqc_chat.Result.{
  Result, ok, err, panic, diverges, ◌>>=◌, ◌>>◌, or_panic, guard, index_out_of_range,
}

-- `p < n` for the bit pattern `p` of an `int` and an `n` that is not negative.
abbrev pub word_lt : ℕ → ℕ → Bool
word_lt p n = leb (2 ^ 63) p || ltb p n

-- The loop of `nextPowerOfTwo`: `p` is the bit pattern of an `int`, and `p <<= 1` drops its top bit.
pub next_power_loop : ℕ → ℕ → ℕ → Result ℕ
next_power_loop zero p n = diverges
next_power_loop (suc fuel) p n =
    let again = next_power_loop fuel (p * 2 % 2 ^ 64) n in if word_lt p n then again else ok p

-- `p` is 0 after 64 doublings at most, so more rounds than 65 cannot end the loop.
unfoldable pub next_power_of_two : ℕ → Result ℕ
unfolding next_power_loop
next_power_of_two n = next_power_loop 65 1 n

unfoldable pub padding_leaf : Bytes → ℕ → Bytes
unfolding decimal
padding_leaf domain index =
    codes "pqchat-merkle-padding-leaf-" ++ (domain ++ (codes "-" ++ decimal index))

pub record Tree : Type 0 where
  pub n : ℕ
  pub levels : List (List Bytes)

module _ (sha256 : Bytes → Bytes) where
  unfoldable pub leaf_hash : Bytes → Bytes
  leaf_hash content = sha256 (0x00 ∷ content)

  unfoldable pub node_hash : Bytes → Bytes → Bytes
  node_hash left right = sha256 (0x01 ∷ (left ++ right))

  -- The rounds of the loop over `leaves` from `i` on, `rounds` of them.
  pub padding : Bytes → ℕ → ℕ → List Bytes
  padding domain zero i = []
  padding domain (suc rounds) i = leaf_hash (padding_leaf domain i) ∷ padding domain rounds (i + 1)

  -- `size` entries: a leaf where there is one, and else a padding leaf.
  pub padded_leaves : Bytes → List Bytes → ℕ → ℕ → List Bytes
  padded_leaves domain leaf_data zero i = []
  padded_leaves domain [] (suc rounds) i = padding domain (suc rounds) i
  padded_leaves domain (l ∷ ls) (suc rounds) i =
      leaf_hash l ∷ padded_leaves domain ls rounds (i + 1)

  -- One level up. The last of an odd number is dropped, as `len(cur)/2` does.
  pub pair_up : List Bytes → List Bytes
  pair_up [] = []
  pair_up (x ∷ []) = []
  pair_up (x ∷ y ∷ rest) = node_hash x y ∷ pair_up rest

  -- The loop over `cur`. A slice has fewer than 2 ^ 63 elements, so 63 rounds are enough.
  pub levels_from : ℕ → List Bytes → List (List Bytes)
  levels_from zero cur = cur ∷ []
  levels_from (suc fuel) cur =
      let above = levels_from fuel (pair_up cur) in
      if ltb 1 (length cur) then cur ∷ above else cur ∷ []

  unfoldable pub build_tree : Bytes → List Bytes → Result Tree
  unfolding leaf_hash node_hash padding padded_leaves pair_up levels_from padding_leaf
      next_power_of_two
  build_tree domain leaf_data = do
    size ← next_power_of_two (max (length leaf_data) 1)
    let leaves = padded_leaves domain leaf_data size 0
    ok (record { n = length leaf_data; levels = levels_from 63 leaves })

-- `levels[len(levels)-1][0]`
pub top : List (List Bytes) → Result Bytes
top [] = panic
top (l ∷ []) = or_panic (get_elem? l 0)
top (l ∷ m ∷ rest) = top (m ∷ rest)

unfoldable pub root : Tree → Result Bytes
unfolding top
root t = top t.levels

-- `idx ^ 1`
abbrev pub sibling : ℕ → ℕ
sibling idx = if idx % 2 == 0 then idx + 1 else idx - 1

-- The loop of `InclusionProof` over all levels but the last.
pub audit_path : List (List Bytes) → ℕ → Result (List Bytes)
audit_path [] idx = ok []
audit_path (level ∷ []) idx = ok []
audit_path (level ∷ next ∷ rest) idx = do
  hash ← or_panic (get_elem? level (sibling idx))
  path ← audit_path (next ∷ rest) (idx / 2)
  ok (hash ∷ path)

unfoldable pub inclusion_proof : Tree → ℤ → Result (List Bytes)
unfolding audit_path
inclusion_proof t (negsuc _) = err index_out_of_range
inclusion_proof t (pos index) = do
  guard (ltb index t.n) index_out_of_range
  audit_path t.levels index

-- `for p := nextPowerOfTwo(size); p > 1; p >>= 1 { depth++ }`
pub depth_loop : ℕ → ℕ → ℕ → ℕ
depth_loop zero p depth = depth
depth_loop (suc fuel) p depth =
    let again = depth_loop fuel (p / 2) (depth + 1) in if ltb 1 p then again else depth

module _ (sha256 : Bytes → Bytes) where
  -- The loop over the audit path.
  pub climb : Bytes → ℕ → List Bytes → Bytes
  climb h idx [] = h
  climb h idx (s ∷ path) =
      climb (if idx % 2 == 0 then node_hash sha256 h s else node_hash sha256 s h) (idx / 2) path

  -- `VerifyInclusionProof` after the test on the index. `p` is below 2 ^ 63: 63 halvings end it.
  pub verify_path : Bytes → ℕ → ℕ → List Bytes → Bytes → Result Bool
  unfolding climb depth_loop next_power_of_two leaf_hash node_hash bytes_equal
  verify_path content index size path r = do
    p ← next_power_of_two size
    let depth = depth_loop 63 p 0
    let h = climb (leaf_hash sha256 content) index path
    if length path == depth then ok (bytes_equal h r) else ok false

  unfoldable pub verify_inclusion_proof : Bytes → ℤ → ℤ → List Bytes → Bytes → Result Bool
  unfolding verify_path
  verify_inclusion_proof content (negsuc _) size path r = ok false
  verify_inclusion_proof content (pos index) (negsuc _) path r = ok false
  verify_inclusion_proof content (pos index) (pos size) path r =
      if ltb index size then verify_path content index size path r else ok false
