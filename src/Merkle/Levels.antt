-- ===== src/Merkle/Levels.antt =====
-- The levels of the tree over 2 ^ d hashes, and the last one, which holds the root.
use native.Mathlib.Nat.{pow-suc}
use pqc_chat.Common.{
  ℕ, zero, suc, ◌*◌, ◌/◌, ◌%◌, ◌^◌, ◌<◌, ◌≡◌, refl, ap, ◌⊎◌, inl, inr, Bool, true, false, List, [],
  ◌∷◌, some, arith, Bytes, length, get_elem?, ltb, lt→ltb, if◌then◌else◌,
}
use pqc_chat.Merkle.{node_hash, pair_up, levels_from, top}

-- 2 * n, by a recursion that lists follow.
abbrev pub twice : ℕ → ℕ
twice zero = zero
twice (suc n) = suc (suc (twice n))

pub twice-eq : (n : ℕ) → twice n ≡ 2 * n
twice-eq zero = omega arith
twice-eq (suc n) = omega (arith, twice-eq n)

pub parity :
    (i : ℕ) → ((i % 2 ≡ 0) × (i ≡ twice (i / 2))) ⊎ ((i % 2 ≡ 1) × (i ≡ suc (twice (i / 2))))
parity i =
    elim (ltb (i % 2) 1) as (λ b. ltb (i % 2) 1 ≡ b → P) [
      | true ↦ λ e. inl (ground arith, omega (arith, twice-eq (i / 2), even e))
      | false ↦ λ e. inr (odd e, omega (arith, twice-eq (i / 2), odd e))
    ]
      refl
  where
    P : Type 0
    P = ((i % 2 ≡ 0) × (i ≡ twice (i / 2))) ⊎ ((i % 2 ≡ 1) × (i ≡ suc (twice (i / 2))))

    even : ltb (i % 2) 1 ≡ true → i % 2 ≡ 0
    even e = ground arith

    odd : ltb (i % 2) 1 ≡ false → i % 2 ≡ 1
    odd e = ground arith

module _ (sha256 : Bytes → Bytes) where
  pub length-pair_up :
      (n : ℕ) (cur : List Bytes) → length cur ≡ twice n → length (pair_up sha256 cur) ≡ n
  unfolding pair_up
  length-pair_up zero [] h = refl
  length-pair_up zero (x ∷ cur) h = absurd (omega arith)
  length-pair_up (suc n) [] h = absurd (omega arith)
  length-pair_up (suc n) (x ∷ []) h = absurd (omega arith)
  length-pair_up (suc n) (x ∷ y ∷ cur) h = ap suc (length-pair_up n cur (omega arith))

  pub length-pair_up_pow :
      (d : ℕ) (cur : List Bytes) → length cur ≡ 2 ^ suc d → length (pair_up sha256 cur) ≡ 2 ^ d
  length-pair_up_pow d cur h =
      length-pair_up (2 ^ d) cur (omega (arith, pow-suc 2 d, twice-eq (2 ^ d)))

  -- A pair of neighbours is below its hash.
  pub get_elem?-pair_up :
      (cur : List Bytes) (j : ℕ) {x y : Bytes}
      → get_elem? cur (twice j) ≡ some x
      → get_elem? cur (suc (twice j)) ≡ some y
      → get_elem? (pair_up sha256 cur) j ≡ some (node_hash sha256 x y)
  unfolding pair_up
  get_elem?-pair_up [] j hx hy = ground arith
  get_elem?-pair_up (x ∷ []) zero hx hy = ground arith
  get_elem?-pair_up (x ∷ []) (suc j) hx hy = ground arith
  get_elem?-pair_up (x ∷ y ∷ cur) zero hx hy = cc
  get_elem?-pair_up (x ∷ y ∷ cur) (suc j) hx hy = get_elem?-pair_up cur j hx hy

  pub levels_from-one :
      (fuel : ℕ) (cur : List Bytes) → length cur ≡ 1 → levels_from sha256 fuel cur ≡ cur ∷ []
  unfolding levels_from
  levels_from-one zero cur h = refl
  levels_from-one (suc fuel) cur h = rw h

  pub levels_from-more :
      (fuel : ℕ) (cur : List Bytes)
      → 1 < length cur
      → levels_from sha256 (suc fuel) cur ≡ cur ∷ levels_from sha256 fuel (pair_up sha256 cur)
  unfolding levels_from
  levels_from-more fuel cur h = rw (lt→ltb 1 (length cur) h)

  pub levels_from-cons :
      (fuel : ℕ) (cur : List Bytes)
      → (rest : List (List Bytes)) × (levels_from sha256 fuel cur ≡ cur ∷ rest)
  unfolding levels_from
  levels_from-cons zero cur = ([], refl)
  levels_from-cons (suc fuel) cur = split (ltb 1 (length cur))
    where
      above : List (List Bytes)
      above = levels_from sha256 fuel (pair_up sha256 cur)

      split :
          (b : Bool)
          → (rest : List (List Bytes)) × ((if b then cur ∷ above else cur ∷ []) ≡ cur ∷ rest)
      split true = (above, refl)
      split false = ([], refl)

  -- The root of a tree of two levels or more is that of the tree above its leaves.
  pub top-levels_from :
      (fuel : ℕ) (cur : List Bytes)
      → 1 < length cur
      → top (levels_from sha256 (suc fuel) cur) ≡ top (levels_from sha256 fuel (pair_up sha256 cur))
  unfolding top
  top-levels_from fuel cur h =
      let (rest, e) = levels_from-cons fuel (pair_up sha256 cur) in
      rw (levels_from-more fuel cur h, e)
