-- ===== src/Merkle/Proofs.antt =====
-- The audit paths that `InclusionProof` returns are accepted by `VerifyInclusionProof`.
use native.Mathlib.Nat.{pow-suc, one-le-pow}
use pqc_chat.Common.{
  ℕ, zero, suc, ◌+◌, ◌-◌, ◌/◌, ◌%◌, ◌^◌, ◌≤◌, ◌<◌, max, ◌≡◌, refl, ap, ◌∙◌, inl, inr, List, [], ◌∷◌,
  some, arith, Bytes, length, get_elem?, subst, get_elem?-some, get_elem?-lt, ◌==◌, if◌then◌else◌,
}
use pqc_chat.Result.{ok, ◌>>=◌, or_panic}
use pqc_chat.Merkle.{
  Tree, leaf_hash, node_hash, pair_up, levels_from, top, audit_path, climb, sibling, padding,
  padded_leaves, build_tree, next_power_of_two,
}
use pqc_chat.Merkle.PowerOfTwo.{next_power_of_two-ok}
use pqc_chat.Merkle.Levels.{
  twice, twice-eq, parity, length-pair_up_pow, get_elem?-pair_up, levels_from-one, levels_from-more,
  levels_from-cons, top-levels_from,
}

module _ (sha256 : Bytes → Bytes) where
  -- The path `path` leads from `h` at index `i` of `cur` to the root of the levels over `cur`.
  pub record Leads (fuel d : ℕ) (cur : List Bytes) (i : ℕ) (h : Bytes) : Type 0 where
    pub path : List Bytes
    pub r : Bytes
    pub walks : audit_path (levels_from sha256 fuel cur) i ≡ ok path
    pub long : length path ≡ d
    pub tops : top (levels_from sha256 fuel cur) ≡ ok r
    pub climbs : climb sha256 h i path ≡ r

  audit_path-more :
      (fuel : ℕ) (cur : List Bytes) (i : ℕ)
      → 1 < length cur
      → audit_path (levels_from sha256 (suc fuel) cur) i ≡ (do
        hash ← or_panic (get_elem? cur (sibling i))
        path ← audit_path (levels_from sha256 fuel (pair_up sha256 cur)) (i / 2)
        ok (hash ∷ path))
  unfolding audit_path
  audit_path-more fuel cur i h =
      let (rest, e) = levels_from-cons sha256 fuel (pair_up sha256 cur) in
      rw (levels_from-more sha256 fuel cur h, e)

  pub IsPower-gt-one : (d n : ℕ) → n ≡ 2 ^ suc d → 1 < n
  IsPower-gt-one d n e = omega (arith, pow-suc 2 d, one-le-pow d 2 (omega arith))

  one : (fuel : ℕ) (x h : Bytes) → some x ≡ some h → Leads fuel 0 (x ∷ []) 0 h
  unfolding audit_path top climb
  one fuel x h e = record {
    path = [];
    r = x;
    walks = rw (levels_from-one sha256 fuel (x ∷ []) refl);
    long = refl;
    tops = rw (levels_from-one sha256 fuel (x ∷ []) refl);
    climbs = cc;
  }

  step :
      (fuel d : ℕ) (cur : List Bytes) (i : ℕ) (h s : Bytes)
      → 1 < length cur
      → get_elem? cur (sibling i) ≡ some s
      → Leads fuel d
          (pair_up sha256 cur)
          (i / 2)
          (if i % 2 == 0 then node_hash sha256 h s else node_hash sha256 s h)
      → Leads (suc fuel) (suc d) cur i h
  unfolding climb
  step fuel d cur i h s big hs l = record {
    path = s ∷ l.path;
    r = l.r;
    walks = audit_path-more fuel cur i big ∙ rw (hs, l.walks);
    long = ap suc l.long;
    tops = top-levels_from sha256 fuel cur big ∙ l.tops;
    climbs = l.climbs;
  }

  -- The neighbour of an index, and the hash of the two one level up.
  abbrev Neighbour : List Bytes → ℕ → Bytes → Bytes → Type 0
  Neighbour cur i h s =
      (get_elem? cur (sibling i) ≡ some s)
      × (get_elem? (pair_up sha256 cur) (i / 2)
          ≡ some (if i % 2 == 0 then node_hash sha256 h s else node_hash sha256 s h))

  right-Neighbour :
      (cur : List Bytes) (i : ℕ) (h s : Bytes)
      → i % 2 ≡ 0
      → get_elem? cur (twice (i / 2)) ≡ some h
      → get_elem? cur (suc (twice (i / 2))) ≡ some s
      → Neighbour cur i h s
  right-Neighbour cur i h s even e hs =
      let index : i + 1 ≡ suc (twice (i / 2)) = omega (arith, twice-eq (i / 2)) in
      (rw (even, index) hs, rw even (get_elem?-pair_up sha256 cur (i / 2) e hs))

  left-Neighbour :
      (cur : List Bytes) (i : ℕ) (h s : Bytes)
      → i % 2 ≡ 1
      → get_elem? cur (suc (twice (i / 2))) ≡ some h
      → get_elem? cur (twice (i / 2)) ≡ some s
      → Neighbour cur i h s
  left-Neighbour cur i h s odd e hs =
      let index : i - 1 ≡ twice (i / 2) = omega (arith, twice-eq (i / 2)) in
      (rw (odd, index) hs, rw odd (get_elem?-pair_up sha256 cur (i / 2) hs e))

  pub neighbour :
      (d : ℕ) (cur : List Bytes) (i : ℕ) (h : Bytes)
      → length cur ≡ 2 ^ suc d
      → get_elem? cur i ≡ some h
      → (s : Bytes) × (get_elem? cur (sibling i) ≡ some s)
        × (get_elem? (pair_up sha256 cur) (i / 2)
            ≡ some (if i % 2 == 0 then node_hash sha256 h s else node_hash sha256 s h))
  neighbour d cur i h len e = elim (parity i) [
    | inl (even, at) ↦
        let (s, hs) =
          get_elem?-some cur (suc (twice (i / 2)))
            (omega (arith, get_elem?-lt cur i e, twice-eq (i / 2), pow-suc 2 d)) in
        let n : Neighbour cur i h s =
          right-Neighbour cur i h s even (subst (λ k. get_elem? cur k ≡ some h) at e) hs in
        (s, n.0, n.1)
    | inr (odd, at) ↦
        let (s, hs) = get_elem?-some cur (twice (i / 2)) (omega (arith, get_elem?-lt cur i e)) in
        let n : Neighbour cur i h s =
          left-Neighbour cur i h s odd (subst (λ k. get_elem? cur k ≡ some h) at e) hs in
        (s, n.0, n.1)
  ]

  pub audit_path-Leads :
      (d fuel : ℕ) (cur : List Bytes) (i : ℕ) (h : Bytes)
      → length cur ≡ 2 ^ d
      → d ≤ fuel
      → get_elem? cur i ≡ some h
      → Leads fuel d cur i h
  audit_path-Leads zero fuel [] i h len hf e = absurd (omega arith)
  audit_path-Leads zero fuel (x ∷ y ∷ cur) i h len hf e = absurd (omega arith)
  audit_path-Leads zero fuel (x ∷ []) (suc i) h len hf e = ground arith
  audit_path-Leads zero fuel (x ∷ []) zero h len hf e = one fuel x h e
  audit_path-Leads (suc d) zero cur i h len hf e = absurd (omega arith)
  audit_path-Leads (suc d) (suc fuel) cur i h len hf e =
      let (s, hs, up) = neighbour d cur i h len e in
      step fuel d cur i h s (IsPower-gt-one d (length cur) len) hs (
        audit_path-Leads d fuel (pair_up sha256 cur) (i / 2) _ (length-pair_up_pow sha256 d cur len)
          (omega arith) up)

  -- The leaves are padded to a power of two, and each stands at its index.
  length-padding :
      (domain : Bytes) (rounds i : ℕ) → length (padding sha256 domain rounds i) ≡ rounds
  unfolding padding
  length-padding domain zero i = refl
  length-padding domain (suc rounds) i = ap suc (length-padding domain rounds (i + 1))

  pub length-padded_leaves :
      (domain : Bytes) (leaves : List Bytes) (rounds i : ℕ)
      → length (padded_leaves sha256 domain leaves rounds i) ≡ rounds
  unfolding padded_leaves
  length-padded_leaves domain leaves zero i = refl
  length-padded_leaves domain [] (suc rounds) i = length-padding domain (suc rounds) i
  length-padded_leaves domain (l ∷ ls) (suc rounds) i =
      ap suc (length-padded_leaves domain ls rounds (i + 1))

  pub get_elem?-padded_leaves :
      (domain : Bytes) (leaves : List Bytes) (rounds i k : ℕ) {l : Bytes}
      → k < rounds
      → get_elem? leaves k ≡ some l
      → get_elem? (padded_leaves sha256 domain leaves rounds i) k ≡ some (leaf_hash sha256 l)
  unfolding padded_leaves
  get_elem?-padded_leaves domain leaves zero i k h e = absurd (omega arith)
  get_elem?-padded_leaves domain [] (suc rounds) i k h e = ground arith
  get_elem?-padded_leaves domain (l ∷ ls) (suc rounds) i zero h e = cc
  get_elem?-padded_leaves domain (l ∷ ls) (suc rounds) i (suc k) h e =
      get_elem?-padded_leaves domain ls rounds (i + 1) k (omega arith) e

  -- The tree over `leaves` and the length of its audit paths.
  pub record IsBuilt (domain : Bytes) (leaves : List Bytes) (t : Tree) (d : ℕ) : Type 0 where
    pub size : next_power_of_two (length leaves) ≡ ok (2 ^ d)
    pub depth : d ≤ 62
    pub count : t.n ≡ length leaves
    pub fits : length leaves ≤ 2 ^ d
    pub levels : t.levels ≡ levels_from sha256 63 (padded_leaves sha256 domain leaves (2 ^ d) 0)

  -- A tree is built over every list of 1 to 2 ^ 62 leaves.
  pub build_tree-IsBuilt :
      (domain : Bytes) (leaves : List Bytes)
      → 0 < length leaves
      → length leaves ≤ 2 ^ 62
      → (t : Tree) × (d : ℕ) × (build_tree sha256 domain leaves ≡ ok t) × IsBuilt domain leaves t d
  unfolding build_tree
  build_tree-IsBuilt domain leaves lo hi =
      let (d, e, (_, small, fits, _)) = next_power_of_two-ok (length leaves) hi in
      let size : max (length leaves) 1 ≡ length leaves = omega arith in
      (
        record {
          n = length leaves;
          levels = levels_from sha256 63 (padded_leaves sha256 domain leaves (2 ^ d) 0);
        },
        d,
        rw size (rw e),
        record { size = e; depth = small; count = refl; fits = fits; levels = refl },
      )
