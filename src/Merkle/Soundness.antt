-- ===== src/Merkle/Soundness.antt =====
-- What an accepted audit path says: the leaf is the one at that index of the tree, or two of the
-- inputs that were hashed on the way collide.
use native.Mathlib.Nat.{pow-suc}
use pqc_chat.Common.{
  ℕ, zero, suc, ◌/◌, ◌%◌, ◌^◌, ◌≤◌, ◌<◌, ◌≡◌, ◌≢◌, refl, ap, sym, ◌∙◌, subst, ◌⊎◌, inl, inr, List,
  [], ◌∷◌, ◌++◌, some, arith, Bytes, Bytes_discrete, length, get_elem?, get_or, get_or-some, All,
  All-get, Any, get_elem?-some, ◌==◌, if◌then◌else◌, append_injective, Bool-cases,
}
use pqc_chat.Merkle.{node_hash, pair_up, levels_from, top, climb}
use pqc_chat.Result.{ok}
use pqc_chat.Merkle.Levels.{
  twice, twice-eq, parity, length-pair_up_pow, get_elem?-pair_up, levels_from-one, top-levels_from,
}
use pqc_chat.Merkle.Proofs.{IsPower-gt-one}

-- A `[32]byte`.
abbrev pub IsHash : Bytes → Type 0
IsHash h = length h ≡ 32

module _ (sha256 : Bytes → Bytes) where
  -- Two different inputs with one SHA-256 hash.
  abbrev pub Collides : Bytes × Bytes → Type 0
  Collides p = (p.0 ≢ p.1) × (sha256 p.0 ≡ sha256 p.1)

  -- The inputs of the hash over `h` at index `i` and its sibling `s`, as `VerifyInclusionProof` takes
  -- them, and over the two entries of `cur` there, as `BuildTree` does.
  abbrev pub node_inputs : List Bytes → ℕ → Bytes → Bytes → Bytes × Bytes
  node_inputs cur i h s = (
    0x01 ∷ (if i % 2 == 0 then h ++ s else s ++ h),
    0x01 ∷ (get_or cur (twice (i / 2)) [] ++ get_or cur (suc (twice (i / 2))) []),
  )

  -- One such pair for each level that the path passes.
  pub compared : List Bytes → ℕ → Bytes → List Bytes → List (Bytes × Bytes)
  compared cur i h [] = []
  compared cur i h (s ∷ path) =
      node_inputs cur i h s
      ∷ compared (pair_up sha256 cur) (i / 2)
          (if i % 2 == 0 then node_hash sha256 h s else node_hash sha256 s h) path

  -- Inputs of one hash are equal or collide.
  pub same_or_collide : (x y : Bytes) → sha256 x ≡ sha256 y → (x ≡ y) ⊎ Collides (x, y)
  same_or_collide x y e = elim (Bytes_discrete x y) [ yes p ↦ inl p | no p ↦ inr (p, e) ]

  even_inputs :
      (cur : List Bytes) (i : ℕ) (h s g t : Bytes)
      → length h ≡ length g
      → i % 2 ≡ 0
      → get_elem? cur (twice (i / 2)) ≡ some g
      → get_elem? cur (suc (twice (i / 2))) ≡ some t
      → node_hash sha256 h s ≡ node_hash sha256 g t
      → (g ≡ h) ⊎ Collides (node_inputs cur i h s)
  unfolding node_hash
  even_inputs cur i h s g t long even hg ht e = elim (same_or_collide _ _ e) [
    | inl same ↦ inl (sym (append_injective h g s t long (cc)).0)
    | inr c ↦ inr (rw (even, get_or-some cur _ [] hg, get_or-some cur _ [] ht) c)
  ]

  odd_inputs :
      (cur : List Bytes) (i : ℕ) (h s g t : Bytes)
      → length s ≡ length t
      → i % 2 ≡ 1
      → get_elem? cur (suc (twice (i / 2))) ≡ some g
      → get_elem? cur (twice (i / 2)) ≡ some t
      → node_hash sha256 s h ≡ node_hash sha256 t g
      → (g ≡ h) ⊎ Collides (node_inputs cur i h s)
  unfolding node_hash
  odd_inputs cur i h s g t long odd hg ht e = elim (same_or_collide _ _ e) [
    | inl same ↦ inl (sym (append_injective s t h g long (cc)).1)
    | inr c ↦ inr (rw (odd, get_or-some cur _ [] hg, get_or-some cur _ [] ht) c)
  ]

  module _ (sized : (x : Bytes) → IsHash (sha256 x)) where
    pair_up-IsHash : (cur : List Bytes) → All IsHash (pair_up sha256 cur)
    unfolding pair_up node_hash
    pair_up-IsHash [] = tt
    pair_up-IsHash (x ∷ []) = tt
    pair_up-IsHash (x ∷ y ∷ cur) = (sized _, pair_up-IsHash cur)

    node-IsHash :
        (i : ℕ) (h s : Bytes)
        → IsHash (if i % 2 == 0 then node_hash sha256 h s else node_hash sha256 s h)
    unfolding node_hash
    node-IsHash i h s = elim (Bool-cases (i % 2 == 0)) [
      | inl e ↦ rw e (sized _)
      | inr e ↦ rw e (sized _)
    ]

    -- One level: if the hash over `h` and `s` is the one above index `i`, then `h` stands at `i`, or
    -- the inputs collide.
    level_below :
        (d : ℕ) (cur : List Bytes) (i : ℕ) (h s : Bytes)
        → length cur ≡ 2 ^ suc d
        → i < 2 ^ suc d
        → All IsHash cur
        → IsHash h
        → IsHash s
        → get_elem? (pair_up sha256 cur) (i / 2)
          ≡ some (if i % 2 == 0 then node_hash sha256 h s else node_hash sha256 s h)
        → (get_elem? cur i ≡ some h) ⊎ Collides (node_inputs cur i h s)
    level_below d cur i h s len hi sizes hh hs up = elim (parity i) [
      | inl (even, at) ↦
          let (g, hg) = get_elem?-some cur (twice (i / 2)) (omega arith) in
          let (t, ht) =
            get_elem?-some cur (suc (twice (i / 2)))
              (omega (arith, twice-eq (i / 2), pow-suc 2 d)) in
          let up' : some (node_hash sha256 g t) ≡ some (node_hash sha256 h s) =
            sym (get_elem?-pair_up sha256 cur (i / 2) hg ht) ∙ up ∙ rw even in
          let r =
            even_inputs cur i h s g t (hh ∙ sym (All-get IsHash cur _ sizes hg)) even hg ht (cc) in
          elim r [
            | inl same ↦ inl (subst (λ k. get_elem? cur k ≡ some h) (sym at) (hg ∙ ap some same))
            | inr c ↦ inr c
          ]
      | inr (odd, at) ↦
          let (g, hg) = get_elem?-some cur (suc (twice (i / 2))) (omega arith) in
          let (t, ht) = get_elem?-some cur (twice (i / 2)) (omega arith) in
          let up' : some (node_hash sha256 t g) ≡ some (node_hash sha256 s h) =
            sym (get_elem?-pair_up sha256 cur (i / 2) ht hg) ∙ up ∙ rw odd in
          let r =
            odd_inputs cur i h s g t (hs ∙ sym (All-get IsHash cur _ sizes ht)) odd hg ht (cc) in
          elim r [
            | inl same ↦ inl (subst (λ k. get_elem? cur k ≡ some h) (sym at) (hg ∙ ap some same))
            | inr c ↦ inr c
          ]
    ]

    -- A path of the right length that climbs from `h` at index `i` to the root starts at the entry
    -- `i` of the level, or passes a collision.
    pub climb_unique :
        (d fuel : ℕ) (cur : List Bytes) (i : ℕ) (h : Bytes) (path : List Bytes)
        → length cur ≡ 2 ^ d
        → d ≤ fuel
        → i < 2 ^ d
        → length path ≡ d
        → All IsHash cur
        → IsHash h
        → All IsHash path
        → top (levels_from sha256 fuel cur) ≡ ok (climb sha256 h i path)
        → (get_elem? cur i ≡ some h) ⊎ Any Collides (compared cur i h path)
    unfolding climb compared top
    climb_unique zero fuel [] i h path len hf hi long sizes hh hp e = absurd (omega arith)
    climb_unique zero fuel (x ∷ y ∷ cur) i h path len hf hi long sizes hh hp e =
        absurd (omega arith)
    climb_unique zero fuel (x ∷ []) (suc i) h path len hf hi long sizes hh hp e =
        absurd (omega arith)
    climb_unique zero fuel (x ∷ []) zero h (s ∷ path) len hf hi long sizes hh hp e =
        absurd (omega arith)
    climb_unique zero fuel (x ∷ []) zero h [] len hf hi long sizes hh hp e = inl (
        let t : top ((x ∷ []) ∷ []) ≡ ok h =
          subst (λ l. top l ≡ ok h) (levels_from-one sha256 fuel (x ∷ []) refl) e in
        cc)
    climb_unique (suc d) zero cur i h path len hf hi long sizes hh hp e = absurd (omega arith)
    climb_unique (suc d) (suc fuel) cur i h [] len hf hi long sizes hh hp e = absurd (omega arith)
    climb_unique (suc d) (suc fuel) cur i h (s ∷ path) len hf hi long sizes hh hp e =
        let big = IsPower-gt-one sha256 d (length cur) len in
        let below : i / 2 < 2 ^ d = omega (arith, pow-suc 2 d) in
        let ih =
          climb_unique d fuel (pair_up sha256 cur) (i / 2) _ path
            (length-pair_up_pow sha256 d cur len) (omega arith) below (omega arith)
            (pair_up-IsHash cur) (node-IsHash i h s) hp.1
            (sym (top-levels_from sha256 fuel cur big) ∙ e) in
        elim ih [
          | inr c ↦ inr (inr c)
          | inl up ↦ elim (level_below d cur i h s len hi sizes hh hp.0 up) [
            | inl found ↦ inl found
            | inr c ↦ inr (inl c)
          ]
        ]
