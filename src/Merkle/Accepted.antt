-- ===== src/Merkle/Accepted.antt =====
-- What `VerifyInclusionProof` accepts against the root of a tree that `BuildTree` returned.
use pqc_chat.Common.{
  ℕ, zero, suc, ◌+◌, ◌^◌, ◌≤◌, ◌<◌, ◌≡◌, refl, ◌⊎◌, inl, inr, true, List, [], ◌∷◌, some, arith,
  Bytes, length, get_elem?, get_or, get_or-some, All, Any, get_elem?-some, ltb, ltb→lt, ◌==◌,
  bytes_equal→eq, Bool-cases,
}
use pqc_chat.Common.Int.{ℤ, pos, negsuc}
use pqc_chat.Result.{ok}
use pqc_chat.Merkle.{
  Tree, leaf_hash, padding, padded_leaves, build_tree, root, climb, depth_loop, next_power_of_two,
  verify_path, verify_inclusion_proof,
}
use pqc_chat.Merkle.PowerOfTwo.{depth_loop-pow}
use pqc_chat.Merkle.Proofs.{length-padded_leaves, get_elem?-padded_leaves}
use pqc_chat.Merkle.Completeness.{IsBuilt-of-build_tree}
use pqc_chat.Merkle.Soundness.{IsHash, Collides, compared, same_or_collide, climb_unique}

module _ (sha256 : Bytes → Bytes) where
  pub record Accepts (content : Bytes) (index : ℤ) (size d : ℕ) (path : List Bytes) (r : Bytes)
      : Type 0 where
    pub i : ℕ
    pub at : index ≡ pos i
    pub below : i < size
    pub long : length path ≡ d
    pub climbs : climb sha256 (leaf_hash sha256 content) i path ≡ r

  -- The tests of `VerifyInclusionProof`, read back from its success.
  pub verify-Accepts :
      (content : Bytes) (index : ℤ) (size d : ℕ) (path : List Bytes) (r : Bytes)
      → next_power_of_two size ≡ ok (2 ^ d)
      → d ≤ 62
      → verify_inclusion_proof sha256 content index (pos size) path r ≡ ok true
      → Accepts content index size d path r
  unfolding verify_inclusion_proof verify_path
  verify-Accepts content (negsuc i) size d path r e small h = ground arith
  verify-Accepts content (pos i) size d path r e small h =
      let depth : depth_loop 63 (2 ^ d) 0 ≡ d =
        omega (arith, depth_loop-pow 63 d 0 (omega arith)) in
      elim (Bool-cases (ltb i size)) [
        | inr no_index ↦ absurd (ground arith)
        | inl index ↦ elim (Bool-cases (length path == depth_loop 63 (2 ^ d) 0)) [
          | inr no_depth ↦ absurd (ground arith)
          | inl good ↦ record {
            i = i;
            at = refl;
            below = ltb→lt i size index;
            long = ground arith;
            climbs = bytes_equal→eq _ r (ground arith);
          }
        ]
      ]

  padding-IsHash :
      ((x : Bytes) → IsHash (sha256 x))
      → (domain : Bytes) (rounds i : ℕ) → All IsHash (padding sha256 domain rounds i)
  unfolding padding leaf_hash
  padding-IsHash sized domain zero i = tt
  padding-IsHash sized domain (suc rounds) i = (sized _, padding-IsHash sized domain rounds (i + 1))

  padded_leaves-IsHash :
      ((x : Bytes) → IsHash (sha256 x))
      → (domain : Bytes) (leaves : List Bytes) (rounds i : ℕ)
      → All IsHash (padded_leaves sha256 domain leaves rounds i)
  unfolding padded_leaves leaf_hash
  padded_leaves-IsHash sized domain leaves zero i = tt
  padded_leaves-IsHash sized domain [] (suc rounds) i = padding-IsHash sized domain (suc rounds) i
  padded_leaves-IsHash sized domain (l ∷ ls) (suc rounds) i =
      (sized _, padded_leaves-IsHash sized domain ls rounds (i + 1))

  -- The inputs that the check hashes, each with the one that stands in its place in the tree: the leaf
  -- at the index, and one node for each hash of the path.
  abbrev pub compared_inputs :
      Bytes → List Bytes → ℕ → ℕ → Bytes → List Bytes → List (Bytes × Bytes)
  compared_inputs domain leaves width i content path =
      (0x00 ∷ content, 0x00 ∷ get_or leaves i [])
      ∷ compared sha256 (padded_leaves sha256 domain leaves width 0) i (leaf_hash sha256 content)
          path

  leaf_found :
      (domain : Bytes) (leaves : List Bytes) (width i : ℕ) (content : Bytes)
      → i < length leaves
      → length leaves ≤ width
      → get_elem? (padded_leaves sha256 domain leaves width 0) i ≡ some (leaf_hash sha256 content)
      → (get_elem? leaves i ≡ some content)
        ⊎ Collides sha256 (0x00 ∷ content, 0x00 ∷ get_or leaves i [])
  unfolding leaf_hash
  leaf_found domain leaves width i content hi fits e =
      let (l, hl) = get_elem?-some leaves i hi in
      let there = get_elem?-padded_leaves sha256 domain leaves width 0 i (omega arith) hl in
      let hashes : sha256 (0x00 ∷ content) ≡ sha256 (0x00 ∷ l) = unfold leaf_hash in cc in
      elim (same_or_collide sha256 _ _ hashes) [
        | inl same ↦ inl (cc)
        | inr c ↦ inr (rw (get_or-some leaves i [] hl) c)
      ]

  -- Where SHA-256 returns 32 bytes and the path holds 32-byte hashes: if `VerifyInclusionProof`
  -- accepts a leaf for an index and the leaf count of a tree over 1 to 2 ^ 62 leaves against that
  -- tree's root, then the index is not negative, and either the leaf is the one at that index, or one
  -- of the pairs of inputs that `compared_inputs` lists for the padded width is a SHA-256 collision.
  pub verify_sound :
      ((x : Bytes) → IsHash (sha256 x))
      → (domain : Bytes) (leaves : List Bytes) (t : Tree) (r content : Bytes) (index : ℤ)
        (path : List Bytes)
      → build_tree sha256 domain leaves ≡ ok t
      → root t ≡ ok r
      → 0 < length leaves
      → length leaves ≤ 2 ^ 62
      → All IsHash path
      → verify_inclusion_proof sha256 content index (pos (length leaves)) path r ≡ ok true
      → (i : ℕ) × (width : ℕ) × (index ≡ pos i)
        × (next_power_of_two (length leaves) ≡ ok width)
        × ((get_elem? leaves i ≡ some content)
            ⊎ Any (Collides sha256) (compared_inputs domain leaves width i content path))
  unfolding root leaf_hash
  verify_sound sized domain leaves t r content index path built rooted lo hi hashes accepted =
      let (d, b) = IsBuilt-of-build_tree sha256 domain leaves t built lo hi in
      let a = verify-Accepts content index (length leaves) d path r b.size b.depth accepted in
      let found =
        climb_unique sha256 sized d 63 (padded_leaves sha256 domain leaves (2 ^ d) 0) a.i
          (leaf_hash sha256 content) path (length-padded_leaves sha256 domain leaves (2 ^ d) 0)
          (omega (arith, b.depth)) (omega (arith, b.fits, a.below)) a.long
          (padded_leaves-IsHash sized domain leaves (2 ^ d) 0) (sized _) hashes
          (rw a.climbs (rw (← b.levels) rooted)) in
      (
        a.i,
        2 ^ d,
        a.at,
        b.size,
        elim found [
          | inr c ↦ inr (inr c)
          | inl e ↦ elim (leaf_found domain leaves (2 ^ d) a.i content a.below b.fits e) [
            | inl same ↦ inl same
            | inr c ↦ inr (inl c)
          ]
        ],
      )
