-- ===== src/Merkle/Completeness.antt =====
-- `InclusionProof` against `VerifyInclusionProof`, on every tree that `BuildTree` returns.
use pqc_chat.Common.{
  ℕ, ◌^◌, ◌≤◌, ◌<◌, ◌≡◌, refl, ◌∙◌, subst, true, List, some, arith, Bytes, length, get_elem?,
  get_elem?-lt, lt→ltb, bytes_equal, bytes_equal_refl,
}
use pqc_chat.Common.Int.{pos, negsuc}
use pqc_chat.Result.{ok, err, index_out_of_range, diverges}
use pqc_chat.Merkle.{
  Tree, leaf_hash, climb, padded_leaves, build_tree, root, inclusion_proof, verify_path,
  verify_inclusion_proof, next_power_of_two, depth_loop,
}
use pqc_chat.Merkle.PowerOfTwo.{depth_loop-pow, next_power_of_two-diverges}
use pqc_chat.Merkle.Proofs.{
  audit_path-Leads, IsBuilt, build_tree-IsBuilt, length-padded_leaves, get_elem?-padded_leaves,
}

module _ (sha256 : Bytes → Bytes) where
  -- A tree that `BuildTree` returned over a list of 1 to 2 ^ 62 leaves.
  pub IsBuilt-of-build_tree :
      (domain : Bytes) (leaves : List Bytes) (t : Tree)
      → build_tree sha256 domain leaves ≡ ok t
      → 0 < length leaves
      → length leaves ≤ 2 ^ 62
      → (d : ℕ) × IsBuilt sha256 domain leaves t d
  IsBuilt-of-build_tree domain leaves t e lo hi =
      let (t', d, e', b) = build_tree-IsBuilt sha256 domain leaves lo hi in
      let same : t' ≡ t = cc in (d, subst (λ u. IsBuilt sha256 domain leaves u d) same b)

  -- What the test on the index and the depth leave of `VerifyInclusionProof`.
  pub verify-eq :
      (content : Bytes) (i size d : ℕ) (path : List Bytes) (r : Bytes)
      → i < size
      → next_power_of_two size ≡ ok (2 ^ d)
      → d ≤ 62
      → length path ≡ d
      → verify_inclusion_proof sha256 content (pos i) (pos size) path r
        ≡ ok (bytes_equal (climb sha256 (leaf_hash sha256 content) i path) r)
  unfolding verify_inclusion_proof verify_path
  verify-eq content i size d path r hi e small long =
      let depth : depth_loop 63 (2 ^ d) 0 ≡ length path =
        omega (arith, depth_loop-pow 63 d 0 (omega arith)) in
      rw (lt→ltb i size hi) (rw (e, depth) (ground arith))

  -- For a tree over 1 to 2 ^ 62 leaves, `InclusionProof` of the index of any real leaf returns a
  -- path, and `VerifyInclusionProof` accepts it for that leaf, index and the leaf count against the
  -- tree's root.
  pub verify-inclusion_proof :
      (domain : Bytes) (leaves : List Bytes) (t : Tree) (i : ℕ) (l : Bytes)
      → build_tree sha256 domain leaves ≡ ok t
      → length leaves ≤ 2 ^ 62
      → get_elem? leaves i ≡ some l
      → (path : List Bytes) × (r : Bytes) × (inclusion_proof t (pos i) ≡ ok path)
        × (root t ≡ ok r)
        × (verify_inclusion_proof sha256 l (pos i) (pos (length leaves)) path r ≡ ok true)
  unfolding inclusion_proof root
  verify-inclusion_proof domain leaves t i l built hi e =
      let below : i < length leaves = get_elem?-lt leaves i e in
      let (d, b) = IsBuilt-of-build_tree domain leaves t built (omega arith) hi in
      let at = get_elem?-padded_leaves sha256 domain leaves (2 ^ d) 0 i (omega (arith, b.fits)) e in
      let l =
        audit_path-Leads sha256 d 63 (padded_leaves sha256 domain leaves (2 ^ d) 0) i _
          (length-padded_leaves sha256 domain leaves (2 ^ d) 0) (omega (arith, b.depth)) at in
      (
        l.path,
        l.r,
        rw (b.count, lt→ltb i (length leaves) below, b.levels) l.walks,
        rw b.levels l.tops,
        verify-eq _ i (length leaves) d l.path l.r below b.size b.depth l.long
            ∙ rw l.climbs (rw bytes_equal_refl),
      )

  -- `InclusionProof` of an index that is negative or past the real leaves is the range error.
  pub inclusion_proof_out_of_range :
      (t : Tree) (i : ℕ)
      → (inclusion_proof t (negsuc i) ≡ err index_out_of_range)
        × (t.n ≤ i → inclusion_proof t (pos i) ≡ err index_out_of_range)
  unfolding inclusion_proof
  inclusion_proof_out_of_range t i = (refl, λ h. ground arith)

  -- `VerifyInclusionProof` does not return for a claimed size above 2 ^ 62 and an index below it,
  -- whatever the leaf, the path and the root.
  pub verify-diverges :
      (content : Bytes) (i size : ℕ) (path : List Bytes) (r : Bytes)
      → i < size
      → 2 ^ 62 < size
      → verify_inclusion_proof sha256 content (pos i) (pos size) path r ≡ diverges
  unfolding verify_inclusion_proof verify_path next_power_of_two
  verify-diverges content i size path r hi big =
      rw (lt→ltb i size hi) (rw (next_power_of_two-diverges 65 size big))
