-- ===== src/Prekey/Membership.antt =====
-- What a bundle that `VerifyBundle` accepts says of the batch whose root it carries.
use mathlib.Core.Path.{subst₂}
use mathlib.Core.Option.{some-injective}
use pqc_chat.Common.{
  ℕ, ◌+◌, ◌≤◌, ◌^◌, ◌≡◌, sym, ap, ◌∙◌, subst, ◌⊎◌, inl, inr, true, List, some, Bytes, length,
  length-append, get_elem?, get_elem?-some, get_elem?-lt, All, Any, arith, append_injective, be32,
}
use pqc_chat.Common.Int.{ℤ, pos, to_uint32}
use pqc_chat.Result.{ok, bind_cases, guard-eq-ok, invalid_bundle_proof}
use pqc_chat.Crypto.{Crypto, HashLaws}
use pqc_chat.Identity
use pqc_chat.Identity.{KeyPair, verify}
use pqc_chat.Merkle.{verify_inclusion_proof, next_power_of_two}
use pqc_chat.Merkle.Soundness.{IsHash, Collides}
use pqc_chat.Merkle.Accepted.{verify_sound, compared_inputs}
use pqc_chat.Prekey.{Batch, Bundle, generate_batch, verify_bundle, leaf_data, merkle_domain}
use pqc_chat.Prekey.Batches.{
  leaves_from, get_elem?-leaves_from, length-leaves_from, generate_batch-IsSigned,
}

leaf_data_injective : (p q : Bytes) (i : ℤ) → leaf_data p i ≡ leaf_data q i → p ≡ q
unfolding leaf_data
leaf_data_injective p q i e =
    let word = be32 (to_uint32 i) in
    let long : length p ≡ length q =
      omega (arith, length-append p word, length-append q word, ap length e) in
    (append_injective p q word word long e).0

-- The key behind a leaf.
key_at :
    (keys : List Bytes) (i : ℕ) (p : Bytes)
    → get_elem? (leaves_from 0 keys) i ≡ some (leaf_data p (pos i))
    → get_elem? keys i ≡ some p
key_at keys i p e =
    let (q, at) =
      get_elem?-some keys i
        (omega (arith, get_elem?-lt (leaves_from 0 keys) i e, length-leaves_from 0 keys)) in
    let index : 0 + i ≡ i = omega arith in
    let leaf : get_elem? (leaves_from 0 keys) i ≡ some (leaf_data q (pos i)) =
      subst (λ j. get_elem? (leaves_from 0 keys) i ≡ some (leaf_data q (pos j))) index
        (get_elem?-leaves_from 0 i keys at) in
    at ∙ ap some (leaf_data_injective q p (pos i) (some-injective _ _ (sym leaf ∙ e)))

module _ (c : Crypto) where
  -- `VerifyBundle` succeeds only if the inclusion proof is accepted.
  accepted_proof :
      (issuer : Identity.PublicKey c) (bu : Bundle)
      → verify_bundle c issuer bu ≡ ok tt
      → verify_inclusion_proof c.sha256
          (leaf_data bu.public_key bu.index)
          bu.index
          bu.batch_size
          bu.proof
          bu.root
        ≡ ok true
  unfolding verify_bundle
  accepted_proof issuer bu e = bind_cases (verify c issuer bu.root bu.root_signature) _ e λ u _ e1.
      bind_cases
        (verify_inclusion_proof c.sha256 (leaf_data bu.public_key bu.index) bu.index bu.batch_size
          bu.proof bu.root)
        _ e1 λ b e2 e3. e2 ∙ ap ok (guard-eq-ok b invalid_bundle_proof e3)

  -- Where SHA-256 returns 32 bytes and the bundle's proof holds 32-byte hashes: a bundle that
  -- carries the root and the size of a generated batch of at most 2 ^ 62 keys and that
  -- `VerifyBundle` accepts holds the batch's own key at its index, unless one of the listed pairs
  -- of inputs is a SHA-256 collision. Its index is not negative.
  pub verify_bundle_sound :
      HashLaws c
      → (issuer : Identity.PublicKey c) (id : KeyPair c) (draw : ℕ → c.Entropy) (n : ℕ)
        (b : Batch c) (bu : Bundle)
      → generate_batch c id draw (pos n) ≡ ok b
      → n ≤ 2 ^ 62
      → bu.root ≡ b.root
      → bu.batch_size ≡ pos n
      → All IsHash bu.proof
      → verify_bundle c issuer bu ≡ ok tt
      → (i : ℕ) × (width : ℕ) × (bu.index ≡ pos i)
        × (next_power_of_two n ≡ ok width)
        × ((get_elem? b.pub_bytes i ≡ some bu.public_key)
            ⊎ Any (Collides c.sha256) (
                compared_inputs c.sha256 merkle_domain
                  (leaves_from 0 b.pub_bytes)
                  width
                  i
                  (leaf_data bu.public_key bu.index)
                  bu.proof))
  verify_bundle_sound hash issuer id draw n b bu generated bound root size hashes accepted =
      let (m, same, positive, s) = generate_batch-IsSigned c id draw (pos n) b generated in
      let number : m ≡ n = cc in
      let leaves = leaves_from 0 b.pub_bytes in
      let count : length leaves ≡ n = omega (arith, length-leaves_from 0 b.pub_bytes, s.keys) in
      let proof : verify_inclusion_proof c.sha256 (leaf_data bu.public_key bu.index) bu.index
            (pos (length leaves)) bu.proof b.root
          ≡ ok true =
        subst₂
          (λ k r.
            verify_inclusion_proof c.sha256 (leaf_data bu.public_key bu.index) bu.index k bu.proof r
            ≡ ok true)
          (size ∙ ap pos (sym count)) root (accepted_proof issuer bu accepted) in
      let (i, width, at, padded, found) =
        verify_sound c.sha256 hash.sha256_size merkle_domain leaves b.tree b.root
          (leaf_data bu.public_key bu.index) bu.index bu.proof s.built s.rooted (omega arith)
          (omega arith) hashes proof in
      (
        i,
        width,
        at,
        subst (λ k. next_power_of_two k ≡ ok width) count padded,
        elim found [
          | inr collision ↦ inr collision
          | inl e ↦ inl (
              key_at b.pub_bytes i bu.public_key
                (subst (λ k. get_elem? leaves i ≡ some (leaf_data bu.public_key k)) at e))
        ],
      )
