-- ===== src/Prekey/Bundles.antt =====
-- `Bundle` against `VerifyBundle`.
use mathlib.Core.Path.{subst₃}
use pqc_chat.Common.{
  ℕ, ◌+◌, ◌≤◌, ◌<◌, ◌^◌, ◌≡◌, sym, ◌∙◌, subst, true, List, some, Bytes, length, get_elem?,
  get_elem?-some, arith, lt→ltb, append_injective,
}
use pqc_chat.Common.Int.{pos}
use pqc_chat.Result.{ok, diverges, ok-injective}
use pqc_chat.Crypto.{Crypto, SignLaws}
use pqc_chat.Identity
use pqc_chat.Identity.{KeyPair, Signature, sign, verify, generate, public}
use pqc_chat.Identity.Signing.{verify-sign}
use pqc_chat.Merkle.{inclusion_proof, verify_inclusion_proof}
use pqc_chat.Merkle.Completeness.{verify-inclusion_proof, verify-diverges}
use pqc_chat.Prekey.{Batch, Bundle, generate_batch, bundle, verify_bundle, leaf_data, merkle_domain}
use pqc_chat.Prekey.Batches.{
  leaves_from, get_elem?-leaves_from, length-leaves_from, IsSigned, generate_batch-IsSigned,
}

module _ (c : Crypto) where
  -- The bundle that `Bundle` returns for index `i` with key `key` and audit path `path`.
  abbrev issued : Batch c → ℕ → Bytes → List Bytes → Bundle
  issued b i key path = record {
    public_key = key;
    index = pos i;
    batch_size = pos (length b.privates);
    proof = path;
    root = b.root;
    root_signature = b.root_sig;
  }

  bundle-issued :
      (b : Batch c) (i : ℕ) (key : Bytes) (path : List Bytes)
      → i < length b.privates
      → get_elem? b.pub_bytes i ≡ some key
      → inclusion_proof b.tree (pos i) ≡ ok path
      → bundle c b (pos i) ≡ ok (issued b i key path)
  unfolding bundle
  bundle-issued b i key path below at proved =
      rw (lt→ltb i (length b.privates) below) (rw (proved, at))

  issued_verifies :
      (issuer : Identity.PublicKey c) (b : Batch c) (i : ℕ) (key : Bytes) (path : List Bytes)
      → verify c issuer b.root b.root_sig ≡ ok tt
      → verify_inclusion_proof c.sha256
          (leaf_data key (pos i))
          (pos i)
          (pos (length b.privates))
          path
          b.root
        ≡ ok true
      → verify_bundle c issuer (issued b i key path) ≡ ok tt
  unfolding verify_bundle
  issued_verifies issuer b i key path signed accepted = rw (signed, accepted)

  abbrev Issues : Identity.PublicKey c → Batch c → ℕ → Type 0
  Issues issuer b i =
      (bu : Bundle) × (bundle c b (pos i) ≡ ok bu) × (verify_bundle c issuer bu ≡ ok tt)

  -- From the parts of a signed batch.
  issue :
      (issuer : Identity.PublicKey c) (id : KeyPair c) (n i : ℕ) (b : Batch c) (key : Bytes)
      → IsSigned c id n b
      → verify c issuer b.root b.root_sig ≡ ok tt
      → n ≤ 2 ^ 62
      → i < n
      → get_elem? b.pub_bytes i ≡ some key
      → Issues issuer b i
  issue issuer id n i b key s signed bound below at =
      let leaves = leaves_from 0 b.pub_bytes in
      let count : length leaves ≡ length b.privates =
        omega (arith, length-leaves_from 0 b.pub_bytes, s.keys, s.privates) in
      let (path, r, proved, rooted, accepted) =
        verify-inclusion_proof c.sha256 merkle_domain leaves b.tree i _ s.built
          (omega (arith, s.privates)) (get_elem?-leaves_from 0 i b.pub_bytes at) in
      let same_root : r ≡ b.root = ok-injective r b.root (sym rooted ∙ s.rooted) in
      let index : 0 + i ≡ i = omega arith in
      let accepted' =
        subst₃
          (λ j m q.
            verify_inclusion_proof c.sha256 (leaf_data key (pos j)) (pos i) (pos m) path q
            ≡ ok true)
          index count same_root accepted in
      (
        issued b i key path,
        bundle-issued b i key path (omega (arith, s.privates)) at proved,
        issued_verifies issuer b i key path signed accepted',
      )

  -- Under the laws of the signature algorithms: every bundle of a batch of at most 2 ^ 62 keys that a
  -- generated identity signed is issued, and passes `VerifyBundle` for that identity.
  pub verify_bundle-bundle :
      SignLaws c
      → (e f : c.Entropy) (id : KeyPair c) (draw : ℕ → c.Entropy) (n i : ℕ) (b : Batch c)
      → generate c e f ≡ ok id
      → generate_batch c id draw (pos n) ≡ ok b
      → n ≤ 2 ^ 62
      → i < n
      → (bu : Bundle) × (bundle c b (pos i) ≡ ok bu) × (verify_bundle c (public c id) bu ≡ ok tt)
  verify_bundle-bundle laws e f id draw n i b made generated bound below =
      let (m, size, positive, s) = generate_batch-IsSigned c id draw (pos n) b generated in
      let same : m ≡ n = cc in
      let s' = subst (λ k. IsSigned c id k b) same s in
      let (key, at) = get_elem?-some b.pub_bytes i (omega (arith, s'.keys)) in
      issue (public c id) id n i b key s'
        (verify-sign c laws e f s.draw id b.root b.root_sig made s.signed) bound below at

  -- A bundle with an index from 0 on, below a claimed batch size that is above 2 ^ 62, makes
  -- `VerifyBundle` run forever as soon as its root is validly signed.
  pub verify_bundle-diverges :
      (issuer : Identity.PublicKey c) (bu : Bundle) (i size : ℕ)
      → verify c issuer bu.root bu.root_signature ≡ ok tt
      → bu.index ≡ pos i
      → bu.batch_size ≡ pos size
      → i < size
      → 2 ^ 62 < size
      → verify_bundle c issuer bu ≡ diverges
  unfolding verify_bundle
  verify_bundle-diverges issuer bu i size signed index claimed below big =
      rw (signed, index, claimed)
        (rw (
          verify-diverges c.sha256 (leaf_data bu.public_key (pos i)) i size bu.proof bu.root below
            big))

  leaf_data_injective :
      (p q : Bytes) (i : ℕ)
      → length p ≡ length q
      → leaf_data p (pos i) ≡ leaf_data q (pos i)
      → p ≡ q
  unfolding leaf_data
  leaf_data_injective p q i long e = (append_injective p q _ _ long e).0
