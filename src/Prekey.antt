-- ===== src/Prekey.antt =====
-- crypto/prekey/prekey.go. The k-th draw from `crypto/rand` in a call is `draw k`.
pub mod Batches
pub mod Bundles
pub mod Membership
pub mod Resort
use pqc_chat.Common.{
  ℕ, zero, suc, ◌+◌, ◌*◌, ◌≡◌, Bool, true, false, List, [], ◌∷◌, ◌++◌, Option, none, some, Bytes,
  length, get_elem?, codes, be32, ltb, if◌then◌else◌,
}
use pqc_chat.Common.Int.{ℤ, pos, negsuc, to_uint32}
use pqc_chat.Result.{
  Result, ok, err, panic, diverges, ◌>>=◌, ◌>>◌, guard, or_panic, batch_size_not_positive,
  invalid_bundle_proof, prekey_out_of_range,
}
use pqc_chat.Crypto.{Crypto}
use pqc_chat.Identity
use pqc_chat.Identity.{KeyPair, Signature, sign}
use pqc_chat.KemHybrid
use pqc_chat.KemHybrid.{PrivateKey, generate_key_pair}
use pqc_chat.Merkle.{Tree, build_tree, root, inclusion_proof, verify_inclusion_proof}

abbrev pub merkle_domain : Bytes
merkle_domain = codes "prekey-batch"

abbrev pub last_resort_tag : Bytes
last_resort_tag = codes "pqchat-v1-last-resort-prekey"

-- The key, then `uint32(index)` big-endian.
unfoldable pub leaf_data : Bytes → ℤ → Bytes
leaf_data pub_bytes index = pub_bytes ++ be32 (to_uint32 index)

pub record Batch (c : Crypto) : Type 0 where
  pub privates : List (PrivateKey c)
  pub pub_bytes : List Bytes
  pub tree : Tree
  pub root : Bytes
  pub root_sig : Signature

pub record Bundle : Type 0 where
  pub public_key : Bytes
  pub index : ℤ
  pub batch_size : ℤ
  pub proof : List Bytes
  pub root : Bytes
  pub root_signature : Signature

pub record LastResort : Type 0 where
  pub public_key : Bytes
  pub signature : Signature

-- The three slices that the loop of `GenerateBatch` fills.
pub record Keys (c : Crypto) : Type 0 where
  pub privates : List (PrivateKey c)
  pub pub_bytes : List Bytes
  pub leaves : List Bytes

module _ (c : Crypto) where
  -- The rounds from `i` on, `rounds` of them. Each draws for X25519 and then for ML-KEM-768.
  pub generate_keys : (ℕ → c.Entropy) → ℕ → ℕ → Result (Keys c)
  generate_keys draw zero i = ok (record { privates = []; pub_bytes = []; leaves = [] })
  generate_keys draw (suc rounds) i = do
    private ← generate_key_pair c (draw (2 * i)) (draw (2 * i + 1))
    packed ← KemHybrid.marshal c (KemHybrid.public c private)
    rest ← generate_keys draw rounds (i + 1)
    ok (record {
      privates = private ∷ rest.privates;
      pub_bytes = packed ∷ rest.pub_bytes;
      leaves = leaf_data packed (pos i) ∷ rest.leaves;
    })

  -- `GenerateBatch` after the test on the size.
  pub sign_batch : KeyPair c → (ℕ → c.Entropy) → ℕ → Result (Batch c)
  unfolding generate_keys
  sign_batch id draw size = do
    keys ← generate_keys draw size 0
    tree ← build_tree c.sha256 merkle_domain keys.leaves
    r ← root tree
    sig ← sign c id r (draw (2 * size))
    ok (record {
      privates = keys.privates;
      pub_bytes = keys.pub_bytes;
      tree = tree;
      root = r;
      root_sig = sig;
    })

  unfoldable pub generate_batch : KeyPair c → (ℕ → c.Entropy) → ℤ → Result (Batch c)
  unfolding sign_batch
  generate_batch id draw (negsuc _) = err batch_size_not_positive
  generate_batch id draw (pos zero) = err batch_size_not_positive
  generate_batch id draw (pos (suc n)) = sign_batch id draw (suc n)

  unfoldable pub size : Batch c → ℕ
  size b = length b.privates

  unfoldable pub private_key : Batch c → ℤ → Result (PrivateKey c)
  private_key b (negsuc _) = err prekey_out_of_range
  private_key b (pos index) =
      if ltb index (length b.privates)
      then or_panic (get_elem? b.privates index)
      else err prekey_out_of_range

  unfoldable pub bundle : Batch c → ℤ → Result Bundle
  bundle b (negsuc _) = err prekey_out_of_range
  bundle b (pos index) = do
    guard (ltb index (length b.privates)) prekey_out_of_range
    proof ← inclusion_proof b.tree (pos index)
    public_key ← or_panic (get_elem? b.pub_bytes index)
    ok (record {
      public_key = public_key;
      index = pos index;
      batch_size = pos (length b.privates);
      proof = proof;
      root = b.root;
      root_signature = b.root_sig;
    })

  unfoldable pub verify_bundle : Identity.PublicKey c → Bundle → Result (Unit {0})
  verify_bundle issuer b = do
    Identity.verify c issuer b.root b.root_signature
    included ←
        verify_inclusion_proof c.sha256 (leaf_data b.public_key b.index) b.index b.batch_size
          b.proof b.root
    guard included invalid_bundle_proof

  unfoldable pub generate_last_resort :
      KeyPair c → c.Entropy → c.Entropy → c.Entropy → Result (PrivateKey c × LastResort)
  generate_last_resort id e f g = do
    private ← generate_key_pair c e f
    packed ← KemHybrid.marshal c (KemHybrid.public c private)
    sig ← sign c id (last_resort_tag ++ packed) g
    ok (private, record { public_key = packed; signature = sig })

  unfoldable pub verify_last_resort : Identity.PublicKey c → LastResort → Result (Unit {0})
  verify_last_resort issuer lr =
      Identity.verify c issuer (last_resort_tag ++ lr.public_key) lr.signature
