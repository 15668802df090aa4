-- ===== src/Tests/PrekeyRuns.antt =====
-- crypto/prekey/prekey.go on a batch of two keys.
use pqc_chat.Common.{
  ℕ, ◌+◌, ◌^◌, ◌≡◌, refl, ◌⊎◌, [], ◌∷◌, ◌++◌, be32, bytes_equal, get_elem?, some, arith, Any,
}
use pqc_chat.Common.Int.{pos}
use pqc_chat.Result.{ok, diverges}
use pqc_chat.Identity
use pqc_chat.Identity.{KeyPair, Signature, generate, public, verify}
use pqc_chat.KemHybrid
use pqc_chat.KemHybrid.{PrivateKey}
use pqc_chat.Merkle.{next_power_of_two, build_tree, root, inclusion_proof, verify_inclusion_proof}
use pqc_chat.Merkle.Soundness.{Collides}
use pqc_chat.Merkle.Accepted.{compared_inputs}
use pqc_chat.Prekey.{
  Batch, Bundle, LastResort, merkle_domain, leaf_data, generate_batch, bundle, verify_bundle,
  generate_last_resort, verify_last_resort, last_resort_tag,
}
use pqc_chat.Prekey.Batches.{leaves_from}
use pqc_chat.Prekey.Bundles.{verify_bundle-bundle, verify_bundle-diverges}
use pqc_chat.Prekey.Membership.{verify_bundle_sound}
use pqc_chat.Prekey.Resort.{verify_last_resort-generate}
use pqc_chat.Tests.Toy.{toy, toy-HashLaws, toy-SignLaws, pad}

abbrev pub id : KeyPair toy
id = record {
  ed25519_public = 4 ∷ [];
  ed25519_private = 4 ∷ [];
  mldsa_public = 5;
  mldsa_private = 5;
}

generated : generate toy 4 5 ≡ ok id
unfolding generate
generated = refl

abbrev draw : ℕ → ℕ
draw k = k + 10

abbrev pub root_signature : Signature
root_signature = record { ed25519 = 4 ∷ pad 48; mldsa = 5 ∷ pad 48 }

abbrev batch : Batch toy
batch = record {
  privates = record { x25519 = 10; mlkem = 11 } ∷ record { x25519 = 12; mlkem = 13 } ∷ [];
  pub_bytes = (pad 10 ++ 11 ∷ []) ∷ (pad 12 ++ 13 ∷ []) ∷ [];
  tree = record { n = 2; levels = (pad 21 ∷ pad 26 ∷ []) ∷ (pad 48 ∷ []) ∷ [] };
  root = pad 48;
  root_sig = root_signature;
}

batch_generated : generate_batch toy id draw (pos 2) ≡ ok batch
unfolding generate_batch KemHybrid.generate_key_pair KemHybrid.marshal KemHybrid.public build_tree
    root Identity.sign leaf_data be32
batch_generated = refl

verify_bundle-bundle_example :
    (bu : Bundle) × (bundle toy batch (pos 1) ≡ ok bu)
    × (verify_bundle toy (public toy id) bu ≡ ok tt)
verify_bundle-bundle_example =
    verify_bundle-bundle toy toy-SignLaws 4 5 id draw 2 1 batch generated batch_generated
      (omega arith) (omega arith)

-- The bundle of the second key.
abbrev pub second : Bundle
second = record {
  public_key = pad 12 ++ 13 ∷ [];
  index = pos 1;
  batch_size = pos 2;
  proof = pad 21 ∷ [];
  root = pad 48;
  root_signature = root_signature;
}

second_issued : bundle toy batch (pos 1) ≡ ok second
unfolding bundle inclusion_proof
second_issued = refl

second_accepted : verify_bundle toy (public toy id) second ≡ ok tt
unfolding verify_bundle verify public verify_inclusion_proof bytes_equal leaf_data be32
second_accepted = refl

verify_bundle_sound_example :
    (i : ℕ) × (width : ℕ) × (second.index ≡ pos i)
    × (next_power_of_two 2 ≡ ok width)
    × ((get_elem? batch.pub_bytes i ≡ some second.public_key)
        ⊎ Any (Collides toy.sha256) (
            compared_inputs toy.sha256 merkle_domain
              (leaves_from 0 batch.pub_bytes)
              width
              i
              (leaf_data second.public_key second.index)
              second.proof))
verify_bundle_sound_example =
    verify_bundle_sound toy toy-HashLaws (public toy id) id draw 2 batch second batch_generated
      (omega arith) refl refl (refl, tt) second_accepted

-- The signed root of the batch, with a claimed size that no key of the signer covers.
abbrev huge : Bundle
huge = record {
  public_key = [];
  index = pos 0;
  batch_size = pos (2 ^ 62 + 1);
  proof = [];
  root = pad 48;
  root_signature = root_signature;
}

huge_signed : verify toy (public toy id) huge.root huge.root_signature ≡ ok tt
unfolding verify public bytes_equal
huge_signed = refl

verify_bundle-diverges_example : verify_bundle toy (public toy id) huge ≡ diverges
verify_bundle-diverges_example =
    verify_bundle-diverges toy (public toy id) huge 0 (2 ^ 62 + 1) huge_signed refl refl
      (omega arith) (omega arith)

abbrev pub private : PrivateKey toy
private = record { x25519 = 6; mlkem = 7 }

abbrev pub last_resort : LastResort
last_resort = record {
  public_key = pad 6 ++ 7 ∷ [];
  signature = record {
    ed25519 = 4 ∷ last_resort_tag ++ (pad 6 ++ 7 ∷ []);
    mldsa = 5 ∷ last_resort_tag ++ (pad 6 ++ 7 ∷ []);
  };
}

last_resort_generated : generate_last_resort toy id 6 7 8 ≡ ok (private, last_resort)
unfolding generate_last_resort KemHybrid.generate_key_pair KemHybrid.marshal Identity.sign
    KemHybrid.public
last_resort_generated = refl

verify_last_resort-generate_example :
    (KemHybrid.marshal toy (KemHybrid.public toy private) ≡ ok last_resort.public_key)
    × (verify_last_resort toy (public toy id) last_resort ≡ ok tt)
verify_last_resort-generate_example =
    verify_last_resort-generate toy toy-SignLaws 4 5 id 6 7 8 private last_resort generated
      last_resort_generated
