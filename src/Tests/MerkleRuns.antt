-- ===== src/Tests/MerkleRuns.antt =====
-- crypto/merkle/merkle.go on three leaves.
use pqc_chat.Common.{
  ℕ, ◌+◌, ◌^◌, ◌≡◌, refl, ◌⊎◌, List, [], ◌∷◌, Bytes, get_elem?, some, arith, All, Any, true,
}
use pqc_chat.Common.Int.{pos}
use pqc_chat.Result.{ok, diverges}
use pqc_chat.Merkle.{
  Tree, next_power_loop, next_power_of_two, build_tree, root, inclusion_proof,
  verify_inclusion_proof,
}
use pqc_chat.Merkle.PowerOfTwo.{IsNextPower, next_power_of_two-ok, next_power_of_two-diverges}
use pqc_chat.Merkle.Completeness.{verify-inclusion_proof, verify-diverges}
use pqc_chat.Merkle.Soundness.{IsHash, Collides}
use pqc_chat.Merkle.Accepted.{verify_sound, compared_inputs}
use pqc_chat.Tests.Toy.{toy_hash, value_or}

abbrev leaves : List Bytes
leaves = (1 ∷ []) ∷ (2 ∷ []) ∷ (3 ∷ []) ∷ []

abbrev domain : Bytes
domain = 100 ∷ []

abbrev tree : Tree
unfolding build_tree
tree = value_or (record { n = 0; levels = [] }) (build_tree toy_hash domain leaves)

built : build_tree toy_hash domain leaves ≡ ok tree
unfolding build_tree tree
built = refl

abbrev tree_root : Bytes
unfolding root
tree_root = value_or [] (root tree)

abbrev second_path : List Bytes
unfolding inclusion_proof
second_path = value_or [] (inclusion_proof tree (pos 1))

next_power_of_two-ok_example : (d : ℕ) × (next_power_of_two 5 ≡ ok (2 ^ d)) × IsNextPower 0 5 d
next_power_of_two-ok_example = next_power_of_two-ok 5 (omega arith)

next_power_of_two-diverges_example : next_power_loop 100 1 (2 ^ 62 + 1) ≡ diverges
next_power_of_two-diverges_example = next_power_of_two-diverges 100 (2 ^ 62 + 1) (omega arith)

verify-inclusion_proof_example :
    (path : List Bytes) × (r : Bytes) × (inclusion_proof tree (pos 2) ≡ ok path)
    × (root tree ≡ ok r)
    × (verify_inclusion_proof toy_hash (3 ∷ []) (pos 2) (pos 3) path r ≡ ok true)
verify-inclusion_proof_example =
    verify-inclusion_proof toy_hash domain leaves tree 2 (3 ∷ []) built (omega arith) refl

verify-diverges_example :
    verify_inclusion_proof toy_hash [] (pos 0) (pos (2 ^ 62 + 1)) [] [] ≡ diverges
verify-diverges_example =
    verify-diverges toy_hash [] 0 (2 ^ 62 + 1) [] [] (omega arith) (omega arith)

rooted : root tree ≡ ok tree_root
unfolding root tree tree_root
rooted = refl

second_accepted :
    verify_inclusion_proof toy_hash (2 ∷ []) (pos 1) (pos 3) second_path tree_root ≡ ok true
unfolding verify_inclusion_proof second_path tree_root tree
second_accepted = refl

second_hashes : All IsHash second_path
unfolding second_path tree
second_hashes = (refl, (refl, tt))

verify_sound_example :
    (i : ℕ) × (width : ℕ) × (pos 1 ≡ pos i)
    × (next_power_of_two 3 ≡ ok width)
    × ((get_elem? leaves i ≡ some (2 ∷ []))
        ⊎ Any
            (Collides toy_hash)
            (compared_inputs toy_hash domain leaves width i (2 ∷ []) second_path))
verify_sound_example =
    verify_sound toy_hash (λ x. refl) domain leaves tree tree_root (2 ∷ []) (pos 1) second_path
      built rooted (omega arith) (omega arith) second_hashes second_accepted
