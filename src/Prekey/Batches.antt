-- ===== src/Prekey/Batches.antt =====
-- What `GenerateBatch` returns: three slices of one length, their tree, and its signed root.
use pqc_chat.Common.{
  ℕ, zero, suc, ◌+◌, ◌*◌, ◌<◌, ◌≡◌, refl, ap, subst, List, [], ◌∷◌, some, Bytes, length, get_elem?,
  arith,
}
use pqc_chat.Common.Int.{ℤ, pos, negsuc}
use pqc_chat.Result.{ok, bind_cases, ok-injective}
use pqc_chat.Crypto.{Crypto}
use pqc_chat.Identity.{KeyPair, sign}
use pqc_chat.KemHybrid
use pqc_chat.KemHybrid.{generate_key_pair}
use pqc_chat.Merkle.{build_tree, root}
use pqc_chat.Prekey.{
  Batch, Keys, generate_keys, sign_batch, generate_batch, leaf_data, merkle_domain,
}

-- The leaves of the keys from index `i` on.
abbrev pub leaves_from : ℕ → List Bytes → List Bytes
leaves_from i [] = []
leaves_from i (p ∷ ps) = leaf_data p (pos i) ∷ leaves_from (i + 1) ps

pub get_elem?-leaves_from :
    (i k : ℕ) (keys : List Bytes) {p : Bytes}
    → get_elem? keys k ≡ some p
    → get_elem? (leaves_from i keys) k ≡ some (leaf_data p (pos (i + k)))
get_elem?-leaves_from i k [] e = ground arith
get_elem?-leaves_from i zero (p ∷ ps) {p = q} e =
    let same : p ≡ q = cc in let index : i ≡ i + 0 = omega arith in cc
get_elem?-leaves_from i (suc k) (p ∷ ps) {p = q} e =
    let index : i + 1 + k ≡ i + suc k = omega arith in
    subst (λ j. get_elem? (leaves_from (i + 1) ps) k ≡ some (leaf_data q (pos j))) index
      (get_elem?-leaves_from (i + 1) k ps e)

pub length-leaves_from : (i : ℕ) (keys : List Bytes) → length (leaves_from i keys) ≡ length keys
length-leaves_from i [] = refl
length-leaves_from i (p ∷ ps) = ap suc (length-leaves_from (i + 1) ps)

module _ (c : Crypto) where
  pub record IsFilled (rounds i : ℕ) (k : Keys c) : Type 0 where
    pub privates : length k.privates ≡ rounds
    pub keys : length k.pub_bytes ≡ rounds
    pub leaves : k.leaves ≡ leaves_from i k.pub_bytes

  generate_keys-IsFilled :
      (draw : ℕ → c.Entropy) (rounds i : ℕ) (k : Keys c)
      → generate_keys c draw rounds i ≡ ok k
      → IsFilled rounds i k
  unfolding generate_keys
  generate_keys-IsFilled draw zero i k e =
      subst (IsFilled zero i) (ok-injective _ _ e)
        (record { privates = refl; keys = refl; leaves = refl })
  generate_keys-IsFilled draw (suc rounds) i k e =
      bind_cases (generate_key_pair c (draw (2 * i)) (draw (2 * i + 1))) _ e λ private e1 r1.
        bind_cases (KemHybrid.marshal c (KemHybrid.public c private)) _ r1 λ packed e2 r2.
          bind_cases (generate_keys c draw rounds (i + 1)) _ r2 λ rest e3 r3.
            let ih = generate_keys-IsFilled draw rounds (i + 1) rest e3 in
            subst (IsFilled (suc rounds) i) (ok-injective _ _ r3) (record {
              privates = ap suc ih.privates;
              keys = ap suc ih.keys;
              leaves = ap (λ ls. leaf_data packed (pos i) ∷ ls) ih.leaves;
            })

  -- A signed batch of `n` keys.
  pub record IsSigned (id : KeyPair c) (n : ℕ) (b : Batch c) : Type 0 where
    pub privates : length b.privates ≡ n
    pub keys : length b.pub_bytes ≡ n
    pub built : build_tree c.sha256 merkle_domain (leaves_from 0 b.pub_bytes) ≡ ok b.tree
    pub rooted : root b.tree ≡ ok b.root
    pub draw : c.Entropy
    pub signed : sign c id b.root draw ≡ ok b.root_sig

  pub sign_batch-IsSigned :
      (id : KeyPair c) (draw : ℕ → c.Entropy) (n : ℕ) (b : Batch c)
      → sign_batch c id draw n ≡ ok b
      → IsSigned id n b
  unfolding sign_batch
  sign_batch-IsSigned id draw n b e = bind_cases (generate_keys c draw n 0) _ e λ keys e1 r1.
      bind_cases (build_tree c.sha256 merkle_domain keys.leaves) _ r1 λ tree e2 r2.
        bind_cases (root tree) _ r2 λ r e3 r3.
          bind_cases (sign c id r (draw (2 * n))) _ r3 λ sig e4 r4.
            let f = generate_keys-IsFilled draw n 0 keys e1 in
            subst (IsSigned id n) (ok-injective _ _ r4) (record {
              privates = f.privates;
              keys = f.keys;
              built = subst (λ ls. build_tree c.sha256 merkle_domain ls ≡ ok tree) f.leaves e2;
              rooted = e3;
              draw = draw (2 * n);
              signed = e4;
            })

  -- `GenerateBatch` succeeds only for a positive size, with a signed batch of that many keys.
  pub generate_batch-IsSigned :
      (id : KeyPair c) (draw : ℕ → c.Entropy) (n : ℤ) (b : Batch c)
      → generate_batch c id draw n ≡ ok b
      → (m : ℕ) × (n ≡ pos m) × (0 < m) × IsSigned id m b
  unfolding generate_batch
  generate_batch-IsSigned id draw (negsuc n) b e = ground arith
  generate_batch-IsSigned id draw (pos zero) b e = ground arith
  generate_batch-IsSigned id draw (pos (suc n)) b e =
      (suc n, refl, omega arith, sign_batch-IsSigned id draw (suc n) b e)
