-- ===== src/Tests/Toy.antt =====
-- Concrete functions in place of the code outside the program, and their laws. They are no
-- cryptography: a hash is a sum, and the private half of a key is its public half.

use pqc_chat.Common.{
  ℕ, ◌+◌, ◌%◌, ◌≡◌, ◌≢◌, refl, ap, sym, ◌∙◌, true, [], ◌∷◌, ◌++◌, Bytes, length, length-replicate,
  replicate, bytes_equal, bytes_equal_refl, arith,
}
use pqc_chat.Result.{Result, ok, err, panic, library}
use pqc_chat.Crypto.{Crypto, HashLaws, KdfLaws, DhLaws, KemLaws, AeadLaws, SignLaws, DsaKeyLaws}

abbrev pub sum : Bytes → ℕ
sum [] = 0
sum (x ∷ xs) = x + sum xs

abbrev pub pad : ℕ → Bytes
pad x = x ∷ replicate 31 0

abbrev pub toy_hash : Bytes → Bytes
toy_hash x = pad (sum x % 256)

abbrev pub first_of : Bytes → Result ℕ
first_of [] = err (library 1)
first_of (x ∷ _) = ok x

abbrev pub toy_decapsulate : ℕ → Bytes → Result Bytes
toy_decapsulate k (x ∷ y ∷ []) = ok ((k + y) ∷ [])
toy_decapsulate k _ = panic

abbrev pub only : Bytes → Result ℕ
only (x ∷ []) = ok x
only _ = err (library 2)

abbrev pub toy : Crypto
toy = record {
  Entropy = ℕ;
  sha256 = toy_hash;
  hmac_sha256 = λ k m. toy_hash (k ++ m);
  hkdf = λ k salt info n. ok (replicate n ((sum k + sum salt) % 256));
  DhPrivate = ℕ;
  DhPublic = ℕ;
  dh_generate = λ e. ok e;
  dh_public = λ k. k;
  dh = λ a b. ok (pad (a + b));
  dh_bytes = pad;
  dh_parse = first_of;
  KemPrivate = ℕ;
  KemPublic = ℕ;
  kem_ciphertext_size = 2;
  kem_public_size = 1;
  kem_generate = λ e. ok (e, e);
  kem_public = λ k. k;
  kem_encapsulate = λ p e. (p ∷ e ∷ [], (p + e) ∷ []);
  kem_decapsulate = toy_decapsulate;
  kem_marshal = λ p. ok (p ∷ []);
  kem_unpack = only;
  ed_generate = λ e. ok (e ∷ [], e ∷ []);
  ed_sign = λ k msg. ok (k ++ msg);
  ed_verify = λ p msg sig. ok (bytes_equal (p ++ msg) sig);
  DsaPrivate = ℕ;
  DsaPublic = ℕ;
  dsa_public_size = 1;
  dsa_generate = λ e. ok (e, e);
  dsa_sign = λ k msg e. ok (k ∷ msg);
  dsa_verify = λ p msg sig. bytes_equal (p ∷ msg) sig;
  dsa_marshal = λ p. ok (p ∷ []);
  dsa_unmarshal = only;
  Aead = Bytes;
  aead_new = λ k. ok k;
  aead_seal = λ k nonce text ad. text;
  aead_open = λ k nonce text ad. ok text;
}

pub toy-HashLaws : HashLaws toy
toy-HashLaws = record { sha256_size = λ x. refl }

pub toy-KdfLaws : KdfLaws toy
toy-KdfLaws = record {
  hkdf_gives = λ secret salt info n _. (
    replicate n ((sum secret + sum salt) % 256),
    refl,
    length-replicate n ((sum secret + sum salt) % 256),
  );
}

pub toy-DhLaws : DhLaws toy
toy-DhLaws = record {
  dh_agrees = λ a b. ap {A = ℕ} {B = Result Bytes} (λ n. ok (pad n)) (omega arith);
  dh_parse_bytes = λ p. refl;
  dh_bytes_size = λ p. refl;
}

toy-kem_bad_size : (k : ℕ) (ct : Bytes) → length ct ≢ 2 → toy_decapsulate k ct ≡ panic
toy-kem_bad_size k [] h = refl
toy-kem_bad_size k (x ∷ []) h = refl
toy-kem_bad_size k (x ∷ y ∷ []) h = absurd (h refl)
toy-kem_bad_size k (x ∷ y ∷ z ∷ ct) h = refl

toy-kem_unpack : (p : ℕ) (b : Bytes) → ok (p ∷ []) ≡ ok b → (only b ≡ ok p) × (length b ≡ 1)
toy-kem_unpack p b e = let same : p ∷ [] ≡ b = cc in (ap only (sym same), ap length (sym same))

pub toy-KemLaws : KemLaws toy
toy-KemLaws = record {
  kem_agrees = λ k e. refl;
  kem_size = λ p e. refl;
  kem_bad_size = toy-kem_bad_size;
  kem_generated = λ e p k h. cc;
  kem_unpack_marshal = toy-kem_unpack;
}

pub toy-AeadLaws : AeadLaws toy
toy-AeadLaws = record { open_seal = λ a nonce text ad. refl }

toy-ed_signs :
    (e : ℕ) (public private msg sig : Bytes)
    → ◌≡◌ {A = Result (Bytes × Bytes)} (ok (e ∷ [], e ∷ [])) (ok (public, private))
    → ok (private ++ msg) ≡ ok sig
    → ok (bytes_equal (public ++ msg) sig) ≡ ok true
toy-ed_signs e public private msg sig h s =
    let same : public ++ msg ≡ sig = cc in
    ap ok (ap (bytes_equal (public ++ msg)) (sym same) ∙ bytes_equal_refl (public ++ msg))

toy-dsa_signs :
    (e f public private : ℕ) (msg sig : Bytes)
    → ◌≡◌ {A = Result (ℕ × ℕ)} (ok (e, e)) (ok (public, private))
    → ok (private ∷ msg) ≡ ok sig
    → bytes_equal (public ∷ msg) sig ≡ true
toy-dsa_signs e f public private msg sig h s =
    let same : public ∷ msg ≡ sig = cc in
    ap (bytes_equal (public ∷ msg)) (sym same) ∙ bytes_equal_refl (public ∷ msg)

pub toy-SignLaws : SignLaws toy
toy-SignLaws = record { ed_signs = toy-ed_signs; dsa_signs = toy-dsa_signs }

pub toy-DsaKeyLaws : DsaKeyLaws toy
toy-DsaKeyLaws = record { dsa_packs = λ p. (p ∷ [], refl, refl, refl) }

-- What a call returned, where it did.
abbrev pub value_or {ℓ} : {A : Type ℓ} → A → Result A → A
value_or d (ok a) = a
value_or d _ = d
