-- ===== src/Crypto.antt =====
-- The code outside the program: Go's crypto packages, CIRCL's ML-KEM-768 and ML-DSA-65, and
-- golang.org/x/crypto/chacha20poly1305, as a record of types and operations. Randomness that a call
-- draws is an argument of that call. The records of laws state the documented behaviour that theorems use.
use pqc_chat.Common.{ℕ, ◌*◌, ◌≤◌, ◌≡◌, ◌≢◌, Bool, true, Bytes, length}
use pqc_chat.Result.{Result, ok, panic}

pub record Crypto : Type 1 where
  pub Entropy : Type 0
  -- crypto/sha256, crypto/hmac over it, and crypto/hkdf over it: key, salt, info, length
  pub sha256 : Bytes → Bytes
  pub hmac_sha256 : Bytes → Bytes → Bytes
  pub hkdf : Bytes → Bytes → Bytes → ℕ → Result Bytes
  -- crypto/ecdh over X25519
  pub DhPrivate : Type 0
  pub DhPublic : Type 0
  pub dh_generate : Entropy → Result DhPrivate
  pub dh_public : DhPrivate → DhPublic
  pub dh : DhPrivate → DhPublic → Result Bytes
  pub dh_bytes : DhPublic → Bytes
  pub dh_parse : Bytes → Result DhPublic
  -- kem/mlkem/mlkem768
  pub KemPrivate : Type 0
  pub KemPublic : Type 0
  pub kem_ciphertext_size : ℕ
  pub kem_public_size : ℕ
  pub kem_generate : Entropy → Result (KemPublic × KemPrivate)
  pub kem_public : KemPrivate → KemPublic
  pub kem_encapsulate : KemPublic → Entropy → Bytes × Bytes
  pub kem_decapsulate : KemPrivate → Bytes → Result Bytes
  pub kem_marshal : KemPublic → Result Bytes
  pub kem_unpack : Bytes → Result KemPublic
  -- crypto/ed25519: keys and signatures are byte slices
  pub ed_generate : Entropy → Result (Bytes × Bytes)
  pub ed_sign : Bytes → Bytes → Result Bytes
  pub ed_verify : Bytes → Bytes → Bytes → Result Bool
  -- sign/mldsa/mldsa65
  pub DsaPrivate : Type 0
  pub DsaPublic : Type 0
  pub dsa_public_size : ℕ
  pub dsa_generate : Entropy → Result (DsaPublic × DsaPrivate)
  pub dsa_sign : DsaPrivate → Bytes → Entropy → Result Bytes
  pub dsa_verify : DsaPublic → Bytes → Bytes → Bool
  pub dsa_marshal : DsaPublic → Result Bytes
  pub dsa_unmarshal : Bytes → Result DsaPublic
  -- chacha20poly1305: key, then nonce, text, associated data
  pub Aead : Type 0
  pub aead_new : Bytes → Result Aead
  pub aead_seal : Aead → Bytes → Bytes → Bytes → Bytes
  pub aead_open : Aead → Bytes → Bytes → Bytes → Result Bytes

-- SHA-256 returns 32 bytes.
pub record HashLaws (c : Crypto) : Type 0 where
  pub sha256_size : (x : Bytes) → length (c.sha256 x) ≡ 32

-- HKDF over SHA-256 gives any length up to 255 times 32 bytes.
pub record KdfLaws (c : Crypto) : Type 0 where
  pub hkdf_gives :
      (secret salt info : Bytes) (n : ℕ)
      → n ≤ 255 * 32
      → (out : Bytes) × (c.hkdf secret salt info n ≡ ok out) × (length out ≡ n)

-- Both sides of an X25519 exchange compute one secret, and fail together. A public key is the one
-- that its 32 bytes parse to.
pub record DhLaws (c : Crypto) : Type 0 where
  pub dh_agrees : (a b : c.DhPrivate) → c.dh a (c.dh_public b) ≡ c.dh b (c.dh_public a)
  pub dh_parse_bytes : (p : c.DhPublic) → c.dh_parse (c.dh_bytes p) ≡ ok p
  pub dh_bytes_size : (p : c.DhPublic) → length (c.dh_bytes p) ≡ 32

-- What is encapsulated to a public key, its private key decapsulates; a ciphertext of another size
-- panics.
pub record KemLaws (c : Crypto) : Type 0 where
  pub kem_agrees :
      (k : c.KemPrivate) (e : c.Entropy)
      → c.kem_decapsulate k (c.kem_encapsulate (c.kem_public k) e).0
        ≡ ok (c.kem_encapsulate (c.kem_public k) e).1
  pub kem_size :
      (p : c.KemPublic) (e : c.Entropy) → length (c.kem_encapsulate p e).0 ≡ c.kem_ciphertext_size
  pub kem_bad_size :
      (k : c.KemPrivate) (ct : Bytes)
      → length ct ≢ c.kem_ciphertext_size
      → c.kem_decapsulate k ct ≡ panic
  pub kem_generated :
      (e : c.Entropy) (p : c.KemPublic) (k : c.KemPrivate)
      → c.kem_generate e ≡ ok (p, k)
      → p ≡ c.kem_public k
  pub kem_unpack_marshal :
      (p : c.KemPublic) (b : Bytes)
      → c.kem_marshal p ≡ ok b
      → (c.kem_unpack b ≡ ok p) × (length b ≡ c.kem_public_size)

-- The AEAD opens what it sealed under the same nonce and associated data.
pub record AeadLaws (c : Crypto) : Type 0 where
  pub open_seal :
      (a : c.Aead) (nonce text ad : Bytes)
      → c.aead_open a nonce (c.aead_seal a nonce text ad) ad ≡ ok text

-- What a private key signs, the public key that was generated with it accepts.
pub record SignLaws (c : Crypto) : Type 0 where
  pub ed_signs :
      (e : c.Entropy) (public private msg sig : Bytes)
      → c.ed_generate e ≡ ok (public, private)
      → c.ed_sign private msg ≡ ok sig
      → c.ed_verify public msg sig ≡ ok true
  pub dsa_signs :
      (e f : c.Entropy) (public : c.DsaPublic) (private : c.DsaPrivate) (msg sig : Bytes)
      → c.dsa_generate e ≡ ok (public, private)
      → c.dsa_sign private msg f ≡ ok sig
      → c.dsa_verify public msg sig ≡ true

-- An ML-DSA-65 public key is packed without error into bytes of one size, which unpack to it.
pub record DsaKeyLaws (c : Crypto) : Type 0 where
  pub dsa_packs :
      (p : c.DsaPublic)
      → (b : Bytes) × (c.dsa_marshal p ≡ ok b)
        × (length b ≡ c.dsa_public_size)
        × (c.dsa_unmarshal b ≡ ok p)
