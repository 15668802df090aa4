-- ===== src/KemHybrid.antt =====
-- crypto/kemhybrid/hybrid.go. A `nil` reader means `crypto/rand`, whose draws are arguments here.
pub mod Agreement
use pqc_chat.Common.{
  ℕ, ◌+◌, ◌≡◌, Bool, true, false, List, [], ◌∷◌, ◌++◌, Bytes, length, take, drop, codes, ◌==◌,
}
use pqc_chat.Result.{
  Result, ok, err, panic, diverges, ◌>>=◌, ◌>>◌, guard, invalid_key_length,
  invalid_ciphertext_length, decapsulation_failed,
}
use pqc_chat.Crypto.{Crypto}

pub record PublicKey (c : Crypto) : Type 0 where
  pub x25519 : c.DhPublic
  pub mlkem : c.KemPublic

pub record PrivateKey (c : Crypto) : Type 0 where
  pub x25519 : c.DhPrivate
  pub mlkem : c.KemPrivate

pub record Ciphertext (c : Crypto) : Type 0 where
  pub x25519_ephemeral : c.DhPublic
  pub mlkem_ciphertext : Bytes

-- `if err != nil { return nil, ErrDecapsulation }`
abbrev pub or_decapsulation {ℓ} : {A : Type ℓ} → Result A → Result A
or_decapsulation (err _) = err decapsulation_failed
or_decapsulation r = r

module _ (c : Crypto) where
  unfoldable pub public : PrivateKey c → PublicKey c
  public k = record { x25519 = c.dh_public k.x25519; mlkem = c.kem_public k.mlkem }

  unfoldable pub marshal : PublicKey c → Result Bytes
  marshal p = do mlkem ← c.kem_marshal p.mlkem; ok (c.dh_bytes p.x25519 ++ mlkem)

  unfoldable pub unmarshal_public_key : Bytes → Result (PublicKey c)
  unmarshal_public_key buf = do
    guard (length buf == (32 + c.kem_public_size)) invalid_key_length
    x25519 ← c.dh_parse (take 32 buf)
    mlkem ← c.kem_unpack (drop 32 buf)
    ok (record { x25519 = x25519; mlkem = mlkem })

  unfoldable pub generate_key_pair : c.Entropy → c.Entropy → Result (PrivateKey c)
  generate_key_pair e f = do
    x25519 ← c.dh_generate e
    (_, mlkem) ← c.kem_generate f
    ok (record { x25519 = x25519; mlkem = mlkem })

  unfoldable pub marshal_ciphertext : Ciphertext c → Bytes
  marshal_ciphertext ct = c.dh_bytes ct.x25519_ephemeral ++ ct.mlkem_ciphertext

  unfoldable pub unmarshal_ciphertext : Bytes → Result (Ciphertext c)
  unmarshal_ciphertext buf = do
    guard (length buf == (32 + c.kem_ciphertext_size)) invalid_ciphertext_length
    x25519 ← c.dh_parse (take 32 buf)
    ok (record { x25519_ephemeral = x25519; mlkem_ciphertext = drop 32 buf })

  -- The locked combining rule: both secrets as key material, the transcript's hash as salt.
  unfoldable pub combine : Bytes → Bytes → Bytes → Result Bytes
  combine ecdh_ss kem_ss transcript =
      c.hkdf (ecdh_ss ++ kem_ss) (c.sha256 transcript) (codes "pqchat-v1-session") 32

  unfoldable pub encapsulate :
      PublicKey c → Bytes → c.Entropy → c.Entropy → Result (Ciphertext c × Bytes)
  unfolding combine
  encapsulate p transcript e f = do
    ephemeral ← c.dh_generate e
    ecdh_ss ← c.dh ephemeral p.x25519
    let (ct, kem_ss) = c.kem_encapsulate p.mlkem f
    session_key ← combine ecdh_ss kem_ss transcript
    ok (record { x25519_ephemeral = c.dh_public ephemeral; mlkem_ciphertext = ct }, session_key)

  unfoldable pub decapsulate : PrivateKey c → Ciphertext c → Bytes → Result Bytes
  unfolding combine
  decapsulate k ct transcript = do
    guard (length ct.mlkem_ciphertext == c.kem_ciphertext_size) decapsulation_failed
    ecdh_ss ← or_decapsulation (c.dh k.x25519 ct.x25519_ephemeral)
    kem_ss ← c.kem_decapsulate k.mlkem ct.mlkem_ciphertext
    combine ecdh_ss kem_ss transcript
