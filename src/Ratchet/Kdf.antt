-- ===== src/Ratchet/Kdf.antt =====
-- crypto/ratchet/kdf.go and aead.go. `hkdf` returns the 64 bytes that it is asked for.
use pqc_chat.Common.{[], ◌∷◌, ◌++◌, Bytes, take, drop, replicate, codes}
use pqc_chat.Result.{Result, ok, ◌>>=◌}
use pqc_chat.Crypto.{Crypto}

abbrev pub zero_nonce : Bytes
zero_nonce = replicate 12 0

module _ (c : Crypto) where
  -- The two results of `chainStep`: the message key, and the new chain key.
  abbrev pub message_key : Bytes → Bytes
  message_key ck = c.hmac_sha256 ck (0x01 ∷ [])

  abbrev pub next_chain_key : Bytes → Bytes
  next_chain_key ck = c.hmac_sha256 ck (0x02 ∷ [])

  -- Root key and chain key. No injected secret is the empty one.
  unfoldable pub root_kdf : Bytes → Bytes → Bytes → Result (Bytes × Bytes)
  root_kdf root_key dh_out kem_ss = do
    out ← c.hkdf (dh_out ++ kem_ss) root_key (codes "pqchat-v1-ratchet") 64
    ok (take 32 out, drop 32 out)

  unfoldable pub aead_seal : Bytes → Bytes → Bytes → Result Bytes
  aead_seal key plaintext ad = do
    aead ← c.aead_new key
    ok (c.aead_seal aead zero_nonce plaintext ad)

  unfoldable pub aead_open : Bytes → Bytes → Bytes → Result Bytes
  aead_open key ciphertext ad = do aead ← c.aead_new key; c.aead_open aead zero_nonce ciphertext ad
