-- ===== src/Identity.antt =====
-- crypto/identity/identity.go.
pub mod Signing
pub mod Keys
use pqc_chat.Common.{
  ◌≡◌, Bool, true, false, ◌&&◌, List, [], ◌∷◌, ◌++◌, Bytes, bytes_equal, if◌then◌else◌,
}
use pqc_chat.Result.{Result, ok, err, panic, diverges, ◌>>=◌, ◌>>◌, guard, verification_failed}
use pqc_chat.Crypto.{Crypto}

pub record KeyPair (c : Crypto) : Type 0 where
  pub ed25519_public : Bytes
  pub ed25519_private : Bytes
  pub mldsa_public : c.DsaPublic
  pub mldsa_private : c.DsaPrivate

pub record PublicKey (c : Crypto) : Type 0 where
  pub ed25519 : Bytes
  pub mldsa : c.DsaPublic

pub record Signature : Type 0 where
  pub ed25519 : Bytes
  pub mldsa : Bytes

-- `err1 != nil || err2 != nil` is false, and the two results are equal. CIRCL's `MarshalBinary`
-- returns, so the other cases are errors.
abbrev pub both_equal : Result Bytes → Result Bytes → Bool
both_equal (ok a) (ok b) = bytes_equal a b
both_equal _ _ = false

module _ (c : Crypto) where
  unfoldable pub equal : PublicKey c → PublicKey c → Bool
  unfolding bytes_equal
  equal p q =
      if bytes_equal p.ed25519 q.ed25519
      then both_equal (c.dsa_marshal p.mldsa) (c.dsa_marshal q.mldsa)
      else false

  unfoldable pub marshal : PublicKey c → Result Bytes
  marshal p = do mldsa ← c.dsa_marshal p.mldsa; ok (p.ed25519 ++ mldsa)

  -- The two draws of `crypto/rand` are arguments.
  unfoldable pub generate : c.Entropy → c.Entropy → Result (KeyPair c)
  generate e f = do
    (ed_public, ed_private) ← c.ed_generate e
    (dsa_public, dsa_private) ← c.dsa_generate f
    ok (record {
      ed25519_public = ed_public;
      ed25519_private = ed_private;
      mldsa_public = dsa_public;
      mldsa_private = dsa_private;
    })

  unfoldable pub public : KeyPair c → PublicKey c
  public k = record { ed25519 = k.ed25519_public; mldsa = k.mldsa_public }

  -- ML-DSA-65 signs with a draw of randomness.
  unfoldable pub sign : KeyPair c → Bytes → c.Entropy → Result Signature
  sign k msg e = do
    ed_sig ← c.ed_sign k.ed25519_private msg
    dsa_sig ← c.dsa_sign k.mldsa_private msg e
    ok (record { ed25519 = ed_sig; mldsa = dsa_sig })

  unfoldable pub verify : PublicKey c → Bytes → Signature → Result (Unit {0})
  verify p msg sig = do
    classical ← c.ed_verify p.ed25519 msg sig.ed25519
    guard classical verification_failed
    guard (c.dsa_verify p.mldsa msg sig.mldsa) verification_failed
