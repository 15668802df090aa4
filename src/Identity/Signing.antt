-- ===== src/Identity/Signing.antt =====
-- The hybrid signature: what `Sign` makes `Verify` accepts, and `Verify` needs both algorithms.
use pqc_chat.Common.{true, ◌≡◌, ◌↔◌, Bool, false, Bytes, arith, if◌then◌else◌}
use pqc_chat.Result.{ok, err, verification_failed, bind_cases}
use pqc_chat.Crypto.{Crypto, SignLaws}
use pqc_chat.Identity.{KeyPair, PublicKey, Signature, generate, public, sign, verify}

module _ (c : Crypto) where
  -- `Verify` succeeds exactly if both the Ed25519 and the ML-DSA-65 check do.
  pub verify_iff :
      (p : PublicKey c) (msg : Bytes) (sig : Signature)
      → (verify c p msg sig ≡ ok tt) ↔ (
          (c.ed_verify p.ed25519 msg sig.ed25519 ≡ ok true)
          × (c.dsa_verify p.mldsa msg sig.mldsa ≡ true))
  unfolding verify
  verify_iff p msg sig = (λ h. ground arith, λ h. ground arith)

  -- If Ed25519 returns an answer and either answer is no, `Verify` is the verification error: no
  -- failure of one algorithm is made up for by the other.
  pub verify_fails :
      (p : PublicKey c) (msg : Bytes) (sig : Signature) (classical : Bool)
      → c.ed_verify p.ed25519 msg sig.ed25519 ≡ ok classical
      → (if classical then c.dsa_verify p.mldsa msg sig.mldsa else false) ≡ false
      → verify c p msg sig ≡ err verification_failed
  unfolding verify
  verify_fails p msg sig classical h failed = ground arith

  -- Under the laws of the two algorithms, a signature that a generated key pair makes of a message is
  -- accepted by its public key for that message.
  pub verify-sign :
      SignLaws c
      → (e f g : c.Entropy) (k : KeyPair c) (msg : Bytes) (sig : Signature) → generate c e f ≡ ok k
      → sign c k msg g ≡ ok sig
      → verify c (public c k) msg sig ≡ ok tt
  unfolding generate sign public verify
  verify-sign laws e f g k msg sig made signed =
      bind_cases (c.ed_generate e) _ made λ ed ed_made made'.
        bind_cases (c.dsa_generate f) _ made' λ dsa dsa_made made''.
          bind_cases (c.ed_sign k.ed25519_private msg) _ signed λ s ed_signed signed'.
            bind_cases (c.dsa_sign k.mldsa_private msg g) _ signed' λ t dsa_signed signed''.
              let ed_key : c.ed_generate e ≡ ok (k.ed25519_public, k.ed25519_private) =
                ground arith in
              let dsa_key : c.dsa_generate f ≡ ok (k.mldsa_public, k.mldsa_private) =
                ground arith in
              let ed_sig : c.ed_sign k.ed25519_private msg ≡ ok sig.ed25519 = ground arith in
              let dsa_sig : c.dsa_sign k.mldsa_private msg g ≡ ok sig.mldsa = ground arith in
              rw (laws.ed_signs e _ _ msg _ ed_key ed_sig)
                (rw (laws.dsa_signs f g _ _ msg _ dsa_key dsa_sig))
