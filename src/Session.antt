-- ===== src/Session.antt =====
-- crypto/session/session.go. Everything that one establishment draws is in `Setup`; `EncryptMessage`
-- draws in `first`.
pub mod Established
pub mod Wire
use pqc_chat.Common.{ℕ, Bool, true, false, List, [], ◌∷◌, ◌++◌, Bytes, be32}
use pqc_chat.Common.Int.{ℤ, pos, to_uint32}
use pqc_chat.Result.{Result, ok, err, panic, diverges, ◌>>=◌, ◌>>◌}
use pqc_chat.Crypto.{Crypto}
use pqc_chat.Identity
use pqc_chat.Identity.{KeyPair}
use pqc_chat.KemHybrid
use pqc_chat.KemHybrid.{PrivateKey, Ciphertext, unmarshal_public_key, encapsulate, decapsulate}
use pqc_chat.Prekey.{Bundle, LastResort, verify_bundle, verify_last_resort}
use pqc_chat.Ratchet.Header.{Header}
use pqc_chat.Ratchet.State.{State, init_alice, init_bob}
use pqc_chat.Ratchet.Sending.{Draws, encrypt_message}
use pqc_chat.Ratchet.Receiving.{decrypt_message}

pub record InitialMessage (c : Crypto) : Type 0 where
  pub sender_identity : Identity.PublicKey c
  pub kem_ciphertext : Ciphertext c
  pub prekey_index : ℤ
  pub is_last_resort : Bool
  pub header : Header
  pub ciphertext : Bytes

pub record Setup (c : Crypto) : Type 0 where
  pub ephemeral : c.Entropy
  pub encapsulation : c.Entropy
  pub ratchet : c.Entropy
  pub started_at : ℕ
  pub first : Draws c

-- A method's state and result, where an error drops the state.
abbrev pub both : {S A : Type 0} → S × Result A → Result (S × A)
both (s, ok a) = ok (s, a)
both (s, err e) = err e
both (s, panic) = panic
both (s, diverges) = diverges

module _ (c : Crypto) where
  -- `byte(i>>24), byte(i>>16), byte(i>>8), byte(i)` are the bytes of `uint32(i)`.
  unfoldable pub build_transcript :
      Identity.PublicKey c → Identity.PublicKey c → Bundle → Result Bytes
  build_transcript initiator responder bundle = do
    init_bytes ← Identity.marshal c initiator
    resp_bytes ← Identity.marshal c responder
    ok (init_bytes ++ (resp_bytes ++ (bundle.root ++ be32 (to_uint32 bundle.index))))

  unfoldable pub build_last_resort_transcript :
      Identity.PublicKey c → Identity.PublicKey c → LastResort → Result Bytes
  build_last_resort_transcript initiator responder lr = do
    init_bytes ← Identity.marshal c initiator
    resp_bytes ← Identity.marshal c responder
    ok (init_bytes ++ (resp_bytes ++ lr.public_key))

  -- What both initiators do after the prekey's signature is checked: from its bytes, with the
  -- transcript that is still to be built.
  unfoldable pub initiate :
      Bytes → Result Bytes → Bytes → Setup c → Result (State c × Ciphertext c × Header × Bytes)
  initiate packed built first_message d = do
    responder ← unmarshal_public_key c packed
    transcript ← built
    (ct, session_key) ← encapsulate c responder transcript d.ephemeral d.encapsulation
    started ← init_alice c session_key responder.x25519 d.ratchet d.started_at
    (state, (hdr, text)) ← both (encrypt_message c d.first first_message [] started)
    ok (state, ct, hdr, text)

  unfoldable pub establish_as_initiator :
      KeyPair c
      → Identity.PublicKey c
      → Bundle
      → Bytes
      → Setup c
      → Result (State c × InitialMessage c)
  unfolding initiate build_transcript
  establish_as_initiator id responder bundle first_message d = do
    verify_bundle c responder bundle
    (state, ct, hdr, text) ←
        initiate bundle.public_key (build_transcript (Identity.public c id) responder bundle)
          first_message d
    ok (
      state,
      record {
        sender_identity = Identity.public c id;
        kem_ciphertext = ct;
        prekey_index = bundle.index;
        is_last_resort = false;
        header = hdr;
        ciphertext = text;
      },
    )

  -- A field that is not set is the zero value.
  unfoldable pub establish_as_initiator_last_resort :
      KeyPair c
      → Identity.PublicKey c
      → LastResort
      → Bytes
      → Setup c
      → Result (State c × InitialMessage c)
  unfolding initiate build_last_resort_transcript
  establish_as_initiator_last_resort id responder lr first_message d = do
    verify_last_resort c responder lr
    (state, ct, hdr, text) ←
        initiate lr.public_key (build_last_resort_transcript (Identity.public c id) responder lr)
          first_message d
    ok (
      state,
      record {
        sender_identity = Identity.public c id;
        kem_ciphertext = ct;
        prekey_index = pos 0;
        is_last_resort = true;
        header = hdr;
        ciphertext = text;
      },
    )

  -- What both responders do, with the transcript that is still to be built.
  unfoldable pub respond :
      Result Bytes → PrivateKey c → InitialMessage c → ℕ → Result (State c × Bytes)
  respond built private msg now = do
    transcript ← built
    session_key ← decapsulate c private msg.kem_ciphertext transcript
    both
        (decrypt_message c msg.header msg.ciphertext [] (init_bob c session_key private.x25519 now))

  unfoldable pub establish_as_responder :
      KeyPair c → Bundle → PrivateKey c → InitialMessage c → ℕ → Result (State c × Bytes)
  unfolding respond build_transcript
  establish_as_responder id bundle private msg now =
      respond (build_transcript msg.sender_identity (Identity.public c id) bundle) private msg now

  unfoldable pub establish_as_responder_last_resort :
      KeyPair c → LastResort → PrivateKey c → InitialMessage c → ℕ → Result (State c × Bytes)
  unfolding respond build_last_resort_transcript
  establish_as_responder_last_resort id lr private msg now =
      respond (build_last_resort_transcript msg.sender_identity (Identity.public c id) lr) private
        msg now
