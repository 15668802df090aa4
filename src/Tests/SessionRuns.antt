-- ===== src/Tests/SessionRuns.antt =====
-- crypto/session over a last-resort prekey, and over the prekey of a batch.
use pqc_chat.Common.{
  arith, inl, inr, ◌<◌, ◌^◌, length, ℕ, ◌≡◌, refl, [], ◌∷◌, Bytes, none, some, true, false,
  replicate, bytes_equal, be32,
}
use pqc_chat.Common.Int.{pos}
use pqc_chat.Result.{ok}
use pqc_chat.Identity
use pqc_chat.KemHybrid
use pqc_chat.KemHybrid.{PrivateKey, Ciphertext}
use pqc_chat.Prekey.{leaf_data, verify_bundle, verify_last_resort}
use pqc_chat.Ratchet.Header.{Header, marshal}
use pqc_chat.Ratchet.Header.RoundTrip.{normal}
use pqc_chat.Session.Wire.{
  SubsequentMessage, initial_envelope, subsequent_envelope, unmarshal_envelope,
}
use pqc_chat.Session.Wire.RoundTrip.{
  Sendable, unmarshal_envelope-initial, unmarshal_envelope-subsequent,
}
use pqc_chat.Ratchet.Sending.{encrypt_message}
use pqc_chat.Ratchet.Delivery.{Follows}
use pqc_chat.Ratchet.Letters.{Conversation}
use pqc_chat.Merkle.{verify_inclusion_proof}
use pqc_chat.Ratchet.State.{State, new_state, init_alice}
use pqc_chat.Session.{
  InitialMessage, Setup, establish_as_initiator, establish_as_responder,
  establish_as_initiator_last_resort, establish_as_responder_last_resort,
}
use pqc_chat.Session.Established.{responder-initiator, responder-initiator_last_resort}
use pqc_chat.Tests.Toy.{toy, toy-AeadLaws, toy-DhLaws, toy-KemLaws, toy-DsaKeyLaws, value_or, pad}
use pqc_chat.Tests.PrekeyRuns.{id, private, last_resort, second}

abbrev pub setup : Setup toy
setup = record {
  ephemeral = 1;
  encapsulation = 2;
  ratchet = 3;
  started_at = 0;
  first = record { dh = 1; encapsulation = 2; kem = 3; checked_at = 4; injected_at = 5 };
}

-- The initiator's state after its first message: the root key, the peer's key, the sending chain.
abbrev initiator : Bytes → ℕ → Bytes → State toy
unfolding new_state
initiator root remote chain = record (new_state toy root 0) {
  dh_self = some 3;
  dh_remote = some remote;
  chain_send = chain;
  n_send = 1;
  msgs_since_inject = 1;
}

abbrev header : Header
header = record { dh_pub = pad 3; pn = 0; n = 0; mlkem_pub = none; mlkem_ciphertext = none }

abbrev message : InitialMessage toy
message = record {
  sender_identity = record { ed25519 = 4 ∷ []; mldsa = 5 };
  kem_ciphertext = record { x25519_ephemeral = 1; mlkem_ciphertext = 13 ∷ 2 ∷ [] };
  prekey_index = pos 1;
  is_last_resort = false;
  header = header;
  ciphertext = 77 ∷ [];
}

abbrev pub second_private : PrivateKey toy
second_private = record { x25519 = 12; mlkem = 13 }

pub second_packed :
    KemHybrid.marshal toy (KemHybrid.public toy second_private) ≡ ok second.public_key
unfolding KemHybrid.marshal KemHybrid.public
second_packed = refl

initiated :
    establish_as_initiator toy id (Identity.public toy id) second (77 ∷ []) setup
    ≡ ok (initiator (replicate 32 239) 12 (pad 226), message)
unfolding establish_as_initiator initiator verify_bundle Identity.verify bytes_equal Identity.public
    verify_inclusion_proof leaf_data be32 KemHybrid.unmarshal_public_key Identity.marshal
    KemHybrid.encapsulate init_alice encrypt_message
initiated = refl

responder-initiator_example :
    (b : State toy) × (self : ℕ) × (establish_as_responder toy id second second_private message 6
      ≡ ok (b, 77 ∷ []))
    × Follows toy
        (initiator (replicate 32 239) 12 (pad 226))
        b
        self
        (initiator (replicate 32 239) 12 (pad 226)).chain_send
        0
    × Conversation toy (initiator (replicate 32 239) 12 (pad 226)) b [] []
responder-initiator_example =
    responder-initiator toy toy-AeadLaws toy-DhLaws toy-KemLaws id id second second_private
      (77 ∷ []) setup 6 (initiator (replicate 32 239) 12 (pad 226)) message second_packed initiated

abbrev last_resort_message : InitialMessage toy
last_resort_message = record message {
  kem_ciphertext = record { x25519_ephemeral = 1; mlkem_ciphertext = 7 ∷ 2 ∷ [] };
  prekey_index = pos 0;
  is_last_resort = true;
}

last_resort_packed :
    KemHybrid.marshal toy (KemHybrid.public toy private) ≡ ok last_resort.public_key
unfolding KemHybrid.marshal KemHybrid.public
last_resort_packed = refl

last_resort_initiated :
    establish_as_initiator_last_resort toy id (Identity.public toy id) last_resort (77 ∷ []) setup
    ≡ ok (initiator (replicate 32 233) 6 (pad 34), last_resort_message)
unfolding establish_as_initiator_last_resort initiator verify_last_resort Identity.verify
    bytes_equal Identity.public KemHybrid.unmarshal_public_key Identity.marshal
    KemHybrid.encapsulate init_alice encrypt_message
last_resort_initiated = refl

responder-initiator_last_resort_example :
    (b : State toy) × (self : ℕ) × (establish_as_responder_last_resort toy id last_resort private
        last_resort_message 6
      ≡ ok (b, 77 ∷ []))
    × Follows toy
        (initiator (replicate 32 233) 6 (pad 34))
        b
        self
        (initiator (replicate 32 233) 6 (pad 34)).chain_send
        0
    × Conversation toy (initiator (replicate 32 233) 6 (pad 34)) b [] []
responder-initiator_last_resort_example =
    responder-initiator_last_resort toy toy-AeadLaws toy-DhLaws toy-KemLaws id id last_resort
      private (77 ∷ []) setup 6 (initiator (replicate 32 233) 6 (pad 34)) last_resort_message
      last_resort_packed last_resort_initiated

-- The first message, from an identity whose Ed25519 key has 32 bytes.
abbrev pub wire_message : InitialMessage toy
wire_message = record message { sender_identity = record { ed25519 = pad 4; mldsa = 5 } }

abbrev pub envelope : Bytes
unfolding initial_envelope
envelope = value_or [] (initial_envelope toy wire_message)

pub enveloped : initial_envelope toy wire_message ≡ ok envelope
unfolding initial_envelope envelope Identity.marshal
enveloped = refl

pub sendable : Sendable toy wire_message 1
unfolding marshal be32
sendable = record {
  ed25519 = refl;
  identity = omega arith;
  kem = refl;
  small_kem = omega arith;
  index = refl;
  small_index = omega arith;
  fits = ground arith;
  header = omega arith;
  text = omega arith;
}

unmarshal_envelope-initial_example :
    unmarshal_envelope toy envelope ≡ ok (inl (record wire_message { header = normal header }))
unmarshal_envelope-initial_example =
    unmarshal_envelope-initial toy toy-DhLaws toy-DsaKeyLaws wire_message 1 envelope sendable
      enveloped

abbrev subsequent : SubsequentMessage
subsequent = record { header = header; ciphertext = 5 ∷ 6 ∷ [] }

header_small : length (marshal header) < 2 ^ 32
unfolding marshal be32
header_small = omega arith

unmarshal_envelope-subsequent_example :
    unmarshal_envelope toy (subsequent_envelope subsequent)
    ≡ ok (inr (record subsequent { header = normal header }))
unmarshal_envelope-subsequent_example =
    unmarshal_envelope-subsequent toy subsequent (ground arith) header_small (omega arith)
