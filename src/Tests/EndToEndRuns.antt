-- ===== src/Tests/EndToEndRuns.antt =====
-- Alice writes to Bob, who is offline, on a relay with his identity.
use pqc_chat.Common.{
  ◌≡◌, refl, List, [], ◌∷◌, some, inl, Bytes, Bytes_discrete, bytes_equal, be32, replicate, arith,
  ◌≢◌,
}
use pqc_chat.Common.Map.{lookup}
use pqc_chat.Result.{ok}
use pqc_chat.Identity
use pqc_chat.Identity.{KeyPair, PublicKey}
use pqc_chat.KemHybrid
use pqc_chat.Merkle.{verify_inclusion_proof}
use pqc_chat.Prekey.{verify_bundle, leaf_data}
use pqc_chat.Ratchet.State.{State, new_state, init_alice}
use pqc_chat.Ratchet.Sending.{encrypt_message}
use pqc_chat.Ratchet.Letters.{Conversation}
use pqc_chat.Session.{establish_as_initiator, establish_as_responder}
use pqc_chat.Session.Wire.{unmarshal_envelope}
use pqc_chat.Relay.{
  Server, QueuedMessage, new_server, publish_identity, queue_of, send_message, poll_messages,
}
use pqc_chat.Relay.Issues.{Op, sends, fetches, polls, run}
use pqc_chat.Relay.Queues.{IsKnown}
use pqc_chat.EndToEnd.{offline_delivery}
use pqc_chat.Tests.Toy.{toy, toy-AeadLaws, toy-DhLaws, toy-KemLaws, toy-DsaKeyLaws, pad}
use pqc_chat.Tests.PrekeyRuns.{id, second}
use pqc_chat.Tests.SessionRuns.{
  setup, wire_message, envelope, enveloped, sendable, second_private, second_packed,
}

-- An identity with an Ed25519 key of 32 bytes.
abbrev alices_id : KeyPair toy
alices_id = record id { ed25519_public = pad 4 }

abbrev alice : Bytes
alice = 1 ∷ []

abbrev bob : Bytes
bob = 2 ∷ []

abbrev relay : Server toy
relay = publish_identity toy (new_server toy) bob (Identity.public toy id)

abbrev meanwhile : List (Op toy)
meanwhile = sends bob (3 ∷ []) (9 ∷ []) 30 ∷ fetches bob ∷ polls alice ∷ []

bob-IsKnown : IsKnown toy relay bob
unfolding publish_identity new_server
bob-IsKnown = (Identity.public toy id, unfold lookup Bytes_discrete in refl)

nothing_queued : queue_of toy relay bob ≡ []
unfolding publish_identity new_server queue_of
nothing_queued = refl

abbrev alices_state : State toy
unfolding new_state
alices_state = record (new_state toy (replicate 32 239) 0) {
  dh_self = some 3;
  dh_remote = some 12;
  chain_send = pad 226;
  n_send = 1;
  msgs_since_inject = 1;
}

begun :
    establish_as_initiator toy alices_id (Identity.public toy id) second (77 ∷ []) setup
    ≡ ok (alices_state, wire_message)
unfolding establish_as_initiator alices_state verify_bundle Identity.verify bytes_equal
    Identity.public verify_inclusion_proof leaf_data be32 KemHybrid.unmarshal_public_key
    Identity.marshal KemHybrid.encapsulate init_alice encrypt_message
begun = refl

apart : alice ≢ bob
apart e = ground arith

offline_delivery_example :
    (m : QueuedMessage) × (later : List QueuedMessage) × (b : State toy) × ((poll_messages toy
        (run toy (send_message toy relay bob alice envelope 20).0 meanwhile)
        bob).1
      ≡ m ∷ later)
    × (m.from ≡ alice)
    × (m.envelope ≡ envelope)
    × (m.queued_at ≡ 20)
    × (unmarshal_envelope toy m.envelope ≡ ok (inl wire_message))
    × (establish_as_responder toy id second second_private wire_message 40 ≡ ok (b, 77 ∷ []))
    × Conversation toy alices_state b [] []
offline_delivery_example =
    offline_delivery toy toy-AeadLaws toy-DhLaws toy-KemLaws toy-DsaKeyLaws relay meanwhile alice
      bob 20 40 alices_id id second second_private (77 ∷ []) setup alices_state wire_message 1
      envelope bob-IsKnown nothing_queued (apart, tt) second_packed begun sendable enveloped
