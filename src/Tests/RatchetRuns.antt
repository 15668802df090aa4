-- ===== src/Tests/RatchetRuns.antt =====
-- crypto/ratchet on two small states.
use pqc_chat.Common.{
  ℕ, ◌+◌, ◌^◌, ◌≤◌, ◌<◌, ◌≡◌, refl, true, false, [], ◌∷◌, none, some, length, arith, ◌*◌,
}
use pqc_chat.Common.Int.{pos}
use pqc_chat.Common.Map.{lookup}
use pqc_chat.Result.{ok}
use pqc_chat.Ratchet.Kdf.{message_key, aead_open}
use pqc_chat.Ratchet.State.{State, SkippedKey_discrete, max_skip, init_bob}
use pqc_chat.Ratchet.Sending.{Draws, associated_data_with_header, count_sent, encrypt_message}
use pqc_chat.Ratchet.Receiving.{skip_message_keys, decrypt_message}
use pqc_chat.Ratchet.Skipping.{chain_after, skip_message_keys_bound}
use pqc_chat.Ratchet.Delivery.{Follows, decrypt-encrypt}
use pqc_chat.Ratchet.Calls.{key_of, next_header}
use pqc_chat.Ratchet.Misuse.{reply_unkeyed}
use pqc_chat.Tests.Toy.{toy, toy-AeadLaws, pad}

abbrev pub draws : Draws toy
draws = record { dh = 1; encapsulation = 2; kem = 3; checked_at = 4; injected_at = 5 }

-- The receiver: three messages of the chain have arrived.
abbrev receiver : State toy
receiver = record {
  root_key = pad 9;
  dh_self = some 4;
  dh_remote = some 3;
  chain_send = [];
  chain_recv = some (pad 1);
  n_send = 0;
  n_recv = 3;
  pn = 0;
  needs_new_sending_chain = true;
  skipped = [];
  message_threshold = pos 50;
  time_threshold = pos (24 * 3600 * 10 ^ 9);
  msgs_since_inject = 0;
  last_inject = 0;
  self_pending_kem_priv = none;
  peer_advertised_kem_pub = none;
}

-- The sender, with as many sent.
abbrev sender : State toy
sender = record receiver {
  dh_self = some 3;
  dh_remote = some 4;
  chain_send = pad 1;
  chain_recv = none;
  n_send = 3;
  n_recv = 0;
  needs_new_sending_chain = false;
}

-- The sender, with one message more.
abbrev ahead : State toy
ahead = count_sent toy sender

skip_message_keys_bound_example :
    length (skip_message_keys toy 5 receiver).0.skipped ≤ length receiver.skipped + max_skip
skip_message_keys_bound_example = skip_message_keys_bound toy 5 receiver

no_keys : (n : ℕ) → lookup SkippedKey_discrete (key_of toy 3, n) receiver.skipped ≡ none
unfolding lookup
no_keys n = refl

sent :
    encrypt_message toy draws (7 ∷ []) [] ahead
    ≡ (count_sent toy ahead, ok (next_header toy ahead 3, 7 ∷ []))
unfolding encrypt_message
sent = refl

one_behind : Follows toy ahead receiver 3 (pad 1) 1
one_behind = record {
  own = refl;
  turn = refl;
  remote = refl;
  receiving = refl;
  sending = refl;
  number = refl;
}

decrypt-encrypt_example :
    (b : State toy) × (decrypt_message toy (next_header toy ahead 3) (7 ∷ []) [] receiver
      ≡ (b, ok (7 ∷ [])))
    × Follows toy (count_sent toy ahead) b 3 (count_sent toy ahead).chain_send 0
    × ((j : ℕ)
        → j < 1
        → lookup SkippedKey_discrete (key_of toy 3, receiver.n_recv + j) b.skipped
          ≡ some (message_key toy (chain_after toy (pad 1) j)))
decrypt-encrypt_example =
    decrypt-encrypt toy toy-AeadLaws ahead receiver 3 (pad 1) 1 draws (7 ∷ []) []
      (count_sent toy ahead) (next_header toy ahead 3) (7 ∷ []) one_behind (omega arith)
      (omega arith) (no_keys 4) sent

reply : encrypt_message toy draws (7 ∷ []) [] (init_bob toy (pad 8) 4 0) ≡ (
  count_sent toy (init_bob toy (pad 8) 4 0),
  ok (next_header toy (init_bob toy (pad 8) 4 0) 4, 7 ∷ []),
)
unfolding encrypt_message init_bob
reply = refl

reply_unkeyed_example :
    aead_open toy
      (toy.hmac_sha256 [] (0x01 ∷ []))
      (7 ∷ [])
      (associated_data_with_header (next_header toy (init_bob toy (pad 8) 4 0) 4) [])
    ≡ ok (7 ∷ [])
reply_unkeyed_example =
    reply_unkeyed toy toy-AeadLaws (pad 8) 4 0 draws (7 ∷ []) []
      (count_sent toy (init_bob toy (pad 8) 4 0)) (next_header toy (init_bob toy (pad 8) 4 0) 4)
      (7 ∷ []) reply
