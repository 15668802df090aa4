-- ===== src/Ratchet/Sending.antt =====
-- crypto/ratchet/ratchet.go: `prepareSendingChain` and `EncryptMessage`.
use pqc_chat.Common.{ℕ, ◌+◌, Bool, true, false, [], ◌++◌, Option, none, some, Bytes}
use pqc_chat.Result.{Result, ok, err, panic, diverges, or_panic}
use pqc_chat.Crypto.{Crypto}
use pqc_chat.Ratchet.Header.{Header, marshal}
use pqc_chat.Ratchet.Kdf.{message_key, next_chain_key, root_kdf, aead_seal}
use pqc_chat.Ratchet.State.{State, injection_due, increment}
use pqc_chat.Ratchet.Action.{Action, current, update, lift, ◌>>=◌, ◌>>◌}

-- What one send draws from `crypto/rand`, and the two times at which it reads the clock.
pub record Draws (c : Crypto) : Type 0 where
  pub dh : c.Entropy
  pub encapsulation : c.Entropy
  pub kem : c.Entropy
  pub checked_at : ℕ
  pub injected_at : ℕ

unfoldable pub associated_data_with_header : Header → Bytes → Bytes
associated_data_with_header hdr ad = ad ++ marshal hdr

module _ (c : Crypto) where
  -- `s.RootKey, s.chainSend, err = rootKDF(...)`: an error sets both to nil.
  unfoldable pub set_sending_keys : State c → Result (Bytes × Bytes) → State c × Result (Unit {0})
  set_sending_keys s (ok (root, chain)) = (record s { root_key = root; chain_send = chain }, ok tt)
  set_sending_keys s (err e) = (record s { root_key = []; chain_send = [] }, err e)
  set_sending_keys s panic = (s, panic)
  set_sending_keys s diverges = (s, diverges)

  unfoldable pub derive_sending_keys : Bytes → Bytes → Action c (Unit {0})
  unfolding set_sending_keys root_kdf
  derive_sending_keys dh_out kem_ss s = set_sending_keys s (root_kdf c s.root_key dh_out kem_ss)

  -- The ciphertext for a key that the peer has advertised, and its secret.
  unfoldable pub answer_injection : Draws c → Option c.KemPublic → Action c (Option Bytes × Bytes)
  answer_injection d none s = (s, ok (none, []))
  answer_injection d (some p) s =
      let (ct, ss) = c.kem_encapsulate p d.encapsulation in
      (record s { peer_advertised_kem_pub = none }, ok (some ct, ss))

  -- The header's `MLKEMPub`, where an injection is due.
  unfoldable pub start_injection : Draws c → Action c (Option Bytes)
  start_injection d = do
    (p, private) ← lift c (c.kem_generate d.kem)
    packed ← lift c (c.kem_marshal p)
    update c (λ s. record s {
      self_pending_kem_priv = some private;
      msgs_since_inject = 0;
      last_inject = d.injected_at;
    })
    lift c (ok (some packed))

  unfoldable pub inject_if : Bool → Draws c → Action c (Option Bytes)
  unfolding start_injection
  inject_if true d = start_injection d
  inject_if false d = lift c (ok none)

  -- The body of `if s.needsNewSendingChain`: the header without its key and number.
  unfoldable pub new_sending_chain : Draws c → Action c Header
  unfolding derive_sending_keys answer_injection inject_if injection_due
  new_sending_chain d = do
    new_self ← lift c (c.dh_generate d.dh)
    update c (λ s. record s { dh_self = some new_self })
    s ← current c
    remote ← lift c (or_panic s.dh_remote)
    dh_out ← lift c (c.dh new_self remote)
    (ciphertext, kem_ss) ← answer_injection d s.peer_advertised_kem_pub
    update c (λ s. record s { pn = s.n_send; n_send = 0 })
    derive_sending_keys dh_out kem_ss
    update c (λ s. record s { needs_new_sending_chain = false })
    s ← current c
    advertised ← inject_if (injection_due c s d.checked_at) d
    lift c (
        ok (record {
          dh_pub = [];
          pn = s.pn;
          n = 0;
          mlkem_pub = advertised;
          mlkem_ciphertext = ciphertext;
        }))

  unfoldable pub sending_chain : Draws c → Bool → Action c Header
  unfolding new_sending_chain
  sending_chain d true s = new_sending_chain d s
  sending_chain d false s =
      (s, ok (record { dh_pub = []; pn = s.pn; n = 0; mlkem_pub = none; mlkem_ciphertext = none }))

  unfoldable pub prepare_sending_chain : Draws c → Action c Header
  unfolding sending_chain
  prepare_sending_chain d = do
    s ← current c
    hdr ← sending_chain d s.needs_new_sending_chain
    s ← current c
    dh_self ← lift c (or_panic s.dh_self)
    lift c (ok (record hdr { dh_pub = c.dh_bytes (c.dh_public dh_self) }))

  -- `msgsSinceInject` is an `int`, taken to stay below 2 ^ 63.
  abbrev pub count_sent : State c → State c
  count_sent s = record s {
    chain_send = next_chain_key c s.chain_send;
    n_send = increment s.n_send;
    msgs_since_inject = s.msgs_since_inject + 1;
  }

  unfoldable pub encrypt_message : Draws c → Bytes → Bytes → Action c (Header × Bytes)
  unfolding prepare_sending_chain aead_seal associated_data_with_header
  encrypt_message d plaintext ad = do
    prepared ← prepare_sending_chain d
    s ← current c
    let hdr = record prepared { n = s.n_send }
    update c count_sent
    ct ←
        lift c
          (aead_seal c (message_key c s.chain_send) plaintext (associated_data_with_header hdr ad))
    lift c (ok (hdr, ct))
