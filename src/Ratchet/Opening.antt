-- ===== src/Ratchet/Opening.antt =====
-- The first message of a new sending chain: what `EncryptMessage` leaves where it succeeds.
use pqc_chat.Common.{ℕ, ◌≡◌, refl, sym, ap, ap₂, ◌∙◌, subst, true, none, some, Bytes}
use pqc_chat.Result.{ok, or_panic, ok-injective}
use pqc_chat.Crypto.{Crypto, KemLaws}
use pqc_chat.Ratchet.Header.{Header}
use pqc_chat.Ratchet.Kdf.{message_key, aead_seal}
use pqc_chat.Ratchet.State.{State}
use pqc_chat.Ratchet.Action.{continue_cases}
use pqc_chat.Ratchet.Sending.{
  Draws, sending_chain, prepare_sending_chain, associated_data_with_header, count_sent,
  encrypt_message,
}
use pqc_chat.Ratchet.Calls.{key_of, last_step}
use pqc_chat.Ratchet.Starting.{NewChain, new_sending_chain-NewChain}

module _ (c : Crypto) where
  pub record Opens (d : Draws c) (b b' : State c) (remote : c.DhPublic) (plaintext ad : Bytes)
      (hdr : Header) (ct : Bytes) : Type 0 where
    pub begun : State c
    pub new : NewChain c d b begun remote hdr
    pub dh_pub : hdr.dh_pub ≡ key_of c new.key
    pub number : hdr.n ≡ begun.n_send
    pub after : b' ≡ count_sent c begun
    pub sealed :
        aead_seal c (message_key c begun.chain_send) plaintext (associated_data_with_header hdr ad)
        ≡ ok ct

  self_of :
      (d : Draws c) (b b1 : State c) (remote : c.DhPublic) (hdr : Header)
      (new : NewChain c d b b1 remote hdr)
      → b1.dh_self ≡ some new.key
  self_of d b b1 remote hdr new = ap (λ s. s.dh_self) new.injected.after

  -- The key and the number of a header come after the chain.
  addressed :
      (d : Draws c) (b b1 : State c) (remote : c.DhPublic) (hdr : Header) (key : Bytes) (n : ℕ)
      → NewChain c d b b1 remote hdr
      → NewChain c d b b1 remote (record hdr { dh_pub = key; n = n })
  addressed d b b1 remote hdr key n new = record {
    key = new.key;
    dh_out = new.dh_out;
    root = new.root;
    chain = new.chain;
    agreed = new.agreed;
    derived = new.derived;
    injected = new.injected;
    ciphertext = new.ciphertext;
    last_chain = new.last_chain;
  }

  pub encrypt-Opens :
      KemLaws c
      → (d : Draws c) (plaintext ad : Bytes) (b b' : State c) (remote : c.DhPublic) (hdr : Header)
        (ct : Bytes)
      → b.dh_remote ≡ some remote
      → b.self_pending_kem_priv ≡ none
      → b.needs_new_sending_chain ≡ true
      → encrypt_message c d plaintext ad b ≡ (b', ok (hdr, ct))
      → Opens d b b' remote plaintext ad hdr ct
  unfolding encrypt_message prepare_sending_chain sending_chain addressed
  encrypt-Opens laws d plaintext ad b b' remote hdr ct known idle turn e =
      continue_cases c (prepare_sending_chain c d b) _ e λ b1 prepared was_prepared e.
        continue_cases c (sending_chain c d b.needs_new_sending_chain b) _ was_prepared
          λ b2 h began keyed.
            let (ct', sealed, same_b, same_h) =
              last_step c (count_sent c b1) b' _ (λ x. (record prepared { n = b1.n_send }, x))
                (hdr, ct) e in
            let (k, own, same_b2, same_p) =
              last_step c b2 b1 (or_panic b2.dh_self) (λ k. record h { dh_pub = key_of c k })
                prepared keyed in
            let new =
              new_sending_chain-NewChain c laws d b b2 remote h known idle
                (sym (ap (λ t. sending_chain c d t b) turn) ∙ began) in
            let named = record h { dh_pub = key_of c k; n = b2.n_send } in
            let same : record prepared { n = b1.n_send } ≡ named =
              sym (
                ap₂ {A = State c} {B = Header} (λ s q. record q { n = s.n_send }) same_b2 same_p) in
            subst (λ (m : State c × Header × Bytes). Opens d b m.0 remote plaintext ad m.1 m.2)
              (ap₂ {A = State c} {B = Header × Bytes} (λ s q. (s, q.0, q.1))
                (ap (count_sent c) same_b2 ∙ same_b) (ap (λ q. (q, ct')) (sym same) ∙ same_h))
              (record {
                begun = b2;
                new = addressed d b b2 remote h (key_of c k) b2.n_send new;
                dh_pub =
                    ap (key_of c) (
                      ok-injective k new.key (sym own ∙ ap or_panic (self_of d b b2 remote h new)));
                number = refl;
                after = refl;
                sealed =
                    subst
                      (λ (m : State c × Header).
                        aead_seal c (message_key c m.0.chain_send) plaintext
                          (associated_data_with_header m.1 ad)
                        ≡ ok ct')
                      (ap₂ (λ s q. (s, q)) (sym same_b2) same) sealed;
              })
