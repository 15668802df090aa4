-- ===== src/Session/Established.antt =====
-- Both sides of an establishment agree, and the first message arrives.
use pqc_chat.Common.{ℕ, ◌≡◌, sym, ap, ◌∙◌, subst, true, false, [], Bytes, arith}
use pqc_chat.Common.Int.{pos}
use pqc_chat.Result.{Result, ok, err, panic, diverges, bind_cases, ok-injective}
use pqc_chat.Crypto.{Crypto, AeadLaws, DhLaws, KemLaws}
use pqc_chat.Identity
use pqc_chat.Identity.{KeyPair}
use pqc_chat.KemHybrid
use pqc_chat.KemHybrid.{PrivateKey, Ciphertext, unmarshal_public_key, encapsulate, decapsulate}
use pqc_chat.KemHybrid.Agreement.{decapsulate-encapsulate, unmarshal_public_key-marshal}
use pqc_chat.Prekey.{Bundle, LastResort, verify_bundle, verify_last_resort}
use pqc_chat.Ratchet.Header.{Header}
use pqc_chat.Ratchet.State.{State, init_alice, init_bob}
use pqc_chat.Ratchet.Sending.{encrypt_message}
use pqc_chat.Ratchet.Receiving.{decrypt_message}
use pqc_chat.Ratchet.Delivery.{Follows}
use pqc_chat.Ratchet.FirstContact.{first_contact}
use pqc_chat.Ratchet.Letters.{Conversation, begun}
use pqc_chat.Session.{
  InitialMessage, Setup, both, build_transcript, build_last_resort_transcript, initiate, respond,
  establish_as_initiator, establish_as_responder, establish_as_initiator_last_resort,
  establish_as_responder_last_resort,
}

module _ (c : Crypto) where
  pub both-eq-ok :
      {S A : Type 0} (p : S × Result A) (s : S) (a : A) → both p ≡ ok (s, a) → p ≡ (s, ok a)
  both-eq-ok {S = S} {A = A} (t, ok b) s a e =
      let q : ◌≡◌ {A = S × A} (t, b) (s, a) = ok-injective _ _ e in ap (λ z. (z.0, ok z.1)) q
  both-eq-ok (t, err _) s a e = absurd (ground arith)
  both-eq-ok (t, panic) s a e = absurd (ground arith)
  both-eq-ok (t, diverges) s a e = absurd (ground arith)

  -- The responder reads the first message, and follows on the initiator's chain.
  abbrev pub Established : Result (State c × Bytes) → State c → Bytes → Type 0
  Established r a first =
      (b : State c) × (self : c.DhPrivate) × (r ≡ ok (b, first))
      × Follows c a b self a.chain_send 0
      × Conversation c a b [] []

  -- What the responder needs of a message: the session key, and the text under it.
  abbrev Readable :
      PrivateKey c → Bytes → Bytes → ℕ → Bytes → State c × Ciphertext c × Header × Bytes → Type 0
  Readable private transcript key now first (a, ct, hdr, text) =
      (b : State c) × (self : c.DhPrivate) × (decapsulate c private ct transcript ≡ ok key)
      × (decrypt_message c hdr text [] (init_bob c key private.x25519 now) ≡ (b, ok first))
      × Follows c a b self a.chain_send 0
      × Conversation c a b [] []

  respond-eq :
      (built : Result Bytes) (private : PrivateKey c) (msg : InitialMessage c) (now : ℕ)
      (transcript key first : Bytes) (b : State c)
      → built ≡ ok transcript
      → decapsulate c private msg.kem_ciphertext transcript ≡ ok key
      → decrypt_message c msg.header msg.ciphertext [] (init_bob c key private.x25519 now)
        ≡ (b, ok first)
      → respond c built private msg now ≡ ok (b, first)
  unfolding respond
  respond-eq built private msg now transcript key first b built_ok agreed opened =
      rw built_ok (rw agreed (ap both opened))

  initiate-respond :
      AeadLaws c
      → DhLaws c
      → KemLaws c
      → (packed : Bytes) (built : Result Bytes) (private : PrivateKey c) (first : Bytes)
        (d : Setup c) (now : ℕ) (a : State c) (msg : InitialMessage c)
      → KemHybrid.marshal c (KemHybrid.public c private) ≡ ok packed
      → initiate c packed built first d ≡ ok (a, msg.kem_ciphertext, msg.header, msg.ciphertext)
      → Established (respond c built private msg now) a first
  unfolding initiate KemHybrid.public
  initiate-respond aead dhs kem packed built private first d now a msg key e =
      bind_cases (unmarshal_public_key c packed) _ e λ responder parsed e1.
        bind_cases built _ e1 λ transcript built_ok e2.
          bind_cases (encapsulate c responder transcript d.ephemeral d.encapsulation) _ e2
            λ pair enc e3.
              bind_cases (init_alice c pair.1 responder.x25519 d.ratchet d.started_at) _ e3
                λ s began e4.
                  bind_cases (both (encrypt_message c d.first first [] s)) _ e4 λ out sent e5.
                    let same : responder ≡ KemHybrid.public c private = ok-injective _ _ (
                      sym parsed
                      ∙ unmarshal_public_key-marshal c dhs kem (KemHybrid.public c private) packed
                          key) in
                    let agreed =
                      decapsulate-encapsulate c dhs kem private transcript d.ephemeral
                        d.encapsulation pair.0 pair.1
                        (ap (λ r. encapsulate c r transcript d.ephemeral d.encapsulation) (sym same)
                          ∙ enc) in
                    let begins =
                      ap
                        (λ (r : KemHybrid.PublicKey c).
                          init_alice c pair.1 r.x25519 d.ratchet d.started_at)
                        (sym same)
                      ∙ began in
                    let said = both-eq-ok (encrypt_message c d.first first [] s) out.0 out.1 sent in
                    let (b, self, opened, follows) =
                      first_contact c aead dhs pair.1 private.x25519 d.ratchet d.started_at now
                        d.first first [] s out.0 out.1.0 out.1.1 begins said in
                    let talk =
                      begun pair.1 private.x25519 d.ratchet d.started_at now d.first first [] s
                        out.0 out.1.0 out.1.1 begins said in
                    let (b', self', agreed', opened', follows', talk') =
                      subst (Readable private transcript pair.1 now first) (ok-injective _ _ e5) (
                        b,
                        self,
                        agreed,
                        opened,
                        follows,
                        subst (λ b. Conversation c out.0 b [] []) (ap (λ z. z.0) opened) talk,
                      ) in
                    (
                      b',
                      self',
                      respond-eq built private msg now transcript pair.1 first b' built_ok agreed'
                          opened',
                      follows',
                      talk',
                    )

  -- A session over a one-time prekey: what `EstablishAsInitiator` returned for a bundle that carries the
  -- public half of a private key, `EstablishAsResponder` accepts with that private key. It returns the
  -- initiator's first message, and its state follows on the initiator's sending chain with nothing
  -- missing. The two are then
  -- in a conversation. The laws are those of X25519, ML-KEM-768 and the AEAD.
  pub responder-initiator :
      AeadLaws c
      → DhLaws c
      → KemLaws c
      → (id responder : KeyPair c) (bu : Bundle) (private : PrivateKey c) (first : Bytes)
        (d : Setup c) (now : ℕ) (a : State c) (msg : InitialMessage c)
      → KemHybrid.marshal c (KemHybrid.public c private) ≡ ok bu.public_key
      → establish_as_initiator c id (Identity.public c responder) bu first d ≡ ok (a, msg)
      → (b : State c) × (self : c.DhPrivate) × (establish_as_responder c responder bu private msg
            now
          ≡ ok (b, first))
        × Follows c a b self a.chain_send 0
        × Conversation c a b [] []
  unfolding establish_as_initiator establish_as_responder
  responder-initiator aead dhs kem id responder bu private first d now a msg key e =
      bind_cases (verify_bundle c (Identity.public c responder) bu) _ e λ _ _ e1.
        bind_cases
          (initiate c bu.public_key
            (build_transcript c (Identity.public c id) (Identity.public c responder) bu) first d)
          _ e1
          λ q began e2.
            subst
              (λ (z : State c × InitialMessage c).
                Established
                  (respond c
                    (build_transcript c z.1.sender_identity (Identity.public c responder) bu)
                    private z.1 now)
                  z.0 first)
              (ok-injective _ _ e2)
              (initiate-respond aead dhs kem bu.public_key _ private first d now q.0
                (record {
                  sender_identity = Identity.public c id;
                  kem_ciphertext = q.1;
                  prekey_index = bu.index;
                  is_last_resort = false;
                  header = q.2;
                  ciphertext = q.3;
                })
                key began)

  -- A session over a last-resort prekey: what `EstablishAsInitiatorLastResort` returned for a
  -- prekey that carries the public half of a private key, `EstablishAsResponderLastResort` accepts
  -- with that private key. It returns the initiator's first message, and its state follows on the
  -- initiator's sending chain with nothing missing. The two are then in a conversation. The laws are
  -- those of X25519, ML-KEM-768 and the AEAD.
  pub responder-initiator_last_resort :
      AeadLaws c
      → DhLaws c
      → KemLaws c
      → (id responder : KeyPair c) (lr : LastResort) (private : PrivateKey c) (first : Bytes)
        (d : Setup c) (now : ℕ) (a : State c) (msg : InitialMessage c)
      → KemHybrid.marshal c (KemHybrid.public c private) ≡ ok lr.public_key
      → establish_as_initiator_last_resort c id (Identity.public c responder) lr first d
        ≡ ok (a, msg)
      → (b : State c) × (self : c.DhPrivate) × (establish_as_responder_last_resort c responder lr
            private msg now
          ≡ ok (b, first))
        × Follows c a b self a.chain_send 0
        × Conversation c a b [] []
  unfolding establish_as_initiator_last_resort establish_as_responder_last_resort
  responder-initiator_last_resort aead dhs kem id responder lr private first d now a msg key e =
      bind_cases (verify_last_resort c (Identity.public c responder) lr) _ e λ _ _ e1.
        bind_cases
          (initiate c lr.public_key
            (build_last_resort_transcript c (Identity.public c id) (Identity.public c responder) lr)
            first d)
          _ e1
          λ q began e2.
            subst
              (λ (z : State c × InitialMessage c).
                Established
                  (respond c
                    (build_last_resort_transcript c z.1.sender_identity
                      (Identity.public c responder) lr)
                    private z.1 now)
                  z.0 first)
              (ok-injective _ _ e2)
              (initiate-respond aead dhs kem lr.public_key _ private first d now q.0
                (record {
                  sender_identity = Identity.public c id;
                  kem_ciphertext = q.1;
                  prekey_index = pos 0;
                  is_last_resort = true;
                  header = q.2;
                  ciphertext = q.3;
                })
                key began)
