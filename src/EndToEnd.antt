-- ===== src/EndToEnd.antt =====
-- The path of a first message through all parts: session establishment, wire form, relay, and back.
use pqc_chat.Common.{
  ℕ, ◌≡◌, refl, sym, ap, ap₂, ◌∙◌, subst, inl, List, [], ◌∷◌, ◌++◌, Option, none, Bytes,
}
use pqc_chat.Result.{ok, bind_cases, ok-injective}
use pqc_chat.Crypto.{Crypto, AeadLaws, DhLaws, KemLaws, DsaKeyLaws}
use pqc_chat.Identity
use pqc_chat.Identity.{KeyPair}
use pqc_chat.KemHybrid
use pqc_chat.KemHybrid.{PrivateKey, unmarshal_public_key, encapsulate}
use pqc_chat.Prekey.{Bundle, verify_bundle}
use pqc_chat.Ratchet.Header.{Header, contents, nil_if_empty}
use pqc_chat.Ratchet.Header.RoundTrip.{normal}
use pqc_chat.Ratchet.State.{State, init_alice}
use pqc_chat.Ratchet.Sending.{encrypt_message}
use pqc_chat.Ratchet.FirstContact.{plain_header}
use pqc_chat.Ratchet.Letters.{Conversation}
use pqc_chat.Session.{
  InitialMessage, Setup, both, build_transcript, initiate, establish_as_initiator,
  establish_as_responder,
}
use pqc_chat.Session.Established.{both-eq-ok, responder-initiator}
use pqc_chat.Session.Wire.{initial_envelope, unmarshal_envelope}
use pqc_chat.Session.Wire.RoundTrip.{Sendable, unmarshal_envelope-initial}
use pqc_chat.Relay.{Server, QueuedMessage, queue_of, send_message, poll_messages}
use pqc_chat.Relay.Issues.{Op, run}
use pqc_chat.Relay.Queues.{
  IsKnown, Waits, message_of, sent_to, poll_delivers, queue_of-send_self, send-IsKnown,
}

module _ (c : Crypto) where
  -- A header without ML-KEM material is sent as it is.
  normal_plain :
      (hdr : Header) → hdr.mlkem_pub ≡ none → hdr.mlkem_ciphertext ≡ none → normal hdr ≡ hdr
  normal_plain hdr no_pub no_ct =
      ap₂ {A = Option Bytes} {B = Option Bytes}
        (λ p q. record hdr {
          mlkem_pub = nil_if_empty (contents p);
          mlkem_ciphertext = nil_if_empty (contents q);
        })
        no_pub no_ct
      ∙ sym (
          ap₂ {A = Option Bytes} {B = Option Bytes}
            (λ p q. record hdr { mlkem_pub = p; mlkem_ciphertext = q }) no_pub no_ct)

  abbrev Plain : InitialMessage c → Type 0
  Plain msg = (msg.header.mlkem_pub ≡ none) × (msg.header.mlkem_ciphertext ≡ none)

  initiator-Plain :
      (id : KeyPair c) (responder : Identity.PublicKey c) (bu : Bundle) (first : Bytes)
      (d : Setup c) (a : State c) (msg : InitialMessage c)
      → establish_as_initiator c id responder bu first d ≡ ok (a, msg)
      → Plain msg
  unfolding establish_as_initiator initiate
  initiator-Plain id responder bu first d a msg e =
      bind_cases (verify_bundle c responder bu) _ e λ _ _ e1.
        bind_cases
          (initiate c bu.public_key (build_transcript c (Identity.public c id) responder bu) first
            d)
          _ e1
          λ q began e2. bind_cases (unmarshal_public_key c bu.public_key) _ began λ p _ e3.
            bind_cases (build_transcript c (Identity.public c id) responder bu) _ e3
              λ transcript _ e4.
                bind_cases (encapsulate c p transcript d.ephemeral d.encapsulation) _ e4
                  λ pair _ e5.
                    bind_cases (init_alice c pair.1 p.x25519 d.ratchet d.started_at) _ e5
                      λ s started e6.
                        bind_cases (both (encrypt_message c d.first first [] s)) _ e6 λ out sent e7.
                          let plain =
                            plain_header c pair.1 p.x25519 d.ratchet d.started_at d.first first [] s
                              out.0 out.1.0 out.1.1 started
                              (both-eq-ok c (encrypt_message c d.first first [] s) out.0 out.1
                                sent) in
                          let header : out.1.0 ≡ msg.header =
                            ap (λ z. z.2) (ok-injective _ _ e7)
                            ∙ ap (λ (z : State c × InitialMessage c). z.1.header)
                                (ok-injective _ _ e2) in
                          subst (λ h. (h.mlkem_pub ≡ none) × (h.mlkem_ciphertext ≡ none)) header
                            plain

  -- The envelope of a first message is read back as it was.
  first_envelope :
      DhLaws c
      → DsaKeyLaws c
      → (id : KeyPair c) (responder : Identity.PublicKey c) (bu : Bundle) (first : Bytes)
        (d : Setup c) (a : State c) (msg : InitialMessage c) (i : ℕ) (envelope : Bytes)
      → establish_as_initiator c id responder bu first d ≡ ok (a, msg)
      → Sendable c msg i
      → initial_envelope c msg ≡ ok envelope
      → unmarshal_envelope c envelope ≡ ok (inl msg)
  first_envelope dhs keys id responder bu first d a msg i envelope e fits written =
      let (no_pub, no_ct) = initiator-Plain id responder bu first d a msg e in
      unmarshal_envelope-initial c dhs keys msg i envelope fits written
      ∙ ap (λ h. ok (inl (record msg { header = h }))) (normal_plain msg.header no_pub no_ct)

  -- A first message to a user who is offline. Let Alice establish a session to a bundle whose private
  -- key Bob has, and send the envelope of her first message to Bob, whose queue is empty and whose
  -- identity is on file. Then, whatever calls follow that do not purge and do not poll for Bob, his
  -- poll delivers her envelope first, under her name and with the time at which it was sent; it is read
  -- back as exactly the message that she built; his establishment accepts that message and returns
  -- what she wrote; and the two are in a conversation. The message's parts
  -- have the sizes that the wire form allows. The laws are those of X25519, ML-KEM-768, the AEAD and
  -- of ML-DSA-65 keys.
  pub offline_delivery :
      AeadLaws c
      → DhLaws c
      → KemLaws c
      → DsaKeyLaws c
      → (s : Server c) (ops : List (Op c)) (alice bob : Bytes) (sent_at now : ℕ)
        (id responder : KeyPair c) (bu : Bundle) (private : PrivateKey c) (first : Bytes)
        (d : Setup c) (a : State c) (msg : InitialMessage c) (i : ℕ) (envelope : Bytes)
      → IsKnown c s bob
      → queue_of c s bob ≡ []
      → Waits c bob ops
      → KemHybrid.marshal c (KemHybrid.public c private) ≡ ok bu.public_key
      → establish_as_initiator c id (Identity.public c responder) bu first d ≡ ok (a, msg)
      → Sendable c msg i
      → initial_envelope c msg ≡ ok envelope
      → (m : QueuedMessage) × (later : List QueuedMessage) × (b : State c) × ((poll_messages c
            (run c (send_message c s bob alice envelope sent_at).0 ops)
            bob).1
          ≡ m ∷ later)
        × (m.from ≡ alice)
        × (m.envelope ≡ envelope)
        × (m.queued_at ≡ sent_at)
        × (unmarshal_envelope c m.envelope ≡ ok (inl msg))
        × (establish_as_responder c responder bu private msg now ≡ ok (b, first))
        × Conversation c a b [] []
  offline_delivery aead dhs kems keys s ops alice bob sent_at now id responder bu private first d a
        msg i envelope known empty waits packed began fits written =
      let s1 = (send_message c s bob alice envelope sent_at).0 in
      let (polled, _) =
        poll_delivers c s1 ops bob (send-IsKnown c s bob alice envelope bob sent_at known) waits in
      let queued : queue_of c s1 bob ≡ message_of c alice envelope sent_at ∷ [] =
        queue_of-send_self c s bob alice envelope sent_at known
        ∙ ap (λ q. q ++ message_of c alice envelope sent_at ∷ []) empty in
      let (b, _, accepted, _, talk) =
        responder-initiator c aead dhs kems id responder bu private first d now a msg packed
          began in
      (
        message_of c alice envelope sent_at,
        sent_to c bob ops,
        b,
        polled ∙ ap (λ q. q ++ sent_to c bob ops) queued,
        refl,
        refl,
        refl,
        first_envelope dhs keys id (Identity.public c responder) bu first d a msg i envelope began
            fits written,
        accepted,
        talk,
      )
