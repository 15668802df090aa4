-- ===== src/Ratchet/Conversation.antt =====
-- What two parties that take turns can rely on.
use pqc_chat.Common.{true, none, ◌+◌, ◌^◌, ◌<◌, ◌≡◌, List, ap, Bytes, All}
use pqc_chat.Result.{ok}
use pqc_chat.Crypto.{Crypto, AeadLaws, DhLaws, KemLaws}
use pqc_chat.Ratchet.Header.{Header}
use pqc_chat.Ratchet.State.{State}
use pqc_chat.Ratchet.Sending.{Draws, encrypt_message}
use pqc_chat.Ratchet.Receiving.{decrypt_message}
use pqc_chat.Ratchet.Linked.{speaks}
use pqc_chat.Ratchet.Entering.{publics}
use pqc_chat.Ratchet.Turn.{Unseen, answers}
use pqc_chat.Ratchet.Late.{Parcel}
use pqc_chat.Ratchet.Post.{each}
use pqc_chat.Ratchet.Letters.{Conversation, Conversation-Held, listens, heard}

module _ (c : Crypto) where
  -- However long two parties have taken turns, under the laws of X25519, ML-KEM-768 and the AEAD: each
  -- message that is on the way to either party is decrypted to what was sent, whichever of them
  -- arrives next, also after later messages of its chain and after answers on both sides. Before each
  -- step of the conversation that left a message on the way, its receiver had missed fewer than 1000
  -- messages of the chain, which stays below 2 ^ 32; each answer's ratchet key was one of which its
  -- receiver had seen nothing.
  pub any_order :
      AeadLaws c
      → DhLaws c
      → KemLaws c
      → (x y : State c) (ps qs : List (Parcel c)) → Conversation c x y ps qs
      → All (λ p. (decrypt_message c p.header p.ciphertext p.ad y).1 ≡ ok p.plaintext) ps
        × All (λ q. (decrypt_message c q.header q.ciphertext q.ad x).1 ≡ ok q.plaintext) qs
  any_order aead dhs kems x y ps qs so_far =
      let h = Conversation-Held c aead dhs kems so_far in
      (
        each c (λ p. (decrypt_message c p.header p.ciphertext p.ad y).1 ≡ ok p.plaintext) ps
            (λ p rest pick. ap (λ r. r.1) (listens c aead x y ps qs rest p h pick).opened),
        each c (λ q. (decrypt_message c q.header q.ciphertext q.ad x).1 ≡ ok q.plaintext) qs
            (λ q rest pick. ap (λ r. r.1) (heard c aead x y ps qs rest q h pick).opened),
      )

  -- However long two parties have taken turns, with messages of both on the way or lost, under the
  -- laws of X25519, ML-KEM-768 and the AEAD: the next message of the party that spoke last is
  -- decrypted. It is one of fewer than 2 ^ 32 on its chain. Before each step of the conversation that
  -- left a message on the way, its receiver had missed fewer than 1000; each answer's ratchet key was
  -- one of which its receiver had seen nothing.
  pub next_message :
      AeadLaws c
      → DhLaws c
      → KemLaws c
      → (x y : State c) (ps qs : List (Parcel c)) (d : Draws c) (plaintext ad : Bytes)
        (x' : State c) (hdr : Header) (ct : Bytes)
      → Conversation c x y ps qs
      → x.n_send + 1 < 2 ^ 32
      → encrypt_message c d plaintext ad x ≡ (x', ok (hdr, ct))
      → (decrypt_message c hdr ct ad y).1 ≡ ok plaintext
  next_message aead dhs kems x y ps qs d plaintext ad x' hdr ct so_far small sent =
      let h = Conversation-Held c aead dhs kems so_far in
      let (_, opened, _, _) =
        speaks c aead x y h.key h.chain h.gap d plaintext ad x' hdr ct h.link small sent in
      ap (λ q. q.1) opened

  -- However long two parties have taken turns, with messages of both on the way or lost, under the
  -- laws of X25519, ML-KEM-768 and the AEAD: the answer of the party that did not speak last is
  -- decrypted, through a DH ratchet step on each side and the injected secret that is pending. The
  -- answer's ratchet key is one of which the receiver has seen nothing, as was each answer's before;
  -- before each step that left a message on the way, its receiver had missed fewer than 1000.
  pub next_answer :
      AeadLaws c
      → DhLaws c
      → KemLaws c
      → (x y : State c) (ps qs : List (Parcel c)) (d : Draws c) (plaintext ad : Bytes)
        (y' : State c) (hdr : Header) (ct : Bytes)
      → Conversation c x y ps qs
      → Unseen c x hdr.dh_pub
      → encrypt_message c d plaintext ad y ≡ (y', ok (hdr, ct))
      → (decrypt_message c hdr ct ad x).1 ≡ ok plaintext
  next_answer aead dhs kems x y ps qs d plaintext ad y' hdr ct so_far unseen sent =
      let h = Conversation-Held c aead dhs kems so_far in
      let (x', key, chain, opened, _, _) =
        answers c aead dhs kems x y h.key h.chain h.gap d plaintext ad y' hdr ct h.link unseen
          sent in
      ap (λ q. q.1) opened

  -- Under the same laws, whenever it is the other party's turn, with messages of both on the way or
  -- lost: both have one root key, the party that may answer knows it and has no injection pending, and
  -- the key that it has to answer is the public part of the one whose private part the other keeps.
  pub shared_root :
      AeadLaws c
      → DhLaws c
      → KemLaws c
      → (x y : State c) (ps qs : List (Parcel c)) → Conversation c x y ps qs
      → (x.root_key ≡ y.root_key)
        × (y.needs_new_sending_chain ≡ true)
        × (y.self_pending_kem_priv ≡ none)
        × (x.peer_advertised_kem_pub ≡ none)
        × (y.peer_advertised_kem_pub ≡ publics c x.self_pending_kem_priv)
  shared_root aead dhs kems x y ps qs so_far =
      let l = (Conversation-Held c aead dhs kems so_far).link in
      (l.root, l.ready, l.idle, l.clear, l.pending)
