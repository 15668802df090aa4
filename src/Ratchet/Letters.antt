-- ===== src/Ratchet/Letters.antt =====
-- Two parties that take turns on the ratchet, from the first message on, while messages of both are on
-- the way and arrive in any order.
use pqc_chat.Common.{ℕ, ◌+◌, ◌^◌, ◌<◌, ◌≡◌, subst, sym, ap, List, [], ◌∷◌, Bytes, All}
use pqc_chat.Result.{ok}
use pqc_chat.Crypto.{Crypto, AeadLaws, DhLaws, KemLaws}
use pqc_chat.Ratchet.Header.{Header}
use pqc_chat.Ratchet.State.{State, max_skip, init_alice, init_bob}
use pqc_chat.Ratchet.Sending.{Draws, encrypt_message}
use pqc_chat.Ratchet.Receiving.{decrypt_message}
use pqc_chat.Ratchet.Linked.{speaks}
use pqc_chat.Ratchet.Reordered.{encrypt-Sent}
use pqc_chat.Ratchet.Turn.{Unseen, answers}
use pqc_chat.Ratchet.FirstContact.{begins, no_keys_begun}
use pqc_chat.Ratchet.Late.{Parcel, Waits}
use pqc_chat.Ratchet.Post.{Pick, Pick-Distinct, Caught, catches}
use pqc_chat.Ratchet.Held.{
  Held, Linked-Clean, Linked-Behind, listener-Linked, speaker-Linked, spoken-Held, answered-Held,
}
use pqc_chat.Ratchet.Underway.{lost-Held}

module _ (c : Crypto) where
  -- The state of its receiver after a parcel has arrived.
  abbrev pub after : Parcel c → State c → State c
  after p s = (decrypt_message c p.header p.ciphertext p.ad s).0

  -- The states that two parties reach, of which the first spoke last, with the messages that are on
  -- the way to the second and to the first: `InitAlice` and `InitBob` on one session key, and her
  -- first message; then the same party may speak on, and the other may answer with a fresh ratchet
  -- key. Each message arrives at once or is on the way; one that is on the way may arrive after later
  -- ones, after answers, or never. Whatever `DecryptMessage` returns, the step keeps the state that it
  -- leaves.
  pub data Conversation : State c → State c → List (Parcel c) → List (Parcel c) → Type 0 where
    begun :
        (key : Bytes) (bob : c.DhPrivate) (e : c.Entropy) (now now' : ℕ) (d : Draws c)
        (plaintext ad : Bytes) (s a : State c) (hdr : Header) (ct : Bytes)
        → init_alice c key (c.dh_public bob) e now ≡ ok s
        → encrypt_message c d plaintext ad s ≡ (a, ok (hdr, ct))
        → Conversation a (decrypt_message c hdr ct ad (init_bob c key bob now')).0 [] []
    spoken :
        (x y : State c) (ps qs : List (Parcel c)) (d : Draws c) (plaintext ad : Bytes)
        (x' : State c) (hdr : Header) (ct : Bytes)
        → Conversation x y ps qs
        → x.n_send + 1 < 2 ^ 32
        → encrypt_message c d plaintext ad x ≡ (x', ok (hdr, ct))
        → Conversation x' (decrypt_message c hdr ct ad y).0 ps qs
    posted :
        (x y : State c) (ps qs : List (Parcel c)) (d : Draws c) (x' : State c) (p : Parcel c)
        → Conversation x y ps qs
        → x.n_send + 1 < 2 ^ 32
        → x.n_send < y.n_recv + max_skip
        → encrypt_message c d p.plaintext p.ad x ≡ (x', ok (p.header, p.ciphertext))
        → Conversation x' y (p ∷ ps) qs
    answered :
        (x y : State c) (ps qs : List (Parcel c)) (d : Draws c) (plaintext ad : Bytes)
        (y' : State c) (hdr : Header) (ct : Bytes)
        → Conversation x y ps qs
        → encrypt_message c d plaintext ad y ≡ (y', ok (hdr, ct))
        → Unseen c x hdr.dh_pub
        → Conversation y' (decrypt_message c hdr ct ad x).0 qs ps
    arrived :
        (x y : State c) (ps qs rest : List (Parcel c)) (p : Parcel c)
        → Conversation x y ps qs
        → Pick c p ps rest
        → Conversation x (after p y) rest qs
    arrived_back :
        (x y : State c) (ps qs rest : List (Parcel c)) (q : Parcel c)
        → Conversation x y ps qs
        → Pick c q qs rest
        → Conversation (after q x) y ps rest

  pub listens :
      AeadLaws c
      → (x y : State c) (ps qs rest : List (Parcel c)) (p : Parcel c) → Held c x y ps qs
      → Pick c p ps rest
      → Caught c y x.n_send p rest
  listens aead x y ps qs rest p h pick =
      catches c aead y x.n_send (Linked-Clean c x y h.key h.chain h.gap h.link)
        (Linked-Behind c x y h.key h.chain h.gap h.link) h.distinct h.to_listener pick

  pub heard :
      AeadLaws c
      → (x y : State c) (ps qs rest : List (Parcel c)) (q : Parcel c) → Held c x y ps qs
      → Pick c q qs rest
      → Caught c x y.n_send q rest
  heard aead x y ps qs rest q h pick =
      catches c aead x y.n_send h.clean h.link.behind h.apart h.to_speaker pick

  arrived-Held :
      AeadLaws c
      → (x y : State c) (ps qs rest : List (Parcel c)) (p : Parcel c) → Held c x y ps qs
      → Pick c p ps rest
      → Held c x (after p y) rest qs
  arrived-Held aead x y ps qs rest p h pick =
      let g = listens aead x y ps qs rest p h pick in
      let (chain, gap, link) = listener-Linked c x y h.key h.chain h.gap p rest h.link g in
      subst (λ s. Held c x s rest qs) (sym (ap (λ r. r.0) g.opened))
        (record {
          key = h.key;
          chain = chain;
          gap = gap;
          link = link;
          clean = h.clean;
          to_listener = g.waits;
          to_speaker =
              subst (λ n. All (Waits c x n) qs) (sym (ap (λ s. s.n_send) g.same)) h.to_speaker;
          distinct = (Pick-Distinct c pick h.distinct).1;
          apart = h.apart;
        })

  arrived_back-Held :
      AeadLaws c
      → (x y : State c) (ps qs rest : List (Parcel c)) (q : Parcel c) → Held c x y ps qs
      → Pick c q qs rest
      → Held c (after q x) y ps rest
  arrived_back-Held aead x y ps qs rest q h pick =
      let g = heard aead x y ps qs rest q h pick in
      subst (λ s. Held c s y ps rest) (sym (ap (λ r. r.0) g.opened))
        (record {
          key = h.key;
          chain = h.chain;
          gap = h.gap;
          link = speaker-Linked c x y h.key h.chain h.gap q rest h.link g;
          clean = g.clean;
          to_listener =
              subst (λ n. All (Waits c y n) ps) (sym (ap (λ s. s.n_send) g.same)) h.to_listener;
          to_speaker = g.waits;
          distinct = h.distinct;
          apart = (Pick-Distinct c pick h.apart).1;
        })

  pub Conversation-Held :
      AeadLaws c
      → DhLaws c
      → KemLaws c
      → {x y : State c} {ps qs : List (Parcel c)} → Conversation x y ps qs
      → Held c x y ps qs
  Conversation-Held aead dhs kems (begun key bob e now now' d plaintext ad s a hdr ct began sent) =
      let (b, self, chain, opened, l) =
        begins c aead dhs key bob e now now' d plaintext ad s a hdr ct began sent in
      subst (λ s. Held c a s [] []) (sym (ap (λ q. q.0) opened))
        (record {
          key = self;
          chain = chain;
          gap = 0;
          link = l;
          clean = λ r _ n _.
              no_keys_begun c key (c.dh_public bob) e now d plaintext ad s a hdr ct began sent
                (c.dh_bytes r, n);
          to_listener = tt;
          to_speaker = tt;
          distinct = tt;
          apart = tt;
        })
  Conversation-Held aead dhs kems (spoken x y ps qs d plaintext ad x' hdr ct so_far small said) =
      let h = Conversation-Held aead dhs kems so_far in
      let (s, opened, kept, m) =
        speaks c aead x y h.key h.chain h.gap d plaintext ad x' hdr ct h.link small said in
      let sent =
        encrypt-Sent c d plaintext ad x x' h.key hdr ct h.link.follows.own h.link.follows.turn
          said in
      subst (λ s. Held c x' s ps qs) (sym (ap (λ q. q.0) opened))
        (spoken-Held c x y x' s ps qs h sent.after kept m)
  Conversation-Held aead dhs kems (posted x y ps qs d x' p so_far small few said) =
      lost-Held c x y x' d p ps qs (Conversation-Held aead dhs kems so_far) small few said
  Conversation-Held aead dhs kems (answered x y ps qs d plaintext ad y' hdr ct so_far said unseen) =
      let h = Conversation-Held aead dhs kems so_far in
      let (x', key, chain, opened, m, a) =
        answers c aead dhs kems x y h.key h.chain h.gap d plaintext ad y' hdr ct h.link unseen
          said in
      subst (λ s. Held c y' s qs ps) (sym (ap (λ q. q.0) opened))
        (answered-Held c x y x' y' key chain ps qs h m a)
  Conversation-Held aead dhs kems (arrived x y ps qs rest p so_far pick) =
      arrived-Held aead x y ps qs rest p (Conversation-Held aead dhs kems so_far) pick
  Conversation-Held aead dhs kems (arrived_back x y ps qs rest q so_far pick) =
      arrived_back-Held aead x y ps qs rest q (Conversation-Held aead dhs kems so_far) pick
