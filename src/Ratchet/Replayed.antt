-- ===== src/Ratchet/Replayed.antt =====
-- A message that arrives a second time.
use native.Mathlib.Nat.{mod-eq_of_lt}
use pqc_chat.Common.{◌+◌, ◌^◌, ◌<◌, ◌≡◌, sym, ap, ◌∙◌, List, some, Bytes, arith}
use pqc_chat.Common.Map.{lookup}
use pqc_chat.Result.{ok}
use pqc_chat.Crypto.{Crypto, AeadLaws, DhLaws, KemLaws}
use pqc_chat.Ratchet.Header.{Header, contents}
use pqc_chat.Ratchet.Kdf.{message_key, next_chain_key, aead_seal, aead_open}
use pqc_chat.Ratchet.State.{State, SkippedKey_discrete, increment}
use pqc_chat.Ratchet.Sending.{Draws, associated_data_with_header, encrypt_message}
use pqc_chat.Ratchet.Receiving.{decrypt_message, advance_receiving}
use pqc_chat.Ratchet.Reordered.{encrypt-Sent}
use pqc_chat.Ratchet.Linked.{speaks, past}
use pqc_chat.Ratchet.Late.{Parcel}
use pqc_chat.Ratchet.Letters.{Conversation, Conversation-Held}
use pqc_chat.Ratchet.Misuse.{decrypt_message-seen}

module _ (c : Crypto) where
  -- In any conversation, under the laws of X25519, ML-KEM-768 and the AEAD: a message of the party that
  -- spoke last is decrypted, and then the header of that message arrives again, with any ciphertext
  -- and associated data, the same ones included. It is not told apart as a duplicate, and the receiver loses step: its
  -- receiving chain stands one key and one number beyond the sender's chain. The next message that the
  -- sender encrypts is sealed under the key of the sender's chain, but the receiver opens it with the
  -- key after that one. All numbers of the chain are below 2 ^ 32.
  pub replayed :
      AeadLaws c
      → DhLaws c
      → KemLaws c
      → (x y : State c) (ps qs : List (Parcel c)) (d d' : Draws c) (first second ad ad' : Bytes)
        (x1 x2 : State c) (hdr hdr' : Header) (ct ct' junk extra : Bytes)
      → Conversation c x y ps qs
      → x.n_send + 2 < 2 ^ 32
      → encrypt_message c d first ad x ≡ (x1, ok (hdr, ct))
      → encrypt_message c d' second ad' x1 ≡ (x2, ok (hdr', ct'))
      → ((decrypt_message c hdr ct ad y).1 ≡ ok first)
        × ((decrypt_message c hdr junk extra (decrypt_message c hdr ct ad y).0).0.chain_recv
            ≡ some (next_chain_key c x1.chain_send))
        × ((decrypt_message c hdr junk extra (decrypt_message c hdr ct ad y).0).0.n_recv
            ≡ x1.n_send + 1)
        × (aead_seal c (message_key c x1.chain_send) second (associated_data_with_header hdr' ad')
            ≡ ok ct')
        × ((decrypt_message c hdr' ct' ad'
              (decrypt_message c hdr junk extra (decrypt_message c hdr ct ad y).0).0).1
            ≡ aead_open c
                (message_key c (next_chain_key c x1.chain_send))
                ct'
                (associated_data_with_header hdr' ad'))
  replayed aead dhs kems x y ps qs d d' first second ad ad' x1 x2 hdr hdr' ct ct' junk extra so_far
        small e e' =
      let h = Conversation-Held c aead dhs kems so_far in
      let l = h.link in
      let sent = encrypt-Sent c d first ad x x1 h.key hdr ct l.follows.own l.follows.turn e in
      let (s, opened, kept, m) =
        speaks c aead x y h.key h.chain h.gap d first ad x1 hdr ct l (omega arith) e in
      let sent' =
        encrypt-Sent c d' second ad' x1 x2 h.key hdr' ct' m.follows.own m.follows.turn e' in
      let y1 = advance_receiving c s in
      let y2 = advance_receiving c y1 in
      let number : x1.n_send ≡ x.n_send + 1 =
        ap (λ t. t.n_send) sent.after ∙ mod-eq_of_lt (omega arith) in
      let met : x1.n_send ≡ y1.n_recv = m.follows.number ∙ omega arith in
      let next : increment y1.n_recv ≡ y1.n_recv + 1 = mod-eq_of_lt (omega (arith, met, number)) in
      let chain : y1.chain_recv ≡ some x1.chain_send =
        m.follows.receiving ∙ ap some (sym m.follows.sending) in
      let same : (decrypt_message c hdr ct ad y).0 ≡ y1 = ap (λ q. q.0) opened in
      let again =
        decrypt_message-seen c y1 (c.dh_public h.key) hdr junk extra m.follows.remote
          (ap (λ u. u.dh_pub) sent.header) (omega (arith, ap (λ u. u.n) sent.header, number, met))
          (ap (λ u. lookup SkippedKey_discrete (u.dh_pub, u.n) s.skipped) sent.header
            ∙ past c y s h.key h.chain h.gap x.n_send kept (omega (arith, l.follows.number))
            ∙ l.fresh x.n_send (omega (arith, l.follows.number))) in
      let twice : (decrypt_message c hdr junk extra (decrypt_message c hdr ct ad y).0).0 ≡ y2 =
        ap (λ t. (decrypt_message c hdr junk extra t).0) same ∙ ap (λ q. q.0) again in
      let after =
        decrypt_message-seen c y2 (c.dh_public h.key) hdr' ct' ad' m.follows.remote
          (ap (λ u. u.dh_pub) sent'.header) (omega (arith, ap (λ u. u.n) sent'.header, next, met))
          (ap (λ u. lookup SkippedKey_discrete (u.dh_pub, u.n) s.skipped) sent'.header
            ∙ m.fresh x1.n_send (omega (arith, met))) in
      let key : y2.chain_recv ≡ some (next_chain_key c x1.chain_send) =
        ap (λ o. some (next_chain_key c (contents o))) chain in
      (
        ap (λ q. q.1) opened,
        ap (λ t. t.chain_recv) twice ∙ key,
        ap (λ t. t.n_recv) twice ∙ omega (arith, next, met),
        sent'.sealed,
        ap (λ t. (decrypt_message c hdr' ct' ad' t).1) twice
            ∙ ap (λ q. q.1) after
            ∙ ap
                (λ o.
                  aead_open c (message_key c (contents o)) ct'
                    (associated_data_with_header hdr' ad'))
                key,
      )
