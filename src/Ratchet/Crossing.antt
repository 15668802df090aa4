-- ===== src/Ratchet/Crossing.antt =====
-- A message and an answer that cross on the way.
use pqc_chat.Common.{◌+◌, ◌^◌, ◌<◌, ◌≡◌, sym, ap, ◌∙◌, subst, List, Bytes}
use pqc_chat.Common.Map.{lookup}
use pqc_chat.Result.{Result, ok}
use pqc_chat.Crypto.{Crypto, AeadLaws, DhLaws, KemLaws}
use pqc_chat.Ratchet.Header.{Header}
use pqc_chat.Ratchet.State.{State, SkippedKey_discrete}
use pqc_chat.Ratchet.Sending.{Draws, encrypt_message}
use pqc_chat.Ratchet.Receiving.{decrypt_message, advance_receiving}
use pqc_chat.Ratchet.Reordered.{encrypt-Sent}
use pqc_chat.Ratchet.Linked.{speaks}
use pqc_chat.Ratchet.Turn.{Unseen, answers}
use pqc_chat.Ratchet.Late.{Parcel}
use pqc_chat.Ratchet.Letters.{Conversation, Conversation-Held, spoken, answered}
use pqc_chat.Ratchet.Conversation.{next_answer}
use pqc_chat.Ratchet.Beside.{encrypt_message-moved}
use pqc_chat.Ratchet.Alongside.{beside, decrypt_message-beside}

module _ (c : Crypto) where
  -- What `EncryptMessage` returns for the receiving chain of another state.
  encrypt-beside :
      (d : Draws c) (plaintext ad : Bytes) (y y' t : State c) (r : Result (Header × Bytes))
      → encrypt_message c d plaintext ad y ≡ (y', r)
      → encrypt_message c d plaintext ad (beside c y t) ≡ (beside c y' t, r)
  encrypt-beside d plaintext ad y y' t r e =
      encrypt_message-moved c t.chain_recv t.n_recv t.skipped d plaintext ad y
      ∙ ap (λ q. (beside c q.0 t, q.1)) e

  -- In any conversation, under the laws of X25519, ML-KEM-768 and the AEAD: the party that spoke last
  -- sends one more message while the other's answer is on the way, and the two cross. Both are
  -- decrypted to what was sent, and the parties go on as in a conversation in which the message arrived
  -- before the answer was sent. The message is one of fewer than 2 ^ 32 on its chain, and the answer's
  -- ratchet key is one of which its receiver had seen nothing.
  pub crossing :
      AeadLaws c
      → DhLaws c
      → KemLaws c
      → (x y : State c) (ps qs : List (Parcel c)) (d d' : Draws c) (message ad answer ad' : Bytes)
        (x' y' : State c) (hdr hdr' : Header) (ct ct' : Bytes)
      → Conversation c x y ps qs
      → x.n_send + 1 < 2 ^ 32
      → encrypt_message c d message ad x ≡ (x', ok (hdr, ct))
      → encrypt_message c d' answer ad' y ≡ (y', ok (hdr', ct'))
      → Unseen c x hdr'.dh_pub
      → ((decrypt_message c hdr ct ad y').1 ≡ ok message)
        × ((decrypt_message c hdr' ct' ad' x').1 ≡ ok answer)
        × Conversation c
            (decrypt_message c hdr ct ad y').0
            (decrypt_message c hdr' ct' ad' x').0
            qs
            ps
  crossing aead dhs kems x y ps qs d d' message ad answer ad' x' y' hdr hdr' ct ct' so_far small e
        e' unseen =
      let h = Conversation-Held c aead dhs kems so_far in
      let sent =
        encrypt-Sent c d message ad x x' h.key hdr ct h.link.follows.own h.link.follows.turn e in
      let (s, opened, kept, _) =
        speaks c aead x y h.key h.chain h.gap d message ad x' hdr ct h.link small e in
      let (_, _, _, _, _, a) =
        answers c aead dhs kems x y h.key h.chain h.gap d' answer ad' y' hdr' ct' h.link unseen
          e' in
      let y1 = advance_receiving c s in
      let met = spoken x y ps qs d message ad x' hdr ct so_far small e in
      let same : (decrypt_message c hdr ct ad y).0 ≡ beside c y y1 =
        ap (λ q. q.0) opened ∙ ap (advance_receiving c) kept.rest in
      let said : encrypt_message c d' answer ad' (decrypt_message c hdr ct ad y).0
          ≡ (beside c y' y1, ok (hdr', ct')) =
        ap (encrypt_message c d' answer ad') same
        ∙ encrypt-beside d' answer ad' y y' y1 (ok (hdr', ct')) e' in
      let still : Unseen c x' hdr'.dh_pub = record {
        other = λ p known. unseen.other p (sym (ap (λ t. t.dh_remote) sent.after) ∙ known);
        unstored = λ n.
            ap (λ t. lookup SkippedKey_discrete (hdr'.dh_pub, n) t.skipped) sent.after
            ∙ unseen.unstored n;
      } in
      let own : y' ≡ beside c y' y =
        ap (λ q. q.0) (sym e' ∙ encrypt-beside d' answer ad' y y' y (ok (hdr', ct')) e') in
      let crossed : decrypt_message c hdr ct ad y' ≡ (beside c y' y1, ok message) =
        ap (decrypt_message c hdr ct ad) own
        ∙ decrypt_message-beside c y' (c.dh_public h.key) hdr ct ad y
            (a.remote ∙ h.link.follows.remote) h.link.follows.remote
            (ap (λ u. u.dh_pub) sent.header)
        ∙ ap (λ q. (beside c y' q.0, q.1)) opened in
      let after =
        answered x' (decrypt_message c hdr ct ad y).0 ps qs d' answer ad' (beside c y' y1) hdr' ct'
          met said still in
      (
        ap (λ q. q.1) crossed,
        next_answer c aead dhs kems x' (decrypt_message c hdr ct ad y).0 ps qs d' answer ad'
            (beside c y' y1) hdr' ct' met still said,
        subst (λ t. Conversation c t (decrypt_message c hdr' ct' ad' x').0 qs ps)
            (sym (ap (λ q. q.0) crossed)) after,
      )
