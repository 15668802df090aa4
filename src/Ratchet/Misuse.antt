-- ===== src/Ratchet/Misuse.antt =====
-- What the ratchet does with a message that it has seen, and with a reply before the first message.
use pqc_chat.Common.{
  ◌≢◌, length, bytes_equal_ne, if◌then◌else◌, ℕ, ◌<◌, ◌≡◌, refl, ap, ◌∙◌, [], ◌∷◌, Option, none,
  some, Bytes, lt→ltb,
}
use pqc_chat.Common.Map.{lookup}
use pqc_chat.Result.{ok, panic}
use pqc_chat.Crypto.{Crypto, AeadLaws, KemLaws}
use pqc_chat.Ratchet.Header.{Header}
use pqc_chat.Ratchet.Kdf.{aead_open}
use pqc_chat.Ratchet.State.{State, SkippedKey_discrete, init_bob}
use pqc_chat.Ratchet.Sending.{Draws, associated_data_with_header, encrypt_message}
use pqc_chat.Ratchet.Receiving.{
  advance_receiving, receiving_key, skip_to, skip_on, skip_message_keys, dh_ratchet_step,
  consume_ciphertext, consume_with, enter_chain, receive, decrypt_with, decrypt_message,
}
use pqc_chat.Ratchet.Calls.{after_entry, take-none, same_chain, receive-eq, open-seal}
use pqc_chat.Ratchet.Action.{Action, continue, lift}
use pqc_chat.Ratchet.Entering.{Behind, skip_message_keys-Passed}
use pqc_chat.Ratchet.Reordered.{encrypt-Sent}

module _ (c : Crypto) where
  skip_on-behind :
      (chain : Option Bytes) (n : ℕ) (s : State c) → n < s.n_recv → skip_on c chain n s ≡ (s, ok tt)
  unfolding skip_on skip_to
  skip_on-behind none n s h = refl
  skip_on-behind (some ck) n s h = rw (lt→ltb n s.n_recv h) refl

  -- A message of the current chain that was received before, so that no key is stored for it, moves
  -- the receiving chain one step on, whatever its ciphertext is: its number is compared with none, and
  -- the state is changed before the ciphertext is checked. It is opened with the key of the message
  -- that is to come next.
  pub decrypt_message-seen :
      (s : State c) (p : c.DhPublic) (hdr : Header) (ct ad : Bytes)
      → s.dh_remote ≡ some p
      → hdr.dh_pub ≡ c.dh_bytes p
      → hdr.n < s.n_recv
      → lookup SkippedKey_discrete (hdr.dh_pub, hdr.n) s.skipped ≡ none
      → decrypt_message c hdr ct ad s ≡ (
        advance_receiving c s,
        aead_open c (receiving_key c s) ct (associated_data_with_header hdr ad),
      )
  unfolding decrypt_message decrypt_with skip_message_keys
  decrypt_message-seen s p hdr ct ad remote key seen missing =
      ap (decrypt_with c hdr ct ad) (take-none c hdr s missing)
      ∙ receive-eq c hdr ct ad s s (same_chain c hdr s p remote key)
          (skip_on-behind s.chain_recv hdr.n s seen)

  -- Under the law of the AEAD: a responder that sends before it has received anything seals under
  -- the key that HMAC-SHA256 of the byte 1 has for an empty key. Whoever holds the header and the
  -- ciphertext opens it, without the session key.
  pub reply_unkeyed :
      AeadLaws c
      → (key : Bytes) (bob : c.DhPrivate) (now : ℕ) (d : Draws c) (plaintext ad : Bytes)
        (b : State c) (hdr : Header) (ct : Bytes)
      → encrypt_message c d plaintext ad (init_bob c key bob now) ≡ (b, ok (hdr, ct))
      → aead_open c (c.hmac_sha256 [] (0x01 ∷ [])) ct (associated_data_with_header hdr ad)
        ≡ ok plaintext
  unfolding init_bob
  reply_unkeyed laws key bob now d plaintext ad b hdr ct e =
      open-seal c laws (c.hmac_sha256 [] (0x01 ∷ [])) plaintext (associated_data_with_header hdr ad)
        ct (encrypt-Sent c d plaintext ad (init_bob c key bob now) b bob hdr ct refl refl e).sealed

  -- A ciphertext of the wrong size, for a private key that is pending.
  step-panics :
      KemLaws c
      → (s : State c) (remote : c.DhPublic) (hdr : Header) (k : c.KemPrivate) (kem_ct : Bytes)
      → c.dh_parse hdr.dh_pub ≡ ok remote
      → s.self_pending_kem_priv ≡ some k
      → hdr.mlkem_ciphertext ≡ some kem_ct
      → length kem_ct ≢ c.kem_ciphertext_size
      → dh_ratchet_step c hdr s ≡ (s, panic)
  unfolding dh_ratchet_step consume_ciphertext consume_with
  step-panics laws s remote hdr k kem_ct parsed pending carried size =
      let consumed : consume_ciphertext c hdr.mlkem_ciphertext s ≡ (s, panic) =
        ap (λ o. consume_ciphertext c o s) carried
        ∙ ap (λ o. consume_with c kem_ct o s) pending
        ∙ rw (laws.kem_bad_size k kem_ct size) refl in
      rw parsed (rw consumed refl)

  -- A party that has an injection pending crashes on any message with a new ratchet key and an ML-KEM
  -- ciphertext that has not the size of one: `DecryptMessage` panics before it has authenticated
  -- anything, whatever the ciphertext of the message is. No key is stored for the message, the old
  -- receiving chain can be brought to the number that the header gives, and the ratchet key is one.
  pub decrypt_message-panics :
      KemLaws c
      → (s : State c) (old remote : c.DhPublic) (hdr : Header) (k : c.KemPrivate)
        (kem_ct ct ad : Bytes)
      → s.dh_remote ≡ some old
      → hdr.dh_pub ≢ c.dh_bytes old
      → Behind c s hdr.pn
      → c.dh_parse hdr.dh_pub ≡ ok remote
      → s.self_pending_kem_priv ≡ some k
      → hdr.mlkem_ciphertext ≡ some kem_ct
      → length kem_ct ≢ c.kem_ciphertext_size
      → lookup SkippedKey_discrete (hdr.dh_pub, hdr.n) s.skipped ≡ none
      → (decrypt_message c hdr ct ad s).1 ≡ panic
  unfolding decrypt_message decrypt_with receive enter_chain
  decrypt_message-panics laws s old remote hdr k kem_ct ct ad known new behind parsed pending
        carried size missing =
      let (s', skipped, passed) = skip_message_keys-Passed c s old hdr.pn behind known in
      let crash =
        step-panics laws s' remote hdr k kem_ct parsed
          (ap (λ u. u.self_pending_kem_priv) passed.rest ∙ pending) carried size in
      let entry : enter_chain c hdr s.dh_remote s ≡ (s', panic) =
        ap (λ o. enter_chain c hdr o s) known
        ∙ ap (λ t. (if t then lift c (ok tt) else other) s)
            (bytes_equal_ne hdr.dh_pub (c.dh_bytes old) new)
        ∙ ap (λ r. continue c r (λ _. dh_ratchet_step c hdr)) skipped
        ∙ crash in
      ap (λ r. r.1)
        (ap (decrypt_with c hdr ct ad) (take-none c hdr s missing)
          ∙ ap (λ r. continue c r (λ _. after_entry c hdr ct ad)) entry)
    where
      other : Action c (Unit {0})
      other u = continue c (skip_message_keys c hdr.pn u) (λ _. dh_ratchet_step c hdr)
