-- ===== src/Ratchet/Calls.antt =====
-- The calls of the ratchet, computed step by step where they succeed.
use pqc_chat.Common.{
  ◌≡◌, refl, sym, ap, ◌∙◌, subst, true, false, [], Option, none, some, Bytes, bytes_equal,
  bytes_equal_refl, if◌then◌else◌,
}
use pqc_chat.Common.Map.{lookup}
use pqc_chat.Result.{Result, ok, err, panic, diverges, or_panic, bind_cases}
use pqc_chat.Crypto.{Crypto, AeadLaws}
use pqc_chat.Ratchet.Header.{Header}
use pqc_chat.Ratchet.Kdf.{message_key, aead_seal, aead_open, zero_nonce}
use pqc_chat.Ratchet.State.{State, SkippedKey_discrete}
use pqc_chat.Ratchet.Action.{Action, continue, lift}
use pqc_chat.Ratchet.Sending.{
  Draws, sending_chain, associated_data_with_header, prepare_sending_chain, count_sent,
  encrypt_message,
}
use pqc_chat.Ratchet.Receiving.{
  receiving_key, dh_ratchet_step, skip_message_keys, take_skipped_key, enter_chain, receive,
  advance_receiving, decrypt_with, decrypt_message,
}

module _ (c : Crypto) where
  -- The header of the next message of a party that has a sending chain.
  abbrev pub next_header : State c → c.DhPrivate → Header
  next_header a k = record {
    dh_pub = c.dh_bytes (c.dh_public k);
    pn = a.pn;
    n = a.n_send;
    mlkem_pub = none;
    mlkem_ciphertext = none;
  }

  -- The end of `prepareSendingChain`.
  abbrev key_from : Option c.DhPrivate → Header → Action c Header
  key_from own hdr s =
      continue c (s, or_panic own)
        (λ k. lift c (ok (record hdr { dh_pub = c.dh_bytes (c.dh_public k) })))

  abbrev with_key : Header → Action c Header
  with_key hdr s = key_from s.dh_self hdr s

  prepare-eq :
      (d : Draws c) (a : State c) (k : c.DhPrivate)
      → a.dh_self ≡ some k
      → a.needs_new_sending_chain ≡ false
      → prepare_sending_chain c d a ≡ (a, ok (record (next_header a k) { n = 0 }))
  unfolding prepare_sending_chain sending_chain
  prepare-eq d a k own turn =
      ap (λ b. continue c (sending_chain c d b a) with_key) turn
      ∙ ap (λ o. key_from o (record (next_header a k) { dh_pub = []; n = 0 }) a) own

  pub encrypt-eq :
      (d : Draws c) (plaintext ad : Bytes) (a : State c) (k : c.DhPrivate)
      → a.dh_self ≡ some k
      → a.needs_new_sending_chain ≡ false
      → encrypt_message c d plaintext ad a
        ≡ continue c
            (
              count_sent c a,
              aead_seal c
                  (message_key c a.chain_send)
                  plaintext
                  (associated_data_with_header (next_header a k) ad),
            )
            (λ ct. lift c (ok (next_header a k, ct)))
  unfolding encrypt_message
  encrypt-eq d plaintext ad a k own turn = rw (prepare-eq d a k own turn) refl

  -- A last step that succeeded.
  pub last_step :
      {A B : Type 0} (s s' : State c) (r : Result A) (f : A → B) (b : B)
      → continue c (s, r) (λ x. lift c (ok (f x))) ≡ (s', ok b)
      → (x : A) × (r ≡ ok x) × (s ≡ s') × (f x ≡ b)
  last_step s s' (ok x) f b e = (x, refl, ap (λ p. p.0) e, cc)
  last_step s s' (err _) f b e = absurd (cc)
  last_step s s' panic f b e = absurd (cc)
  last_step s s' diverges f b e = absurd (cc)

  pub open-seal :
      AeadLaws c
      → (key text ad ct : Bytes) → aead_seal c key text ad ≡ ok ct
      → aead_open c key ct ad ≡ ok text
  unfolding aead_seal aead_open
  open-seal laws key text ad ct e = bind_cases (c.aead_new key) _ e λ aead fresh sealed. rw fresh (
      subst (λ x. c.aead_open aead zero_nonce x ad ≡ ok text) (cc)
        (laws.open_seal aead zero_nonce text ad))

  abbrev pub key_of : c.DhPrivate → Bytes
  key_of k = c.dh_bytes (c.dh_public k)

  pub take-none :
      (hdr : Header) (s : State c)
      → lookup SkippedKey_discrete (hdr.dh_pub, hdr.n) s.skipped ≡ none
      → take_skipped_key c hdr s ≡ (s, none)
  unfolding take_skipped_key
  take-none hdr s missing = rw (missing, take_skipped_key)

  -- The two ends of `DecryptMessage`: after the skipped keys, and after the chain is entered.
  abbrev pub opening : Header → Bytes → Bytes → Action c Bytes
  opening hdr ct ad s = (
    advance_receiving c s,
    aead_open c (receiving_key c s) ct (associated_data_with_header hdr ad),
  )

  abbrev pub after_entry : Header → Bytes → Bytes → Action c Bytes
  after_entry hdr ct ad s = continue c (skip_message_keys c hdr.n s) (λ _. opening hdr ct ad)

  pub receive-eq :
      (hdr : Header) (ct ad : Bytes) (b s : State c)
      → enter_chain c hdr b.dh_remote b ≡ (b, ok tt)
      → skip_message_keys c hdr.n b ≡ (s, ok tt)
      → receive c hdr ct ad b ≡ (
        advance_receiving c s,
        aead_open c (receiving_key c s) ct (associated_data_with_header hdr ad),
      )
  unfolding receive
  receive-eq hdr ct ad b s entered skipped =
      ap (λ r. continue c r (λ _. after_entry hdr ct ad)) entered
      ∙ ap (λ r. continue c r (λ _. opening hdr ct ad)) skipped

  pub same_chain :
      (hdr : Header) (b : State c) (p : c.DhPublic)
      → b.dh_remote ≡ some p
      → hdr.dh_pub ≡ c.dh_bytes p
      → enter_chain c hdr b.dh_remote b ≡ (b, ok tt)
  unfolding enter_chain
  same_chain hdr b p remote key =
      ap (λ o. enter_chain c hdr o b) remote
      ∙ ap (λ t. (if t then lift c (ok tt) else other) b)
          (subst (λ q. bytes_equal hdr.dh_pub q ≡ true) key (bytes_equal_refl hdr.dh_pub))
    where
      other : Action c (Unit {0})
      other s = continue c (skip_message_keys c hdr.pn s) (λ _. dh_ratchet_step c hdr)

  -- Entering a header's chain first, and then decrypting, is decrypting.
  pub enter-decrypt :
      (hdr : Header) (ct ad : Bytes) (b b' : State c)
      → lookup SkippedKey_discrete (hdr.dh_pub, hdr.n) b.skipped ≡ none
      → lookup SkippedKey_discrete (hdr.dh_pub, hdr.n) b'.skipped ≡ none
      → enter_chain c hdr b.dh_remote b ≡ (b', ok tt)
      → enter_chain c hdr b'.dh_remote b' ≡ (b', ok tt)
      → decrypt_message c hdr ct ad b ≡ decrypt_message c hdr ct ad b'
  unfolding decrypt_message decrypt_with receive
  enter-decrypt hdr ct ad b b' none_b none_b' first again =
      ap (decrypt_with c hdr ct ad) (take-none hdr b none_b)
      ∙ ap (λ r. continue c r (λ _. after_entry hdr ct ad)) (first ∙ sym again)
      ∙ sym (ap (decrypt_with c hdr ct ad) (take-none hdr b' none_b'))
