-- ===== src/Ratchet/Reordered.antt =====
-- Messages that arrive out of order.
use pqc_chat.Common.{
  none, ℕ, zero, suc, ◌+◌, ◌^◌, ◌<◌, ◌≡◌, refl, sym, ap, ◌∙◌, subst, false, some, Bytes, arith,
}
use native.Mathlib.Nat.{mod-eq_of_lt}
use pqc_chat.Common.Map.{lookup, erase}
use pqc_chat.Result.{ok}
use pqc_chat.Crypto.{Crypto, AeadLaws}
use pqc_chat.Ratchet.Header.{Header}
use pqc_chat.Ratchet.Kdf.{message_key, next_chain_key, aead_seal}
use pqc_chat.Ratchet.State.{State, SkippedKey, SkippedKey_discrete, increment}
use pqc_chat.Ratchet.Sending.{Draws, associated_data_with_header, count_sent, encrypt_message}
use pqc_chat.Ratchet.Receiving.{take_skipped_key, decrypt_with, decrypt_message}
use pqc_chat.Ratchet.Skipping.{chain_after}
use pqc_chat.Ratchet.Delivery.{Follows, decrypt-encrypt}
use pqc_chat.Ratchet.Calls.{key_of, next_header, last_step, encrypt-eq, open-seal}

module _ (c : Crypto) where
  pub take-some :
      (hdr : Header) (s : State c) (key : Bytes)
      → lookup SkippedKey_discrete (hdr.dh_pub, hdr.n) s.skipped ≡ some key
      → take_skipped_key c hdr s
        ≡ (record s { skipped = erase SkippedKey_discrete (hdr.dh_pub, hdr.n) s.skipped }, some key)
  unfolding take_skipped_key
  take-some hdr s key found = rw (found, take_skipped_key)

  -- The state without a stored key.
  abbrev pub without : SkippedKey → State c → State c
  without q s = record s { skipped = erase SkippedKey_discrete q s.skipped }

  -- A message whose key is stored is decrypted by it, and only the key is gone.
  pub stored_decrypts :
      AeadLaws c
      → (s : State c) (hdr : Header) (ct ad key plaintext : Bytes)
      → lookup SkippedKey_discrete (hdr.dh_pub, hdr.n) s.skipped ≡ some key
      → aead_seal c key plaintext (associated_data_with_header hdr ad) ≡ ok ct
      → decrypt_message c hdr ct ad s ≡ (without (hdr.dh_pub, hdr.n) s, ok plaintext)
  unfolding decrypt_message decrypt_with
  stored_decrypts laws s hdr ct ad key plaintext found sealed =
      ap (decrypt_with c hdr ct ad) (take-some hdr s key found)
      ∙ ap (λ r. (without (hdr.dh_pub, hdr.n) s, r))
          (open-seal c laws key plaintext (associated_data_with_header hdr ad) ct sealed)

  -- What a successful call of `EncryptMessage` on a sending chain returned.
  pub record Sent (a a' : State c) (k : c.DhPrivate) (plaintext ad : Bytes) (hdr : Header)
      (ct : Bytes) : Type 0 where
    pub after : a' ≡ count_sent c a
    pub header : hdr ≡ next_header c a k
    pub sealed :
        aead_seal c (message_key c a.chain_send) plaintext (associated_data_with_header hdr ad)
        ≡ ok ct

  pub encrypt-Sent :
      (d : Draws c) (plaintext ad : Bytes) (a a' : State c) (k : c.DhPrivate) (hdr : Header)
      (ct : Bytes)
      → a.dh_self ≡ some k
      → a.needs_new_sending_chain ≡ false
      → encrypt_message c d plaintext ad a ≡ (a', ok (hdr, ct))
      → Sent a a' k plaintext ad hdr ct
  encrypt-Sent d plaintext ad a a' k hdr ct own turn e =
      let (x, sealed, same_a, same_h) =
        last_step c (count_sent c a) a' _ (λ x. (next_header c a k, x)) (hdr, ct)
          (sym (encrypt-eq c d plaintext ad a k own turn) ∙ e) in
      let header : next_header c a k ≡ hdr = ap (λ p. p.0) same_h in
      record {
        after = sym same_a;
        header = sym header;
        sealed =
            subst
              (λ h.
                aead_seal c (message_key c a.chain_send) plaintext
                  (associated_data_with_header h ad)
                ≡ ok ct)
              header (sealed ∙ ap (λ p. ok p.1) same_h);
      }

  pub chain_after-suc :
      (ck : Bytes) (n : ℕ) → chain_after c ck (suc n) ≡ next_chain_key c (chain_after c ck n)
  chain_after-suc ck zero = refl
  chain_after-suc ck (suc n) = chain_after-suc (next_chain_key c ck) n

  -- After a party has sent, the other is one message more behind.
  pub missed :
      (a a' b : State c) (k : c.DhPrivate) (ck : Bytes) (gap : ℕ)
      → a' ≡ count_sent c a
      → Follows c a b k ck gap
      → a.n_send + 1 < 2 ^ 32
      → Follows c a' b k ck (suc gap)
  missed a a' b k ck gap e f small =
      let next : increment a.n_send ≡ a.n_send + 1 = mod-eq_of_lt small in
      record {
        own = ap (λ s. s.dh_self) e ∙ f.own;
        turn = ap (λ s. s.needs_new_sending_chain) e ∙ f.turn;
        remote = f.remote;
        receiving = f.receiving;
        sending =
            ap (λ s. s.chain_send) e
            ∙ ap (next_chain_key c) f.sending
            ∙ sym (chain_after-suc ck gap);
        number = ap (λ s. s.n_send) e ∙ omega (arith, next, f.number);
      }

  -- Under the law of the AEAD: two messages of one chain that arrive in the wrong order are both
  -- decrypted, by a receiver that had seen all earlier messages and holds no stored key for the
  -- number of the second. The numbers are below 2 ^ 32.
  pub reordered :
      AeadLaws c
      → (a b : State c) (k : c.DhPrivate) (ck : Bytes) (d d' : Draws c)
        (first second ad ad' : Bytes) (a1 a2 : State c) (hdr hdr' : Header) (ct ct' : Bytes)
      → Follows c a b k ck 0
      → a.n_send + 1 < 2 ^ 32
      → lookup SkippedKey_discrete (key_of c k, a.n_send + 1) b.skipped ≡ none
      → encrypt_message c d first ad a ≡ (a1, ok (hdr, ct))
      → encrypt_message c d' second ad' a1 ≡ (a2, ok (hdr', ct'))
      → (b1 : State c) × (b2 : State c) × (decrypt_message c hdr' ct' ad' b ≡ (b1, ok second))
        × (decrypt_message c hdr ct ad b1 ≡ (b2, ok first))
  reordered laws a b k ck d d' first second ad ad' a1 a2 hdr hdr' ct ct' f small missing e e' =
      let sent = encrypt-Sent d first ad a a1 k hdr ct f.own f.turn e in
      let behind = missed a a1 b k ck 0 sent.after f small in
      let number : a1.n_send ≡ a.n_send + 1 = omega (arith, behind.number, f.number) in
      let (b1, opened, _, stored) =
        decrypt-encrypt c laws a1 b k ck 1 d' second ad' a2 hdr' ct' behind (omega arith)
          (omega (arith, number))
          (ap (λ n. lookup SkippedKey_discrete (key_of c k, n) b.skipped) number ∙ missing) e' in
      let key : lookup SkippedKey_discrete (hdr.dh_pub, hdr.n) b1.skipped
          ≡ some (message_key c ck) =
        ap (λ h. lookup SkippedKey_discrete (h.dh_pub, h.n) b1.skipped) sent.header
        ∙ ap (λ n. lookup SkippedKey_discrete (key_of c k, n) b1.skipped) f.number
        ∙ stored 0 (omega arith) in
      let late = stored_decrypts laws b1 hdr ct ad (message_key c ck) first key (
        ap (λ q. aead_seal c (message_key c q) first (associated_data_with_header hdr ad))
          (sym f.sending)
        ∙ sent.sealed) in
      (b1, without (hdr.dh_pub, hdr.n) b1, opened, late)
