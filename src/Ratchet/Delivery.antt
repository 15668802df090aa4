-- ===== src/Ratchet/Delivery.antt =====
-- What one party encrypts, the other decrypts: on one chain, in order or with messages missing.
use pqc_chat.Common.{
  ℕ, ◌+◌, ◌^◌, ◌≤◌, ◌<◌, ◌≡◌, refl, sym, ap, ap₂, ◌∙◌, subst, false, none, some, Bytes, arith,
}
use pqc_chat.Common.Map.{lookup}
use pqc_chat.Result.{ok}
use pqc_chat.Crypto.{Crypto, AeadLaws}
use pqc_chat.Ratchet.Header.{Header, contents}
use pqc_chat.Ratchet.Kdf.{message_key, next_chain_key, aead_seal, aead_open}
use pqc_chat.Ratchet.State.{State, SkippedKey_discrete, increment, max_skip}
use pqc_chat.Ratchet.Sending.{Draws, associated_data_with_header, count_sent, encrypt_message}
use pqc_chat.Ratchet.Receiving.{
  receiving_key, skip_message_keys, decrypt_with, decrypt_message, advance_receiving,
}
use pqc_chat.Ratchet.Skipping.{Skips, chain_after, skip_message_keys-Skips}
use pqc_chat.Ratchet.Calls.{
  next_header, key_of, encrypt-eq, last_step, open-seal, take-none, receive-eq, same_chain,
}

module _ (c : Crypto) where
  -- `b` receives on the chain on which `a` sends, and has not seen the last `gap` messages. Its chain
  -- is at `ck`.
  pub record Follows (a b : State c) (k : c.DhPrivate) (ck : Bytes) (gap : ℕ) : Type 0 where
    pub own : a.dh_self ≡ some k
    pub turn : a.needs_new_sending_chain ≡ false
    pub remote : b.dh_remote ≡ some (c.dh_public k)
    pub receiving : b.chain_recv ≡ some ck
    pub sending : a.chain_send ≡ chain_after c ck gap
    pub number : a.n_send ≡ b.n_recv + gap

  -- What a delivery of a message to `b` ends in.
  abbrev pub Delivered :
      State c → Bytes → ℕ → c.DhPrivate → Bytes → Bytes → State c × Header × Bytes → Type 0
  Delivered b ck gap k plaintext ad (a', hdr, ct) =
      (b' : State c) × (decrypt_message c hdr ct ad b ≡ (b', ok plaintext))
      × Follows a' b' k a'.chain_send 0
      × ((j : ℕ)
          → j < gap
          → lookup SkippedKey_discrete (key_of c k, b.n_recv + j) b'.skipped
            ≡ some (message_key c (chain_after c ck j)))

  -- A message that was sealed `gap` steps ahead on the receiving chain.
  pub opens_ahead :
      AeadLaws c
      → (b : State c) (r : c.DhPublic) (ck : Bytes) (gap : ℕ) (plaintext ad : Bytes) (hdr : Header)
        (ct : Bytes)
      → b.dh_remote ≡ some r
      → b.chain_recv ≡ some ck
      → gap ≤ max_skip
      → b.n_recv + gap < 2 ^ 32
      → hdr.dh_pub ≡ c.dh_bytes r
      → hdr.n ≡ b.n_recv + gap
      → lookup SkippedKey_discrete (hdr.dh_pub, hdr.n) b.skipped ≡ none
      → aead_seal c
          (message_key c (chain_after c ck gap))
          plaintext
          (associated_data_with_header hdr ad)
        ≡ ok ct
      → (s : State c) × (decrypt_message c hdr ct ad b ≡ (advance_receiving c s, ok plaintext))
        × Skips c b s (c.dh_bytes r) ck gap
  unfolding decrypt_message decrypt_with
  opens_ahead laws b r ck gap plaintext ad h ct known at few small key number missing sealed =
      let (s, skipped, kept) = skip_message_keys-Skips c b r ck gap at known few small in
      let opened : aead_open c (receiving_key c s) ct (associated_data_with_header h ad)
          ≡ ok plaintext =
        ap (λ o. aead_open c (message_key c (contents o)) ct (associated_data_with_header h ad))
          kept.chain
        ∙ open-seal c laws (message_key c (chain_after c ck gap)) plaintext
            (associated_data_with_header h ad) ct sealed in
      (
        s,
        ap (decrypt_with c h ct ad) (take-none c h b missing)
            ∙ receive-eq c h ct ad b s (same_chain c h b r known key)
                (ap (λ n. skip_message_keys c n b) number ∙ skipped)
            ∙ ap (λ r. (advance_receiving c s, r)) opened,
        kept,
      )

  -- A message that `a` sealed at the head of its chain, with any header of that chain and number.
  pub opens :
      AeadLaws c
      → (a b : State c) (k : c.DhPrivate) (ck : Bytes) (gap : ℕ) (plaintext ad : Bytes)
        (hdr : Header) (ct : Bytes)
      → Follows a b k ck gap
      → gap ≤ max_skip
      → a.n_send < 2 ^ 32
      → hdr.dh_pub ≡ key_of c k
      → hdr.n ≡ a.n_send
      → lookup SkippedKey_discrete (hdr.dh_pub, hdr.n) b.skipped ≡ none
      → aead_seal c (message_key c a.chain_send) plaintext (associated_data_with_header hdr ad)
        ≡ ok ct
      → (s : State c) × (decrypt_message c hdr ct ad b ≡ (advance_receiving c s, ok plaintext))
        × Skips c b s (key_of c k) ck gap
  opens laws a b k ck gap plaintext ad h ct f few small key number missing sealed =
      opens_ahead laws b (c.dh_public k) ck gap plaintext ad h ct f.remote f.receiving few
        (subst (λ n. n < 2 ^ 32) f.number small) key (number ∙ f.number) missing
        (ap (λ q. aead_seal c (message_key c q) plaintext (associated_data_with_header h ad))
            (sym f.sending)
          ∙ sealed)

  -- After such a message, `b` has seen all that was sent.
  pub opens-Follows :
      (a b s : State c) (k : c.DhPrivate) (ck : Bytes) (gap : ℕ)
      → Follows a b k ck gap
      → Skips c b s (key_of c k) ck gap
      → Follows (count_sent c a) (advance_receiving c s) k (next_chain_key c a.chain_send) 0
  opens-Follows a b s k ck gap f kept = record {
    own = f.own;
    turn = f.turn;
    remote = ap (λ t. t.dh_remote) kept.rest ∙ f.remote;
    receiving =
        ap (λ o. some (next_chain_key c (contents o))) (kept.chain ∙ ap some (sym f.sending));
    sending = refl;
    number = ap increment (f.number ∙ sym kept.number) ∙ omega arith;
  }

  sealed-Delivered :
      AeadLaws c
      → (a b : State c) (k : c.DhPrivate) (ck : Bytes) (gap : ℕ) (plaintext ad ct : Bytes)
      → Follows a b k ck gap
      → gap ≤ max_skip
      → a.n_send < 2 ^ 32
      → lookup SkippedKey_discrete (key_of c k, a.n_send) b.skipped ≡ none
      → aead_seal c
          (message_key c a.chain_send)
          plaintext
          (associated_data_with_header (next_header c a k) ad)
        ≡ ok ct
      → Delivered b ck gap k plaintext ad (count_sent c a, next_header c a k, ct)
  sealed-Delivered laws a b k ck gap plaintext ad ct f few small missing sealed =
      let (s, opened, kept) =
        opens laws a b k ck gap plaintext ad (next_header c a k) ct f few small refl refl missing
          sealed in
      (advance_receiving c s, opened, opens-Follows a b s k ck gap f kept, kept.stored)

  -- On one chain, under the law of the AEAD: `b` decrypts the next message that `a` encrypts,
  -- although `gap` messages before it, at most 1000, have not arrived. Then `b` has seen all that
  -- `a` sent, and the keys of the missing messages are stored. The message's number is below 2 ^
  -- 32, and `b` holds no stored key for it.
  pub decrypt-encrypt :
      AeadLaws c
      → (a b : State c) (k : c.DhPrivate) (ck : Bytes) (gap : ℕ) (d : Draws c)
        (plaintext ad : Bytes) (a' : State c) (hdr : Header) (ct : Bytes)
      → Follows a b k ck gap
      → gap ≤ max_skip
      → a.n_send < 2 ^ 32
      → lookup SkippedKey_discrete (key_of c k, a.n_send) b.skipped ≡ none
      → encrypt_message c d plaintext ad a ≡ (a', ok (hdr, ct))
      → (b' : State c) × (decrypt_message c hdr ct ad b ≡ (b', ok plaintext))
        × Follows a' b' k a'.chain_send 0
        × ((j : ℕ)
            → j < gap
            → lookup SkippedKey_discrete (key_of c k, b.n_recv + j) b'.skipped
              ≡ some (message_key c (chain_after c ck j)))
  decrypt-encrypt laws a b k ck gap d plaintext ad a' hdr ct f few small missing e =
      let (x, sealed, same_a, same_h) =
        last_step c (count_sent c a) a' _ (λ x. (next_header c a k, x)) (hdr, ct)
          (sym (encrypt-eq c d plaintext ad a k f.own f.turn) ∙ e) in
      subst (Delivered b ck gap k plaintext ad) (ap₂ (λ s q. (s, q.0, q.1)) same_a same_h)
        (sealed-Delivered laws a b k ck gap plaintext ad x f few small missing sealed)
