-- ===== src/Ratchet/FirstContact.antt =====
-- The first message of a session: from `InitAlice` to `InitBob`.
use pqc_chat.Common.{ℕ, ◌≡◌, refl, sym, ap, ◌∙◌, subst, true, [], none, some, Bytes, arith}
use pqc_chat.Common.Map.{lookup}
use pqc_chat.Result.{ok, bind_cases, ok-injective}
use pqc_chat.Crypto.{Crypto, AeadLaws, DhLaws}
use pqc_chat.Ratchet.Header.{Header}
use pqc_chat.Ratchet.Kdf.{root_kdf, next_chain_key}
use pqc_chat.Ratchet.State.{State, SkippedKey, SkippedKey_discrete, new_state, init_alice, init_bob}
use pqc_chat.Ratchet.Sending.{Draws, encrypt_message}
use pqc_chat.Ratchet.Receiving.{
  advance_receiving, enter_chain, dh_ratchet_step, consume_ciphertext, derive_receiving_keys,
  set_receiving_keys, record_advertised, decrypt_message,
}
use pqc_chat.Ratchet.Delivery.{Follows}
use pqc_chat.Ratchet.Linked.{Linked, speaks}
use pqc_chat.Ratchet.Calls.{enter-decrypt, key_of, same_chain}
use pqc_chat.Ratchet.Entering.{unkeyed}
use pqc_chat.Ratchet.Reordered.{Sent, encrypt-Sent}

module _ (c : Crypto) where
  -- Bob's state after he has entered Alice's chain.
  abbrev entered : Bytes → c.DhPrivate → ℕ → c.DhPublic → Bytes → Bytes → State c
  unfolding init_bob
  entered key bob now alice root chain = record (init_bob c key bob now) {
    dh_remote = some alice;
    n_recv = 0;
    root_key = root;
    chain_recv = some chain;
    needs_new_sending_chain = true;
  }

  bob_enters :
      (key : Bytes) (bob : c.DhPrivate) (now : ℕ) (alice : c.DhPublic) (dh_out root chain : Bytes)
      → c.dh_parse (c.dh_bytes alice) ≡ ok alice
      → c.dh bob alice ≡ ok dh_out
      → root_kdf c key dh_out [] ≡ ok (root, chain)
      → (hdr : Header) → hdr.dh_pub ≡ c.dh_bytes alice
      → hdr.mlkem_pub ≡ none
      → hdr.mlkem_ciphertext ≡ none
      → dh_ratchet_step c hdr (init_bob c key bob now)
        ≡ (entered key bob now alice root chain, ok tt)
  unfolding dh_ratchet_step init_bob entered consume_ciphertext derive_receiving_keys
      set_receiving_keys record_advertised
  bob_enters key bob now alice dh_out root chain parsed agreed derived hdr at no_pub no_ct =
      rw at (rw parsed (rw no_ct (rw agreed (rw derived (rw no_pub refl)))))

  no_keys :
      (key : Bytes) (bob : c.DhPrivate) (now : ℕ) (q : SkippedKey)
      → lookup SkippedKey_discrete q (init_bob c key bob now).skipped ≡ none
  unfolding init_bob lookup
  no_keys key bob now q = refl

  no_keys_entered :
      (key : Bytes) (bob : c.DhPrivate) (now : ℕ) (alice : c.DhPublic) (root chain : Bytes)
      (q : SkippedKey)
      → lookup SkippedKey_discrete q (entered key bob now alice root chain).skipped ≡ none
  unfolding entered lookup
  no_keys_entered key bob now alice root chain q = refl

  -- `InitAlice` with the key that Bob's is derived from, and what she sends first.
  abbrev started : Bytes → c.DhPrivate → c.DhPublic → ℕ → Bytes → Bytes → State c
  unfolding new_state
  started key self bob now root chain = record (new_state c key now) {
    dh_self = some self;
    dh_remote = some bob;
    root_key = root;
    chain_send = chain;
  }

  started-Linked :
      (key : Bytes) (self bob : c.DhPrivate) (now now' : ℕ) (root chain : Bytes)
      → Linked c
          (started key self (c.dh_public bob) now root chain)
          (entered key bob now' (c.dh_public self) root chain)
          self
          chain
          0
  unfolding started entered
  started-Linked key self bob now now' root chain = record {
    follows = record {
      own = refl;
      turn = refl;
      remote = refl;
      receiving = refl;
      sending = refl;
      number = refl;
    };
    near = omega arith;
    small = omega arith;
    ready = refl;
    root = refl;
    old = c.dh_public bob;
    remote = refl;
    clear = refl;
    idle = refl;
    pending = refl;
    behind = unkeyed refl;
    fresh = λ n _. no_keys_entered key bob now' (c.dh_public self) root chain (key_of c self, n);
  }

  -- What the first delivery ends in.
  abbrev Arrives : Bytes → c.DhPrivate → ℕ → Bytes → Bytes → State c × Header × Bytes → Type 0
  Arrives key bob now plaintext ad (a, hdr, ct) =
      (b : State c) × (self : c.DhPrivate) × (chain : Bytes) × (decrypt_message c hdr ct ad
          (init_bob c key bob now)
        ≡ (b, ok plaintext))
      × Linked c a b self chain 0

  started-Arrives :
      AeadLaws c
      → DhLaws c
      → (key : Bytes) (self bob : c.DhPrivate) (now now' : ℕ) (dh_out root chain : Bytes)
        (d : Draws c) (plaintext ad : Bytes) (a : State c) (hdr : Header) (ct : Bytes)
      → c.dh self (c.dh_public bob) ≡ ok dh_out
      → root_kdf c key dh_out [] ≡ ok (root, chain)
      → encrypt_message c d plaintext ad (started key self (c.dh_public bob) now root chain)
        ≡ (a, ok (hdr, ct))
      → Arrives key bob now' plaintext ad (a, hdr, ct)
  unfolding enter_chain init_bob entered started
  started-Arrives aead dhs key self bob now now' dh_out root chain d plaintext ad a hdr ct agreed
        derived e =
      let s = started key self (c.dh_public bob) now root chain in
      let b = entered key bob now' (c.dh_public self) root chain in
      let l = started-Linked key self bob now now' root chain in
      let sent = encrypt-Sent c d plaintext ad s a self hdr ct l.follows.own l.follows.turn e in
      let at : hdr.dh_pub ≡ key_of c self = ap (λ h. h.dh_pub) sent.header in
      let (b', opened, _, m) =
        speaks c aead s b self chain 0 d plaintext ad a hdr ct l (omega arith) e in
      let enters =
        bob_enters key bob now' (c.dh_public self) dh_out root chain
          (dhs.dh_parse_bytes (c.dh_public self)) (dhs.dh_agrees bob self ∙ agreed) derived hdr at
          (ap (λ h. h.mlkem_pub) sent.header) (ap (λ h. h.mlkem_ciphertext) sent.header) in
      (
        advance_receiving c b',
        self,
        next_chain_key c chain,
        enter-decrypt c hdr ct ad (init_bob c key bob now') b
              (no_keys key bob now' (hdr.dh_pub, hdr.n))
              (no_keys_entered key bob now' (c.dh_public self) root chain (hdr.dh_pub, hdr.n))
              enters (same_chain c hdr b (c.dh_public self) refl at)
            ∙ opened,
        m,
      )

  -- The first message, and the invariant after it.
  pub begins :
      AeadLaws c
      → DhLaws c
      → (key : Bytes) (bob : c.DhPrivate) (e : c.Entropy) (now now' : ℕ) (d : Draws c)
        (plaintext ad : Bytes) (s a : State c) (hdr : Header) (ct : Bytes)
      → init_alice c key (c.dh_public bob) e now ≡ ok s
      → encrypt_message c d plaintext ad s ≡ (a, ok (hdr, ct))
      → Arrives key bob now' plaintext ad (a, hdr, ct)
  unfolding init_alice started
  begins aead dhs key bob e now now' d plaintext ad s a hdr ct began sent =
      bind_cases (c.dh_generate e) _ began λ self _ r.
        bind_cases (c.dh self (c.dh_public bob)) _ r λ dh_out agreed r'.
          bind_cases (root_kdf c key dh_out []) _ r' λ keys derived r''.
            started-Arrives aead dhs key self bob now now' dh_out keys.0 keys.1 d plaintext ad a hdr
              ct agreed derived
              (ap (encrypt_message c d plaintext ad) (ok-injective _ _ r'') ∙ sent)

  -- What Alice encrypts first on a session key and Bob's public ratchet key, Bob decrypts with that
  -- session key and his private key, under the laws of X25519 and of the AEAD. He then has seen all
  -- that she sent.
  pub first_contact :
      AeadLaws c
      → DhLaws c
      → (key : Bytes) (bob : c.DhPrivate) (e : c.Entropy) (now now' : ℕ) (d : Draws c)
        (plaintext ad : Bytes) (s a : State c) (hdr : Header) (ct : Bytes)
      → init_alice c key (c.dh_public bob) e now ≡ ok s
      → encrypt_message c d plaintext ad s ≡ (a, ok (hdr, ct))
      → (b : State c) × (self : c.DhPrivate) × (decrypt_message c hdr ct ad
            (init_bob c key bob now')
          ≡ (b, ok plaintext))
        × Follows c a b self a.chain_send 0
  first_contact aead dhs key bob e now now' d plaintext ad s a hdr ct began sent =
      let (b, self, chain, opened, l) =
        begins aead dhs key bob e now now' d plaintext ad s a hdr ct began sent in
      (b, self, opened, subst (λ ck. Follows c a b self ck 0) (sym l.follows.sending) l.follows)

  -- What the initiator sends first, she sends from `started`.
  begun_from :
      (key : Bytes) (bob : c.DhPublic) (e : c.Entropy) (now : ℕ) (d : Draws c)
      (plaintext ad : Bytes) (s a : State c) (hdr : Header) (ct : Bytes)
      → init_alice c key bob e now ≡ ok s
      → encrypt_message c d plaintext ad s ≡ (a, ok (hdr, ct))
      → (self : c.DhPrivate) × (root : Bytes) × (chain : Bytes) × Sent c
          (started key self bob now root chain)
          a
          self
          plaintext
          ad
          hdr
          ct
  unfolding init_alice started
  begun_from key bob e now d plaintext ad s a hdr ct began said =
      bind_cases (c.dh_generate e) _ began λ self _ r. bind_cases (c.dh self bob) _ r λ dh_out _ r'.
        bind_cases (root_kdf c key dh_out []) _ r' λ keys _ r''. (
          self,
          keys.0,
          keys.1,
          encrypt-Sent c d plaintext ad (started key self bob now keys.0 keys.1) a self hdr ct refl
              refl (ap (encrypt_message c d plaintext ad) (ok-injective _ _ r'') ∙ said),
        )

  -- The header of the initiator's first message carries no ML-KEM material.
  pub plain_header :
      (key : Bytes) (bob : c.DhPublic) (e : c.Entropy) (now : ℕ) (d : Draws c)
      (plaintext ad : Bytes) (s a : State c) (hdr : Header) (ct : Bytes)
      → init_alice c key bob e now ≡ ok s
      → encrypt_message c d plaintext ad s ≡ (a, ok (hdr, ct))
      → (hdr.mlkem_pub ≡ none) × (hdr.mlkem_ciphertext ≡ none)
  plain_header key bob e now d plaintext ad s a hdr ct began said =
      let (_, _, _, sent) = begun_from key bob e now d plaintext ad s a hdr ct began said in
      (ap (λ h. h.mlkem_pub) sent.header, ap (λ h. h.mlkem_ciphertext) sent.header)

  -- After it, she has stored no keys.
  pub no_keys_begun :
      (key : Bytes) (bob : c.DhPublic) (e : c.Entropy) (now : ℕ) (d : Draws c)
      (plaintext ad : Bytes) (s a : State c) (hdr : Header) (ct : Bytes)
      → init_alice c key bob e now ≡ ok s
      → encrypt_message c d plaintext ad s ≡ (a, ok (hdr, ct))
      → (q : SkippedKey) → lookup SkippedKey_discrete q a.skipped ≡ none
  unfolding lookup started
  no_keys_begun key bob e now d plaintext ad s a hdr ct began said q =
      let (_, _, _, sent) = begun_from key bob e now d plaintext ad s a hdr ct began said in
      ap (λ u. lookup SkippedKey_discrete q u.skipped) sent.after
