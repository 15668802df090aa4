-- ===== src/Ratchet/Entering.antt =====
-- The receiving half of a DH ratchet step: `dhRatchetStep` where it succeeds, after the keys of the
-- old chain were stored.
use pqc_chat.Common.{
  ℕ, ◌+◌, ◌^◌, ◌≤◌, ◌<◌, ◌≡◌, ◌≢◌, refl, sym, ap, ap₂, ◌∙◌, subst, true, [], Option, none, some,
  Bytes, bytes_equal_ne, if◌then◌else◌,
}
use pqc_chat.Common.Map.{lookup}
use pqc_chat.Result.{ok}
use pqc_chat.Crypto.{Crypto, KemLaws}
use pqc_chat.Ratchet.Header.{Header}
use pqc_chat.Ratchet.Kdf.{root_kdf}
use pqc_chat.Ratchet.State.{State, SkippedKey, SkippedKey_discrete, max_skip}
use pqc_chat.Ratchet.Action.{Action, continue, lift}
use pqc_chat.Ratchet.Sending.{Draws}
use pqc_chat.Ratchet.Receiving.{
  skip_on, skip_message_keys, consume_with, consume_ciphertext, set_receiving_keys,
  derive_receiving_keys, record_advertised, dh_ratchet_step, enter_chain,
}
use pqc_chat.Ratchet.Skipping.{moved, skip_message_keys-Skips}
use pqc_chat.Ratchet.Starting.{Advertises, answer}

module _ (c : Crypto) where
  -- The receiving chain can be brought to the number `n`: it is nil, or at most 1000 behind.
  pub data Behind (s : State c) (n : ℕ) : Type 0 where
    unkeyed : s.chain_recv ≡ none → Behind s n
    keyed :
        (ck : Bytes) (gap : ℕ)
        → s.chain_recv ≡ some ck
        → n ≡ s.n_recv + gap
        → gap ≤ max_skip
        → n < 2 ^ 32
        → Behind s n

  -- What `skipMessageKeys` leaves, for another chain.
  pub record Passed (s s' : State c) (remote : c.DhPublic) : Type 0 where
    pub rest : s' ≡ moved c s s'.chain_recv s'.n_recv s'.skipped
    pub others :
        (q : SkippedKey)
        → q.0 ≢ c.dh_bytes remote
        → lookup SkippedKey_discrete q s'.skipped ≡ lookup SkippedKey_discrete q s.skipped

  pub skip_message_keys-Passed :
      (s : State c) (remote : c.DhPublic) (n : ℕ)
      → Behind s n
      → s.dh_remote ≡ some remote
      → (s' : State c) × (skip_message_keys c n s ≡ (s', ok tt)) × Passed s s' remote
  unfolding skip_message_keys skip_on
  skip_message_keys-Passed s remote n (unkeyed nil) known =
      (s, ap (λ o. skip_on c o n s) nil, record { rest = refl; others = λ q h. refl })
  skip_message_keys-Passed s remote n (keyed ck gap at number few small) known =
      let (s', skipped, kept) =
        skip_message_keys-Skips c s remote ck gap at known few
          (subst (λ m. m < 2 ^ 32) number small) in
      (
        s',
        ap (λ m. skip_message_keys c m s) number ∙ skipped,
        record {
          rest = kept.rest;
          others = λ q apart. kept.others q (λ k _ e. apart (sym (ap (λ j. j.0) e)));
        },
      )

  -- `s` with the private key and without an advertised key.
  abbrev pub waiting : State c → c.DhPrivate → State c
  waiting s key = record s { dh_self = some key; peer_advertised_kem_pub = none }

  -- The state of a party on a new receiving chain, with the private key that is left.
  abbrev pub entered :
      State c → c.DhPublic → Bytes → Bytes → Option c.KemPublic → Option c.KemPrivate → State c
  entered s remote root chain advertised left = record s {
    self_pending_kem_priv = left;
    dh_remote = some remote;
    n_recv = 0;
    root_key = root;
    chain_recv = some chain;
    peer_advertised_kem_pub = advertised;
    needs_new_sending_chain = true;
  }

  -- The public keys of a private key that may be there.
  abbrev pub publics : Option c.KemPrivate → Option c.KemPublic
  publics none = none
  publics (some k) = some (c.kem_public k)

  records :
      (packed : Option Bytes) (pending : Option c.KemPrivate) (s : State c)
      → Advertises c packed pending
      → s.peer_advertised_kem_pub ≡ none
      → record_advertised c packed s
        ≡ (record s { peer_advertised_kem_pub = publics pending }, ok tt)
  unfolding record_advertised
  records none none s a clear = ap (λ o. (record s { peer_advertised_kem_pub = o }, ok tt)) clear
  records none (some k) s a clear = elim a [ ]
  records (some b) none s a clear = elim a [ ]
  records (some b) (some k) s a clear = rw a refl

  -- The secret that answers the pending key is found, and the key is then gone.
  pub consumes :
      KemLaws c
      → (d : Draws c) (pending : Option c.KemPrivate) (s : State c)
      → s.self_pending_kem_priv ≡ pending
      → consume_ciphertext c (answer c d (publics pending)).0 s
        ≡ (record s { self_pending_kem_priv = none }, ok (answer c d (publics pending)).1)
  unfolding consume_ciphertext consume_with
  consumes laws d none s e = ap (λ o. (record s { self_pending_kem_priv = o }, ok [])) e
  consumes laws d (some k) s e =
      ap (λ o. consume_with c (c.kem_encapsulate (c.kem_public k) d.encapsulation).0 o s) e
      ∙ rw (laws.kem_agrees k d.encapsulation) refl

  -- Without a ciphertext, the pending key stays.
  pub consumes_none :
      (pending : Option c.KemPrivate) (s : State c)
      → s.self_pending_kem_priv ≡ pending
      → consume_ciphertext c none s ≡ (record s { self_pending_kem_priv = pending }, ok [])
  unfolding consume_ciphertext
  consumes_none pending s e = ap (λ o. (record s { self_pending_kem_priv = o }, ok [])) e

  steps :
      (hdr : Header) (s : State c) (key : c.DhPrivate) (remote : c.DhPublic)
      (dh_out secret root chain : Bytes) (pending left : Option c.KemPrivate)
      → c.dh_parse hdr.dh_pub ≡ ok remote
      → consume_ciphertext c hdr.mlkem_ciphertext (waiting s key)
        ≡ (record (waiting s key) { self_pending_kem_priv = left }, ok secret)
      → c.dh key remote ≡ ok dh_out
      → root_kdf c s.root_key dh_out secret ≡ ok (root, chain)
      → Advertises c hdr.mlkem_pub pending
      → dh_ratchet_step c hdr (waiting s key)
        ≡ (entered (waiting s key) remote root chain (publics pending) left, ok tt)
  unfolding dh_ratchet_step derive_receiving_keys set_receiving_keys
  steps hdr s key remote dh_out secret root chain pending left parsed consumed agreed derived
        advertised =
      let keyed = record (waiting s key) {
        self_pending_kem_priv = left;
        dh_remote = some remote;
        n_recv = 0;
        root_key = root;
        chain_recv = some chain;
      } in
      rw parsed (
        rw consumed
          (rw agreed (rw derived (rw (records hdr.mlkem_pub pending keyed advertised refl) refl))))

  -- What entering the chain of a new ratchet key leaves of `x`.
  pub record Entered (x x' : State c) (old remote : c.DhPublic) (root chain : Bytes)
      (advertised : Option c.KemPublic) (left : Option c.KemPrivate) (pn : ℕ) : Type 0 where
    pub passed : State c
    pub skipping : skip_message_keys c pn x ≡ (passed, ok tt)
    pub rest :
        x' ≡ record (entered x remote root chain advertised left) { skipped = passed.skipped }
    pub others :
        (q : SkippedKey)
        → q.0 ≢ c.dh_bytes old
        → lookup SkippedKey_discrete q passed.skipped ≡ lookup SkippedKey_discrete q x.skipped

  -- A header with a new ratchet key, and the secret that its ciphertext stands for.
  pub enter_chain-Entered :
      (hdr : Header) (x : State c) (key : c.DhPrivate) (old remote : c.DhPublic)
      (dh_out secret root chain : Bytes) (pending left : Option c.KemPrivate)
      → x.dh_remote ≡ some old
      → x.dh_self ≡ some key
      → x.peer_advertised_kem_pub ≡ none
      → hdr.dh_pub ≢ c.dh_bytes old
      → Behind x hdr.pn
      → c.dh_parse hdr.dh_pub ≡ ok remote
      → c.dh key remote ≡ ok dh_out
      → ((s : State c)
          → s.self_pending_kem_priv ≡ x.self_pending_kem_priv
          → consume_ciphertext c hdr.mlkem_ciphertext s
            ≡ (record s { self_pending_kem_priv = left }, ok secret))
      → root_kdf c x.root_key dh_out secret ≡ ok (root, chain)
      → Advertises c hdr.mlkem_pub pending
      → (x' : State c) × (enter_chain c hdr x.dh_remote x ≡ (x', ok tt))
        × Entered x x' old remote root chain (publics pending) left hdr.pn
  unfolding enter_chain
  enter_chain-Entered hdr x key old remote dh_out secret root chain pending left known own clear new
        behind parsed agreed consumed derived advertised =
      let (s, skipped, passed) = skip_message_keys-Passed x old hdr.pn behind known in
      let w : s ≡ waiting s key =
        ap₂ {A = Option c.DhPrivate} {B = Option c.KemPublic}
          (λ a b. record s { dh_self = a; peer_advertised_kem_pub = b })
          (ap (λ u. u.dh_self) passed.rest ∙ own)
          (ap (λ u. u.peer_advertised_kem_pub) passed.rest ∙ clear) in
      let stepped =
        steps hdr s key remote dh_out secret root chain pending left parsed
          (consumed (waiting s key) (ap (λ u. u.self_pending_kem_priv) passed.rest)) agreed
          (ap (λ u. root_kdf c u.root_key dh_out secret) passed.rest ∙ derived) advertised in
      (
        entered (waiting s key) remote root chain (publics pending) left,
        ap (λ o. enter_chain c hdr o x) known
            ∙ ap (λ t. (if t then lift c (ok tt) else other) x)
                (bytes_equal_ne hdr.dh_pub (c.dh_bytes old) new)
            ∙ ap (λ r. continue c r (λ _. dh_ratchet_step c hdr)) skipped
            ∙ ap (dh_ratchet_step c hdr) w
            ∙ stepped,
        record {
          passed = s;
          skipping = skipped;
          rest = ap (λ u. entered u remote root chain (publics pending) left) (sym w ∙ passed.rest);
          others = passed.others;
        },
      )
    where
      other : Action c (Unit {0})
      other s = continue c (skip_message_keys c hdr.pn s) (λ _. dh_ratchet_step c hdr)
