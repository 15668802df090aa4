-- ===== src/Ratchet/Overtaken.antt =====
-- An answer whose first message is overtaken by its second.
use pqc_chat.Common.{
  ◌≡◌, refl, sym, ap, ◌∙◌, subst, [], none, some, Bytes, arith, List, take, drop, codes, ◌++◌,
}
use pqc_chat.Common.Map.{lookup}
use pqc_chat.Result.{ok}
use pqc_chat.Crypto.{Crypto, AeadLaws, DhLaws, KemLaws, KdfLaws}
use pqc_chat.Ratchet.Header.{Header}
use pqc_chat.Ratchet.Kdf.{root_kdf}
use pqc_chat.Ratchet.State.{State, SkippedKey_discrete}
use pqc_chat.Ratchet.Sending.{Draws, count_sent, encrypt_message}
use pqc_chat.Ratchet.Receiving.{
  skip_message_keys, consume_ciphertext, decrypt_with, decrypt_message,
}
use pqc_chat.Ratchet.Skipping.{skip_message_keys-Skips}
use pqc_chat.Ratchet.Calls.{enter-decrypt, take-none, receive-eq, same_chain, key_of}
use pqc_chat.Ratchet.Starting.{Advertises, answer}
use pqc_chat.Ratchet.Opening.{encrypt-Opens}
use pqc_chat.Ratchet.Reordered.{encrypt-Sent}
use pqc_chat.Ratchet.Entering.{Behind, enter_chain-Entered, consumes_none}
use pqc_chat.Ratchet.Linked.{carry}
use pqc_chat.Ratchet.Turn.{Unseen}
use pqc_chat.Ratchet.Late.{Parcel}
use pqc_chat.Ratchet.Letters.{Conversation, Conversation-Held}

module _ (c : Crypto) where
  root_kdf-total :
      KdfLaws c
      → (root dh_out : Bytes)
      → (root' : Bytes) × (chain : Bytes) × (root_kdf c root dh_out [] ≡ ok (root', chain))
  unfolding root_kdf
  root_kdf-total laws root dh_out =
      let (out, gives, _) =
        laws.hkdf_gives (dh_out ++ []) root (codes "pqchat-v1-ratchet") 64 (omega arith) in
      (take 32 out, drop 32 out, rw gives refl)

  -- A message on a chain that was just entered leaves the root key as it is.
  keeps_root :
      (hdr : Header) (ct ad : Bytes) (b : State c) (p : c.DhPublic) (ck : Bytes)
      → lookup SkippedKey_discrete (hdr.dh_pub, hdr.n) b.skipped ≡ none
      → b.dh_remote ≡ some p
      → b.chain_recv ≡ some ck
      → hdr.dh_pub ≡ c.dh_bytes p
      → b.n_recv ≡ 0
      → hdr.n ≡ 1
      → (decrypt_message c hdr ct ad b).0.root_key ≡ b.root_key
  unfolding decrypt_message decrypt_with
  keeps_root hdr ct ad b p ck missing remote chain key zeroth number =
      let (s, skipped, kept) =
        skip_message_keys-Skips c b p ck 1 chain remote (omega arith) (omega (arith, zeroth)) in
      ap (λ q. q.0.root_key)
        (ap (decrypt_with c hdr ct ad) (take-none c hdr b missing)
          ∙ receive-eq c hdr ct ad b s (same_chain c hdr b p remote key)
              (ap (λ n. skip_message_keys c n b) (omega (arith, zeroth, number)) ∙ skipped))
      ∙ ap (λ t. t.root_key) kept.rest

  -- A header without ML-KEM material, numbered 1 on a new chain: the root key is derived from the
  -- X25519 secret alone.
  bare_entry :
      DhLaws c
      → KdfLaws c
      → (x : State c) (k key : c.DhPrivate) (old : c.DhPublic) (dh_out : Bytes) (hdr : Header)
        (ct ad : Bytes)
      → x.dh_remote ≡ some old
      → x.dh_self ≡ some k
      → x.peer_advertised_kem_pub ≡ none
      → Behind c x hdr.pn
      → c.dh k (c.dh_public key) ≡ ok dh_out
      → hdr.dh_pub ≡ key_of c key
      → hdr.n ≡ 1
      → hdr.mlkem_pub ≡ none
      → hdr.mlkem_ciphertext ≡ none
      → Unseen c x hdr.dh_pub
      → (chain : Bytes) × (root_kdf c x.root_key dh_out []
          ≡ ok ((decrypt_message c hdr ct ad x).0.root_key, chain))
  bare_entry dhs kdfs x k key old dh_out hdr ct ad known own clear behind agreed named number no_pub
        no_ct unseen =
      let (root, chain, derived) = root_kdf-total kdfs x.root_key dh_out in
      let other = unseen.other old known in
      let left = x.self_pending_kem_priv in
      let (x1, enters, entry) =
        enter_chain-Entered c hdr x k old (c.dh_public key) dh_out [] root chain none left known own
          clear other behind (ap c.dh_parse named ∙ dhs.dh_parse_bytes (c.dh_public key)) agreed
          (λ s same. ap (λ q. consume_ciphertext c q s) no_ct ∙ consumes_none c left s same) derived
          (subst (λ q. Advertises c q none) (sym no_pub) tt) in
      let missing =
        ap (λ t. lookup SkippedKey_discrete (hdr.dh_pub, hdr.n) t.skipped) entry.rest
        ∙ entry.others (hdr.dh_pub, hdr.n) other
        ∙ unseen.unstored hdr.n in
      let at : x1.dh_remote ≡ some (c.dh_public key) = ap (λ t. t.dh_remote) entry.rest in
      let kept : (decrypt_message c hdr ct ad x).0.root_key ≡ root =
        ap (λ q. q.0.root_key)
          (enter-decrypt c hdr ct ad x x1 (unseen.unstored hdr.n) missing enters
            (same_chain c hdr x1 (c.dh_public key) at named))
        ∙ keeps_root hdr ct ad x1 (c.dh_public key) chain missing at
            (ap (λ t. t.chain_recv) entry.rest) named (ap (λ t. t.n_recv) entry.rest) number
        ∙ ap (λ t. t.root_key) entry.rest in
      (chain, derived ∙ ap (λ r. ok (r, chain)) (sym kept))

  -- In any conversation, with messages of both parties on the way, under the laws of X25519, ML-KEM-768, the AEAD and HKDF: a party that owes an
  -- answer to an injected key sends two messages, and the second arrives first. Its header carries no
  -- ML-KEM ciphertext, so the receiver derives its root key from the X25519 secret alone, and the
  -- sender has derived its root key from that secret and the encapsulated one. The ratchet key is one of
  -- which the receiver has seen nothing.
  pub overtaken :
      AeadLaws c
      → DhLaws c
      → KemLaws c
      → KdfLaws c
      → (x y : State c) (ps qs : List (Parcel c)) (d d' : Draws c) (first second ad ad' : Bytes)
        (y1 y2 : State c) (hdr hdr' : Header) (ct ct' : Bytes) (p : c.KemPublic)
      → Conversation c x y ps qs
      → y.peer_advertised_kem_pub ≡ some p
      → encrypt_message c d first ad y ≡ (y1, ok (hdr, ct))
      → encrypt_message c d' second ad' y1 ≡ (y2, ok (hdr', ct'))
      → Unseen c x hdr'.dh_pub
      → (hdr'.mlkem_ciphertext ≡ none)
        × (dh_out : Bytes) × (chain : Bytes) × (chain' : Bytes) × (root_kdf c x.root_key dh_out
              (c.kem_encapsulate p d.encapsulation).1
            ≡ ok (y2.root_key, chain))
        × (root_kdf c x.root_key dh_out []
            ≡ ok ((decrypt_message c hdr' ct' ad' x).0.root_key, chain'))
  overtaken aead dhs kems kdfs x y ps qs d d' first second ad ad' y1 y2 hdr hdr' ct ct' p so_far
        owes e e' unseen =
      let h = Conversation-Held c aead dhs kems so_far in
      let k = h.key in
      let ck = h.chain in
      let gap = h.gap in
      let l = h.link in
      let o =
        encrypt-Opens c kems d first ad y y1 (c.dh_public k) hdr ct l.follows.remote l.idle l.ready
          e in
      let new = o.new in
      let started = o.after ∙ ap (count_sent c) new.injected.after in
      let sent =
        encrypt-Sent c d' second ad' y1 y2 new.key hdr' ct' (ap (λ t. t.dh_self) started)
          (ap (λ t. t.needs_new_sending_chain) started) e' in
      let no_ct = ap (λ h. h.mlkem_ciphertext) sent.header in
      let (chain, alone) =
        bare_entry dhs kdfs x k new.key l.old new.dh_out hdr' ct' ad' l.remote l.follows.own l.clear
          (carry c x x y.n_send hdr'.pn refl refl
            (sym (ap (λ h. h.pn) sent.header ∙ ap (λ t. t.pn) started)) l.behind)
          (dhs.dh_agrees k new.key ∙ new.agreed) (ap (λ h. h.dh_pub) sent.header)
          (ap (λ h. h.n) sent.header ∙ ap (λ t. t.n_send) started)
          (ap (λ h. h.mlkem_pub) sent.header) no_ct unseen in
      let sender : y2.root_key ≡ new.root =
        ap (λ t. t.root_key) sent.after ∙ ap (λ t. t.root_key) started in
      (
        no_ct,
        new.dh_out,
        new.chain,
        chain,
        ap (λ r. root_kdf c r new.dh_out (c.kem_encapsulate p d.encapsulation).1) l.root
            ∙ ap (λ q. root_kdf c y.root_key new.dh_out (answer c d q).1) (sym owes)
            ∙ new.derived
            ∙ ap (λ r. ok (r, new.chain)) (sym sender),
        alone,
      )
