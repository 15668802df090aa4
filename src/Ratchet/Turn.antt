-- ===== src/Ratchet/Turn.antt =====
-- The answer of the other party: one DH ratchet step on each side, with the injection that is pending.
use pqc_chat.Common.{
  ℕ, ◌+◌, ◌^◌, ◌<◌, ◌≡◌, ◌≢◌, refl, sym, ap, ap₂, ◌∙◌, subst, Option, none, some, Bytes, arith,
}
use pqc_chat.Common.Map.{lookup}
use pqc_chat.Result.{ok}
use pqc_chat.Crypto.{Crypto, AeadLaws, DhLaws, KemLaws}
use pqc_chat.Ratchet.Header.{Header}
use pqc_chat.Ratchet.Kdf.{root_kdf, next_chain_key}
use pqc_chat.Ratchet.State.{State, SkippedKey, SkippedKey_discrete, increment}
use pqc_chat.Ratchet.Sending.{Draws, count_sent, encrypt_message}
use pqc_chat.Ratchet.Receiving.{
  skip_message_keys, decrypt_message, enter_chain, consume_ciphertext, advance_receiving,
}
use pqc_chat.Ratchet.Skipping.{Skips, moved}
use pqc_chat.Ratchet.Calls.{enter-decrypt, key_of, same_chain}
use pqc_chat.Ratchet.Starting.{NewChain, answer, turned}
use pqc_chat.Ratchet.Opening.{encrypt-Opens}
use pqc_chat.Ratchet.Delivery.{Follows, opens, opens-Follows}
use pqc_chat.Ratchet.Entering.{keyed, Entered, entered, publics, enter_chain-Entered, consumes}
use pqc_chat.Ratchet.Linked.{Linked, carry}

module _ (c : Crypto) where
  -- `x` has seen nothing of the ratchet key of a header.
  pub record Unseen (x : State c) (key : Bytes) : Type 0 where
    pub other : (p : c.DhPublic) → x.dh_remote ≡ some p → key ≢ c.dh_bytes p
    pub unstored : (n : ℕ) → lookup SkippedKey_discrete (key, n) x.skipped ≡ none

  -- The state that `y` sends from, and the state in which `x` receives.
  pub record Met (y y1 x x1 : State c) (key : c.DhPrivate) (old : c.DhPublic) (chain root : Bytes)
      (hdr : Header) : Type 0 where
    pub new_pending : Option c.KemPrivate
    pub since : ℕ
    pub last : ℕ
    pub y_after : y1 ≡ record (turned c y key root chain) {
      self_pending_kem_priv = new_pending;
      msgs_since_inject = since;
      last_inject = last;
    }
    pub x_after :
        Entered c x x1 old (c.dh_public key) root chain (publics c new_pending) none hdr.pn
    pub enters : enter_chain c hdr x.dh_remote x ≡ (x1, ok tt)

  meets :
      DhLaws c
      → KemLaws c
      → (x y y1 : State c) (k : c.DhPrivate) (ck : Bytes) (gap : ℕ) (d : Draws c) (hdr : Header)
      → (l : Linked c x y k ck gap) → (new : NewChain c d y y1 (c.dh_public k) hdr)
      → hdr.dh_pub ≡ key_of c new.key
      → hdr.dh_pub ≢ c.dh_bytes l.old
      → (x1 : State c) × Met y y1 x x1 new.key l.old new.chain new.root hdr
  meets dhs kems x y y1 k ck gap d hdr l new key unseen =
      let secret = (answer c d (publics c x.self_pending_kem_priv)).1 in
      let (x1, enters, after) =
        enter_chain-Entered c hdr x k l.old (c.dh_public new.key) new.dh_out secret new.root
          new.chain new.injected.pending none l.remote l.follows.own l.clear unseen
          (carry c x x y.n_send hdr.pn refl refl (sym new.last_chain) l.behind)
          (ap c.dh_parse key ∙ dhs.dh_parse_bytes (c.dh_public new.key))
          (dhs.dh_agrees k new.key ∙ new.agreed)
          (λ s same.
            ap (λ o. consume_ciphertext c o s)
              (new.ciphertext ∙ ap (λ q. (answer c d q).0) l.pending)
            ∙ consumes c kems d x.self_pending_kem_priv s same)
          (ap₂ (λ r q. root_kdf c r new.dh_out (answer c d q).1) l.root (sym l.pending)
            ∙ new.derived)
          new.injected.advertises in
      (
        x1,
        record {
          new_pending = new.injected.pending;
          since = new.injected.since;
          last = new.injected.last;
          y_after = new.injected.after;
          x_after = after;
          enters = enters;
        },
      )

  Met-Follows :
      (y y1 x x1 : State c) (key : c.DhPrivate) (old : c.DhPublic) (chain root : Bytes)
      (hdr : Header)
      → Met y y1 x x1 key old chain root hdr
      → Follows c y1 x1 key chain 0
  Met-Follows y y1 x x1 key old chain root hdr m = record {
    own = ap (λ t. t.dh_self) m.y_after;
    turn = ap (λ t. t.needs_new_sending_chain) m.y_after;
    remote = ap (λ t. t.dh_remote) m.x_after.rest;
    receiving = ap (λ t. t.chain_recv) m.x_after.rest;
    sending = ap (λ t. t.chain_send) m.y_after;
    number = ap (λ t. t.n_send) m.y_after ∙ sym (ap (λ t. t.n_recv + 0) m.x_after.rest);
  }

  Met-unstored :
      (y y1 x x1 : State c) (key : c.DhPrivate) (old : c.DhPublic) (chain root : Bytes)
      (hdr : Header) (q : Bytes) (n : ℕ)
      → Met y y1 x x1 key old chain root hdr
      → q ≢ c.dh_bytes old
      → Unseen x q
      → lookup SkippedKey_discrete (q, n) x1.skipped ≡ none
  Met-unstored y y1 x x1 key old chain root hdr q n m new unseen =
      ap (λ t. lookup SkippedKey_discrete (q, n) t.skipped) m.x_after.rest
      ∙ m.x_after.others (q, n) new
      ∙ unseen.unstored n

  -- After the answer has arrived, the parties have changed places.
  turned-Linked :
      (x y y1 x1 s : State c) (k key : c.DhPrivate) (ck chain root : Bytes) (gap : ℕ) (hdr : Header)
      → (l : Linked c x y k ck gap) → (m : Met y y1 x x1 key l.old chain root hdr)
      → Skips c x1 s (key_of c key) chain 0
      → key_of c key ≢ c.dh_bytes l.old
      → Unseen x (key_of c key)
      → Linked c (count_sent c y1) (advance_receiving c s) key (next_chain_key c y1.chain_send) 0
  turned-Linked x y y1 x1 s k key ck chain root gap hdr l m kept new unseen =
      let x_end : s
          ≡ moved c (entered c x (c.dh_public key) root chain (publics c m.new_pending) none)
              s.chain_recv s.n_recv s.skipped =
        kept.rest ∙ ap (λ t. moved c t s.chain_recv s.n_recv s.skipped) m.x_after.rest in
      let first : y1.n_send ≡ 0 = ap (λ t. t.n_send) m.y_after in
      let second : increment y1.n_send ≡ 1 = ap increment first in
      record {
        follows =
            opens-Follows c y1 x1 s key chain 0 (Met-Follows y y1 x x1 key l.old chain root hdr m)
              kept;
        near = omega arith;
        small = omega (arith, second);
        ready = ap (λ t. t.needs_new_sending_chain) x_end;
        root = ap (λ t. t.root_key) m.y_after ∙ sym (ap (λ t. t.root_key) x_end);
        old = c.dh_public k;
        remote = ap (λ t. t.dh_remote) m.y_after ∙ l.follows.remote;
        clear = ap (λ t. t.peer_advertised_kem_pub) m.y_after;
        idle = ap (λ t. t.self_pending_kem_priv) x_end;
        pending =
            ap (λ t. t.peer_advertised_kem_pub) x_end
            ∙ sym (ap (λ t. publics c t.self_pending_kem_priv) m.y_after);
        behind =
            keyed ck gap (ap (λ t. t.chain_recv) m.y_after ∙ l.follows.receiving)
              (ap (λ t. t.n_send) x_end
                ∙ l.follows.number
                ∙ ap (λ t. t.n_recv + gap) (sym m.y_after))
              l.near (subst (λ n. n < 2 ^ 32) (sym (ap (λ t. t.n_send) x_end)) l.small);
        fresh = λ n _.
            kept.others (key_of c key, n) (λ j below _. absurd (omega (arith, below)))
            ∙ Met-unstored y y1 x x1 key l.old chain root hdr (key_of c key) n m new unseen;
      }

  -- What an answer leaves of the keys that `x` has stored, and of the receiving side of `y`.
  pub record Answer (x y x' y' : State c) : Type 0 where
    pub passed : State c
    pub skipping : skip_message_keys c y.n_send x ≡ (passed, ok tt)
    pub keys :
        (q : SkippedKey)
        → lookup SkippedKey_discrete q x'.skipped ≡ lookup SkippedKey_discrete q passed.skipped
    pub sent : x'.n_send ≡ x.n_send
    pub skipped : y'.skipped ≡ y.skipped
    pub remote : y'.dh_remote ≡ y.dh_remote
    pub chain : y'.chain_recv ≡ y.chain_recv
    pub number : y'.n_recv ≡ y.n_recv

  Met-Answer :
      (x y y1 x1 s : State c) (key : c.DhPrivate) (old : c.DhPublic) (chain root : Bytes)
      (hdr : Header)
      → (m : Met y y1 x x1 key old chain root hdr) → hdr.pn ≡ y.n_send
      → Skips c x1 s (key_of c key) chain 0
      → Answer x y (advance_receiving c s) (count_sent c y1)
  Met-Answer x y y1 x1 s key old chain root hdr m pn kept = record {
    passed = m.x_after.passed;
    skipping = ap (λ n. skip_message_keys c n x) (sym pn) ∙ m.x_after.skipping;
    keys = λ q.
        kept.others q (λ j below _. absurd (omega (arith, below)))
        ∙ ap (λ t. lookup SkippedKey_discrete q t.skipped) m.x_after.rest;
    sent = ap (λ t. t.n_send) kept.rest ∙ ap (λ t. t.n_send) m.x_after.rest;
    skipped = ap (λ t. t.skipped) m.y_after;
    remote = ap (λ t. t.dh_remote) m.y_after;
    chain = ap (λ t. t.chain_recv) m.y_after;
    number = ap (λ t. t.n_recv) m.y_after;
  }

  -- The answer, from its encryption to its decryption.
  pub answers :
      AeadLaws c
      → DhLaws c
      → KemLaws c
      → (x y : State c) (k : c.DhPrivate) (ck : Bytes) (gap : ℕ) (d : Draws c)
        (plaintext ad : Bytes) (y' : State c) (hdr : Header) (ct : Bytes)
      → Linked c x y k ck gap
      → Unseen x hdr.dh_pub
      → encrypt_message c d plaintext ad y ≡ (y', ok (hdr, ct))
      → (x' : State c) × (key : c.DhPrivate) × (chain : Bytes) × (decrypt_message c hdr ct ad x
          ≡ (x', ok plaintext))
        × Linked c y' x' key chain 0
        × Answer x y x' y'
  answers aead dhs kems x y k ck gap d plaintext ad y' hdr ct l unseen e =
      let o =
        encrypt-Opens c kems d plaintext ad y y' (c.dh_public k) hdr ct l.follows.remote l.idle
          l.ready e in
      let key = o.new.key in
      let y1 = o.begun in
      let other = unseen.other l.old l.remote in
      let (x1, m) = meets dhs kems x y y1 k ck gap d hdr l o.new o.dh_pub other in
      let f = Met-Follows y y1 x x1 key l.old o.new.chain o.new.root hdr m in
      let missing =
        Met-unstored y y1 x x1 key l.old o.new.chain o.new.root hdr hdr.dh_pub hdr.n m other
          unseen in
      let (s, opened, kept) =
        opens c aead y1 x1 key o.new.chain 0 plaintext ad hdr ct f (omega arith)
          (omega (arith, ap (λ t. t.n_send) m.y_after)) o.dh_pub o.number missing o.sealed in
      (
        advance_receiving c s,
        key,
        next_chain_key c y1.chain_send,
        enter-decrypt c hdr ct ad x x1 (unseen.unstored hdr.n) missing m.enters
              (same_chain c hdr x1 (c.dh_public key) f.remote o.dh_pub)
            ∙ opened,
        subst (λ t. Linked c t (advance_receiving c s) key (next_chain_key c y1.chain_send) 0)
            (sym o.after)
            (turned-Linked x y y1 x1 s k key ck o.new.chain o.new.root gap hdr l m kept
              (subst (λ q. q ≢ c.dh_bytes l.old) o.dh_pub other)
              (subst (Unseen x) o.dh_pub unseen)),
        subst (Answer x y (advance_receiving c s)) (sym o.after)
            (Met-Answer x y y1 x1 s key l.old o.new.chain o.new.root hdr m o.new.last_chain kept),
      )
