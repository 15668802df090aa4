-- ===== src/Ratchet/Linked.antt =====
-- The invariant of two ratchet states between messages, and the messages of the party that spoke last.
use native.Mathlib.Nat.{mod-eq_of_lt}
use pqc_chat.Common.{
  ℕ, suc, ◌+◌, ◌^◌, ◌≤◌, ◌<◌, ◌≡◌, ◌≢◌, refl, sym, ap, ◌∙◌, subst, true, none, some, Bytes, arith,
}
use pqc_chat.Common.Map.{lookup}
use pqc_chat.Result.{ok}
use pqc_chat.Crypto.{Crypto, AeadLaws}
use pqc_chat.Ratchet.Header.{Header}
use pqc_chat.Ratchet.Kdf.{next_chain_key}
use pqc_chat.Ratchet.State.{State, SkippedKey_discrete, increment, max_skip}
use pqc_chat.Ratchet.Sending.{Draws, count_sent, encrypt_message}
use pqc_chat.Ratchet.Receiving.{decrypt_message, advance_receiving}
use pqc_chat.Ratchet.Skipping.{Skips}
use pqc_chat.Ratchet.Calls.{key_of}
use pqc_chat.Ratchet.Delivery.{Follows, opens, opens-Follows}
use pqc_chat.Ratchet.Reordered.{encrypt-Sent, missed}
use pqc_chat.Ratchet.Entering.{Behind, unkeyed, keyed, publics}

module _ (c : Crypto) where
  -- `x` spoke last, with the key `k`, and `y` may answer: `y` has not seen the last `gap` messages of
  -- `x`, and its chain is at `ck`.
  pub record Linked (x y : State c) (k : c.DhPrivate) (ck : Bytes) (gap : ℕ) : Type 0 where
    pub follows : Follows c x y k ck gap
    pub near : gap ≤ max_skip
    pub small : x.n_send < 2 ^ 32
    pub ready : y.needs_new_sending_chain ≡ true
    pub root : x.root_key ≡ y.root_key
    pub old : c.DhPublic
    pub remote : x.dh_remote ≡ some old
    pub clear : x.peer_advertised_kem_pub ≡ none
    pub idle : y.self_pending_kem_priv ≡ none
    pub pending : y.peer_advertised_kem_pub ≡ publics c x.self_pending_kem_priv
    pub behind : Behind c x y.n_send
    pub fresh : (n : ℕ) → y.n_recv ≤ n → lookup SkippedKey_discrete (key_of c k, n) y.skipped ≡ none

  pub carry :
      (s t : State c) (n m : ℕ)
      → s.chain_recv ≡ t.chain_recv
      → s.n_recv ≡ t.n_recv
      → n ≡ m
      → Behind c s n
      → Behind c t m
  carry s t n m chain number same (unkeyed nil) = unkeyed (sym chain ∙ nil)
  carry s t n m chain number same (keyed ck gap at count few small) =
      keyed ck gap (sym chain ∙ at) (sym same ∙ count ∙ ap (λ i. i + gap) number) few
        (subst (λ i. i < 2 ^ 32) same small)

  -- A number at or past the end of what was skipped has no key among the skipped ones.
  pub past :
      (y s : State c) (k : c.DhPrivate) (ck : Bytes) (gap n : ℕ)
      → Skips c y s (key_of c k) ck gap
      → y.n_recv + gap ≤ n
      → lookup SkippedKey_discrete (key_of c k, n) s.skipped
        ≡ lookup SkippedKey_discrete (key_of c k, n) y.skipped
  past y s k ck gap n kept far =
      kept.others (key_of c k, n) λ j below e. absurd (clash j below (ap (λ q. q.1) e))
    where
      clash : (j : ℕ) → j < gap → y.n_recv + j ≢ n
      clash j below e = absurd (omega (arith, below, e, far))

  opened-Linked :
      (x y s : State c) (k : c.DhPrivate) (ck : Bytes) (gap : ℕ)
      → (l : Linked x y k ck gap) → x.n_send + 1 < 2 ^ 32
      → Skips c y s (key_of c k) ck gap
      → Linked (count_sent c x) (advance_receiving c s) k (next_chain_key c x.chain_send) 0
  opened-Linked x y s k ck gap l small kept =
      let sent : increment x.n_send ≡ x.n_send + 1 = mod-eq_of_lt small in
      let count : s.n_recv ≡ x.n_send = kept.number ∙ sym l.follows.number in
      record {
        follows = opens-Follows c x y s k ck gap l.follows kept;
        near = omega arith;
        small = omega (arith, sent, small);
        ready = ap (λ t. t.needs_new_sending_chain) kept.rest ∙ l.ready;
        root = l.root ∙ sym (ap (λ t. t.root_key) kept.rest);
        old = l.old;
        remote = l.remote;
        clear = l.clear;
        idle = ap (λ t. t.self_pending_kem_priv) kept.rest ∙ l.idle;
        pending = ap (λ t. t.peer_advertised_kem_pub) kept.rest ∙ l.pending;
        behind =
            carry x (count_sent c x) y.n_send s.n_send refl refl
              (sym (ap (λ t. t.n_send) kept.rest)) l.behind;
        fresh = λ n far.
            past y s k ck gap n kept
              (omega (arith, far, sent, count, kept.number, ap increment count))
            ∙ l.fresh n (omega (arith, far, sent, count, kept.number, ap increment count));
      }

  -- The next message of the party that spoke last.
  pub speaks :
      AeadLaws c
      → (x y : State c) (k : c.DhPrivate) (ck : Bytes) (gap : ℕ) (d : Draws c)
        (plaintext ad : Bytes) (x' : State c) (hdr : Header) (ct : Bytes)
      → Linked x y k ck gap
      → x.n_send + 1 < 2 ^ 32
      → encrypt_message c d plaintext ad x ≡ (x', ok (hdr, ct))
      → (s : State c) × (decrypt_message c hdr ct ad y ≡ (advance_receiving c s, ok plaintext))
        × Skips c y s (key_of c k) ck gap
        × Linked x' (advance_receiving c s) k (next_chain_key c x.chain_send) 0
  speaks laws x y k ck gap d plaintext ad x' hdr ct l small e =
      let sent = encrypt-Sent c d plaintext ad x x' k hdr ct l.follows.own l.follows.turn e in
      let key : hdr.dh_pub ≡ key_of c k = ap (λ h. h.dh_pub) sent.header in
      let number : hdr.n ≡ x.n_send = ap (λ h. h.n) sent.header in
      let missing : lookup SkippedKey_discrete (hdr.dh_pub, hdr.n) y.skipped ≡ none =
        ap (λ h. lookup SkippedKey_discrete (h.dh_pub, h.n) y.skipped) sent.header
        ∙ l.fresh x.n_send (omega (arith, l.follows.number)) in
      let (s, opened, kept) =
        opens c laws x y k ck gap plaintext ad hdr ct l.follows l.near l.small key number missing
          sent.sealed in
      (
        s,
        opened,
        kept,
        subst (λ a. Linked a (advance_receiving c s) k (next_chain_key c x.chain_send) 0)
            (sym sent.after) (opened-Linked x y s k ck gap l small kept),
      )

  -- A message of the party that spoke last that does not arrive.
  pub loses :
      (x y : State c) (k : c.DhPrivate) (ck : Bytes) (gap : ℕ) (d : Draws c) (plaintext ad : Bytes)
      (x' : State c) (hdr : Header) (ct : Bytes)
      → Linked x y k ck gap
      → x.n_send + 1 < 2 ^ 32
      → x.n_send < y.n_recv + max_skip
      → encrypt_message c d plaintext ad x ≡ (x', ok (hdr, ct))
      → Linked x' y k ck (suc gap)
  loses x y k ck gap d plaintext ad x' hdr ct l small few e =
      let sent = encrypt-Sent c d plaintext ad x x' k hdr ct l.follows.own l.follows.turn e in
      let next : increment x.n_send ≡ x.n_send + 1 = mod-eq_of_lt small in
      subst (λ a. Linked a y k ck (suc gap)) (sym sent.after)
        (record {
          follows = missed c x (count_sent c x) y k ck gap refl l.follows small;
          near = omega (arith, few, l.follows.number);
          small = omega (arith, next, small);
          ready = l.ready;
          root = l.root;
          old = l.old;
          remote = l.remote;
          clear = l.clear;
          idle = l.idle;
          pending = l.pending;
          behind = carry x (count_sent c x) y.n_send y.n_send refl refl refl l.behind;
          fresh = l.fresh;
        })
