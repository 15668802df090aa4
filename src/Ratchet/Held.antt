-- ===== src/Ratchet/Held.antt =====
-- Two parties that take turns, with the messages of each that are on the way.
use pqc_chat.Common.{ℕ, ◌≡◌, refl, sym, ap, ◌∙◌, subst, inl, List, some, Bytes, arith, All, All-map}
use mathlib.Core.Option.{some-injective}
use pqc_chat.Common.Map.{lookup}
use pqc_chat.Crypto.{Crypto}
use pqc_chat.Ratchet.State.{State, SkippedKey_discrete}
use pqc_chat.Ratchet.Sending.{count_sent}
use pqc_chat.Ratchet.Receiving.{advance_receiving}
use pqc_chat.Ratchet.Skipping.{Skips}
use pqc_chat.Ratchet.Calls.{key_of}
use pqc_chat.Ratchet.Entering.{Behind, keyed, publics}
use pqc_chat.Ratchet.Linked.{Linked, carry}
use pqc_chat.Ratchet.Turn.{Answer}
use pqc_chat.Ratchet.Late.{
  Parcel, place, Waits, Clean, Stored-move, skip-Stored, passed-Stored, Waits-move,
}
use pqc_chat.Ratchet.Post.{Distinct, Caught}

module _ (c : Crypto) where
  -- `x` spoke last; `ps` are on the way to `y`, and `qs` to `x`.
  pub record Held (x y : State c) (ps qs : List (Parcel c)) : Type 0 where
    pub key : c.DhPrivate
    pub chain : Bytes
    pub gap : ℕ
    pub link : Linked c x y key chain gap
    pub clean : Clean c x
    pub to_listener : All (Waits c y x.n_send) ps
    pub to_speaker : All (Waits c x y.n_send) qs
    pub distinct : Distinct c ps
    pub apart : Distinct c qs

  pub Linked-Clean :
      (x y : State c) (k : c.DhPrivate) (ck : Bytes) (gap : ℕ) → Linked c x y k ck gap → Clean c y
  Linked-Clean x y k ck gap l r known n far =
      ap (λ q. lookup SkippedKey_discrete (c.dh_bytes q, n) y.skipped)
        (some-injective r (c.dh_public k) (sym known ∙ l.follows.remote))
      ∙ l.fresh n far

  pub Linked-Behind :
      (x y : State c) (k : c.DhPrivate) (ck : Bytes) (gap : ℕ)
      → Linked c x y k ck gap
      → Behind c y x.n_send
  Linked-Behind x y k ck gap l = keyed ck gap l.follows.receiving l.follows.number l.near l.small

  -- The listener receives a message that was on the way.
  pub listener-Linked :
      (x y : State c) (k : c.DhPrivate) (ck : Bytes) (gap : ℕ) (p : Parcel c)
      (rest : List (Parcel c))
      → Linked c x y k ck gap
      → (g : Caught c y x.n_send p rest) → (ck' : Bytes) × (gap' : ℕ) × Linked c x g.left k ck' gap'
  listener-Linked x y k ck gap p rest l g =
      let (ck', gap', at, number, fewer, same) =
        g.lead ck gap l.follows.receiving l.follows.number in
      let remote : g.left.dh_remote ≡ some (c.dh_public k) =
        ap (λ s. s.dh_remote) g.same ∙ l.follows.remote in
      (
        ck',
        gap',
        record {
          follows = record {
            own = l.follows.own;
            turn = l.follows.turn;
            remote = remote;
            receiving = at;
            sending = l.follows.sending ∙ same;
            number = number;
          };
          near = omega (arith, fewer, l.near);
          small = l.small;
          ready = ap (λ s. s.needs_new_sending_chain) g.same ∙ l.ready;
          root = l.root ∙ sym (ap (λ s. s.root_key) g.same);
          old = l.old;
          remote = l.remote;
          clear = l.clear;
          idle = ap (λ s. s.self_pending_kem_priv) g.same ∙ l.idle;
          pending = ap (λ s. s.peer_advertised_kem_pub) g.same ∙ l.pending;
          behind =
              carry c x x y.n_send g.left.n_send refl refl (sym (ap (λ s. s.n_send) g.same))
                l.behind;
          fresh = g.clean (c.dh_public k) remote;
        },
      )

  -- The speaker receives a message that was on the way.
  pub speaker-Linked :
      (x y : State c) (k : c.DhPrivate) (ck : Bytes) (gap : ℕ) (p : Parcel c)
      (rest : List (Parcel c))
      → Linked c x y k ck gap
      → (g : Caught c x y.n_send p rest) → Linked c g.left y k ck gap
  speaker-Linked x y k ck gap p rest l g =
      let number : g.left.n_send ≡ x.n_send = ap (λ s. s.n_send) g.same in
      record {
        follows = record {
          own = ap (λ s. s.dh_self) g.same ∙ l.follows.own;
          turn = ap (λ s. s.needs_new_sending_chain) g.same ∙ l.follows.turn;
          remote = l.follows.remote;
          receiving = l.follows.receiving;
          sending = ap (λ s. s.chain_send) g.same ∙ l.follows.sending;
          number = number ∙ l.follows.number;
        };
        near = l.near;
        small = omega (arith, number, l.small);
        ready = l.ready;
        root = ap (λ s. s.root_key) g.same ∙ l.root;
        old = l.old;
        remote = ap (λ s. s.dh_remote) g.same ∙ l.remote;
        clear = ap (λ s. s.peer_advertised_kem_pub) g.same ∙ l.clear;
        idle = l.idle;
        pending = l.pending ∙ sym (ap (λ s. publics c s.self_pending_kem_priv) g.same);
        behind = g.behind;
        fresh = l.fresh;
      }

  -- The next message arrives: the keys of those on the way are then stored.
  pub spoken-Held :
      (x y x' s : State c) (ps qs : List (Parcel c)) {ck : Bytes}
      → (h : Held x y ps qs) → x' ≡ count_sent c x
      → Skips c y s (key_of c h.key) h.chain h.gap
      → Linked c x' (advance_receiving c s) h.key ck 0
      → Held x' (advance_receiving c s) ps qs
  spoken-Held x y x' s ps qs {ck} h sent kept m = record {
    key = h.key;
    chain = ck;
    gap = 0;
    link = m;
    clean = subst (Clean c) (sym sent) h.clean;
    to_listener =
        All-map (Waits c y x.n_send) (Waits c (advance_receiving c s) x'.n_send)
          (λ p w. inl (
            skip-Stored c y s (c.dh_public h.key) h.chain h.gap p h.link.follows.remote
              h.link.follows.receiving (Linked-Clean x y h.key h.chain h.gap h.link) kept
              (subst (λ n. Waits c y n p) h.link.follows.number w)))
          ps h.to_listener;
    to_speaker =
        All-map (Waits c x y.n_send) (Waits c x' s.n_send)
          (λ p.
            Waits-move c x x' y.n_send s.n_send p (ap (λ t. t.skipped) sent)
              (ap (λ t. t.dh_remote) sent) (ap (λ t. t.chain_recv) sent) (ap (λ t. t.n_recv) sent)
              (omega (arith, ap (λ t. t.n_send) kept.rest)))
          qs h.to_speaker;
    distinct = h.distinct;
    apart = h.apart;
  }

  -- An answer arrives.
  pub answered-Held :
      (x y x' y' : State c) (key : c.DhPrivate) (ck : Bytes) (ps qs : List (Parcel c))
      → (h : Held x y ps qs) → Linked c y' x' key ck 0
      → Answer c x y x' y'
      → Held y' x' qs ps
  answered-Held x y x' y' key ck ps qs h m a = record {
    key = key;
    chain = ck;
    gap = 0;
    link = m;
    clean = λ r known n far.
        ap (lookup SkippedKey_discrete (c.dh_bytes r, n)) a.skipped
        ∙ Linked-Clean x y h.key h.chain h.gap h.link r (sym a.remote ∙ known) n
            (omega (arith, far, a.number));
    to_listener =
        All-map (Waits c x y.n_send) (Waits c x' y'.n_send)
          (λ p w. inl (
            Stored-move c a.passed x' p (a.keys (place c p)) (
              passed-Stored c x a.passed h.link.old y.n_send p h.link.remote h.clean h.link.behind
                a.skipping w)))
          qs h.to_speaker;
    to_speaker =
        All-map (Waits c y x.n_send) (Waits c y' x'.n_send)
          (λ p.
            Waits-move c y y' x.n_send x'.n_send p a.skipped a.remote a.chain a.number
              (omega (arith, a.sent)))
          ps h.to_listener;
    distinct = h.apart;
    apart = h.distinct;
  }
