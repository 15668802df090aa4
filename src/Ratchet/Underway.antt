-- ===== src/Ratchet/Underway.antt =====
-- A message that is sent and stays on the way.
use pqc_chat.Common.{
  ℕ, suc, ◌+◌, ◌^◌, ◌<◌, ◌≡◌, ◌≢◌, refl, sym, ap, ap₂, ◌∙◌, subst, inl, inr, List, ◌∷◌, none, arith,
  All-map,
}
use native.Mathlib.Nat.{mod-eq_of_lt}
use mathlib.Core.Option.{none-ne-some}
use pqc_chat.Common.Map.{lookup}
use pqc_chat.Result.{ok}
use pqc_chat.Crypto.{Crypto}
use pqc_chat.Ratchet.State.{State, SkippedKey_discrete, max_skip}
use pqc_chat.Ratchet.Sending.{Draws, associated_data_with_header, encrypt_message}
use pqc_chat.Ratchet.Kdf.{message_key, aead_seal}
use pqc_chat.Ratchet.Calls.{key_of}
use pqc_chat.Ratchet.Reordered.{encrypt-Sent}
use pqc_chat.Ratchet.Linked.{loses}
use pqc_chat.Ratchet.Late.{Parcel, place, Waits, Clean, Waits-move}
use pqc_chat.Ratchet.Held.{Held}

module _ (c : Crypto) where
  -- A parcel at the end of the chain has another place than those on the way.
  new_place :
      (y : State c) (k : c.DhPrivate) (p : Parcel c) (n : ℕ)
      → p.header.dh_pub ≡ key_of c k
      → p.header.n ≡ n
      → lookup SkippedKey_discrete (key_of c k, n) y.skipped ≡ none
      → (q : Parcel c) → Waits c y n q
      → place c p ≢ place c q
  new_place y k p n at number missing q (inl (key, found, sealed)) same = absurd (
      none-ne-some key (
        sym missing
        ∙ ap₂ (λ a i. lookup SkippedKey_discrete (a, i) y.skipped) (sym at) (sym number)
        ∙ ap (λ o. lookup SkippedKey_discrete o y.skipped) same
        ∙ found))
  new_place y k p n at number missing q (inr w) same =
      absurd (omega (arith, w.before, number, ap (λ o. o.1) same))

  -- The next message is sent, and is on the way.
  pub lost-Held :
      (x y x' : State c) (d : Draws c) (p : Parcel c) (ps qs : List (Parcel c))
      → Held c x y ps qs
      → x.n_send + 1 < 2 ^ 32
      → x.n_send < y.n_recv + max_skip
      → encrypt_message c d p.plaintext p.ad x ≡ (x', ok (p.header, p.ciphertext))
      → Held c x' y (p ∷ ps) qs
  lost-Held x y x' d p ps qs h small few e =
      let l = h.link in
      let sent =
        encrypt-Sent c d p.plaintext p.ad x x' h.key p.header p.ciphertext l.follows.own
          l.follows.turn e in
      let key : p.header.dh_pub ≡ key_of c h.key = ap (λ u. u.dh_pub) sent.header in
      let number : p.header.n ≡ x.n_send = ap (λ u. u.n) sent.header in
      let next : x'.n_send ≡ x.n_send + 1 = ap (λ u. u.n_send) sent.after ∙ mod-eq_of_lt small in
      record {
        key = h.key;
        chain = h.chain;
        gap = suc h.gap;
        link =
            loses c x y h.key h.chain h.gap d p.plaintext p.ad x' p.header p.ciphertext l small few
              e;
        clean = subst (Clean c) (sym sent.after) h.clean;
        to_listener = (
          inr (record {
            remote = c.dh_public h.key;
            chain = h.chain;
            ahead = h.gap;
            known = l.follows.remote;
            at = l.follows.receiving;
            key = key;
            number = number ∙ l.follows.number;
            before = omega (arith, number, next);
            sealed =
                ap
                  (λ k.
                    aead_seal c (message_key c k) p.plaintext
                      (associated_data_with_header p.header p.ad))
                  (sym l.follows.sending)
                ∙ sent.sealed;
          }),
          All-map (Waits c y x.n_send) (Waits c y x'.n_send)
              (λ q. Waits-move c y y x.n_send x'.n_send q refl refl refl refl (omega (arith, next)))
              ps h.to_listener,
        );
        to_speaker =
            All-map (Waits c x y.n_send) (Waits c x' y.n_send)
              (λ q.
                Waits-move c x x' y.n_send y.n_send q (ap (λ u. u.skipped) sent.after)
                  (ap (λ u. u.dh_remote) sent.after) (ap (λ u. u.chain_recv) sent.after)
                  (ap (λ u. u.n_recv) sent.after) (omega arith))
              qs h.to_speaker;
        distinct = (
          All-map (Waits c y x.n_send) (λ q. place c p ≢ place c q)
              (new_place y h.key p x.n_send key number
                (l.fresh x.n_send (omega (arith, l.follows.number))))
              ps h.to_listener,
          h.distinct,
        );
        apart = h.apart;
      }
