-- ===== src/Ratchet/Late.antt =====
-- Messages of a conversation that arrive late.
use mathlib.Core.Option.{some-injective, none-ne-some}
use pqc_chat.Common.{
  ℕ, ◌+◌, ◌^◌, ◌≤◌, ◌<◌, ◌≡◌, sym, ap, ap₂, ◌∙◌, subst, ◌⊎◌, inl, inr, none, some, Bytes, arith,
}
use pqc_chat.Common.Map.{lookup}
use pqc_chat.Result.{ok}
use pqc_chat.Crypto.{Crypto}
use pqc_chat.Ratchet.Header.{Header}
use pqc_chat.Ratchet.Kdf.{message_key, aead_seal}
use pqc_chat.Ratchet.State.{State, SkippedKey, SkippedKey_discrete}
use pqc_chat.Ratchet.Sending.{associated_data_with_header}
use pqc_chat.Ratchet.Receiving.{skip_on, skip_message_keys}
use pqc_chat.Ratchet.Skipping.{Skips, chain_after, skip_message_keys-Skips}
use pqc_chat.Ratchet.Entering.{Behind, unkeyed, keyed}

module _ (c : Crypto) where
  -- A message that was sent and has not arrived.
  pub record Parcel : Type 0 where
    pub header : Header
    pub ciphertext : Bytes
    pub ad : Bytes
    pub plaintext : Bytes

  abbrev pub place : Parcel → SkippedKey
  place p = (p.header.dh_pub, p.header.n)

  -- The key that a parcel was sealed with.
  abbrev pub SealedBy : Parcel → Bytes → Type 0
  SealedBy p key =
      aead_seal c key p.plaintext (associated_data_with_header p.header p.ad) ≡ ok p.ciphertext

  -- Its receiver has stored the key.
  abbrev pub Stored : State c → Parcel → Type 0
  Stored s p =
      (key : Bytes) × (lookup SkippedKey_discrete (place p) s.skipped ≡ some key) × SealedBy p key

  -- Its receiver has not come to it on the receiving chain, on which `next` is the next number.
  pub record Awaited (s : State c) (next : ℕ) (p : Parcel) : Type 0 where
    pub remote : c.DhPublic
    pub chain : Bytes
    pub ahead : ℕ
    pub known : s.dh_remote ≡ some remote
    pub at : s.chain_recv ≡ some chain
    pub key : p.header.dh_pub ≡ c.dh_bytes remote
    pub number : p.header.n ≡ s.n_recv + ahead
    pub before : p.header.n < next
    pub sealed : SealedBy p (message_key c (chain_after c chain ahead))

  abbrev pub Waits : State c → ℕ → Parcel → Type 0
  Waits s next p = Stored s p ⊎ Awaited s next p

  -- No key is stored that the receiving chain has still to give.
  abbrev pub Clean : State c → Type 0
  Clean s =
      (r : c.DhPublic)
      → s.dh_remote ≡ some r
      → (n : ℕ) → s.n_recv ≤ n
      → lookup SkippedKey_discrete (c.dh_bytes r, n) s.skipped ≡ none

  pub Stored-move :
      (s t : State c) (p : Parcel)
      → lookup SkippedKey_discrete (place p) t.skipped
        ≡ lookup SkippedKey_discrete (place p) s.skipped
      → Stored s p
      → Stored t p
  Stored-move s t p same (key, found, sealed) = (key, same ∙ found, sealed)

  -- A key that is stored stays.
  pub keeps-Stored :
      (s s' : State c) (r : c.DhPublic) (ck : Bytes) (rounds : ℕ) (p : Parcel)
      → s.dh_remote ≡ some r
      → Clean s
      → Skips c s s' (c.dh_bytes r) ck rounds
      → Stored s p
      → Stored s' p
  keeps-Stored s s' r ck rounds p known clean kept (key, found, sealed) =
      Stored-move s s' p
        (kept.others (place p) λ j below e. absurd (
          none-ne-some key (
            sym (clean r known (s.n_recv + j) (omega arith))
            ∙ ap (λ q. lookup SkippedKey_discrete q s.skipped) e
            ∙ found)))
        (key, found, sealed)

  -- `skipMessageKeys` past the parcel stores its key.
  pub passes-Stored :
      (s s' : State c) (r : c.DhPublic) (ck : Bytes) (rounds next : ℕ) (p : Parcel)
      → s.dh_remote ≡ some r
      → s.chain_recv ≡ some ck
      → Skips c s s' (c.dh_bytes r) ck rounds
      → (w : Awaited s next p) → w.ahead < rounds
      → Stored s' p
  passes-Stored s s' r ck rounds next p known at kept w below =
      let same_chain : w.chain ≡ ck = some-injective w.chain ck (sym w.at ∙ at) in
      let same_key : w.remote ≡ r = some-injective w.remote r (sym w.known ∙ known) in
      let here : place p ≡ (c.dh_bytes r, s.n_recv + w.ahead) =
        ap₂ (λ a n. (a, n)) (w.key ∙ ap c.dh_bytes same_key) w.number in
      (
        message_key c (chain_after c ck w.ahead),
        ap (λ q. lookup SkippedKey_discrete q s'.skipped) here ∙ kept.stored w.ahead below,
        subst (λ q. SealedBy p (message_key c (chain_after c q w.ahead))) same_chain w.sealed,
      )

  -- `skipMessageKeys` up to the end of the parcels.
  pub skip-Stored :
      (s s' : State c) (r : c.DhPublic) (ck : Bytes) (rounds : ℕ) (p : Parcel)
      → s.dh_remote ≡ some r
      → s.chain_recv ≡ some ck
      → Clean s
      → Skips c s s' (c.dh_bytes r) ck rounds
      → Waits s (s.n_recv + rounds) p
      → Stored s' p
  skip-Stored s s' r ck rounds p known at clean kept (inl stored) =
      keeps-Stored s s' r ck rounds p known clean kept stored
  skip-Stored s s' r ck rounds p known at clean kept (inr w) =
      passes-Stored s s' r ck rounds (s.n_recv + rounds) p known at kept w
        (omega (arith, w.before, w.number))

  -- The same, for the old chain of a party that enters a new one.
  pub passed-Stored :
      (s s' : State c) (r : c.DhPublic) (n : ℕ) (p : Parcel)
      → s.dh_remote ≡ some r
      → Clean s
      → Behind c s n
      → skip_message_keys c n s ≡ (s', ok tt)
      → Waits s n p
      → Stored s' p
  unfolding skip_message_keys skip_on
  passed-Stored s s' r n p known clean (unkeyed nil) skipped w =
      let same : s ≡ s' = ap (λ q. q.0) (sym (ap (λ o. skip_on c o n s) nil) ∙ skipped) in
      elim w [
        | inl stored ↦ subst (λ t. Stored t p) same stored
        | inr a ↦ absurd (none-ne-some a.chain (sym nil ∙ a.at))
      ]
  passed-Stored s s' r n p known clean (keyed ck gap at number few small) skipped w =
      let (t, skips, kept) =
        skip_message_keys-Skips c s r ck gap at known few (subst (λ m. m < 2 ^ 32) number small) in
      let same : t ≡ s' =
        ap (λ q. q.0) (sym (ap (λ m. skip_message_keys c m s) number ∙ skips) ∙ skipped) in
      subst (λ u. Stored u p) same
        (skip-Stored s t r ck gap p known at clean kept (subst (λ m. Waits s m p) number w))

  -- Only the fields of the receiving side matter.
  pub Waits-move :
      (s t : State c) (n m : ℕ) (p : Parcel)
      → t.skipped ≡ s.skipped
      → t.dh_remote ≡ s.dh_remote
      → t.chain_recv ≡ s.chain_recv
      → t.n_recv ≡ s.n_recv
      → n ≤ m
      → Waits s n p
      → Waits t m p
  Waits-move s t n m p keys remote chain number more (inl stored) =
      inl (Stored-move s t p (ap (lookup SkippedKey_discrete (place p)) keys) stored)
  Waits-move s t n m p keys remote chain number more (inr w) = inr (record {
    remote = w.remote;
    chain = w.chain;
    ahead = w.ahead;
    known = remote ∙ w.known;
    at = chain ∙ w.at;
    key = w.key;
    number = w.number ∙ ap (λ i. i + w.ahead) (sym number);
    before = omega (arith, w.before, more);
    sealed = w.sealed;
  })
