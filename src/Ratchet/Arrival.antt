-- ===== src/Ratchet/Arrival.antt =====
-- A lost message that arrives, although its key is not stored yet.
use native.Mathlib.Nat.{mod-eq_of_lt}
use mathlib.Core.Option.{some-injective, none-ne-some}
use pqc_chat.Common.{
  ℕ, zero, suc, ◌+◌, ◌-◌, ◌^◌, ◌≤◌, ◌<◌, ◌≡◌, ◌≢◌, sym, ap, ap₂, ◌∙◌, inl, inr, some, Bytes, arith,
  ltb, Bool-cases,
}
use pqc_chat.Common.Map.{lookup}
use pqc_chat.Result.{ok}
use pqc_chat.Crypto.{Crypto, AeadLaws}
use pqc_chat.Ratchet.Header.{contents}
use pqc_chat.Ratchet.Sending.{associated_data_with_header}
use pqc_chat.Ratchet.Kdf.{message_key, next_chain_key, aead_seal}
use pqc_chat.Ratchet.State.{State, SkippedKey_discrete, increment}
use pqc_chat.Ratchet.Receiving.{decrypt_message, advance_receiving}
use pqc_chat.Ratchet.Skipping.{Skips, chain_after}
use pqc_chat.Ratchet.Delivery.{opens_ahead}
use pqc_chat.Ratchet.Reordered.{chain_after-suc}
use pqc_chat.Ratchet.Entering.{Behind, unkeyed, keyed}
use pqc_chat.Ratchet.Late.{Parcel, place, Awaited, Waits, Clean, keeps-Stored, passes-Stored}

module _ (c : Crypto) where
  -- The keys up to the parcel's are stored, and the chain stands behind it.
  abbrev pub Passes : (s t : State c) (next : ℕ) (p : Parcel c) → Awaited c s next p → Type 0
  Passes s t next p w = Skips c s t (c.dh_bytes w.remote) w.chain w.ahead

  chain_after-add :
      (ck : Bytes) (m n : ℕ) → chain_after c (chain_after c ck m) n ≡ chain_after c ck (m + n)
  chain_after-add ck zero n =
      let none_more : n ≡ 0 + n = omega arith in ap (chain_after c ck) none_more
  chain_after-add ck (suc m) n =
      let one_more : suc (m + n) ≡ suc m + n = omega arith in
      chain_after-add (next_chain_key c ck) m n ∙ ap (chain_after c ck) one_more

  pub arrived_chain :
      (s t : State c) (next : ℕ) (p : Parcel c) (w : Awaited c s next p)
      → Passes s t next p w
      → (advance_receiving c t).chain_recv ≡ some (chain_after c w.chain (suc w.ahead))
  arrived_chain s t next p w kept =
      ap (λ o. some (next_chain_key c (contents o))) kept.chain
      ∙ ap some (sym (chain_after-suc c w.chain w.ahead))

  pub arrived_number :
      (s t : State c) (next : ℕ) (p : Parcel c) (w : Awaited c s next p)
      → next < 2 ^ 32
      → Passes s t next p w
      → (advance_receiving c t).n_recv ≡ s.n_recv + suc w.ahead
  arrived_number s t next p w small kept =
      let next : increment (s.n_recv + w.ahead) ≡ s.n_recv + w.ahead + 1 =
        mod-eq_of_lt (omega (arith, small, w.before, w.number)) in
      ap increment kept.number ∙ omega (arith, next)

  pub bounded :
      (s : State c) (next : ℕ) (p : Parcel c) → Awaited c s next p → Behind c s next → next < 2 ^ 32
  bounded s next p w (unkeyed nil) = absurd (none-ne-some w.chain (sym nil ∙ w.at))
  bounded s next p w (keyed ck gap at number few small) = small

  -- The parcel is opened.
  pub opens_late :
      AeadLaws c
      → (s : State c) (next : ℕ) (p : Parcel c) (w : Awaited c s next p) → Clean c s
      → Behind c s next
      → (t : State c) × (decrypt_message c p.header p.ciphertext p.ad s
          ≡ (advance_receiving c t, ok p.plaintext))
        × Passes s t next p w
  opens_late laws s next p w clean (unkeyed nil) = absurd (none-ne-some w.chain (sym nil ∙ w.at))
  opens_late laws s next p w clean (keyed ck gap at number few small) =
      opens_ahead c laws s w.remote w.chain w.ahead p.plaintext p.ad p.header p.ciphertext w.known
        w.at (omega (arith, w.before, w.number, number, few))
        (omega (arith, w.before, w.number, small)) w.key w.number
        (ap (λ b. lookup SkippedKey_discrete (b, p.header.n) s.skipped) w.key
          ∙ clean w.remote w.known p.header.n (omega (arith, w.number)))
        w.sealed

  -- A place that has a key, or lies ahead, is not passed.
  unpassed :
      (s t : State c) (next : ℕ) (p : Parcel c) (w : Awaited c s next p) (n : ℕ)
      → s.n_recv + w.ahead < n
      → Passes s t next p w
      → lookup SkippedKey_discrete (c.dh_bytes w.remote, n) t.skipped
        ≡ lookup SkippedKey_discrete (c.dh_bytes w.remote, n) s.skipped
  unpassed s t next p w n far kept =
      kept.others (c.dh_bytes w.remote, n) λ j below e. absurd (clash j below (ap (λ q. q.1) e))
    where
      clash : (j : ℕ) → j < w.ahead → s.n_recv + j ≢ n
      clash j below e = absurd (omega (arith, below, e, far))

  pub arrived-Clean :
      (s t : State c) (next : ℕ) (p : Parcel c) (w : Awaited c s next p)
      → next < 2 ^ 32
      → Passes s t next p w
      → Clean c s
      → Clean c (advance_receiving c t)
  arrived-Clean s t next p w small kept clean r known n far =
      let same : w.remote ≡ r =
        some-injective w.remote r (sym w.known ∙ sym (ap (λ u. u.dh_remote) kept.rest) ∙ known) in
      let number = arrived_number s t next p w small kept in
      ap (λ q. lookup SkippedKey_discrete (c.dh_bytes q, n) t.skipped) (sym same)
      ∙ unpassed s t next p w n (omega (arith, far, number)) kept
      ∙ clean w.remote w.known n (omega (arith, far, number))

  -- The rest of the chain.
  pub arrived_lead :
      (s t : State c) (next : ℕ) (p : Parcel c) (w : Awaited c s next p) (ck : Bytes) (gap : ℕ)
      → next < 2 ^ 32
      → Passes s t next p w
      → s.chain_recv ≡ some ck
      → next ≡ s.n_recv + gap
      → (ck' : Bytes) × (gap' : ℕ) × ((advance_receiving c t).chain_recv ≡ some ck')
        × (next ≡ (advance_receiving c t).n_recv + gap')
        × (gap' ≤ gap)
        × (chain_after c ck gap ≡ chain_after c ck' gap')
  arrived_lead s t next p w ck gap small kept at number =
      let count = arrived_number s t next p w small kept in
      let total : suc w.ahead + (gap - suc w.ahead) ≡ gap =
        omega (arith, number, w.before, w.number) in
      (
        chain_after c w.chain (suc w.ahead),
        gap - suc w.ahead,
        arrived_chain s t next p w kept,
        omega (arith, count, number, total),
        omega arith,
        sym (
            chain_after-add w.chain (suc w.ahead) (gap - suc w.ahead)
            ∙ ap (chain_after c w.chain) total
            ∙ ap (λ k. chain_after c k gap) (some-injective w.chain ck (sym w.at ∙ at))),
      )

  pub arrived-Behind :
      (s t : State c) (next : ℕ) (p : Parcel c) (w : Awaited c s next p)
      → Passes s t next p w
      → Behind c s next
      → Behind c (advance_receiving c t) next
  arrived-Behind s t next p w kept (unkeyed nil) = absurd (none-ne-some w.chain (sym nil ∙ w.at))
  arrived-Behind s t next p w kept (keyed ck gap at number few small) =
      let (ck', gap', at', number', fewer, _) =
        arrived_lead s t next p w ck gap small kept at number in
      keyed ck' gap' at' number' (omega (arith, few, fewer)) small

  -- A parcel further on the chain.
  further :
      (s t : State c) (next : ℕ) (p q : Parcel c) (w : Awaited c s next p) (v : Awaited c s next q)
      → next < 2 ^ 32
      → Passes s t next p w
      → w.ahead < v.ahead
      → Awaited c (advance_receiving c t) next q
  further s t next p q w v small kept far =
      let total : suc w.ahead + (v.ahead - suc w.ahead) ≡ v.ahead = omega (arith, far) in
      record {
        remote = v.remote;
        chain = chain_after c w.chain (suc w.ahead);
        ahead = v.ahead - suc w.ahead;
        known = ap (λ u. u.dh_remote) kept.rest ∙ v.known;
        at = arrived_chain s t next p w kept;
        key = v.key;
        number = omega (arith, v.number, arrived_number s t next p w small kept, far);
        before = v.before;
        sealed =
            ap
              (λ k.
                aead_seal c (message_key c k) q.plaintext
                  (associated_data_with_header q.header q.ad))
              (chain_after-add w.chain (suc w.ahead) (v.ahead - suc w.ahead)
                ∙ ap (chain_after c w.chain) total
                ∙ ap (λ k. chain_after c k v.ahead)
                    (some-injective w.chain v.chain (sym w.at ∙ v.at)))
            ∙ v.sealed;
      }

  one_place :
      (s : State c) (next : ℕ) (p q : Parcel c) (w : Awaited c s next p) (v : Awaited c s next q)
      → w.ahead ≡ v.ahead
      → place c p ≡ place c q
  one_place s next p q w v level =
      ap₂ (λ a n. (a, n))
        (w.key
          ∙ ap c.dh_bytes (some-injective w.remote v.remote (sym w.known ∙ v.known))
          ∙ sym v.key)
        (w.number ∙ ap (λ i. s.n_recv + i) level ∙ sym v.number)

  -- The other parcels still wait.
  pub arrived-Waits :
      (s t : State c) (next : ℕ) (p q : Parcel c) (w : Awaited c s next p)
      → next < 2 ^ 32
      → Clean c s
      → Passes s t next p w
      → place c p ≢ place c q
      → Waits c s next q
      → Waits c (advance_receiving c t) next q
  arrived-Waits s t next p q w small clean kept apart (inl stored) =
      inl (keeps-Stored c s t w.remote w.chain w.ahead q w.known clean kept stored)
  arrived-Waits s t next p q w small clean kept apart (inr v) =
      elim (Bool-cases (ltb v.ahead w.ahead)) [
        | inl before ↦
            inl (
              passes-Stored c s t w.remote w.chain w.ahead next q w.known w.at kept v
                (ground arith))
        | inr behind ↦ elim (Bool-cases (ltb w.ahead v.ahead)) [
          | inl after ↦ inr (further s t next p q w v small kept (ground arith))
          | inr level ↦ absurd (apart (one_place s next p q w v (ground arith)))
        ]
      ]
