-- ===== src/Ratchet/Skipping.antt =====
-- `skipMessageKeys`: the keys that it stores, and what it keeps.
use native.Mathlib.Nat.{mod-eq_of_lt}
use pqc_chat.Common.{
  ℕ, zero, suc, ◌+◌, ◌-◌, ◌^◌, ◌≤◌, ◌<◌, ◌≡◌, ◌≢◌, refl, ap, ◌∙◌, false, [], Option, none, some,
  Bytes, arith, ltb, ◌∷◌, length, not_above, inl, inr, Bool-cases,
}
use pqc_chat.Common.Map.{Map, insert, lookup, lookup-insert_self, lookup-insert_ne}
use pqc_chat.Result.{ok, or_panic}
use pqc_chat.Crypto.{Crypto}
use pqc_chat.Ratchet.Header.{contents}
use pqc_chat.Ratchet.Kdf.{message_key, next_chain_key}
use pqc_chat.Ratchet.State.{State, SkippedKey, SkippedKey_discrete, increment, max_skip}
use pqc_chat.Ratchet.Action.{continue, update}
use pqc_chat.Ratchet.Receiving.{skip_one, skip_rounds, skip_to, skip_on, skip_message_keys}

module _ (c : Crypto) where
  -- The chain key after some steps.
  abbrev pub chain_after : Bytes → ℕ → Bytes
  chain_after ck zero = ck
  chain_after ck (suc n) = chain_after (next_chain_key c ck) n

  -- A state in which only the receiving chain, its number and the stored keys differ.
  abbrev pub moved : State c → Option Bytes → ℕ → Map SkippedKey Bytes → State c
  moved s chain n keys = record s { chain_recv = chain; n_recv = n; skipped = keys }

  -- What the loop leaves of a state whose receiving chain is at `ck`: everything but the chain, its
  -- number and the stored keys is kept, and the key of every number that it passed is stored.
  pub record Skips (s s' : State c) (dh_key ck : Bytes) (rounds : ℕ) : Type 0 where
    pub chain : s'.chain_recv ≡ some (chain_after ck rounds)
    pub number : s'.n_recv ≡ s.n_recv + rounds
    pub stored :
        (k : ℕ)
        → k < rounds
        → lookup SkippedKey_discrete (dh_key, s.n_recv + k) s'.skipped
          ≡ some (message_key c (chain_after ck k))
    pub others :
        (q : SkippedKey)
        → ((k : ℕ) → k < rounds → ◌≢◌ {A = SkippedKey} (dh_key, s.n_recv + k) q)
        → lookup SkippedKey_discrete q s'.skipped ≡ lookup SkippedKey_discrete q s.skipped
    pub rest : s' ≡ moved s s'.chain_recv s'.n_recv s'.skipped

  -- The stored keys after one round.
  abbrev skipped_at : State c → Bytes → Option Bytes → Map SkippedKey Bytes
  skipped_at s dh_key chain =
      insert SkippedKey_discrete (dh_key, s.n_recv) (message_key c (contents chain)) s.skipped

  Skips-suc :
      (s t s' : State c) (dh_key ck : Bytes) (rounds : ℕ)
      → t.n_recv ≡ s.n_recv + 1
      → t.skipped ≡ skipped_at s dh_key (some ck)
      → t ≡ moved s t.chain_recv t.n_recv t.skipped
      → Skips t s' dh_key (next_chain_key c ck) rounds
      → Skips s s' dh_key ck (suc rounds)
  Skips-suc s t s' dh_key ck rounds next key rest ih = record {
    chain = ih.chain;
    number = omega (arith, ih.number, next);
    stored = kept;
    others = λ q h.
        ih.others q (λ k b e. h (suc k) (omega arith) (ap (λ n. (dh_key, n)) (shift k) ∙ e))
        ∙ ap (lookup SkippedKey_discrete q) key
        ∙ lookup-insert_ne SkippedKey_discrete (dh_key, s.n_recv) q (message_key c ck) s.skipped
            (λ e. h 0 (omega arith) (ap (λ n. (dh_key, n)) (omega arith) ∙ e));
    rest = ih.rest ∙ ap (λ u. moved u s'.chain_recv s'.n_recv s'.skipped) rest;
  }
    where
      shift : (k : ℕ) → s.n_recv + suc k ≡ t.n_recv + k
      shift k = omega (arith, next)

      kept :
          (k : ℕ)
          → k < suc rounds
          → lookup SkippedKey_discrete (dh_key, s.n_recv + k) s'.skipped
            ≡ some (message_key c (chain_after ck k))
      kept zero h =
          ap (λ n. lookup SkippedKey_discrete (dh_key, n) s'.skipped) (omega arith)
          ∙ ih.others (dh_key, s.n_recv) (λ k b e. apart k (ap (λ q. q.1) e))
          ∙ ap (lookup SkippedKey_discrete (dh_key, s.n_recv)) key
          ∙ lookup-insert_self SkippedKey_discrete (dh_key, s.n_recv) (message_key c ck) s.skipped
        where
          apart : (k : ℕ) → t.n_recv + k ≢ s.n_recv
          apart k e = absurd (omega (arith, next))
      kept (suc k) h =
          ap (λ n. lookup SkippedKey_discrete (dh_key, n) s'.skipped) (shift k)
          ∙ ih.stored k (omega arith)

  skip_rounds-Skips :
      (rounds : ℕ) (dh_key ck : Bytes) (s : State c)
      → s.chain_recv ≡ some ck
      → s.n_recv + rounds < 2 ^ 32
      → Skips s (skip_rounds c rounds dh_key s) dh_key ck rounds
  unfolding skip_rounds skip_one
  skip_rounds-Skips zero dh_key ck s at small = record {
    chain = at;
    number = omega arith;
    stored = λ k h. absurd (omega arith);
    others = λ q h. refl;
    rest = refl;
  }
  skip_rounds-Skips (suc rounds) dh_key ck s at small =
      let next : increment s.n_recv ≡ s.n_recv + 1 = mod-eq_of_lt (omega arith) in
      let key : skipped_at s dh_key s.chain_recv ≡ skipped_at s dh_key (some ck) =
        ap (skipped_at s dh_key) at in
      Skips-suc s (skip_one c dh_key s) (skip_rounds c rounds dh_key (skip_one c dh_key s)) dh_key
        ck rounds next key refl
        (skip_rounds-Skips rounds dh_key (next_chain_key c ck) (skip_one c dh_key s)
          (ap (λ o. some (next_chain_key c (contents o))) at) (omega (arith, next)))

  -- For a receiving chain at `ck` with a remote key, and a number below 2 ^ 32 that is not behind
  -- the chain and at most 1000 ahead: `skipMessageKeys` succeeds, the chain then stands at that
  -- number, the key of every number that was passed is stored under the remote key, and all other
  -- stored keys, the root key, the key pairs and the sending chain are kept.
  pub skip_message_keys-Skips :
      (s : State c) (p : c.DhPublic) (ck : Bytes) (rounds : ℕ)
      → s.chain_recv ≡ some ck
      → s.dh_remote ≡ some p
      → rounds ≤ max_skip
      → s.n_recv + rounds < 2 ^ 32
      → (s' : State c) × (skip_message_keys c (s.n_recv + rounds) s ≡ (s', ok tt))
        × Skips s s' (c.dh_bytes p) ck rounds
  unfolding skip_message_keys
  skip_message_keys-Skips s p ck rounds at remote few small =
      let not_behind : ltb (s.n_recv + rounds) s.n_recv ≡ false = ground arith in
      let not_far : ltb max_skip (s.n_recv + rounds - s.n_recv) ≡ false = ground arith in
      let count : s.n_recv + rounds - s.n_recv ≡ rounds = omega arith in
      (
        skip_rounds c rounds (c.dh_bytes p) s,
        rw at (rw not_behind (rw not_far (rw count (rw remote refl)))),
        skip_rounds-Skips rounds (c.dh_bytes p) ck s at small,
      )

  length-insert :
      (q : SkippedKey) (v : Bytes) (m : Map SkippedKey Bytes)
      → length (insert SkippedKey_discrete q v m) ≤ length m + 1
  unfolding insert
  length-insert q v [] = omega arith
  length-insert q v ((j, w) ∷ m) = ground (arith, length-insert q v m)

  skip_rounds_bound :
      (rounds : ℕ) (dh_key : Bytes) (s : State c)
      → length (skip_rounds c rounds dh_key s).skipped ≤ length s.skipped + rounds
  unfolding skip_rounds skip_one
  skip_rounds_bound zero dh_key s = omega arith
  skip_rounds_bound (suc rounds) dh_key s = omega (
    arith,
    skip_rounds_bound rounds dh_key (skip_one c dh_key s),
    length-insert (dh_key, s.n_recv) (message_key c (contents s.chain_recv)) s.skipped,
  )

  remote_bound :
      (remote : Option c.DhPublic) (rounds : ℕ) (s : State c)
      → rounds ≤ max_skip
      → length
          (continue c
            (s, or_panic remote)
            (λ p. update c (skip_rounds c rounds (c.dh_bytes p)))).0.skipped
        ≤ length s.skipped + max_skip
  remote_bound none rounds s few = omega arith
  remote_bound (some p) rounds s few = omega (arith, skip_rounds_bound rounds (c.dh_bytes p) s)

  skip_to_bound :
      (until : ℕ) (s : State c) → length (skip_to c until s).0.skipped ≤ length s.skipped + max_skip
  unfolding skip_to
  skip_to_bound until s = elim (Bool-cases (ltb until s.n_recv)) [
    | inl behind ↦ rw behind (omega arith)
    | inr ahead ↦ elim (Bool-cases (ltb max_skip (until - s.n_recv))) [
      | inl far ↦ rw ahead (rw far (omega arith))
      | inr near ↦
          rw ahead (rw near (remote_bound s.dh_remote (until - s.n_recv) s (not_above _ _ near)))
    ]
  ]

  skip_on_bound :
      (chain : Option Bytes) (until : ℕ) (s : State c)
      → length (skip_on c chain until s).0.skipped ≤ length s.skipped + max_skip
  unfolding skip_on
  skip_on_bound none until s = omega arith
  skip_on_bound (some ck) until s = skip_to_bound until s

  -- Whatever the state and the number that a header asks for, `skipMessageKeys` stores at most 1000
  -- more keys.
  pub skip_message_keys_bound :
      (until : ℕ) (s : State c)
      → length (skip_message_keys c until s).0.skipped ≤ length s.skipped + max_skip
  unfolding skip_message_keys
  skip_message_keys_bound until s = skip_on_bound s.chain_recv until s
