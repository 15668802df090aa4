-- ===== src/Ratchet/Alongside.antt =====
-- Sending and receiving do not disturb each other: what `DecryptMessage` reads and changes on its chain.
use pqc_chat.Common.{
  ℕ, zero, suc, ◌-◌, ◌≡◌, refl, sym, ap, ◌∙◌, Bool-cases, inl, inr, ltb, Option, Option-cases, none,
  some, Bytes,
}
use pqc_chat.Common.Map.{lookup}
use pqc_chat.Result.{Result, ok, err, panic, diverges, or_panic}
use pqc_chat.Crypto.{Crypto}
use pqc_chat.Ratchet.Header.{Header}
use pqc_chat.Ratchet.State.{State, SkippedKey_discrete, max_skip}
use pqc_chat.Ratchet.Action.{Action, continue, update}
use pqc_chat.Ratchet.Receiving.{
  skip_one, skip_rounds, skip_to, skip_on, skip_message_keys, receive, decrypt_with,
  decrypt_message,
}
use pqc_chat.Ratchet.Skipping.{moved}
use pqc_chat.Ratchet.Calls.{take-none, same_chain, opening, after_entry}
use pqc_chat.Ratchet.Reordered.{take-some}

module _ (c : Crypto) (u : State c) where
  -- The receiving chain of a state, with all else from `u`.
  abbrev pub beside : State c → State c
  beside s = moved c u s.chain_recv s.n_recv s.skipped

  abbrev carried : {A : Type 0} → State c × Result A → State c × Result A
  carried q = (beside q.0, q.1)

  rounds-beside :
      (rounds : ℕ) (key : Bytes) (s : State c)
      → skip_rounds c rounds key (beside s) ≡ beside (skip_rounds c rounds key s)
  unfolding skip_rounds skip_one
  rounds-beside zero key s = refl
  rounds-beside (suc rounds) key s = rounds-beside rounds key (skip_one c key s)

  to-beside :
      (r : c.DhPublic) (until : ℕ) (s : State c)
      → u.dh_remote ≡ some r
      → s.dh_remote ≡ some r
      → skip_to c until (beside s) ≡ carried (skip_to c until s)
  unfolding skip_to
  to-beside r until s known known' = elim (Bool-cases (ltb until s.n_recv)) [
    | inl behind ↦ rw behind refl
    | inr ahead ↦ elim (Bool-cases (ltb max_skip (until - s.n_recv))) [
      | inl far ↦ rw ahead (rw far refl)
      | inr near ↦ rw ahead (
          rw near (
            ap (λ o. continue c (beside s, or_panic o) skips) known
            ∙ ap (λ t. (t, ok tt)) (rounds-beside (until - s.n_recv) (c.dh_bytes r) s)
            ∙ ap (λ o. carried (continue c (s, or_panic o) skips)) (sym known')))
    ]
  ]
    where
      skips : c.DhPublic → Action c (Unit {0})
      skips q = update c (skip_rounds c (until - s.n_recv) (c.dh_bytes q))

  skip-beside :
      (r : c.DhPublic) (until : ℕ) (s : State c)
      → u.dh_remote ≡ some r
      → s.dh_remote ≡ some r
      → skip_message_keys c until (beside s) ≡ carried (skip_message_keys c until s)
  unfolding skip_message_keys skip_on
  skip-beside r until s known known' = on s.chain_recv
    where
      on : (o : Option Bytes) → skip_on c o until (beside s) ≡ carried (skip_on c o until s)
      on none = refl
      on (some ck) = to-beside r until s known known'

  opens-beside :
      (hdr : Header) (ct ad : Bytes) (q : State c × Result (Unit {0}))
      → continue c (carried q) (λ _. opening c hdr ct ad)
        ≡ carried (continue c q (λ _. opening c hdr ct ad))
  opens-beside hdr ct ad (s, ok _) = refl
  opens-beside hdr ct ad (s, err e) = refl
  opens-beside hdr ct ad (s, panic) = refl
  opens-beside hdr ct ad (s, diverges) = refl

  receives :
      (r : c.DhPublic) (hdr : Header) (ct ad : Bytes) (s : State c)
      → s.dh_remote ≡ some r
      → hdr.dh_pub ≡ c.dh_bytes r
      → receive c hdr ct ad s ≡ continue c (skip_message_keys c hdr.n s) (λ _. opening c hdr ct ad)
  unfolding receive
  receives r hdr ct ad s known key =
      ap (λ q. continue c q (λ _. after_entry c hdr ct ad)) (same_chain c hdr s r known key)

  -- A header of the ratchet key that the party knows. Whatever `DecryptMessage` returns, errors
  -- included, and whatever it does to the receiving chain, its number and the stored keys: with
  -- another sending chain, root key, key pairs and injection it returns the same and does the same,
  -- and it leaves those as they were.
  pub decrypt_message-beside :
      (r : c.DhPublic) (hdr : Header) (ct ad : Bytes) (s : State c)
      → u.dh_remote ≡ some r
      → s.dh_remote ≡ some r
      → hdr.dh_pub ≡ c.dh_bytes r
      → decrypt_message c hdr ct ad (beside s)
        ≡ (beside (decrypt_message c hdr ct ad s).0, (decrypt_message c hdr ct ad s).1)
  unfolding decrypt_message decrypt_with
  decrypt_message-beside r hdr ct ad s known known' key =
      elim (Option-cases (lookup SkippedKey_discrete (hdr.dh_pub, hdr.n) s.skipped)) [
        | inl missing ↦
            ap (decrypt_with c hdr ct ad) (take-none c hdr (beside s) missing)
            ∙ receives r hdr ct ad (beside s) known key
            ∙ ap (λ q. continue c q (λ _. opening c hdr ct ad)) (skip-beside r hdr.n s known known')
            ∙ opens-beside hdr ct ad (skip_message_keys c hdr.n s)
            ∙ ap carried (
                sym (
                  ap (decrypt_with c hdr ct ad) (take-none c hdr s missing)
                  ∙ receives r hdr ct ad s known' key))
        | inr (mk, found) ↦
            ap (decrypt_with c hdr ct ad) (take-some c hdr (beside s) mk found)
            ∙ ap carried (sym (ap (decrypt_with c hdr ct ad) (take-some c hdr s mk found)))
      ]
