-- ===== src/Ratchet/Receiving.antt =====
-- crypto/ratchet/ratchet.go: `DecryptMessage`, `dhRatchetStep`, `skipMessageKeys`, `takeSkippedKey`.
use pqc_chat.Common.{
  ℕ, zero, suc, ◌-◌, true, [], Option, none, some, Bytes, bytes_equal, ltb, if◌then◌else◌,
}
use pqc_chat.Common.Map.{lookup, insert, erase}
use pqc_chat.Result.{Result, ok, err, panic, diverges, or_panic, skip_too_large, unexpected_kem_ct}
use pqc_chat.Crypto.{Crypto}
use pqc_chat.Ratchet.Header.{Header, contents}
use pqc_chat.Ratchet.Kdf.{message_key, next_chain_key, root_kdf, aead_open}
use pqc_chat.Ratchet.State.{State, SkippedKey_discrete, increment, max_skip}
use pqc_chat.Ratchet.Action.{Action, current, update, lift, ◌>>=◌, ◌>>◌}
use pqc_chat.Ratchet.Sending.{associated_data_with_header}

module _ (c : Crypto) where
  -- The message key at the receiving chain's place; a nil chain is an empty HMAC key.
  abbrev pub receiving_key : State c → Bytes
  receiving_key s = message_key c (contents s.chain_recv)

  abbrev pub advance_receiving : State c → State c
  advance_receiving s = record s {
    chain_recv = some (next_chain_key c (contents s.chain_recv));
    n_recv = increment s.n_recv;
  }

  -- One round of the loop of `skipMessageKeys`.
  unfoldable pub skip_one : Bytes → State c → State c
  unfolding insert SkippedKey_discrete
  skip_one dh_key s = record (advance_receiving s) {
    skipped = insert SkippedKey_discrete (dh_key, s.n_recv) (receiving_key s) s.skipped;
  }

  unfoldable pub skip_rounds : ℕ → Bytes → State c → State c
  unfolding skip_one
  skip_rounds zero dh_key s = s
  skip_rounds (suc rounds) dh_key s = skip_rounds rounds dh_key (skip_one dh_key s)

  -- `skipMessageKeys` on a receiving chain that is not nil. `until` is at most 1000 rounds away.
  unfoldable pub skip_to : ℕ → Action c (Unit {0})
  unfolding skip_rounds
  skip_to until s =
      if ltb until s.n_recv
      then (s, ok tt)
      else if ltb max_skip (until - s.n_recv)
      then (s, err skip_too_large)
      else (do
        remote ← lift c (or_panic s.dh_remote)
        update c (skip_rounds (until - s.n_recv) (c.dh_bytes remote)))
          s

  unfoldable pub skip_on : Option Bytes → ℕ → Action c (Unit {0})
  unfolding skip_to
  skip_on none until s = (s, ok tt)
  skip_on (some _) until s = skip_to until s

  unfoldable pub skip_message_keys : ℕ → Action c (Unit {0})
  unfolding skip_on
  skip_message_keys until s = skip_on s.chain_recv until s

  unfoldable pub take_skipped_key : Header → State c → State c × Option Bytes
  unfolding lookup erase SkippedKey_discrete
  take_skipped_key hdr s = elim (lookup SkippedKey_discrete (hdr.dh_pub, hdr.n) s.skipped) [
    | none ↦ (s, none)
    | some mk ↦
        (record s { skipped = erase SkippedKey_discrete (hdr.dh_pub, hdr.n) s.skipped }, some mk)
  ]

  -- The secret of the ciphertext that the header carries.
  unfoldable pub consume_with : Bytes → Option c.KemPrivate → Action c Bytes
  consume_with ct none = lift c (err unexpected_kem_ct)
  consume_with ct (some private) = do
    ss ← lift c (c.kem_decapsulate private ct)
    update c (λ s. record s { self_pending_kem_priv = none })
    lift c (ok ss)

  unfoldable pub consume_ciphertext : Option Bytes → Action c Bytes
  unfolding consume_with
  consume_ciphertext none s = (s, ok [])
  consume_ciphertext (some ct) s = consume_with ct s.self_pending_kem_priv s

  -- `s.RootKey, s.chainRecv, err = rootKDF(...)`: an error sets both to nil.
  unfoldable pub set_receiving_keys : State c → Result (Bytes × Bytes) → State c × Result (Unit {0})
  set_receiving_keys s (ok (root, chain)) =
      (record s { root_key = root; chain_recv = some chain }, ok tt)
  set_receiving_keys s (err e) = (record s { root_key = []; chain_recv = none }, err e)
  set_receiving_keys s panic = (s, panic)
  set_receiving_keys s diverges = (s, diverges)

  unfoldable pub derive_receiving_keys : Bytes → Bytes → Action c (Unit {0})
  unfolding set_receiving_keys root_kdf
  derive_receiving_keys dh_out kem_ss s = set_receiving_keys s (root_kdf c s.root_key dh_out kem_ss)

  unfoldable pub record_advertised : Option Bytes → Action c (Unit {0})
  record_advertised none = lift c (ok tt)
  record_advertised (some packed) = do
    p ← lift c (c.kem_unpack packed)
    update c (λ s. record s { peer_advertised_kem_pub = some p })

  unfoldable pub dh_ratchet_step : Header → Action c (Unit {0})
  unfolding consume_ciphertext derive_receiving_keys record_advertised
  dh_ratchet_step hdr = do
    remote ← lift c (c.dh_parse hdr.dh_pub)
    kem_ss ← consume_ciphertext hdr.mlkem_ciphertext
    update c (λ s. record s { dh_remote = some remote })
    s ← current c
    dh_self ← lift c (or_panic s.dh_self)
    dh_out ← lift c (c.dh dh_self remote)
    update c (λ s. record s { n_recv = 0 })
    derive_receiving_keys dh_out kem_ss
    record_advertised hdr.mlkem_pub
    update c (λ s. record s { needs_new_sending_chain = true })

  -- The test on the header's ratchet key, and what a new one starts.
  unfoldable pub enter_chain : Header → Option c.DhPublic → Action c (Unit {0})
  unfolding skip_message_keys dh_ratchet_step bytes_equal
  enter_chain hdr none = dh_ratchet_step hdr
  enter_chain hdr (some remote) =
      if bytes_equal hdr.dh_pub (c.dh_bytes remote)
      then lift c (ok tt)
      else (do skip_message_keys hdr.pn; dh_ratchet_step hdr)

  -- `DecryptMessage` where no skipped key was stored for the header.
  unfoldable pub receive : Header → Bytes → Bytes → Action c Bytes
  unfolding enter_chain skip_message_keys aead_open associated_data_with_header
  receive hdr ciphertext ad = do
    s ← current c
    enter_chain hdr s.dh_remote
    skip_message_keys hdr.n
    s ← current c
    update c advance_receiving
    lift c (aead_open c (receiving_key s) ciphertext (associated_data_with_header hdr ad))

  unfoldable pub decrypt_with :
      Header → Bytes → Bytes → State c × Option Bytes → State c × Result Bytes
  unfolding receive aead_open associated_data_with_header
  decrypt_with hdr ciphertext ad (s, some mk) =
      (s, aead_open c mk ciphertext (associated_data_with_header hdr ad))
  decrypt_with hdr ciphertext ad (s, none) = receive hdr ciphertext ad s

  unfoldable pub decrypt_message : Header → Bytes → Bytes → Action c Bytes
  unfolding take_skipped_key decrypt_with
  decrypt_message hdr ciphertext ad s = decrypt_with hdr ciphertext ad (take_skipped_key hdr s)
