-- ===== src/Ratchet/Beside.antt =====
-- Sending and receiving do not disturb each other: what `EncryptMessage` reads and changes.
use pqc_chat.Common.{ℕ, ◌≡◌, refl, sym, ap, ◌∙◌, Bool, true, false, [], Option, none, some, Bytes}
use pqc_chat.Common.Map.{Map}
use pqc_chat.Result.{Result, ok, err, panic, diverges, or_panic}
use pqc_chat.Crypto.{Crypto}
use pqc_chat.Ratchet.Header.{Header}
use pqc_chat.Ratchet.Kdf.{root_kdf, message_key, aead_seal}
use pqc_chat.Ratchet.State.{State, SkippedKey, injection_due}
use pqc_chat.Ratchet.Action.{Action, continue, lift}
use pqc_chat.Ratchet.Sending.{
  Draws, set_sending_keys, derive_sending_keys, answer_injection, start_injection, inject_if,
  new_sending_chain, sending_chain, prepare_sending_chain, count_sent, encrypt_message,
  associated_data_with_header,
}
use pqc_chat.Ratchet.Skipping.{moved}

module _ (c : Crypto) (chain : Option Bytes) (n : ℕ) (keys : Map SkippedKey Bytes) where
  -- A result with another receiving chain.
  abbrev carried : {A : Type 0} → State c × Result A → State c × Result A
  carried q = (moved c q.0 chain n keys, q.1)

  -- A method that does not look at the receiving chain.
  abbrev Blind : {A : Type 0} → Action c A → Type 0
  Blind m = (s : State c) → m (moved c s chain n keys) ≡ carried (m s)

  follow :
      {A B : Type 0} (q : State c × Result A) (f : A → Action c B)
      → ((a : A) → Blind (f a))
      → continue c (carried q) f ≡ carried (continue c q f)
  follow (s, ok a) f blind = blind a s
  follow (s, err e) f blind = refl
  follow (s, panic) f blind = refl
  follow (s, diverges) f blind = refl

  Blind-then :
      {A B : Type 0} (m : Action c A) (f : A → Action c B)
      → Blind m
      → ((a : A) → Blind (f a))
      → Blind (λ s. continue c (m s) f)
  Blind-then m f first later s = ap (λ q. continue c q f) (first s) ∙ follow (m s) f later

  derive-Blind : (dh_out kem_ss : Bytes) → Blind (derive_sending_keys c dh_out kem_ss)
  unfolding derive_sending_keys set_sending_keys
  derive-Blind dh_out kem_ss s = sets (root_kdf c s.root_key dh_out kem_ss)
    where
      sets :
          (r : Result (Bytes × Bytes))
          → set_sending_keys c (moved c s chain n keys) r ≡ carried (set_sending_keys c s r)
      sets (ok k) = refl
      sets (err e) = refl
      sets panic = refl
      sets diverges = refl

  answer-Blind : (d : Draws c) (o : Option c.KemPublic) → Blind (answer_injection c d o)
  unfolding answer_injection
  answer-Blind d none s = refl
  answer-Blind d (some p) s = refl

  inject-Blind : (d : Draws c) (t : Bool) → Blind (inject_if c t d)
  unfolding inject_if start_injection
  inject-Blind d true s =
      follow (s, c.kem_generate d.kem) _ λ p t. follow (t, c.kem_marshal p.0) _ λ packed u. refl
  inject-Blind d false s = refl

  -- The header, after the injection.
  abbrev header_of : Option Bytes → State c → Option Bytes → Action c Header
  header_of ciphertext s advertised = lift c (
      ok (record {
        dh_pub = [];
        pn = s.pn;
        n = 0;
        mlkem_pub = advertised;
        mlkem_ciphertext = ciphertext;
      }))

  -- The last steps of a new chain, from the keys on.
  abbrev closes : Draws c → Option Bytes → Action c Header
  closes d ciphertext s =
      let t = record s { needs_new_sending_chain = false } in
      continue c (inject_if c (injection_due c t d.checked_at) d t) (header_of ciphertext t)

  abbrev keyed : Draws c → Bytes → Option Bytes × Bytes → Action c Header
  keyed d dh_out sealed s =
      continue c (derive_sending_keys c dh_out sealed.1 (record s { pn = s.n_send; n_send = 0 }))
        (λ _. closes d sealed.0)

  abbrev agrees : Draws c → c.DhPrivate → State c → c.DhPublic → Action c Header
  agrees d key s remote t =
      continue c (t, c.dh key remote)
        λ dh_out u. continue c (answer_injection c d s.peer_advertised_kem_pub u) (keyed d dh_out)

  closes-Blind : (d : Draws c) (ciphertext : Option Bytes) → Blind (closes d ciphertext)
  unfolding injection_due
  closes-Blind d ciphertext s =
      let t = record s { needs_new_sending_chain = false } in
      Blind-then (inject_if c (injection_due c t d.checked_at) d) (header_of ciphertext t)
        (inject-Blind d (injection_due c t d.checked_at)) (λ advertised u. refl) t

  keyed-Blind :
      (d : Draws c) (dh_out : Bytes) (sealed : Option Bytes × Bytes) → Blind (keyed d dh_out sealed)
  keyed-Blind d dh_out sealed s =
      Blind-then (derive_sending_keys c dh_out sealed.1) (λ _. closes d sealed.0)
        (derive-Blind dh_out sealed.1) (λ _. closes-Blind d sealed.0)
        (record s { pn = s.n_send; n_send = 0 })

  agrees-Blind :
      (d : Draws c) (key : c.DhPrivate) (s : State c) (remote : c.DhPublic)
      → Blind (agrees d key s remote)
  agrees-Blind d key s remote t =
      follow (t, c.dh key remote)
        (λ dh_out u. continue c (answer_injection c d s.peer_advertised_kem_pub u) (keyed d dh_out))
        (λ dh_out.
          Blind-then (answer_injection c d s.peer_advertised_kem_pub) (keyed d dh_out)
            (answer-Blind d s.peer_advertised_kem_pub) (keyed-Blind d dh_out))

  -- The new chain, from the new key on.
  abbrev turns : Draws c → c.DhPrivate → Action c Header
  turns d key s =
      let t = record s { dh_self = some key } in
      continue c (t, or_panic t.dh_remote) (agrees d key t)

  turns-Blind : (d : Draws c) (key : c.DhPrivate) → Blind (turns d key)
  turns-Blind d key s =
      let t = record s { dh_self = some key } in
      follow (t, or_panic t.dh_remote) (agrees d key t) (agrees-Blind d key t)

  turns-eq :
      (d : Draws c) (s : State c)
      → new_sending_chain c d s ≡ continue c (s, c.dh_generate d.dh) (turns d)
  unfolding new_sending_chain
  turns-eq d s = refl

  chain-Blind : (d : Draws c) (t : Bool) → Blind (sending_chain c d t)
  unfolding sending_chain
  chain-Blind d true s =
      turns-eq d (moved c s chain n keys)
      ∙ follow (s, c.dh_generate d.dh) (turns d) (turns-Blind d)
      ∙ ap carried (sym (turns-eq d s))
  chain-Blind d false s = refl

  abbrev names : Header → c.DhPrivate → Action c Header
  names hdr key = lift c (ok (record hdr { dh_pub = c.dh_bytes (c.dh_public key) }))

  prepare-Blind : (d : Draws c) → Blind (prepare_sending_chain c d)
  unfolding prepare_sending_chain
  prepare-Blind d s =
      Blind-then (sending_chain c d s.needs_new_sending_chain)
        (λ hdr t. continue c (t, or_panic t.dh_self) (names hdr))
        (chain-Blind d s.needs_new_sending_chain)
        (λ hdr t. follow (t, or_panic t.dh_self) (names hdr) (λ key u. refl)) s

  abbrev seals : Bytes → Bytes → Header → Action c (Header × Bytes)
  seals plaintext ad prepared s =
      let hdr = record prepared { n = s.n_send } in
      continue c
        (
          count_sent c s,
          aead_seal c (message_key c s.chain_send) plaintext (associated_data_with_header hdr ad),
        )
        (λ ct. lift c (ok (hdr, ct)))

  seals-Blind : (plaintext ad : Bytes) (prepared : Header) → Blind (seals plaintext ad prepared)
  seals-Blind plaintext ad prepared s =
      let hdr = record prepared { n = s.n_send } in
      follow
        (
          count_sent c s,
          aead_seal c (message_key c s.chain_send) plaintext (associated_data_with_header hdr ad),
        )
        (λ ct. lift c (ok (hdr, ct))) (λ ct t. refl)

  -- Whatever `EncryptMessage` returns, errors included, and whatever it does to the state: with
  -- another receiving chain, number and stored keys it returns the same and does the same, and it
  -- leaves those three as they were.
  pub encrypt_message-moved :
      (d : Draws c) (plaintext ad : Bytes) (s : State c)
      → encrypt_message c d plaintext ad (moved c s chain n keys) ≡ (
        moved c (encrypt_message c d plaintext ad s).0 chain n keys,
        (encrypt_message c d plaintext ad s).1,
      )
  unfolding encrypt_message
  encrypt_message-moved d plaintext ad s =
      Blind-then (prepare_sending_chain c d) (seals plaintext ad) (prepare-Blind d)
        (seals-Blind plaintext ad) s
