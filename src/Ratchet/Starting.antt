-- ===== src/Ratchet/Starting.antt =====
-- The sending half of a DH ratchet step: what `prepareSendingChain` leaves where it succeeds.
use pqc_chat.Common.{
  Never, ℕ, ◌≡◌, refl, sym, ap, ap₂, ◌∙◌, subst, Bool, true, false, [], Option, none, some, Bytes,
}
use pqc_chat.Result.{Result, ok, err, panic, diverges, or_panic, ok-injective}
use pqc_chat.Crypto.{Crypto, KemLaws}
use pqc_chat.Ratchet.Header.{Header}
use pqc_chat.Ratchet.Kdf.{root_kdf}
use pqc_chat.Ratchet.State.{State, injection_due}
use pqc_chat.Ratchet.Action.{continue_cases, lift_cases}
use pqc_chat.Ratchet.Sending.{
  Draws, set_sending_keys, derive_sending_keys, answer_injection, start_injection, inject_if,
  new_sending_chain,
}

module _ (c : Crypto) where
  -- The ciphertext and the secret with which an advertised key is answered.
  abbrev pub answer : Draws c → Option c.KemPublic → Option Bytes × Bytes
  answer d none = (none, [])
  answer d (some p) =
      (some (c.kem_encapsulate p d.encapsulation).0, (c.kem_encapsulate p d.encapsulation).1)

  abbrev answered : State c → State c
  answered s = record s { peer_advertised_kem_pub = none }

  answer-eq :
      (d : Draws c) (o : Option c.KemPublic) (s : State c)
      → s.peer_advertised_kem_pub ≡ o
      → answer_injection c d o s ≡ (answered s, ok (answer d o))
  unfolding answer_injection
  answer-eq d none s e = ap (λ o. (record s { peer_advertised_kem_pub = o }, ok (answer d none))) e
  answer-eq d (some p) s e = refl

  -- A header's `MLKEMPub` is the public part of the private key that is pending.
  abbrev pub Advertises : Option Bytes → Option c.KemPrivate → Type 0
  Advertises none none = Unit
  Advertises none (some k) = Never
  Advertises (some packed) none = Never
  Advertises (some packed) (some k) = c.kem_unpack packed ≡ ok (c.kem_public k)

  pub record Injected (s s' : State c) (advertised : Option Bytes) : Type 0 where
    pub pending : Option c.KemPrivate
    pub since : ℕ
    pub last : ℕ
    pub after : s' ≡ record s {
      self_pending_kem_priv = pending;
      msgs_since_inject = since;
      last_inject = last;
    }
    pub advertises : Advertises advertised pending

  injects :
      KemLaws c
      → (t : Bool) (d : Draws c) (s s' : State c) (advertised : Option Bytes)
      → s.self_pending_kem_priv ≡ none
      → inject_if c t d s ≡ (s', ok advertised)
      → Injected s s' advertised
  unfolding inject_if start_injection
  injects laws false d s s' advertised idle e = record {
    pending = none;
    since = s.msgs_since_inject;
    last = s.last_inject;
    after = sym (ap (λ p. p.0) e) ∙ ap (λ o. record s { self_pending_kem_priv = o }) idle;
    advertises = subst (λ o. Advertises o none) (ok-injective none advertised (ap (λ p. p.1) e)) tt;
  }
  injects laws true d s s' advertised idle e =
      lift_cases c s (c.kem_generate d.kem) _ e λ keys made e.
        lift_cases c s (c.kem_marshal keys.0) _ e λ packed marshalled e. record {
          pending = some keys.1;
          since = 0;
          last = d.injected_at;
          after = sym (ap (λ p. p.0) e);
          advertises =
              subst (λ o. Advertises o (some keys.1))
                (ok-injective (some packed) advertised (ap (λ p. p.1) e))
                ((laws.kem_unpack_marshal keys.0 packed marshalled).0
                  ∙ ap ok (laws.kem_generated d.kem keys.0 keys.1 made));
        }

  set_cases :
      {P : Type 0} (s s' : State c) (r : Result (Bytes × Bytes))
      → set_sending_keys c s r ≡ (s', ok tt)
      → ((root chain : Bytes)
          → r ≡ ok (root, chain)
          → s' ≡ record s { root_key = root; chain_send = chain }
          → P)
      → P
  unfolding set_sending_keys
  set_cases s s' (ok (root, chain)) e go = go root chain refl (sym (ap (λ p. p.0) e))
  set_cases s s' (err x) e go = absurd (cc)
  set_cases s s' panic e go = absurd (cc)
  set_cases s s' diverges e go = absurd (cc)

  -- The state of a party on a new sending chain, before an injection.
  abbrev pub turned : State c → c.DhPrivate → Bytes → Bytes → State c
  turned b key root chain = record b {
    dh_self = some key;
    peer_advertised_kem_pub = none;
    pn = b.n_send;
    n_send = 0;
    root_key = root;
    chain_send = chain;
    needs_new_sending_chain = false;
  }

  -- What the body of `if s.needsNewSendingChain` did to `b`.
  pub record NewChain (d : Draws c) (b b' : State c) (remote : c.DhPublic) (hdr : Header)
      : Type 0 where
    pub key : c.DhPrivate
    pub dh_out : Bytes
    pub root : Bytes
    pub chain : Bytes
    pub agreed : c.dh key remote ≡ ok dh_out
    pub derived :
        root_kdf c b.root_key dh_out (answer d b.peer_advertised_kem_pub).1 ≡ ok (root, chain)
    pub injected : Injected (turned b key root chain) b' hdr.mlkem_pub
    pub ciphertext : hdr.mlkem_ciphertext ≡ (answer d b.peer_advertised_kem_pub).0
    pub last_chain : hdr.pn ≡ b.n_send

  -- The number and the keys that start the new chain.
  abbrev rekeyed : State c → Bytes → Bytes → State c
  rekeyed s root chain = record s { root_key = root; chain_send = chain; n_send = 0; pn = s.n_send }

  -- The last steps of that body, from the results of its calls.
  assemble :
      KemLaws c
      → (d : Draws c) (b b' s s1 s2 : State c) (remote p : c.DhPublic) (hdr : Header)
        (key : c.DhPrivate) (dh_out root chain : Bytes) (out : Option Bytes × Bytes) (due : Bool)
        (advertised : Option Bytes)
      → b.self_pending_kem_priv ≡ none
      → p ≡ remote
      → c.dh key p ≡ ok dh_out
      → answer_injection c d b.peer_advertised_kem_pub (record b { dh_self = some key })
        ≡ (s, ok out)
      → root_kdf c s.root_key dh_out out.1 ≡ ok (root, chain)
      → s1 ≡ rekeyed s root chain
      → inject_if c due d (record s1 { needs_new_sending_chain = false }) ≡ (s2, ok advertised)
      → ◌≡◌ {A = State c × Result Header}
          (
            s2,
            ok (record {
              dh_pub = [];
              pn = s1.pn;
              n = 0;
              mlkem_pub = advertised;
              mlkem_ciphertext = out.0;
            }),
          )
          (b', ok hdr)
      → NewChain d b b' remote hdr
  assemble laws d b b' s s1 s2 remote p hdr key dh_out root chain out due advertised idle same_p
        agreed given keyed same_s1 injected e =
      let ans =
        sym given ∙ answer-eq d b.peer_advertised_kem_pub (record b { dh_self = some key }) refl in
      let same_s : s ≡ answered (record b { dh_self = some key }) = ap (λ q. q.0) ans in
      let same_out : out ≡ answer d b.peer_advertised_kem_pub =
        ok-injective _ _ (ap (λ q. q.1) ans) in
      let s1_b : s1 ≡ rekeyed (answered (record b { dh_self = some key })) root chain =
        same_s1 ∙ ap (λ u. rekeyed u root chain) same_s in
      let turn : record s1 { needs_new_sending_chain = false } ≡ turned b key root chain =
        ap {A = State c} (λ u. record u { needs_new_sending_chain = false }) s1_b in
      let header = ok-injective _ _ (ap (λ q. q.1) e) in
      record {
        key = key;
        dh_out = dh_out;
        root = root;
        chain = chain;
        agreed = subst (λ q. c.dh key q ≡ ok dh_out) same_p agreed;
        derived = sym (ap₂ (λ u o. root_kdf c u.root_key dh_out o.1) same_s same_out) ∙ keyed;
        injected =
            subst (λ h. Injected (turned b key root chain) b' h) (ap (λ h. h.mlkem_pub) header)
              (subst (λ u. Injected (turned b key root chain) u advertised) (ap (λ q. q.0) e)
                (subst (λ u. Injected u s2 advertised) turn
                  (injects laws due d (record s1 { needs_new_sending_chain = false }) s2 advertised
                    (ap (λ u. u.self_pending_kem_priv) s1_b ∙ idle) injected)));
        ciphertext = sym (ap (λ h. h.mlkem_ciphertext) header) ∙ ap (λ o. o.0) same_out;
        last_chain = sym (ap (λ h. h.pn) header) ∙ ap (λ u. u.pn) s1_b;
      }

  pub new_sending_chain-NewChain :
      KemLaws c
      → (d : Draws c) (b b' : State c) (remote : c.DhPublic) (hdr : Header)
      → b.dh_remote ≡ some remote
      → b.self_pending_kem_priv ≡ none
      → new_sending_chain c d b ≡ (b', ok hdr)
      → NewChain d b b' remote hdr
  unfolding new_sending_chain derive_sending_keys
  new_sending_chain-NewChain laws d b b' remote hdr known idle e =
      let b0 : c.DhPrivate → State c = λ key. record b { dh_self = some key } in
      lift_cases c b (c.dh_generate d.dh) _ e λ key _ e.
        lift_cases c (b0 key) (or_panic b.dh_remote) _ e λ p at e.
          lift_cases c (b0 key) (c.dh key p) _ e λ dh_out agreed e.
            continue_cases c (answer_injection c d b.peer_advertised_kem_pub (b0 key)) _ e
              λ s out given e.
                let s0 = record s { pn = s.n_send; n_send = 0 } in
                continue_cases c (derive_sending_keys c dh_out out.1 s0) _ e λ s1 u derived e.
                  set_cases s0 s1 (root_kdf c s.root_key dh_out out.1) derived
                    λ root chain keyed same_s1.
                      continue_cases c
                        (inject_if c (injection_due c s1 d.checked_at) d
                          (record s1 { needs_new_sending_chain = false }))
                        _ e
                        λ s2 advertised injected e.
                          assemble laws d b b' s s1 s2 remote p hdr key dh_out root chain out
                            (injection_due c s1 d.checked_at) advertised idle
                            (ok-injective p remote (sym at ∙ ap or_panic known)) agreed given keyed
                            same_s1 injected e
