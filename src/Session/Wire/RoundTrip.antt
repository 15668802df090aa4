-- ===== src/Session/Wire/RoundTrip.antt =====
-- Envelopes that are written are read back.
use pqc_chat.Common.{
  ℕ, ◌+◌, ◌^◌, ◌<◌, ◌≡◌, refl, sym, subst, ap, ap₂, ◌∙◌, Bool, true, false, not, [], ◌∷◌, ◌++◌,
  append_assoc, append-nil, Bytes, length, length-append, take-append_of, drop-append_of, be32,
  ◌==◌, ==_of, arith, if◌then◌else◌, inl, inr,
}
use native.Mathlib.Nat.{mod-eq_of_lt}
use pqc_chat.Common.Int.{ℤ, pos, to_uint32}
use pqc_chat.Result.{
  ok, ◌>>=◌, ok-injective, truncated_field, truncated_field_body, truncated_index,
}
use pqc_chat.Crypto.{Crypto, DhLaws, DsaKeyLaws}
use pqc_chat.Codec.{append_field-eq, field, read_word-be32, read_field-field}
use pqc_chat.Identity
use pqc_chat.KemHybrid.{marshal_ciphertext}
use pqc_chat.KemHybrid.Agreement.{unmarshal_ciphertext-marshal}
use pqc_chat.Ratchet.Header
use pqc_chat.Ratchet.Header.{Header, unmarshal_header}
use pqc_chat.Ratchet.Header.RoundTrip.{Fits, normal, unmarshal_header-marshal}
use pqc_chat.Session.{InitialMessage}
use pqc_chat.Session.Wire.{
  SubsequentMessage, read_len_prefixed, marshal_subsequent, unmarshal_subsequent, marshal_initial,
  unmarshal_identity_public_key, unmarshal_initial, initial_envelope, subsequent_envelope,
  unmarshal_body, unmarshal_envelope,
}

read-field :
    (content rest : Bytes)
    → length content < 2 ^ 32
    → read_len_prefixed (field content ++ rest) ≡ ok (content, rest)
unfolding read_len_prefixed
read-field content rest h = read_field-field truncated_field truncated_field_body content rest h

-- A last field, with nothing after it.
read-last :
    (content : Bytes)
    → length content < 2 ^ 32
    → read_len_prefixed (field content) ≡ ok (content, [])
read-last content h =
    ap read_len_prefixed (sym (append-nil (field content))) ∙ read-field content [] h

marshal_subsequent-eq :
    (m : SubsequentMessage)
    → marshal_subsequent m ≡ field (Header.marshal m.header) ++ field m.ciphertext
unfolding marshal_subsequent
marshal_subsequent-eq m = simp (append_field-eq)

module _ (c : Crypto) where
  -- A message after the first survives its envelope, up to empty key material in its header that
  -- becomes nil: if the header's numbers and all lengths fit in 32 bits.
  pub unmarshal_envelope-subsequent :
      (m : SubsequentMessage)
      → Fits m.header
      → length (Header.marshal m.header) < 2 ^ 32
      → length m.ciphertext < 2 ^ 32
      → unmarshal_envelope c (subsequent_envelope m)
        ≡ ok (inr (record m { header = normal m.header }))
  unfolding unmarshal_envelope subsequent_envelope unmarshal_body unmarshal_subsequent
  unmarshal_envelope-subsequent m fits small_header small_text = rw (marshal_subsequent-eq m) (
      rw (read-field (Header.marshal m.header) (field m.ciphertext) small_header)
        (rw (unmarshal_header-marshal m.header fits) (rw (read-last m.ciphertext small_text) refl)))

  two_parts :
      (p : Identity.PublicKey c) (b : Bytes)
      → length p.ed25519 ≡ 32
      → length b ≡ c.dsa_public_size
      → c.dsa_unmarshal b ≡ ok p.mldsa
      → unmarshal_identity_public_key c (p.ed25519 ++ b) ≡ ok p
  unfolding unmarshal_identity_public_key
  two_parts p b size long unpacks =
      let whole : length (p.ed25519 ++ b) ≡ 32 + c.dsa_public_size =
        omega (arith, length-append p.ed25519 b, size, long) in
      let front = take-append_of 32 p.ed25519 b size in
      let rear = drop-append_of 32 p.ed25519 b size in
      rw (==_of _ _ whole) (rw (front, rear) (rw unpacks))

  -- What the bytes of a message and its parts must satisfy to be read back.
  pub record Sendable (m : InitialMessage c) (i : ℕ) : Type 0 where
    pub ed25519 : length m.sender_identity.ed25519 ≡ 32
    pub identity : 32 + c.dsa_public_size < 2 ^ 32
    pub kem : length m.kem_ciphertext.mlkem_ciphertext ≡ c.kem_ciphertext_size
    pub small_kem : 32 + c.kem_ciphertext_size < 2 ^ 32
    pub index : m.prekey_index ≡ pos i
    pub small_index : i < 2 ^ 32
    pub fits : Fits m.header
    pub header : length (Header.marshal m.header) < 2 ^ 32
    pub text : length m.ciphertext < 2 ^ 32

  -- The body that is written for an identity's bytes.
  abbrev body_of : InitialMessage c → Bytes → Bytes
  body_of m id =
      field id
      ++ (field (marshal_ciphertext c m.kem_ciphertext)
          ++ (be32 (to_uint32 m.prekey_index)
              ++ ((if m.is_last_resort then 1 else 0)
                  ∷ (field (Header.marshal m.header) ++ field m.ciphertext))))

  marshal_initial-eq :
      (m : InitialMessage c) (id : Bytes)
      → Identity.marshal c m.sender_identity ≡ ok id
      → marshal_initial c m ≡ ok (body_of m id)
  unfolding marshal_initial
  marshal_initial-eq m id e = rw e (ap ok (simp (append_field-eq, append_assoc)))

  -- The flag's byte says what the flag was.
  flag_back : (b : Bool) → not ((if b then 1 else 0) == 0) ≡ b
  flag_back true = refl
  flag_back false = refl

  body-back :
      DhLaws c
      → (m : InitialMessage c) (i : ℕ) (id : Bytes) → Sendable m i
      → unmarshal_identity_public_key c id ≡ ok m.sender_identity
      → length id < 2 ^ 32
      → length (marshal_ciphertext c m.kem_ciphertext) < 2 ^ 32
      → unmarshal_initial c (body_of m id) ≡ ok (record m { header = normal m.header })
  unfolding unmarshal_initial
  body-back dh m i id s back small_id small_ct =
      let ct = marshal_ciphertext c m.kem_ciphertext in
      let index : to_uint32 m.prekey_index ≡ i =
        ap to_uint32 s.index ∙ mod-eq_of_lt s.small_index in
      rw (read-field id _ small_id) (
        rw back (
          rw (read-field ct _ small_ct) (
            rw (unmarshal_ciphertext-marshal c dh m.kem_ciphertext s.kem) (
              rw index (
                rw (read_word-be32 truncated_index i _ s.small_index) (
                  rw (read-field (Header.marshal m.header) _ s.header) (
                    rw (unmarshal_header-marshal m.header s.fits) (
                      rw (read-last m.ciphertext s.text) (
                        ap₂ (λ flag n. ok (read_as flag n)) (flag_back m.is_last_resort)
                          (sym s.index))))))))))
    where
      read_as : Bool → ℤ → InitialMessage c
      read_as flag n = record m {
        header = normal m.header;
        is_last_resort = flag;
        prekey_index = n;
      }

  ciphertext-small :
      DhLaws c
      → (m : InitialMessage c) (i : ℕ) → Sendable m i
      → length (marshal_ciphertext c m.kem_ciphertext) < 2 ^ 32
  unfolding marshal_ciphertext
  ciphertext-small dh m i s = omega (
    arith,
    length-append (c.dh_bytes m.kem_ciphertext.x25519_ephemeral) m.kem_ciphertext.mlkem_ciphertext,
    dh.dh_bytes_size m.kem_ciphertext.x25519_ephemeral,
    s.kem,
    s.small_kem,
  )

  marshal-packed :
      (p : Identity.PublicKey c) (b : Bytes)
      → c.dsa_marshal p.mldsa ≡ ok b
      → Identity.marshal c p ≡ ok (p.ed25519 ++ b)
  unfolding Identity.marshal
  marshal-packed p b e = rw e refl

  -- A first message survives its envelope, up to empty key material in its header that becomes
  -- nil: if its prekey index is not negative and fits in 32 bits, as do its header's numbers and
  -- all lengths, and if its Ed25519 key has 32 bytes and its ML-KEM ciphertext the size of one.
  -- The laws are those of X25519 and of ML-DSA-65 keys.
  pub unmarshal_envelope-initial :
      DhLaws c
      → DsaKeyLaws c
      → (m : InitialMessage c) (i : ℕ) (envelope : Bytes) → Sendable m i
      → initial_envelope c m ≡ ok envelope
      → unmarshal_envelope c envelope ≡ ok (inl (record m { header = normal m.header }))
  unfolding unmarshal_envelope initial_envelope unmarshal_body
  unmarshal_envelope-initial dh dsa m i envelope s e =
      let p = m.sender_identity in
      let (b, packs, long, unpacks) = dsa.dsa_packs p.mldsa in
      let id = p.ed25519 ++ b in
      let small_id : length id < 2 ^ 32 =
        omega (arith, length-append p.ed25519 b, s.ed25519, long, s.identity) in
      let body = marshal_initial-eq m id (marshal-packed p b packs) in
      let back =
        body-back dh m i id s (two_parts p b s.ed25519 long unpacks) small_id
          (ciphertext-small dh m i s) in
      subst (λ x. unmarshal_envelope c x ≡ ok (inl (record m { header = normal m.header })))
        (ok-injective _ _ (sym (ap (λ r. r >>= λ x. ok (1 ∷ x)) body) ∙ e))
        (ap (λ r. r >>= λ x. ok (inl x)) back)
