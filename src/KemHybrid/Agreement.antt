-- ===== src/KemHybrid/Agreement.antt =====
-- Both sides of the hybrid exchange derive one key, and keys and ciphertexts survive the wire.
use pqc_chat.Common.{
  ◌+◌, ◌≡◌, ◌≢◌, sym, ap, ◌∙◌, ◌++◌, Bytes, length, length-append, arith, ==_of, subst,
  take-append_of, drop-append_of,
}
use pqc_chat.Result.{ok, err, bind_cases, decapsulation_failed}
use pqc_chat.Crypto.{Crypto, DhLaws, KemLaws}
use pqc_chat.KemHybrid.{
  PublicKey, PrivateKey, Ciphertext, public, marshal, unmarshal_public_key, marshal_ciphertext,
  unmarshal_ciphertext, encapsulate, decapsulate,
}

module _ (c : Crypto) where
  -- Under the laws of X25519 and ML-KEM-768: what `Encapsulate` returned for a private key's
  -- public half and a transcript, `Decapsulate` with that private key and transcript turns into
  -- the same session key.
  pub decapsulate-encapsulate :
      DhLaws c
      → KemLaws c
      → (k : PrivateKey c) (transcript : Bytes) (e f : c.Entropy) (ct : Ciphertext c) (key : Bytes)
      → encapsulate c (public c k) transcript e f ≡ ok (ct, key)
      → decapsulate c k ct transcript ≡ ok key
  unfolding encapsulate decapsulate public
  decapsulate-encapsulate dh kem k transcript e f ct key h =
      bind_cases (c.dh_generate e) _ h λ ephemeral made h1.
        bind_cases (c.dh ephemeral (c.dh_public k.x25519)) _ h1 λ ss shared h2.
          bind_cases (c.hkdf _ _ _ 32) _ h2 λ session derived h3.
            let sent = c.kem_encapsulate (c.kem_public k.mlkem) f in
            let point : c.dh_public ephemeral ≡ ct.x25519_ephemeral = ground arith in
            let body : sent.0 ≡ ct.mlkem_ciphertext = ground arith in
            let same : session ≡ key = ground arith in
            let secret : c.dh k.x25519 ct.x25519_ephemeral ≡ ok ss =
              ap (c.dh k.x25519) (sym point) ∙ dh.dh_agrees k.x25519 ephemeral ∙ shared in
            let opened : c.kem_decapsulate k.mlkem ct.mlkem_ciphertext ≡ ok sent.1 =
              ap (c.kem_decapsulate k.mlkem) (sym body) ∙ kem.kem_agrees k.mlkem f in
            let size : length ct.mlkem_ciphertext ≡ c.kem_ciphertext_size =
              ap length (sym body) ∙ kem.kem_size (c.kem_public k.mlkem) f in
            rw (==_of _ _ size) (rw (secret, opened) (derived ∙ ap ok same))

  -- A ciphertext whose ML-KEM part has another size is refused before any secret is computed.
  pub decapsulate_bad_size :
      (k : PrivateKey c) (ct : Ciphertext c) (transcript : Bytes)
      → length ct.mlkem_ciphertext ≢ c.kem_ciphertext_size
      → decapsulate c k ct transcript ≡ err decapsulation_failed
  unfolding decapsulate
  decapsulate_bad_size k ct transcript h = ground arith

  -- Under the laws of X25519 and ML-KEM-768: a public key whose ML-KEM half can be packed survives
  -- `Marshal` and `UnmarshalPublicKey`.
  pub unmarshal_public_key-marshal :
      DhLaws c
      → KemLaws c
      → (p : PublicKey c) (buf : Bytes) → marshal c p ≡ ok buf
      → unmarshal_public_key c buf ≡ ok p
  unfolding marshal unmarshal_public_key
  unmarshal_public_key-marshal dh kem p buf h =
      bind_cases (c.kem_marshal p.mlkem) _ h λ packed e h1.
        let whole : c.dh_bytes p.x25519 ++ packed ≡ buf = ground arith in
        subst (λ b. unmarshal_public_key c b ≡ ok p) whole (two_parts packed e)
    where
      two_parts :
          (packed : Bytes)
          → c.kem_marshal p.mlkem ≡ ok packed
          → unmarshal_public_key c (c.dh_bytes p.x25519 ++ packed) ≡ ok p
      two_parts packed e =
          let (back, size) = kem.kem_unpack_marshal p.mlkem packed e in
          let long : length (c.dh_bytes p.x25519 ++ packed) ≡ 32 + c.kem_public_size =
            omega (arith, length-append (c.dh_bytes p.x25519) packed, dh.dh_bytes_size p.x25519) in
          let front = take-append_of 32 (c.dh_bytes p.x25519) packed (dh.dh_bytes_size p.x25519) in
          let rear = drop-append_of 32 (c.dh_bytes p.x25519) packed (dh.dh_bytes_size p.x25519) in
          rw (==_of _ _ long) (rw (front, rear) (rw (dh.dh_parse_bytes p.x25519, back)))

  -- Under the laws of X25519: a ciphertext with an ML-KEM part of the right size survives
  -- `Marshal` and `UnmarshalCiphertext`.
  pub unmarshal_ciphertext-marshal :
      DhLaws c
      → (ct : Ciphertext c) → length ct.mlkem_ciphertext ≡ c.kem_ciphertext_size
      → unmarshal_ciphertext c (marshal_ciphertext c ct) ≡ ok ct
  unfolding marshal_ciphertext unmarshal_ciphertext
  unmarshal_ciphertext-marshal dh ct size =
      let point = c.dh_bytes ct.x25519_ephemeral in
      let sized = dh.dh_bytes_size ct.x25519_ephemeral in
      let long : length (point ++ ct.mlkem_ciphertext) ≡ 32 + c.kem_ciphertext_size =
        omega (arith, length-append point ct.mlkem_ciphertext, sized) in
      let front = take-append_of 32 point ct.mlkem_ciphertext sized in
      let rear = drop-append_of 32 point ct.mlkem_ciphertext sized in
      rw (==_of _ _ long) (rw (front, rear) (rw (dh.dh_parse_bytes ct.x25519_ephemeral)))
