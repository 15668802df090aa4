-- ===== src/Session/Wire.antt =====
-- crypto/session/wire.go: messages and envelopes as bytes.
pub mod RoundTrip
use pqc_chat.Common.{
  ℕ, ◌+◌, Bool, true, false, not, List, [], ◌∷◌, ◌++◌, Bytes, length, take, drop, be32, ◌==◌,
  if◌then◌else◌, ◌⊎◌, inl, inr,
}
use pqc_chat.Common.Int.{ℤ, pos, to_uint32}
use pqc_chat.Result.{
  Result, ok, err, panic, diverges, ◌>>=◌, ◌>>◌, guard, truncated_field, truncated_field_body,
  truncated_index, truncated_flag, trailing_bytes, empty_envelope, unknown_envelope,
  invalid_identity_length,
}
use pqc_chat.Crypto.{Crypto}
use pqc_chat.Codec.{append_field, read_word, read_field}
use pqc_chat.Identity
use pqc_chat.KemHybrid
use pqc_chat.KemHybrid.{marshal_ciphertext, unmarshal_ciphertext}
use pqc_chat.Ratchet.Header
use pqc_chat.Ratchet.Header.{Header, unmarshal_header}
use pqc_chat.Session.{InitialMessage}

abbrev pub envelope_type_initial : ℕ
envelope_type_initial = 1

abbrev pub envelope_type_subsequent : ℕ
envelope_type_subsequent = 2

pub record SubsequentMessage : Type 0 where
  pub header : Header
  pub ciphertext : Bytes

unfoldable pub read_len_prefixed : Bytes → Result (Bytes × Bytes)
unfolding read_field
read_len_prefixed buf = read_field truncated_field truncated_field_body buf

-- The flag of one byte: any byte but 0 is true.
unfoldable pub read_flag : Bytes → Result (Bool × Bytes)
read_flag [] = err truncated_flag
read_flag (b ∷ rest) = ok (not (b == 0), rest)

unfoldable pub marshal_subsequent : SubsequentMessage → Bytes
unfolding append_field Header.marshal
marshal_subsequent m = append_field (append_field [] (Header.marshal m.header)) m.ciphertext

unfoldable pub unmarshal_subsequent : Bytes → Result SubsequentMessage
unfolding read_len_prefixed unmarshal_header
unmarshal_subsequent buf = do
  (hdr_bytes, buf) ← read_len_prefixed buf
  hdr ← unmarshal_header hdr_bytes
  (ciphertext, buf) ← read_len_prefixed buf
  guard (length buf == 0) trailing_bytes
  ok (record { header = hdr; ciphertext = ciphertext })

unfoldable pub subsequent_envelope : SubsequentMessage → Bytes
unfolding marshal_subsequent
subsequent_envelope m = envelope_type_subsequent ∷ marshal_subsequent m

module _ (c : Crypto) where
  unfoldable pub marshal_initial : InitialMessage c → Result Bytes
  unfolding append_field Header.marshal
  marshal_initial m = do
    id_bytes ← Identity.marshal c m.sender_identity
    let ct_bytes = marshal_ciphertext c m.kem_ciphertext
    let buf = append_field (append_field [] id_bytes) ct_bytes
    let buf = (buf ++ be32 (to_uint32 m.prekey_index)) ++ (if m.is_last_resort then 1 else 0) ∷ []
    ok (append_field (append_field buf (Header.marshal m.header)) m.ciphertext)

  unfoldable pub unmarshal_identity_public_key : Bytes → Result (Identity.PublicKey c)
  unmarshal_identity_public_key buf = do
    guard (length buf == (32 + c.dsa_public_size)) invalid_identity_length
    mldsa ← c.dsa_unmarshal (drop 32 buf)
    ok (record { ed25519 = take 32 buf; mldsa = mldsa })

  unfoldable pub unmarshal_initial : Bytes → Result (InitialMessage c)
  unfolding read_len_prefixed read_word read_flag unmarshal_header unmarshal_identity_public_key
  unmarshal_initial buf = do
    (id_bytes, buf) ← read_len_prefixed buf
    sender ← unmarshal_identity_public_key id_bytes
    (ct_bytes, buf) ← read_len_prefixed buf
    ct ← unmarshal_ciphertext c ct_bytes
    (prekey_index, buf) ← read_word truncated_index buf
    (is_last_resort, buf) ← read_flag buf
    (hdr_bytes, buf) ← read_len_prefixed buf
    hdr ← unmarshal_header hdr_bytes
    (ciphertext, buf) ← read_len_prefixed buf
    guard (length buf == 0) trailing_bytes
    ok (record {
      sender_identity = sender;
      kem_ciphertext = ct;
      prekey_index = pos prekey_index;
      is_last_resort = is_last_resort;
      header = hdr;
      ciphertext = ciphertext;
    })

  unfoldable pub initial_envelope : InitialMessage c → Result Bytes
  unfolding marshal_initial
  initial_envelope m = do body ← marshal_initial m; ok (envelope_type_initial ∷ body)

  -- The switch on the type byte. One of the two messages is returned.
  unfoldable pub unmarshal_body : ℕ → Bytes → Result (InitialMessage c ⊎ SubsequentMessage)
  unfolding unmarshal_initial unmarshal_subsequent
  unmarshal_body tag body =
      let initial = unmarshal_initial body in
      let subsequent = unmarshal_subsequent body in
      if tag == envelope_type_initial
      then (initial >>= λ m. ok (inl m))
      else if tag == envelope_type_subsequent
      then (subsequent >>= λ m. ok (inr m))
      else err unknown_envelope

  unfoldable pub unmarshal_envelope : Bytes → Result (InitialMessage c ⊎ SubsequentMessage)
  unfolding unmarshal_body
  unmarshal_envelope [] = err empty_envelope
  unmarshal_envelope (tag ∷ body) = unmarshal_body tag body
