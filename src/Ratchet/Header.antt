-- ===== src/Ratchet/Header.antt =====
-- crypto/ratchet/header.go. `none` is a nil slice, where the code tells nil from empty.
pub mod RoundTrip
use pqc_chat.Common.{
  ℕ, ◌+◌, ◌^◌, ◌<◌, ◌≡◌, refl, ap, sym, ◌∙◌, List, [], ◌∷◌, ◌++◌, append_assoc, append-nil, Option,
  none, some, arith, Bytes, length, All, be32, ◌==◌, if◌then◌else◌,
}
use pqc_chat.Result.{
  Error, Result, ok, err, ◌>>=◌, ◌>>◌, guard, truncated_header, truncated_header_field,
  trailing_header_bytes,
}
use pqc_chat.Codec.{append_field, read_word, read_field}

pub record Header : Type 0 where
  pub dh_pub : Bytes
  pub pn : ℕ
  pub n : ℕ
  pub mlkem_pub : Option Bytes
  pub mlkem_ciphertext : Option Bytes

-- A nil slice has no bytes.
abbrev pub contents : Option Bytes → Bytes
contents none = []
contents (some b) = b

unfoldable pub marshal : Header → Bytes
unfolding append_field
marshal h =
    append_field
      (append_field ((append_field [] h.dh_pub ++ be32 h.pn) ++ be32 h.n) (contents h.mlkem_pub))
      (contents h.mlkem_ciphertext)

-- `if len(b) == 0 { b = nil }`
abbrev pub nil_if_empty : Bytes → Option Bytes
nil_if_empty [] = none
nil_if_empty (x ∷ xs) = some (x ∷ xs)

unfoldable pub read_uint32 : Bytes → Result (ℕ × Bytes)
unfolding read_word
read_uint32 buf = read_word truncated_header buf

unfoldable pub read_bytes : Bytes → Result (Bytes × Bytes)
unfolding read_field
read_bytes buf = read_field truncated_header truncated_header_field buf

unfoldable pub unmarshal_header : Bytes → Result Header
unfolding read_uint32 read_bytes
unmarshal_header buf = do
  (dh_pub, buf) ← read_bytes buf
  (pn, buf) ← read_uint32 buf
  (n, buf) ← read_uint32 buf
  (mlkem_pub, buf) ← read_bytes buf
  (mlkem_ciphertext, buf) ← read_bytes buf
  guard (length buf == 0) trailing_header_bytes
  ok (record {
    dh_pub = dh_pub;
    pn = pn;
    n = n;
    mlkem_pub = nil_if_empty mlkem_pub;
    mlkem_ciphertext = nil_if_empty mlkem_ciphertext;
  })
