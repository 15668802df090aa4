-- ===== src/Ratchet/Header/RoundTrip.antt =====
-- A header printed and parsed, and a header parsed and printed.
use pqc_chat.Common.{
  true, ◌^◌, ◌<◌, ◌≡◌, refl, ap, sym, ◌∙◌, [], ◌∷◌, ◌++◌, append_assoc, append-nil, arith, Bytes,
  length, All, be32, ◌==◌,
}
use pqc_chat.Result.{
  ok, bind_cases, guard_cases, truncated_header, truncated_header_field, trailing_header_bytes,
}
use pqc_chat.Codec.{
  IsByte, field, append_field-eq, read_word-be32, read_field-field, read_word_back, read_field_back,
}
use pqc_chat.Ratchet.Header.{
  Header, contents, marshal, nil_if_empty, read_uint32, read_bytes, unmarshal_header,
}

-- The numbers are uint32 and the lengths of the slices fit in one.
pub record Fits (h : Header) : Type 0 where
  pub dh_pub : length h.dh_pub < 2 ^ 32
  pub pn : h.pn < 2 ^ 32
  pub n : h.n < 2 ^ 32
  pub mlkem_pub : length (contents h.mlkem_pub) < 2 ^ 32
  pub mlkem_ciphertext : length (contents h.mlkem_ciphertext) < 2 ^ 32

-- An empty slice is sent like a nil one.
abbrev pub normal : Header → Header
normal h = record h {
  mlkem_pub = nil_if_empty (contents h.mlkem_pub);
  mlkem_ciphertext = nil_if_empty (contents h.mlkem_ciphertext);
}

-- The fields in order.
pub marshal-eq :
    (h : Header)
    → marshal h
      ≡ field h.dh_pub
        ++ (be32 h.pn
            ++ (be32 h.n
                ++ (field (contents h.mlkem_pub) ++ (field (contents h.mlkem_ciphertext) ++ []))))
unfolding marshal
marshal-eq h = simp (append_field-eq, append_assoc, append-nil)

-- Parsing what `Marshal` wrote gives the header back, with empty key material as nil, if its numbers
-- and lengths fit in 32 bits.
pub unmarshal_header-marshal : (h : Header) → Fits h → unmarshal_header (marshal h) ≡ ok (normal h)
unfolding unmarshal_header
unmarshal_header-marshal h f = rw (marshal-eq h) (
    rw (read_field-field truncated_header truncated_header_field h.dh_pub _ f.dh_pub) (
      rw (read_word-be32 truncated_header h.pn _ f.pn) (
        rw (read_word-be32 truncated_header h.n _ f.n) (
          rw
            (read_field-field truncated_header truncated_header_field (contents h.mlkem_pub) _
              f.mlkem_pub)
            (rw (
              read_field-field truncated_header truncated_header_field (contents h.mlkem_ciphertext)
                _ f.mlkem_ciphertext))))))

contents-nil_if_empty : (b : Bytes) → contents (nil_if_empty b) ≡ b
contents-nil_if_empty [] = refl
contents-nil_if_empty (x ∷ xs) = refl

length-zero : (b : Bytes) → (length b == 0) ≡ true → b ≡ []
length-zero [] e = refl
length-zero (x ∷ xs) e = absurd (ground arith)

-- A byte string that parses is the one that `Marshal` writes for the parsed header: no header has two
-- encodings that are accepted.
pub marshal-unmarshal_header :
    (buf : Bytes) (h : Header) → All IsByte buf → unmarshal_header buf ≡ ok h → marshal h ≡ buf
unfolding unmarshal_header
marshal-unmarshal_header buf h bytes e = bind_cases (read_bytes buf) _ e λ dh r1 e1.
    bind_cases (read_uint32 dh.1) _ e1 λ pn r2 e2. bind_cases (read_uint32 pn.1) _ e2 λ n r3 e3.
      bind_cases (read_bytes n.1) _ e3 λ key r4 e4. bind_cases (read_bytes key.1) _ e4 λ ct r5 e5.
        guard_cases (length ct.1 == 0) trailing_header_bytes _ e5 λ done e6.
          let f1 = read_field_back truncated_header truncated_header_field buf dh.0 dh.1 bytes r1 in
          let f2 = read_word_back truncated_header dh.1 pn.0 pn.1 f1.2 r2 in
          let f3 = read_word_back truncated_header pn.1 n.0 n.1 f2.2 r3 in
          let f4 =
            read_field_back truncated_header truncated_header_field n.1 key.0 key.1 f3.2 r4 in
          let f5 =
            read_field_back truncated_header truncated_header_field key.1 ct.0 ct.1 f4.2 r5 in
          ap (λ r. elim r [ ok g ↦ marshal g | _ ↦ [] ]) (sym e6)
          ∙ marshal-eq _
          ∙ simp (contents-nil_if_empty) (
              sym (
                f1.0
                ∙ ap (λ b. field dh.0 ++ b)
                    (f2.0
                      ∙ ap (λ b. be32 pn.0 ++ b)
                          (f3.0
                            ∙ ap (λ b. be32 n.0 ++ b)
                                (f4.0
                                  ∙ ap (λ b. field key.0 ++ b)
                                      (f5.0
                                        ∙ ap (λ b. field ct.0 ++ b) (length-zero ct.1 done)))))))
