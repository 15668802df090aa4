-- ===== src/Codec.antt =====
-- The big-endian words and length-prefixed fields of crypto/ratchet/header.go and
-- crypto/session/wire.go. The two files read them by the same steps with different errors.
use pqc_chat.Common.{
  ℕ, ◌+◌, ◌/◌, ◌%◌, ◌^◌, ◌<◌, ◌≡◌, ap, ap₂, sym, ◌∙◌, [], ◌∷◌, ◌++◌, append_assoc, arith, Bytes,
  length, length-append, length-take, take, drop, take-append, drop-append, take-append-drop, All,
  leb, le→leb, leb→le, subst, zero, suc, if◌then◌else◌, be32, uint32_of, uint32_of-be32, Bool-cases,
  inl, inr,
}
use pqc_chat.Result.{Error, Result, ok, err, ◌>>=◌, bind_cases}

abbrev pub IsByte : ℕ → Type 0
IsByte b = b < 256

-- `appendBytes` and `appendLenPrefixed`; `uint32(len(data))` is cut to 32 bits by `be32`.
unfoldable pub append_field : Bytes → Bytes → Bytes
append_field buf content = (buf ++ be32 (length content)) ++ content

-- `readUint32`
unfoldable pub read_word : Error → Bytes → Result (ℕ × Bytes)
read_word truncated (a ∷ b ∷ c ∷ d ∷ rest) = ok (uint32_of a b c d, rest)
read_word truncated _ = err truncated

-- `buf[:n], buf[n:]` after the test on what is left.
abbrev pub split_at : Error → ℕ → Bytes → Result (Bytes × Bytes)
split_at short n rest = if leb n (length rest) then ok (take n rest, drop n rest) else err short

-- `readBytes` and `readLenPrefixed`
unfoldable pub read_field : Error → Error → Bytes → Result (Bytes × Bytes)
unfolding read_word
read_field truncated short buf = do (n, rest) ← read_word truncated buf; split_at short n rest

-- A field as it is appended to an empty buffer.
abbrev pub field : Bytes → Bytes
field content = be32 (length content) ++ content

pub append_field-eq : (buf content : Bytes) → append_field buf content ≡ buf ++ field content
unfolding append_field
append_field-eq buf content = append_assoc buf (be32 (length content)) content

pub read_word-be32 :
    (e : Error) (n : ℕ) (rest : Bytes) → n < 2 ^ 32 → read_word e (be32 n ++ rest) ≡ ok (n, rest)
unfolding read_word be32
read_word-be32 e n rest h = ap (λ (m : ℕ). ok (m, rest)) (uint32_of-be32 n h)

pub read_field-field :
    (e f : Error) (content rest : Bytes)
    → length content < 2 ^ 32
    → read_field e f (field content ++ rest) ≡ ok (content, rest)
unfolding read_field
read_field-field e f content rest h =
    rw
      (
        append_assoc (be32 (length content)) content rest,
        read_word-be32 e (length content) (content ++ rest) h,
      )
      (rw (length-append content rest) (
        rw (le→leb (length content) (length content + length rest) (omega arith))
          (rw (take-append content rest, drop-append content rest))))

bytes_of_word :
    (a b c d : ℕ)
    → a < 256
    → b < 256
    → c < 256
    → d < 256
    → (be32 (uint32_of a b c d) ≡ a ∷ b ∷ c ∷ d ∷ []) × (uint32_of a b c d < 2 ^ 32)
unfolding be32
bytes_of_word a b c d ha hb hc hd =
    let a' : uint32_of a b c d / 2 ^ 24 % 256 ≡ a = omega arith in
    let b' : uint32_of a b c d / 2 ^ 16 % 256 ≡ b = omega arith in
    let c' : uint32_of a b c d / 2 ^ 8 % 256 ≡ c = omega arith in
    let d' : uint32_of a b c d % 256 ≡ d = omega arith in (rw (a', b', c', d'), omega arith)

-- What was read, written again, is the input.
pub read_word_back :
    (e : Error) (buf : Bytes) (n : ℕ) (rest : Bytes)
    → All IsByte buf
    → read_word e buf ≡ ok (n, rest)
    → (buf ≡ be32 n ++ rest) × (n < 2 ^ 32) × All IsByte rest
unfolding read_word
read_word_back e [] n rest h r = ground arith
read_word_back e (a ∷ []) n rest h r = ground arith
read_word_back e (a ∷ b ∷ []) n rest h r = ground arith
read_word_back e (a ∷ b ∷ c ∷ []) n rest h r = ground arith
read_word_back e (a ∷ b ∷ c ∷ d ∷ more) n rest h r =
    let value : uint32_of a b c d ≡ n = cc in
    let left : more ≡ rest = cc in
    let word = bytes_of_word a b c d h.0 h.1.0 h.1.1.0 h.1.1.1.0 in
    (
      ap (λ ys. ys ++ more) (sym word.0) ∙ ap₂ (λ m ys. be32 m ++ ys) value left,
      subst (λ m. m < 2 ^ 32) value word.1,
      subst (All IsByte) left h.1.1.1.1,
    )

All-drop : (n : ℕ) (xs : Bytes) → All IsByte xs → All IsByte (drop n xs)
All-drop zero xs h = h
All-drop (suc n) [] h = tt
All-drop (suc n) (x ∷ xs) h = All-drop n xs h.1

All-take : (n : ℕ) (xs : Bytes) → All IsByte xs → All IsByte (take n xs)
All-take zero xs h = tt
All-take (suc n) [] h = tt
All-take (suc n) (x ∷ xs) h = (h.0, All-take n xs h.1)

-- The body of a field of `n` bytes and what follows it.
field_body :
    (f : Error) (n : ℕ) (after content rest : Bytes)
    → All IsByte after
    → split_at f n after ≡ ok (content, rest)
    → (after ≡ content ++ rest) × (n ≡ length content) × All IsByte content × All IsByte rest
field_body f n after content rest h r = elim (Bool-cases (leb n (length after))) [
  | inr short ↦ absurd (ground arith)
  | inl enough ↦
      let body : take n after ≡ content = ground arith in
      let tail : drop n after ≡ rest = ground arith in
      (
        sym (take-append-drop n after) ∙ ap₂ ◌++◌ body tail,
        omega (arith, ap length body, length-take n after, leb→le n (length after) enough),
        subst (All IsByte) body (All-take n after h),
        subst (All IsByte) tail (All-drop n after h),
      )
]

pub read_field_back :
    (e f : Error) (buf content rest : Bytes)
    → All IsByte buf
    → read_field e f buf ≡ ok (content, rest)
    → (buf ≡ field content ++ rest) × All IsByte content × All IsByte rest
unfolding read_field
read_field_back e f buf content rest h r = bind_cases (read_word e buf) _ r λ p word r'.
    let (split, small, bytes) = read_word_back e buf p.0 p.1 h word in
    let (parts, long, whole, left) = field_body f p.0 p.1 content rest bytes r' in
    (
      split
          ∙ ap₂ (λ m ys. be32 m ++ ys) long parts
          ∙ sym (append_assoc (be32 (length content)) content rest),
      whole,
      left,
    )
