-- ===== src/Result.antt =====
-- Go's `(value, error)` results, with the two ways in which a call returns nothing: a runtime panic,
-- and a loop that does not end. The named errors of every package are one type.
use pqc_chat.Common.{ℕ, ◌≡◌, refl, Bool, true, false, Option, none, some, arith}

pub data Error : Type 0 where
  -- what a function outside the program returned, by an opaque number
  library : ℕ → Error
  -- crypto/merkle, crypto/identity, crypto/kemhybrid
  index_out_of_range verification_failed : Error
  invalid_key_length invalid_ciphertext_length decapsulation_failed : Error
  -- crypto/prekey
  batch_size_not_positive invalid_bundle_proof prekey_out_of_range : Error
  -- crypto/ratchet
  skip_too_large unexpected_kem_ct : Error
  truncated_header truncated_header_field trailing_header_bytes : Error
  -- crypto/session
  truncated_field truncated_field_body truncated_index truncated_flag : Error
  trailing_bytes empty_envelope unknown_envelope invalid_identity_length : Error
  -- relay
  unknown_user no_prekeys_published no_prekeys_available : Error
  -- translog
  unknown_index no_sth_published invalid_log_proof unexpected_operator : Error
  evidence_sizes_differ evidence_same_root evidence_operators_differ evidence_wrong_operator : Error

pub data Result {ℓ} (A : Type ℓ) : Type ℓ where
  ok : A → Result A
  err : Error → Result A
  panic : Result A
  diverges : Result A

-- What does not return a value ends the chain.
infixl 5 ◌>>=◌ ◌>>◌
abbrev pub ◌>>=◌ {ℓ κ} : {A : Type ℓ} {B : Type κ} → Result A → (A → Result B) → Result B
ok value >>= rest = rest value
err e >>= rest = err e
panic >>= rest = panic
diverges >>= rest = diverges

-- A test that stands for a returned error.
abbrev pub guard : Bool → Error → Result (Unit {0})
guard false e = err e
guard true e = ok tt

abbrev pub ◌>>◌ {ℓ} : {B : Type ℓ} → Result (Unit {0}) → Result B → Result B
first >> second = first >>= λ _. second

-- A read out of range, or through a nil pointer, panics.
abbrev pub or_panic {ℓ} : {A : Type ℓ} → Option A → Result A
or_panic none = panic
or_panic (some a) = ok a

pub guard-eq-ok : (b : Bool) (e : Error) {u : Unit {0}} → guard b e ≡ ok u → b ≡ true
guard-eq-ok true e h = refl
guard-eq-ok false e h = ground arith

-- A chain that returned a value has a first call that did; the proof goes on with its value.
pub bind_cases {ℓ κ μ} :
    {A : Type ℓ} {B : Type κ} {P : Type μ} (first : Result A) (rest : A → Result B) {b : B}
    → (first >>= rest) ≡ ok b
    → ((value : A) → first ≡ ok value → rest value ≡ ok b → P)
    → P
bind_cases (ok value) rest h go = go value refl h
bind_cases (err e) rest h go = absurd (ground arith)
bind_cases panic rest h go = absurd (ground arith)
bind_cases diverges rest h go = absurd (ground arith)

pub guard_cases {ℓ κ} :
    {B : Type ℓ} {P : Type κ} (t : Bool) (e : Error) (m : Result B) {b : B}
    → (guard t e >> m) ≡ ok b
    → (t ≡ true → m ≡ ok b → P)
    → P
guard_cases true e m h go = go refl h
guard_cases false e m h go = absurd (ground arith)

pub ok-injective {ℓ} : {A : Type ℓ} (a b : A) → ok a ≡ ok b → a ≡ b
ok-injective a b e = cc
