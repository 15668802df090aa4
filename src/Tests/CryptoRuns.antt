-- ===== src/Tests/CryptoRuns.antt =====
-- crypto/ratchet/header.go, crypto/identity and crypto/kemhybrid at concrete inputs.
use pqc_chat.Common.{◌≡◌, refl, [], ◌∷◌, none, some, Bytes, replicate, ◌++◌, arith}
use pqc_chat.Result.{ok}
use pqc_chat.Ratchet.Header.{Header, marshal, unmarshal_header}
use pqc_chat.Ratchet.Header.RoundTrip.{normal, unmarshal_header-marshal, marshal-unmarshal_header}
use pqc_chat.Identity
use pqc_chat.Identity.{KeyPair, Signature, generate, sign, verify, equal}
use pqc_chat.Identity.Signing.{verify-sign}
use pqc_chat.KemHybrid
use pqc_chat.KemHybrid.{
  PrivateKey, Ciphertext, encapsulate, decapsulate, unmarshal_public_key, unmarshal_ciphertext,
  marshal_ciphertext,
}
use pqc_chat.KemHybrid.Agreement.{decapsulate-encapsulate}
use pqc_chat.Tests.Toy.{toy, toy-DhLaws, toy-KemLaws, toy-SignLaws, pad}

abbrev header : Header
header = record {
  dh_pub = 7 ∷ 8 ∷ [];
  pn = 2;
  n = 300;
  mlkem_pub = none;
  mlkem_ciphertext = some (9 ∷ []);
}

unmarshal_header-marshal_example : unmarshal_header (marshal header) ≡ ok (normal header)
unmarshal_header-marshal_example = unmarshal_header-marshal header (ground arith)

-- The 23 bytes of `header`.
abbrev packed : Bytes
packed =
    0 ∷ 0 ∷ 0 ∷ 2 ∷ 7 ∷ 8 ∷ 0 ∷ 0 ∷ 0 ∷ 2 ∷ 0 ∷ 0 ∷ 1 ∷ 44 ∷ 0 ∷ 0 ∷ 0 ∷ 0 ∷ 0 ∷ 0 ∷ 0 ∷ 1 ∷ 9 ∷ []

parsed : unmarshal_header packed ≡ ok header
unfolding unmarshal_header
parsed = refl

marshal-unmarshal_header_example : marshal header ≡ packed
marshal-unmarshal_header_example = marshal-unmarshal_header packed header (ground arith) parsed

abbrev key_pair : KeyPair toy
key_pair = record {
  ed25519_public = 4 ∷ [];
  ed25519_private = 4 ∷ [];
  mldsa_public = 5;
  mldsa_private = 5;
}

abbrev public_key : Identity.PublicKey toy
public_key = record { ed25519 = 4 ∷ []; mldsa = 5 }

abbrev signature : Signature
signature = record { ed25519 = 4 ∷ 1 ∷ 2 ∷ []; mldsa = 5 ∷ 1 ∷ 2 ∷ [] }

generated : generate toy 4 5 ≡ ok key_pair
unfolding generate
generated = refl

signed : sign toy key_pair (1 ∷ 2 ∷ []) 0 ≡ ok signature
unfolding sign
signed = refl

verify-sign_example : verify toy (Identity.public toy key_pair) (1 ∷ 2 ∷ []) signature ≡ ok tt
verify-sign_example =
    verify-sign toy toy-SignLaws 4 5 0 key_pair (1 ∷ 2 ∷ []) signature generated signed

identity_packed : Identity.marshal toy public_key ≡ ok (4 ∷ 5 ∷ [])
unfolding Identity.marshal
identity_packed = refl

abbrev private_key : PrivateKey toy
private_key = record { x25519 = 10; mlkem = 20 }

abbrev ciphertext : Ciphertext toy
ciphertext = record { x25519_ephemeral = 3; mlkem_ciphertext = 20 ∷ 6 ∷ [] }

encapsulated :
    encapsulate toy (KemHybrid.public toy private_key) (1 ∷ []) 3 6
    ≡ ok (ciphertext, replicate 32 40)
unfolding encapsulate KemHybrid.public
encapsulated = refl

decapsulate-encapsulate_example :
    decapsulate toy private_key ciphertext (1 ∷ []) ≡ ok (replicate 32 40)
decapsulate-encapsulate_example =
    decapsulate-encapsulate toy toy-DhLaws toy-KemLaws private_key (1 ∷ []) 3 6 ciphertext
      (replicate 32 40) encapsulated

hybrid_packed : KemHybrid.marshal toy (KemHybrid.public toy private_key) ≡ ok (pad 10 ++ 20 ∷ [])
unfolding KemHybrid.marshal KemHybrid.public
hybrid_packed = refl
