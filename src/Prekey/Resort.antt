-- ===== src/Prekey/Resort.antt =====
-- The last-resort prekey.
use pqc_chat.Common.{◌≡◌, ◌∙◌, ap, subst, ◌++◌, arith}
use pqc_chat.Result.{ok, bind_cases}
use pqc_chat.Crypto.{Crypto, SignLaws}
use pqc_chat.Identity.{KeyPair, sign, generate, public}
use pqc_chat.Identity.Signing.{verify-sign}
use pqc_chat.KemHybrid
use pqc_chat.KemHybrid.{PrivateKey, generate_key_pair}
use pqc_chat.Prekey.{LastResort, last_resort_tag, generate_last_resort, verify_last_resort}

module _ (c : Crypto) where
  -- Under the laws of the signature algorithms: the last-resort prekey that a generated identity makes
  -- holds the packed public half of the private key returned with it, and passes `VerifyLastResort`
  -- for that identity.
  pub verify_last_resort-generate :
      SignLaws c
      → (e f : c.Entropy) (id : KeyPair c) (g h i : c.Entropy) (k : PrivateKey c) (lr : LastResort)
      → generate c e f ≡ ok id
      → generate_last_resort c id g h i ≡ ok (k, lr)
      → (KemHybrid.marshal c (KemHybrid.public c k) ≡ ok lr.public_key)
        × (verify_last_resort c (public c id) lr ≡ ok tt)
  unfolding generate_last_resort verify_last_resort
  verify_last_resort-generate laws e f id g h i k lr made generated =
      bind_cases (generate_key_pair c g h) _ generated λ private e1 r1.
        bind_cases (KemHybrid.marshal c (KemHybrid.public c private)) _ r1 λ packed e2 r2.
          bind_cases (sign c id (last_resort_tag ++ packed) i) _ r2 λ sig e3 r3.
            let key : private ≡ k = ground arith in
            let body : packed ≡ lr.public_key = ground arith in
            let signed : sig ≡ lr.signature = ground arith in
            (
              subst (λ q. KemHybrid.marshal c (KemHybrid.public c q) ≡ ok lr.public_key) key
                  (e2 ∙ ap ok body),
              verify-sign c laws e f i id (last_resort_tag ++ lr.public_key) lr.signature made (
                  subst (λ q. sign c id (last_resort_tag ++ q) i ≡ ok lr.signature) body
                    (e3 ∙ ap ok signed)),
            )
