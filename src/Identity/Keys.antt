-- ===== src/Identity/Keys.antt =====
-- Public keys compared and packed.
use pqc_chat.Common.{
  ◌≡◌, ◌↔◌, inl, inr, subst, Bool-cases, sym, ap, ◌∙◌, true, false, Bytes, length, arith,
  if◌then◌else◌, ◌++◌, bytes_equal, bytes_equal→eq, bytes_equal_refl, append_injective,
}
use pqc_chat.Result.{ok}
use pqc_chat.Crypto.{Crypto, DsaKeyLaws}
use pqc_chat.Identity.{PublicKey, equal, marshal}

module _ (c : Crypto) (laws : DsaKeyLaws c) where
  -- ML-DSA-65 keys with one packed form are one key.
  dsa_key_unique :
      (p q : c.DsaPublic) (b : Bytes) → c.dsa_marshal p ≡ ok b → c.dsa_marshal q ≡ ok b → p ≡ q
  dsa_key_unique p q b hp hq =
      let (bp, ep, _, up) = laws.dsa_packs p in
      let (bq, eq, _, uq) = laws.dsa_packs q in
      let same_p : bp ≡ b = ground arith in
      let same_q : bq ≡ b = ground arith in
      let both : ok p ≡ ok q = sym up ∙ ap c.dsa_unmarshal (same_p ∙ sym same_q) ∙ uq in cc

  -- Records with equal parts are equal.
  key_path : (p q : PublicKey c) → p.ed25519 ≡ q.ed25519 → p.mldsa ≡ q.mldsa → p ≡ q
  key_path p q e m = λ i. record { ed25519 = e i; mldsa = m i }

  equal-of_packed :
      (p q : PublicKey c) (bp bq : Bytes)
      → c.dsa_marshal p.mldsa ≡ ok bp
      → c.dsa_marshal q.mldsa ≡ ok bq
      → equal c p q ≡ (if bytes_equal p.ed25519 q.ed25519 then bytes_equal bp bq else false)
  unfolding equal
  equal-of_packed p q bp bq ep eq = rw (ep, eq)

  equal→eq : (p q : PublicKey c) → equal c p q ≡ true → p ≡ q
  equal→eq p q h =
      let (bp, ep, _, _) = laws.dsa_packs p.mldsa in
      let (bq, eq, _, _) = laws.dsa_packs q.mldsa in
      let tests = sym (equal-of_packed p q bp bq ep eq) ∙ h in
      elim (Bool-cases (bytes_equal p.ed25519 q.ed25519)) [
        | inr differ ↦ absurd (ground arith)
        | inl same ↦
            let packed : bp ≡ bq = bytes_equal→eq bp bq (ground arith) in
            key_path p q (bytes_equal→eq _ _ same)
              (dsa_key_unique p.mldsa q.mldsa bq (ep ∙ ap ok packed) eq)
      ]

  equal_refl : (p : PublicKey c) → equal c p p ≡ true
  equal_refl p =
      let (b, e, _, _) = laws.dsa_packs p.mldsa in
      equal-of_packed p p b b e e ∙ rw (bytes_equal_refl p.ed25519, bytes_equal_refl b)

  -- Where ML-DSA-65 keys are packed without loss, `Equal` is true exactly for equal keys: both the
  -- Ed25519 and the ML-DSA-65 parts agree.
  pub equal_iff : (p q : PublicKey c) → (equal c p q ≡ true) ↔ (p ≡ q)
  equal_iff p q = (equal→eq p q, λ e. subst (λ r. equal c p r ≡ true) e (equal_refl p))

  -- Where ML-DSA-65 keys are packed without loss: two keys with Ed25519 parts of one length have
  -- equal encodings only if they are equal.
  pub marshal_injective :
      (p q : PublicKey c) (b : Bytes)
      → length p.ed25519 ≡ length q.ed25519
      → marshal c p ≡ ok b
      → marshal c q ≡ ok b
      → p ≡ q
  unfolding marshal
  marshal_injective p q b long hp hq =
      let (bp, ep, _, _) = laws.dsa_packs p.mldsa in
      let (bq, eq, _, _) = laws.dsa_packs q.mldsa in
      let whole : p.ed25519 ++ bp ≡ q.ed25519 ++ bq = ground arith in
      let parts = append_injective p.ed25519 q.ed25519 bp bq long whole in
      key_path p q parts.0 (dsa_key_unique p.mldsa q.mldsa bq (ep ∙ ap ok parts.1) eq)
