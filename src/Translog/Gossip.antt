-- ===== src/Translog/Gossip.antt =====
-- Detection of equivocation: what is found is proof, and what can be found is.
use mathlib.Core.Bool.{false≢true}
use pqc_chat.Common.{
  ◌≡◌, ◌≢◌, ◌↔◌, refl, sym, ◌∙◌, subst, Bool, true, false, not, bytes_equal, bytes_equal_ne,
  bytes_equal_refl,
}
use pqc_chat.Common.Int.{eqℤ, eqℤ→eq, eqℤ_of}
use pqc_chat.Result.{
  Result, ok, ◌>>◌, guard, guard_cases, guard-eq-ok, bind_cases, evidence_sizes_differ,
  evidence_same_root, evidence_operators_differ, evidence_wrong_operator,
}
use pqc_chat.Crypto.{Crypto, DsaKeyLaws}
use pqc_chat.Identity.{PublicKey, equal}
use pqc_chat.Identity.Keys.{equal_iff}
use pqc_chat.Translog.{verify_sth}
use pqc_chat.Translog.View.{Evidence, verify_evidence}

module _ (c : Crypto) where
  -- What evidence proves: two heads of one size, with different roots, both validly signed by the
  -- operator.
  pub record Equivocates (ev : Evidence c) (operator : PublicKey c) : Type 0 where
    pub size : ev.a.tree_size ≡ ev.b.tree_size
    pub roots : ev.a.root_hash ≢ ev.b.root_hash
    pub valid_a : verify_sth c ev.a ≡ ok tt
    pub valid_b : verify_sth c ev.b ≡ ok tt
    pub by_a : ev.a.operator_identity ≡ operator
    pub by_b : ev.b.operator_identity ≡ operator

  -- The rest of the checks, after the two tests on size and root.
  abbrev signed_by : Evidence c → PublicKey c → Result (Unit {0})
  signed_by ev operator = do
    verify_sth c ev.a
    verify_sth c ev.b
    guard (equal c ev.a.operator_identity ev.b.operator_identity) evidence_operators_differ
    guard (equal c ev.a.operator_identity operator) evidence_wrong_operator

  verify_evidence-eq :
      (ev : Evidence c) (operator : PublicKey c)
      → verify_evidence c ev operator ≡ (
          guard (eqℤ ev.a.tree_size ev.b.tree_size) evidence_sizes_differ
          >> (guard (not (bytes_equal ev.a.root_hash ev.b.root_hash)) evidence_same_root
              >> signed_by ev operator))
  unfolding verify_evidence
  verify_evidence-eq ev operator = refl

  not-true : (b : Bool) → not b ≡ true → b ≢ true
  not-true true h e = false≢true h
  not-true false h e = false≢true e

  -- Where ML-DSA-65 keys are packed without loss: `VerifyEvidence` accepts exactly the evidence whose
  -- two heads have one size and different roots and are both validly signed by the given operator.
  pub verify_evidence_iff :
      DsaKeyLaws c
      → (ev : Evidence c) (operator : PublicKey c)
      → (verify_evidence c ev operator ≡ ok tt) ↔ Equivocates ev operator
  verify_evidence_iff laws ev operator = (sound, complete)
    where
      sound : verify_evidence c ev operator ≡ ok tt → Equivocates ev operator
      sound h =
          guard_cases (eqℤ ev.a.tree_size ev.b.tree_size) evidence_sizes_differ _
            (sym (verify_evidence-eq ev operator) ∙ h)
            λ size h1.
              guard_cases (not (bytes_equal ev.a.root_hash ev.b.root_hash)) evidence_same_root _ h1
                λ roots h2. bind_cases (verify_sth c ev.a) _ h2 λ u valid_a h3.
                  bind_cases (verify_sth c ev.b) _ h3 λ v valid_b h4.
                    guard_cases (equal c ev.a.operator_identity ev.b.operator_identity)
                      evidence_operators_differ _ h4
                      λ one h5.
                        let both =
                          (equal_iff c laws ev.a.operator_identity ev.b.operator_identity).0 one in
                        let by =
                          (equal_iff c laws ev.a.operator_identity operator).0
                            (guard-eq-ok _ evidence_wrong_operator h5) in
                        record {
                          size = eqℤ→eq _ _ size;
                          roots = λ e. not-true _ roots (
                              subst (λ r. bytes_equal ev.a.root_hash r ≡ true) e
                                (bytes_equal_refl ev.a.root_hash));
                          valid_a = valid_a;
                          valid_b = valid_b;
                          by_a = by;
                          by_b = sym both ∙ by;
                        }

      complete : Equivocates ev operator → verify_evidence c ev operator ≡ ok tt
      complete q =
          verify_evidence-eq ev operator
          ∙ rw (eqℤ_of _ _ q.size, bytes_equal_ne _ _ q.roots)
              (rw (q.valid_a, q.valid_b)
                (rw (
                  (equal_iff c laws _ _).1 (q.by_a ∙ sym q.by_b),
                  (equal_iff c laws _ _).1 q.by_a,
                )))
