-- ===== src/Translog/Detection.antt =====
-- `Observe` and `GossipWith`: what a view holds, and what it reports.
use mathlib.Core.Option.{some-injective, none-ne-some}
use pqc_chat.Common.{
  ◌≡◌, ◌≢◌, refl, sym, ap, ◌∙◌, subst, ◌⊎◌, inl, inr, true, List, [], ◌∷◌, Option, none, some, All,
  arith, bytes_equal, bytes_equal_refl, Bool-cases,
}
use mathlib.Core.Bool.{false≢true}
use pqc_chat.Common.Int.{ℤ, ℤ_discrete}
use pqc_chat.Common.Map.{lookup, insert, lookup-insert_self, lookup-insert_ne}
use pqc_chat.Result.{Result, ok, err, panic, diverges, ◌>>=◌, bind_cases, ok-injective}
use pqc_chat.Crypto.{Crypto, DsaKeyLaws}
use pqc_chat.Identity.{PublicKey, equal}
use pqc_chat.Identity.Keys.{equal_iff}
use pqc_chat.Translog.{SignedTreeHead, verify_sth}
use pqc_chat.Translog.View.{
  Evidence, ClientView, new_client_view, record_head, observe_verified, observe, collect,
  observe_all,
}
use pqc_chat.Translog.Gossip.{Equivocates}

module _ (c : Crypto) (laws : DsaKeyLaws c) where
  -- A head that the view's operator validly signed.
  pub record IsValid (operator : PublicKey c) (sth : SignedTreeHead c) : Type 0 where
    pub signed : verify_sth c sth ≡ ok tt
    pub by : sth.operator_identity ≡ operator

  abbrev pub seen_at : ClientView c → ℤ → Option (SignedTreeHead c)
  seen_at v n = lookup ℤ_discrete n v.seen

  -- Every head is valid and stands at its own size.
  abbrev pub IsView : ClientView c → Type 0
  IsView v =
      (n : ℤ) (sth : SignedTreeHead c)
      → seen_at v n ≡ some sth
      → (sth.tree_size ≡ n) × IsValid v.operator_identity sth

  pub new_client_view-IsView : (operator : PublicKey c) → IsView (new_client_view c operator)
  unfolding new_client_view lookup
  new_client_view-IsView operator n sth h = absurd (none-ne-some sth h)

  -- A call that returned no error: the head was valid.
  verified-cases :
      (v : ClientView c) (sth : SignedTreeHead c) (r : Result (Unit {0}))
      → ((r ≡ ok tt) × (observe_verified c v sth r ≡ record_head c v sth (seen_at v sth.tree_size)))
        ⊎ (((observe_verified c v sth r).0 ≡ v)
            × ((o : Option (Evidence c)) → (observe_verified c v sth r).1 ≢ ok o))
  unfolding observe_verified
  verified-cases v sth (ok tt) = inl (refl, refl)
  verified-cases v sth (err e) = inr (refl, λ o h. absurd (ground arith))
  verified-cases v sth panic = inr (refl, λ o h. absurd (ground arith))
  verified-cases v sth diverges = inr (refl, λ o h. absurd (ground arith))

  observe-cases :
      (v : ClientView c) (sth : SignedTreeHead c)
      → (IsValid v.operator_identity sth
          × (observe c v sth ≡ record_head c v sth (seen_at v sth.tree_size)))
        ⊎ (((observe c v sth).0 ≡ v) × ((o : Option (Evidence c)) → (observe c v sth).1 ≢ ok o))
  unfolding observe
  observe-cases v sth = elim (Bool-cases (equal c sth.operator_identity v.operator_identity)) [
    | inr other ↦ rw other (inr (refl, λ o h. absurd (ground arith)))
    | inl same ↦ elim (verified-cases v sth (verify_sth c sth)) [
      | inl (signed, e) ↦ rw same (
          inl (
            record {
              signed = signed;
              by = (equal_iff c laws sth.operator_identity v.operator_identity).0 same;
            },
            e,
          ))
      | inr failed ↦ rw same (inr failed)
    ]
  ]

  -- What an observation, or several, may do to a view, and what a report of it is.
  pub record Extends (v v' : ClientView c) : Type 0 where
    pub operator : v'.operator_identity ≡ v.operator_identity
    pub kept : (n : ℤ) (sth : SignedTreeHead c) → seen_at v n ≡ some sth → seen_at v' n ≡ some sth
    pub view : IsView v'

  Extends-refl : (v : ClientView c) → IsView v → Extends v v
  Extends-refl v w = record { operator = refl; kept = λ n sth h. h; view = w }

  insert-Extends :
      (v : ClientView c) (sth : SignedTreeHead c)
      → IsView v
      → IsValid v.operator_identity sth
      → seen_at v sth.tree_size ≡ none
      → Extends v (record v { seen = insert ℤ_discrete sth.tree_size sth v.seen })
  insert-Extends v sth w valid fresh = record {
    operator = refl;
    kept = λ n old h.
        lookup-insert_ne ℤ_discrete sth.tree_size n sth v.seen
          (λ e. none-ne-some old (sym fresh ∙ ap (seen_at v) e ∙ h))
        ∙ h;
    view = λ n found h. elim (ℤ_discrete sth.tree_size n) [
      | yes e ↦
          let same : sth ≡ found = some-injective _ _ (
            sym (lookup-insert_self ℤ_discrete sth.tree_size sth v.seen)
            ∙ ap (λ k. lookup ℤ_discrete k (insert ℤ_discrete sth.tree_size sth v.seen)) e
            ∙ h) in
          subst (λ s. (s.tree_size ≡ n) × IsValid v.operator_identity s) same (e, valid)
      | no other ↦
          w n found (sym (lookup-insert_ne ℤ_discrete sth.tree_size n sth v.seen other) ∙ h)
    ];
  }

  record-Extends :
      (v : ClientView c) (sth : SignedTreeHead c) (known : Option (SignedTreeHead c))
      → IsView v
      → IsValid v.operator_identity sth
      → seen_at v sth.tree_size ≡ known
      → Extends v (record_head c v sth known).0
        × ((ev : Evidence c)
            → (record_head c v sth known).1 ≡ ok (some ev)
            → Equivocates c ev v.operator_identity)
  unfolding record_head
  record-Extends v sth none w valid fresh =
      (insert-Extends v sth w valid fresh, λ ev h. absurd (ground arith))
  record-Extends v sth (some prior) w valid found =
      elim (Bool-cases (bytes_equal prior.root_hash sth.root_hash)) [
        | inl same ↦ rw same (Extends-refl v w, λ ev h. absurd (ground arith))
        | inr other ↦
            let (size, old) = w sth.tree_size prior found in
            rw other (
              Extends-refl v w,
              λ ev h.
                  let e : ◌≡◌ {A = Evidence c} (record { a = prior; b = sth }) ev =
                    some-injective _ _ (ok-injective _ _ h) in
                  subst (λ q. Equivocates c q v.operator_identity) e
                    (record {
                      size = size;
                      roots = λ r. false≢true (
                          sym other
                          ∙ subst (λ x. bytes_equal prior.root_hash x ≡ true) r
                              (bytes_equal_refl prior.root_hash));
                      valid_a = old.signed;
                      valid_b = valid.signed;
                      by_a = old.by;
                      by_b = valid.by;
                    }),
            )
      ]

  -- Where ML-DSA-65 keys are packed without loss, and for a view whose heads are validly signed by
  -- its operator and stand at their own size: `Observe` keeps the view so and keeps its operator,
  -- forgets and replaces no head, and reports only what proves that the operator signed two roots
  -- for one size.
  pub observe_sound :
      (v : ClientView c) (sth : SignedTreeHead c)
      → IsView v
      → Extends v (observe c v sth).0
        × ((ev : Evidence c)
            → (observe c v sth).1 ≡ ok (some ev)
            → Equivocates c ev v.operator_identity)
  observe_sound v sth w = elim (observe-cases v sth) [
    | inl (valid, e) ↦ rw e (record-Extends v sth (seen_at v sth.tree_size) w valid refl)
    | inr (same, failed) ↦
        (subst (Extends v) (sym same) (Extends-refl v w), λ ev h. absurd (failed (some ev) h))
  ]

  Extends-trans : (u v w : ClientView c) → Extends u v → Extends v w → Extends u w
  Extends-trans u v w e f = record {
    operator = f.operator ∙ e.operator;
    kept = λ n sth h. f.kept n sth (e.kept n sth h);
    view = f.view;
  }

  -- Every report of a loop proves equivocation.
  abbrev pub Sound : PublicKey c → Result (List (Evidence c)) → Type 0
  Sound operator r =
      (evs : List (Evidence c)) → r ≡ ok evs → All (λ ev. Equivocates c ev operator) evs

  Sound-cons :
      (operator : PublicKey c) (ev : Evidence c) (found : Result (List (Evidence c)))
      → Equivocates c ev operator
      → Sound operator found
      → Sound operator (found >>= λ evs. ok (ev ∷ evs))
  Sound-cons operator ev found proves all evs h = bind_cases found _ h λ rest e r.
      subst (All (λ x. Equivocates c x operator)) (ok-injective _ _ r) (proves, all rest e)

  collect-Sound :
      (operator : PublicKey c) (u v : ClientView c) (r : Result (Option (Evidence c)))
      (later : ClientView c × Result (List (Evidence c)))
      → IsView u
      → Extends u v
      → ((ev : Evidence c) → r ≡ ok (some ev) → Equivocates c ev operator)
      → Extends v later.0
      → Sound operator later.1
      → Extends u (collect c v r later).0 × Sound operator (collect c v r later).1
  unfolding collect
  collect-Sound operator u v (ok none) later w e one f all = (Extends-trans u v later.0 e f, all)
  collect-Sound operator u v (ok (some ev)) (v', found) w e one f all =
      (Extends-trans u v v' e f, Sound-cons operator ev found (one ev refl) all)
  collect-Sound operator u v (err _) later w e one f all = (Extends-trans u v later.0 e f, all)
  collect-Sound operator u v panic later w e one f all = (e, λ evs h. absurd (ground arith))
  collect-Sound operator u v diverges later w e one f all = (e, λ evs h. absurd (ground arith))

  pub observe_all-Sound :
      (v : ClientView c) (sths : List (SignedTreeHead c))
      → IsView v
      → Extends v (observe_all c v sths).0 × Sound v.operator_identity (observe_all c v sths).1
  unfolding observe_all
  observe_all-Sound v [] w = (
    Extends-refl v w,
    λ evs h. subst (All (λ ev. Equivocates c ev v.operator_identity)) (ok-injective [] evs h) tt,
  )
  observe_all-Sound v (sth ∷ rest) w =
      let (e, one) = observe_sound v sth w in
      let (f, all) = observe_all-Sound (observe c v sth).0 rest e.view in
      collect-Sound v.operator_identity v (observe c v sth).0 (observe c v sth).1
        (observe_all c (observe c v sth).0 rest) w e one f
        (subst (λ k. Sound k (observe_all c (observe c v sth).0 rest).1) e.operator all)
