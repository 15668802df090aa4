-- ===== src/Translog/Exchange.antt =====
-- `GossipWith`: a conflict between two views is found by both.
use mathlib.Core.Option.{some-injective, none-ne-some}
use pqc_chat.Common.{
  ◌≡◌, ◌≢◌, sym, ap, ◌∙◌, subst, inl, inr, List, [], ◌∷◌, Option, none, some, All, Any, arith,
  if◌then◌else◌, bytes_equal_ne, if_pos, if_neg,
}
use pqc_chat.Common.Int.{ℤ, ℤ_discrete}
use pqc_chat.Common.Map.{Map, lookup}
use pqc_chat.Result.{Result, ok, err, panic, diverges, ◌>>=◌, bind_cases, ok-injective}
use pqc_chat.Crypto.{Crypto, DsaKeyLaws}
use pqc_chat.Translog.{SignedTreeHead}
use pqc_chat.Translog.View.{
  Evidence, ClientView, record_head, observe, collect, observe_all, heads, gossip_with,
}
use pqc_chat.Translog.Gossip.{Equivocates}
use pqc_chat.Translog.Returns.{gossip_with-ok, observe-valid, IsOnce, heads-All, observe_all-ok}
use pqc_chat.Translog.Detection.{IsValid, IsView, seen_at, observe_sound, observe_all-Sound}

module _ (c : Crypto) (laws : DsaKeyLaws c) where
  observe-conflict :
      (v : ClientView c) (prior sth : SignedTreeHead c)
      → IsValid c laws v.operator_identity sth
      → seen_at c laws v sth.tree_size ≡ some prior
      → prior.root_hash ≢ sth.root_hash
      → (observe c v sth).1 ≡ ok (some (record { a = prior; b = sth }))
  unfolding record_head
  observe-conflict v prior sth valid found differ =
      ap (λ p. p.1) (observe-valid c laws v sth valid ∙ ap (record_head c v sth) found)
      ∙ ap
          (λ t.
            let r : ClientView c × Result (Option (Evidence c)) =
              if t then (v, ok none) else (v, ok (some (record { a = prior; b = sth }))) in
            r.1)
          (bytes_equal_ne prior.root_hash sth.root_hash differ)

  -- A result that is a list has a report in it.
  abbrev Finds : Result (List (Evidence c)) → Type 0
  Finds r = (evs : List (Evidence c)) → r ≡ ok evs → evs ≢ []

  Finds-cons :
      (ev : Evidence c) (found : Result (List (Evidence c)))
      → Finds (found >>= λ evs. ok (ev ∷ evs))
  Finds-cons ev found evs h = bind_cases found _ h λ rest _ r e.
      let both : ◌≡◌ {A = List (Evidence c)} (ev ∷ rest) [] = ok-injective _ _ r ∙ e in ground arith

  collect-Finds :
      (v : ClientView c) (r : Result (Option (Evidence c)))
      (later : ClientView c × Result (List (Evidence c)))
      → Finds later.1
      → Finds (collect c v r later).1
  unfolding collect
  collect-Finds v (ok none) later f = f
  collect-Finds v (ok (some ev)) (v', found) f = Finds-cons ev found
  collect-Finds v (err _) later f = f
  collect-Finds v panic later f = λ evs h. absurd (ground arith)
  collect-Finds v diverges later f = λ evs h. absurd (ground arith)

  collect-report :
      (v : ClientView c) (r : Result (Option (Evidence c))) (ev : Evidence c)
      (later : ClientView c × Result (List (Evidence c)))
      → r ≡ ok (some ev)
      → Finds (collect c v r later).1
  unfolding collect
  collect-report v r ev later e =
      subst (λ q. Finds (collect c v q later).1) (sym e) (Finds-cons ev later.1)

  observe_all-Finds :
      (v : ClientView c) (prior sth : SignedTreeHead c) (sths : List (SignedTreeHead c))
      → IsView c laws v
      → IsValid c laws v.operator_identity sth
      → seen_at c laws v sth.tree_size ≡ some prior
      → prior.root_hash ≢ sth.root_hash
      → Any (λ s. s ≡ sth) sths
      → Finds (observe_all c v sths).1
  unfolding observe_all
  observe_all-Finds v prior sth [] w valid found differ member = elim member [ ]
  observe_all-Finds v prior sth (s ∷ rest) w valid found differ (inl same) =
      collect-report (observe c v s).0 (observe c v s).1 (record { a = prior; b = sth })
        (observe_all c (observe c v s).0 rest)
        (ap (λ q. (observe c v q).1) same ∙ observe-conflict v prior sth valid found differ)
  observe_all-Finds v prior sth (s ∷ rest) w valid found differ (inr later) =
      let e = (observe_sound c laws v s w).0 in
      collect-Finds (observe c v s).0 (observe c v s).1 (observe_all c (observe c v s).0 rest) (
        observe_all-Finds (observe c v s).0 prior sth rest e.view
          (subst (λ o. IsValid c laws o sth) (sym e.operator) valid)
          (e.kept sth.tree_size prior found) differ later)

  heads-has :
      (n : ℤ) (sth : SignedTreeHead c) (m : Map ℤ (SignedTreeHead c))
      → lookup ℤ_discrete n m ≡ some sth
      → Any (λ s. s ≡ sth) (heads c m)
  unfolding lookup
  heads-has n sth [] h = absurd (none-ne-some sth h)
  heads-has n sth ((k, s) ∷ m) h = elim (ℤ_discrete k n) [
    | yes e ↦ inl (some-injective s sth (rw (if_pos _ e) at h))
    | no other ↦ inr (heads-has n sth m (rw (if_neg _ other) at h))
  ]

  -- One direction of an exchange.
  one_way :
      (v other : ClientView c) (n : ℤ) (a b : SignedTreeHead c)
      → IsView c laws v
      → IsView c laws other
      → v.operator_identity ≡ other.operator_identity
      → seen_at c laws v n ≡ some a
      → seen_at c laws other n ≡ some b
      → a.root_hash ≢ b.root_hash
      → Finds (observe_all c v (heads c other.seen)).1
  one_way v other n a b w w' same seen_a seen_b differ =
      let (size, valid) = w' n b seen_b in
      observe_all-Finds v a b (heads c other.seen) w
        (subst (λ o. IsValid c laws o b) (sym same) valid) (ap (seen_at c laws v) size ∙ seen_a)
        differ (heads-has n b other.seen seen_b)

  -- One direction of an exchange: the loop returns, and what it returns.
  reports :
      (v other : ClientView c) (n : ℤ) (a b : SignedTreeHead c)
      → IsView c laws v
      → IsView c laws other
      → IsOnce c laws other.seen
      → v.operator_identity ≡ other.operator_identity
      → seen_at c laws v n ≡ some a
      → seen_at c laws other n ≡ some b
      → a.root_hash ≢ b.root_hash
      → (evs : List (Evidence c)) × ((observe_all c v (heads c other.seen)).1 ≡ ok evs)
        × (evs ≢ [])
        × All (λ ev. Equivocates c ev v.operator_identity) evs
  reports v other n a b w w' once same seen_a seen_b differ =
      let valid =
        heads-All c laws (IsValid c laws v.operator_identity) other.seen once
          λ m sth found. subst (λ o. IsValid c laws o sth) (sym same) (w' m sth found).1 in
      let (evs, r) = observe_all-ok c laws v (heads c other.seen) w valid in
      (
        evs,
        r,
        one_way v other n a b w w' same seen_a seen_b differ evs r,
        (observe_all-Sound c laws v (heads c other.seen) w).1 evs r,
      )

  -- Where ML-DSA-65 keys are packed without loss: let two views of one operator, with heads that
  -- it validly signed and one head for a size, hold different roots for some size. Both loops of
  -- `GossipWith` then return, each side has at least one report, and every report proves that the
  -- operator signed two roots for one size.
  pub gossip_with_detects :
      (v other : ClientView c) (n : ℤ) (a b : SignedTreeHead c)
      → IsView c laws v
      → IsView c laws other
      → IsOnce c laws v.seen
      → IsOnce c laws other.seen
      → v.operator_identity ≡ other.operator_identity
      → seen_at c laws v n ≡ some a
      → seen_at c laws other n ≡ some b
      → a.root_hash ≢ b.root_hash
      → ((evs : List (Evidence c)) × ((gossip_with c v other).0.1 ≡ ok evs)
          × (evs ≢ [])
          × All (λ ev. Equivocates c ev v.operator_identity) evs)
        × ((evs : List (Evidence c)) × ((gossip_with c v other).1.1 ≡ ok evs)
            × (evs ≢ [])
            × All (λ ev. Equivocates c ev other.operator_identity) evs)
  gossip_with_detects v other n a b w w' once once' same seen_a seen_b differ =
      let mine = reports v other n a b w w' once' same seen_a seen_b differ in
      let yours = reports other v n b a w' w once (sym same) seen_b seen_a (λ e. differ (sym e)) in
      subst
        (λ q.
          ((evs : List (Evidence c)) × (q.0.1 ≡ ok evs)
            × (evs ≢ [])
            × All (λ ev. Equivocates c ev v.operator_identity) evs)
          × ((evs : List (Evidence c)) × (q.1.1 ≡ ok evs)
              × (evs ≢ [])
              × All (λ ev. Equivocates c ev other.operator_identity) evs))
        (sym (gossip_with-ok c laws v other mine.0 mine.1)) (mine, yours)
