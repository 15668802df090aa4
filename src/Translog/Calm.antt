-- ===== src/Translog/Calm.antt =====
-- What a client does with the tree heads of an honest log.
use pqc_chat.Common.{
  ◌≡◌, refl, sym, ap, ◌∙◌, subst, if_pos, if_neg, List, [], ◌∷◌, Option, none, some, All,
  bytes_equal, bytes_equal_refl, true,
}
use mathlib.Core.Option.{some-injective, none-ne-some}
use pqc_chat.Common.Int.{ℤ, pos, ℤ_discrete}
use pqc_chat.Common.Map.{Map, lookup, insert, lookup-insert_self}
use pqc_chat.Result.{Result, ok}
use pqc_chat.Crypto.{Crypto, DsaKeyLaws, SignLaws}
use pqc_chat.Identity.{generate, public, verify}
use pqc_chat.Identity.Signing.{verify-sign}
use pqc_chat.Translog.{Server, SignedTreeHead, verify_sth, sth_signing_bytes}
use pqc_chat.Translog.Sound.{Covers, sign_tree_head_parts}
use pqc_chat.Translog.Heads.{heads_agree}
use pqc_chat.Translog.View.{Evidence, ClientView, record_head, observe, collect, observe_all, heads}
use pqc_chat.Translog.Detection.{IsValid, IsView, seen_at, observe_all-Sound}
use pqc_chat.Translog.Returns.{observe-valid}

module _ (c : Crypto) (signs : SignLaws c) (keys : DsaKeyLaws c) where
  -- A head of an honest log is valid.
  pub Covers-IsValid :
      (e f : c.Entropy) (s : Server c) (sth : SignedTreeHead c)
      → generate c e f ≡ ok s.operator_id
      → Covers c s sth
      → IsValid c keys (public c s.operator_id) sth
  unfolding verify_sth
  Covers-IsValid e f s sth made v =
      let (size, root, time, by, signed) =
        sign_tree_head_parts c s.operator_id (pos v.n) sth.root_hash sth.timestamp v.draw sth
          v.signed in
      record {
        signed =
            ap
              (λ k.
                verify c k (sth_signing_bytes c sth.tree_size sth.root_hash sth.timestamp)
                  sth.signature)
              by
            ∙ ap
                (λ n.
                  verify c (public c s.operator_id)
                    (sth_signing_bytes c n sth.root_hash sth.timestamp) sth.signature)
                size
            ∙ verify-sign c signs e f v.draw s.operator_id
                (sth_signing_bytes c (pos v.n) sth.root_hash sth.timestamp) sth.signature made
                signed;
        by = by;
      }

  -- Every head that is remembered is one of the log's, at its own size.
  abbrev pub Remembers : Server c → Map ℤ (SignedTreeHead c) → Type 0
  Remembers s [] = Unit {0}
  Remembers s ((n, sth) ∷ m) = (sth.tree_size ≡ n) × Covers c s sth × Remembers s m

  lookup-Covers :
      (s : Server c) (m : Map ℤ (SignedTreeHead c)) (n : ℤ) (sth : SignedTreeHead c)
      → Remembers s m
      → lookup ℤ_discrete n m ≡ some sth
      → (sth.tree_size ≡ n) × Covers c s sth
  unfolding lookup
  lookup-Covers s [] n sth r found = absurd (none-ne-some sth found)
  lookup-Covers s ((k, x) ∷ m) n sth (size, covers, rest) found = elim (ℤ_discrete k n) [
    | yes at ↦
        let same : x ≡ sth = some-injective x sth (sym (if_pos (ℤ_discrete k n) at _ _) ∙ found) in
        subst (λ y. (y.tree_size ≡ n) × Covers c s y) same (size ∙ at, covers)
    | no other ↦ lookup-Covers s m n sth rest (sym (if_neg (ℤ_discrete k n) other _ _) ∙ found)
  ]

  insert-Remembers :
      (s : Server c) (m : Map ℤ (SignedTreeHead c)) (sth : SignedTreeHead c)
      → Remembers s m
      → Covers c s sth
      → Remembers s (insert ℤ_discrete sth.tree_size sth m)
  unfolding insert
  insert-Remembers s [] sth r covers = (refl, covers, tt)
  insert-Remembers s ((k, x) ∷ m) sth (size, old, rest) covers = elim (ℤ_discrete k sth.tree_size) [
    | yes at ↦ rw (if_pos _ at) (refl, covers, rest)
    | no other ↦ rw (if_neg _ other) (size, old, insert-Remembers s m sth rest covers)
  ]

  -- A view of the log's operator that remembers only heads of the log.
  pub record Trusts (s : Server c) (v : ClientView c) : Type 0 where
    pub by : v.operator_identity ≡ public c s.operator_id
    pub seen : Remembers s v.seen

  -- What `Observe` returns for each of some heads, one after the other.
  abbrev pub replies : ClientView c → List (SignedTreeHead c) → List (Result (Option (Evidence c)))
  replies v [] = []
  replies v (sth ∷ rest) = (observe c v sth).1 ∷ replies (observe c v sth).0 rest

  -- No head is refused, and none is evidence.
  abbrev pub IsCalm : List (Result (Option (Evidence c))) → Type 0
  IsCalm = All (λ r. r ≡ ok none)

  -- What an observation of a head of the log ends in.
  abbrev pub Calm : {A : Type 0} → Server c → A → ClientView c × Result A → Type 0
  Calm s nothing (v, r) = Trusts s v × (r ≡ ok nothing)

  record-Calm :
      (s : Server c) (v : ClientView c) (sth : SignedTreeHead c) (o : Option (SignedTreeHead c))
      → Trusts s v
      → Covers c s sth
      → seen_at c keys v sth.tree_size ≡ o
      → Calm s none (record_head c v sth o)
  unfolding record_head
  record-Calm s v sth none t covers at =
      (record { by = t.by; seen = insert-Remembers s v.seen sth t.seen covers }, refl)
  record-Calm s v sth (some prior) t covers at =
      let (size, old) = lookup-Covers s v.seen sth.tree_size prior t.seen at in
      let root : prior.root_hash ≡ sth.root_hash = heads_agree c s prior sth old covers size in
      let same : bytes_equal prior.root_hash sth.root_hash ≡ true =
        subst (λ b. bytes_equal prior.root_hash b ≡ true) root (bytes_equal_refl prior.root_hash) in
      rw same (t, refl)

  observe-Calm :
      (e f : c.Entropy) (s : Server c) (v : ClientView c) (sth : SignedTreeHead c)
      → generate c e f ≡ ok s.operator_id
      → Trusts s v
      → Covers c s sth
      → Calm s none (observe c v sth)
  observe-Calm e f s v sth made t covers =
      rw
        (observe-valid c keys v sth
          (subst (λ k. IsValid c keys k sth) (sym t.by) (Covers-IsValid e f s sth made covers)))
        (record-Calm s v sth (seen_at c keys v sth.tree_size) t covers refl)

  pub observe_all-Calm :
      (e f : c.Entropy) (s : Server c) (v : ClientView c) (sths : List (SignedTreeHead c))
      → generate c e f ≡ ok s.operator_id
      → Trusts s v
      → All (Covers c s) sths
      → Calm s [] (observe_all c v sths)
  unfolding observe_all collect
  observe_all-Calm e f s v [] made t all = (t, refl)
  observe_all-Calm e f s v (sth ∷ rest) made t all =
      let (t', r) = observe-Calm e f s v sth made t all.0 in
      rw r (observe_all-Calm e f s (observe c v sth).0 rest made t' all.1)

  pub replies-IsCalm :
      (e f : c.Entropy) (s : Server c) (v : ClientView c) (sths : List (SignedTreeHead c))
      → generate c e f ≡ ok s.operator_id
      → Trusts s v
      → All (Covers c s) sths
      → IsCalm (replies v sths)
  replies-IsCalm e f s v [] made t all = tt
  replies-IsCalm e f s v (sth ∷ rest) made t all =
      let (t', r) = observe-Calm e f s v sth made t all.0 in
      (r, replies-IsCalm e f s (observe c v sth).0 rest made t' all.1)

  -- The view remembers a head of that size, with the same root.
  abbrev pub Knows : ClientView c → SignedTreeHead c → Type 0
  Knows v sth =
      (a : SignedTreeHead c) × (seen_at c keys v sth.tree_size ≡ some a)
      × (a.root_hash ≡ sth.root_hash)

  record-Knows :
      (s : Server c) (v : ClientView c) (sth : SignedTreeHead c) (o : Option (SignedTreeHead c))
      → Trusts s v
      → Covers c s sth
      → seen_at c keys v sth.tree_size ≡ o
      → Knows (record_head c v sth o).0 sth
  unfolding record_head
  record-Knows s v sth none t covers at =
      (sth, lookup-insert_self ℤ_discrete sth.tree_size sth v.seen, refl)
  record-Knows s v sth (some prior) t covers at =
      let (size, old) = lookup-Covers s v.seen sth.tree_size prior t.seen at in
      let root : prior.root_hash ≡ sth.root_hash = heads_agree c s prior sth old covers size in
      let same : bytes_equal prior.root_hash sth.root_hash ≡ true =
        subst (λ b. bytes_equal prior.root_hash b ≡ true) root (bytes_equal_refl prior.root_hash) in
      rw same (prior, at, root)

  pub Trusts-IsView :
      (e f : c.Entropy) (s : Server c) (v : ClientView c)
      → generate c e f ≡ ok s.operator_id
      → Trusts s v
      → IsView c keys v
  Trusts-IsView e f s v made t n sth found =
      let (size, covers) = lookup-Covers s v.seen n sth t.seen found in
      (size, subst (λ k. IsValid c keys k sth) (sym t.by) (Covers-IsValid e f s sth made covers))

  calm_step :
      (v : ClientView c) (sth : SignedTreeHead c) (rest : List (SignedTreeHead c))
      → (observe c v sth).1 ≡ ok none
      → observe_all c v (sth ∷ rest) ≡ observe_all c (observe c v sth).0 rest
  unfolding observe_all collect
  calm_step v sth rest r =
      ap (λ q. collect c (observe c v sth).0 q (observe_all c (observe c v sth).0 rest)) r

  pub observe_all-Knows :
      (e f : c.Entropy) (s : Server c) (v : ClientView c) (sths : List (SignedTreeHead c))
      → generate c e f ≡ ok s.operator_id
      → Trusts s v
      → All (Covers c s) sths
      → All (Knows (observe_all c v sths).0) sths
  observe_all-Knows e f s v [] made t all = tt
  observe_all-Knows e f s v (sth ∷ rest) made t all =
      let (t', r) = observe-Calm e f s v sth made t all.0 in
      let v' = (observe c v sth).0 in
      let known : Knows v' sth =
        rw
          (observe-valid c keys v sth
            (subst (λ k. IsValid c keys k sth) (sym t.by) (Covers-IsValid e f s sth made all.0)))
          (record-Knows s v sth (seen_at c keys v sth.tree_size) t all.0 refl) in
      let kept = (observe_all-Sound c keys v' rest (Trusts-IsView e f s v' made t')).0.kept in
      subst (λ q. All (Knows q.0) (sth ∷ rest)) (sym (calm_step v sth rest r))
        (
          (known.0, kept sth.tree_size known.0 known.1, known.2),
          observe_all-Knows e f s v' rest made t' all.1,
        )

  pub heads-Covers :
      (s : Server c) (m : Map ℤ (SignedTreeHead c)) → Remembers s m → All (Covers c s) (heads c m)
  heads-Covers s [] r = tt
  heads-Covers s ((k, x) ∷ m) (_, covers, rest) = (covers, heads-Covers s m rest)
