-- ===== src/Translog/Returns.antt =====
-- `Observe` and the loops of `GossipWith` on valid heads: they return.
use mathlib.Core.Option.{none-ne-some}
use pqc_chat.Common.{
  ◌≡◌, refl, Bool-cases, bytes_equal, sym, ap, ◌∙◌, subst, inl, inr, List, [], ◌∷◌, Option, none,
  some, All, if◌then◌else◌, if_pos, if_neg,
}
use pqc_chat.Common.Int.{ℤ, ℤ_discrete}
use pqc_chat.Common.Map.{Map, lookup}
use pqc_chat.Result.{Result, ok, err, ◌>>=◌, unexpected_operator}
use pqc_chat.Crypto.{Crypto, DsaKeyLaws}
use pqc_chat.Identity.Keys.{equal_iff}
use pqc_chat.Translog.{SignedTreeHead, verify_sth}
use pqc_chat.Translog.View.{
  Evidence, ClientView, record_head, observe_verified, observe, collect, observe_all, heads,
  answer_gossip, gossip_with,
}
use pqc_chat.Translog.Detection.{IsValid, IsView, seen_at, observe_sound}

module _ (c : Crypto) (laws : DsaKeyLaws c) where
  -- `Observe` of a valid head.
  pub observe-valid :
      (v : ClientView c) (sth : SignedTreeHead c)
      → IsValid c laws v.operator_identity sth
      → observe c v sth ≡ record_head c v sth (seen_at c laws v sth.tree_size)
  unfolding observe observe_verified
  observe-valid v sth valid =
      ap
        (λ t.
          if t then observe_verified c v sth (verify_sth c sth) else (v, err unexpected_operator))
        ((equal_iff c laws sth.operator_identity v.operator_identity).1 valid.by)
      ∙ ap (observe_verified c v sth) valid.signed

  -- Each key stands once, as in a Go map.
  abbrev pub IsOnce : Map ℤ (SignedTreeHead c) → Type 0
  IsOnce [] = Unit {0}
  IsOnce ((k, s) ∷ m) = (lookup ℤ_discrete k m ≡ none) × IsOnce m

  pub heads-All :
      (P : SignedTreeHead c → Type 0) (m : Map ℤ (SignedTreeHead c))
      → IsOnce m
      → ((n : ℤ) (sth : SignedTreeHead c) → lookup ℤ_discrete n m ≡ some sth → P sth)
      → All P (heads c m)
  unfolding lookup
  heads-All P [] once holds = tt
  heads-All P ((k, s) ∷ m) (absent, once) holds = (
    holds k s (if_pos (ℤ_discrete k k) refl _ _),
    heads-All P m once λ n sth found. holds n sth (
        if_neg (ℤ_discrete k n)
          (λ e. none-ne-some sth (sym absent ∙ ap (λ j. lookup ℤ_discrete j m) e ∙ found)) _ _
        ∙ found),
  )

  record_head-ok :
      (v : ClientView c) (sth : SignedTreeHead c) (known : Option (SignedTreeHead c))
      → (o : Option (Evidence c)) × ((record_head c v sth known).1 ≡ ok o)
  unfolding record_head
  record_head-ok v sth none = (none, refl)
  record_head-ok v sth (some prior) =
      elim (Bool-cases (bytes_equal prior.root_hash sth.root_hash)) [
        | inl same ↦ (none, rw same refl)
        | inr other ↦ (some (record { a = prior; b = sth }), rw other refl)
      ]

  collect-ok :
      (v : ClientView c) (o : Option (Evidence c))
      (later : ClientView c × Result (List (Evidence c))) (evs : List (Evidence c))
      → later.1 ≡ ok evs
      → (all : List (Evidence c)) × ((collect c v (ok o) later).1 ≡ ok all)
  unfolding collect
  collect-ok v none later evs e = (evs, e)
  collect-ok v (some ev) (v', found) evs e = (ev ∷ evs, ap (λ r. r >>= λ xs. ok (ev ∷ xs)) e)

  -- On valid heads the loop returns.
  pub observe_all-ok :
      (v : ClientView c) (sths : List (SignedTreeHead c))
      → IsView c laws v
      → All (IsValid c laws v.operator_identity) sths
      → (evs : List (Evidence c)) × ((observe_all c v sths).1 ≡ ok evs)
  unfolding observe_all
  observe_all-ok v [] w all = ([], refl)
  observe_all-ok v (s ∷ rest) w all =
      let e = (observe_sound c laws v s w).0 in
      let (o, told) = record_head-ok v s (seen_at c laws v s.tree_size) in
      let (evs, later) =
        observe_all-ok (observe c v s).0 rest e.view
          (subst (λ k. All (IsValid c laws k) rest) (sym e.operator) all.1) in
      let (found, r) =
        collect-ok (observe c v s).0 o (observe_all c (observe c v s).0 rest) evs later in
      (
        found,
        ap (λ q. (collect c (observe c v s).0 q (observe_all c (observe c v s).0 rest)).1)
              (ap (λ q. q.1) (observe-valid v s all.0) ∙ told)
            ∙ r,
      )

  -- Where the first loop of `GossipWith` returns, the second runs.
  pub gossip_with-ok :
      (v other : ClientView c) (evs : List (Evidence c))
      → (observe_all c v (heads c other.seen)).1 ≡ ok evs
      → gossip_with c v other
        ≡ (observe_all c v (heads c other.seen), observe_all c other (heads c v.seen))
  unfolding gossip_with answer_gossip
  gossip_with-ok v other evs e =
      let w = (observe_all c v (heads c other.seen)).0 in
      ap (λ r. answer_gossip c (w, r) other (heads c v.seen)) e
      ∙ ap (λ r. ((w, r), observe_all c other (heads c v.seen))) (sym e)
