-- ===== src/Translog/View.antt =====
-- translog/witness.go: what a client remembers of a log, and evidence of equivocation.
use pqc_chat.Common.{not, List, [], ◌∷◌, Option, none, some, bytes_equal, if◌then◌else◌}
use pqc_chat.Common.Int.{ℤ, ℤ_discrete, eqℤ}
use pqc_chat.Common.Map.{Map, lookup, insert}
use pqc_chat.Result.{
  Result, ok, err, panic, diverges, ◌>>=◌, ◌>>◌, guard, unexpected_operator, evidence_sizes_differ,
  evidence_same_root, evidence_operators_differ, evidence_wrong_operator,
}
use pqc_chat.Crypto.{Crypto}
use pqc_chat.Identity.{PublicKey, equal}
use pqc_chat.Translog.{SignedTreeHead, verify_sth}

pub record Evidence (c : Crypto) : Type 0 where
  pub a : SignedTreeHead c
  pub b : SignedTreeHead c

pub record ClientView (c : Crypto) : Type 0 where
  pub operator_identity : PublicKey c
  pub seen : Map ℤ (SignedTreeHead c)

module _ (c : Crypto) where
  unfoldable pub verify_evidence : Evidence c → PublicKey c → Result (Unit {0})
  unfolding eqℤ bytes_equal
  verify_evidence ev operator = do
    guard (eqℤ ev.a.tree_size ev.b.tree_size) evidence_sizes_differ
    guard (not (bytes_equal ev.a.root_hash ev.b.root_hash)) evidence_same_root
    verify_sth c ev.a
    verify_sth c ev.b
    guard (equal c ev.a.operator_identity ev.b.operator_identity) evidence_operators_differ
    guard (equal c ev.a.operator_identity operator) evidence_wrong_operator

  unfoldable pub new_client_view : PublicKey c → ClientView c
  new_client_view operator = record { operator_identity = operator; seen = [] }

  -- The end of `Observe`, on what is known for the head's size.
  unfoldable pub record_head :
      ClientView c
      → SignedTreeHead c
      → Option (SignedTreeHead c)
      → ClientView c × Result (Option (Evidence c))
  unfolding insert ℤ_discrete
  record_head v sth none = (record v { seen = insert ℤ_discrete sth.tree_size sth v.seen }, ok none)
  record_head v sth (some prior) =
      if bytes_equal prior.root_hash sth.root_hash
      then (v, ok none)
      else (v, ok (some (record { a = prior; b = sth })))

  -- `Observe` after the test on the operator.
  unfoldable pub observe_verified :
      ClientView c
      → SignedTreeHead c
      → Result (Unit {0})
      → ClientView c × Result (Option (Evidence c))
  unfolding record_head lookup ℤ_discrete
  observe_verified v sth (ok _) = record_head v sth (lookup ℤ_discrete sth.tree_size v.seen)
  observe_verified v sth (err e) = (v, err e)
  observe_verified v sth panic = (v, panic)
  observe_verified v sth diverges = (v, diverges)

  unfoldable pub observe :
      ClientView c → SignedTreeHead c → ClientView c × Result (Option (Evidence c))
  unfolding observe_verified
  observe v sth =
      if equal c sth.operator_identity v.operator_identity
      then observe_verified v sth (verify_sth c sth)
      else (v, err unexpected_operator)

  -- One round of a loop of `GossipWith`, on the rounds after it: an error of `Observe` is passed over.
  unfoldable pub collect :
      ClientView c
      → Result (Option (Evidence c))
      → ClientView c × Result (List (Evidence c))
      → ClientView c × Result (List (Evidence c))
  collect v (ok none) later = later
  collect v (ok (some ev)) (v', found) = (v', found >>= λ evs. ok (ev ∷ evs))
  collect v (err _) later = later
  collect v panic later = (v, panic)
  collect v diverges later = (v, diverges)

  unfoldable pub observe_all :
      ClientView c → List (SignedTreeHead c) → ClientView c × Result (List (Evidence c))
  unfolding observe collect
  observe_all v [] = (v, ok [])
  observe_all v (sth ∷ rest) = let (v', r) = observe v sth in collect v' r (observe_all v' rest)

  -- The heads of a view. Go's order of a map is arbitrary.
  abbrev pub heads : Map ℤ (SignedTreeHead c) → List (SignedTreeHead c)
  heads [] = []
  heads ((n, sth) ∷ m) = sth ∷ heads m

  -- The second loop of `GossipWith`, which runs where the first returned. The first passes over the
  -- errors of `Observe`, so that it returns none.
  unfoldable pub answer_gossip :
      ClientView c × Result (List (Evidence c))
      → ClientView c
      → List (SignedTreeHead c)
      → (ClientView c × Result (List (Evidence c))) × (ClientView c × Result (List (Evidence c)))
  unfolding observe_all
  answer_gossip (v, ok found) other sths = ((v, ok found), observe_all other sths)
  answer_gossip (v, err e) other sths = ((v, err e), (other, err e))
  answer_gossip (v, panic) other sths = ((v, panic), (other, panic))
  answer_gossip (v, diverges) other sths = ((v, diverges), (other, diverges))

  -- Two views that are different objects: both are returned, each with what it found.
  unfoldable pub gossip_with :
      ClientView c
      → ClientView c
      → (ClientView c × Result (List (Evidence c))) × (ClientView c × Result (List (Evidence c)))
  unfolding answer_gossip observe_all
  gossip_with v other = answer_gossip (observe_all v (heads other.seen)) other (heads v.seen)
