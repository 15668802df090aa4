-- ===== src/Relay/OneTime.antt =====
-- No bundle is issued twice between two publications.
use mathlib.Core.Bool.{false≢true}
use mathlib.Core.Option.{some-injective}
use pqc_chat.Common.{
  ℕ, ◌≡◌, ◌≢◌, refl, sym, ap, ◌∙◌, subst, inl, inr, true, false, List, [], ◌∷◌, Option, none, some,
  Bytes, Bytes_discrete, get_elem?, arith, Option-cases,
}
use pqc_chat.Common.Map.{lookup}
use pqc_chat.Result.{ok}
use pqc_chat.Crypto.{Crypto}
use pqc_chat.Prekey.{Bundle}
use pqc_chat.Relay.{
  Server, UserPrekeys, publish_identity, fetch_prekey_bundle, poll_messages, purge_expired,
}
use pqc_chat.Relay.Issues.{
  Op, publishes_identity, publishes_prekeys, fetches, sends, polls, purges, step, run, entry_of,
  IsWellKept, fetch-Fetched,
}
use pqc_chat.Relay.WellKept.{
  send-entries, fetch_unknown, other-entry, fetch-IsWellKept, step-IsWellKept, run-IsWellKept,
}

module _ (c : Crypto) where
  -- No call of the list publishes prekeys for `user`.
  abbrev pub Keeps : Bytes → List (Op c) → Type 0
  Keeps user [] = Unit {0}
  Keeps user (publishes_prekeys u _ _ ∷ ops) = (u ≢ user) × Keeps user ops
  Keeps user (publishes_identity _ _ ∷ ops) = Keeps user ops
  Keeps user (fetches _ ∷ ops) = Keeps user ops
  Keeps user (sends _ _ _ _ ∷ ops) = Keeps user ops
  Keeps user (polls _ ∷ ops) = Keeps user ops
  Keeps user (purges _ _ ∷ ops) = Keeps user ops

  -- The user's entry after some calls: the same bundles, and every mark kept.
  abbrev Persists : Server c → Bytes → UserPrekeys → Type 0
  Persists s user up =
      (up' : UserPrekeys) × (entry_of c s user ≡ some up')
      × (up'.bundles ≡ up.bundles)
      × ((j : ℕ) → get_elem? up.consumed j ≡ some true → get_elem? up'.consumed j ≡ some true)

  fetch-Persists :
      (s : Server c) (user j : Bytes) (up : UserPrekeys)
      → IsWellKept c s
      → entry_of c s user ≡ some up
      → (o : Option UserPrekeys) → entry_of c s j ≡ o
      → Persists (fetch_prekey_bundle c s j).0 user up
  fetch-Persists s user j up w found none e = (
    up,
    subst (λ q. entry_of c q user ≡ some up) (sym (ap (λ p. p.0) (fetch_unknown c s j e))) found,
    refl,
    λ k h. h,
  )
  fetch-Persists s user j up w found (some old) e =
      let f = fetch-Fetched c s j old (w j old e) e in
      elim (Bytes_discrete j user) [
        | no other ↦ (up, f.others user other ∙ found, refl, λ k h. h)
        | yes same ↦
            let this : old ≡ up =
              some-injective _ _ (sym e ∙ subst (λ k. entry_of c s k ≡ some up) (sym same) found) in
            (
              f.up',
              subst (λ k. entry_of c (fetch_prekey_bundle c s j).0 k ≡ some f.up') same f.after,
              f.bundles ∙ ap (λ u. u.bundles) this,
              λ k h.
                  f.marks k
                    (subst (λ (u : UserPrekeys). get_elem? u.consumed k ≡ some true) (sym this) h),
            )
      ]

  step-Persists :
      (s : Server c) (op : Op c) (user : Bytes) (up : UserPrekeys)
      → IsWellKept c s
      → Keeps user (op ∷ [])
      → entry_of c s user ≡ some up
      → Persists (step c s op) user up
  unfolding step publish_identity poll_messages purge_expired
  step-Persists s (publishes_identity _ p) user up w k e = (up, e, refl, λ j h. h)
  step-Persists s (publishes_prekeys u bundles lr) user up w k e =
      (up, other-entry c s u user bundles lr k.0 ∙ e, refl, λ j h. h)
  step-Persists s (fetches j) user up w k e = fetch-Persists s user j up w e (entry_of c s j) refl
  step-Persists s (sends r f m now) user up w k e = (
    up,
    subst (λ q. lookup Bytes_discrete user q ≡ some up) (sym (send-entries c s r f m now)) e,
    refl,
    λ j h. h,
  )
  step-Persists s (polls _) user up w k e = (up, e, refl, λ j h. h)
  step-Persists s (purges _ _) user up w k e = (up, e, refl, λ j h. h)

  Keeps-head :
      (user : Bytes) (op : Op c) (ops : List (Op c)) → Keeps user (op ∷ ops) → Keeps user (op ∷ [])
  Keeps-head user (publishes_prekeys u _ _) ops k = (k.0, tt)
  Keeps-head user (publishes_identity _ _) ops k = tt
  Keeps-head user (fetches _) ops k = tt
  Keeps-head user (sends _ _ _ _) ops k = tt
  Keeps-head user (polls _) ops k = tt
  Keeps-head user (purges _ _) ops k = tt

  Keeps-tail :
      (user : Bytes) (op : Op c) (ops : List (Op c)) → Keeps user (op ∷ ops) → Keeps user ops
  Keeps-tail user (publishes_prekeys u _ _) ops k = k.1
  Keeps-tail user (publishes_identity _ _) ops k = k
  Keeps-tail user (fetches _) ops k = k
  Keeps-tail user (sends _ _ _ _) ops k = k
  Keeps-tail user (polls _) ops k = k
  Keeps-tail user (purges _ _) ops k = k

  run-Persists :
      (s : Server c) (ops : List (Op c)) (user : Bytes) (up : UserPrekeys)
      → IsWellKept c s
      → Keeps user ops
      → entry_of c s user ≡ some up
      → Persists (run c s ops) user up
  unfolding run
  run-Persists s [] user up w k e = (up, e, refl, λ j h. h)
  run-Persists s (op ∷ ops) user up w k e =
      let (v, ev, bv, mv) = step-Persists s op user up w (Keeps-head user op ops k) e in
      let (z, ez, bz, mz) =
        run-Persists (step c s op) ops user v (step-IsWellKept c s op w) (Keeps-tail user op ops k)
          ev in
      (z, ez, bz ∙ bv, λ j h. mz j (mv j h))

  issued_known :
      (s : Server c) (user : Bytes) (b : Bundle)
      → (fetch_prekey_bundle c s user).1 ≡ ok (some b, false)
      → (up : UserPrekeys) × (entry_of c s user ≡ some up)
  issued_known s user b e = elim (Option-cases (entry_of c s user)) [
    | inr found ↦ found
    | inl missing ↦ absurd (ground (arith, fetch_unknown c s user missing))
  ]

  -- In a state in which every entry has one mark for each bundle: two calls of `FetchPrekeyBundle`
  -- for one user that both issue a one-time bundle issue those at two different indices of one
  -- published list, whatever calls stand between them, as long as none of these publishes prekeys
  -- for that user.
  pub issued_once :
      (s : Server c) (user : Bytes) (ops : List (Op c)) (b b' : Bundle)
      → IsWellKept c s
      → Keeps user ops
      → (fetch_prekey_bundle c s user).1 ≡ ok (some b, false)
      → (fetch_prekey_bundle c (run c (fetch_prekey_bundle c s user).0 ops) user).1
        ≡ ok (some b', false)
      → (up : UserPrekeys) × (i : ℕ) × (j : ℕ) × (entry_of c s user ≡ some up)
        × (get_elem? up.bundles i ≡ some b)
        × (get_elem? up.bundles j ≡ some b')
        × (i ≢ j)
  issued_once s user ops b b' w k first second =
      let (up, found) = issued_known s user b first in
      let f = fetch-Fetched c s user up (w user up found) found in
      let (i, _, at, used) = f.issues b first in
      let s' = (fetch_prekey_bundle c s user).0 in
      let w' = fetch-IsWellKept c s user w (entry_of c s user) refl in
      let (v, ev, same, marks) = run-Persists s' ops user f.up' w' k f.after in
      let g = fetch-Fetched c (run c s' ops) user v (run-IsWellKept c s' ops w' user v ev) ev in
      let (j, free, at', _) = g.issues b' second in
      (
        up,
        i,
        j,
        found,
        at,
        subst (λ bs. get_elem? bs j ≡ some b') (same ∙ f.bundles) at',
        λ e. false≢true (
            some-injective _ _
              (sym free ∙ subst (λ m. get_elem? v.consumed m ≡ some true) e (marks i used))),
      )
