-- ===== src/Relay/WellKept.antt =====
-- Every entry of the relay keeps one mark for each bundle.
use mathlib.Core.Option.{some-injective, none-ne-some}
use pqc_chat.Common.{
  ℕ, ◌≡◌, ◌≢◌, refl, sym, ap, ◌∙◌, subst, false, List, [], ◌∷◌, Option, none, some, Bytes,
  Bytes_discrete, length, length-replicate, arith,
}
use pqc_chat.Common.Map.{lookup, lookup-insert_self, lookup-insert_ne}
use pqc_chat.Result.{err, no_prekeys_published}
use pqc_chat.Crypto.{Crypto}
use pqc_chat.Prekey.{Bundle, LastResort}
use pqc_chat.Relay.{
  Server, UserPrekeys, new_server, publish_identity, publish_prekeys, fetch_entry,
  fetch_prekey_bundle, send_message, poll_messages, purge_expired,
}
use pqc_chat.Relay.Prekeys.{IsWell}
use pqc_chat.Relay.Issues.{
  Op, publishes_identity, publishes_prekeys, fetches, sends, polls, purges, step, run, entry_of,
  IsWellKept, fetch-Fetched,
}

module _ (c : Crypto) where
  -- The calls that do not touch the prekey entries.
  pub send-entries :
      (s : Server c) (r f e : Bytes) (now : ℕ) → (send_message c s r f e now).0.prekeys ≡ s.prekeys
  unfolding send_message
  send-entries s r f e now = ground arith

  pub fetch_unknown :
      (s : Server c) (user : Bytes)
      → entry_of c s user ≡ none
      → fetch_prekey_bundle c s user ≡ (s, err no_prekeys_published)
  unfolding fetch_prekey_bundle fetch_entry
  fetch_unknown s user e = rw (e, fetch_prekey_bundle)

  fresh-IsWell :
      (s : Server c) (user : Bytes) (bundles : List Bundle) (lr : Option LastResort)
      (up : UserPrekeys)
      → entry_of c (publish_prekeys c s user bundles lr) user ≡ some up
      → IsWell up
  unfolding publish_prekeys
  fresh-IsWell s user bundles lr up e =
      subst IsWell
        (some-injective _ _ (sym (lookup-insert_self Bytes_discrete user _ s.prekeys) ∙ e))
        (record { marked = length-replicate (length bundles) false })

  pub other-entry :
      (s : Server c) (user j : Bytes) (bundles : List Bundle) (lr : Option LastResort)
      → user ≢ j
      → entry_of c (publish_prekeys c s user bundles lr) j ≡ entry_of c s j
  unfolding publish_prekeys
  other-entry s user j bundles lr h = lookup-insert_ne Bytes_discrete user j _ s.prekeys h

  pub fetch-IsWellKept :
      (s : Server c) (user : Bytes)
      → IsWellKept c s
      → (o : Option UserPrekeys) → entry_of c s user ≡ o
      → IsWellKept c (fetch_prekey_bundle c s user).0
  fetch-IsWellKept s user w none e j up found =
      w j up (rw (← ap (λ q. entry_of c q j) (ap (λ p. p.0) (fetch_unknown s user e))) found)
  fetch-IsWellKept s user w (some old) e j up found =
      let f = fetch-Fetched c s user old (w user old e) e in
      elim (Bytes_discrete user j) [
        | yes same ↦
            subst IsWell
              (some-injective _ _ (
                sym f.after
                ∙ subst (λ k. entry_of c (fetch_prekey_bundle c s user).0 k ≡ some up) (sym same)
                    found))
              f.well
        | no other ↦ w j up (sym (f.others j other) ∙ found)
      ]

  -- Every call keeps one mark for each bundle in every entry.
  pub step-IsWellKept : (s : Server c) (op : Op c) → IsWellKept c s → IsWellKept c (step c s op)
  unfolding step publish_identity poll_messages purge_expired
  step-IsWellKept s (publishes_identity user p) w = w
  step-IsWellKept s (publishes_prekeys user bundles lr) w = λ j up found.
      elim (Bytes_discrete user j) [
        | yes same ↦ fresh-IsWell s user bundles lr up (
            subst (λ k. entry_of c (publish_prekeys c s user bundles lr) k ≡ some up) (sym same)
              found)
        | no other ↦ w j up (sym (other-entry s user j bundles lr other) ∙ found)
      ]
  step-IsWellKept s (fetches user) w = fetch-IsWellKept s user w (entry_of c s user) refl
  step-IsWellKept s (sends r f e now) w = λ j up found.
      w j up (subst (λ m. lookup Bytes_discrete j m ≡ some up) (send-entries s r f e now) found)
  step-IsWellKept s (polls user) w = w
  step-IsWellKept s (purges now ttl) w = w

  pub run-IsWellKept :
      (s : Server c) (ops : List (Op c)) → IsWellKept c s → IsWellKept c (run c s ops)
  unfolding run
  run-IsWellKept s [] w = w
  run-IsWellKept s (op ∷ ops) w = run-IsWellKept (step c s op) ops (step-IsWellKept s op w)

  -- In any state that is reached from the empty relay, each entry has one mark for each bundle.
  pub run-new_server-IsWellKept : (ops : List (Op c)) → IsWellKept c (run c (new_server c) ops)
  run-new_server-IsWellKept ops = run-IsWellKept (new_server c) ops empty
    where
      empty : IsWellKept c (new_server c)
      empty = unfold new_server lookup in λ j up e. absurd (none-ne-some up e)
