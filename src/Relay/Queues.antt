-- ===== src/Relay/Queues.antt =====
-- Store and forward: what a poll delivers.
use pqc_chat.Common.{
  ℕ, ◌≡◌, ◌≢◌, sym, ap, ◌∙◌, subst, inl, inr, ite, if_pos, if_neg, List, [], ◌∷◌, ◌++◌,
  append_assoc, append-nil, none, some, Bytes, Bytes_discrete, arith, Option-cases,
}
use pqc_chat.Common.Map.{
  lookup, insert, lookup-insert_self, lookup-insert_ne, lookup-erase_self, lookup-erase_ne,
}
use pqc_chat.Result.{ok, err, unknown_user}
use pqc_chat.Crypto.{Crypto}
use pqc_chat.Identity.{PublicKey}
use pqc_chat.Relay.{
  Server, QueuedMessage, or_empty, publish_identity, publish_prekeys, fetch_prekey_bundle, queue_of,
  send_message, poll_messages,
}
use pqc_chat.Relay.Issues.{
  Op, publishes_identity, publishes_prekeys, fetches, sends, polls, purges, step, run,
}

module _ (c : Crypto) where
  -- The user has an identity on file.
  abbrev pub IsKnown : Server c → Bytes → Type 0
  IsKnown s user = (p : PublicKey c) × (lookup Bytes_discrete user s.identities ≡ some p)

  abbrev pub message_of : Bytes → Bytes → ℕ → QueuedMessage
  message_of sender envelope now = record { from = sender; envelope = envelope; queued_at = now }

  pub send_known :
      (s : Server c) (r f e : Bytes) (now : ℕ)
      → IsKnown s r
      → send_message c s r f e now ≡ (
        record s {
          queues = insert Bytes_discrete r (queue_of c s r ++ message_of f e now ∷ []) s.queues;
        },
        ok tt,
      )
  unfolding send_message
  send_known s r f e now (p, known) = rw (known, send_message)

  -- A send to a user with no identity is an error and changes nothing.
  pub send_unknown :
      (s : Server c) (r f e : Bytes) (now : ℕ)
      → lookup Bytes_discrete r s.identities ≡ none
      → send_message c s r f e now ≡ (s, err unknown_user)
  unfolding send_message
  send_unknown s r f e now missing = rw (missing, send_message)

  pub queue_of-send_self :
      (s : Server c) (r f e : Bytes) (now : ℕ)
      → IsKnown s r
      → queue_of c (send_message c s r f e now).0 r ≡ queue_of c s r ++ message_of f e now ∷ []
  unfolding queue_of
  queue_of-send_self s r f e now known = rw (send_known s r f e now known) (
      ap or_empty
        (lookup-insert_self Bytes_discrete r (queue_of c s r ++ message_of f e now ∷ []) s.queues))

  pub queue_of-send_ne :
      (s : Server c) (r f e user : Bytes) (now : ℕ)
      → r ≢ user
      → queue_of c (send_message c s r f e now).0 user ≡ queue_of c s user
  unfolding queue_of
  queue_of-send_ne s r f e user now other =
      elim (Option-cases (lookup Bytes_discrete r s.identities)) [
        | inl missing ↦ rw (send_unknown s r f e now missing)
        | inr known ↦
            rw (send_known s r f e now known)
              (ap or_empty (lookup-insert_ne Bytes_discrete r user _ s.queues other))
      ]

  -- A poll leaves the user nothing, and every other user's queue as it was.
  pub queue_of-poll :
      (s : Server c) (user : Bytes)
      → (queue_of c (poll_messages c s user).0 user ≡ [])
        × ((j : Bytes) → user ≢ j → queue_of c (poll_messages c s user).0 j ≡ queue_of c s j)
  unfolding queue_of poll_messages
  queue_of-poll s user = (
    ap or_empty (lookup-erase_self Bytes_discrete user s.queues),
    λ j h. ap or_empty (lookup-erase_ne Bytes_discrete user j s.queues h),
  )

  -- The messages that the calls send to `user`, in order.
  abbrev pub sent_to : Bytes → List (Op c) → List QueuedMessage
  sent_to user [] = []
  sent_to user (sends r f e now ∷ ops) =
      ite (Bytes_discrete r user) (message_of f e now ∷ sent_to user ops) (sent_to user ops)
  sent_to user (publishes_identity _ _ ∷ ops) = sent_to user ops
  sent_to user (publishes_prekeys _ _ _ ∷ ops) = sent_to user ops
  sent_to user (fetches _ ∷ ops) = sent_to user ops
  sent_to user (polls _ ∷ ops) = sent_to user ops
  sent_to user (purges _ _ ∷ ops) = sent_to user ops

  -- No call of the list purges, or polls for `user`.
  abbrev pub Waits : Bytes → List (Op c) → Type 0
  Waits user [] = Unit {0}
  Waits user (polls u ∷ ops) = (u ≢ user) × Waits user ops
  Waits user (purges _ _ ∷ ops) = ⊥
  Waits user (sends _ _ _ _ ∷ ops) = Waits user ops
  Waits user (publishes_identity _ _ ∷ ops) = Waits user ops
  Waits user (publishes_prekeys _ _ _ ∷ ops) = Waits user ops
  Waits user (fetches _ ∷ ops) = Waits user ops

  -- Calls never take an identity away.
  pub fetch-rest :
      (s : Server c) (u : Bytes)
      → ((fetch_prekey_bundle c s u).0.identities ≡ s.identities)
        × ((fetch_prekey_bundle c s u).0.queues ≡ s.queues)
  unfolding fetch_prekey_bundle
  fetch-rest s u = ground arith

  publish-IsKnown :
      (s : Server c) (u user : Bytes) (p : PublicKey c)
      → IsKnown s user
      → IsKnown (publish_identity c s u p) user
  unfolding publish_identity
  publish-IsKnown s u user p (q, e) = elim (Bytes_discrete u user) [
    | yes same ↦ (
      p,
      subst (λ k. lookup Bytes_discrete k (insert Bytes_discrete u p s.identities) ≡ some p) same
          (lookup-insert_self Bytes_discrete u p s.identities),
    )
    | no other ↦ (q, lookup-insert_ne Bytes_discrete u user p s.identities other ∙ e)
  ]

  pub send-IsKnown :
      (s : Server c) (r f e user : Bytes) (now : ℕ)
      → IsKnown s user
      → IsKnown (send_message c s r f e now).0 user
  send-IsKnown s r f e user now (q, known) =
      elim (Option-cases (lookup Bytes_discrete r s.identities)) [
        | inl missing ↦ (q, rw (send_unknown s r f e now missing) known)
        | inr found ↦ (q, rw (send_known s r f e now found) known)
      ]

  run-Grows :
      (s : Server c) (ops : List (Op c)) (user : Bytes)
      → IsKnown s user
      → Waits user ops
      → queue_of c (run c s ops) user ≡ queue_of c s user ++ sent_to user ops
  unfolding run step queue_of publish_identity publish_prekeys
  run-Grows s [] user k w = sym (append-nil (queue_of c s user))
  run-Grows s (publishes_identity u p ∷ ops) user k w =
      run-Grows (publish_identity c s u p) ops user (publish-IsKnown s u user p k) w
  run-Grows s (publishes_prekeys u bs lr ∷ ops) user k w =
      run-Grows (publish_prekeys c s u bs lr) ops user k w
  run-Grows s (fetches u ∷ ops) user (p, k) w =
      let r = fetch-rest s u in
      run-Grows (fetch_prekey_bundle c s u).0 ops user
        (p, subst (λ m. lookup Bytes_discrete user m ≡ some p) (sym r.0) k) w
      ∙ ap (λ m. or_empty (lookup Bytes_discrete user m) ++ sent_to user ops) r.1
  run-Grows s (polls u ∷ ops) user k w =
      run-Grows (poll_messages c s u).0 ops user (unfold poll_messages in k) w.1
      ∙ ap (λ q. q ++ sent_to user ops) ((queue_of-poll s u).1 user w.0)
  run-Grows s (purges now ttl ∷ ops) user k w = absurd w
  run-Grows s (sends r f e now ∷ ops) user k w = elim (Bytes_discrete r user) [
    | yes same ↦
        let known = subst (IsKnown s) (sym same) k in
        let sent = queue_of-send_self s r f e now known in
        run-Grows (send_message c s r f e now).0 ops user (send-IsKnown s r f e user now k) w
        ∙ ap (λ q. q ++ sent_to user ops)
            (subst
              (λ j.
                queue_of c (send_message c s r f e now).0 j
                ≡ queue_of c s j ++ message_of f e now ∷ [])
              same sent)
        ∙ append_assoc (queue_of c s user) (message_of f e now ∷ []) (sent_to user ops)
        ∙ ap (λ ms. queue_of c s user ++ ms) (sym (if_pos (Bytes_discrete r user) same _ _))
    | no other ↦
        run-Grows (send_message c s r f e now).0 ops user (send-IsKnown s r f e user now k) w
        ∙ ap (λ q. q ++ sent_to user ops) (queue_of-send_ne s r f e user now other)
        ∙ ap (λ ms. queue_of c s user ++ ms) (sym (if_neg (Bytes_discrete r user) other _ _))
  ]

  -- A poll returns, in order, what was queued for the user before and then every message that was sent
  -- to the user since, and leaves the queue empty: for a user with an identity on file, and any calls in
  -- between that do not purge and do not poll for that user.
  pub poll_delivers :
      (s : Server c) (ops : List (Op c)) (user : Bytes)
      → IsKnown s user
      → Waits user ops
      → ((poll_messages c (run c s ops) user).1 ≡ queue_of c s user ++ sent_to user ops)
        × (queue_of c (poll_messages c (run c s ops) user).0 user ≡ [])
  poll_delivers s ops user k w =
      (unfold poll_messages in run-Grows s ops user k w, (queue_of-poll (run c s ops) user).0)
