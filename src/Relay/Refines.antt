-- ===== src/Relay/Refines.antt =====
-- The relay keeps its contract: every reply of any sequence of calls is the promised one.
use pqc_chat.Common.{
  ℕ, ◌≡◌, ◌≢◌, refl, sym, ap, ap₂, ◌∙◌, subst, if_pos, if_neg, List, [], ◌∷◌, ◌++◌, Option, none,
  some, Bytes, Bytes_discrete, length,
}
use pqc_chat.Common.Int.{ℤ}
use pqc_chat.Common.Map.{lookup}
use pqc_chat.Result.{Result, ok}
use pqc_chat.Crypto.{Crypto}
use pqc_chat.Identity.{PublicKey}
use pqc_chat.Relay.{
  Server, UserPrekeys, Telemetry, new_server, fetch_identity, last_resort_prekey, prekey_telemetry,
  send_message, poll_messages, purge_expired, queue_of,
}
use pqc_chat.Relay.InOrder.{Pool}
use pqc_chat.Relay.Issues.{
  Op, publishes_identity, publishes_prekeys, fetches, sends, polls, purges, step, run, entry_of,
}
use pqc_chat.Relay.WellKept.{send-entries}
use pqc_chat.Relay.Expiry.{fresh, IsMap, insert-IsMap, erase-IsMap, purge-IsMap, purge_expired_lem}
use pqc_chat.Relay.Queues.{
  message_of, send_known, send_unknown, queue_of-send_self, queue_of-send_ne, queue_of-poll,
}
use pqc_chat.Relay.Contract.{
  Contract, put, nothing_yet, reply, replies, serve, promised, after, sent, polled, send_to,
  identity_reply, telemetry_reply, last_resort_reply, or_unavailable,
}
use pqc_chat.Relay.Serves.{
  Stands, Keeps, Serves, publish_identity-Keeps, publish_prekeys-Keeps, fetch-Serves,
}

-- A function changed where `f` is, and equal elsewhere.
put-eq :
    {A : Type 0} (user : Bytes) (f g : Bytes → A) (a : A)
    → f user ≡ a
    → ((j : Bytes) → user ≢ j → f j ≡ g j)
    → (j : Bytes) → f j ≡ put user a g j
put-eq user f g a here same j = elim (Bytes_discrete user j) [
  | yes at ↦ rw (if_pos _ at) (subst (λ k. f k ≡ a) at here)
  | no other ↦ rw (if_neg _ other) (same j other)
]

module _ (c : Crypto) where
  send-Serves :
      (s : Server c) (k : Contract c) (r f e : Bytes) (now : ℕ) (o : Option (PublicKey c))
      → lookup Bytes_discrete r s.identities ≡ o
      → k.identity r ≡ o
      → Keeps c s k
      → Serves c s
          (send_message c s r f e now).0
          (sent (send_message c s r f e now).1)
          (send_to c k r (message_of c f e now) o)
  send-Serves s k r f e now none found known h =
      let stays = send_unknown c s r f e now found in
      (subst (λ t. Keeps c t k) (sym (ap (λ x. x.0) stays)) h, ap (λ x. sent x.1) stays)
  send-Serves s k r f e now (some p) found known h =
      let goes = send_known c s r f e now (p, found) in
      let s' = (send_message c s r f e now).0 in
      (
        record {
          identity = λ j. ap (λ x. lookup Bytes_discrete j x.0.identities) goes ∙ h.identity j;
          pool = λ j.
              subst (λ m. Stands (lookup Bytes_discrete j m) (k.pool j))
                (sym (send-entries c s r f e now)) (h.pool j);
          queue =
              put-eq r (queue_of c s') k.queue (k.queue r ++ message_of c f e now ∷ [])
                (queue_of-send_self c s r f e now (p, found)
                  ∙ ap (λ q. q ++ message_of c f e now ∷ []) (h.queue r))
                (λ j other. queue_of-send_ne c s r f e j now other ∙ h.queue j);
          once =
              subst IsMap (sym (ap (λ x. x.0.queues) goes))
                (insert-IsMap r (queue_of c s r ++ message_of c f e now ∷ []) s.queues h.once);
        },
        ap (λ x. sent x.1) goes,
      )

  poll-Serves :
      (s : Server c) (k : Contract c) (user : Bytes)
      → Keeps c s k
      → Serves c s
          (poll_messages c s user).0
          (polled (poll_messages c s user).1)
          (record k { queue = put user [] k.queue }, polled (k.queue user))
  unfolding poll_messages
  poll-Serves s k user h =
      let (gone, others) = queue_of-poll c s user in
      (
        record {
          identity = h.identity;
          pool = h.pool;
          queue =
              put-eq user (queue_of c (poll_messages c s user).0) k.queue [] gone
                (λ j other. others j other ∙ h.queue j);
          once = erase-IsMap user s.queues h.once;
        },
        ap polled (h.queue user),
      )

  purge-Keeps :
      (s : Server c) (k : Contract c) (now : ℕ) (ttl : ℤ)
      → Keeps c s k
      → Keeps c (purge_expired c s now ttl).0 (record k { queue = λ j. fresh now ttl (k.queue j) })
  unfolding purge_expired
  purge-Keeps s k now ttl h =
      let (left, _) = purge_expired_lem c s now ttl h.once in
      record {
        identity = h.identity;
        pool = h.pool;
        queue = λ j. left j ∙ ap (fresh now ttl) (h.queue j);
        once = purge-IsMap now ttl s.queues h.once;
      }

  step-Serves :
      (s : Server c) (k : Contract c) (op : Op c)
      → Keeps c s k
      → Serves c s (step c s op) (reply c s op) (serve c k op)
  unfolding step
  step-Serves s k (publishes_identity user p) h = (publish_identity-Keeps c s k user p h, refl)
  step-Serves s k (publishes_prekeys user bundles lr) h =
      (publish_prekeys-Keeps c s k user bundles lr h, refl)
  step-Serves s k (fetches user) h =
      fetch-Serves c s k user (entry_of c s user) (k.pool user) refl refl (h.pool user) h
  step-Serves s k (sends r f e now) h =
      send-Serves s k r f e now (k.identity r) (h.identity r) refl h
  step-Serves s k (polls user) h = poll-Serves s k user h
  step-Serves s k (purges now ttl) h = (purge-Keeps s k now ttl h, refl)

  run-Keeps :
      (s : Server c) (k : Contract c) (ops : List (Op c))
      → Keeps c s k
      → Keeps c (run c s ops) (after c k ops) × (replies c s ops ≡ promised c k ops)
  unfolding run
  run-Keeps s k [] h = (h, refl)
  run-Keeps s k (op ∷ ops) h =
      let (kept, told) = step-Serves s k op h in
      let (end, rest) = run-Keeps (step c s op) (serve c k op).0 ops kept in
      (end, ap₂ (λ r rs. r ∷ rs) told rest)

  new_server-Keeps : Keeps c (new_server c) (nothing_yet c)
  unfolding new_server queue_of lookup
  new_server-Keeps = record { identity = λ j. refl; pool = λ j. tt; queue = λ j. refl; once = tt }

  identity-eq :
      (s : Server c) (user : Bytes) (o : Option (PublicKey c))
      → lookup Bytes_discrete user s.identities ≡ o
      → fetch_identity c s user ≡ identity_reply c o
  unfolding fetch_identity
  identity-eq s user none e = rw (e, fetch_identity)
  identity-eq s user (some p) e = rw (e, fetch_identity)

  abbrev counted : ℕ → ℕ → ℕ → Result Telemetry
  counted left size uses =
      ok (record { remaining = left; batch_size = size; last_resort_uses = uses })

  -- The replies that read a user's entry.
  abbrev Reads : Server c → Bytes → Option Pool → Type 0
  Reads s user q =
      (prekey_telemetry c s user ≡ telemetry_reply c q)
      × (last_resort_prekey c s user ≡ last_resort_reply c q)

  entry-Reads :
      (s : Server c) (user : Bytes) (o : Option UserPrekeys) (q : Option Pool)
      → entry_of c s user ≡ o
      → Stands o q
      → Reads s user q
  unfolding prekey_telemetry last_resort_prekey
  entry-Reads s user none none e o = (rw (e, prekey_telemetry), rw (e, last_resort_prekey))
  entry-Reads s user none (some p) e o = elim o [ ]
  entry-Reads s user (some up) none e o = elim o [ ]
  entry-Reads s user (some up) (some p) e o = (
    rw (e, prekey_telemetry)
        (ap₂ (λ n m. counted n m up.last_resort_use) o.count (sym o.size)
          ∙ ap (λ u. counted (length p.left) p.size u) o.uses),
    rw (e, last_resort_prekey) (ap (or_unavailable c) o.last_resort),
  )

  -- The relay refines its contract. After any calls from the empty relay: every reply to them was the
  -- promised one, and so is what `FetchIdentity`, `PrekeyTelemetry` and `LastResortPrekey` then answer. The
  -- contract promises of a user's prekeys that they are issued in the order of publication, each once,
  -- then the last-resort prekey for ever, with exact counts; of a queue that a poll delivers what was
  -- sent, in order and once, but for what a purge found too old; and errors for what was never
  -- published.
  pub relay_refines :
      (ops : List (Op c))
      → (replies c (new_server c) ops ≡ promised c (nothing_yet c) ops)
        × ((user : Bytes)
            → (fetch_identity c (run c (new_server c) ops) user
                ≡ identity_reply c ((after c (nothing_yet c) ops).identity user))
              × (prekey_telemetry c (run c (new_server c) ops) user
                  ≡ telemetry_reply c ((after c (nothing_yet c) ops).pool user))
              × (last_resort_prekey c (run c (new_server c) ops) user
                  ≡ last_resort_reply c ((after c (nothing_yet c) ops).pool user)))
  relay_refines ops =
      let s = run c (new_server c) ops in
      let k = after c (nothing_yet c) ops in
      let (kept, told) = run-Keeps (new_server c) (nothing_yet c) ops new_server-Keeps in
      (
        told,
        λ user.
            let reads =
              entry-Reads s user (entry_of c s user) (k.pool user) refl (kept.pool user) in
            (identity-eq s user (k.identity user) (kept.identity user), reads.0, reads.1),
      )
