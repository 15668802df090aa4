-- ===== src/Relay/Contract.antt =====
-- What the relay promises, without maps, marks and cursors: for each user an identity, the prekeys
-- that are left in order, and a queue.
use pqc_chat.Common.{
  ite, List, [], ◌∷◌, ◌++◌, Option, none, some, Bytes, Bytes_discrete, Bool, length,
}
use pqc_chat.Result.{Result, ok, err, unknown_user, no_prekeys_published, no_prekeys_available}
use pqc_chat.Crypto.{Crypto}
use pqc_chat.Identity.{PublicKey}
use pqc_chat.Prekey.{Bundle, LastResort}
use pqc_chat.Relay.{
  Server, QueuedMessage, Telemetry, fetch_prekey_bundle, send_message, poll_messages,
}
use pqc_chat.Relay.Issues.{
  Op, publishes_identity, publishes_prekeys, fetches, sends, polls, purges, step,
}
use pqc_chat.Relay.Expiry.{fresh}
use pqc_chat.Relay.InOrder.{Pool, published, draw}
use pqc_chat.Relay.Queues.{message_of}

-- A function changed at one place.
abbrev pub put {ℓ} : {A : Type ℓ} → Bytes → A → (Bytes → A) → Bytes → A
put user a f j = ite (Bytes_discrete user j) a (f j)

module _ (c : Crypto) where
  pub record Contract : Type 0 where
    pub identity : Bytes → Option (PublicKey c)
    pub pool : Bytes → Option Pool
    pub queue : Bytes → List QueuedMessage

  abbrev pub nothing_yet : Contract
  nothing_yet = record { identity = λ _. none; pool = λ _. none; queue = λ _. [] }

  -- What a caller is told.
  pub data Reply : Type 0 where
    done : Reply
    fetched : Result (Option Bundle × Bool) → Reply
    sent : Result (Unit {0}) → Reply
    polled : List QueuedMessage → Reply

  -- The replies of the code.
  abbrev pub reply : Server c → Op c → Reply
  reply s (publishes_identity _ _) = done
  reply s (publishes_prekeys _ _ _) = done
  reply s (fetches user) = fetched (fetch_prekey_bundle c s user).1
  reply s (sends r f e now) = sent (send_message c s r f e now).1
  reply s (polls user) = polled (poll_messages c s user).1
  reply s (purges _ _) = done

  abbrev pub replies : Server c → List (Op c) → List Reply
  replies s [] = []
  replies s (op ∷ ops) = reply s op ∷ replies (step c s op) ops

  -- The promised ones.
  abbrev pub fetch_from : Contract → Bytes → Option Pool → Contract × Reply
  fetch_from k user none = (k, fetched (err no_prekeys_published))
  fetch_from k user (some p) =
      (record k { pool = put user (some (draw p).0) k.pool }, fetched (draw p).1)

  abbrev pub send_to : Contract → Bytes → QueuedMessage → Option (PublicKey c) → Contract × Reply
  send_to k r m none = (k, sent (err unknown_user))
  send_to k r m (some _) = (record k { queue = put r (k.queue r ++ m ∷ []) k.queue }, sent (ok tt))

  abbrev pub serve : Contract → Op c → Contract × Reply
  serve k (publishes_identity user p) = (record k { identity = put user (some p) k.identity }, done)
  serve k (publishes_prekeys user bundles lr) =
      (record k { pool = put user (some (published bundles lr)) k.pool }, done)
  serve k (fetches user) = fetch_from k user (k.pool user)
  serve k (sends r f e now) = send_to k r (message_of c f e now) (k.identity r)
  serve k (polls user) = (record k { queue = put user [] k.queue }, polled (k.queue user))
  serve k (purges now ttl) = (record k { queue = λ j. fresh now ttl (k.queue j) }, done)

  abbrev pub promised : Contract → List (Op c) → List Reply
  promised k [] = []
  promised k (op ∷ ops) = (serve k op).1 ∷ promised (serve k op).0 ops

  abbrev pub after : Contract → List (Op c) → Contract
  after k [] = k
  after k (op ∷ ops) = after (serve k op).0 ops

  -- The read-only calls.
  abbrev pub identity_reply : Option (PublicKey c) → Result (PublicKey c)
  identity_reply none = err unknown_user
  identity_reply (some p) = ok p

  abbrev pub telemetry_reply : Option Pool → Result Telemetry
  telemetry_reply none = err no_prekeys_published
  telemetry_reply (some p) =
      ok (record { remaining = length p.left; batch_size = p.size; last_resort_uses = p.uses })

  abbrev pub or_unavailable : Option LastResort → Result LastResort
  or_unavailable none = err no_prekeys_available
  or_unavailable (some lr) = ok lr

  abbrev pub last_resort_reply : Option Pool → Result LastResort
  last_resort_reply none = err no_prekeys_published
  last_resort_reply (some p) = or_unavailable p.last_resort
